-- ===== src/Api/Runs.antt =====
-- Actions and their runs, and the log of what was done: endpoints of web/src/lib/api.ts. `encode` stands for
-- `encodeURIComponent`, `form` for `toString` of `URLSearchParams`.
use mc_gantry.Base.{ℕ, List, ◌++◌, Option, none, some, Text, codes}
use mc_gantry.Utils.Json.{Json, Fields, obj, end, field}
use mc_gantry.Export.Bytes.{decimal}
use mc_gantry.Api.Request.{Request, get, post, number_param, query_suffix}

-- `...(secrets ? { secrets } : {})`
abbrev pub secrets_field : Option Json → Fields
secrets_field none = end
secrets_field (some secrets) = field (codes "secrets") secrets end

module _ (encode : Text → Text) (form : List (Text × Text) → Text) where
  unfoldable pub list_actions : Request
  list_actions = get (codes "/actions")

  unfoldable pub list_all_action_runs : Option ℕ → Option ℕ → Request
  list_all_action_runs limit offset = get (
      codes "/actions/runs"
      ++ (query_suffix (form (number_param "limit" limit ++ number_param "offset" offset))))

  unfoldable pub list_action_runs : Text → Request
  list_action_runs action_name = get (codes "/actions/" ++ (encode action_name ++ codes "/runs"))

  unfoldable pub execute_action : Text → Json → Option Json → Request
  execute_action name inputs secrets =
      post (codes "/actions/" ++ (name ++ codes "/execute"))
        (some (obj (field (codes "inputs") inputs (secrets_field secrets))))

  unfoldable pub get_action_run : Text → Text → Request
  get_action_run action_name run_id =
      get (codes "/actions/" ++ (action_name ++ (codes "/runs/" ++ run_id)))

  unfoldable pub get_github_workflows : Text → Request
  get_github_workflows repo_url = get (codes "/actions/github-workflows?repo=" ++ encode repo_url)

  unfoldable pub get_github_workflow_inputs : Text → Text → Request
  get_github_workflow_inputs repo_url workflow = get (
      codes "/actions/github-workflow-inputs?repo="
      ++ (encode repo_url ++ (codes "&workflow=" ++ encode workflow)))

  unfoldable pub list_audit_entries : ℕ → ℕ → Request
  unfolding decimal
  list_audit_entries limit offset =
      get (codes "/audit?limit=" ++ (decimal limit ++ (codes "&offset=" ++ decimal offset)))

  unfoldable pub check_health : Text → Request
  check_health url = get (codes "/health-check?url=" ++ encode url)
