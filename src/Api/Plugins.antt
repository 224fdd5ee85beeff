-- ===== src/Api/Plugins.antt =====
-- Plugins and the systems behind them: endpoints of web/src/lib/api.ts. `encode` stands for
-- `encodeURIComponent`, `form` for `toString` of `URLSearchParams`.
use mc_gantry.Base.{
  Bool, true, false, List, [], ◌∷◌, ◌++◌, Option, none, some, Text, codes, present,
}
use mc_gantry.Utils.Json.{Json, bool, str, obj, end, field}
use mc_gantry.Api.Request.{Request, get, post, put, text_param, query_of, joined}

-- `if (!includeContent) params.set('content', 'false');`
abbrev pub content_param : Bool → List (Text × Text)
content_param true = []
content_param false = (codes "content", codes "false") ∷ []

module _ (encode : Text → Text) (form : List (Text × Text) → Text) where
  unfoldable pub list_plugins : Request
  list_plugins = get (codes "/plugins")

  unfoldable pub get_plugin : Text → Request
  get_plugin name = get (codes "/plugins/" ++ name)

  unfoldable pub enable_plugin : Text → Bool → Request
  enable_plugin name enabled =
      put (codes "/plugins/" ++ (name ++ codes "/enable"))
        (some (obj (field (codes "enabled") (bool enabled) end)))

  unfoldable pub get_plugin_config : Text → Request
  get_plugin_config name = get (codes "/plugins/" ++ (name ++ codes "/config"))

  unfoldable pub update_plugin_config : Text → Json → Request
  update_plugin_config name values =
      put (codes "/plugins/" ++ (name ++ codes "/config")) (some values)

  unfoldable pub sync_plugin : Text → Request
  sync_plugin name = post (codes "/plugins/" ++ (name ++ codes "/sync")) (some (obj end))

  unfoldable pub get_kubernetes_workload : Text → List Text → Request
  get_kubernetes_workload app_name namespaces = get (
      codes "/plugins/kubernetes/workload/"
      ++ (encode app_name ++ (codes "?namespaces=" ++ joined namespaces)))

  unfoldable pub get_github_repo : Text → Request
  get_github_repo url = get (codes "/plugins/github/repo?url=" ++ encode url)

  unfoldable pub get_github_wiki : Text → Option Text → Bool → Request
  get_github_wiki url page include_content = get (
      codes "/plugins/github/wiki?"
      ++ (form ((codes "url", url) ∷ (text_param "page" page ++ content_param include_content))))

  unfoldable pub get_argocd_entity_apps : List Text → Request
  get_argocd_entity_apps app_names =
      get (codes "/plugins/argocd/entity-apps?appNames=" ++ encode (joined app_names))

  unfoldable pub get_argocd_app : Text → Option Text → Request
  get_argocd_app app_name instance_name = get (
      codes "/plugins/argocd/apps/"
      ++ (encode app_name ++ query_of encode "instance" instance_name))

  unfoldable pub sync_argocd_app : Text → Bool → Option Text → Request
  sync_argocd_app app_name hard instance_name =
      post
        (codes "/plugins/argocd/apps/"
          ++ (encode app_name ++ (codes "/sync" ++ query_of encode "instance" instance_name)))
        (some (obj (field (codes "hard") (bool hard) end)))

  unfoldable pub refresh_argocd_app : Text → Option Text → Request
  refresh_argocd_app app_name instance_name =
      post
        (codes "/plugins/argocd/apps/"
          ++ (encode app_name ++ (codes "/refresh" ++ query_of encode "instance" instance_name)))
        (some (obj end))

  unfoldable pub get_harbor_repositories : Text → Request
  get_harbor_repositories project =
      get (codes "/plugins/harbor/repositories?project=" ++ encode project)

  unfoldable pub get_harbor_artifacts : Text → Text → Request
  get_harbor_artifacts project repository = get (
      codes "/plugins/harbor/artifacts?project="
      ++ (encode project ++ (codes "&repository=" ++ encode repository)))

  unfoldable pub get_harbor_vulnerabilities : Text → Text → Text → Request
  get_harbor_vulnerabilities project repository reference = get (
      codes "/plugins/harbor/vulnerabilities?project="
      ++ (encode project
          ++ (codes "&repository="
              ++ (encode repository ++ (codes "&reference=" ++ encode reference)))))

  unfoldable pub get_harbor_summary : Request
  get_harbor_summary = get (codes "/plugins/harbor/summary")

  unfoldable pub get_nexus_repositories : Request
  get_nexus_repositories = get (codes "/plugins/nexus-repository-manager/repositories")

  unfoldable pub get_nexus_components : Text → Option Text → Option Text → Option Text → Request
  get_nexus_components name repository group format = get (
      codes "/plugins/nexus-repository-manager/components?"
      ++ (form (
          text_param "name" (some name)
          ++ (text_param "repository" repository
              ++ (text_param "group" group ++ text_param "format" format)))))

  unfoldable pub get_nexus_assets : Option Text → Option Text → Request
  get_nexus_assets name repository = get (
      codes "/plugins/nexus-repository-manager/assets?"
      ++ (form (text_param "name" name ++ text_param "repository" repository)))

  unfoldable pub get_status_monitor_statuses : Request
  get_status_monitor_statuses = get (codes "/plugins/status-monitor/statuses")

  unfoldable pub get_topology_data : Option Text → Request
  get_topology_data env =
      get (codes "/plugins/topology-explorer/data" ++ query_of encode "environment" env)

  unfoldable pub get_topology_status : Request
  get_topology_status = get (codes "/plugins/topology-explorer/status")

  unfoldable pub get_gitops_status : Request
  get_gitops_status = get (codes "/plugins/gitops/status")

  unfoldable pub get_gitops_history : Request
  get_gitops_history = get (codes "/plugins/gitops/history")

  unfoldable pub get_gitops_files : Request
  get_gitops_files = get (codes "/plugins/gitops/files")

  unfoldable pub get_gitops_file_content : Text → Request
  get_gitops_file_content path = get (codes "/plugins/gitops/file-content?path=" ++ encode path)

  unfoldable pub trigger_gitops_sync : Request
  trigger_gitops_sync = post (codes "/plugins/gitops/sync") none

  unfoldable pub trigger_gitops_pull : Request
  trigger_gitops_pull = post (codes "/plugins/gitops/pull") none

  unfoldable pub trigger_gitops_bidisync : Request
  trigger_gitops_bidisync = post (codes "/plugins/gitops/bidisync") none

-- The details of the event that tells that a plugin was switched or configured.
abbrev pub enable_announced : Text → Bool → Json
enable_announced name enabled =
    obj (field (codes "name") (str name) (field (codes "enabled") (bool enabled) end))

abbrev pub config_announced : Text → Json
config_announced name = obj (field (codes "name") (str name) end)

-- The address and the headers of the stream of a pod's log.
abbrev pub authorization_of : Option Text → List (Text × Text)
authorization_of token = elim (present token) [
  | none ↦ []
  | some t ↦ (codes "Authorization", codes "Bearer " ++ t) ∷ []
]

module _ (encode : Text → Text) where
  unfoldable pub stream_kubernetes_pod_logs :
      Option Text → Text → Text → Text → Option Text → Text × List (Text × Text)
  stream_kubernetes_pod_logs auth_token namespace pod container cluster = (
    codes "/api/v1/plugins/kubernetes/pods/"
        ++ (encode namespace
            ++ (codes "/"
                ++ (encode pod
                    ++ (codes "/containers/"
                        ++ (encode container
                            ++ (codes "/logs" ++ query_of encode "cluster" cluster)))))),
    authorization_of auth_token,
  )
