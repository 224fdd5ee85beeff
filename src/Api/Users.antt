-- ===== src/Api/Users.antt =====
-- Sign-in, users, keys, groups, roles and permissions: endpoints of web/src/lib/api.ts. `encode` stands for
-- `encodeURIComponent`, `form` for `toString` of `URLSearchParams`.
use mc_gantry.Base.{Bool, true, false, List, ◌++◌, Option, none, some, Text, codes}
use mc_gantry.Utils.Json.{Json, undef, bool, str, obj, end, field}
use mc_gantry.Api.Request.{Request, get, post, put, delete}

-- `ssoOnly ? undefined : password`
abbrev pub password_unless : Option Bool → Text → Json
password_unless (some true) password = undef
password_unless (some false) password = str password
password_unless none password = str password

abbrev pub flag : Option Bool → Json
flag none = undef
flag (some b) = bool b

module _ (encode : Text → Text) (form : List (Text × Text) → Text) where
  unfoldable pub get_version : Request
  get_version = get (codes "/version")

  unfoldable pub login : Text → Text → Request
  login username password = post (codes "/auth/login") (
      some (
        obj
          (field (codes "username") (str username) (field (codes "password") (str password) end))))

  unfoldable pub get_me : Request
  get_me = get (codes "/auth/me")

  unfoldable pub logout : Request
  logout = post (codes "/auth/logout") none

  unfoldable pub change_password : Text → Text → Request
  change_password current_password new_password = put (codes "/auth/me/password") (
      some (
        obj (
          field (codes "currentPassword") (str current_password)
            (field (codes "newPassword") (str new_password) end))))

  unfoldable pub list_users : Request
  list_users = get (codes "/auth/users")

  unfoldable pub create_user : Text → Text → Json → Json → Json → Option Bool → Request
  create_user username password display_name email role sso_only = post (codes "/auth/register") (
      some (
        obj (
          field (codes "username") (str username) (
            field (codes "password") (password_unless sso_only password) (
              field (codes "displayName") (display_name) (
                field (codes "email") (email)
                  (field (codes "role") (role) (field (codes "ssoOnly") (flag sso_only) end))))))))

  unfoldable pub update_user : Text → Json → Request
  update_user id values = put (codes "/auth/users/" ++ id) (some values)

  unfoldable pub delete_user : Text → Request
  delete_user id = delete (codes "/auth/users/" ++ id)

  unfoldable pub reset_password : Text → Text → Request
  reset_password id new_password =
      put (codes "/auth/users/" ++ (id ++ codes "/password"))
        (some (obj (field (codes "newPassword") (str new_password) end)))

  unfoldable pub list_api_keys : Request
  list_api_keys = get (codes "/auth/apikeys")

  unfoldable pub create_api_key : Text → Request
  create_api_key name =
      post (codes "/auth/apikeys") (some (obj (field (codes "name") (str name) end)))

  unfoldable pub revoke_api_key : Text → Request
  revoke_api_key id = delete (codes "/auth/apikeys/" ++ id)

  unfoldable pub get_auth_providers : Request
  get_auth_providers = get (codes "/auth/providers")

  unfoldable pub get_github_sso_config : Request
  get_github_sso_config = get (codes "/auth/github/config")

  unfoldable pub get_azure_sso_config : Request
  get_azure_sso_config = get (codes "/auth/azure/config")

  unfoldable pub list_groups : Request
  list_groups = get (codes "/groups")

  unfoldable pub create_group : Json → Request
  create_group values = post (codes "/groups") (some values)

  unfoldable pub get_group : Text → Request
  get_group id = get (codes "/groups/" ++ id)

  unfoldable pub update_group : Text → Json → Request
  update_group id values = put (codes "/groups/" ++ id) (some values)

  unfoldable pub delete_group : Text → Request
  delete_group id = delete (codes "/groups/" ++ id)

  unfoldable pub list_group_members : Text → Request
  list_group_members id = get (codes "/groups/" ++ (id ++ codes "/members"))

  unfoldable pub add_group_member : Text → Text → Request
  add_group_member group_id user_id =
      post (codes "/groups/" ++ (group_id ++ codes "/members"))
        (some (obj (field (codes "userId") (str user_id) end)))

  unfoldable pub remove_group_member : Text → Text → Request
  remove_group_member group_id user_id =
      delete (codes "/groups/" ++ (group_id ++ (codes "/members/" ++ user_id)))

  unfoldable pub list_roles : Request
  list_roles = get (codes "/rbac/roles")

  unfoldable pub create_role : Json → Request
  create_role values = post (codes "/rbac/roles") (some values)

  unfoldable pub update_role : Text → Json → Request
  update_role id values = put (codes "/rbac/roles/" ++ id) (some values)

  unfoldable pub delete_role : Text → Request
  delete_role id = delete (codes "/rbac/roles/" ++ id)

  unfoldable pub list_permission_rules : Request
  list_permission_rules = get (codes "/rbac/rules")

  unfoldable pub create_permission_rule : Json → Request
  create_permission_rule rule = post (codes "/rbac/rules") (some rule)

  unfoldable pub delete_permission_rule : Text → Request
  delete_permission_rule id = delete (codes "/rbac/rules/" ++ id)

  unfoldable pub get_effective_permissions : Text → Request
  get_effective_permissions user_id = get (codes "/rbac/effective/" ++ user_id)

  unfoldable pub export_rbac_config : Request
  export_rbac_config = get (codes "/rbac/export")

  unfoldable pub import_rbac_config : Json → Request
  import_rbac_config config = post (codes "/rbac/import") (some config)

  unfoldable pub get_dashboard_config : Request
  get_dashboard_config = get (codes "/dashboard/config")

  unfoldable pub set_dashboard_config : Json → Request
  set_dashboard_config config = put (codes "/dashboard/config") (some config)
