-- ===== src/Perm.antt =====
-- internal/perm: the authorization matrix and the test that handlers make of it. A permission is
-- its string, as in the source; a missing entry of a Go map reads as false.
pub mod Roles
mod Examples
use otel_magnify.Prelude.{
  Bool, true, false, List, [], ◌∷◌, ◌||◌, String, ◌==◌, string_eq, any, if◌then◌else◌,
}

abbrev pub Permission : Type 0
Permission = String

abbrev pub push_config : Permission
push_config = "workload:push_config"

abbrev pub read_config_content : Permission
read_config_content = "config:read_content"

abbrev pub validate_config : Permission
validate_config = "workload:validate_config"

abbrev pub create_config_tpl : Permission
create_config_tpl = "config:create"

abbrev pub resolve_alert : Permission
resolve_alert = "alert:resolve"

abbrev pub export_reports : Permission
export_reports = "reports:export"

abbrev pub archive_workload : Permission
archive_workload = "workload:archive"

abbrev pub delete_workload : Permission
delete_workload = "workload:delete"

abbrev pub view_audit : Permission
view_audit = "audit:view"

abbrev pub manage_users : Permission
manage_users = "users:manage"

abbrev pub manage_settings : Permission
manage_settings = "settings:manage"

abbrev pub editor_permissions : List Permission
editor_permissions =
    read_config_content ∷ push_config ∷ validate_config ∷ create_config_tpl ∷ resolve_alert
    ∷ export_reports ∷ archive_workload ∷ []

abbrev pub administrator_permissions : List Permission
administrator_permissions =
    read_config_content ∷ push_config ∷ validate_config ∷ create_config_tpl ∷ resolve_alert
    ∷ export_reports ∷ archive_workload ∷ delete_workload ∷ view_audit ∷ manage_users
    ∷ manage_settings ∷ []

-- `matrix[g][p]`
unfoldable pub matrix : String → Permission → Bool
matrix g p =
    if g == "editor"
    then any (λ q. q == p) editor_permissions
    else if g == "administrator"
    then any (λ q. q == p) administrator_permissions
    else false

-- `Has`, on the groups of the user
unfoldable pub has : List String → Permission → Bool
has [] p = false
has (g ∷ gs) p = matrix g p || has gs p
