-- ===== src/Configuration/Admin/Actions.antt =====
-- The changes of common/repo_mcp_common/admin.py as one type, each applied in its own transaction.
use repo_mcp.Prelude.{String, Option, none, List, [], ◌∷◌, ℕ_eq, String_eq}
use repo_mcp.Prelude.Value.{Value}
use repo_mcp.Prelude.Result.{Result, ok}
use repo_mcp.Configuration.{Tables}
use repo_mcp.Configuration.Passwords.{Hasher}
use repo_mcp.Configuration.Admin.{
  AdminError, TenantInput, ConnectorInput, create_admin, set_admin_password, put_secret,
  delete_secret, upsert_tenant, delete_tenant, set_role_groups, upsert_connector, delete_connector,
  set_setting, commit,
}

pub data Action : Type 0 where
  new_admin new_password : String → String → Action
  new_secret : String → String → Option String → Action
  no_secret no_squad no_repository : String → Action
  squad : TenantInput → Action
  role_groups : String → List String → Action
  repository : ConnectorInput → Action
  setting : String → Value → Action

module _ (lower : String → String) (hasher : Hasher) (encrypt : String → String) where
  unfoldable pub apply : Action → String → Tables → Result AdminError Tables
  apply (new_admin username password) actor db =
      create_admin lower hasher username password actor db
  apply (new_password username password) actor db =
      set_admin_password lower hasher username password actor db
  apply (new_secret name value description) actor db =
      ok (put_secret encrypt name value actor description db)
  apply (no_secret name) actor db = ok (delete_secret name actor db)
  apply (no_squad name) actor db = delete_tenant name actor db
  apply (no_repository name) actor db = delete_connector name actor db
  apply (squad input) actor db = upsert_tenant input actor db
  apply (role_groups role groups) actor db = set_role_groups role groups actor db
  apply (repository input) actor db = upsert_connector input actor db
  apply (setting key value) actor db = ok (set_setting key value actor db)

  unfoldable pub run : List (Action × String) → Tables → Tables
  run [] db = db
  run ((a, actor) ∷ rest) db = run rest (commit (apply a actor db) db)

-- a database after its first migration
abbrev pub fresh_tables : Tables
fresh_tables = record {
  admins = [];
  secrets = [];
  tenants = [];
  roles = [];
  connectors = [];
  settings = [];
  generation = none;
  audit = [];
}
