-- ===== src/Configuration/Admin/Traced.antt =====
-- What the changes of common/repo_mcp_common/admin.py leave in the audit log and in the generation.
use repo_mcp.Prelude.{
  String, ◌≡◌, refl, Bool, true, false, not, some, [], ◌∷◌, ◌++◌, if◌then◌else◌, ◌==◌, ℕ_eq,
  String_eq,
}
use repo_mcp.Prelude.Result.{Holds, Holds-guard, Holds-bind, Holds-ok}
use repo_mcp.Configuration.Admin.{
  stripped, admin_name, empty_username, admin_exists, set_admin_password, upsert_tenant,
  delete_tenant, set_role_groups, upsert_connector, delete_connector, required, bump_generation,
  put_secret, ok, no_admin, TenantInput, tenant_name, ConnectorInput, connector_name, delete_secret,
  no_tenant, no_connector, set_setting, valid_profiles, valid_roles, valid_providers,
  unknown_profile, unknown_role, unknown_provider, valid_modes, no_groups, unknown_mode,
  no_projects, no_clash, clash, create_admin, next_generation, absent, hashed, record_entry,
}
use repo_mcp.Configuration.{Tables, AuditRow, row_named, List, contains, is_empty}
use repo_mcp.Configuration.Passwords.{Hasher, hash_password}
use repo_mcp.Configuration.Admin.Actions.{Action, apply}

-- Accounts are no part of the configuration that the services read.
abbrev pub configures : Action → Bool
configures (Action.new_admin username password) = false
configures (Action.new_password username password) = false
configures a = true

-- One entry is added to the log, by the given administrator, and the generation is raised if asked.
pub record Traced (raised : Bool) (actor : String) (db db' : Tables) : Type 0 where
  pub entry : AuditRow
  pub logged : db'.audit ≡ db.audit ++ entry ∷ []
  pub blamed : entry.actor ≡ actor
  pub counted :
      db'.generation ≡ (if raised then some (next_generation db.generation) else db.generation)

module _ (lower : String → String) (hasher : Hasher) where
  create_admin-Traced :
      (username password actor : String) (db : Tables)
      → Holds (Traced false actor db) (create_admin lower hasher username password actor db)
  unfolding create_admin record_entry
  create_admin-Traced username password actor db =
      Holds-guard _ (not (lower (stripped username) == "")) empty_username _ (λ a.
        Holds-bind _
          (absent (row_named admin_name (lower (stripped username)) db.admins)
            (admin_exists (lower (stripped username))))
          _
          (λ b e.
            Holds-bind _ (hashed (hash_password hasher password)) _
              (λ c g. record { entry = _; logged = refl; blamed = refl; counted = refl })))

  set_admin_password-Traced :
      (username password actor : String) (db : Tables)
      → Holds (Traced false actor db) (set_admin_password lower hasher username password actor db)
  unfolding set_admin_password record_entry
  set_admin_password-Traced username password actor db =
      Holds-bind _ (required (row_named admin_name (lower username) db.admins) (no_admin username))
        _
        (λ b e.
          Holds-bind _ (hashed (hash_password hasher password)) _
            (λ c g. record { entry = _; logged = refl; blamed = refl; counted = refl }))

upsert_tenant-Traced :
    (input : TenantInput) (actor : String) (db : Tables)
    → Holds (Traced true actor db) (upsert_tenant input actor db)
unfolding upsert_tenant record_entry bump_generation
upsert_tenant-Traced input actor db =
    Holds-guard _ (contains valid_profiles input.tool_profile) (unknown_profile input.tool_profile)
      _
      (λ a. Holds-guard _ (not (is_empty input.ldap_groups)) no_groups _ (λ b.
        Holds-guard _ (not (is_empty input.projects)) no_projects _ (λ c.
          Holds-bind _ (no_clash (clash input.name input.ldap_groups db.tenants)) _
            (λ d e. record { entry = _; logged = refl; blamed = refl; counted = refl }))))

delete_tenant-Traced :
    (name actor : String) (db : Tables) → Holds (Traced true actor db) (delete_tenant name actor db)
unfolding delete_tenant record_entry bump_generation
delete_tenant-Traced name actor db =
    Holds-bind _ (required (row_named tenant_name name db.tenants) (no_tenant name)) _
      (λ t e. record { entry = _; logged = refl; blamed = refl; counted = refl })

set_role_groups-Traced :
    (role : String) (groups : List String) (actor : String) (db : Tables)
    → Holds (Traced true actor db) (set_role_groups role groups actor db)
unfolding set_role_groups record_entry bump_generation
set_role_groups-Traced role groups actor db =
    Holds-guard _ (contains valid_roles role) (unknown_role role) _
      (λ known. record { entry = _; logged = refl; blamed = refl; counted = refl })

upsert_connector-Traced :
    (input : ConnectorInput) (actor : String) (db : Tables)
    → Holds (Traced true actor db) (upsert_connector input actor db)
unfolding upsert_connector record_entry bump_generation
upsert_connector-Traced input actor db =
    Holds-guard _ (contains valid_providers input.provider) (unknown_provider input.provider) _
      (λ a. Holds-guard _ (contains valid_modes input.mode) (unknown_mode input.mode) _ (λ b.
        Holds-bind _
          (required (row_named tenant_name input.tenant db.tenants) (no_tenant input.tenant)) _
          (λ t e. record { entry = _; logged = refl; blamed = refl; counted = refl })))

delete_connector-Traced :
    (name actor : String) (db : Tables)
    → Holds (Traced true actor db) (delete_connector name actor db)
unfolding delete_connector record_entry bump_generation
delete_connector-Traced name actor db =
    Holds-bind _ (required (row_named connector_name name db.connectors) (no_connector name)) _
      (λ t e. record { entry = _; logged = refl; blamed = refl; counted = refl })

module _ (lower : String → String) (hasher : Hasher) (encrypt : String → String) where
  apply-Holds :
      (a : Action) (actor : String) (db : Tables)
      → Holds (Traced (configures a) actor db) (apply lower hasher encrypt a actor db)
  unfolding apply put_secret delete_secret set_setting record_entry bump_generation
  apply-Holds (Action.new_admin username password) actor db =
      create_admin-Traced lower hasher username password actor db
  apply-Holds (Action.new_password username password) actor db =
      set_admin_password-Traced lower hasher username password actor db
  apply-Holds (Action.new_secret name value description) actor db = record {
    entry = _;
    logged = refl;
    blamed = refl;
    counted = refl;
  }
  apply-Holds (Action.no_secret name) actor db = record {
    entry = _;
    logged = refl;
    blamed = refl;
    counted = refl;
  }
  apply-Holds (Action.no_squad name) actor db = delete_tenant-Traced name actor db
  apply-Holds (Action.no_repository name) actor db = delete_connector-Traced name actor db
  apply-Holds (Action.squad input) actor db = upsert_tenant-Traced input actor db
  apply-Holds (Action.role_groups role groups) actor db =
      set_role_groups-Traced role groups actor db
  apply-Holds (Action.repository input) actor db = upsert_connector-Traced input actor db
  apply-Holds (Action.setting key value) actor db = record {
    entry = _;
    logged = refl;
    blamed = refl;
    counted = refl;
  }

  -- A change by an administrator that succeeds adds exactly one entry to the audit log, in that
  -- administrator's name, and raises the generation by one, except that the two changes of accounts
  -- leave the generation as it was.
  pub apply-Traced :
      (a : Action) (actor : String) (db db' : Tables)
      → apply lower hasher encrypt a actor db ≡ ok db'
      → Traced (configures a) actor db db'
  apply-Traced a actor db db' h =
      Holds-ok (Traced (configures a) actor db) (apply lower hasher encrypt a actor db)
        (apply-Holds a actor db) h
