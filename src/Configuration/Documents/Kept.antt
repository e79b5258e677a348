-- ===== src/Configuration/Documents/Kept.antt =====
-- The changes of common/repo_mcp_common/admin.py, and the configuration that the gateway can load.
use repo_mcp.Prelude.{
  String, ◌≡◌, refl, inl, inr, not, List, [], ◌∷◌, ◌==◌, ℕ_eq, String_eq, contains, contains_iff,
}
use repo_mcp.Prelude.Result.{
  Result, ok, err, Holds, Holds-bind, Holds-guard, required, Result-cases,
}
use repo_mcp.Configuration.{Tables, drop_row, row_named, distinct_of}
use repo_mcp.Configuration.Rows.{All-keep, Pairwise-keep}
use repo_mcp.Configuration.Admin.{
  AdminError, TenantInput, tenant_name, upsert_tenant, valid_roles, bump_generation, record_entry,
  delete_tenant, set_role_groups, unknown_role, no_tenant, hashed, upsert_connector,
  delete_connector, commit, ConnectorInput, connector_name, valid_providers, no_connector,
  unknown_provider, valid_modes, unknown_mode, create_admin, set_admin_password, stripped,
  admin_name, put_secret, empty_username, no_admin, delete_secret, absent, set_setting,
  admin_exists,
}
use repo_mcp.Configuration.Passwords.{Hasher, hash_password}
use repo_mcp.Configuration.Admin.Actions.{
  fresh_tables, Action, apply, run, new_admin, new_password, new_secret, no_secret, no_squad,
  no_repository, squad, role_groups, repository, setting,
}
use repo_mcp.Configuration.Documents.Valid.{
  Valid, Loadable, Disjoint, IsRole, All-append, upsert_tenant-Valid, All-pairs, role_of-known,
}

same-Valid :
    {db db' : Tables} → db'.tenants ≡ db.tenants → db'.roles ≡ db.roles → Valid db → Valid db'
same-Valid e f v = record {
  loadable = rw e v.loadable;
  named = rw e v.named;
  apart = rw e v.apart;
  roles = rw f v.roles;
}

delete_tenant-Valid :
    (name actor : String) (db : Tables) → Valid db → Holds Valid (delete_tenant name actor db)
unfolding delete_tenant bump_generation record_entry drop_row
delete_tenant-Valid name actor db v =
    Holds-bind Valid (required (row_named tenant_name name db.tenants) (no_tenant name)) _ (λ t e.
      record {
        loadable = All-keep Loadable _ db.tenants v.loadable;
        named = Pairwise-keep _ _ db.tenants v.named;
        apart = Pairwise-keep Disjoint _ db.tenants v.apart;
        roles = v.roles;
      })

set_role_groups-Valid :
    (role : String) (groups : List String) (actor : String) (db : Tables)
    → Valid db
    → Holds Valid (set_role_groups role groups actor db)
unfolding set_role_groups bump_generation record_entry
set_role_groups-Valid role groups actor db v =
    Holds-guard Valid (contains valid_roles role) (unknown_role role) _ (λ known. record {
      loadable = v.loadable;
      named = v.named;
      apart = v.apart;
      roles = All-append IsRole _ _ (All-keep IsRole _ db.roles v.roles) (
          All-pairs role (role_of-known role ((contains_iff valid_roles role).0 known))
            (distinct_of [] groups));
    })

module _ (lower : String → String) (hasher : Hasher) where
  create_admin-Valid :
      (username password actor : String) (db : Tables)
      → Valid db
      → Holds Valid (create_admin lower hasher username password actor db)
  unfolding create_admin record_entry
  create_admin-Valid username password actor db v =
      Holds-guard Valid (not (lower (stripped username) == "")) empty_username _ (λ a.
        Holds-bind Valid
          (absent (row_named admin_name (lower (stripped username)) db.admins)
            (admin_exists (lower (stripped username))))
          _
          (λ b e.
            Holds-bind Valid (hashed (hash_password hasher password)) _
              (λ c g. same-Valid refl refl v)))

  set_admin_password-Valid :
      (username password actor : String) (db : Tables)
      → Valid db
      → Holds Valid (set_admin_password lower hasher username password actor db)
  unfolding set_admin_password record_entry
  set_admin_password-Valid username password actor db v =
      Holds-bind Valid
        (required (row_named admin_name (lower username) db.admins) (no_admin username)) _
        (λ b e.
          Holds-bind Valid (hashed (hash_password hasher password)) _
            (λ c g. same-Valid refl refl v))

upsert_connector-Valid :
    (input : ConnectorInput) (actor : String) (db : Tables)
    → Valid db
    → Holds Valid (upsert_connector input actor db)
unfolding upsert_connector bump_generation record_entry
upsert_connector-Valid input actor db v =
    Holds-guard Valid (contains valid_providers input.provider) (unknown_provider input.provider) _
      (λ a. Holds-guard Valid (contains valid_modes input.mode) (unknown_mode input.mode) _ (λ b.
        Holds-bind Valid
          (required (row_named tenant_name input.tenant db.tenants) (no_tenant input.tenant)) _
          (λ t e. same-Valid refl refl v)))

delete_connector-Valid :
    (name actor : String) (db : Tables) → Valid db → Holds Valid (delete_connector name actor db)
unfolding delete_connector bump_generation record_entry
delete_connector-Valid name actor db v =
    Holds-bind Valid (required (row_named connector_name name db.connectors) (no_connector name)) _
      (λ t e. same-Valid refl refl v)

upsert_tenant-Holds :
    (input : TenantInput) (actor : String) (db : Tables)
    → Valid db
    → Holds Valid (upsert_tenant input actor db)
upsert_tenant-Holds input actor db v = elim (Result-cases (upsert_tenant input actor db)) [
  | inl (e, h) ↦ rw h tt
  | inr (db', h) ↦ rw h (upsert_tenant-Valid input actor db db' v h)
]

commit-Valid :
    (r : Result AdminError Tables) (db : Tables) → Holds Valid r → Valid db → Valid (commit r db)
commit-Valid (ok db') db h v = h
commit-Valid (err e) db h v = v

pub fresh-Valid : Valid fresh_tables
fresh-Valid = record { loadable = tt; named = tt; apart = tt; roles = tt }

module _ (lower : String → String) (hasher : Hasher) (encrypt : String → String) where
  apply-Valid :
      (a : Action) (actor : String) (db : Tables)
      → Valid db
      → Holds Valid (apply lower hasher encrypt a actor db)
  unfolding apply put_secret delete_secret set_setting bump_generation record_entry
  apply-Valid (new_admin username password) actor db v =
      create_admin-Valid lower hasher username password actor db v
  apply-Valid (new_password username password) actor db v =
      set_admin_password-Valid lower hasher username password actor db v
  apply-Valid (new_secret name value description) actor db v = same-Valid refl refl v
  apply-Valid (no_secret name) actor db v = same-Valid refl refl v
  apply-Valid (no_squad name) actor db v = delete_tenant-Valid name actor db v
  apply-Valid (no_repository name) actor db v = delete_connector-Valid name actor db v
  apply-Valid (squad input) actor db v = upsert_tenant-Holds input actor db v
  apply-Valid (role_groups role groups) actor db v = set_role_groups-Valid role groups actor db v
  apply-Valid (repository input) actor db v = upsert_connector-Valid input actor db v
  apply-Valid (setting key value) actor db v = same-Valid refl refl v

  pub run-Valid :
      (changes : List (Action × String)) (db : Tables)
      → Valid db
      → Valid (run lower hasher encrypt changes db)
  unfolding run
  run-Valid [] db v = v
  run-Valid ((a, actor) ∷ rest) db v =
      run-Valid rest (commit (apply lower hasher encrypt a actor db) db)
        (commit-Valid (apply lower hasher encrypt a actor db) db (apply-Valid a actor db v) v)
