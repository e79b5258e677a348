-- ===== src/Configuration/Admin.antt =====
-- common/repo_mcp_common/admin.py: the changes that an administrator makes. Each runs in one
-- transaction: an exception leaves the tables as they were.
pub mod Actions
pub mod Traced
use repo_mcp.Prelude.{
  ℕ, zero, suc, ◌+◌, ◌-◌, ◌*◌, ◌/◌, ◌%◌, ◌≤◌, ◌<◌, String, ◌≡◌, refl, sym, ap, ◌∙◌, subst, ◌≢◌, ◌↔◌,
  ◌⊎◌, inl, inr, Bool, true, false, not, ◌&&◌, ◌||◌, Option, none, some, List, [], ◌∷◌, ◌++◌, map,
  arith, eq_iff, ltb, leb, nat_eq, if◌then◌else◌, nat_eq_iff, Bool-cases, Option-cases, and_iff,
  or_iff, not_iff, Eq, ◌==◌, ℕ_eq, String_eq, length, take, length-append, any, all, keep, find,
  All, is_empty, not-In_of_is_empty, is_empty_of_not-In, is_empty-difference_iff, In-map-elim,
  In-map-intro, All-imp, In, In-append, In-keep, find-some, find-none, any-elim, any-intro,
  all-elim, all-intro, contains, difference, meets, subset, contains_iff, In-difference, meets_iff,
  subset_iff, lookup, insert, remove, lookup-insert, lookup-remove,
}
use repo_mcp.Prelude.Value.{Value, str, arr, obj, nil, cons, Items, Fields, end, field}
use repo_mcp.Prelude.Result.{Result, ok, err, guard, ◌>>◌, ◌>>=◌, required}
use repo_mcp.AnswerCache.{strip_left, strip_right}
use repo_mcp.Configuration.{
  AdminUser, SecretRow, TenantRow, ConnectorRow, AuditRow, Tables, row_named, put_row, drop_row,
  distinct_of,
}
use repo_mcp.Configuration.Passwords.{WeakPassword, Hasher, hash_password}

-- `AdminError`, and the `WeakPassword` of a refused password
pub data AdminError : Type 0 where
  empty_username no_groups no_projects : AdminError
  admin_exists no_admin no_tenant no_connector group_taken unknown_role : String → AdminError
  unknown_profile unknown_provider unknown_mode : String → AdminError
  weak : WeakPassword → AdminError

abbrev pub valid_profiles : List String
valid_profiles = "all" ∷ "analysis" ∷ "scout" ∷ []

abbrev pub valid_modes : List String
valid_modes = "full" ∷ "moderate" ∷ "fast" ∷ "cross-repo-intelligence" ∷ []

abbrev pub valid_providers : List String
valid_providers = "github" ∷ "gitlab" ∷ "bitbucket" ∷ []

abbrev pub valid_roles : List String
valid_roles = "admin" ∷ "lead" ∷ "developer" ∷ "qa" ∷ "devops" ∷ "viewer" ∷ []

-- `TenantInput` and `ConnectorInput`, with `or` applied where the code applies it
pub record TenantInput : Type 0 where
  pub name : String
  pub ldap_groups : List String
  pub projects : List String
  pub tool_profile : String
  pub structural_only : Bool
  pub denied_tools : Option (List String)
  pub litellm_key_secret : Option String
  pub enabled : Bool

pub record ConnectorInput : Type 0 where
  pub name : String
  pub provider : String
  pub tenant : String
  pub settings : Fields
  pub token_secret : Option String
  pub include : Option (List String)
  pub exclude : Option (List String)
  pub mode : String
  pub persistence : Bool
  pub enabled : Bool

abbrev pub next_generation : Option ℕ → ℕ
next_generation none = 1
next_generation (some n) = suc n

unfoldable pub bump_generation : Tables → Tables
bump_generation db = record db { generation = some (next_generation db.generation) }

-- `record`
unfoldable pub record_entry : String → String → Option String → Fields → Tables → Tables
record_entry actor action target detail db = record db {
  audit =
      db.audit ++ record { actor = actor; action = action; target = target; detail = detail } ∷ [];
}

abbrev pub texts : List String → Items
texts [] = nil
texts (s ∷ ss) = cons (str s) (texts ss)

-- ── administrators ──

unfoldable pub admin_count : Tables → ℕ
admin_count db = length (keep (λ (a : AdminUser). a.is_active) db.admins)

abbrev pub admin_name : AdminUser → String
admin_name a = a.username

abbrev pub stripped : String → String
stripped s = strip_right (strip_left s)

abbrev pub absent : {A : Type 0} → Option A → AdminError → Result AdminError (Unit {0})
absent none e = ok tt
absent (some a) e = err e

abbrev pub hashed : Result WeakPassword String → Result AdminError String
hashed (ok h) = ok h
hashed (err e) = err (weak e)

unfoldable pub create_admin :
    (String → String) → Hasher → String → String → String → Tables → Result AdminError Tables
create_admin lower hasher username password actor db = do
  let name = lower (stripped username)
  guard (not (name == "")) empty_username
  absent (row_named admin_name name db.admins) (admin_exists name)
  hash ← hashed (hash_password hasher password)
  let user : AdminUser = record {
    username = name;
    password_hash = hash;
    is_active = true;
    must_change_password = false;
    last_login_at = none;
  }
  ok (
      record_entry actor "admin.create" (some name) end
        (record db { admins = db.admins ++ user ∷ [] }))

abbrev known_hash : Hasher → Option AdminUser → String
known_hash hasher none = hasher.dummy
known_hash hasher (some user) = user.password_hash

-- the account, and the tables with its login
abbrev logged_in : Hasher → Option AdminUser → String → ℕ → Tables → Option AdminUser × Tables
logged_in hasher none password now db = (none, db)
logged_in hasher (some user) password now db =
    let seen : AdminUser = record user { last_login_at = some now } in
    if user.is_active && hasher.checks user.password_hash password
    then (some seen, record db { admins = put_row admin_name seen db.admins })
    else (none, db)

unfoldable pub authenticate_admin :
    (String → String) → Hasher → String → String → ℕ → Tables → Option AdminUser × Tables
authenticate_admin lower hasher username password now db =
    logged_in hasher (row_named admin_name (lower (stripped username)) db.admins) password now db

unfoldable pub set_admin_password :
    (String → String) → Hasher → String → String → String → Tables → Result AdminError Tables
set_admin_password lower hasher username password actor db = do
  user ← required (row_named admin_name (lower username) db.admins) (no_admin username)
  hash ← hashed (hash_password hasher password)
  let changed : AdminUser = record user { password_hash = hash; must_change_password = false }
  ok (
      record_entry actor "admin.password_change" (some username) end
        (record db { admins = put_row admin_name changed db.admins }))

-- ── secrets ──

abbrev pub secret_name : SecretRow → String
secret_name s = s.name

abbrev secret_action : Option SecretRow → String
secret_action none = "secret.create"
secret_action (some s) = "secret.update"

abbrev kept_description : Option SecretRow → Option String → Option String
kept_description none d = d
kept_description (some s) none = s.description
kept_description (some s) (some d) = some d

unfoldable pub put_secret :
    (String → String) → String → String → String → Option String → Tables → Tables
put_secret encrypt name value actor description db =
    let old = row_named secret_name name db.secrets in
    let row : SecretRow = record {
      name = name;
      ciphertext = encrypt value;
      description = kept_description old description;
    } in
    bump_generation (
      record_entry actor (secret_action old) (some name) end
        (record db { secrets = put_row secret_name row db.secrets }))

unfoldable pub delete_secret : String → String → Tables → Tables
delete_secret name actor db = bump_generation (
    record_entry actor "secret.delete" (some name) end
      (record db { secrets = drop_row secret_name name db.secrets }))

-- ── squads and roles ──

abbrev pub tenant_name : TenantRow → String
tenant_name t = t.name

-- a group of another squad that is among the given ones
unfoldable pub clash : String → List String → List TenantRow → Option String
clash name groups [] = none
clash name groups (t ∷ ts) =
    let later = clash name groups ts in
    if t.name == name
    then later
    else elim (find (contains groups) t.ldap_groups) [ none ↦ later | some g ↦ some g ]

abbrev pub no_clash : Option String → Result AdminError (Unit {0})
no_clash none = ok tt
no_clash (some g) = err (group_taken g)

abbrev tenant_action : Option TenantRow → String
tenant_action none = "tenant.create"
tenant_action (some t) = "tenant.update"

abbrev pub or_empty : Option (List String) → List String
or_empty none = []
or_empty (some xs) = xs

unfoldable pub tenant_row : TenantInput → TenantRow
tenant_row input = record {
  name = input.name;
  tool_profile = input.tool_profile;
  structural_only = input.structural_only;
  denied_tools = or_empty input.denied_tools;
  litellm_key_secret = input.litellm_key_secret;
  enabled = input.enabled;
  ldap_groups = distinct_of [] input.ldap_groups;
  projects = distinct_of [] input.projects;
}

unfoldable pub upsert_tenant : TenantInput → String → Tables → Result AdminError Tables
upsert_tenant input actor db = do
  guard (contains valid_profiles input.tool_profile) (unknown_profile input.tool_profile)
  guard (not (is_empty input.ldap_groups)) no_groups
  guard (not (is_empty input.projects)) no_projects
  no_clash (clash input.name input.ldap_groups db.tenants)
  let action = tenant_action (row_named tenant_name input.name db.tenants)
  ok (
      bump_generation (
        record_entry actor action (some input.name)
          (field "tool_profile" (str input.tool_profile) end)
          (record db { tenants = put_row tenant_name (tenant_row input) db.tenants })))

-- The squad's connectors go with it, by the foreign key.
unfoldable pub delete_tenant : String → String → Tables → Result AdminError Tables
delete_tenant name actor db = do
  t ← required (row_named tenant_name name db.tenants) (no_tenant name)
  ok (
      bump_generation (
        record_entry actor "tenant.delete" (some name) end (record db {
          tenants = drop_row tenant_name name db.tenants;
          connectors = keep (λ (c : ConnectorRow). not (c.tenant == name)) db.connectors;
        })))

unfoldable pub set_role_groups : String → List String → String → Tables → Result AdminError Tables
set_role_groups role groups actor db = do
  guard (contains valid_roles role) (unknown_role role)
  ok (
      bump_generation (
        record_entry actor "role.set" (some role) (field "groups" (arr (texts groups)) end)
          (record db {
            roles =
                keep (λ (r : String × String). not (r.0 == role)) db.roles
                ++ map (λ g. (role, g)) (distinct_of [] groups);
          })))

-- ── connectors ──

abbrev pub connector_name : ConnectorRow → String
connector_name c = c.name

abbrev connector_action : Option ConnectorRow → String
connector_action none = "connector.create"
connector_action (some c) = "connector.update"

-- `list(xs or ["*"])`
abbrev pub or_all : Option (List String) → List String
or_all none = "*" ∷ []
or_all (some []) = "*" ∷ []
or_all (some (x ∷ xs)) = x ∷ xs

unfoldable pub connector_row : ConnectorInput → ConnectorRow
connector_row input = record {
  name = input.name;
  provider = input.provider;
  tenant = input.tenant;
  settings = input.settings;
  token_secret = input.token_secret;
  include = or_all input.include;
  exclude = or_empty input.exclude;
  mode = input.mode;
  persistence = input.persistence;
  enabled = input.enabled;
}

unfoldable pub upsert_connector : ConnectorInput → String → Tables → Result AdminError Tables
upsert_connector input actor db = do
  guard (contains valid_providers input.provider) (unknown_provider input.provider)
  guard (contains valid_modes input.mode) (unknown_mode input.mode)
  t ← required (row_named tenant_name input.tenant db.tenants) (no_tenant input.tenant)
  let action = connector_action (row_named connector_name input.name db.connectors)
  ok (
      bump_generation (
        record_entry actor action (some input.name)
          (field "provider" (str input.provider) (field "tenant" (str input.tenant) end))
          (record db { connectors = put_row connector_name (connector_row input) db.connectors })))

unfoldable pub delete_connector : String → String → Tables → Result AdminError Tables
delete_connector name actor db = do
  c ← required (row_named connector_name name db.connectors) (no_connector name)
  ok (
      bump_generation (
        record_entry actor "connector.delete" (some name) end
          (record db { connectors = drop_row connector_name name db.connectors })))

-- ── settings ──

unfoldable pub set_setting : String → Value → String → Tables → Tables
set_setting key value actor db = bump_generation (
    record_entry actor "setting.set" (some key) (field "value" value end)
      (record db { settings = insert key value db.settings }))

-- `database.session()`: commits what the operation returns, and rolls back where it raises
abbrev pub commit : Result AdminError Tables → Tables → Tables
commit (ok db') db = db'
commit (err e) db = db
