-- ===== src/Tenants/Document.antt =====
-- `TenantRegistry.from_dict` and `_parse_roles` of gateway/app/tenants.py: a configuration document
-- is checked and read into a registry.
use repo_mcp.Prelude.{
  ℕ, String, ◌≡◌, ◌↔◌, Bool, true, false, Option, none, some, List, [], ◌∷◌, arith, eq_iff,
  if◌then◌else◌, Eq, ◌==◌, ℕ_eq, String_eq, lookup, insert,
}
use repo_mcp.Prelude.Value.{
  Value, null, bool, num, str, arr, obj, nil, cons, Fields, end, field, items, get, truthy, text_of,
}
use repo_mcp.Prelude.Result.{Result, ok, err, required, ◌>>=◌}
use repo_mcp.Roles.{RoleAssignment, role_of}
use repo_mcp.Tenants.{profile_of, Tenant, TenantRegistry}

-- A key of a Python dictionary: `True` and `1` are one key, and so are `False` and `0`.
pub data Key : Type 0 where
  none_key : Key
  num_key : ℕ → Key
  str_key : String → Key

-- `none` for a list or a dictionary, which Python refuses to hash
abbrev pub key_of : Value → Option Key
key_of null = some none_key
key_of (bool b) = some (num_key (if b then 1 else 0))
key_of (num n) = some (num_key n)
key_of (str s) = some (str_key s)
key_of (arr vs) = none
key_of (obj fs) = none

abbrev pub same_key : Key → Key → Bool
same_key none_key none_key = true
same_key (num_key a) (num_key b) = a == b
same_key (str_key a) (str_key b) = a == b
same_key _ _ = false

pub same_key_iff : (a b : Key) → (same_key a b ≡ true) ↔ (a ≡ b)
same_key_iff none_key none_key = ground arith
same_key_iff (num_key a) (num_key b) = ground arith
same_key_iff (str_key a) (str_key b) = ground (arith, eq_iff a b)
same_key_iff none_key (num_key b) = ground arith
same_key_iff _ _ = ground arith

instance abbrev pub Key_eq : Eq Key
Key_eq = record { test = same_key; test_iff = same_key_iff }

-- `ConfigError`, and the `TypeError` or `AttributeError` of a document of the wrong shape.
pub data ConfigError : Type 0 where
  tenants_not_mapping roles_not_mapping unhashable not_iterable : ConfigError
  tenant_not_mapping no_groups no_projects : String → ConfigError
  unknown_profile : String → String → ConfigError
  group_clash : Key → String → String → ConfigError
  unknown_role no_role_groups : String → ConfigError

-- `value or []`, which must be a list with something in it
abbrev pub full_list : Option Value → Option (List Value)
full_list (some (arr (cons v vs))) = some (v ∷ items vs)
full_list _ = none

abbrev characters : String → List Value
characters String.[] = []
characters (String.◌∷◌ c s) = str (String.◌∷◌ c String.[]) ∷ characters s

abbrev keys : Fields → List Value
keys end = []
keys (field k v fs) = str k ∷ keys fs

-- what a `for` loop over a value goes through
abbrev pub iterate : Value → Option (List Value)
iterate (arr vs) = some (items vs)
iterate (str s) = some (characters s)
iterate (obj fs) = some (keys fs)
iterate _ = none

abbrev pub Seen : Type 0
Seen = List (Key × String)

-- the loop over a squad's groups
unfoldable pub check_groups : String → List Value → Seen → Result ConfigError Seen
check_groups name [] seen = ok seen
check_groups name (g ∷ gs) seen = elim (key_of g) [
  | none ↦ err unhashable
  | some k ↦ elim (lookup k seen) [
    | none ↦ check_groups name gs (insert k name seen)
    | some other ↦ err (group_clash k other name)
  ]
]

abbrev pub or_else {ℓ} : {A : Type ℓ} → Option A → A → A
or_else none d = d
or_else (some a) d = a

module _ (repr : Value → String) where
  abbrev pub texts : List Value → List String
  texts [] = []
  texts (v ∷ vs) = text_of repr v ∷ texts vs

  abbrev pub key_env : Option Value → Option String
  key_env none = none
  key_env (some v) = if truthy v then some (text_of repr v) else none

  -- one round of the loop over the squads, for a definition that is a mapping
  unfoldable pub read_tenant : String → Fields → Seen → Result ConfigError (Tenant × Seen)
  read_tenant name cfg seen = do
    let profile_text = text_of repr (or_else (get "tool_profile" cfg) (str "analysis"))
    profile ← required (profile_of profile_text) (unknown_profile name profile_text)
    groups ← required (full_list (get "ldap_groups" cfg)) (no_groups name)
    projects ← required (full_list (get "projects" cfg)) (no_projects name)
    seen' ← check_groups name groups seen
    denied ← required (iterate (or_else (get "denied_tools" cfg) (arr nil))) not_iterable
    ok (
      record {
        name = name;
        ldap_groups = texts groups;
        tool_profile = profile;
        projects = texts projects;
        structural_only = truthy (or_else (get "structural_only" cfg) (bool false));
        denied_tools = texts denied;
        litellm_key_env = key_env (get "litellm_key_env" cfg);
      },
      seen',
    )

  abbrev pub mapping : Value → Option Fields
  mapping (obj fs) = some fs
  mapping _ = none

  unfoldable pub read_tenants : Fields → Seen → Result ConfigError (List Tenant)
  unfolding read_tenant
  read_tenants end seen = ok []
  read_tenants (field name v rest) seen = do
    cfg ← required (mapping v) (tenant_not_mapping name)
    (t, seen') ← read_tenant name cfg seen
    ts ← read_tenants rest seen'
    ok (t ∷ ts)

  -- `_parse_roles`
  unfoldable pub parse_roles : Fields → Result ConfigError (List RoleAssignment)
  unfolding role_of
  parse_roles end = ok []
  parse_roles (field role_name v rest) = do
    role ← required (role_of role_name) (unknown_role role_name)
    groups ← required (full_list (some v)) (no_role_groups role_name)
    others ← parse_roles rest
    ok (record { role = role; ldap_groups = texts groups } ∷ others)

  -- `raw.get("tenants")`, with `None` for no squad at all
  abbrev pub entries_of : Option Value → Option Fields
  entries_of none = some end
  entries_of (some null) = some end
  entries_of (some v) = mapping v

  -- `raw.get("roles") or {}`
  abbrev pub roles_of : Option Value → Option Fields
  roles_of none = some end
  roles_of (some v) = if truthy v then mapping v else some end

  unfoldable pub from_dict : Fields → Result ConfigError TenantRegistry
  unfolding read_tenants parse_roles
  from_dict raw = do
    entries ← required (entries_of (get "tenants" raw)) tenants_not_mapping
    tenants ← read_tenants entries []
    roles ← required (roles_of (get "roles" raw)) roles_not_mapping
    assignments ← parse_roles roles
    ok (record { tenants = tenants; role_assignments = assignments })
