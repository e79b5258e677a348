-- ===== src/Indexer/Discovery.antt =====
-- indexer/app/repos.py, the selection of repositories of common/repo_mcp_common/providers.py, and the
-- refresh of the bindings in indexer/app/main.py. What a provider finds is a parameter.
pub mod Bound
pub mod Names
mod Tests
use Prim.Native.Char.{code}
use repo_mcp.Prelude.{
  ℕ, zero, suc, ◌+◌, ◌-◌, ◌*◌, ◌/◌, ◌%◌, ◌≤◌, ◌<◌, String, ◌≡◌, refl, sym, ap, ◌∙◌, subst, ◌≢◌, ◌↔◌,
  ◌⊎◌, inl, inr, Bool, true, false, not, ◌&&◌, ◌||◌, Option, none, some, List, [], ◌∷◌, ◌++◌, map,
  arith, eq_iff, ltb, leb, nat_eq, if◌then◌else◌, nat_eq_iff, Bool-cases, Option-cases, and_iff,
  or_iff, not_iff, Eq, ◌==◌, ℕ_eq, String_eq, length, take, length-append, any, all, keep, find,
  All, is_empty, not-In_of_is_empty, is_empty_of_not-In, is_empty-difference_iff, In-map-elim,
  In-map-intro, All-imp, In, In-append, In-keep, find-some, find-none, any-elim, any-intro,
  all-elim, all-intro, contains, difference, meets, subset, contains_iff, In-difference, meets_iff,
  subset_iff, lookup, insert, remove, lookup-insert, lookup-remove,
}
use repo_mcp.Prelude.Text.{◌<>◌}
use repo_mcp.Prelude.Value.{
  Value, bool, str, arr, obj, nil, cons, Fields, end, field, items, get, truthy, text_of,
}
use repo_mcp.Prelude.Result.{Result, ok, err, guard, required, ◌>>=◌, ◌>>◌}
use repo_mcp.Glob.{fnmatchcase}
use repo_mcp.Tenants.Document.{iterate, texts, full_list}
use repo_mcp.AnswerCache.{strip_left, strip_right}
use repo_mcp.Indexer.{Binding, IndexJob, Indexer, enqueue}
use repo_mcp.Indexer.Webhooks.{Bindings, lookup_binding}
use Prim.Native.String

pub record DiscoveredRepo : Type 0 where
  pub full_name : String
  pub clone_url : String
  pub default_branch : String
  pub archived : Bool
  pub empty : Bool

pub record Connector : Type 0 where
  pub name : String
  pub kind : String
  pub tenant : String
  pub raw : Fields
  pub secret_env : String
  pub token : Option String
  pub include : List String
  pub exclude : List String
  pub mode : String
  pub persistence : Bool
  pub schedule_cron : Option String

-- the characters that `_UNSAFE` does not match: letters, digits, ".", "_" and "-"
unfoldable pub is_safe : ℕ → Bool
is_safe c =
    (leb 48 c && leb c 57)
    || (leb 65 c && leb c 90)
    || (leb 97 c && leb c 122)
    || nat_eq c 45
    || nat_eq c 46
    || nat_eq c 95

-- `_UNSAFE.sub("-", text)`, behind an unsafe character or not
unfoldable pub hyphenate : Bool → String → String
hyphenate inside String.[] = String.[]
hyphenate inside (String.◌∷◌ c s) = elim (is_safe (code c)) [
  | true ↦ String.◌∷◌ c (hyphenate false s)
  | false ↦ if inside then hyphenate true s else "-" <> hyphenate true s
]

abbrev pub only_hyphens : String → Bool
only_hyphens String.[] = true
only_hyphens (String.◌∷◌ c s) = nat_eq (code c) 45 && only_hyphens s

-- `text.strip("-")`
unfoldable pub trim_left : String → String
trim_left String.[] = String.[]
trim_left (String.◌∷◌ c s) =
    let rest = trim_left s in if nat_eq (code c) 45 then rest else String.◌∷◌ c s

unfoldable pub trim_right : String → String
trim_right String.[] = String.[]
trim_right (String.◌∷◌ c s) =
    let rest = trim_right s in
    if only_hyphens (String.◌∷◌ c s) then String.[] else String.◌∷◌ c rest

unfoldable pub project_name : String → String
project_name full_name = trim_right (trim_left (hyphenate false full_name))

-- what stands behind the last "/"
abbrev after_slash : String → Option String
after_slash String.[] = none
after_slash (String.◌∷◌ c s) = elim (after_slash s) [
  | some t ↦ some t
  | none ↦ if nat_eq (code c) 47 then some s else none
]

abbrev pub short_name : String → String
short_name full_name = elim (after_slash full_name) [ none ↦ full_name | some t ↦ t ]

-- `hit` of `selected`
abbrev pub hits : String → String → Bool
hits full_name pattern = fnmatchcase full_name pattern || fnmatchcase (short_name full_name) pattern

unfoldable pub selected : String → List String → List String → Bool
selected full_name include exclude =
    any (hits full_name) include && not (any (hits full_name) exclude)

-- `Connector.matches`, with `is_indexable`
unfoldable pub connector_matches : Connector → DiscoveredRepo → Bool
connector_matches c repo =
    (not repo.archived && not repo.empty) && selected repo.full_name c.include c.exclude

-- `root / name`
abbrev pub join_path : String → String → String
join_path root name = if name == "" then root else root <> "/" <> name

-- `ScanConfig.bind`
unfoldable pub bind : String → Connector → DiscoveredRepo → Binding
bind repo_root c repo =
    let project = project_name repo.full_name in
    record {
      full_name = repo.full_name;
      project = project;
      tenant = c.tenant;
      clone_url = repo.clone_url;
      default_branch = repo.default_branch;
      workdir = join_path (join_path repo_root c.tenant) project;
      mode = c.mode;
      persistence = c.persistence;
    }

-- `ConfigError`, or the `TypeError` of what cannot be iterated over
pub data ScanError : Type 0 where
  no_connectors not_mapping not_iterable : ScanError
  missing : String → ScanError
  no_token duplicate : String → ScanError
  unknown_mode : String → String → ScanError

abbrev valid_modes : List String
valid_modes = "full" ∷ "moderate" ∷ "fast" ∷ "cross-repo-intelligence" ∷ []

abbrev reserved : List String
reserved =
    "name" ∷ "type" ∷ "tenant" ∷ "token_env" ∷ "token_secret" ∷ "include" ∷ "exclude" ∷ "mode"
    ∷ "persistence" ∷ "schedule_cron" ∷ []

-- `{k: v for k, v in entry.items() if k not in reserved}`
unfoldable pub unreserved : Fields → Fields
unreserved end = end
unreserved (field k v fs) =
    let rest = unreserved fs in if contains reserved k then rest else field k v rest

abbrev value_or : Option Value → Value → Value
value_or none d = d
value_or (some v) d = v

abbrev given : Option Value → Bool
given none = false
given (some v) = truthy v

abbrev token_of : Option String → Option String
token_of none = none
token_of (some t) = if t == "" then none else some t

module _ (repr : Value → String) (lower : String → String) (secrets : List (String × String)) where
  abbrev text_at : String → Fields → String → String
  text_at k entry d = text_of repr (value_or (get k entry) (str d))

  -- the loop over the three keys
  unfoldable pub check_keys : List String → Fields → Result ScanError (Unit {0})
  check_keys [] entry = ok tt
  check_keys (k ∷ ks) entry = do guard (given (get k entry)) (missing k); check_keys ks entry

  -- one round of the loop over the connectors
  unfoldable pub read_connector : Fields → List String → Result ScanError Connector
  read_connector entry seen = do
    check_keys ("name" ∷ "type" ∷ "tenant" ∷ []) entry
    let name = text_at "name" entry ""
    guard (given (get "token_env" entry) || given (get "token_secret" entry)) (no_token name)
    guard (not (contains seen name)) (duplicate name)
    let mode = text_at "mode" entry "moderate"
    guard (contains valid_modes mode) (unknown_mode name mode)
    include ←
        required (iterate (value_or (get "include" entry) (arr (cons (str "*") nil)))) not_iterable
    exclude ← required (iterate (value_or (get "exclude" entry) (arr nil))) not_iterable
    ok (record {
      name = name;
      kind = lower (text_at "type" entry "");
      tenant = text_at "tenant" entry "";
      raw = unreserved entry;
      secret_env = text_at "token_env" entry "";
      token = token_of (lookup (text_at "token_secret" entry "") secrets);
      include = texts repr include;
      exclude = texts repr exclude;
      mode = mode;
      persistence = truthy (value_or (get "persistence" entry) (bool true));
      schedule_cron =
          if given (get "schedule_cron" entry)
          then some (text_at "schedule_cron" entry "")
          else none;
    })

  abbrev as_mapping : Value → Option Fields
  as_mapping (obj fs) = some fs
  as_mapping _ = none

  unfoldable pub read_connectors : List Value → List String → Result ScanError (List Connector)
  read_connectors [] seen = ok []
  read_connectors (v ∷ vs) seen = do
    entry ← required (as_mapping v) not_mapping
    c ← read_connector entry seen
    cs ← read_connectors vs (c.name ∷ seen)
    ok (c ∷ cs)

  -- `ScanConfig.from_dict`
  unfoldable pub scan_config : Fields → Result ScanError (List Connector)
  scan_config raw = do
    entries ← required (full_list (get "connectors" raw)) no_connectors
    read_connectors entries []

-- What a connector's provider yields before it ends or fails; `none` for one that cannot be built.
abbrev pub Discover : Type 0
Discover = Connector → Option (List DiscoveredRepo)

-- the loop over the repositories of one connector
unfoldable pub add_repos : String → Connector → List DiscoveredRepo → Bindings → Bindings
add_repos repo_root c [] found = found
add_repos repo_root c (r ∷ rs) found =
    add_repos repo_root c rs
      (if connector_matches c r then insert r.full_name (bind repo_root c r) found else found)

abbrev pub add_yield : String → Connector → Option (List DiscoveredRepo) → Bindings → Bindings
add_yield repo_root c none found = found
add_yield repo_root c (some rs) found = add_repos repo_root c rs found

-- the loop of `BindingCache.refresh` over the connectors
unfoldable pub add_connectors : String → Discover → List Connector → Bindings → Bindings
add_connectors repo_root discover [] found = found
add_connectors repo_root discover (c ∷ cs) found =
    add_connectors repo_root discover cs (add_yield repo_root c (discover c) found)

unfoldable pub refresh : String → Discover → List Connector → Bindings
refresh repo_root discover connectors = add_connectors repo_root discover connectors []
