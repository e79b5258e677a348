-- ===== src/Configuration/Store.antt =====
-- common/repo_mcp_common/store.py: the snapshot of the configuration, read again only when the
-- generation has moved, and gateway/app/configuration.py, which keeps the registry built from it.
--
-- The database is a function of the time, which is a count of ticks of the monotonic clock. A call reads
-- the clock, then the generation, then the clock, when the answer is there, then the tables: the four
-- moments are arguments. Calls follow one another, as the lock has it. The defaults of the settings are
-- an argument: one of them is a fraction. Floats and `float` are parameters.
pub mod History
pub mod Fresh
pub mod Secrets
pub mod Served
pub mod Calls
use repo_mcp.Prelude.{
  ℕ, zero, suc, ◌+◌, ◌-◌, ◌*◌, ◌/◌, ◌%◌, ◌≤◌, ◌<◌, String, ◌≡◌, refl, sym, ap, ◌∙◌, subst, ◌≢◌, ◌↔◌,
  ◌⊎◌, inl, inr, Bool, true, false, not, ◌&&◌, ◌||◌, Option, none, some, List, [], ◌∷◌, ◌++◌, map,
  arith, eq_iff, ltb, leb, nat_eq, if◌then◌else◌, nat_eq_iff, Bool-cases, Option-cases, and_iff,
  or_iff, not_iff, Eq, ◌==◌, ℕ_eq, String_eq, length, take, length-append, any, all, keep, find,
  All, is_empty, not-In_of_is_empty, is_empty_of_not-In, is_empty-difference_iff, In-map-elim,
  In-map-intro, All-imp, In, In-append, In-keep, find-some, find-none, any-elim, any-intro,
  all-elim, all-intro, contains, difference, meets, subset, contains_iff, In-difference, meets_iff,
  subset_iff, lookup, insert, remove, lookup-insert, lookup-remove, text_le, put_sorted, sorted_by,
  In-sorted_by, Pairwise, All-sorted_by, Pairwise-sorted_by, All-intro, In_of_All,
}
use repo_mcp.Prelude.Result.{◌>>=◌, Result, ok, err, required}
use repo_mcp.Prelude.Value.{Value, null, Fields, truthy, text_of}
use repo_mcp.Tenants.{TenantRegistry}
use repo_mcp.Tenants.Document.{from_dict, ConfigError}
use repo_mcp.Configuration.{Tables, SecretRow}
use repo_mcp.Configuration.Documents.{tenants_document, scan_document}

-- `ConfigSnapshot`
pub record Snapshot : Type 0 where
  pub generation : ℕ
  pub tenants_document : Fields
  pub scan_document : Fields
  pub settings : List (String × Value)
  pub secrets : List (String × String)

-- `ConfigStore`
pub record Store : Type 0 where
  pub snapshot : Option Snapshot
  pub checked_at : ℕ

unfoldable pub current_generation : Tables → ℕ
current_generation db = elim db.generation [ none ↦ 0 | some n ↦ n ]

-- `decrypt` returns no text where the box raises: that secret is left out.
unfoldable pub decrypt_rows :
    (String → Option String) → List SecretRow → List (String × String) → List (String × String)
decrypt_rows decrypt [] found = found
decrypt_rows decrypt (row ∷ rows) found = elim (decrypt row.ciphertext) [
  | none ↦ decrypt_rows decrypt rows found
  | some text ↦ decrypt_rows decrypt rows (insert row.name text found)
]

-- `settings.update(...)`
unfoldable pub override : List (String × Value) → List (String × Value) → List (String × Value)
override [] settings = settings
override ((key, value) ∷ rows) settings = override rows (insert key value settings)

-- `now - self._checked_at < self._poll`
abbrev pub recent : ℕ → ℕ → Store → Bool
recent poll now store = ltb (now - store.checked_at) poll

-- `ConfigStore.invalidate`
unfoldable pub invalidate : Store → Store
invalidate store = record { snapshot = none; checked_at = 0 }

-- What `_build` reads with: how Python prints a value and what `float` makes of it, which may raise,
-- and the settings that come from the environment.
pub record Reads (F : Type 0) : Type 0 where
  pub repr : Value → String
  pub to_float : Value → Option F
  pub oidc_issuer : String
  pub oidc_audience : String
  pub oidc_groups_claim : String
  pub oidc_browser_client_id : String
  pub oidc_browser_scopes : String
  pub ui_language : String

-- `Settings`, as far as `_build` replaces it
pub record RuntimeSettings (F : Type 0) : Type 0 where
  pub oidc_issuer : String
  pub oidc_audience : String
  pub oidc_groups_claim : String
  pub oidc_browser_client_id : String
  pub oidc_browser_scopes : String
  pub ui_language : String
  pub litellm_base_url : String
  pub litellm_api_key : String
  pub litellm_model : String
  pub litellm_timeout_s : F
  pub smart_tools_enabled : Bool
  pub cbm_idle_timeout_s : F
  pub cbm_call_timeout_s : F
  pub answer_cache_enabled : Bool
  pub answer_cache_embedding_model : String
  pub answer_cache_threshold : F
  pub answer_cache_ttl_s : F
  pub headroom_enabled : Bool
  pub headroom_base_url : String
  pub headroom_fallback : Bool

-- `RuntimeConfig`, and `ConfigurationProvider`
pub record Runtime (F : Type 0) : Type 0 where
  pub generation : ℕ
  pub registry : TenantRegistry
  pub settings : RuntimeSettings F
  pub secrets : List (String × String)

pub record Provider (F : Type 0) : Type 0 where
  pub store : Store
  pub current : Option (Runtime F)

-- the document is refused, or the setting of that key is no number
pub data BuildError : Type 0 where
  refused : ConfigError → BuildError
  not_a_number : String → BuildError

abbrev pub or_refused : {A : Type 0} → Result ConfigError A → Result BuildError A
or_refused (ok a) = ok a
or_refused (err e) = err (refused e)

abbrev value_or_null : Option Value → Value
value_or_null none = null
value_or_null (some v) = v

-- `ConfigSnapshot.setting(key)`
unfoldable pub setting_of : List (String × Value) → List (String × Value) → String → Value
setting_of defaults settings key = elim (lookup key settings) [
  | some v ↦ v
  | none ↦ value_or_null (lookup key defaults)
]

module _ {F : Type 0} (defaults : List (String × Value)) (reads : Reads F) where
  -- `str(value or other)`
  abbrev pub text_or : Value → String → String
  text_or v other = if truthy v then text_of reads.repr v else other

  -- `float(snapshot.setting(key))`
  unfoldable pub number : List (String × Value) → String → Result BuildError F
  number settings key =
      required (reads.to_float (setting_of defaults settings key)) (not_a_number key)

  -- the `replace` of `_build`, with its five numbers
  unfoldable pub replaced :
      List (String × Value) → List (String × String) → F → F → F → F → F → RuntimeSettings F
  replaced settings secrets litellm_timeout_s cbm_idle_timeout_s cbm_call_timeout_s
        answer_cache_threshold answer_cache_ttl_s =
      let setting = setting_of defaults settings in
      record {
        oidc_issuer = text_or (setting "oidc.issuer") reads.oidc_issuer;
        oidc_audience = text_or (setting "oidc.audience") reads.oidc_audience;
        oidc_groups_claim = text_or (setting "oidc.groups_claim") reads.oidc_groups_claim;
        oidc_browser_client_id =
            text_or (setting "oidc.browser_client_id") reads.oidc_browser_client_id;
        oidc_browser_scopes = text_or (setting "oidc.browser_scopes") reads.oidc_browser_scopes;
        ui_language = text_or (setting "ui.language") reads.ui_language;
        litellm_base_url = text_or (setting "litellm.base_url") "";
        litellm_api_key = elim (lookup (text_or (setting "litellm.api_key_secret") "") secrets) [
          | none ↦ ""
          | some key ↦ key
        ];
        litellm_model = text_of reads.repr (setting "litellm.model");
        litellm_timeout_s = litellm_timeout_s;
        smart_tools_enabled = truthy (setting "smart_tools.enabled");
        cbm_idle_timeout_s = cbm_idle_timeout_s;
        cbm_call_timeout_s = cbm_call_timeout_s;
        answer_cache_enabled = truthy (setting "answer_cache.enabled");
        answer_cache_embedding_model = text_of reads.repr (setting "answer_cache.embedding_model");
        answer_cache_threshold = answer_cache_threshold;
        answer_cache_ttl_s = answer_cache_ttl_s;
        headroom_enabled = truthy (setting "headroom.enabled");
        headroom_base_url = text_or (setting "headroom.base_url") "";
        headroom_fallback = truthy (setting "headroom.fallback_to_litellm");
      }

  unfoldable pub read_settings :
      List (String × Value) → List (String × String) → Result BuildError (RuntimeSettings F)
  read_settings settings secrets = do
    litellm_timeout_s ← number settings "litellm.timeout_seconds"
    cbm_idle_timeout_s ← number settings "engine.idle_timeout_seconds"
    cbm_call_timeout_s ← number settings "engine.call_timeout_seconds"
    answer_cache_threshold ← number settings "answer_cache.similarity_threshold"
    answer_cache_ttl_s ← number settings "answer_cache.ttl_seconds"
    ok (
        replaced settings secrets litellm_timeout_s cbm_idle_timeout_s cbm_call_timeout_s
          answer_cache_threshold answer_cache_ttl_s)

  -- `ConfigurationProvider._build`
  unfoldable pub build : Snapshot → Result BuildError (Runtime F)
  build s = do
    registry ← or_refused (from_dict reads.repr s.tenants_document)
    settings ← read_settings s.settings s.secrets
    ok (record {
      generation = s.generation;
      registry = registry;
      settings = settings;
      secrets = s.secrets;
    })

  -- what `current` does with a snapshot: where the document or a setting is refused, the exception
  -- leaves the provider as it was
  abbrev pub built :
      Store
      → Option (Runtime F)
      → Result BuildError (Runtime F)
      → Result BuildError (Runtime F) × Provider F
  built store old (ok c) = (ok c, record { store = store; current = some c })
  built store old (err e) = (err e, record { store = store; current = old })

  unfoldable pub apply_snapshot :
      Snapshot × Store → Option (Runtime F) → Result BuildError (Runtime F) × Provider F
  apply_snapshot (s, store) none = built store none (build s)
  apply_snapshot (s, store) (some c) =
      if c.generation == s.generation
      then (ok c, record { store = store; current = some c })
      else built store (some c) (build s)

module _ (decrypt : String → Option String) (defaults : List (String × Value)) where
  unfoldable pub load : ℕ → Tables → Snapshot
  load generation db = record {
    generation = generation;
    tenants_document = tenants_document db;
    scan_document = scan_document db;
    settings = override db.settings defaults;
    secrets = decrypt_rows decrypt db.secrets [];
  }

  -- the branch that asks the database
  unfoldable pub reload : ℕ → ℕ → ℕ → (ℕ → Tables) → Store → Snapshot × Store
  reload read checked loaded history store =
      let generation = current_generation (history read) in
      let fresh = load generation (history loaded) in
      let reloaded : Snapshot × Store =
        (fresh, record { snapshot = some fresh; checked_at = checked }) in
      elim store.snapshot [
        | none ↦ reloaded
        | some s ↦
            if s.generation == generation
            then (s, record { snapshot = some s; checked_at = checked })
            else reloaded
      ]

  -- `ConfigStore.snapshot`
  unfoldable pub snapshot : ℕ → ℕ → ℕ → ℕ → ℕ → (ℕ → Tables) → Store → Snapshot × Store
  snapshot poll now read checked loaded history store = elim store.snapshot [
    | none ↦ reload read checked loaded history store
    | some s ↦
        if recent poll now store then (s, store) else reload read checked loaded history store
  ]

  -- `ConfigurationProvider.current`
  unfoldable pub current :
      {F : Type 0}
      → Reads F
      → ℕ
      → ℕ
      → ℕ
      → ℕ
      → ℕ
      → (ℕ → Tables)
      → Provider F
      → Result BuildError (Runtime F) × Provider F
  current reads poll now read checked loaded history p =
      apply_snapshot defaults reads (snapshot poll now read checked loaded history p.store)
        p.current

-- `ConfigurationProvider.invalidate`
unfoldable pub forget : {F : Type 0} → Provider F → Provider F
forget p = record { store = invalidate p.store; current = none }
