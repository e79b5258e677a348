-- ===== src/Configuration/Store/Served.antt =====
-- What `ConfigurationProvider.current` of gateway/app/configuration.py serves to a request.
use repo_mcp.Prelude.{
  sym, ◌∙◌, Bool-cases, inl, inr, ◌==◌, nat_eq_iff, ap, subst, refl, none, some, ℕ, ◌+◌, ◌≤◌,
  String, ◌≡◌, Option, List, [], ℕ_eq, String_eq,
}
use repo_mcp.Prelude.Result.{bind-ok, Result, ok}
use repo_mcp.Prelude.Value.{Value}
use repo_mcp.Configuration.Store.Fresh.{snapshot_retained, Served, snapshot-Served, Fresh}
use repo_mcp.Configuration.Documents.Valid.{Valid}
use repo_mcp.Configuration.Documents.Loads.{from_dict-tenants_document, registry_of}
use repo_mcp.Configuration.Store.{
  built, load, Reads, RuntimeSettings, setting_of, override, BuildError, or_refused, number,
  replaced, read_settings, apply_snapshot, current, snapshot, Store, from_dict, Snapshot, Runtime,
  Provider, build, decrypt_rows,
}
use repo_mcp.Configuration.Store.History.{History}
use repo_mcp.Configuration.{Tables}

module _ (decrypt : String → Option String) (defaults : List (String × Value)) {F : Type 0}
    (reads : Reads F) (latency : ℕ) (h : ℕ → Tables) where
  -- `float` takes each of the five settings that are read as numbers.
  abbrev pub IsNumber : List (String × Value) → String → Type 0
  IsNumber settings key =
      (x : F) × (reads.to_float (setting_of defaults (override settings defaults) key) ≡ some x)

  pub record Numeric (settings : List (String × Value)) : Type 0 where
    pub litellm_timeout : IsNumber settings "litellm.timeout_seconds"
    pub idle_timeout : IsNumber settings "engine.idle_timeout_seconds"
    pub call_timeout : IsNumber settings "engine.call_timeout_seconds"
    pub threshold : IsNumber settings "answer_cache.similarity_threshold"
    pub ttl : IsNumber settings "answer_cache.ttl_seconds"

  Numeric-read :
      (settings : List (String × Value)) (secrets : List (String × String))
      → Numeric settings
      → (r : RuntimeSettings F) × (read_settings defaults reads (override settings defaults) secrets
          ≡ ok r)
  unfolding read_settings number
  Numeric-read settings secrets n = (
    replaced defaults reads (override settings defaults) secrets n.litellm_timeout.0
        n.idle_timeout.0 n.call_timeout.0 n.threshold.0 n.ttl.0,
    rw (n.litellm_timeout.1, n.idle_timeout.1, n.call_timeout.1, n.threshold.1, n.ttl.1) refl,
  )

  -- The store is fresh, and what is kept was built from its snapshot.
  pub record Provided (now : ℕ) (p : Provider F) : Type 0 where
    pub fresh : Fresh decrypt defaults h latency now p.store
    pub same :
        (c : Runtime F)
        → p.current ≡ some c
        → (s : Snapshot) × (p.store.snapshot ≡ some s) × (build defaults reads s ≡ ok c)

  -- A registry and secrets that are those of a moment at most `poll` before the call.
  pub record Answered (poll now loaded : ℕ) (r : Result BuildError (Runtime F) × Provider F)
      : Type 0 where
    pub runtime : Runtime F
    pub returned : r.0 ≡ ok runtime
    pub moment : ℕ
    pub recently : now ≤ moment + poll + latency
    pub past : moment ≤ loaded
    pub registry : runtime.registry ≡ registry_of (h moment)
    pub settings :
        read_settings defaults reads (override (h moment).settings defaults) runtime.secrets
        ≡ ok runtime.settings
    pub secrets : runtime.secrets ≡ decrypt_rows decrypt (h moment).secrets []
    pub provided : Provided loaded r.1

  module _ (valid : (t : ℕ) → Valid (h t)) (numeric : (t : ℕ) → Numeric (h t).settings) where
    -- a snapshot of a moment is built into the registry, the settings and the secrets of that moment
    build-load :
        (s : Snapshot) (t : ℕ)
        → s ≡ load decrypt defaults s.generation (h t)
        → (c : Runtime F) × (build defaults reads s ≡ ok c)
          × (c.registry ≡ registry_of (h t))
          × (read_settings defaults reads (override (h t).settings defaults) c.secrets
              ≡ ok c.settings)
          × (c.secrets ≡ decrypt_rows decrypt (h t).secrets [])
          × (c.generation ≡ s.generation)
    unfolding build load
    build-load s t e =
        let loads = from_dict-tenants_document reads.repr (h t) (valid t) in
        let document = ap (λ (x : Snapshot). x.tenants_document) e in
        let settings = ap (λ (x : Snapshot). x.settings) e in
        let secrets = ap (λ (x : Snapshot). x.secrets) e in
        let (r, done) = Numeric-read (h t).settings s.secrets (numeric t) in
        (
          record {
            generation = s.generation;
            registry = registry_of (h t);
            settings = r;
            secrets = s.secrets;
          },
          rw (document, loads, settings, done) refl,
          refl,
          done,
          secrets,
          refl,
        )

    built-Answered :
        (poll now loaded : ℕ) (old : Option (Runtime F)) (s : Snapshot) (store : Store)
        → Served decrypt defaults h latency poll now loaded (s, store)
        → Answered poll now loaded (built defaults reads store old (build defaults reads s))
    built-Answered poll now loaded old s store v =
        let (c, done, registry, settings, secrets, g) = build-load s v.moment v.content in
        rw done (record {
          runtime = c;
          returned = refl;
          moment = v.moment;
          recently = v.recently;
          past = v.past;
          registry = registry;
          settings = settings;
          secrets = secrets;
          provided = record {
            fresh = v.fresh;
            same = λ d e. let same : c ≡ d = cc in (s, v.kept, rw (← same) done);
          };
        })

    kept-Answered :
        (poll now loaded : ℕ) (c : Runtime F) (s : Snapshot) (store : Store)
        → Served decrypt defaults h latency poll now loaded (s, store)
        → build defaults reads s ≡ ok c
        → Answered poll now loaded (ok c, record { store = store; current = some c })
    kept-Answered poll now loaded c s store v done =
        subst (λ r. Answered poll now loaded (built defaults reads store (some c) r)) done
          (built-Answered poll now loaded (some c) s store v)

    current-kept :
        (poll now loaded : ℕ) (o : Option (Runtime F)) (r : Snapshot × Store)
        → Served decrypt defaults h latency poll now loaded r
        → ((c : Runtime F)
            → o ≡ some c
            → c.generation ≡ r.0.generation
            → build defaults reads r.0 ≡ ok c)
        → Answered poll now loaded (apply_snapshot defaults reads r o)
    unfolding apply_snapshot
    current-kept poll now loaded none (s, store) v same =
        built-Answered poll now loaded none s store v
    current-kept poll now loaded (some c) (s, store) v same =
        elim (Bool-cases (c.generation == s.generation)) [
          | inl e ↦
              rw e (kept-Answered poll now loaded c s store v (same c refl ((nat_eq_iff _ _).0 e)))
          | inr e ↦ rw e (built-Answered poll now loaded (some c) s store v)
        ]

    built_generation :
        (s : Snapshot) (c : Runtime F) → build defaults reads s ≡ ok c → c.generation ≡ s.generation
    unfolding build
    built_generation s c e =
        let (registry, read, rest) =
          bind-ok (or_refused (from_dict reads.repr s.tenants_document)) _ e in
        let (settings, made, done) =
          bind-ok (read_settings defaults reads s.settings s.secrets) _ rest in
        cc

    pub current-Answered :
        History h
        → (poll now read checked loaded : ℕ) → now ≤ read
        → read ≤ checked
        → checked ≤ read + latency
        → checked ≤ loaded
        → (p : Provider F) → Provided now p
        → Answered poll now loaded (current decrypt defaults reads poll now read checked loaded h p)
    unfolding current
    current-Answered history poll now read checked loaded asked noted soon answered p i =
        let v =
          snapshot-Served decrypt defaults h history latency poll now read checked loaded asked
            noted soon answered p.store i.fresh in
        current-kept poll now loaded p.current
          (snapshot decrypt defaults poll now read checked loaded h p.store) v
          (λ c e g.
            let (s, kept, done) = i.same c e in
            let g' = sym (built_generation s c done) ∙ g in
            let same =
              snapshot_retained decrypt defaults poll now read checked loaded h p.store.snapshot
                p.store.checked_at s kept g' in
            subst (λ x. build defaults reads x ≡ ok c) same done)
