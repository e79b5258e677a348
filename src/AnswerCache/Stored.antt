-- ===== src/AnswerCache/Stored.antt =====
-- That a stored answer is found again, and that the sweep takes no answer away.
use repo_mcp.Prelude.{
  ℕ, ◌+◌, ◌-◌, ◌≤◌, String, ◌≡◌, refl, sym, ap, ◌∙◌, subst, ◌⊎◌, inl, inr, Bool, true, not, Option,
  none, some, List, [], ◌∷◌, ◌++◌, arith, eq_iff, ltb, Bool-cases, and_iff, not_iff, ℕ_eq,
  String_eq, length, keep, In, lookup,
}
use repo_mcp.Prelude.Result.{Result-cases, ok, err, Result}
use repo_mcp.AnswerCache.{
  QueryError, CacheKey, Entry, Db, IndexState, Project, Project_eq, Library, at_key, is_exact,
  is_candidate, current_epoch, epoch_of, best_of, candidates, usable, scored, lookup_semantic,
  lookup_from, lookup_answer, question_hash, one_or_none, store_answer, new_entry, purge_superseded,
  drop_superseded, is_superseded, cutoff_at, hit_of, is_fresh,
}
use repo_mcp.AnswerCache.Recalled.{at_key_iff}

keep-keep :
    {A : Type 0} (f g : A → Bool) (xs : List A)
    → ((a : A) → f a ≡ true → g a ≡ true)
    → keep f (keep g xs) ≡ keep f xs
unfolding keep
keep-keep f g [] h = refl
keep-keep f g (x ∷ xs) h = ground (arith, h x, keep-keep f g xs h)

keep-not :
    {A : Type 0} (f : A → Bool) (xs : List A) (a : A)
    → f a ≡ true
    → keep f (keep (λ x. not (f x)) xs ++ a ∷ []) ≡ a ∷ []
unfolding keep
keep-not f [] a h = rw h refl
keep-not f (x ∷ xs) a h = elim (Bool-cases (f x)) [
  | inl hit ↦ rw hit (keep-not f xs a h)
  | inr miss ↦ rw (miss, miss) (keep-not f xs a h)
]

-- What a lookup answers, without what it leaves in the tables.
abbrev pub answered {ℓ} : {A : Type ℓ} → Result QueryError (A × Db) → Result QueryError A
answered (err e) = err e
answered (ok (a, db)) = ok a

-- The project and squad are the table's primary key.
abbrev pub SoleStates : Db → Type 0
SoleStates db = (s : Project × IndexState) → In s db.states → lookup s.0 db.states ≡ some s.1

young_at :
    (ttl_seconds now later : ℕ) (e : Entry)
    → (ttl_seconds ≡ 0) ⊎ (later ≤ now + ttl_seconds)
    → e.created_at ≡ now
    → is_fresh (cutoff_at later ttl_seconds) e ≡ true
young_at ttl_seconds now later e fresh at = elim (Bool-cases (ltb 0 ttl_seconds)) [
  | inl limited ↦ rw limited (ground (arith, fresh, at))
  | inr unlimited ↦ rw unlimited refl
]

module _ {F : Type 0} (lib : Library F) where
  scored-same :
      (acc : Option Entry × F) (threshold : F) (now : ℕ) (db db' : Db)
      → (scored lib acc threshold now db').0 ≡ (scored lib acc threshold now db).0
  scored-same (none, s) threshold now db db' = refl
  scored-same (some e, s) threshold now db db' = elim (Bool-cases (lib.greater threshold s)) [
    | inl low ↦ rw low refl
    | inr high ↦ rw high refl
  ]

  -- Two databases with the same rows of the key.
  abbrev Agree : CacheKey → Db → Db → Type 0
  Agree key db db' =
      (f : Entry → Bool)
      → ((e : Entry) → f e ≡ true → at_key key e.key ≡ true)
      → keep f db'.entries ≡ keep f db.entries

  semantic-Agree :
      (key : CacheKey) (o : Option (List F × String)) (threshold : F) (cutoff : Option ℕ) (now : ℕ)
      (db db' : Db)
      → Agree key db db'
      → (lookup_semantic lib key o threshold cutoff now db').0
        ≡ (lookup_semantic lib key o threshold cutoff now db).0
  unfolding lookup_semantic
  semantic-Agree key none threshold cutoff now db db' h = refl
  semantic-Agree key (some (v, m)) threshold cutoff now db db' h =
      rw (h (is_candidate lib key m (length v)) (λ e k. ground arith)) (
        scored-same (best_of lib v cutoff (candidates lib db key m (length v)) (none, lib.nought))
          threshold now db db')

  from-Agree :
      (exact : Option Entry) (key : CacheKey) (o : Option (List F × String)) (threshold : F)
      (cutoff : Option ℕ) (now : ℕ) (db db' : Db)
      → Agree key db db'
      → (lookup_from lib exact key o threshold cutoff now db').0
        ≡ (lookup_from lib exact key o threshold cutoff now db).0
  unfolding lookup_from
  from-Agree none key o threshold cutoff now db db' h =
      semantic-Agree key o threshold cutoff now db db' h
  from-Agree (some e) key o threshold cutoff now db db' h = elim (Bool-cases (is_fresh cutoff e)) [
    | inl fresh ↦ rw fresh refl
    | inr stale ↦ rw stale (semantic-Agree key o threshold cutoff now db db' h)
  ]

  lookup-Agree :
      (key : CacheKey) (question : String) (embedding : Option (List F)) (model : Option String)
      (threshold : F) (ttl_seconds now : ℕ) (db db' : Db)
      → Agree key db db'
      → answered (lookup_answer lib key question embedding model threshold ttl_seconds now db')
        ≡ answered (lookup_answer lib key question embedding model threshold ttl_seconds now db)
  unfolding lookup_answer
  lookup-Agree key question embedding model threshold ttl_seconds now db db' h =
      rw (h (is_exact lib key (question_hash lib question)) (λ e k. ground arith))
        (elim (Result-cases
          (one_or_none (keep (is_exact lib key (question_hash lib question)) db.entries))) [
            | inl (e, several) ↦ rw several refl
            | inr (exact, one_row) ↦ rw one_row (
                ap ok (
                  from-Agree exact key (usable lib embedding model) threshold
                    (cutoff_at now ttl_seconds) now db db' h))
          ])

  not-superseded :
      (key : CacheKey) (s : Project × IndexState) (e : Entry)
      → at_key key e.key ≡ true
      → (s.0 ≡ (key.tenant, key.project) → s.1.epoch ≤ key.epoch)
      → not (is_superseded s e) ≡ true
  not-superseded key ((t, p), row) e at bound = elim (Bool-cases (is_superseded ((t, p), row) e)) [
    | inr current ↦ (not_iff _).1 current
    | inl old ↦
        let (here, less) = (and_iff _ _).0 old in
        let (at_t, at_p) = (and_iff _ _).0 here in
        let same = (at_key_iff key e.key).0 at in
        let t_is : t ≡ key.tenant =
          sym ((eq_iff e.key.tenant t).0 at_t) ∙ ap (λ (k : CacheKey). k.tenant) same in
        let p_is : p ≡ key.project =
          sym ((eq_iff e.key.project p).0 at_p) ∙ ap (λ (k : CacheKey). k.project) same in
        let le = bound (ap (λ x. (x, p)) t_is ∙ ap (λ x. (key.tenant, x)) p_is) in
        let epochs = ap (λ (k : CacheKey). k.epoch) same in absurd (ground (arith, le, epochs))
  ]

  drop_superseded-Agree :
      (key : CacheKey) (f : Entry → Bool) (ss : List (Project × IndexState)) (es : List Entry)
      → ((e : Entry) → f e ≡ true → at_key key e.key ≡ true)
      → ((s : Project × IndexState)
          → In s ss
          → s.0 ≡ (key.tenant, key.project)
          → s.1.epoch ≤ key.epoch)
      → keep f (drop_superseded ss es) ≡ keep f es
  unfolding drop_superseded
  drop_superseded-Agree key f [] es only bound = refl
  drop_superseded-Agree key f (s ∷ ss) es only bound =
      drop_superseded-Agree key f ss _ only (λ t m. bound t (inr m))
      ∙ keep-keep f (λ e. not (is_superseded s e)) es
          (λ e hit. not-superseded key s e (only e hit) (bound s (inl refl)))

  -- When the squad and project are a primary key of the index states, purge_superseded changes the
  -- answer of no lookup under a project's current epoch.
  pub lookup-purge_superseded :
      (db : Db) (key : CacheKey) (question : String) (embedding : Option (List F))
      (model : Option String) (threshold : F) (ttl_seconds now : ℕ)
      → SoleStates db
      → key.epoch ≡ current_epoch db key.tenant key.project
      → answered (
          lookup_answer lib key question embedding model threshold ttl_seconds now
            (purge_superseded db))
        ≡ answered (lookup_answer lib key question embedding model threshold ttl_seconds now db)
  unfolding purge_superseded current_epoch
  lookup-purge_superseded db key question embedding model threshold ttl_seconds now sole at =
      lookup-Agree key question embedding model threshold ttl_seconds now db _ (λ f only.
        drop_superseded-Agree key f db.states db.entries only (λ s m is_key.
          let row = subst (λ k. lookup k db.states ≡ some s.1) is_key (sole s m) in
          omega (arith, at, ap epoch_of row)))

  -- An answer that is stored is found by an exact match for every question with the same hash, under
  -- the same key, while it is within the time to live.
  pub lookup-store :
      (db : Db) (key : CacheKey) (question again answer answer_model : String)
      (embedding embedding' : Option (List F)) (model model' : Option String) (threshold : F)
      (ttl_seconds now later : ℕ)
      → question_hash lib again ≡ question_hash lib question
      → (ttl_seconds ≡ 0) ⊎ (later ≤ now + ttl_seconds)
      → answered (
          lookup_answer lib key again embedding' model' threshold ttl_seconds later
            (store_answer lib key question answer answer_model embedding model now db))
        ≡ ok (
            some (record {
              answer = answer;
              kind = "exact";
              similarity = lib.one;
              age_seconds = later - now;
            }))
  unfolding lookup_answer lookup_from store_answer new_entry hit_of
  lookup-store db key question again answer answer_model embedding embedding' model model' threshold
        ttl_seconds now later same fresh =
      let new = new_entry lib key question answer answer_model embedding model now db.next_id in
      let exact = is_exact lib key (question_hash lib question) in
      let is_new : exact new ≡ true =
        (and_iff _ _).1 ((at_key_iff key key).1 refl, (eq_iff _ _).1 refl) in
      let young : is_fresh (cutoff_at later ttl_seconds) new ≡ true =
        young_at ttl_seconds now later new fresh refl in
      rw (same, keep-not exact db.entries new is_new, young) refl
