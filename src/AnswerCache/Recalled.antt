-- ===== src/AnswerCache/Recalled.antt =====
-- What an answer that the cache returns is taken from.
use repo_mcp.Prelude.{
  ℕ, zero, suc, ◌-◌, String, ◌≡◌, refl, sym, ap, ◌∙◌, subst, ◌↔◌, ◌⊎◌, inl, inr, true, false, ◌&&◌,
  Option, none, some, List, [], ◌∷◌, arith, eq_iff, ltb, nat_eq_iff, Bool-cases, Option-cases,
  and_iff, ℕ_eq, String_eq, length, take, keep, In, In-keep,
}
use repo_mcp.Prelude.Result.{Result, ok, Result-cases}
use repo_mcp.AnswerCache.{
  QueryError, CacheKey, Hit, Entry, Db, Library, at_key, is_fresh, cutoff_at, is_exact,
  is_candidate, score, consider, best_of, hit_of, usable, candidates, scored, lookup_semantic,
  lookup_from, lookup_answer, question_hash, one_or_none, newest, place, candidate_limit,
  same_model,
}

pub at_key_iff : (k j : CacheKey) → (at_key k j ≡ true) ↔ (j ≡ k)
at_key_iff k j =
    ground (arith, eq_iff j.tenant k.tenant, eq_iff j.project k.project, eq_iff j.tool k.tool)

In-take : {A : Type 0} (n : ℕ) (xs : List A) (a : A) → In a (take n xs) → In a xs
In-take zero xs a m = absurd m
In-take (suc n) [] a m = absurd m
In-take (suc n) (x ∷ xs) a (inl e) = inl e
In-take (suc n) (x ∷ xs) a (inr m) = inr (In-take n xs a m)

In-place : (e : Entry) (es : List Entry) (a : Entry) → In a (place e es) → (a ≡ e) ⊎ In a es
unfolding place
In-place e [] a (inl h) = inl h
In-place e [] a (inr m) = absurd m
In-place e (f ∷ fs) a m = elim (Bool-cases (ltb e.created_at f.created_at)) [
  | inl later ↦ elim (rw (later, place) at m) [
    | inl h ↦ inr (inl h)
    | inr n ↦ elim (In-place e fs a n) [ inl h ↦ inl h | inr k ↦ inr (inr k) ]
  ]
  | inr first ↦ elim (rw (first, place) at m) [ inl h ↦ inl h | inr n ↦ inr n ]
]

In-newest : (es : List Entry) (a : Entry) → In a (newest es) → In a es
unfolding newest
In-newest [] a m = m
In-newest (e ∷ es) a m = elim (In-place e (newest es) a m) [
  | inl h ↦ inl h
  | inr k ↦ inr (In-newest es a k)
]

In-one_or_none : {A : Type 0} (xs : List A) (a : A) → one_or_none xs ≡ ok (some a) → In a xs
In-one_or_none [] a h = cc
In-one_or_none (x ∷ []) a h = inl cc
In-one_or_none (x ∷ y ∷ more) a h = cc

ok-inj : {A : Type 0} {a b : A} → ◌≡◌ {A = Result QueryError A} (ok a) (ok b) → a ≡ b
ok-inj h = cc

some-inj : {A : Type 0} {a b : A} → some a ≡ some b → a ≡ b
some-inj h = cc

same_model_sound : (m : String) (o : Option String) → same_model m o ≡ true → o ≡ some m
same_model_sound m none h = cc
same_model_sound m (some n) h = ap some ((eq_iff n m).0 h)

module _ {F : Type 0} (lib : Library F) where
  consider-cases :
      (v : List F) (cutoff : Option ℕ) (e : Entry) (acc : Option Entry × F)
      → (consider lib v cutoff e acc ≡ acc)
        ⊎ ((consider lib v cutoff e acc ≡ (some e, score lib v e)) × (is_fresh cutoff e ≡ true))
  unfolding consider
  consider-cases v cutoff e (best, s) =
      elim (Bool-cases (is_fresh cutoff e && lib.greater (score lib v e) s)) [
        | inl better ↦ rw better (inr (refl, ((and_iff _ _).0 better).0))
        | inr worse ↦ rw worse (inl refl)
      ]

  -- What the loop over the candidates ends with: what it began with, or one of them.
  best_of-found :
      (v : List F) (cutoff : Option ℕ) (es : List Entry) (acc : Option Entry × F) (e : Entry)
      → (best_of lib v cutoff es acc).0 ≡ some e
      → ((acc.0 ≡ some e) × ((best_of lib v cutoff es acc).1 ≡ acc.1))
        ⊎ (In e es × (is_fresh cutoff e ≡ true) × ((best_of lib v cutoff es acc).1 ≡ score lib v e))
  unfolding best_of
  best_of-found v cutoff [] acc e h = inl (h, refl)
  best_of-found v cutoff (f ∷ fs) acc e h =
      elim (best_of-found v cutoff fs (consider lib v cutoff f acc) e h) [
        | inr (m, fresh, s) ↦ inr (inr m, fresh, s)
        | inl (kept, s) ↦ elim (consider-cases v cutoff f acc) [
          | inl same ↦ inl (rw same at kept, s ∙ ap (λ x. x.1) same)
          | inr (taken, fresh) ↦
              let first : f ≡ e = ground arith in
              inr (
                inl (sym first),
                subst (λ x. is_fresh cutoff x ≡ true) first fresh,
                s ∙ ap (λ x. x.1) taken ∙ ap (score lib v) first,
              )
        ]
      ]

  -- The entry behind an answer: it has the whole key, is not older than the time to live, and was
  -- asked with the same normalised question, or embedded by the same model with a similarity
  -- that the threshold does not exceed.
  pub data Matched (key : CacheKey) (question : String) (embedding : Option (List F))
      (model : Option String) (threshold : F) (hit : Hit F) (e : Entry) : Type 0 where
    exactly :
        hit.kind ≡ "exact"
        → e.question_hash ≡ question_hash lib question
        → Matched key question embedding model threshold hit e
    similarly :
        (v : List F) (m : String)
        → hit.kind ≡ "semantic"
        → usable lib embedding model ≡ some (v, m)
        → e.embedding_model ≡ some m
        → e.embedding_dim ≡ length v
        → hit.similarity ≡ score lib v e
        → lib.greater threshold hit.similarity ≡ false
        → Matched key question embedding model threshold hit e

  pub record Recalled (key : CacheKey) (question : String) (embedding : Option (List F))
      (model : Option String) (threshold : F) (ttl_seconds now : ℕ) (db : Db) (hit : Hit F)
      : Type 0 where
    pub entry : Entry
    pub listed : In entry db.entries
    pub keyed : entry.key ≡ key
    pub fresh : is_fresh (cutoff_at now ttl_seconds) entry ≡ true
    pub answer : hit.answer ≡ entry.answer
    pub age : hit.age_seconds ≡ now - entry.created_at
    pub matched : Matched key question embedding model threshold hit entry

  candidate_sound :
      (key : CacheKey) (m : String) (n : ℕ) (e : Entry)
      → is_candidate lib key m n e ≡ true
      → (e.key ≡ key) × (e.embedding_model ≡ some m) × (e.embedding_dim ≡ n)
  candidate_sound key m n e h =
      let (three, present) = (and_iff _ _).0 h in
      let (two, dims) = (and_iff _ _).0 three in
      let (k, sm) = (and_iff _ _).0 two in
      ((at_key_iff key e.key).0 k, same_model_sound m e.embedding_model sm, (nat_eq_iff _ _).0 dims)

  scored-Recalled :
      (key : CacheKey) (question : String) (embedding : Option (List F)) (model : Option String)
      (threshold : F) (ttl_seconds now : ℕ) (db : Db) (hit : Hit F) (v : List F) (m : String)
      → usable lib embedding model ≡ some (v, m)
      → (acc : Option Entry × F)
      → ((e : Entry)
          → acc.0 ≡ some e
          → In e (candidates lib db key m (length v))
            × (is_fresh (cutoff_at now ttl_seconds) e ≡ true)
            × (acc.1 ≡ score lib v e))
      → (scored lib acc threshold now db).0 ≡ some hit
      → Recalled key question embedding model threshold ttl_seconds now db hit
  unfolding hit_of
  scored-Recalled key question embedding model threshold ttl_seconds now db hit v m given (none, s)
        found h =
      cc
  scored-Recalled key question embedding model threshold ttl_seconds now db hit v m given
        (some e, s) found h =
      elim (Bool-cases (lib.greater threshold s)) [
        | inl low ↦ cc (rw low at h)
        | inr high ↦
            let same : hit_of lib "semantic" s now e ≡ hit = some-inj (rw high at h) in
            let (listed, fresh, scores) = found e refl in
            let (member, test) =
              (In-keep (is_candidate lib key m (length v)) e db.entries).0
                (In-newest _ e (In-take candidate_limit _ e listed)) in
            let (keyed, by_model, by_dim) = candidate_sound key m (length v) e test in
            record {
              entry = e;
              listed = member;
              keyed = keyed;
              fresh = fresh;
              answer = ap (λ (x : Hit F). x.answer) (sym same);
              age = ap (λ (x : Hit F). x.age_seconds) (sym same);
              matched =
                  similarly v m (ap (λ (x : Hit F). x.kind) (sym same)) given by_model by_dim
                    (ap (λ (x : Hit F). x.similarity) (sym same) ∙ scores)
                    (subst (λ (x : Hit F). lib.greater threshold x.similarity ≡ false) same high);
            }
      ]

  semantic-Recalled :
      (key : CacheKey) (question : String) (embedding : Option (List F)) (model : Option String)
      (threshold : F) (ttl_seconds now : ℕ) (db : Db) (hit : Hit F)
      → (lookup_semantic lib key
          (usable lib embedding model)
          threshold
          (cutoff_at now ttl_seconds)
          now
          db).0
        ≡ some hit
      → Recalled key question embedding model threshold ttl_seconds now db hit
  unfolding lookup_semantic
  semantic-Recalled key question embedding model threshold ttl_seconds now db hit h =
      elim (Option-cases (usable lib embedding model)) [
        | inl nothing ↦ cc (rw (nothing, lookup_semantic) at h)
        | inr ((v, m), given) ↦
            let cutoff = cutoff_at now ttl_seconds in
            let found = candidates lib db key m (length v) in
            scored-Recalled key question embedding model threshold ttl_seconds now db hit v m given
              (best_of lib v cutoff found (none, lib.nought))
              (λ e is_best. elim (best_of-found v cutoff found (none, lib.nought) e is_best) [
                | inl (no_start, s) ↦ cc
                | inr r ↦ r
              ])
              (rw (given, lookup_semantic) at h)
      ]

  exact-Recalled :
      (key : CacheKey) (question : String) (embedding : Option (List F)) (model : Option String)
      (threshold : F) (ttl_seconds now : ℕ) (db : Db) (hit : Hit F) (exact : Option Entry)
      → ((e : Entry)
          → exact ≡ some e
          → In e (keep (is_exact lib key (question_hash lib question)) db.entries))
      → (lookup_from lib exact key
          (usable lib embedding model)
          threshold
          (cutoff_at now ttl_seconds)
          now
          db).0
        ≡ some hit
      → Recalled key question embedding model threshold ttl_seconds now db hit
  unfolding lookup_from hit_of
  exact-Recalled key question embedding model threshold ttl_seconds now db hit none found h =
      semantic-Recalled key question embedding model threshold ttl_seconds now db hit h
  exact-Recalled key question embedding model threshold ttl_seconds now db hit (some e) found h =
      elim (Bool-cases (is_fresh (cutoff_at now ttl_seconds) e)) [
        | inl fresh ↦
            let same : hit_of lib "exact" lib.one now e ≡ hit = some-inj (rw fresh at h) in
            let (member, test) =
              (In-keep (is_exact lib key (question_hash lib question)) e db.entries).0
                (found e refl) in
            let (keyed, hashed) = (and_iff _ _).0 test in
            record {
              entry = e;
              listed = member;
              keyed = (at_key_iff key e.key).0 keyed;
              fresh = fresh;
              answer = ap (λ (x : Hit F). x.answer) (sym same);
              age = ap (λ (x : Hit F). x.age_seconds) (sym same);
              matched =
                  exactly (ap (λ (x : Hit F). x.kind) (sym same))
                    ((eq_iff e.question_hash (question_hash lib question)).0 hashed);
            }
        | inr stale ↦
            semantic-Recalled key question embedding model threshold ttl_seconds now db hit
              (rw stale at h)
      ]

  -- An answer that the cache returns is that of a row with the very squad, project, tool and epoch
  -- of the key, within the time to live, and with the same question hash, or with the same embedding
  -- model and dimension and a similarity that the threshold does not exceed.
  pub lookup_answer-Recalled :
      (key : CacheKey) (question : String) (embedding : Option (List F)) (model : Option String)
      (threshold : F) (ttl_seconds now : ℕ) (db db' : Db) (hit : Hit F)
      → lookup_answer lib key question embedding model threshold ttl_seconds now db
        ≡ ok (some hit, db')
      → Recalled key question embedding model threshold ttl_seconds now db hit
  unfolding lookup_answer
  lookup_answer-Recalled key question embedding model threshold ttl_seconds now db db' hit h =
      let rows = keep (is_exact lib key (question_hash lib question)) db.entries in
      elim (Result-cases (one_or_none rows)) [
        | inl (e, several) ↦ cc (rw several at h)
        | inr (exact, one) ↦
            exact-Recalled key question embedding model threshold ttl_seconds now db hit exact
              (λ e is_e. In-one_or_none rows e (one ∙ ap ok is_e))
              (ap (λ (x : Option (Hit F) × Db). x.0) (ok-inj (rw one at h)))
      ]
