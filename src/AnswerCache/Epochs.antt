-- ===== src/AnswerCache/Epochs.antt =====
-- What raising a project's epoch does to the answers of its earlier graphs.
use repo_mcp.Prelude.{
  ℕ, suc, ◌≤◌, String, ◌≡◌, refl, ap, subst, inl, inr, Bool, false, Option, none, some, List, [],
  ◌∷◌, arith, Bool-cases, ℕ_eq, String_eq, length, keep, In, lookup, lookup-insert,
}
use repo_mcp.Prelude.Result.{ok}
use repo_mcp.AnswerCache.Recalled.{at_key_iff}
use repo_mcp.AnswerCache.{
  CacheKey, Entry, Db, IndexState, Project_eq, Library, at_key, is_exact, is_candidate,
  current_epoch, epoch_of, bump_epoch, next_state, best_of, newest, usable, lookup_semantic,
  lookup_from, lookup_answer, question_hash, same_project, same_project_iff, cutoff_at,
}

-- No answer is of a later graph than its project's.
abbrev pub IsCurrent : Db → Entry → Type 0
IsCurrent db e = e.key.epoch ≤ current_epoch db e.key.tenant e.key.project

abbrev pub NoneAhead : Db → Type 0
NoneAhead db = (e : Entry) → In e db.entries → IsCurrent db e

next_state-epoch :
    (o : Option IndexState) (c : Option String) → (next_state o c).epoch ≡ suc (epoch_of o)
next_state-epoch none c = refl
next_state-epoch (some row) c = refl

pub bump-returns :
    (db : Db) (t p : String) (c : Option String)
    → current_epoch (bump_epoch db t p c).0 t p ≡ suc (current_epoch db t p)
unfolding current_epoch bump_epoch
bump-returns db t p c =
    rw
      (
        lookup-insert (t, p) (t, p) (next_state (lookup (t, p) db.states) c) db.states,
        (same_project_iff (t, p) (t, p)).1 refl,
      )
      (next_state-epoch (lookup (t, p) db.states) c)

pub bump_epoch-current :
    (db : Db) (t p : String) (c : Option String)
    → current_epoch (bump_epoch db t p c).0 t p ≡ (bump_epoch db t p c).1
unfolding current_epoch bump_epoch
bump_epoch-current db t p c =
    rw
      (
        lookup-insert (t, p) (t, p) (next_state (lookup (t, p) db.states) c) db.states,
        (same_project_iff (t, p) (t, p)).1 refl,
      )
      refl

pub bump-le :
    (db : Db) (t p : String) (c : Option String) (u q : String)
    → current_epoch db u q ≤ current_epoch (bump_epoch db t p c).0 u q
unfolding current_epoch bump_epoch
bump-le db t p c u q = elim (Bool-cases (same_project (t, p) (u, q))) [
  | inl same ↦
      let e = (same_project_iff (t, p) (u, q)).0 same in
      rw
        (
          lookup-insert (t, p) (u, q) (next_state (lookup (t, p) db.states) c) db.states,
          same,
          next_state-epoch (lookup (t, p) db.states) c,
          e,
        )
        (omega arith)
  | inr other ↦
      rw (lookup-insert (t, p) (u, q) (next_state (lookup (t, p) db.states) c) db.states, other)
        (omega arith)
]

keep-none :
    {A : Type 0} (f : A → Bool) (xs : List A) → ((a : A) → In a xs → f a ≡ false) → keep f xs ≡ []
unfolding keep
keep-none f [] h = refl
keep-none f (x ∷ xs) h = rw (h x (inl refl)) (keep-none f xs (λ a m. h a (inr m)))

module _ {F : Type 0} (lib : Library F) where
  -- No row of the key, no answer.
  lookup-none :
      (db : Db) (key : CacheKey) (question : String) (embedding : Option (List F))
      (model : Option String) (threshold : F) (ttl_seconds now : ℕ)
      → ((e : Entry) → In e db.entries → at_key key e.key ≡ false)
      → lookup_answer lib key question embedding model threshold ttl_seconds now db ≡ ok (none, db)
  unfolding lookup_answer lookup_from lookup_semantic newest best_of
  lookup-none db key question embedding model threshold ttl_seconds now h =
      rw
        (keep-none (is_exact lib key (question_hash lib question)) db.entries
          (λ e m. ground (arith, h e m)))
        (ap ok (semantic-none (usable lib embedding model)))
    where
      semantic-none :
          (o : Option (List F × String))
          → lookup_semantic lib key o threshold (cutoff_at now ttl_seconds) now db ≡ (none, db)
      semantic-none none = refl
      semantic-none (some (v, m)) =
          rw
            (keep-none (is_candidate lib key m (length v)) db.entries
              (λ e k. ground (arith, h e k)))
            refl

  -- When no row is ahead of its project's epoch, a lookup under the epoch that bump_epoch returns
  -- finds nothing and leaves the tables as they are.
  pub lookup-after_bump :
      (db : Db) (key : CacheKey) (commit : Option String) (question : String)
      (embedding : Option (List F)) (model : Option String) (threshold : F) (ttl_seconds now : ℕ)
      → NoneAhead db
      → key.epoch ≡ (bump_epoch db key.tenant key.project commit).1
      → (let db' = (bump_epoch db key.tenant key.project commit).0 in
          lookup_answer lib key question embedding model threshold ttl_seconds now db'
          ≡ ok (none, db'))
  unfolding bump_epoch current_epoch
  lookup-after_bump db key commit question embedding model threshold ttl_seconds now ahead
        raised_to =
      lookup-none _ key question embedding model threshold ttl_seconds now (λ e m.
        elim (Bool-cases (at_key key e.key)) [
          | inr other ↦ other
          | inl same ↦
              let e_key = (at_key_iff key e.key).0 same in
              let bound =
                subst (λ k. k.epoch ≤ current_epoch db k.tenant k.project) e_key (ahead e m) in
              let raised = next_state-epoch (lookup (key.tenant, key.project) db.states) commit in
              absurd (omega (arith, bound, raised, raised_to))
        ])
