-- ===== src/AnswerCache/Kept.antt =====
-- What every operation on the two tables keeps, and what it does not change.
use repo_mcp.Prelude.{
  ℕ, suc, ◌≤◌, String, ◌≡◌, refl, sym, ap, ◌∙◌, subst, inl, inr, not, Option, some, List, [], ◌∷◌,
  arith, nat_eq, if◌then◌else◌, Bool-cases, ℕ_eq, String_eq, keep, In-map-elim, In, In-append,
  In-keep,
}
use repo_mcp.AnswerCache.{
  CacheKey, Entry, Db, IndexState, Project, Project_eq, Library, is_exact, current_epoch,
  bump_epoch, question_hash, store_answer, new_entry, purge, purge_superseded, drop_superseded,
  is_superseded, record_hit,
}
use repo_mcp.AnswerCache.Epochs.{NoneAhead, bump-le}

-- One operation of the program on the tables. An answer is stored under the epoch that the project
-- has when it is stored.
pub data Step {F : Type 0} (lib : Library F) : Db → Db → Type 0 where
  bumped :
      (db : Db) (t p : String) (commit : Option String) → Step lib db (bump_epoch db t p commit).0
  stored :
      (db : Db) (key : CacheKey) (question answer answer_model : String)
      (embedding : Option (List F)) (model : Option String) (now : ℕ)
      → key.epoch ≡ current_epoch db key.tenant key.project
      → Step lib db (store_answer lib key question answer answer_model embedding model now db)
  recorded : (db : Db) (e : Entry) (now : ℕ) → Step lib db (record_hit db e now)
  purged :
      (db : Db) (t p : Option String) (seconds : Option ℕ) (now : ℕ)
      → Step lib db (purge t p seconds now db)
  swept : (db : Db) → Step lib db (purge_superseded db)

-- The tables that some operations make of empty ones.
pub data Reached {F : Type 0} (lib : Library F) : Db → Type 0 where
  begun : (n : ℕ) → Reached lib (record { entries = []; states = []; next_id = n })
  later : (db db' : Db) → Reached lib db → Step lib db db' → Reached lib db'

-- An entry's key, among the entries of before.
abbrev From : List Entry → Entry → Type 0
From es e = (a : Entry) × In a es × (e.key ≡ a.key)

NoneAhead-From :
    (db db' : Db)
    → ((e : Entry) → In e db'.entries → From db.entries e)
    → ((t p : String) → current_epoch db t p ≤ current_epoch db' t p)
    → NoneAhead db
    → NoneAhead db'
NoneAhead-From db db' from rises ahead e m =
    let (a, n, same) = from e m in
    subst (λ k. k.epoch ≤ current_epoch db' k.tenant k.project) (sym same)
      (omega (arith, ahead a n, rises a.key.tenant a.key.project))

drop_superseded-In :
    (ss : List (Project × IndexState)) (es : List Entry) (e : Entry)
    → In e (drop_superseded ss es)
    → In e es
unfolding drop_superseded
drop_superseded-In [] es e m = m
drop_superseded-In (s ∷ ss) es e m =
    ((In-keep (λ x. not (is_superseded s x)) e es).0
      (drop_superseded-In ss (keep (λ x. not (is_superseded s x)) es) e m)).0

record_hit-From :
    (db : Db) (h : Entry) (now : ℕ) (e : Entry)
    → In e (record_hit db h now).entries
    → From db.entries e
unfolding record_hit
record_hit-From db h now e m =
    let (a, n, same) = In-map-elim _ e db.entries m in
    (a, n, ap (λ (x : Entry). x.key) same ∙ key_kept a)
  where
    key_kept :
        (a : Entry)
        → (if nat_eq a.id h.id
            then record a { hits = suc a.hits; last_hit_at = some now }
            else a).key
          ≡ a.key
    key_kept a = elim (Bool-cases (nat_eq a.id h.id)) [
      | inl same_id ↦ rw same_id refl
      | inr other_id ↦ rw other_id refl
    ]

module _ {F : Type 0} (lib : Library F) where
  store-NoneAhead :
      (db : Db) (key : CacheKey) (question answer answer_model : String)
      (embedding : Option (List F)) (model : Option String) (now : ℕ)
      → key.epoch ≡ current_epoch db key.tenant key.project
      → NoneAhead db
      → NoneAhead (store_answer lib key question answer answer_model embedding model now db)
  unfolding store_answer new_entry current_epoch
  store-NoneAhead db key question answer answer_model embedding model now at ahead e m =
      elim ((In-append e
          (keep (λ x. not (is_exact lib key (question_hash lib question) x)) db.entries) _).0
        m) [
          | inl old ↦ ahead e ((In-keep _ e db.entries).0 old).0
          | inr (inl new) ↦
              subst (λ k. k.epoch ≤ current_epoch db k.tenant k.project)
                (sym (ap (λ (x : Entry). x.key) new)) (omega (arith, at))
          | inr (inr none_left) ↦ absurd none_left
        ]

  Step-NoneAhead : {db db' : Db} → Step lib db db' → NoneAhead db → NoneAhead db'
  unfolding bump_epoch purge record_hit purge_superseded current_epoch
  Step-NoneAhead (bumped db t p c) ahead =
      NoneAhead-From db (bump_epoch db t p c).0 (λ e m. (e, m, refl)) (bump-le db t p c) ahead
  Step-NoneAhead (stored db key q a am v m now at) ahead =
      store-NoneAhead db key q a am v m now at ahead
  Step-NoneAhead (recorded db h now) ahead =
      NoneAhead-From db (record_hit db h now) (record_hit-From db h now) (λ t p. omega arith) ahead
  Step-NoneAhead (purged db t p seconds now) ahead =
      NoneAhead-From db (purge t p seconds now db)
        (λ e m. (e, ((In-keep _ e db.entries).0 m).0, refl)) (λ t p. omega arith) ahead
  Step-NoneAhead (swept db) ahead =
      NoneAhead-From db (purge_superseded db)
        (λ e m. (e, drop_superseded-In db.states db.entries e m, refl)) (λ t p. omega arith) ahead

  -- Whatever sequence of bumps, stores under the current epoch, recorded hits, purges and sweeps
  -- made the tables of empty ones, no row is ahead of its project's epoch.
  pub Reached-NoneAhead : {db : Db} → Reached lib db → NoneAhead db
  Reached-NoneAhead (begun n) = λ e m. absurd m
  Reached-NoneAhead (later db db' r s) = Step-NoneAhead s (Reached-NoneAhead r)
