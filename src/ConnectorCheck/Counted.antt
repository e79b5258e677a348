-- ===== src/ConnectorCheck/Counted.antt =====
-- What the check of a connector counts, without its loop.
use mathlib.Core.List.{append_assoc, append-nil}
use repo_mcp.Prelude.{
  ℕ, zero, suc, ◌+◌, ◌-◌, ◌≤◌, ◌<◌, String, ◌≡◌, refl, sym, ◌∙◌, subst, ◌≢◌, ◌⊎◌, inl, inr, Bool,
  true, false, not, ◌&&◌, List, [], ◌∷◌, ◌++◌, map, arith, ltb, leb, Bool-cases, length,
  length-append, take, keep, ℕ_eq, String_eq,
}
use repo_mcp.Prelude.Result.{Result, ok, err}
use repo_mcp.Indexer.Discovery.{DiscoveredRepo, selected}
use repo_mcp.ConnectorCheck.{
  Reason, Ending, finished, timed_out, http_status, http_error, Tally, shown, show, is_indexable,
  note, ended, enumerate,
}

-- names that are shown already, and as many more as there is room for
abbrev pub filled : List String → List String → List String
filled names more = names ++ take (shown - length names) more

filled-show :
    (names : List String) (x : String) (more : List String)
    → filled (show names x) more ≡ filled names (x ∷ more)
filled-show names x more = elim (Bool-cases (ltb (length names) shown)) [
  | inl room ↦
      let one_more = length-append names (x ∷ []) in
      let left : shown - length (names ++ x ∷ []) ≡ shown - suc (length names) =
        omega (arith, one_more) in
      let here : shown - length names ≡ suc (shown - suc (length names)) = ground (arith, room) in
      rw (room, left, here) (append_assoc names (x ∷ []) _)
  | inr full ↦
      let none_left : shown - length names ≡ 0 = ground (arith, full) in rw (full, none_left) refl
]

append-take_nil : (names : List String) (n : ℕ) → names ≡ names ++ take n []
append-take_nil names zero = sym (append-nil names)
append-take_nil names (suc n) = sym (append-nil names)

filled-nil : (names : List String) → names ≡ filled names []
filled-nil names = append-take_nil names (shown - length names)

pub length-keep-le :
    (f : DiscoveredRepo → Bool) (rs : List DiscoveredRepo) → length (keep f rs) ≤ length rs
unfolding keep
length-keep-le f [] = omega arith
length-keep-le f (r ∷ rs) =
    let ih = length-keep-le f rs in
    elim (Bool-cases (f r)) [
      | inl kept ↦ rw kept (omega arith)
      | inr dropped ↦ rw dropped (omega arith)
    ]

module _ (include exclude : List String) where
  abbrev pub is_idle : DiscoveredRepo → Bool
  is_idle r = not (is_indexable r)

  abbrev pub is_chosen : DiscoveredRepo → Bool
  is_chosen r = is_indexable r && selected r.full_name include exclude

  abbrev pub is_left_out : DiscoveredRepo → Bool
  is_left_out r = is_indexable r && not (selected r.full_name include exclude)

  abbrev pub names_of : List DiscoveredRepo → List String
  names_of rs = map (λ (r : DiscoveredRepo). r.full_name) rs

  -- The second tally counts these repositories on top of the first.
  pub record Counts (t t' : Tally) (seen : List DiscoveredRepo) : Type 0 where
    pub discovered : t'.discovered ≡ t.discovered + length seen
    pub matched : t'.matched ≡ t.matched + length (keep is_chosen seen)
    pub skipped : t'.skipped ≡ t.skipped + length (keep is_idle seen)
    pub sample : t'.sample ≡ filled t.sample (names_of (keep is_chosen seen))
    pub excluded : t'.excluded ≡ filled t.excluded (names_of (keep is_left_out seen))

  Counts-refl : (t : Tally) → Counts t t []
  unfolding keep
  Counts-refl t = record {
    discovered = omega arith;
    matched = omega arith;
    skipped = omega arith;
    sample = filled-nil t.sample;
    excluded = filled-nil t.excluded;
  }

  Counts-note :
      (r : DiscoveredRepo) (t t' : Tally) (seen : List DiscoveredRepo)
      → Counts (note include exclude r t) t' seen
      → Counts t t' (r ∷ seen)
  unfolding note keep
  Counts-note r t t' seen c = elim (Bool-cases (is_indexable r)) [
    | inr idle ↦
        let d : Counts (record t { discovered = suc t.discovered; skipped = suc t.skipped }) t'
            seen =
          rw (idle, note) at c in
        let a = d.discovered in
        let b = d.skipped in
        record {
          discovered = omega arith;
          matched = rw idle d.matched;
          skipped = rw idle (omega arith);
          sample = rw idle d.sample;
          excluded = rw idle d.excluded;
        }
    | inl fit ↦ elim (Bool-cases (selected r.full_name include exclude)) [
      | inl chosen ↦
          let d : Counts
              (record t {
                discovered = suc t.discovered;
                matched = suc t.matched;
                sample = show t.sample r.full_name;
              })
              t' seen =
            rw (fit, chosen, note) at c in
          let a = d.discovered in
          let b = d.matched in
          record {
            discovered = omega arith;
            matched = rw (fit, chosen) (omega arith);
            skipped = rw fit d.skipped;
            sample = rw (fit, chosen) (d.sample ∙ filled-show t.sample r.full_name _);
            excluded = rw (fit, chosen) d.excluded;
          }
      | inr out ↦
          let d : Counts
              (record t { discovered = suc t.discovered; excluded = show t.excluded r.full_name })
              t' seen =
            rw (fit, out, note) at c in
          let a = d.discovered in
          record {
            discovered = omega arith;
            matched = rw (fit, out) d.matched;
            skipped = rw fit d.skipped;
            sample = rw (fit, out) d.sample;
            excluded = rw (fit, out) (d.excluded ∙ filled-show t.excluded r.full_name _);
          }
    ]
  ]

  note-discovered :
      (r : DiscoveredRepo) (t : Tally) → (note include exclude r t).discovered ≡ suc t.discovered
  unfolding note
  note-discovered r t = elim (Bool-cases (is_indexable r)) [
    | inr idle ↦ rw idle refl
    | inl fit ↦ elim (Bool-cases (selected r.full_name include exclude)) [
      | inl chosen ↦ rw (fit, chosen) refl
      | inr out ↦ rw (fit, out) refl
    ]
  ]

  -- The loop has counted the first `n` repositories, or fails before it has seen as many.
  pub data Enumerated (n : ℕ) (rs : List DiscoveredRepo) (ending : Ending) (t : Tally)
      : Result Reason (Tally × Bool) → Type 0 where
    all_seen :
        (t' : Tally)
        → (n ≤ length rs) ⊎ (ending ≡ finished)
        → Counts t t' (take n rs)
        → Enumerated n rs ending t (ok (t', leb n (length rs)))
    cut_short :
        (reason : Reason)
        → length rs < n
        → ending ≢ finished
        → Enumerated n rs ending t (err reason)

  ended-Enumerated :
      (k : ℕ) (ending : Ending) (t : Tally)
      → Enumerated (suc k) [] ending t (ended include exclude ending t)
  ended-Enumerated k finished t =
      let short : leb (suc k) 0 ≡ false = ground arith in
      subst (λ b. Enumerated (suc k) [] finished t (ok (t, b))) short
        (all_seen t (inr refl) (Counts-refl t))
  ended-Enumerated k timed_out t = cut_short _ (omega arith) (λ e. cc)
  ended-Enumerated k (http_status n) t = cut_short _ (omega arith) (λ e. cc)
  ended-Enumerated k (http_error m) t = cut_short _ (omega arith) (λ e. cc)

  later :
      (k : ℕ) (r : DiscoveredRepo) (rs : List DiscoveredRepo) (ending : Ending) (t : Tally)
      (result : Result Reason (Tally × Bool))
      → Enumerated (suc k) rs ending (note include exclude r t) result
      → Enumerated (suc (suc k)) (r ∷ rs) ending t result
  later k r rs ending t result (all_seen t' complete counts) =
      let same : leb (suc (suc k)) (suc (length rs)) ≡ leb (suc k) (length rs) = ground arith in
      subst (λ b. Enumerated (suc (suc k)) (r ∷ rs) ending t (ok (t', b))) same
        (all_seen t' (elim complete [ inl n ↦ inl (omega arith) | inr e ↦ inr e ])
          (Counts-note r t t' (take (suc k) rs) counts))
  later k r rs ending t result (cut_short reason few other) = cut_short reason (omega arith) other

  pub enumerate-Enumerated :
      (limit k : ℕ) (rs : List DiscoveredRepo) (ending : Ending) (t : Tally)
      → limit ≡ t.discovered + suc k
      → Enumerated (suc k) rs ending t (enumerate include exclude limit rs ending t)
  unfolding enumerate
  enumerate-Enumerated limit k [] ending t e = ended-Enumerated k ending t
  enumerate-Enumerated limit zero (r ∷ rs) ending t e =
      let t' = note include exclude r t in
      let one_more = note-discovered r t in
      let stops : leb limit t'.discovered ≡ true = ground (arith, one_more, e) in
      let here : leb 1 (suc (length rs)) ≡ true = ground arith in
      rw stops (
        subst (λ b. Enumerated 1 (r ∷ rs) ending t (ok (t', b))) here
          (all_seen t' (inl (omega arith)) (Counts-note r t t' [] (Counts-refl t'))))
  enumerate-Enumerated limit (suc k) (r ∷ rs) ending t e =
      let t' = note include exclude r t in
      let one_more = note-discovered r t in
      let goes_on : leb limit t'.discovered ≡ false = ground (arith, one_more, e) in
      rw goes_on (later k r rs ending t _ (enumerate-Enumerated limit k rs ending t' (omega arith)))
