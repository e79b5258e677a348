-- ===== src/Prelude/Sets.antt =====
-- Python's sets and dictionaries: a `frozenset` is a list read by `contains`, a `dict` is an
-- association list read by `lookup` and written by `insert`.
use mathlib.Core.Path.{◌≡◌, refl}
use mathlib.Core.Logic.{◌↔◌, inl, inr}
use mathlib.Core.Bool.{Bool, true, false, ◌||◌, not}
use mathlib.Core.Option.{Option, none, some}
use mathlib.Core.List.{List, [], ◌∷◌}
use native.Mathlib.Omega.{arith}
use repo_mcp.Prelude.Tests.{if◌then◌else◌, Bool-cases}
use repo_mcp.Prelude.Classes.{Eq, ◌==◌}
use repo_mcp.Prelude.Lists.{
  is_empty, not-In_of_is_empty, is_empty_of_not-In, In, any, all, keep, In-keep, any-elim,
  any-intro, all-elim, all-intro,
}

module _ {A : Type 0} ⦃e : Eq A⦄ where
  -- `a in xs`
  unfoldable pub contains : List A → A → Bool
  contains [] a = false
  contains (x ∷ xs) a = a == x || contains xs a

  -- `xs - ys`
  unfoldable pub difference : List A → List A → List A
  unfolding contains keep
  difference xs ys = keep (λ x. not (contains ys x)) xs

  -- `bool(xs & ys)`
  unfoldable pub meets : List A → List A → Bool
  unfolding contains any
  meets xs ys = any (contains ys) xs

  -- `xs <= ys`
  unfoldable pub subset : List A → List A → Bool
  unfolding contains all
  subset xs ys = all (contains ys) xs

  pub contains_iff : (xs : List A) (a : A) → (contains xs a ≡ true) ↔ In a xs
  unfolding contains
  contains_iff [] a = ground arith
  contains_iff (x ∷ xs) a = ground (arith, contains_iff xs a, e.test_iff a x)

  pub In-difference : (xs ys : List A) (a : A) → In a (difference xs ys) ↔ (In a xs × ¬ In a ys)
  unfolding difference
  In-difference xs ys a = grind (arith, In-keep (λ x. not (contains ys x)) a xs, contains_iff ys a)

  is_empty-difference :
      (xs ys : List A) → is_empty (difference xs ys) ≡ true → (a : A) → In a xs → In a ys
  is_empty-difference xs ys h a m = elim (Bool-cases (contains ys a)) [
    | inl there ↦ (contains_iff ys a).0 there
    | inr missing ↦
        let left = (In-difference xs ys a).1 (m, λ n. cc ((contains_iff ys a).1 n)) in
        absurd (not-In_of_is_empty (difference xs ys) h a left)
  ]

  -- `not (xs - ys)`
  pub is_empty-difference_iff :
      (xs ys : List A) → (is_empty (difference xs ys) ≡ true) ↔ ((a : A) → In a xs → In a ys)
  is_empty-difference_iff xs ys = (
    is_empty-difference xs ys,
    λ h.
        is_empty_of_not-In (difference xs ys)
          (λ a m. let (x, y) = (In-difference xs ys a).0 m in y (h a x)),
  )

  pub meets_iff : (xs ys : List A) → (meets xs ys ≡ true) ↔ ((a : A) × In a xs × In a ys)
  unfolding meets
  meets_iff xs ys = (
    λ h. let (a, m, q) = any-elim (contains ys) xs h in (a, m, (contains_iff ys a).0 q),
    λ t. any-intro (contains ys) xs t.0 t.1 ((contains_iff ys t.0).1 t.2),
  )

  pub subset_iff : (xs ys : List A) → (subset xs ys ≡ true) ↔ ((a : A) → In a xs → In a ys)
  unfolding subset
  subset_iff xs ys = (
    λ h a m. (contains_iff ys a).0 (all-elim (contains ys) xs a h m),
    λ h. all-intro (contains ys) xs (λ a m. (contains_iff ys a).1 (h a m)),
  )

module _ {K : Type 0} ⦃e : Eq K⦄ {V : Type 0} where
  -- `d.get(k)`
  unfoldable pub lookup : K → List (K × V) → Option V
  lookup k [] = none
  lookup k ((j, v) ∷ d) = if j == k then some v else lookup k d

  -- `d[k] = v`: a key that is there keeps its place
  unfoldable pub insert : K → V → List (K × V) → List (K × V)
  insert k v [] = (k, v) ∷ []
  insert k v ((j, w) ∷ d) = if j == k then (j, v) ∷ d else (j, w) ∷ insert k v d

  -- `del d[k]`, `d.pop(k, None)`
  unfoldable pub remove : K → List (K × V) → List (K × V)
  remove k [] = []
  remove k ((j, w) ∷ d) = let rest = remove k d in if j == k then rest else (j, w) ∷ rest

  pub lookup-insert :
      (k j : K) (v : V) (d : List (K × V))
      → lookup j (insert k v d) ≡ (if k == j then some v else lookup j d)
  unfolding lookup insert
  lookup-insert k j v [] = refl
  lookup-insert k j v ((i, w) ∷ d) =
      ground (arith, e.test_iff k j, e.test_iff i k, e.test_iff i j, lookup-insert k j v d)

  pub lookup-remove :
      (k j : K) (d : List (K × V)) → lookup j (remove k d) ≡ (if k == j then none else lookup j d)
  unfolding lookup remove
  lookup-remove k j [] = ground arith
  lookup-remove k j ((i, w) ∷ d) =
      ground (arith, e.test_iff k j, e.test_iff i k, e.test_iff i j, lookup-remove k j d)
