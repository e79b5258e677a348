-- ===== src/Prelude/Lists.antt =====
-- Lists measured by native numbers, and Python's comprehensions over them.
use Prim.Native.Nat.{ℕ, zero, suc, ◌+◌}
use mathlib.Core.Path.{◌≡◌, refl, ap}
use mathlib.Core.Logic.{◌↔◌, ◌⊎◌, inl, inr}
use mathlib.Core.Bool.{Bool, true, false, ◌&&◌, ◌||◌}
use mathlib.Core.Option.{Option, none, some}
use mathlib.Core.List.{List, [], ◌∷◌, ◌++◌, map}
use native.Mathlib.Omega.{arith}
use repo_mcp.Prelude.Tests.{if◌then◌else◌, Bool-cases}

module _ {ℓ} {A : Type ℓ} where
  abbrev pub length : List A → ℕ
  length [] = 0
  length (x ∷ xs) = suc (length xs)

  abbrev pub take : ℕ → List A → List A
  take zero xs = []
  take (suc n) [] = []
  take (suc n) (x ∷ xs) = x ∷ take n xs

  pub length-append : (xs ys : List A) → length (xs ++ ys) ≡ length xs + length ys
  length-append [] ys = omega arith
  length-append (x ∷ xs) ys = omega (arith, length-append xs ys)

  -- `not xs`
  abbrev pub is_empty : List A → Bool
  is_empty [] = true
  is_empty (x ∷ xs) = false

  -- `any(p(x) for x in xs)` and `all(p(x) for x in xs)`
  unfoldable pub any : (A → Bool) → List A → Bool
  any p [] = false
  any p (x ∷ xs) = p x || any p xs

  unfoldable pub all : (A → Bool) → List A → Bool
  all p [] = true
  all p (x ∷ xs) = p x && all p xs

  -- `[x for x in xs if p(x)]`
  unfoldable pub keep : (A → Bool) → List A → List A
  keep p [] = []
  keep p (x ∷ xs) = if p x then x ∷ keep p xs else keep p xs

  -- `next((x for x in xs if p(x)), None)`
  unfoldable pub find : (A → Bool) → List A → Option A
  find p [] = none
  find p (x ∷ xs) = if p x then some x else find p xs

module _ {ℓ κ} {A : Type ℓ} (P : A → Type κ) where
  abbrev pub All : List A → Type κ
  All [] = Unit
  All (x ∷ xs) = P x × All xs

pub All-imp {ℓ κ ν} :
    {A : Type ℓ} {P : A → Type κ} {Q : A → Type ν} (xs : List A)
    → ((a : A) → P a → Q a)
    → All P xs
    → All Q xs
All-imp [] f h = tt
All-imp (x ∷ xs) f h = (f x h.0, All-imp xs f h.1)

-- Membership, by recursion. The program's own data stands at the lowest level.
module _ {A : Type 0} where
  abbrev pub In : A → List A → Type 0
  In a [] = ⊥
  In a (x ∷ xs) = (a ≡ x) ⊎ In a xs

  pub not-In_of_is_empty : (xs : List A) → is_empty xs ≡ true → (a : A) → ¬ In a xs
  not-In_of_is_empty [] h a m = m
  not-In_of_is_empty (x ∷ xs) h a m = cc

  pub is_empty_of_not-In : (xs : List A) → ((a : A) → ¬ In a xs) → is_empty xs ≡ true
  is_empty_of_not-In [] h = refl
  is_empty_of_not-In (x ∷ xs) h = absurd (h x (inl refl))

  pub In-append : (a : A) (xs ys : List A) → In a (xs ++ ys) ↔ (In a xs ⊎ In a ys)
  In-append a [] ys = ground arith
  In-append a (x ∷ xs) ys = ground (arith, In-append a xs ys)

  pub In-keep : (p : A → Bool) (a : A) (xs : List A) → In a (keep p xs) ↔ (In a xs × (p a ≡ true))
  unfolding keep
  In-keep p a [] = ground arith
  In-keep p a (x ∷ xs) = ground (arith, In-keep p a xs)

  pub find-some : (p : A → Bool) (xs : List A) {a : A} → find p xs ≡ some a → In a xs × (p a ≡ true)
  unfolding find
  find-some p [] h = ground arith
  find-some p (x ∷ xs) {a} h = ground (arith, find-some p xs {a = a})

  pub find-none : (p : A → Bool) (xs : List A) (a : A) → find p xs ≡ none → In a xs → p a ≡ false
  unfolding find
  find-none p [] a h m = absurd m
  find-none p (x ∷ xs) a h m = ground (arith, find-none p xs a)

  pub any-elim : (p : A → Bool) (xs : List A) → any p xs ≡ true → (a : A) × In a xs × (p a ≡ true)
  unfolding any
  any-elim p [] h = cc
  any-elim p (x ∷ xs) h = elim (Bool-cases (p x)) [
    | inl e ↦ (x, inl refl, e)
    | inr e ↦ let (a, m, q) = any-elim p xs (ground arith) in (a, inr m, q)
  ]

  pub any-intro : (p : A → Bool) (xs : List A) (a : A) → In a xs → p a ≡ true → any p xs ≡ true
  unfolding any
  any-intro p [] a m h = absurd m
  any-intro p (x ∷ xs) a m h = ground (arith, any-intro p xs a)

  pub all-elim : (p : A → Bool) (xs : List A) (a : A) → all p xs ≡ true → In a xs → p a ≡ true
  unfolding all
  all-elim p [] a h m = absurd m
  all-elim p (x ∷ xs) a h m = ground (arith, all-elim p xs a)

  pub all-intro : (p : A → Bool) (xs : List A) → ((a : A) → In a xs → p a ≡ true) → all p xs ≡ true
  unfolding all
  all-intro p [] h = refl
  all-intro p (x ∷ xs) h = ground (arith, h x (inl refl), all-intro p xs (λ a m. h a (inr m)))

module _ {A B : Type 0} (f : A → B) where
  pub In-map-elim : (b : B) (xs : List A) → In b (map f xs) → (a : A) × In a xs × (b ≡ f a)
  In-map-elim b [] m = absurd m
  In-map-elim b (x ∷ xs) (inl e) = (x, inl refl, e)
  In-map-elim b (x ∷ xs) (inr m) = let (a, n, e) = In-map-elim b xs m in (a, inr n, e)

  pub In-map-intro : (a : A) (xs : List A) → In a xs → In (f a) (map f xs)
  In-map-intro a [] m = absurd m
  In-map-intro a (x ∷ xs) (inl e) = inl (ap f e)
  In-map-intro a (x ∷ xs) (inr m) = inr (In-map-intro a xs m)
