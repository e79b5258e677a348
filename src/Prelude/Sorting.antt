-- ===== src/Prelude/Sorting.antt =====
-- `sorted(...)` of Python on texts, which it compares by code points, and on rows by a text.
use Prim.Native.Char.{code}
use Prim.Native.String.{String}
use mathlib.Core.Path.{◌≡◌, refl, sym, subst}
use mathlib.Core.Logic.{◌⊎◌, inl, inr, ◌↔◌}
use mathlib.Core.Bool.{Bool, true, false, ◌&&◌, ◌||◌}
use mathlib.Core.List.{List, [], ◌∷◌}
use native.Mathlib.Omega.{arith}
use repo_mcp.Prelude.Tests.{ltb, nat_eq, if◌then◌else◌, Bool-cases}
use repo_mcp.Prelude.Lists.{In, All, is_empty}

unfoldable pub text_le : String → String → Bool
text_le String.[] t = true
text_le (String.◌∷◌ c s) String.[] = false
text_le (String.◌∷◌ c s) (String.◌∷◌ d t) =
    ltb (code c) (code d) || (nat_eq (code c) (code d) && text_le s t)

module _ {A : Type 0} (key : A → String) where
  -- before the first row whose key is not smaller
  unfoldable pub put_sorted : A → List A → List A
  put_sorted a [] = a ∷ []
  put_sorted a (b ∷ bs) =
      let rest = put_sorted a bs in if text_le (key a) (key b) then a ∷ b ∷ bs else b ∷ rest

  unfoldable pub sorted_by : List A → List A
  sorted_by [] = []
  sorted_by (a ∷ bs) = put_sorted a (sorted_by bs)

  In-put_sorted : (x a : A) (bs : List A) → In x (put_sorted a bs) ↔ ((x ≡ a) ⊎ In x bs)
  unfolding put_sorted
  In-put_sorted x a [] = ground arith
  In-put_sorted x a (b ∷ bs) = elim (Bool-cases (text_le (key a) (key b))) [
    | inl first ↦ ground (arith, first)
    | inr later ↦ ground (arith, later, In-put_sorted x a bs)
  ]

  pub In-sorted_by : (x : A) (xs : List A) → In x (sorted_by xs) ↔ In x xs
  unfolding sorted_by
  In-sorted_by x [] = ground arith
  In-sorted_by x (a ∷ bs) = ground (arith, In-put_sorted x a (sorted_by bs), In-sorted_by x bs)

module _ {A : Type 0} (key : A → String) where
  put_sorted_full : (a : A) (bs : List A) → is_empty (put_sorted key a bs) ≡ false
  unfolding put_sorted
  put_sorted_full a [] = refl
  put_sorted_full a (b ∷ bs) = ground arith

  pub is_empty-sorted_by : (xs : List A) → is_empty (sorted_by key xs) ≡ is_empty xs
  unfolding sorted_by
  is_empty-sorted_by [] = refl
  is_empty-sorted_by (x ∷ xs) = put_sorted_full x (sorted_by key xs)

-- What holds of every two elements at different places.
module _ {A : Type 0} (R : A → A → Type 0) where
  abbrev pub Pairwise : List A → Type 0
  Pairwise [] = Unit
  Pairwise (x ∷ xs) = All (R x) xs × Pairwise xs

module _ {A : Type 0} (key : A → String) where
  All-put_sorted :
      (P : A → Type 0) (a : A) (bs : List A) → P a → All P bs → All P (put_sorted key a bs)
  unfolding put_sorted
  All-put_sorted P a [] p h = (p, tt)
  All-put_sorted P a (b ∷ bs) p h = elim (Bool-cases (text_le (key a) (key b))) [
    | inl first ↦ rw first (p, h)
    | inr later ↦ rw later (h.0, All-put_sorted P a bs p h.1)
  ]

  pub All-sorted_by : (P : A → Type 0) (xs : List A) → All P xs → All P (sorted_by key xs)
  unfolding sorted_by
  All-sorted_by P [] h = tt
  All-sorted_by P (x ∷ xs) h = All-put_sorted P x (sorted_by key xs) h.0 (All-sorted_by P xs h.1)

  module _ (R : A → A → Type 0) (swap : (a b : A) → R a b → R b a) where
    Pairwise-put_sorted :
        (a : A) (bs : List A) → All (R a) bs → Pairwise R bs → Pairwise R (put_sorted key a bs)
    unfolding put_sorted
    Pairwise-put_sorted a [] h p = (tt, tt)
    Pairwise-put_sorted a (b ∷ bs) h p = elim (Bool-cases (text_le (key a) (key b))) [
      | inl first ↦ rw first (h, p)
      | inr later ↦
          rw later (All-put_sorted (R b) a bs (swap a b h.0) p.0, Pairwise-put_sorted a bs h.1 p.1)
    ]

    pub Pairwise-sorted_by : (xs : List A) → Pairwise R xs → Pairwise R (sorted_by key xs)
    unfolding sorted_by
    Pairwise-sorted_by [] p = tt
    Pairwise-sorted_by (x ∷ xs) p =
        Pairwise-put_sorted x (sorted_by key xs) (All-sorted_by (R x) xs p.0)
          (Pairwise-sorted_by xs p.1)

pub In_of_All : {A : Type 0} (P : A → Type 0) (xs : List A) → All P xs → (a : A) → In a xs → P a
In_of_All P (x ∷ xs) h a (inl e) = subst P (sym e) h.0
In_of_All P (x ∷ xs) h a (inr m) = In_of_All P xs h.1 a m
In_of_All P [] h a m = absurd m

pub All-intro : {A : Type 0} (P : A → Type 0) (xs : List A) → ((a : A) → In a xs → P a) → All P xs
All-intro P [] h = tt
All-intro P (x ∷ xs) h = (h x (inl refl), All-intro P xs (λ a m. h a (inr m)))
