-- ===== src/Configuration/Rows.antt =====
-- Lemmas on rows that are written by their name, and on lists without repetition.
use repo_mcp.Prelude.{
  String, ◌≡◌, refl, sym, ◌∙◌, subst, ◌≢◌, inl, inr, Bool, false, some, List, [], ◌∷◌, arith,
  eq_iff, Bool-cases, ◌==◌, ℕ_eq, String_eq, keep, find, All, is_empty, In, contains, contains_iff,
  Pairwise, All-intro, In_of_All,
}
use repo_mcp.Configuration.{row_named, put_row, distinct_of}

abbrev pub Distinct : List String → Type 0
Distinct = Pairwise ◌≢◌

pub All-keep :
    {A : Type 0} (P : A → Type 0) (f : A → Bool) (xs : List A) → All P xs → All P (keep f xs)
unfolding keep
All-keep P f [] h = tt
All-keep P f (x ∷ xs) h = ground (arith, All-keep P f xs h.1)

pub Pairwise-keep :
    {A : Type 0} (R : A → A → Type 0) (f : A → Bool) (xs : List A)
    → Pairwise R xs
    → Pairwise R (keep f xs)
unfolding keep
Pairwise-keep R f [] h = tt
Pairwise-keep R f (x ∷ xs) h = elim (Bool-cases (f x)) [
  | inl kept ↦ rw kept (All-keep (R x) f xs h.0, Pairwise-keep R f xs h.1)
  | inr out ↦ rw out (Pairwise-keep R f xs h.1)
]

module _ {A : Type 0} (name_of : A → String) where
  pub All-put_row :
      (P : A → Type 0) (a : A) (bs : List A) → P a → All P bs → All P (put_row name_of a bs)
  unfolding put_row
  All-put_row P a [] p h = (p, tt)
  All-put_row P a (b ∷ bs) p h = elim (Bool-cases (name_of b == name_of a)) [
    | inl same ↦ rw same (p, h.1)
    | inr other ↦ rw other (h.0, All-put_row P a bs p h.1)
  ]

  -- Rows with different names.
  abbrev pub Named : List A → Type 0
  Named = Pairwise (λ a b. name_of a ≢ name_of b)

  pub Pairwise-put_row :
      (R : A → A → Type 0) (swap : (a b : A) → R a b → R b a) (a : A) (bs : List A)
      → ((b : A) → In b bs → name_of b ≢ name_of a → R a b)
      → Named bs
      → Pairwise R bs
      → Pairwise R (put_row name_of a bs)
  unfolding put_row
  Pairwise-put_row R swap a [] apart n h = (tt, tt)
  Pairwise-put_row R swap a (b ∷ bs) apart n h = elim (Bool-cases (name_of b == name_of a)) [
    | inl same ↦
        let e = (eq_iff (name_of b) (name_of a)).0 same in
        rw same (
          All-intro (R a) bs (λ c m. apart c (inr m) (λ q. In_of_All _ bs n.0 c m (e ∙ sym q))),
          h.1,
        )
    | inr other ↦
        let differ : name_of b ≢ name_of a = λ e. cc ((eq_iff (name_of b) (name_of a)).1 e) in
        rw other (
          All-put_row (R b) a bs (swap a b (apart b (inl refl) differ)) h.0,
          Pairwise-put_row R swap a bs (λ c m. apart c (inr m)) n.1 h.1,
        )
  ]

  pub Named-put_row : (a : A) (bs : List A) → Named bs → Named (put_row name_of a bs)
  Named-put_row a bs n =
      Pairwise-put_row (λ x y. name_of x ≢ name_of y) (λ x y h e. h (sym e)) a bs
        (λ b m h e. h (sym e)) n n

  pub row_named-put_row :
      (a : A) (bs : List A) → row_named name_of (name_of a) (put_row name_of a bs) ≡ some a
  unfolding row_named find put_row
  row_named-put_row a [] = ground (arith, eq_iff (name_of a) (name_of a))
  row_named-put_row a (b ∷ bs) =
      ground (arith, eq_iff (name_of a) (name_of a), row_named-put_row a bs)

distinct_of-fresh :
    (seen xs : List String) (x : String) → In x (distinct_of seen xs) → In x xs × ¬ In x seen
unfolding distinct_of
distinct_of-fresh seen [] x m = absurd m
distinct_of-fresh seen (y ∷ ys) x m = elim (Bool-cases (contains seen y)) [
  | inl old ↦ let (a, b) = distinct_of-fresh seen ys x (rw old at m) in (inr a, b)
  | inr new ↦ elim (rw new at m) [
    | inl e ↦ (inl e, λ k. cc ((contains_iff seen y).1 (subst (λ z. In z seen) e k)))
    | inr k ↦ let (a, b) = distinct_of-fresh (y ∷ seen) ys x k in (inr a, λ j. b (inr j))
  ]
]

distinct_of-Distinct : (seen xs : List String) → Distinct (distinct_of seen xs)
unfolding distinct_of
distinct_of-Distinct seen [] = tt
distinct_of-Distinct seen (y ∷ ys) = elim (Bool-cases (contains seen y)) [
  | inl old ↦ rw old (distinct_of-Distinct seen ys)
  | inr new ↦ rw new (
    All-intro _ (distinct_of (y ∷ seen) ys)
        (λ x m e. (distinct_of-fresh (y ∷ seen) ys x m).1 (inl (sym e))),
    distinct_of-Distinct (y ∷ seen) ys,
  )
]

-- `dict.fromkeys` leaves out what comes again, and nothing else.
pub fromkeys-Distinct : (xs : List String) → Distinct (distinct_of [] xs)
fromkeys-Distinct xs = distinct_of-Distinct [] xs

pub fromkeys-In : (xs : List String) (x : String) → In x (distinct_of [] xs) → In x xs
fromkeys-In xs x m = (distinct_of-fresh [] xs x m).0

pub fromkeys_full : (xs : List String) → is_empty xs ≡ false → is_empty (distinct_of [] xs) ≡ false
unfolding distinct_of contains
fromkeys_full [] h = cc
fromkeys_full (x ∷ xs) h = refl
