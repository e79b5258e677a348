-- ===== src/Glob/Matching.antt =====
-- `matches` decides an inductive relation between patterns and names.
use repo_mcp.Prelude.{
  ℕ, ◌≤◌, String, ◌≡◌, refl, sym, ap, subst, ◌≢◌, ◌↔◌, inl, inr, true, false, ◌∷◌, arith, leb,
  nat_eq_iff, Bool-cases, and_iff, or_iff, not_iff, In, ℕ_eq, String_eq,
}
use repo_mcp.Glob.{
  Token, star, any_char, one, chars, in_ranges, accepts, matches, tokens_from, tokens, codes,
  fnmatchcase, List, [],
}
use repo_mcp.Glob.Syntax.{Parses, Parses-tokens_from, tokens_from-of_Parses}

-- The code point lies in one of the ranges.
abbrev pub InRange : ℕ → List (ℕ × ℕ) → Type 0
InRange c rs = (first last : ℕ) × In (first, last) rs × (first ≤ c) × (c ≤ last)

-- What a token other than `star` takes.
abbrev pub Takes : Token → ℕ → Type 0
Takes star c = ⊥
Takes any_char c = Unit
Takes (one d) c = c ≡ d
Takes (chars true rs) c = ¬ InRange c rs
Takes (chars false rs) c = InRange c rs

-- What tokens mean: a `star` takes any run of code points, every other token takes one.
pub data Matches : List Token → List ℕ → Type 0 where
  done : Matches [] []
  skip : {ts : List Token} {cs : List ℕ} → Matches ts cs → Matches (star ∷ ts) cs
  more :
      {ts : List Token} {c : ℕ} {cs : List ℕ}
      → Matches (star ∷ ts) cs
      → Matches (star ∷ ts) (c ∷ cs)
  step :
      {t : Token} {ts : List Token} {c : ℕ} {cs : List ℕ}
      → Takes t c
      → Matches ts cs
      → Matches (t ∷ ts) (c ∷ cs)

in_ranges_sound : (c : ℕ) (rs : List (ℕ × ℕ)) → in_ranges c rs ≡ true → InRange c rs
unfolding in_ranges
in_ranges_sound c [] h = cc
in_ranges_sound c ((first, last) ∷ rs) h = elim ((or_iff _ (in_ranges c rs)).0 h) [
  | inl here ↦
      let (low, high) = (and_iff (leb first c) (leb c last)).0 here in
      (first, last, inl refl, ground (arith, low), ground (arith, high))
  | inr later ↦ let (f, l, m, low, high) = in_ranges_sound c rs later in (f, l, inr m, low, high)
]

in_ranges_complete :
    (c : ℕ) (rs : List (ℕ × ℕ)) (first last : ℕ)
    → In (first, last) rs
    → first ≤ c
    → c ≤ last
    → in_ranges c rs ≡ true
unfolding in_ranges
in_ranges_complete c [] first last m low high = absurd m
in_ranges_complete c ((f, l) ∷ rs) first last (inl e) low high =
    let left : first ≡ f = ap (λ (p : ℕ × ℕ). p.0) e in
    let right : last ≡ l = ap (λ (p : ℕ × ℕ). p.1) e in
    (or_iff _ (in_ranges c rs)).1 (
      inl
        ((and_iff (leb f c) (leb c l)).1 (ground (arith, left, low), ground (arith, right, high))))
in_ranges_complete c ((f, l) ∷ rs) first last (inr m) low high =
    (or_iff _ (in_ranges c rs)).1 (inr (in_ranges_complete c rs first last m low high))

accepts-Takes : (t : Token) (c : ℕ) → t ≢ star → accepts t c ≡ true → Takes t c
unfolding accepts
accepts-Takes star c other h = absurd (other refl)
accepts-Takes any_char c other h = tt
accepts-Takes (one d) c other h = (nat_eq_iff c d).0 h
accepts-Takes (chars true rs) c other h = λ r.
    let (f, l, m, low, high) = r in
    let hit = in_ranges_complete c rs f l m low high in cc (hit, (not_iff (in_ranges c rs)).0 h)
accepts-Takes (chars false rs) c other h = in_ranges_sound c rs h

Takes-accepts : (t : Token) (c : ℕ) → Takes t c → accepts t c ≡ true
unfolding accepts
Takes-accepts star c h = absurd h
Takes-accepts any_char c h = refl
Takes-accepts (one d) c h = (nat_eq_iff c d).1 h
Takes-accepts (chars true rs) c h = elim (Bool-cases (in_ranges c rs)) [
  | inl hit ↦ absurd (h (in_ranges_sound c rs hit))
  | inr miss ↦ rw miss refl
]
Takes-accepts (chars false rs) c (f, l, m, low, high) = in_ranges_complete c rs f l m low high

pub matches_sound : (ts : List Token) (cs : List ℕ) → matches ts cs ≡ true → Matches ts cs
unfolding matches
matches_sound [] [] h = done
matches_sound [] (c ∷ cs) h = cc
matches_sound (star ∷ ts) [] h = skip (matches_sound ts [] h)
matches_sound (star ∷ ts) (c ∷ cs) h = elim ((or_iff (matches ts (c ∷ cs)) _).0 h) [
  | inl now ↦ skip (matches_sound ts (c ∷ cs) now)
  | inr later ↦ more (matches_sound (star ∷ ts) cs later)
]
matches_sound (any_char ∷ ts) [] h = cc
matches_sound (one d ∷ ts) [] h = cc
matches_sound (chars n rs ∷ ts) [] h = cc
matches_sound (any_char ∷ ts) (c ∷ cs) h =
    let (now, later) = (and_iff (accepts any_char c) (matches ts cs)).0 h in
    step (accepts-Takes any_char c (cc) now) (matches_sound ts cs later)
matches_sound (one d ∷ ts) (c ∷ cs) h =
    let (now, later) = (and_iff (accepts (one d) c) (matches ts cs)).0 h in
    step (accepts-Takes (one d) c (λ e. cc) now) (matches_sound ts cs later)
matches_sound (chars n rs ∷ ts) (c ∷ cs) h =
    let (now, later) = (and_iff (accepts (chars n rs) c) (matches ts cs)).0 h in
    step (accepts-Takes (chars n rs) c (λ e. cc) now) (matches_sound ts cs later)

pub matches_complete : {ts : List Token} {cs : List ℕ} → Matches ts cs → matches ts cs ≡ true
unfolding matches
matches_complete done = refl
matches_complete (skip {cs = []} m) = matches_complete m
matches_complete (skip {cs = c ∷ cs} m) = ground (arith, matches_complete m)
matches_complete (more m) = ground (arith, matches_complete m)
matches_complete (step {t = star} a m) = absurd a
matches_complete (step {t = any_char} a m) = ground (arith, matches_complete m)
matches_complete (step {t = one d} {c} a m) =
    ground (arith, Takes-accepts (one d) c a, matches_complete m)
matches_complete (step {t = chars n rs} {c} a m) =
    ground (arith, Takes-accepts (chars n rs) c a, matches_complete m)

-- The matcher answers yes exactly when the pattern matches the name.
pub matches_iff : (ts : List Token) (cs : List ℕ) → (matches ts cs ≡ true) ↔ Matches ts cs
matches_iff ts cs = (matches_sound ts cs, λ m. matches_complete m)

-- What a pattern means: it is read as tokens, and these take the name.
pub record Selects (pattern name : List ℕ) : Type 0 where
  pub read : List Token
  pub parsed : Parses pattern read
  pub taken : Matches read name

-- The code's test answers yes exactly when the pattern, as its meaning is described, selects the name.
pub fnmatchcase_iff :
    (name pattern : String)
    → (fnmatchcase name pattern ≡ true) ↔ Selects (codes pattern) (codes name)
unfolding fnmatchcase tokens
fnmatchcase_iff name pattern = (
  λ h. record {
    read = tokens_from 0 (codes pattern);
    parsed = Parses-tokens_from (codes pattern);
    taken = (matches_iff (tokens_from 0 (codes pattern)) (codes name)).0 h;
  },
  λ s.
      (matches_iff (tokens_from 0 (codes pattern)) (codes name)).1
        (subst (λ ts. Matches ts (codes name)) (sym (tokens_from-of_Parses s.parsed)) s.taken),
)
