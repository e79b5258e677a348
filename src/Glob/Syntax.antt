-- ===== src/Glob/Syntax.antt =====
-- How the pattern of a shell is read, by rules that do not use the code's parser, and that the parser
-- follows them.
use repo_mcp.Prelude.{
  ℕ, zero, suc, ◌+◌, ◌≤◌, ◌≡◌, refl, sym, ap, ◌∙◌, subst, ◌≢◌, inl, inr, Bool, true, false, none,
  some, List, [], ◌∷◌, ◌++◌, arith, nat_eq, nat_eq_iff, Bool-cases, Option-cases, In, ℕ_eq,
  String_eq,
}
use repo_mcp.Glob.{
  Token, star, any_char, one, chars, until_close, ranges, count, bracket_body, bracket, tokens_from,
}

-- A range starts behind the first character of what is left of a bracket expression.
abbrev pub Spans : List ℕ → Type 0
Spans cs = (y : ℕ) × (rest : List ℕ) × (cs ≡ b'-' ∷ y ∷ rest)

-- The ranges that a bracket expression lists, a character alone being a range of one.
pub data Ranged : List ℕ → List (ℕ × ℕ) → Type 0 where
  no_more : Ranged [] []
  alone :
      {x : ℕ} {cs : List ℕ} {rs : List (ℕ × ℕ)}
      → ¬ Spans cs
      → Ranged cs rs
      → Ranged (x ∷ cs) ((x, x) ∷ rs)
  spanning :
      {x d y : ℕ} {cs : List ℕ} {rs : List (ℕ × ℕ)}
      → d ≡ b'-'
      → Ranged cs rs
      → Ranged (x ∷ d ∷ y ∷ cs) ((x, y) ∷ rs)

-- What stands behind "[" is a bracket expression, negated or not, of that content, and then a rest: the
-- content ends at the first "]" that is not its first character.
pub data Bracket (cs : List ℕ) : Bool → List ℕ → List ℕ → Type 0 where
  plain :
      (x : ℕ) (inside rest : List ℕ)
      → x ≢ b'!'
      → ¬ In b']' inside
      → cs ≡ x ∷ (inside ++ b']' ∷ rest)
      → Bracket cs false (x ∷ inside) rest
  negated :
      (x : ℕ) (inside rest : List ℕ)
      → ¬ In b']' inside
      → cs ≡ b'!' ∷ x ∷ (inside ++ b']' ∷ rest)
      → Bracket cs true (x ∷ inside) rest

-- The tokens that a pattern is read as: "[" that opens no bracket expression is itself.
pub data Parses : List ℕ → List Token → Type 0 where
  nothing : Parses [] []
  a_star :
      {c : ℕ} {cs : List ℕ} {ts : List Token}
      → c ≡ b'*'
      → Parses cs ts
      → Parses (c ∷ cs) (star ∷ ts)
  an_any :
      {c : ℕ} {cs : List ℕ} {ts : List Token}
      → c ≡ b'?'
      → Parses cs ts
      → Parses (c ∷ cs) (any_char ∷ ts)
  itself :
      {c : ℕ} {cs : List ℕ} {ts : List Token}
      → c ≢ b'*'
      → c ≢ b'?'
      → c ≢ b'['
      → Parses cs ts
      → Parses (c ∷ cs) (one c ∷ ts)
  unclosed :
      {c : ℕ} {cs : List ℕ} {ts : List Token}
      → c ≡ b'['
      → ((n : Bool) (content rest : List ℕ) → ¬ Bracket cs n content rest)
      → Parses cs ts
      → Parses (c ∷ cs) (one c ∷ ts)
  a_class :
      {c : ℕ} {cs rest content : List ℕ} {n : Bool} {rs : List (ℕ × ℕ)} {ts : List Token}
      → c ≡ b'['
      → Bracket cs n content rest
      → Ranged content rs
      → Parses rest ts
      → Parses (c ∷ cs) (chars n rs ∷ ts)

Ranged-ranges : (cs : List ℕ) → Ranged cs (ranges cs)
unfolding ranges
Ranged-ranges [] = no_more
Ranged-ranges (x ∷ []) = alone (λ s. let (y, r, e) = s in cc) no_more
Ranged-ranges (x ∷ y ∷ []) =
    alone (λ s. let (z, r, e) = s in cc) (alone (λ s. let (z, r, e) = s in cc) no_more)
Ranged-ranges (x ∷ d ∷ y ∷ cs) =
    let wide = Ranged-ranges cs in
    let narrow = Ranged-ranges (d ∷ y ∷ cs) in
    elim (Bool-cases (nat_eq d b'-')) [
      | inl dash ↦ rw dash (spanning ((nat_eq_iff d b'-').0 dash) wide)
      | inr other ↦ rw other (alone (λ s. let (z, r, e) = s in ground (arith, other, e)) narrow)
    ]

ranges-of_Ranged : {cs : List ℕ} {rs : List (ℕ × ℕ)} → Ranged cs rs → ranges cs ≡ rs
unfolding ranges
ranges-of_Ranged no_more = refl
ranges-of_Ranged (alone {x} {cs = []} ends r) = ap (λ l. (x, x) ∷ l) (ranges-of_Ranged r)
ranges-of_Ranged (alone {x} {cs = d ∷ []} ends r) = ap (λ l. (x, x) ∷ l) (ranges-of_Ranged r)
ranges-of_Ranged (alone {x} {cs = d ∷ y ∷ cs} ends r) =
    let ih = ranges-of_Ranged r in
    elim (Bool-cases (nat_eq d b'-')) [
      | inl dash ↦ absurd (ends (y, cs, ap (λ (c : ℕ). c ∷ y ∷ cs) ((nat_eq_iff d b'-').0 dash)))
      | inr other ↦ rw (other, ranges) (ap (λ l. (x, x) ∷ l) ih)
    ]
ranges-of_Ranged (spanning {x} {d} {y} e r) =
    let ih = ranges-of_Ranged r in
    let dash : nat_eq d b'-' ≡ true = (nat_eq_iff d b'-').1 e in
    rw (dash, ranges) (ap (λ l. (x, y) ∷ l) ih)

-- what `until_close` finds
until_close-some :
    (cs inside : List ℕ)
    → until_close cs ≡ some inside
    → (rest : List ℕ) × (cs ≡ inside ++ b']' ∷ rest) × (¬ In b']' inside)
unfolding until_close
until_close-some [] inside h = cc
until_close-some (c ∷ cs) inside h = elim (Bool-cases (nat_eq c b']')) [
  | inl closes ↦
      let e : inside ≡ [] = cc (rw closes at h) in
      rw e (cs, ap (λ x. x ∷ cs) ((nat_eq_iff c b']').0 closes), λ m. absurd m)
  | inr other ↦ elim (Option-cases (until_close cs)) [
    | inl open_end ↦ cc (rw (other, until_close, open_end) at h)
    | inr (more, found) ↦
        let e : inside ≡ c ∷ more = cc (rw (other, until_close, found) at h) in
        let (rest, split, clean) = until_close-some cs more found in
        rw e (
          rest,
          ap (λ l. c ∷ l) split,
          λ m. elim m [ inl k ↦ ground (arith, other, k) | inr k ↦ clean k ],
        )
  ]
]

until_close-append :
    (inside rest : List ℕ) → (¬ In b']' inside) → until_close (inside ++ b']' ∷ rest) ≡ some inside
unfolding until_close
until_close-append [] rest clean = refl
until_close-append (c ∷ cs) rest clean =
    let ih = until_close-append cs rest (λ m. clean (inr m)) in
    elim (Bool-cases (nat_eq c b']')) [
      | inl closes ↦ absurd (clean (inl (sym ((nat_eq_iff c b']').0 closes))))
      | inr other ↦ rw (other, until_close, ih) refl
    ]

tokens_from-skip :
    (inside rest : List ℕ)
    → tokens_from (suc (count inside)) (inside ++ b']' ∷ rest) ≡ tokens_from 0 rest
unfolding tokens_from
tokens_from-skip [] rest = refl
tokens_from-skip (c ∷ cs) rest = tokens_from-skip cs rest

plain-bracket :
    (x : ℕ) (inside rest : List ℕ)
    → x ≢ b'!'
    → (¬ In b']' inside)
    → bracket (x ∷ (inside ++ b']' ∷ rest))
      ≡ some (chars false (ranges (x ∷ inside)), count inside + 2 + 0)
unfolding bracket bracket_body
plain-bracket x inside rest other clean =
    let f : nat_eq x b'!' ≡ false = ground arith in
    rw (f, until_close-append inside rest clean, bracket_body) refl

negated-bracket :
    (x : ℕ) (inside rest : List ℕ)
    → (¬ In b']' inside)
    → bracket (b'!' ∷ x ∷ (inside ++ b']' ∷ rest))
      ≡ some (chars true (ranges (x ∷ inside)), count inside + 2 + 1)
unfolding bracket bracket_body
negated-bracket x inside rest clean = rw (until_close-append inside rest clean, bracket_body) refl

plain-skip :
    (x : ℕ) (inside rest : List ℕ)
    → tokens_from (count inside + 2 + 0) (x ∷ (inside ++ b']' ∷ rest)) ≡ tokens_from 0 rest
unfolding tokens_from
plain-skip x inside rest =
    let e : count inside + 2 + 0 ≡ suc (suc (count inside)) = omega arith in
    rw e (tokens_from-skip inside rest)

negated-skip :
    (x : ℕ) (inside rest : List ℕ)
    → tokens_from (count inside + 2 + 1) (b'!' ∷ x ∷ (inside ++ b']' ∷ rest)) ≡ tokens_from 0 rest
unfolding tokens_from
negated-skip x inside rest =
    let e : count inside + 2 + 1 ≡ suc (suc (suc (count inside))) = omega arith in
    rw e (tokens_from-skip inside rest)

-- A bracket expression is found, and what is read next is its rest.
Bracket-found :
    {cs content rest : List ℕ} {n : Bool}
    → Bracket cs n content rest
    → (k : ℕ) × (bracket cs ≡ some (chars n (ranges content), k))
      × (tokens_from k cs ≡ tokens_from 0 rest)
Bracket-found (plain x inside rest other clean e) =
    rw e (count inside + 2 + 0, plain-bracket x inside rest other clean, plain-skip x inside rest)
Bracket-found (negated x inside rest clean e) =
    rw e (count inside + 2 + 1, negated-bracket x inside rest clean, negated-skip x inside rest)

bracket_body-split :
    (n : Bool) (cs : List ℕ) (extra : ℕ) {r : Token × ℕ}
    → bracket_body n cs extra ≡ some r
    → (x : ℕ) × (inside rest : List ℕ) × (cs ≡ x ∷ (inside ++ b']' ∷ rest)) × (¬ In b']' inside)
unfolding bracket_body
bracket_body-split n [] extra h = cc
bracket_body-split n (x ∷ xs) extra h = elim (Option-cases (until_close xs)) [
  | inl open_end ↦ cc (rw (open_end, bracket_body) at h)
  | inr (inside, found) ↦
      let (rest, split, clean) = until_close-some xs inside found in
      (x, inside, rest, ap (λ l. x ∷ l) split, clean)
]

first-ne : (c x : ℕ) (cs xs : List ℕ) → c ∷ cs ≡ x ∷ xs → nat_eq c b'!' ≡ false → x ≢ b'!'
first-ne c x cs xs split other e = ground (arith, split, other, e)

found-Bracket :
    (cs : List ℕ) {r : Token × ℕ}
    → bracket cs ≡ some r
    → (n : Bool) × (content rest : List ℕ) × Bracket cs n content rest
unfolding bracket
found-Bracket [] h = cc
found-Bracket (c ∷ cs) h = elim (Bool-cases (nat_eq c b'!')) [
  | inl bang ↦
      let (x, inside, rest, split, clean) = bracket_body-split true cs 1 (rw bang at h) in
      let first = (nat_eq_iff c b'!').0 bang in
      (true, x ∷ inside, rest, negated x inside rest clean (cc))
  | inr other ↦
      let (x, inside, rest, split, clean) = bracket_body-split false (c ∷ cs) 0 (rw other at h) in
      (false, x ∷ inside, rest, plain x inside rest (first-ne c x cs _ split other) clean split)
]

-- the ways on which the parser goes
module _ (c : ℕ) (cs : List ℕ) where
  tokens_from_star : c ≡ b'*' → tokens_from 0 (c ∷ cs) ≡ star ∷ tokens_from 0 cs
  unfolding tokens_from
  tokens_from_star e = rw e refl

  tokens_from_any : c ≡ b'?' → tokens_from 0 (c ∷ cs) ≡ any_char ∷ tokens_from 0 cs
  unfolding tokens_from
  tokens_from_any e = rw e refl

  tokens_from_itself :
      c ≢ b'*' → c ≢ b'?' → c ≢ b'[' → tokens_from 0 (c ∷ cs) ≡ one c ∷ tokens_from 0 cs
  unfolding tokens_from
  tokens_from_itself a b d = ground arith

  tokens_from_class :
      (t : Token) (k : ℕ)
      → c ≡ b'['
      → bracket cs ≡ some (t, k)
      → tokens_from 0 (c ∷ cs) ≡ t ∷ tokens_from k cs
  unfolding tokens_from
  tokens_from_class t k e found = rw (e, found, tokens_from) refl

  tokens_from_unclosed :
      c ≡ b'[' → bracket cs ≡ none → tokens_from 0 (c ∷ cs) ≡ one c ∷ tokens_from 0 cs
  unfolding tokens_from
  tokens_from_unclosed e absent =
      rw (e, absent, tokens_from) (ap (λ (x : ℕ). one x ∷ tokens_from 0 cs) e)

tokens_from_end : tokens_from 0 [] ≡ []
unfolding tokens_from
tokens_from_end = refl

-- A pattern is read in one way, and the parser reads it in that way.
pub tokens_from-of_Parses : {cs : List ℕ} {ts : List Token} → Parses cs ts → tokens_from 0 cs ≡ ts
tokens_from-of_Parses nothing = tokens_from_end
tokens_from-of_Parses (a_star {c} {cs} e p) =
    tokens_from_star c cs e ∙ ap (λ l. star ∷ l) (tokens_from-of_Parses p)
tokens_from-of_Parses (an_any {c} {cs} e p) =
    tokens_from_any c cs e ∙ ap (λ l. any_char ∷ l) (tokens_from-of_Parses p)
tokens_from-of_Parses (itself {c} {cs} a b d p) =
    tokens_from_itself c cs a b d ∙ ap (λ l. one c ∷ l) (tokens_from-of_Parses p)
tokens_from-of_Parses (unclosed {c} {cs} e none_there p) =
    let ih = tokens_from-of_Parses p in
    elim (Option-cases (bracket cs)) [
      | inl absent ↦ tokens_from_unclosed c cs e absent ∙ ap (λ l. one c ∷ l) ih
      | inr (r, found) ↦
          let (n, content, rest, b) = found-Bracket cs found in absurd (none_there n content rest b)
    ]
tokens_from-of_Parses (a_class {c} {cs} {n} {rs} e b r p) =
    let ih = tokens_from-of_Parses p in
    let (k, found, next) = Bracket-found b in
    tokens_from_class c cs _ k e found
    ∙ ap (λ l. chars n l ∷ tokens_from k cs) (ranges-of_Ranged r)
    ∙ ap (λ l. chars n rs ∷ l) (next ∙ ih)

count-le-append : (inside rest : List ℕ) → count rest ≤ count (inside ++ b']' ∷ rest)
count-le-append [] rest = omega arith
count-le-append (x ∷ xs) rest = omega (arith, count-le-append xs rest)

count-rest :
    {cs content rest : List ℕ} {n : Bool} → Bracket cs n content rest → count rest ≤ count cs
count-rest (plain x inside rest other clean e) = rw e (omega (arith, count-le-append inside rest))
count-rest (negated x inside rest clean e) = rw e (omega (arith, count-le-append inside rest))

-- Every pattern can be read.
Parses-of_count : (fuel : ℕ) (cs : List ℕ) → count cs ≤ fuel → (ts : List Token) × Parses cs ts
Parses-of_count fuel [] le = ([], nothing)
Parses-of_count zero (c ∷ cs) le = absurd (omega arith)
Parses-of_count (suc fuel) (c ∷ cs) le = elim (Bool-cases (nat_eq c b'*')) [
  | inl yes_star ↦
      let (ts, p) = Parses-of_count fuel cs (omega arith) in
      (star ∷ ts, a_star ((nat_eq_iff c b'*').0 yes_star) p)
  | inr no_star ↦ elim (Bool-cases (nat_eq c b'?')) [
    | inl yes_any ↦
        let (ts, p) = Parses-of_count fuel cs (omega arith) in
        (any_char ∷ ts, an_any ((nat_eq_iff c b'?').0 yes_any) p)
    | inr no_any ↦ elim (Bool-cases (nat_eq c b'[')) [
      | inr no_open ↦
          let (ts, p) = Parses-of_count fuel cs (omega arith) in
          (one c ∷ ts, itself (ground arith) (ground arith) (ground arith) p)
      | inl yes_open ↦ elim (Option-cases (bracket cs)) [
        | inl absent ↦
            let (ts, p) = Parses-of_count fuel cs (omega arith) in
            (
              one c ∷ ts,
              unclosed ((nat_eq_iff c b'[').0 yes_open)
                  (λ n content rest b. let (k, found, next) = Bracket-found b in cc) p,
            )
        | inr (r, found) ↦
            let (n, content, rest, b) = found-Bracket cs found in
            let shorter = count-rest b in
            let (ts, p) = Parses-of_count fuel rest (omega arith) in
            (
              chars n (ranges content) ∷ ts,
              a_class ((nat_eq_iff c b'[').0 yes_open) b (Ranged-ranges content) p,
            )
      ]
    ]
  ]
]

pub Parses-tokens_from : (cs : List ℕ) → Parses cs (tokens_from 0 cs)
Parses-tokens_from cs =
    let (ts, p) = Parses-of_count (count cs) cs (omega arith) in
    subst (Parses cs) (sym (tokens_from-of_Parses p)) p
