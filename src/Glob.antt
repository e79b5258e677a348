-- ===== src/Glob.antt =====
-- Python's `fnmatch.fnmatchcase`, with which project allowlists (gateway/app/tenants.py) and
-- connector patterns (common/repo_mcp_common/providers.py) select names. Names and patterns are
-- lists of code points.
pub mod Syntax
pub mod Matching
pub mod Literal
mod Tests
use Prim.Native.Char.{code}
use repo_mcp.Prelude.{
  ℕ, zero, suc, ◌+◌, ◌-◌, ◌*◌, ◌/◌, ◌%◌, ◌≤◌, ◌<◌, String, ◌≡◌, refl, sym, ap, ◌∙◌, subst, ◌≢◌, ◌↔◌,
  ◌⊎◌, inl, inr, Bool, true, false, not, ◌&&◌, ◌||◌, Option, none, some, List, [], ◌∷◌, ◌++◌, map,
  arith, eq_iff, ltb, leb, nat_eq, if◌then◌else◌, nat_eq_iff, Bool-cases, Option-cases, and_iff,
  or_iff, not_iff, Eq, ◌==◌, ℕ_eq, String_eq, length, take, length-append, any, all, keep, find,
  All, In, In-append, In-keep, find-some, find-none, any-elim, any-intro, all-elim, all-intro,
  contains, difference, meets, subset, contains_iff, In-difference, meets_iff, subset_iff, lookup,
  insert, remove, lookup-insert, lookup-remove,
}

-- The code points of a text.
abbrev pub codes : String → List ℕ
codes String.[] = []
codes (String.◌∷◌ c s) = code c ∷ codes s

pub data Token : Type 0 where
  star any_char : Token
  one : ℕ → Token
  -- negated or not, with the ranges from a first to a last code point
  chars : Bool → List (ℕ × ℕ) → Token

-- the text up to the first "]", if there is one
unfoldable pub until_close : List ℕ → Option (List ℕ)
until_close [] = none
until_close (c ∷ cs) =
    if nat_eq c b']'
    then some []
    else elim (until_close cs) [ none ↦ none | some inside ↦ some (c ∷ inside) ]

-- "x-y" is a range, "-" first or last is itself; an empty range holds nothing
unfoldable pub ranges : List ℕ → List (ℕ × ℕ)
ranges [] = []
ranges (x ∷ []) = (x, x) ∷ []
ranges (x ∷ y ∷ []) = (x, x) ∷ (y, y) ∷ []
ranges (x ∷ d ∷ y ∷ cs) =
    let wide = (x, y) ∷ ranges cs in
    let narrow = (x, x) ∷ ranges (d ∷ y ∷ cs) in if nat_eq d b'-' then wide else narrow

abbrev pub count : List ℕ → ℕ
count [] = 0
count (c ∷ cs) = suc (count cs)

-- the part of a bracket expression behind "[" or "[!"; "]" at its start is itself
unfoldable pub bracket_body : Bool → List ℕ → ℕ → Option (Token × ℕ)
unfolding until_close ranges
bracket_body negated [] extra = none
bracket_body negated (x ∷ xs) extra = elim (until_close xs) [
  | none ↦ none
  | some inside ↦ some (chars negated (ranges (x ∷ inside)), count inside + 2 + extra)
]

-- The bracket expression behind "[", and how many code points it takes.
unfoldable pub bracket : List ℕ → Option (Token × ℕ)
unfolding bracket_body
bracket [] = none
bracket (c ∷ cs) = if nat_eq c b'!' then bracket_body true cs 1 else bracket_body false (c ∷ cs) 0

-- `fnmatch.translate`: the pattern as tokens, with `skip` code points of it already read
unfoldable pub tokens_from : ℕ → List ℕ → List Token
unfolding bracket
tokens_from skip [] = []
tokens_from (suc skip) (c ∷ cs) = tokens_from skip cs
tokens_from zero (c ∷ cs) =
    let rest = tokens_from zero cs in
    let bracketed : List Token = elim (bracket cs) [
      | none ↦ one c ∷ tokens_from zero cs
      | some (t, n) ↦ t ∷ tokens_from n cs
    ] in
    if nat_eq c b'*'
    then star ∷ rest
    else if nat_eq c b'?'
    then any_char ∷ rest
    else if nat_eq c b'['
    then bracketed
    else one c ∷ rest

unfoldable pub tokens : List ℕ → List Token
unfolding tokens_from
tokens pattern = tokens_from 0 pattern

unfoldable pub in_ranges : ℕ → List (ℕ × ℕ) → Bool
in_ranges c [] = false
in_ranges c ((first, last) ∷ rs) = (leb first c && leb c last) || in_ranges c rs

-- one code point against one token that is no `star`
unfoldable pub accepts : Token → ℕ → Bool
unfolding in_ranges
accepts star c = true
accepts any_char c = true
accepts (one d) c = nat_eq c d
accepts (chars negated rs) c = if negated then not (in_ranges c rs) else in_ranges c rs

unfoldable pub matches : List Token → List ℕ → Bool
unfolding accepts
matches [] [] = true
matches [] (c ∷ cs) = false
matches (star ∷ ts) [] = matches ts []
matches (star ∷ ts) (c ∷ cs) = matches ts (c ∷ cs) || matches (star ∷ ts) cs
matches (t ∷ ts) [] = false
matches (t ∷ ts) (c ∷ cs) = accepts t c && matches ts cs

-- `fnmatch.fnmatchcase(name, pattern)`
unfoldable pub fnmatchcase : String → String → Bool
unfolding tokens matches
fnmatchcase name pattern = matches (tokens (codes pattern)) (codes name)
