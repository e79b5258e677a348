-- ===== src/Glob/Literal.antt =====
-- Patterns with nothing special in them, and the pattern "*".
use repo_mcp.Prelude.{ℕ, ◌≡◌, refl, ◌≢◌, ◌↔◌, true, map, arith, ℕ_eq, String_eq}
use repo_mcp.Glob.{codes, star, one, tokens_from, matches, fnmatchcase, List, String, ◌∷◌, []}

-- No "*", "?" or "[".
abbrev pub IsLiteral : List ℕ → Type 0
IsLiteral [] = Unit
IsLiteral (c ∷ cs) = (c ≢ b'*') × (c ≢ b'?') × (c ≢ b'[') × IsLiteral cs

tokens_from-literal : (p : List ℕ) → IsLiteral p → tokens_from 0 p ≡ map one p
unfolding tokens_from
tokens_from-literal [] h = refl
tokens_from-literal (c ∷ cs) h = ground (arith, tokens_from-literal cs h.3)

matches-map_one : (p cs : List ℕ) → (matches (map one p) cs ≡ true) ↔ (cs ≡ p)
unfolding matches
matches-map_one [] [] = ground arith
matches-map_one [] (c ∷ cs) = ground arith
matches-map_one (d ∷ ds) [] = ground arith
matches-map_one (d ∷ ds) (c ∷ cs) = ground (arith, matches-map_one ds cs)

-- A pattern with no "*", "?" or "[" selects the name that it spells and no other.
pub fnmatchcase-literal :
    (name pattern : String)
    → IsLiteral (codes pattern)
    → (fnmatchcase name pattern ≡ true) ↔ (codes name ≡ codes pattern)
unfolding fnmatchcase
fnmatchcase-literal name pattern h =
    rw (tokens_from-literal (codes pattern) h) (matches-map_one (codes pattern) (codes name))

matches_star : (cs : List ℕ) → matches (star ∷ []) cs ≡ true
unfolding matches
matches_star [] = refl
matches_star (c ∷ cs) = ground (arith, matches_star cs)

-- "*" selects every name.
pub fnmatchcase_star : (name : String) → fnmatchcase name "*" ≡ true
unfolding fnmatchcase
fnmatchcase_star name = matches_star (codes name)
