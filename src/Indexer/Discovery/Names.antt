-- ===== src/Indexer/Discovery/Names.antt =====
-- The names that projects get.
use Prim.Native.Char.{code}
use Prim.Native.String.append.{nil, cons}
use repo_mcp.Prelude.{
  String, ◌≡◌, refl, sym, subst, inl, inr, Bool, true, false, nat_eq, Bool-cases, ℕ_eq, String_eq,
}
use repo_mcp.Prelude.Text.{◌<>◌}
use repo_mcp.Indexer.Discovery.{
  is_safe, hyphenate, trim_left, trim_right, project_name, only_hyphens,
}

-- Every character is a letter, a digit, ".", "_" or "-".
abbrev pub IsSafe : String → Type 0
IsSafe String.[] = Unit
IsSafe (String.◌∷◌ c s) = (is_safe (code c) ≡ true) × IsSafe s

IsSafe-append : (s t : String) → IsSafe s → IsSafe t → IsSafe (s <> t)
IsSafe-append String.[] t a b = subst IsSafe (sym (λ i. nil t i)) b
IsSafe-append (String.◌∷◌ c s) t a b =
    subst IsSafe (sym (λ i. cons c s t i)) (a.0, IsSafe-append s t a.1 b)

hyphenate-IsSafe : (inside : Bool) (s : String) → IsSafe (hyphenate inside s)
unfolding hyphenate is_safe
hyphenate-IsSafe inside String.[] = tt
hyphenate-IsSafe inside (String.◌∷◌ c s) = elim (Bool-cases (is_safe (code c))) [
  | inl safe ↦ rw (safe, hyphenate) (safe, hyphenate-IsSafe false s)
  | inr unsafe ↦ elim (Bool-cases inside) [
    | inl run ↦ rw (unsafe, hyphenate, run) (hyphenate-IsSafe true s)
    | inr first ↦
        rw (unsafe, hyphenate, first)
          (IsSafe-append "-" (hyphenate true s) (refl, tt) (hyphenate-IsSafe true s))
  ]
]

trim_left-IsSafe : (s : String) → IsSafe s → IsSafe (trim_left s)
unfolding trim_left
trim_left-IsSafe String.[] h = tt
trim_left-IsSafe (String.◌∷◌ c s) h = elim (Bool-cases (nat_eq (code c) 45)) [
  | inl hyphen ↦ rw hyphen (trim_left-IsSafe s h.1)
  | inr other ↦ rw other h
]

trim_right-IsSafe : (s : String) → IsSafe s → IsSafe (trim_right s)
unfolding trim_right
trim_right-IsSafe String.[] h = tt
trim_right-IsSafe (String.◌∷◌ c s) h = elim (Bool-cases (only_hyphens (String.◌∷◌ c s))) [
  | inl all_of_it ↦ rw all_of_it tt
  | inr more ↦ rw more (h.0, trim_right-IsSafe s h.1)
]

-- Every character of a project name is a letter or digit of ASCII, ".", "_" or "-".
pub project_name-IsSafe : (full_name : String) → IsSafe (project_name full_name)
unfolding project_name
project_name-IsSafe full_name =
    trim_right-IsSafe _ (trim_left-IsSafe _ (hyphenate-IsSafe false full_name))
