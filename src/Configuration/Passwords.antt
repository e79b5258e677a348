-- ===== src/Configuration/Passwords.antt =====
-- common/repo_mcp_common/passwords.py: the policy for passwords. Argon2 is a parameter.
use Prim.Native.Char.{code}
use repo_mcp.Prelude.{
  ℕ, String, Bool, List, [], ◌∷◌, leb, if◌then◌else◌, ℕ_eq, String_eq, length, contains,
}
use repo_mcp.Prelude.Text.{char_count}
use repo_mcp.Prelude.Result.{Result, ok, guard, ◌>>◌}

pub data WeakPassword : Type 0 where
  too_short too_uniform : WeakPassword

-- the characters of a text, each once
abbrev pub distinct_codes : List ℕ → String → List ℕ
distinct_codes seen String.[] = seen
distinct_codes seen (String.◌∷◌ c s) =
    distinct_codes (if contains seen (code c) then seen else code c ∷ seen) s

unfoldable pub validate : String → Result WeakPassword (Unit {0})
validate password = do
  guard (leb 12 (char_count password)) too_short
  guard (leb 5 (length (distinct_codes [] password))) too_uniform

-- `PasswordHasher`; `checks` is false where argon2 raises
pub record Hasher : Type 0 where
  pub hash : String → String
  pub checks : String → String → Bool
  pub dummy : String

unfoldable pub hash_password : Hasher → String → Result WeakPassword String
hash_password hasher password = do validate password; ok (hasher.hash password)
