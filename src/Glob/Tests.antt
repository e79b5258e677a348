-- ===== src/Glob/Tests.antt =====
-- Patterns of each kind, as Python's `fnmatch.fnmatchcase` reads them.
use repo_mcp.Prelude.{◌≡◌, refl, true, false}
use repo_mcp.Glob.{fnmatchcase}

glob_tests :
    (fnmatchcase "acme-payments-api" "acme-*" ≡ true)
    × (fnmatchcase "acme-payments-api" "*-[a-c]pi" ≡ true)
    × (fnmatchcase "acme-payments-api" "*-[!a-c]pi" ≡ false)
    × (fnmatchcase "a]b" "a[]]b" ≡ true)
    × (fnmatchcase "a[b" "a[b" ≡ true)
    × (fnmatchcase "a-b" "a[x-]b" ≡ true)
    × (fnmatchcase "ab" "a?b" ≡ false)
unfolding fnmatchcase
glob_tests = (refl, refl, refl, refl, refl, refl, refl)
