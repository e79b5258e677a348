-- ===== src/Authentication/Tests.antt =====
-- gateway/app/auth.py on a token that is signed with a key newer than those kept.
use repo_mcp.Prelude.Value.{get, truthy, text_of, items}
use repo_mcp.AnswerCache.{strip_right, strip_left}
use repo_mcp.Authentication.{verify, jwks_keys, has_part, principal_of, strip_slashes}
use repo_mcp.Prelude.Text.{is_blank}
use repo_mcp.Indexer.Triggers.{partition_space}
use repo_mcp.Prelude.{
  ℕ, suc, ◌+◌, ◌≤◌, String, ◌≡◌, refl, false, ◌&&◌, Option, some, [], ◌∷◌, if◌then◌else◌, ◌==◌,
  ℕ_eq, String_eq,
}
use repo_mcp.Prelude.Value.{Value, str, arr, cons, nil, Fields, field, end}
use repo_mcp.Prelude.Result.{Result, ok, err}
use repo_mcp.Mcp.Session.{Principal}
use repo_mcp.Authentication.{AuthSettings, Jwks, bearer, authenticate}
use repo_mcp.Authentication.Verified.{Proven, authenticate-Proven}
use repo_mcp.Authentication.Fetches.{authenticate-fetches}

abbrev lowered : String → String
lowered s = if s == "Bearer" then "bearer" else s

abbrev no_repr : Value → String
no_repr v = "?"

abbrev issuer_keys : ℕ → Option ℕ × ℕ
issuer_keys n = (some n, suc n)

abbrev claims : Fields
claims =
    field "sub" (str "u1") (
      field "preferred_username" (str "ada")
        (field "groups" (arr (cons (str "/pay-devs") nil)) end))

abbrev decoding : ℕ → String → Result String Fields
decoding k token = if k == 1 && token == "jwt" then ok claims else err "unknown kid"

abbrev oidc : AuthSettings
oidc = record {
  issuer = "https://sso";
  groups_claim = "groups";
  dev_insecure_auth = false;
  dev_static_token = "";
  dev_static_groups = [];
}

abbrev old_keys : Jwks ℕ ℕ
old_keys = record { keys = some 0; fetched_at = 0; world = 1; fetches = 1 }

abbrev ada : Principal
ada = record { subject = "u1"; username = "ada"; groups = "pay-devs" ∷ [] }

signed_in :
    (authenticate issuer_keys decoding lowered no_repr oidc 3600 10 11
      (some "Bearer jwt")
      old_keys).0
    ≡ ok ada
unfolding authenticate bearer partition_space is_blank verify jwks_keys has_part strip_right
    strip_left principal_of get truthy text_of items strip_slashes
signed_in = refl

authenticate-Proven_example :
    (token : String) × (bearer lowered (some "Bearer jwt") ≡ ok token)
    × Proven issuer_keys decoding lowered no_repr oidc token ada
        (authenticate issuer_keys decoding lowered no_repr oidc 3600 10 11
          (some "Bearer jwt")
          old_keys).1
authenticate-Proven_example =
    authenticate-Proven issuer_keys decoding lowered no_repr oidc 3600 10 11 (some "Bearer jwt")
      old_keys ada signed_in

authenticate-fetches_example :
    (authenticate issuer_keys decoding lowered no_repr oidc 3600 10 11
      (some "Bearer jwt")
      old_keys).1.fetches
    ≤ old_keys.fetches + 2
authenticate-fetches_example =
    authenticate-fetches issuer_keys decoding lowered no_repr oidc 3600 10 11 (some "Bearer jwt")
      old_keys
