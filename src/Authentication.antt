-- ===== src/Authentication.antt =====
-- gateway/app/auth.py: who a request comes from. The signing keys are fetched from the issuer and kept;
-- what the issuer answers, the check of a token against the keys (python-jose) and the lower case of a
-- text are parameters. An exception of the transport is the error `unreachable`.
pub mod Verified
pub mod Fetches
mod Tests
use Prim.Native.Char.{code}
use Prim.Native.String
use text.Mathlib.Text.{starts_with}
use mathlib.Core.Bool.{◌||◌}
use repo_mcp.Prelude.{
  ℕ, zero, suc, ◌+◌, ◌-◌, ◌*◌, ◌/◌, ◌%◌, ◌≤◌, ◌<◌, String, ◌≡◌, refl, sym, ap, ◌∙◌, subst, ◌≢◌, ◌↔◌,
  ◌⊎◌, inl, inr, Bool, true, false, not, ◌&&◌, ◌||◌, Option, none, some, List, [], ◌∷◌, ◌++◌, map,
  arith, eq_iff, ltb, leb, nat_eq, if◌then◌else◌, nat_eq_iff, Bool-cases, Option-cases, and_iff,
  or_iff, not_iff, Eq, ◌==◌, ℕ_eq, String_eq, length, take, length-append, any, all, keep, find,
  All, is_empty, not-In_of_is_empty, is_empty_of_not-In, is_empty-difference_iff, In-map-elim,
  In-map-intro, All-imp, In, In-append, In-keep, find-some, find-none, any-elim, any-intro,
  all-elim, all-intro, contains, difference, meets, subset, contains_iff, In-difference, meets_iff,
  subset_iff, lookup, insert, remove, lookup-insert, lookup-remove, text_le, put_sorted, sorted_by,
  In-sorted_by, Pairwise, All-sorted_by, Pairwise-sorted_by, All-intro, In_of_All,
}
use repo_mcp.Prelude.Value.{Value, null, str, arr, items, Fields, get, truthy, text_of}
use repo_mcp.Prelude.Text.{is_blank}
use repo_mcp.Prelude.Result.{Result, ok, err, guard, ◌>>◌, ◌>>=◌}
use repo_mcp.Tenants.Document.{iterate, or_else}
use repo_mcp.AnswerCache.{strip_left, strip_right}
use repo_mcp.Indexer.Triggers.{partition_space}
use repo_mcp.Mcp.Session.{Principal}

-- `AuthError`, what escapes of the transport, and the `TypeError` of groups that are no list
pub data AuthError : Type 0 where
  missing_header not_bearer wrong_static_token no_issuer unreachable not_iterable : AuthError
  not_verified : String → AuthError

-- `Settings`, as far as it is read here
pub record AuthSettings : Type 0 where
  pub issuer : String
  pub groups_claim : String
  pub dev_insecure_auth : Bool
  pub dev_static_token : String
  pub dev_static_groups : List String

-- `_JwksCache`, over the keys and the state of the issuer
pub record Jwks (K W : Type 0) : Type 0 where
  pub keys : Option K
  pub fetched_at : ℕ
  pub world : W
  pub fetches : ℕ

-- `_bearer`
unfoldable pub bearer : (String → String) → Option String → Result AuthError String
bearer lower none = err missing_header
bearer lower (some authorization) =
    let (scheme, token) = partition_space authorization in
    if authorization == ""
    then err missing_header
    else if not (lower scheme == "bearer") || is_blank token
    then err not_bearer
    else ok (strip_right (strip_left token))

-- `str.lstrip("/")`
unfoldable pub strip_slashes : String → String
strip_slashes String.[] = String.[]
strip_slashes (String.◌∷◌ c s) =
    let rest = strip_slashes s in if nat_eq (code c) 47 then rest else String.◌∷◌ c s

-- `part in text`
unfoldable pub has_part : String → String → Bool
has_part part String.[] = part == ""
has_part part (String.◌∷◌ c s) = starts_with part (String.◌∷◌ c s) || has_part part s

-- the groups of a token: a text counts as one group
abbrev pub claimed_groups : Option Value → Option (List Value)
claimed_groups none = some []
claimed_groups (some (str s)) = some (if s == "" then [] else str s ∷ [])
claimed_groups (some v) = if truthy v then iterate v else some []

-- `a or b`, for a key that may be missing
abbrev pub or_value : Option Value → Value → Value
or_value none d = d
or_value (some v) d = if truthy v then v else d

-- `_dev_principal`
unfoldable pub dev_principal : AuthSettings → String → Result AuthError Principal
dev_principal settings token =
    if settings.dev_static_token == "" || not (token == settings.dev_static_token)
    then err wrong_static_token
    else ok (record { subject = "dev"; username = "dev"; groups = settings.dev_static_groups })

-- a kept set of keys that is not older than the time to live
abbrev pub fresh_keys : {K W : Type 0} → Bool → ℕ → ℕ → Jwks K W → Option K
fresh_keys force ttl now jwks =
    if not force && ltb (now - jwks.fetched_at) ttl then jwks.keys else none

module _ {K W : Type 0} (fetch : W → Option K × W) (decode : K → String → Result String Fields)
    (lower : String → String) (repr : Value → String) where
  abbrev pub fetched : ℕ → Option K × W → Jwks K W → Result AuthError K × Jwks K W
  fetched now (none, w) jwks =
      (err unreachable, record jwks { world = w; fetches = suc jwks.fetches })
  fetched now (some k, w) jwks =
      (ok k, record { keys = some k; fetched_at = now; world = w; fetches = suc jwks.fetches })

  abbrev pub kept_or_fetched : ℕ → Option K → Jwks K W → Result AuthError K × Jwks K W
  kept_or_fetched now (some k) jwks = (ok k, jwks)
  kept_or_fetched now none jwks = fetched now (fetch jwks.world) jwks

  -- `_JwksCache.keys`
  unfoldable pub jwks_keys : Bool → ℕ → ℕ → Jwks K W → Result AuthError K × Jwks K W
  jwks_keys force ttl now jwks = kept_or_fetched now (fresh_keys force ttl now jwks) jwks

  -- the second round, whose failure is final
  abbrev pub last_answer : Result String Fields → Jwks K W → Result AuthError Fields × Jwks K W
  last_answer (ok claims) jwks = (ok claims, jwks)
  last_answer (err text) jwks = (err (not_verified text), jwks)

  abbrev pub last_round :
      String → Result AuthError K × Jwks K W → Result AuthError Fields × Jwks K W
  last_round token (err e, jwks) = (err e, jwks)
  last_round token (ok keys, jwks) = last_answer (decode keys token) jwks

  -- the first round: only an error that speaks of a key id is tried again, with keys fetched anew
  abbrev pub first_answer :
      ℕ → ℕ → String → Result String Fields → Jwks K W → Result AuthError Fields × Jwks K W
  first_answer ttl later token (ok claims) jwks = (ok claims, jwks)
  first_answer ttl later token (err text) jwks =
      if has_part "kid" (lower text)
      then last_round token (jwks_keys true ttl later jwks)
      else (err (not_verified text), jwks)

  abbrev pub first_round :
      ℕ → ℕ → String → Result AuthError K × Jwks K W → Result AuthError Fields × Jwks K W
  first_round ttl later token (err e, jwks) = (err e, jwks)
  first_round ttl later token (ok keys, jwks) =
      first_answer ttl later token (decode keys token) jwks

  -- `_verify`
  unfoldable pub verify : ℕ → ℕ → ℕ → String → Jwks K W → Result AuthError Fields × Jwks K W
  verify ttl now later token jwks = first_round ttl later token (jwks_keys false ttl now jwks)

  abbrev pub group_names : List Value → List String
  group_names [] = []
  group_names (g ∷ gs) = strip_slashes (text_of repr g) ∷ group_names gs

  -- the principal of a token's claims
  unfoldable pub principal_of : AuthSettings → Fields → Result AuthError Principal
  principal_of settings claims = elim (claimed_groups (get settings.groups_claim claims)) [
    | none ↦ err not_iterable
    | some groups ↦ ok (record {
      subject = text_of repr (or_else (get "sub" claims) (str ""));
      username =
          text_of repr
            (or_value (get "preferred_username" claims) (or_value (get "sub" claims) (str "")));
      groups = group_names groups;
    })
  ]

  abbrev pub with_claims :
      AuthSettings → Result AuthError Fields × Jwks K W → Result AuthError Principal × Jwks K W
  with_claims settings (err e, jwks) = (err e, jwks)
  with_claims settings (ok claims, jwks) = (principal_of settings claims, jwks)

  abbrev pub with_token :
      AuthSettings
      → ℕ
      → ℕ
      → ℕ
      → Result AuthError String
      → Jwks K W
      → Result AuthError Principal × Jwks K W
  with_token settings ttl now later (err e) jwks = (err e, jwks)
  with_token settings ttl now later (ok token) jwks =
      if settings.dev_insecure_auth
      then (dev_principal settings token, jwks)
      else if settings.issuer == ""
      then (err no_issuer, jwks)
      else with_claims settings (verify ttl now later token jwks)

  -- `Authenticator.authenticate`
  unfoldable pub authenticate :
      AuthSettings → ℕ → ℕ → ℕ → Option String → Jwks K W → Result AuthError Principal × Jwks K W
  authenticate settings ttl now later authorization jwks =
      with_token settings ttl now later (bearer lower authorization) jwks
