-- ===== src/Authentication/Fetches.antt =====
-- How often gateway/app/auth.py asks the issuer for its keys.
use repo_mcp.Prelude.{
  ℕ, suc, ◌+◌, ◌≤◌, String, ◌≡◌, refl, inl, inr, Bool, true, false, Option, none, some, arith,
  if◌then◌else◌, Bool-cases, ◌==◌, ℕ_eq, String_eq,
}
use repo_mcp.Prelude.Value.{Value, Fields}
use repo_mcp.Prelude.Result.{Result, ok, err}
use repo_mcp.Authentication.{
  AuthError, no_issuer, AuthSettings, Jwks, bearer, dev_principal, fresh_keys, fetched,
  kept_or_fetched, jwks_keys, last_answer, last_round, first_answer, first_round, has_part, verify,
  with_claims, with_token, authenticate,
}

few :
    {A K W : Type 0} {n : ℕ} (b c : Bool) (x y z : A × Jwks K W)
    → x.1.fetches ≤ n
    → y.1.fetches ≤ n
    → z.1.fetches ≤ n
    → (if b then x else if c then y else z).1.fetches ≤ n
few true c x y z h k l = h
few false true x y z h k l = k
few false false x y z h k l = l

module _ {K W : Type 0} (fetch : W → Option K × W) (decode : K → String → Result String Fields)
    (lower : String → String) (repr : Value → String) where
  fetched-fetches :
      (now : ℕ) (x : Option K × W) (jwks : Jwks K W)
      → (fetched fetch decode lower repr now x jwks).1.fetches ≡ suc jwks.fetches
  fetched-fetches now (none, w) jwks = refl
  fetched-fetches now (some k, w) jwks = refl

  kept_or_fetched-fetches :
      (now : ℕ) (o : Option K) (jwks : Jwks K W)
      → (kept_or_fetched fetch decode lower repr now o jwks).1.fetches ≤ suc jwks.fetches
  kept_or_fetched-fetches now (some k) jwks = omega arith
  kept_or_fetched-fetches now none jwks =
      let e = fetched-fetches now (fetch jwks.world) jwks in omega arith

  jwks_keys-fetches :
      (force : Bool) (ttl now : ℕ) (jwks : Jwks K W)
      → (jwks_keys fetch decode lower repr force ttl now jwks).1.fetches ≤ suc jwks.fetches
  unfolding jwks_keys
  jwks_keys-fetches force ttl now jwks =
      kept_or_fetched-fetches now (fresh_keys force ttl now jwks) jwks

  last_answer-fetches :
      (r : Result String Fields) (jwks : Jwks K W)
      → (last_answer fetch decode lower repr r jwks).1.fetches ≡ jwks.fetches
  last_answer-fetches (ok c) jwks = refl
  last_answer-fetches (err e) jwks = refl

  last_round-fetches :
      (token : String) (x : Result AuthError K × Jwks K W)
      → (last_round fetch decode lower repr token x).1.fetches ≡ x.1.fetches
  last_round-fetches token (err e, jwks) = refl
  last_round-fetches token (ok keys, jwks) = last_answer-fetches (decode keys token) jwks

  first_answer-fetches :
      (ttl later : ℕ) (token : String) (r : Result String Fields) (jwks : Jwks K W)
      → (first_answer fetch decode lower repr ttl later token r jwks).1.fetches ≤ suc jwks.fetches
  first_answer-fetches ttl later token (ok c) jwks = omega arith
  first_answer-fetches ttl later token (err text) jwks =
      elim (Bool-cases (has_part "kid" (lower text))) [
        | inl kid ↦
            let a =
              last_round-fetches token (jwks_keys fetch decode lower repr true ttl later jwks) in
            let b = jwks_keys-fetches true ttl later jwks in rw (kid, a) b
        | inr other ↦ rw other (omega arith)
      ]

  first_round-fetches :
      (ttl later : ℕ) (token : String) (x : Result AuthError K × Jwks K W)
      → (first_round fetch decode lower repr ttl later token x).1.fetches ≤ suc x.1.fetches
  first_round-fetches ttl later token (err e, jwks) = omega arith
  first_round-fetches ttl later token (ok keys, jwks) =
      first_answer-fetches ttl later token (decode keys token) jwks

  verify-fetches :
      (ttl now later : ℕ) (token : String) (jwks : Jwks K W)
      → (verify fetch decode lower repr ttl now later token jwks).1.fetches ≤ jwks.fetches + 2
  unfolding verify
  verify-fetches ttl now later token jwks =
      let a =
        first_round-fetches ttl later token
          (jwks_keys fetch decode lower repr false ttl now jwks) in
      let b = jwks_keys-fetches false ttl now jwks in omega arith

  with_claims-fetches :
      (settings : AuthSettings) (x : Result AuthError Fields × Jwks K W)
      → (with_claims fetch decode lower repr settings x).1.fetches ≡ x.1.fetches
  with_claims-fetches settings (err e, jwks) = refl
  with_claims-fetches settings (ok c, jwks) = refl

  with_token-fetches :
      (settings : AuthSettings) (ttl now later : ℕ) (r : Result AuthError String) (jwks : Jwks K W)
      → (with_token fetch decode lower repr settings ttl now later r jwks).1.fetches
        ≤ jwks.fetches + 2
  with_token-fetches settings ttl now later (err e) jwks = omega arith
  with_token-fetches settings ttl now later (ok token) jwks =
      let a =
        with_claims-fetches settings (verify fetch decode lower repr ttl now later token jwks) in
      let b = verify-fetches ttl now later token jwks in
      few settings.dev_insecure_auth (settings.issuer == "") (dev_principal settings token, jwks)
        (err no_issuer, jwks) _ (omega arith) (omega arith) (omega arith)

  -- Whatever the issuer answers, a request makes the gateway fetch the keys at most twice.
  pub authenticate-fetches :
      (settings : AuthSettings) (ttl now later : ℕ) (authorization : Option String)
      (jwks : Jwks K W)
      → (authenticate fetch decode lower repr settings ttl now later authorization jwks).1.fetches
        ≤ jwks.fetches + 2
  unfolding authenticate
  authenticate-fetches settings ttl now later authorization jwks =
      with_token-fetches settings ttl now later (bearer lower authorization) jwks
