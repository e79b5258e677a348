-- ===== src/Authentication/Verified.antt =====
-- What stands behind a principal that gateway/app/auth.py authenticates.
use repo_mcp.Prelude.{
  if◌then◌else◌, subst, sym, ◌||◌, arith, eq_iff, List, [], ap, ◌∙◌, refl, Bool-cases, inl, inr,
  ltb, not, ◌&&◌, ◌-◌, true, false, ◌==◌, ◌≢◌, String_eq, ℕ, none, some, Option, Bool, String, ◌≡◌,
  ℕ_eq,
}
use repo_mcp.Prelude.Result.{err, Result, ok}
use repo_mcp.Prelude.Value.{Value, Fields}
use repo_mcp.Authentication.{
  with_token, authenticate, bearer, dev_principal, no_issuer, verify, AuthSettings, fresh_keys,
  fetched, kept_or_fetched, jwks_keys, last_answer, last_round, first_answer, first_round, has_part,
  principal_of, with_claims, AuthError, Jwks,
}
use repo_mcp.Mcp.Session.{Principal}

if_true : {A : Type 0} {b : Bool} (x y : A) → b ≡ true → (if b then x else y) ≡ x
if_true x y h = rw h refl

if_false : {A : Type 0} {b : Bool} (x y : A) → b ≡ false → (if b then x else y) ≡ y
if_false x y h = rw h refl

abbrev groups_of : Result AuthError Principal → List String
groups_of (ok p) = p.groups
groups_of (err e) = []

fitting :
    (expected token : String)
    → (expected == "" || not (token == expected)) ≡ false
    → (expected ≢ "") × (token ≡ expected)
fitting expected token h = ground (arith, h, eq_iff expected "", eq_iff token expected)

module _ {K W : Type 0} (fetch : W → Option K × W) (decode : K → String → Result String Fields)
    (lower : String → String) (repr : Value → String) where
  -- The keys that are kept now have verified the token.
  pub record Checked (token : String) (claims : Fields) (jwks : Jwks K W) : Type 0 where
    pub keys : K
    pub held : jwks.keys ≡ some keys
    pub decoded : decode keys token ≡ ok claims

  fresh_keys-held :
      (force : Bool) (ttl now : ℕ) (jwks : Jwks K W) (keys : K)
      → fresh_keys force ttl now jwks ≡ some keys
      → jwks.keys ≡ some keys
  fresh_keys-held force ttl now jwks keys h =
      elim (Bool-cases (not force && ltb (now - jwks.fetched_at) ttl)) [
        | inl fresh ↦ rw fresh at h
        | inr old ↦ cc (rw old at h)
      ]

  fetched_held :
      (now : ℕ) (x : Option K × W) (jwks : Jwks K W) (keys : K)
      → (fetched fetch decode lower repr now x jwks).0 ≡ ok keys
      → (fetched fetch decode lower repr now x jwks).1.keys ≡ some keys
  fetched_held now (none, w) jwks keys h = cc
  fetched_held now (some k, w) jwks keys h = cc

  kept_or_fetched-held :
      (now : ℕ) (o : Option K) (jwks : Jwks K W) (keys : K)
      → ((k : K) → o ≡ some k → jwks.keys ≡ some k)
      → (kept_or_fetched fetch decode lower repr now o jwks).0 ≡ ok keys
      → (kept_or_fetched fetch decode lower repr now o jwks).1.keys ≡ some keys
  kept_or_fetched-held now (some k) jwks keys held h =
      let same : k ≡ keys = cc in held keys (ap some same)
  kept_or_fetched-held now none jwks keys held h = fetched_held now (fetch jwks.world) jwks keys h

  jwks_keys-held :
      (force : Bool) (ttl now : ℕ) (jwks : Jwks K W) (keys : K)
      → (jwks_keys fetch decode lower repr force ttl now jwks).0 ≡ ok keys
      → (jwks_keys fetch decode lower repr force ttl now jwks).1.keys ≡ some keys
  unfolding jwks_keys
  jwks_keys-held force ttl now jwks keys h =
      kept_or_fetched-held now (fresh_keys force ttl now jwks) jwks keys
        (λ k. fresh_keys-held force ttl now jwks k) h

  last_answer-Checked :
      (token : String) (r : Result String Fields) (jwks : Jwks K W) (keys : K) (claims : Fields)
      → decode keys token ≡ r
      → jwks.keys ≡ some keys
      → (last_answer fetch decode lower repr r jwks).0 ≡ ok claims
      → Checked token claims (last_answer fetch decode lower repr r jwks).1
  last_answer-Checked token (ok c) jwks keys claims d held h =
      let same : c ≡ claims = cc in record { keys = keys; held = held; decoded = d ∙ ap ok same }
  last_answer-Checked token (err e) jwks keys claims d held h = cc

  last_round-Checked :
      (token : String) (x : Result AuthError K × Jwks K W) (claims : Fields)
      → ((keys : K) → x.0 ≡ ok keys → x.1.keys ≡ some keys)
      → (last_round fetch decode lower repr token x).0 ≡ ok claims
      → Checked token claims (last_round fetch decode lower repr token x).1
  last_round-Checked token (err e, jwks) claims held h = cc
  last_round-Checked token (ok keys, jwks) claims held h =
      last_answer-Checked token (decode keys token) jwks keys claims refl (held keys refl) h

  first_answer-Checked :
      (ttl later : ℕ) (token : String) (r : Result String Fields) (jwks : Jwks K W) (keys : K)
      (claims : Fields)
      → decode keys token ≡ r
      → jwks.keys ≡ some keys
      → (first_answer fetch decode lower repr ttl later token r jwks).0 ≡ ok claims
      → Checked token claims (first_answer fetch decode lower repr ttl later token r jwks).1
  first_answer-Checked ttl later token (ok c) jwks keys claims d held h =
      let same : c ≡ claims = cc in record { keys = keys; held = held; decoded = d ∙ ap ok same }
  first_answer-Checked ttl later token (err text) jwks keys claims d held h =
      elim (Bool-cases (has_part "kid" (lower text))) [
        | inl kid ↦ rw kid (
            last_round-Checked token (jwks_keys fetch decode lower repr true ttl later jwks) claims
              (λ k. jwks_keys-held true ttl later jwks k) (rw kid at h))
        | inr other ↦ cc (rw other at h)
      ]

  first_round-Checked :
      (ttl later : ℕ) (token : String) (x : Result AuthError K × Jwks K W) (claims : Fields)
      → ((keys : K) → x.0 ≡ ok keys → x.1.keys ≡ some keys)
      → (first_round fetch decode lower repr ttl later token x).0 ≡ ok claims
      → Checked token claims (first_round fetch decode lower repr ttl later token x).1
  first_round-Checked ttl later token (err e, jwks) claims held h = cc
  first_round-Checked ttl later token (ok keys, jwks) claims held h =
      first_answer-Checked ttl later token (decode keys token) jwks keys claims refl
        (held keys refl) h

  verify-Checked :
      (ttl now later : ℕ) (token : String) (jwks : Jwks K W) (claims : Fields)
      → (verify fetch decode lower repr ttl now later token jwks).0 ≡ ok claims
      → Checked token claims (verify fetch decode lower repr ttl now later token jwks).1
  unfolding verify
  verify-Checked ttl now later token jwks claims h =
      first_round-Checked ttl later token (jwks_keys fetch decode lower repr false ttl now jwks)
        claims (λ k. jwks_keys-held false ttl now jwks k) h

  -- What an authenticated principal rests on: the static token of a development setting, or claims
  -- that the keys have verified.
  pub data Proven (settings : AuthSettings) (token : String) (p : Principal) (jwks : Jwks K W)
      : Type 0 where
    static :
        settings.dev_insecure_auth ≡ true
        → settings.dev_static_token ≢ ""
        → token ≡ settings.dev_static_token
        → p.groups ≡ settings.dev_static_groups
        → Proven settings token p jwks
    verified :
        settings.dev_insecure_auth ≡ false
        → (claims : Fields) → Checked token claims jwks
        → principal_of fetch decode lower repr settings claims ≡ ok p
        → Proven settings token p jwks

  with_claims-Proven :
      (settings : AuthSettings) (token : String) (x : Result AuthError Fields × Jwks K W)
      (p : Principal)
      → settings.dev_insecure_auth ≡ false
      → ((claims : Fields) → x.0 ≡ ok claims → Checked token claims x.1)
      → (with_claims fetch decode lower repr settings x).0 ≡ ok p
      → Proven settings token p (with_claims fetch decode lower repr settings x).1
  with_claims-Proven settings token (err e, jwks) p plain checked h = cc
  with_claims-Proven settings token (ok claims, jwks) p plain checked h =
      verified plain claims (checked claims refl) h

  dev_principal-Proven :
      (settings : AuthSettings) (token : String) (p : Principal) (jwks : Jwks K W)
      → settings.dev_insecure_auth ≡ true
      → dev_principal settings token ≡ ok p
      → Proven settings token p jwks
  unfolding dev_principal
  dev_principal-Proven settings token p jwks dev h =
      elim (Bool-cases
        (settings.dev_static_token == "" || not (token == settings.dev_static_token))) [
          | inl refused ↦ cc (rw refused at h)
          | inr fits ↦
              let made = rw fits at h in
              let (some_token, same_token) = fitting settings.dev_static_token token fits in
              static dev some_token same_token
                (sym (ap (λ (r : Result AuthError Principal). groups_of r) made))
        ]

  with_token-Proven :
      (settings : AuthSettings) (ttl now later : ℕ) (token : String) (jwks : Jwks K W)
      (p : Principal)
      → (with_token fetch decode lower repr settings ttl now later (ok token) jwks).0 ≡ ok p
      → Proven settings token p
          (with_token fetch decode lower repr settings ttl now later (ok token) jwks).1
  with_token-Proven settings ttl now later token jwks p h =
      let developed : Result AuthError Principal × Jwks K W =
        (dev_principal settings token, jwks) in
      let x =
        with_claims fetch decode lower repr settings
          (verify fetch decode lower repr ttl now later token jwks) in
      let unset : Result AuthError Principal × Jwks K W = (err no_issuer, jwks) in
      let normal = if settings.issuer == "" then unset else x in
      elim (Bool-cases settings.dev_insecure_auth) [
        | inl dev ↦
            let e = if_true developed normal dev in
            subst (λ z. Proven settings token p z.1) (sym e)
              (dev_principal-Proven settings token p jwks dev (subst (λ z. z.0 ≡ ok p) e h))
        | inr plain ↦
            let e = if_false developed normal plain in
            let h' = subst (λ z. z.0 ≡ ok p) e h in
            subst (λ z. Proven settings token p z.1) (sym e)
              (elim (Bool-cases (settings.issuer == "")) [
                | inl none_set ↦
                    absurd (let k = subst (λ z. z.0 ≡ ok p) (if_true unset x none_set) h' in cc)
                | inr set ↦
                    let f = if_false unset x set in
                    subst (λ z. Proven settings token p z.1) (sym f)
                      (with_claims-Proven settings token
                        (verify fetch decode lower repr ttl now later token jwks) p plain
                        (λ c. verify-Checked ttl now later token jwks c)
                        (subst (λ z. z.0 ≡ ok p) f h'))
              ])
      ]

  with_bearer-Proven :
      (settings : AuthSettings) (ttl now later : ℕ) (r : Result AuthError String) (jwks : Jwks K W)
      (p : Principal)
      → (with_token fetch decode lower repr settings ttl now later r jwks).0 ≡ ok p
      → (token : String) × (r ≡ ok token)
        × Proven settings token p
            (with_token fetch decode lower repr settings ttl now later r jwks).1
  with_bearer-Proven settings ttl now later (err e) jwks p h = cc
  with_bearer-Proven settings ttl now later (ok token) jwks p h =
      (token, refl, with_token-Proven settings ttl now later token jwks p h)

  -- A request that is authenticated bore a bearer token; either the development setting is on and
  -- the token is the static one, which is not empty, and the groups are the static ones, or the
  -- setting is off and the principal is that of claims which the keys now kept have verified in the
  -- token.
  pub authenticate-Proven :
      (settings : AuthSettings) (ttl now later : ℕ) (authorization : Option String)
      (jwks : Jwks K W) (p : Principal)
      → (authenticate fetch decode lower repr settings ttl now later authorization jwks).0 ≡ ok p
      → (token : String) × (bearer lower authorization ≡ ok token)
        × Proven settings token p
            (authenticate fetch decode lower repr settings ttl now later authorization jwks).1
  unfolding authenticate
  authenticate-Proven settings ttl now later authorization jwks p h =
      with_bearer-Proven settings ttl now later (bearer lower authorization) jwks p h
