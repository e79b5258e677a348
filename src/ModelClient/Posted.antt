-- ===== src/ModelClient/Posted.antt =====
-- Where gateway/app/llm.py posts, and with whose key.
use repo_mcp.Prelude.{
  true, false, Bool, if◌then◌else◌, ℕ, suc, ◌≤◌, String, ◌≡◌, refl, ap, ◌∙◌, ◌⊎◌, inl, inr, ◌&&◌,
  Option, none, some, List, [], ◌∷◌, ◌++◌, ◌≢◌, eq_iff, ◌==◌, arith, leb, Bool-cases, Option-cases,
  and_iff, ℕ_eq, String_eq, length, All,
}
use repo_mcp.Prelude.Value.{Value, Fields}
use repo_mcp.Prelude.Result.{Result, ok, err}
use repo_mcp.ModelClient.{
  LlmError, enabled, with_key, complete, api_key, shared_key, squad_key, Result, payload_of,
  LlmSettings, Reply, lost, answered, Post, Wire, trimmed, chat_route, settle_chat, posted, chat,
  is_unreachable, routed,
}
use repo_mcp.Tenants.{Tenant}

-- The key that a squad is due: what the environment has under the squad's own variable, where it has
-- one, and else the shared key; an empty text is no key.
pub data Due (s : LlmSettings) (environment : String → Option String) (tenant : Tenant)
    (key : String) : Type 0 where
  own :
      (variable : String)
      → tenant.litellm_key_env ≡ some variable
      → variable ≢ ""
      → environment variable ≡ some key
      → key ≢ ""
      → Due s environment tenant key
  shared :
      (tenant.litellm_key_env ≡ none) ⊎ (tenant.litellm_key_env ≡ some "")
      → s.litellm_api_key ≡ key
      → key ≢ ""
      → Due s environment tenant key

shared_key-ok :
    (s : LlmSettings) {key : String}
    → shared_key s ≡ ok key
    → (s.litellm_api_key ≡ key) × (key ≢ "")
shared_key-ok s {key} h = elim (Bool-cases (s.litellm_api_key == "")) [
  | inl empty ↦ cc (rw empty at h)
  | inr full ↦
      let same : s.litellm_api_key ≡ key = cc (rw full at h) in
      (same, λ e. cc (full, (eq_iff s.litellm_api_key "").1 (same ∙ e)))
]

squad_key-ok :
    (environment : String → Option String) (variable : String) {key : String}
    → squad_key environment variable ≡ ok key
    → (environment variable ≡ some key) × (key ≢ "")
squad_key-ok environment variable {key} h = elim (Option-cases (environment variable)) [
  | inl unset ↦ cc (rw (unset, squad_key) at h)
  | inr (k, there) ↦ elim (Bool-cases (k == "")) [
    | inl empty ↦ cc (rw (there, squad_key, empty) at h)
    | inr full ↦
        let same : k ≡ key = cc (rw (there, squad_key, full) at h) in
        (there ∙ ap some same, λ e. cc (full, (eq_iff k "").1 (same ∙ e)))
  ]
]

api_key-Due :
    (s : LlmSettings) (environment : String → Option String) (tenant : Tenant) {key : String}
    → api_key s environment tenant ≡ ok key
    → Due s environment tenant key
unfolding api_key
api_key-Due s environment tenant h = elim (Option-cases tenant.litellm_key_env) [
  | inl unnamed ↦
      let (same, full) = shared_key-ok s (rw (unnamed, api_key) at h) in
      shared (inl unnamed) same full
  | inr (variable, named) ↦ elim (Bool-cases (variable == "")) [
    | inl empty ↦
        let (same, full) = shared_key-ok s (rw (named, api_key, empty) at h) in
        shared (inr (named ∙ ap some ((eq_iff variable "").0 empty))) same full
    | inr given ↦
        let (there, full) = squad_key-ok environment variable (rw (named, api_key, given) at h) in
        own variable named (λ e. cc (given, (eq_iff variable "").1 e)) there full
  ]
]

-- what holds of both branches
either : {A : Type 0} (b : Bool) (P : A → Type 0) {x y : A} → P x → P y → P (if b then x else y)
either true P p q = p
either false P p q = q

module _ (server : List Post → Post → Reply) where
  settle_chat-posts :
      (model url : String) (reply : Reply) (w : Wire)
      → (settle_chat server model url reply w).1.posts ≡ w.posts
  settle_chat-posts model url lost w = refl
  settle_chat-posts model url (answered status body) w = elim (Bool-cases (leb 500 status)) [
    | inl down ↦ rw down refl
    | inr up ↦ elim (Bool-cases (leb 400 status)) [
      | inl refused ↦ rw (up, refused) refl
      | inr fine ↦ rw (up, fine) refl
    ]
  ]

  abbrev pub chat_post : String → String → Fields → Post
  chat_post url key payload = record {
    address = trimmed url;
    path = "/chat/completions";
    key = key;
    body = payload;
  }

  chat-posts :
      (url model key : String) (payload : Fields) (w : Wire)
      → (chat server url model key payload w).1.posts ≡ chat_post url key payload ∷ w.posts
  unfolding chat
  chat-posts url model key payload w =
      settle_chat-posts model url (server w.posts (chat_post url key payload))
        (posted server (chat_post url key payload) w)

  -- Of a completion: at most two posts, all with one key and one body, to the proxy or the model's own
  -- address, and a second one only where the way around the proxy is allowed.
  pub record Posted (s : LlmSettings) (key : String) (payload : Fields) (w w' : Wire) : Type 0 where
    pub new : List Post
    pub grown : w'.posts ≡ new ++ w.posts
    pub few : length new ≤ 2
    pub twice : length new ≡ 2 → s.headroom_fallback ≡ true
    pub sent :
        All
          (λ (p : Post).
            (p.key ≡ key)
            × (p.body ≡ payload)
            × ((p.address ≡ trimmed s.litellm_base_url)
                ⊎ ((url : String) × (chat_route s ≡ some url) × (p.address ≡ trimmed url))))
          new

  direct-Posted :
      (s : LlmSettings) (key : String) (payload : Fields) (w : Wire)
      → Posted s key payload w (chat server s.litellm_base_url s.litellm_model key payload w).1
  direct-Posted s key payload w = record {
    new = chat_post s.litellm_base_url key payload ∷ [];
    grown = chat-posts s.litellm_base_url s.litellm_model key payload w;
    few = omega arith;
    twice = λ e. absurd (omega arith);
    sent = ((refl, refl, inl refl), tt);
  }

  routed-Posted :
      (o : Option String) (s : LlmSettings) (key : String) (payload : Fields) (w : Wire)
      → chat_route s ≡ o
      → Posted s key payload w (routed server o s key payload w).1
  routed-Posted none s key payload w e = direct-Posted s key payload w
  routed-Posted (some url) s key payload w e =
      let first = chat server url s.litellm_model key payload w in
      let sent = chat-posts url s.litellm_model key payload w in
      elim (Bool-cases (is_unreachable server first.0 && s.headroom_fallback)) [
        | inr final ↦ rw final (record {
          new = chat_post url key payload ∷ [];
          grown = sent;
          few = omega arith;
          twice = λ k. absurd (omega arith);
          sent = ((refl, refl, inr (url, e, refl)), tt);
        })
        | inl around ↦ rw around (record {
          new = chat_post s.litellm_base_url key payload ∷ chat_post url key payload ∷ [];
          grown =
              chat-posts s.litellm_base_url s.litellm_model key payload
                (record first.1 { fallbacks = suc first.1.fallbacks })
              ∙ ap (λ ps. chat_post s.litellm_base_url key payload ∷ ps) sent;
          few = omega arith;
          twice = λ k. ((and_iff _ _).0 around).1;
          sent = ((refl, refl, inl refl), ((refl, refl, inr (url, e, refl)), tt));
        })
      ]

  with_key-Posted :
      (s : LlmSettings) (payload : Fields) (r : Result LlmError String) (w : Wire)
      → let done = with_key server r (λ key. routed server (chat_route s) s key payload w) w in
        (done.1.posts ≡ w.posts) ⊎ ((key : String) × (r ≡ ok key) × Posted s key payload w done.1)
  with_key-Posted s payload (err e) w = inl refl
  with_key-Posted s payload (ok key) w =
      inr (key, refl, routed-Posted (chat_route s) s key payload w refl)

  -- A completion posts nothing, or at most twice, each time with the key that the squad is due, which
  -- is the one in its own variable where it names one and else the shared one, and with the one body,
  -- to the address of the model gateway or to that of the compression proxy, and twice only where the
  -- way around the proxy is allowed.
  pub complete-Posted :
      (s : LlmSettings) (environment : String → Option String) (tenant : Tenant)
      (username system user : String) (max_tokens : ℕ) (w : Wire)
      → let w' = (complete server s environment tenant username system user max_tokens w).1 in
        (w'.posts ≡ w.posts)
        ⊎ ((key : String) × Due s environment tenant key
            × Posted s key (payload_of server s tenant username system user max_tokens) w w')
  unfolding complete
  complete-Posted s environment tenant username system user max_tokens w =
      let payload = payload_of server s tenant username system user max_tokens in
      let sent = with_key-Posted s payload (api_key s environment tenant) w in
      either (enabled s)
        (λ (x : Result LlmError Value × Wire).
          (x.1.posts ≡ w.posts)
          ⊎ ((key : String) × Due s environment tenant key × Posted s key payload w x.1))
        (elim sent [
          | inl none_sent ↦ inl none_sent
          | inr (key, e, done) ↦ inr (key, api_key-Due s environment tenant e, done)
        ])
        (inl refl)
