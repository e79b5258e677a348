-- ===== src/ModelClient.antt =====
-- gateway/app/llm.py: completions, which may go through the compression proxy, and embeddings, which
-- never do. The server behind each address is a parameter: what it answers to a post may depend on
-- everything posted before. Of a settled HTTP client only its address matters, and of an answer its
-- status and its body as JSON. The environment is a parameter.
pub mod Posted
mod Tests
use Prim.Native.Char.{code}
use repo_mcp.Prelude.{
  suc, ℕ, leb, ◌/◌, String, Bool, true, false, not, ◌&&◌, ◌||◌, Option, none, some, List, ◌∷◌,
  nat_eq, if◌then◌else◌, ◌==◌, ℕ_eq, String_eq,
}
use repo_mcp.Prelude.Text.{◌<>◌, decimal}
use repo_mcp.Prelude.Value.{num, Value, str, arr, obj, nil, cons, Fields, get, truthy, field, end}
use repo_mcp.Prelude.Result.{Result, ok, err, guard, ◌>>◌, ◌>>=◌}
use repo_mcp.Tenants.{Tenant}

-- `LlmError` and `LlmUnreachable`, and the `TypeError` of a body of another shape, which nothing catches
pub data LlmError : Type 0 where
  disabled no_base_url no_model no_key malformed wrong_type : LlmError
  key_unset unreachable : String → LlmError
  refused : ℕ → LlmError

-- `Settings`, as far as it is read here
pub record LlmSettings : Type 0 where
  pub smart_tools_enabled : Bool
  pub litellm_base_url : String
  pub litellm_api_key : String
  pub litellm_model : String
  pub headroom_enabled : Bool
  pub headroom_base_url : String
  pub headroom_fallback : Bool

-- What comes of a post: an `httpx.HTTPError`, or a status and a body, which need not be JSON.
pub data Reply : Type 0 where
  lost : Reply
  answered : ℕ → Option Value → Reply

pub record Post : Type 0 where
  pub address : String
  pub path : String
  pub key : String
  pub body : Fields

-- the posts so far, the newest first, and the counts of LLM_CALLS and of COMPRESSION_FALLBACKS
pub record Wire : Type 0 where
  pub posts : List Post
  pub calls : List (String × String)
  pub fallbacks : ℕ

-- `url.rstrip("/")`
unfoldable pub trimmed : String → String
trimmed String.[] = String.[]
trimmed (String.◌∷◌ c s) =
    let rest = trimmed s in
    if nat_eq (code c) 47 && rest == "" then String.[] else String.◌∷◌ c rest

-- `_chat_route`
unfoldable pub chat_route : LlmSettings → Option String
chat_route s =
    let url = trimmed s.headroom_base_url in
    if not s.headroom_enabled || url == "" then none else some url

-- `enabled`
abbrev pub enabled : LlmSettings → Bool
enabled s = s.smart_tools_enabled && not (s.litellm_base_url == "")

abbrev pub shared_key : LlmSettings → Result LlmError String
shared_key s = if s.litellm_api_key == "" then err no_key else ok s.litellm_api_key

abbrev pub squad_key : (String → Option String) → String → Result LlmError String
squad_key environment variable = elim (environment variable) [
  | none ↦ err (key_unset variable)
  | some key ↦ if key == "" then err (key_unset variable) else ok key
]

-- `_api_key`: the squad's own key where it has one
unfoldable pub api_key : LlmSettings → (String → Option String) → Tenant → Result LlmError String
api_key s environment tenant = elim tenant.litellm_key_env [
  | none ↦ shared_key s
  | some variable ↦ if variable == "" then shared_key s else squad_key environment variable
]

-- `value[key]`, and `value[0]`
abbrev pub item : String → Value → Result LlmError Value
item key (obj fs) = elim (get key fs) [ none ↦ err malformed | some v ↦ ok v ]
item key v = err wrong_type

abbrev pub first_item : Value → Result LlmError Value
first_item (arr nil) = err malformed
first_item (arr (cons v vs)) = ok v
first_item (obj fs) = err malformed
first_item (str String.[]) = err malformed
first_item (str (String.◌∷◌ c s)) = ok (str (String.◌∷◌ c String.[]))
first_item v = err wrong_type

abbrev pub parsed : Option Value → Result LlmError Value
parsed none = err malformed
parsed (some v) = ok v

-- `response.json()["choices"][0]["message"]["content"] or ""`
unfoldable pub content_of : Option Value → Result LlmError Value
content_of body = do
  document ← parsed body
  choices ← item "choices" document
  choice ← first_item choices
  message ← item "message" choice
  content ← item "content" message
  ok (if truthy content then content else str "")

abbrev pub is_list : Value → Bool
is_list (arr (cons v vs)) = true
is_list v = false

-- `response.json()["data"][0]["embedding"]`, which must be a list with something in it
unfoldable pub vector_of : Option Value → Result LlmError Value
vector_of body = do
  document ← parsed body
  rows ← item "data" document
  row ← first_item rows
  vector ← item "embedding" row
  guard (is_list vector) malformed
  ok vector

-- the label of an outcome: nothing is counted for an exception that is not caught
abbrev pub counted :
    String → Result LlmError Value → List (String × String) → List (String × String)
counted model (ok v) calls = (model, "ok") ∷ calls
counted model (err malformed) calls = (model, "malformed") ∷ calls
counted model (err e) calls = calls

module _ (server : List Post → Post → Reply) where
  abbrev pub note_call : String → String → Wire → Wire
  note_call model label w = record w { calls = (model, label) ∷ w.calls }

  abbrev pub read_body :
      (Option Value → Result LlmError Value)
      → String
      → Option Value
      → Wire
      → Result LlmError Value × Wire
  read_body read model body w = (read body, record w { calls = counted model (read body) w.calls })

  -- what a chat makes of a reply: a server error is as good as no server
  abbrev pub settle_chat : String → String → Reply → Wire → Result LlmError Value × Wire
  settle_chat model url lost w = (err (unreachable url), note_call model "unreachable" w)
  settle_chat model url (answered status body) w =
      if leb 500 status
      then (err (unreachable url), note_call model "http_5xx" w)
      else if leb 400 status
      then (err (refused status), note_call model "http_4xx" w)
      else read_body content_of model body w

  -- what an embedding makes of a reply: every error is final
  abbrev pub settle_embedding : String → Reply → Wire → Result LlmError Value × Wire
  settle_embedding model lost w = (err (unreachable "LiteLLM"), note_call model "unreachable" w)
  settle_embedding model (answered status body) w =
      if leb 400 status
      then (err (refused status), note_call model ("http_" <> decimal (status / 100) <> "xx") w)
      else read_body vector_of model body w

  abbrev pub posted : Post → Wire → Wire
  posted p w = record w { posts = p ∷ w.posts }

  -- `_chat`
  unfoldable pub chat : String → String → String → Fields → Wire → Result LlmError Value × Wire
  chat url model key payload w =
      let p : Post = record {
        address = trimmed url;
        path = "/chat/completions";
        key = key;
        body = payload;
      } in
      settle_chat model url (server w.posts p) (posted p w)

  abbrev pub is_unreachable : Result LlmError Value → Bool
  is_unreachable (err (unreachable url)) = true
  is_unreachable r = false

  -- the way around the proxy
  abbrev pub or_direct :
      LlmSettings → String → Fields → Result LlmError Value × Wire → Result LlmError Value × Wire
  or_direct s key payload (r, w) =
      if is_unreachable r && s.headroom_fallback
      then chat s.litellm_base_url s.litellm_model key payload
          (record w { fallbacks = suc w.fallbacks })
      else (r, w)

  abbrev pub routed :
      Option String → LlmSettings → String → Fields → Wire → Result LlmError Value × Wire
  routed none s key payload w = chat s.litellm_base_url s.litellm_model key payload w
  routed (some url) s key payload w =
      or_direct s key payload (chat url s.litellm_model key payload w)

  abbrev pub message : String → String → Value
  message role content = obj (field "role" (str role) (field "content" (str content) end))

  abbrev pub payload_of : LlmSettings → Tenant → String → String → String → ℕ → Fields
  payload_of s tenant username system user max_tokens = field "model" (str s.litellm_model) (
      field "max_tokens" (num max_tokens) (
        field "messages" (arr (cons (message "system" system) (cons (message "user" user) nil))) (
          field "user" (str username) (
            field "metadata"
              (obj (field "tags" (arr (cons (str ("squad:" <> tenant.name)) nil)) end)) end))))

  abbrev pub with_key :
      Result LlmError String
      → (String → Result LlmError Value × Wire)
      → Wire
      → Result LlmError Value × Wire
  with_key (err e) f w = (err e, w)
  with_key (ok key) f w = f key

  -- `complete`
  unfoldable pub complete :
      LlmSettings
      → (String → Option String)
      → Tenant
      → String
      → String
      → String
      → ℕ
      → Wire
      → Result LlmError Value × Wire
  complete s environment tenant username system user max_tokens w =
      if enabled s
      then with_key (api_key s environment tenant)
          (λ key.
            routed (chat_route s) s key (payload_of s tenant username system user max_tokens) w)
          w
      else (err disabled, w)

  abbrev pub embed_with :
      LlmSettings → String → String → String → String → Wire → Result LlmError Value × Wire
  embed_with s username text model key w =
      let p : Post = record {
        address = trimmed s.litellm_base_url;
        path = "/embeddings";
        key = key;
        body =
            field "model" (str model) (field "input" (str text) (field "user" (str username) end));
      } in
      settle_embedding model (server w.posts p) (posted p w)

  -- `embed`
  unfoldable pub embed :
      LlmSettings
      → (String → Option String)
      → Tenant
      → String
      → String
      → String
      → Wire
      → Result LlmError Value × Wire
  embed s environment tenant username text model w =
      if s.litellm_base_url == ""
      then (err no_base_url, w)
      else if model == ""
      then (err no_model, w)
      else with_key (api_key s environment tenant) (λ key. embed_with s username text model key w) w
