-- ===== src/Mcp/Calls.antt =====
-- A request's way through gateway/app/mcp.py: `McpRouter.handle`, `_tools_list`, `_tools_call` and
-- `_smart_tool`, with the handlers of gateway/app/smart_tools.py and `AuditEvent` of
-- gateway/app/audit.py. The engine, the model and the answer cache are a `Backend` over a state of
-- their own; what the gateway does besides is written to a log.
use repo_mcp.Prelude.{
  ℕ, ◌-◌, ◌/◌, String, Bool, false, Option, none, some, List, [], ◌∷◌, ◌++◌, leb, if◌then◌else◌,
  ◌==◌, ℕ_eq, String_eq, keep, contains, lookup,
}
use repo_mcp.Prelude.Text.{◌<>◌, join, char_count, take_chars, is_blank, decimal}
use repo_mcp.Prelude.Value.{Value, num, str, obj, Fields, end, field, get, truthy, text_of}
use repo_mcp.Prelude.Result.{Result, ok, err}
use repo_mcp.Roles.{Role, tool_capability}
use repo_mcp.Tenants.{Tenant}
use repo_mcp.Mcp.Session.{Session}
use repo_mcp.Mcp.SmartTools.{explain_change_impact, smart_tool_names}
use repo_mcp.Mcp.Authorize.{AccessDenied, authorize}

-- What a call may raise. `handle` answers the first three; the others leave it as they are.
pub data Failure : Type 0 where
  denied : AccessDenied → Failure
  cbm_error llm_error : String → Failure
  key_error : String → Failure
  bad_request : Failure

pub record ToolResult : Type 0 where
  pub content : List Fields
  pub is_error : Bool

pub record CacheHit : Type 0 where
  pub answer : String
  pub kind : String
  -- printed with two decimals
  pub similarity : String
  pub age_seconds : ℕ

pub record AuditEvent : Type 0 where
  pub event : String
  pub principal : String
  pub tenant : String
  pub tool : String
  pub project : Option String
  pub role : Role
  pub outcome : String
  pub reason : Option Failure
  pub llm_model : Option String
  pub cache : Option String

-- What the gateway leaves behind: audit records, and its counters with their labels.
pub data Effect : Type 0 where
  emitted : AuditEvent → Effect
  tool_calls : String → String → Role → String → Effect
  requests : String → String → Effect

-- The engine's session, the model and the answer cache. `definitions` are the engine's tools.
pub record Backend (W : Type 0) : Type 0 where
  pub call_tool : Tenant → String → Fields → W → Result String ToolResult × W
  pub list_tools : Tenant → W → Result String (List Fields) × W
  pub complete : Tenant → String → String → String → ℕ → W → Result String String × W
  pub cache_lookup : Tenant → String → String → Fields → W → Option CacheHit × W
  pub cache_store : Tenant → String → String → Fields → String → W → W

pub record State (W : Type 0) : Type 0 where
  pub world : W
  pub log : List Effect

pub record Config : Type 0 where
  pub llm_enabled : Bool
  pub cbm_repo_root : String
  pub litellm_model : String

-- What the code takes from Python and the HTTP layer: `str` of a value that is no text, `dict` of a
-- value that is no mapping, `json.dumps` of the evidence.
pub record Python : Type 0 where
  pub repr : Value → String
  pub to_dict : Value → Option Fields
  pub dumps : String → String → String

abbrev pub M : Type 0 → Type 0 → Type 0
M W A = State W → Result Failure A × State W

-- a `CbmError` or an `LlmError`, with its message
abbrev pub failing : {A : Type 0} → (String → Failure) → Result String A → Result Failure A
failing error (ok a) = ok a
failing error (err m) = err (error m)

module _ {W A : Type 0} where
  pub pure : A → M W A
  pure a s = (ok a, s)

  pub raise : Failure → M W A
  raise e s = (err e, s)

  -- `args[key]` of a dictionary
  pub or_raise : Option A → Failure → M W A
  or_raise none e s = (err e, s)
  or_raise (some a) e s = (ok a, s)

  pub act : (String → Failure) → (W → Result String A × W) → M W A
  act error f s = let (r, w) = f s.world in (failing error r, record s { world = w })

module _ {W A B : Type 0} where
  abbrev pub continue : Result Failure A → (A → M W B) → M W B
  continue (ok a) f s = f a s
  continue (err e) f s = (err e, s)

  infixl 5 ◌>>=◌
  -- opening this opens `pure`, `raise`, `or_raise` and `act` too
  unfoldable pub ◌>>=◌ : M W A → (A → M W B) → M W B
  unfolding pure raise or_raise act
  ◌>>=◌ m f s = let (r, s') = m s in continue r f s'

abbrev pub write : {W : Type 0} → Effect → State W → State W
write e s = record s { log = s.log ++ e ∷ [] }

-- `_clip(text, limit)`
unfoldable pub clip : String → ℕ → String
clip text limit =
    if leb (char_count text) limit
    then text
    else take_chars limit text
      <> "\n… ["
      <> decimal (char_count text - limit)
      <> " characters truncated]"

-- `_label_cached(hit)`
unfoldable pub label_cached : CacheHit → String
label_cached hit =
    let minutes = hit.age_seconds / 60 in
    let when =
      if leb 3600 hit.age_seconds
      then decimal (hit.age_seconds / 3600) <> "h"
      else decimal (if leb minutes 1 then 1 else minutes) <> "m" in
    let how =
      if hit.kind == "exact"
      then "identical question"
      else "similar question, " <> hit.similarity in
    hit.answer <> "\n\n_Recalled from the answer cache (" <> how <> ", " <> when <> " old)._"

abbrev pub impact_system : String
impact_system =
    "You are a senior software architect. You are given the graph-computed impact set of a change. Rely only on the supplied data; never invent files, functions or risks that are not present. Answer with: (1) a one-sentence summary, (2) the three to five riskiest affected areas and why, (3) what should be tested. Be concise."

abbrev pub ask_system : String
ask_system =
    "You are a codebase assistant. You are given graph evidence collected to answer a question. Answer only from that evidence. If it is insufficient, say so plainly and state which additional query would help. Cite the qualified name of every symbol you mention."

abbrev pub get_or : String → Fields → Value → Value
get_or k fs d = elim (get k fs) [ none ↦ d | some v ↦ v ]

abbrev pub is_text_part : Fields → Bool
is_text_part part = elim (get "type" part) [ some (str t) ↦ t == "text" | _ ↦ false ]

-- the arguments of `detect_changes`
unfoldable pub impact_arguments : Value → Fields → Fields
impact_arguments project args = field "project" project (
    field "scope" (str "impact") (
      field "direction" (get_or "direction" args (str "inbound")) (
        field "depth" (get_or "depth" args (num 2)) (
          field "base_branch" (get_or "base_branch" args (str "main"))
            (field "format" (str "json") end)))))

module _ {W : Type 0} (py : Python) (cfg : Config) (b : Backend W) where
  -- the texts of the parts, where all of them are texts
  unfoldable pub part_texts : List Fields → Option (List String)
  part_texts [] = some []
  part_texts (part ∷ parts) = elim (get_or "text" part (str "")) [
    | str t ↦ elim (part_texts parts) [ none ↦ none | some ts ↦ some (t ∷ ts) ]
    | _ ↦ none
  ]

  -- `ToolResult.text`, which raises a `TypeError` where a text part has no text but another value
  unfoldable pub result_text : ToolResult → M W String
  result_text r = do
    texts ← or_raise (part_texts (keep is_text_part r.content)) bad_request
    pure (join "\n" texts)

  -- what follows the call of `detect_changes`
  unfoldable pub explain_changes : Session → Value → ToolResult → M W String
  explain_changes s project changes = do
    evidence ← result_text changes
    if changes.is_error
        then pure ("detect_changes failed:\n" <> evidence)
        else if is_blank evidence
        then pure "No changes detected."
        else act llm_error (
            b.complete s.tenant s.principal.username impact_system
              ("Project: " <> text_of py.repr project <> "\n\nImpact set:\n" <> clip evidence 20000)
              1500)

  unfoldable pub run_explain_change_impact : Session → Fields → M W String
  run_explain_change_impact s args = do
    project ← or_raise (get "project" args) (key_error "project")
    changes ← act cbm_error (b.call_tool s.tenant "detect_changes" (impact_arguments project args))
    explain_changes s project changes

  unfoldable pub run_ask_codebase : Session → Fields → M W String
  run_ask_codebase s args = do
    project ← or_raise (get "project" args) (key_error "project")
    question ← or_raise (get "question" args) (key_error "question")
    architecture ←
        act cbm_error (b.call_tool s.tenant "get_architecture" (field "project" project end))
    search ← act cbm_error (
        b.call_tool s.tenant "search_graph"
          (field "project" project (field "query" question (field "limit" (num 25) end))))
    graph ← result_text architecture
    found ← result_text search
    let evidence = py.dumps (clip graph 8000) (clip found 12000)
    act llm_error (
        b.complete s.tenant s.principal.username ask_system
          ("Question: "
            <> text_of py.repr question
            <> "\nProject: "
            <> text_of py.repr project
            <> "\n\nEvidence:\n"
            <> evidence)
          2000)

  -- `HANDLERS[name]`, asked only for a name in `SMART_TOOL_NAMES`
  unfoldable pub run_handler : Session → String → Fields → M W String
  run_handler s name args =
      if name == explain_change_impact
      then run_explain_change_impact s args
      else run_ask_codebase s args

  -- the rest of `_smart_tool`, behind the cache's answer
  unfoldable pub recall :
      Session → String → Fields → AuditEvent → Option CacheHit → M W (String × AuditEvent)
  recall s name args event (some h) =
      pure (label_cached h, record event { cache = some h.kind; llm_model = none })
  recall s name args event none = do
    text ← run_handler s name args
    act cbm_error
        (λ w. (ok (text, event), b.cache_store s.tenant s.principal.username name args text w))

  -- `_smart_tool`: the text, and the audit event as the cache leaves it
  unfoldable pub smart_tool : Session → String → Fields → AuditEvent → M W (String × AuditEvent)
  smart_tool s name args event st =
      let (hit, w) = b.cache_lookup s.tenant s.principal.username name args st.world in
      recall s name args event hit (record st { world = w })

  unfoldable pub text_reply : String → ToolResult
  text_reply text = record {
    content = field "type" (str "text") (field "text" (str text) end) ∷ [];
    is_error = false;
  }

  -- the `try` block of `_tools_call`
  unfoldable pub perform : Session → String → Fields → AuditEvent → M W (ToolResult × AuditEvent)
  perform s name args event =
      if contains smart_tool_names name
      then (do (text, event') ← smart_tool s name args event; pure (text_reply text, event'))
      else do
        outcome ← act cbm_error (b.call_tool s.tenant name args)
        pure
            (outcome, (if outcome.is_error then record event { outcome = "tool_error" } else event))

  unfoldable pub tool_label : String → String
  tool_label name = elim (lookup name tool_capability) [
    | some c ↦ name
    | none ↦ if contains smart_tool_names name then name else "unknown"
  ]

  -- one audit record and one count, with the event's outcome
  unfoldable pub settle : Session → String → AuditEvent → State W → State W
  settle s name event st =
      write (tool_calls (tool_label name) s.tenant.name s.role event.outcome)
        (write (emitted event) st)

  -- the end of `_tools_call`; an exception that it does not name passes through
  unfoldable pub conclude :
      Session
      → String
      → AuditEvent
      → Result Failure (ToolResult × AuditEvent)
      → State W
      → Result Failure ToolResult × State W
  conclude s name event (ok (reply, event')) st = (ok reply, settle s name event' st)
  conclude s name event (err (cbm_error m)) st = (
    err (cbm_error m),
    settle s name (record event { outcome = "error"; reason = some (cbm_error m) }) st,
  )
  conclude s name event (err (llm_error m)) st = (
    err (llm_error m),
    settle s name (record event { outcome = "error"; reason = some (llm_error m) }) st,
  )
  conclude s name event (err e) st = (err e, st)

  unfoldable pub new_event : Session → String → Fields → AuditEvent
  new_event s name args = record {
    event = "tools/call";
    principal = s.principal.username;
    tenant = s.tenant.name;
    tool = name;
    project = elim (get "project" args) [
      | none ↦ none
      | some v ↦ if truthy v then some (text_of py.repr v) else none
    ];
    role = s.role;
    outcome = "ok";
    reason = none;
    llm_model = none;
    cache = none;
  }

  unfoldable pub call : Session → String → Fields → M W ToolResult
  call s name args st =
      let event = new_event s name args in
      let started =
        if contains smart_tool_names name
        then record event { llm_model = some cfg.litellm_model }
        else event in
      elim (authorize py.repr cfg.llm_enabled cfg.cbm_repo_root s name args) [
        | err e ↦ (
          err (denied e),
          settle s name (record event { outcome = "denied"; reason = some (denied e) }) st,
        )
        | ok u ↦ let (r, st') = perform s name args started st in conclude s name started r st'
      ]

  -- `str(params.get("name") or "")`
  abbrev pub text_or_empty : Option Value → String
  text_or_empty none = ""
  text_or_empty (some v) = if truthy v then text_of py.repr v else ""

  -- `dict(params.get("arguments") or {})`
  abbrev pub dict_or_empty : Option Value → Option Fields
  dict_or_empty none = some end
  dict_or_empty (some (obj fs)) = some fs
  dict_or_empty (some v) = if truthy v then py.to_dict v else some end

  unfoldable pub tools_call : Session → Fields → M W ToolResult
  tools_call s params = elim (dict_or_empty (get "arguments" params)) [
    | none ↦ raise bad_request
    | some args ↦ call s (text_or_empty (get "name" params)) args
  ]
