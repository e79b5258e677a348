-- ===== src/Mcp/Router.antt =====
-- `McpRouter.handle` and `_tools_list` of gateway/app/mcp.py: one JSON-RPC message and its answer.
use repo_mcp.Prelude.{
  String, Bool, false, Option, none, some, List, [], ◌∷◌, ◌++◌, map, if◌then◌else◌, ◌==◌, ℕ_eq,
  String_eq, keep, contains,
}
use repo_mcp.Prelude.Value.{Value, null, str, obj, Fields, end, get, truthy}
use repo_mcp.Prelude.Result.{Result, ok, err}
use repo_mcp.Mcp.Session.{Session, effective_tools}
use repo_mcp.Mcp.SmartTools.{smart_tool_names}
use repo_mcp.Mcp.Authorize.{AccessDenied, smart_tools_for}
use repo_mcp.Mcp.Calls.{
  Failure, denied, cbm_error, llm_error, bad_request, ToolResult, requests, Backend, Config, Python,
  M, ◌>>=◌, pure, raise, act, write, tools_call,
}

-- A tool of the engine, or one of `SMART_TOOL_DEFINITIONS` by its name.
pub data Listed : Type 0 where
  engine_definition : Fields → Listed
  smart_definition : String → Listed

pub data Payload : Type 0 where
  initialized pong : Payload
  tools : List Listed → Payload
  called : ToolResult → Payload

-- The codes -32601, -32001 and -32000.
pub data Problem : Type 0 where
  unknown_method : Option Value → Problem
  access_denied : AccessDenied → Problem
  call_failed : Failure → Problem

pub data Response : Type 0 where
  result : Value → Payload → Response
  error : Value → Problem → Response

abbrev pub method_text : Option Value → Option String
method_text (some (str t)) = some t
method_text _ = none

abbrev pub known_methods : List String
known_methods = "initialize" ∷ "tools/list" ∷ "tools/call" ∷ "ping" ∷ []

unfoldable pub label : Option String → String
label none = "other"
label (some m) = if contains known_methods m then m else "other"

unfoldable pub named_in : List String → Fields → Bool
named_in allowed tool = elim (method_text (get "name" tool)) [
  | none ↦ false
  | some n ↦ contains allowed n
]

-- `message.get("params") or {}`, which must be a mapping
abbrev pub params_of : Option Value → Option Fields
params_of none = some end
params_of (some (obj fs)) = some fs
params_of (some v) = if truthy v then none else some end

module _ {W : Type 0} (py : Python) (cfg : Config) (b : Backend W) where
  unfoldable pub visible : Session → List Fields → List Listed
  visible s engine_tools =
      map engine_definition (keep (named_in (effective_tools s)) engine_tools)
      ++ map smart_definition (keep (contains (smart_tools_for s cfg.llm_enabled)) smart_tool_names)

  unfoldable pub tools_list : Session → M W (List Listed)
  tools_list s = do
    engine_tools ← act cbm_error (b.list_tools s.tenant)
    pure (visible s engine_tools)

  unfoldable pub run_call : Session → Option Fields → M W Payload
  run_call s none = raise bad_request
  run_call s (some params) = do reply ← tools_call py cfg b s params; pure (called reply)

  unfoldable pub run_list : Session → M W Payload
  run_list s = do listed ← tools_list s; pure (tools listed)

  -- the method's result, or `none` for a method that is not known
  unfoldable pub run_method : Session → Option String → Fields → Option (M W Payload)
  run_method s none message = none
  run_method s (some m) message =
      if m == "initialize"
      then some (pure initialized)
      else if m == "tools/list"
      then some (run_list s)
      else if m == "tools/call"
      then some (run_call s (params_of (get "params" message)))
      else if m == "ping"
      then some (pure pong)
      else none

  -- the `except` clauses of `handle`, and its counters
  unfoldable pub answer : Value → String → Result Failure Payload → M W (Option Response)
  answer id m (ok p) st = (ok (some (result id p)), write (requests m "ok") st)
  answer id m (err (denied e)) st =
      (ok (some (error id (access_denied e))), write (requests m "denied") st)
  answer id m (err (cbm_error t)) st =
      (ok (some (error id (call_failed (cbm_error t)))), write (requests m "error") st)
  answer id m (err (llm_error t)) st =
      (ok (some (error id (call_failed (llm_error t)))), write (requests m "error") st)
  answer id m (err e) st = (err e, st)

  unfoldable pub respond : Session → Value → Fields → M W (Option Response)
  respond s id message st =
      let method = get "method" message in
      let m = label (method_text method) in
      elim (run_method s (method_text method) message) [
        | none ↦
            (ok (some (error id (unknown_method method))), write (requests m "unknown_method") st)
        | some run ↦ let (r, st') = run st in answer id m r st'
      ]

  -- a message with no id is a notification, and gets no response
  unfoldable pub handle : Session → Fields → M W (Option Response)
  handle s message st = elim (get "id" message) [
    | none ↦ (ok none, st)
    | some null ↦ (ok none, st)
    | some id ↦ respond s id message st
  ]
