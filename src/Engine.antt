-- ===== src/Engine.antt =====
-- gateway/app/cbm.py: an engine process per squad, and the calls over its pipe. The engine is an
-- arbitrary process: `spawn` says of each start whether it succeeds and which lines the process will
-- have written, in order. Where no line is left, nothing comes before the time limit, which is counted
-- from line to line. Calls of one session follow one another, as its lock has it.
pub mod Own
pub mod Replies
pub mod Recovers
pub mod Closed
pub mod Pool
pub mod Undisturbed
mod Tests
use repo_mcp.Prelude.{
  ℕ, suc, ◌-◌, String, Bool, false, Option, none, some, List, [], ◌∷◌, if◌then◌else◌, ◌==◌, ℕ_eq,
  String_eq,
}
use repo_mcp.Prelude.Value.{
  Value, null, bool, num, str, arr, obj, nil, Fields, end, field, get, truthy,
}
use repo_mcp.Prelude.Result.{Result, ok, err}
use repo_mcp.Tenants.Document.{or_else}

-- What a read of the pipe yields: its end, and whether the process is known to have exited by then; a
-- line that is no JSON; a line.
pub data Arrival : Type 0 where
  closed : Bool → Arrival
  noise : Arrival
  line : Value → Arrival

-- `CbmError`, and the `AttributeError` of an answer that is no mapping
pub data CbmError : Type 0 where
  cannot_start timed_out exited not_mapping : CbmError
  engine_error : Fields → CbmError

-- what was written to the process; a notification has no id
pub record Sent : Type 0 where
  pub id : Option ℕ
  pub method : String
  pub params : Fields

pub record Process : Type 0 where
  pub exited : Bool
  pub incoming : List Arrival
  pub written : List Sent

-- `CbmSession`: `starts` is the number of processes so far, `gauge` what it added to CBM_SESSIONS.
pub record Session : Type 0 where
  pub process : Option Process
  pub next_id : ℕ
  pub starts : ℕ
  pub gauge : ℕ
  pub last_used : ℕ

-- `ToolResult`
pub record ToolResult : Type 0 where
  pub content : Value
  pub is_error : Bool

abbrev pub new_session : ℕ → Session
new_session now = record { process = none; next_id = 0; starts = 0; gauge = 0; last_used = now }

-- what CBM_SESSIONS shows after `close`: a process that is known to have exited is not counted off
abbrev pub counted_off : Option Process → ℕ → ℕ
counted_off none gauge = gauge
counted_off (some p) gauge = if p.exited then gauge else gauge - 1

-- `close`
unfoldable pub close : Session → Session
close s = record s { process = none; gauge = counted_off s.process s.gauge }

-- `message.get("id") == request_id`, where `True` equals 1 and `False` equals 0
abbrev pub names_id : Option Value → ℕ → Bool
names_id (some (num n)) id = n == id
names_id (some (bool b)) id = (if b then 1 else 0) == id
names_id _ id = false

abbrev pub error_of : Value → CbmError
error_of (obj fs) = engine_error fs
error_of _ = not_mapping

-- `message.get("result") or {}`
abbrev pub plain_result : Option Value → Value
plain_result none = obj end
plain_result (some v) = if truthy v then v else obj end

-- what is done with the message of the request's id
abbrev pub settle_message : Fields → Result CbmError Value
settle_message fs = elim (get "error" fs) [
  | none ↦ ok (plain_result (get "result" fs))
  | some e ↦ err (error_of e)
]

-- How the loop of `_request` ends: with what it raises or returns, whether the session is closed, and
-- what is left of the pipe.
pub record Answer : Type 0 where
  pub result : Result CbmError Value
  pub closes : Option Bool
  pub rest : List Arrival

unfoldable pub await_reply : ℕ → List Arrival → Answer
await_reply id [] = record { result = err timed_out; closes = some false; rest = [] }
await_reply id (closed known ∷ rest) = record {
  result = err exited;
  closes = some known;
  rest = rest;
}
await_reply id (noise ∷ rest) = await_reply id rest
await_reply id (line (obj fs) ∷ rest) =
    let later = await_reply id rest in
    if names_id (get "id" fs) id
    then record { result = settle_message fs; closes = none; rest = rest }
    else later
await_reply id (line v ∷ rest) = record { result = err not_mapping; closes = none; rest = rest }

-- the process after a message was written to it
abbrev pub send : Sent → List Arrival → Process → Process
send sent rest p = record { exited = p.exited; incoming = rest; written = sent ∷ p.written }

abbrev pub after_reply : Option Bool → Process → ℕ → Session → Session
after_reply none p id s = record s { process = some p; next_id = id }
after_reply (some known) p id s = close (record s {
  process = some (record { exited = known; incoming = p.incoming; written = p.written });
  next_id = id;
})

-- `_request`, on the process of the session
unfoldable pub request : String → Fields → Process → Session → Result CbmError Value × Session
request method params p s =
    let id = suc s.next_id in
    let answer = await_reply id p.incoming in
    let sent : Sent = record { id = some id; method = method; params = params } in
    (answer.result, after_reply answer.closes (send sent answer.rest p) id s)

abbrev pub initialize_params : Fields
initialize_params = field "protocolVersion" (str "2025-06-18") (
    field "capabilities" (obj end) (
      field "clientInfo"
        (obj (field "name" (str "repo-mcp-gateway") (field "version" (str "0.1.0") end))) end))

abbrev pub initialized : Sent
initialized = record { id = none; method = "notifications/initialized"; params = end }

abbrev pub told : Option Process → Option Process
told none = none
told (some p) = some (send initialized p.incoming p)

-- `_notify`, after the answer to `initialize`
abbrev pub notify_ready : Session → Session
notify_ready s = record s { process = told s.process }

abbrev pub shaken : Result CbmError Value × Session → Result CbmError (Unit {0}) × Session
shaken (ok v, s) = (ok tt, notify_ready s)
shaken (err e, s) = (err e, s)

-- `_handshake`
abbrev pub handshake : Process → Session → Result CbmError (Unit {0}) × Session
handshake p s = shaken (request "initialize" initialize_params p s)

abbrev pub Spawn : Type 0
Spawn = ℕ → Option (List Arrival)

abbrev pub begin : Option (List Arrival) → Session → Result CbmError (Unit {0}) × Session
begin none s = (err cannot_start, s)
begin (some lines) s =
    let p : Process = record { exited = false; incoming = lines; written = [] } in
    handshake p (record {
      process = some p;
      next_id = 0;
      starts = suc s.starts;
      gauge = suc s.gauge;
      last_used = s.last_used;
    })

-- `_ensure_started`, on the process that the session has
unfoldable pub started : Spawn → Option Process → Session → Result CbmError (Unit {0}) × Session
started spawn none s = begin (spawn s.starts) s
started spawn (some p) s = if p.exited then begin (spawn s.starts) s else (ok tt, s)

unfoldable pub ensure_started : Spawn → Session → Result CbmError (Unit {0}) × Session
ensure_started spawn s = started spawn s.process s

-- `result.get("content") or []` and `bool(result.get("isError"))`
abbrev pub tool_result : Value → Result CbmError ToolResult
tool_result (obj fs) = ok (record {
  content = elim (get "content" fs) [ none ↦ arr nil | some v ↦ if truthy v then v else arr nil ];
  is_error = truthy (or_else (get "isError" fs) null);
})
tool_result _ = err not_mapping

abbrev pub call_params : String → Fields → Fields
call_params name arguments = field "name" (str name) (field "arguments" (obj arguments) end)

abbrev pub called : Result CbmError Value × Session → Result CbmError ToolResult × Session
called (ok v, s) = (tool_result v, s)
called (err e, s) = (err e, s)

-- the call on a session that has been started; `none` does not occur then
abbrev pub call_on :
    Option Process → ℕ → String → Fields → Session → Result CbmError ToolResult × Session
call_on none now name arguments s = (err cannot_start, s)
call_on (some p) now name arguments s =
    called (request "tools/call" (call_params name arguments) p (record s { last_used = now }))

abbrev pub perform_call :
    ℕ
    → String
    → Fields
    → Result CbmError (Unit {0}) × Session
    → Result CbmError ToolResult × Session
perform_call now name arguments (err e, s) = (err e, s)
perform_call now name arguments (ok u, s) = call_on s.process now name arguments s

-- `call_tool`
unfoldable pub call_tool :
    Spawn → ℕ → String → Fields → Session → Result CbmError ToolResult × Session
call_tool spawn now name arguments s = perform_call now name arguments (ensure_started spawn s)
