-- ===== src/Engine/Recovers.antt =====
-- Calls of gateway/app/cbm.py on a session without a running process, and engines that answer.
use repo_mcp.Prelude.{
  ℕ, String, ◌≡◌, refl, true, false, Option, none, some, List, [], ◌∷◌, ◌++◌, arith, ℕ_eq,
  String_eq, All,
}
use repo_mcp.Prelude.Value.{obj, Fields, get}
use repo_mcp.Prelude.Result.{ok}
use repo_mcp.Engine.{
  Spawn, started, call_tool, ensure_started, Process, settle_message, Arrival, closed, noise, line,
  Session, ToolResult, names_id, plain_result, await_reply, request, begin, tool_result,
  perform_call,
}

-- A line that is read over while a reply is awaited.
abbrev pub Passed : ℕ → Arrival → Type 0
Passed id (closed known) = ⊥
Passed id noise = Unit
Passed id (line (obj fs)) = names_id (get "id" fs) id ≡ false
Passed id (line v) = ⊥

-- A message that answers the request of that number.
pub record Answers (id : ℕ) (message : Fields) : Type 0 where
  pub named : names_id (get "id" message) id ≡ true
  pub plain : get "error" message ≡ none

settle_plain :
    (fs : Fields) → get "error" fs ≡ none → settle_message fs ≡ ok (plain_result (get "result" fs))
settle_plain fs e = ground (arith, e)

await_reply-Answers :
    (id : ℕ) (passed : List Arrival) (message : Fields) (rest : List Arrival)
    → All (Passed id) passed
    → Answers id message
    → await_reply id (passed ++ (line (obj message) ∷ rest))
      ≡ record { result = ok (plain_result (get "result" message)); closes = none; rest = rest }
unfolding await_reply
await_reply-Answers id [] message rest h a = rw (a.named, settle_plain message a.plain) refl
await_reply-Answers id (closed known ∷ ps) message rest h a = absurd h.0
await_reply-Answers id (noise ∷ ps) message rest h a = await_reply-Answers id ps message rest h.1 a
await_reply-Answers id (line (obj fs) ∷ ps) message rest h a =
    rw h.0 (await_reply-Answers id ps message rest h.1 a)
await_reply-Answers id (line v ∷ ps) message rest h a = absurd h.0

-- The lines of a process that answers its greeting and its first call, whatever it says besides.
pub record Healthy (lines : List Arrival) (r : ToolResult) : Type 0 where
  pub before : List Arrival
  pub greeting : Fields
  pub between : List Arrival
  pub reply : Fields
  pub rest : List Arrival
  pub form : lines ≡ before ++ (line (obj greeting) ∷ (between ++ (line (obj reply) ∷ rest)))
  pub passed : All (Passed 1) before
  pub greets : Answers 1 greeting
  pub skipped : All (Passed 2) between
  pub replies : Answers 2 reply
  pub result : tool_result (plain_result (get "result" reply)) ≡ ok r

call_on-begin :
    (lines : List Arrival) (now : ℕ) (name : String) (arguments : Fields) (s : Session)
    (r : ToolResult)
    → Healthy lines r
    → (perform_call now name arguments (begin (some lines) s)).0 ≡ ok r
unfolding request
call_on-begin lines now name arguments s r h =
    let first =
      await_reply-Answers 1 h.before h.greeting (h.between ++ (line (obj h.reply) ∷ h.rest))
        h.passed h.greets in
    let second = await_reply-Answers 2 h.between h.reply h.rest h.skipped h.replies in
    rw h.form (rw first (rw second h.result))

-- the session has no process that runs
abbrev pub Stopped : Option Process → Type 0
Stopped none = Unit
Stopped (some p) = p.exited ≡ true

started-Healthy :
    (spawn : Spawn) (o : Option Process) (now : ℕ) (name : String) (arguments : Fields)
    (s : Session) (lines : List Arrival) (r : ToolResult)
    → Stopped o
    → spawn s.starts ≡ some lines
    → Healthy lines r
    → (perform_call now name arguments (started spawn o s)).0 ≡ ok r
unfolding started
started-Healthy spawn none now name arguments s lines r stopped given h =
    rw given (call_on-begin lines now name arguments s r h)
started-Healthy spawn (some p) now name arguments s lines r stopped given h =
    rw (stopped, given) (call_on-begin lines now name arguments s r h)

pub call_tool-Stopped :
    (spawn : Spawn) (now : ℕ) (name : String) (arguments : Fields) (s : Session)
    (lines : List Arrival) (r : ToolResult)
    → Stopped s.process
    → spawn s.starts ≡ some lines
    → Healthy lines r
    → (call_tool spawn now name arguments s).0 ≡ ok r
unfolding call_tool ensure_started
call_tool-Stopped spawn now name arguments s lines r stopped given h =
    started-Healthy spawn s.process now name arguments s lines r stopped given h
