-- ===== src/Engine/Replies.antt =====
-- The replies that calls of gateway/app/cbm.py return, over the life of a session.
use repo_mcp.Prelude.{
  refl, ℕ, suc, String, ◌≡◌, ◌≢◌, inl, inr, true, Option, none, some, List, [], ◌∷◌, arith, ℕ_eq,
  String_eq, All,
}
use repo_mcp.Prelude.Result.{Result-cases, Result, ok, err}
use repo_mcp.Prelude.Value.{Value, Fields}
use repo_mcp.Engine.Own.{
  await_reply-Replied, started-Numbered, call_tool-Numbered, Below, Counted, Numbered, Replied,
}
use repo_mcp.Engine.{
  call_tool, new_session, await_reply, request, send, perform_call, ensure_started, call_on,
  CbmError, Sent, Process, Session, ToolResult, close, Spawn, tool_result, call_params,
}

-- The result is a message, of the pipe of the process that runs, with the number under which this very
-- request was written to it, and nothing else was.
pub record OwnReply (running : Option Process) (name : String) (arguments : Fields) (r : ToolResult)
    (s' : Session) : Type 0 where
  pub before : Process
  pub runs : running ≡ some before
  pub after : Process
  pub kept : s'.process ≡ some after
  pub id : ℕ
  pub written :
      after.written
      ≡ record { id = some id; method = "tools/call"; params = call_params name arguments }
        ∷ before.written
  pub alone : All (λ (m : Sent). m.id ≢ some id) before.written
  pub value : Value
  pub replied : Replied id before.incoming value
  pub returned : tool_result value ≡ ok r

none_beyond :
    (n : ℕ) (ms : List Sent) → All (Below n) ms → All (λ (m : Sent). m.id ≢ some (suc n)) ms
none_beyond n [] h = tt
none_beyond n (m ∷ ms) h =
    ((λ e. let q = h.0 (suc n) e in absurd (omega arith)), none_beyond n ms h.1)

call_on-OwnReply :
    (o : Option Process) (now : ℕ) (name : String) (arguments : Fields) (s : Session)
    (r : ToolResult)
    → Counted o s.next_id
    → (call_on o now name arguments s).0 ≡ ok r
    → OwnReply o name arguments r (call_on o now name arguments s).1
unfolding request
call_on-OwnReply none now name arguments s r k h = cc
call_on-OwnReply (some p) now name arguments s r k h =
    let id = suc s.next_id in
    elim (Result-cases (await_reply id p.incoming).result) [
      | inl (e, failed) ↦ absurd (let z = rw failed at h in cc)
      | inr (v, done) ↦
          let (stays, replied) = await_reply-Replied id p.incoming v done in
          rw (done, stays)
            (record {
              before = p;
              runs = refl;
              after =
                  send
                    (record {
                      id = some id;
                      method = "tools/call";
                      params = call_params name arguments;
                    })
                    (await_reply id p.incoming).rest p;
              kept = refl;
              id = id;
              written = refl;
              alone = none_beyond s.next_id p.written k;
              value = v;
              replied = replied;
              returned = rw done at h;
            })
    ]

perform_call-OwnReply :
    (now : ℕ) (name : String) (arguments : Fields) (x : Result CbmError (Unit {0}) × Session)
    (r : ToolResult)
    → Numbered x.1
    → (perform_call now name arguments x).0 ≡ ok r
    → OwnReply x.1.process name arguments r (perform_call now name arguments x).1
perform_call-OwnReply now name arguments (err e, s) r k h = cc
perform_call-OwnReply now name arguments (ok u, s) r k h =
    call_on-OwnReply s.process now name arguments s r k h

call_tool-OwnReply :
    (spawn : Spawn) (now : ℕ) (name : String) (arguments : Fields) (s : Session) (r : ToolResult)
    → Numbered s
    → (call_tool spawn now name arguments s).0 ≡ ok r
    → OwnReply
        (ensure_started spawn s).1.process
        name
        arguments
        r
        (call_tool spawn now name arguments s).1
unfolding call_tool ensure_started
call_tool-OwnReply spawn now name arguments s r k h =
    perform_call-OwnReply now name arguments _ r (started-Numbered spawn s.process s k) h

-- What happens to a session: a call, its end, or the death of its process between two calls.
pub data Event : Type 0 where
  used : ℕ → String → Fields → Event
  ended died : Event

abbrev pub dead : Option Process → Option Process
dead none = none
dead (some p) = some (record { exited = true; incoming = p.incoming; written = p.written })

unfoldable pub after_event : Spawn → Event → Session → Session
after_event spawn (used now name arguments) s = (call_tool spawn now name arguments s).1
after_event spawn ended s = close s
after_event spawn died s = record s { process = dead s.process }

unfoldable pub after_events : Spawn → List Event → Session → Session
after_events spawn [] s = s
after_events spawn (e ∷ es) s = after_events spawn es (after_event spawn e s)

dead-Counted : (o : Option Process) (n : ℕ) → Counted o n → Counted (dead o) n
dead-Counted none n h = tt
dead-Counted (some p) n h = h

after_event-Numbered :
    (spawn : Spawn) (e : Event) (s : Session) → Numbered s → Numbered (after_event spawn e s)
unfolding after_event close
after_event-Numbered spawn (used now name arguments) s h =
    call_tool-Numbered spawn now name arguments s h
after_event-Numbered spawn ended s h = tt
after_event-Numbered spawn died s h = dead-Counted s.process s.next_id h

after_events-Numbered :
    (spawn : Spawn) (es : List Event) (s : Session)
    → Numbered s
    → Numbered (after_events spawn es s)
unfolding after_events
after_events-Numbered spawn [] s h = h
after_events-Numbered spawn (e ∷ es) s h =
    after_events-Numbered spawn es (after_event spawn e s) (after_event-Numbered spawn e s h)

-- After any sequence of calls, closes and deaths of the process, a call that returns a result
-- returns that of a message which the running process wrote, without an error, under the number of
-- this very request, and no other request was written to that process under that number.
pub call_tool-after_events :
    (spawn : Spawn) (es : List Event) (start now : ℕ) (name : String) (arguments : Fields)
    (r : ToolResult)
    → let s = after_events spawn es (new_session start) in
      (call_tool spawn now name arguments s).0 ≡ ok r
      → OwnReply
          (ensure_started spawn s).1.process
          name
          arguments
          r
          (call_tool spawn now name arguments s).1
call_tool-after_events spawn es start now name arguments r h =
    let s = after_events spawn es (new_session start) in
    call_tool-OwnReply spawn now name arguments s r
      (after_events-Numbered spawn es (new_session start) tt) h
