-- ===== src/Engine/Own.antt =====
-- The numbers of requests in gateway/app/cbm.py, and the messages that bear them.
use repo_mcp.Prelude.{
  All, List, [], ◌∷◌, arith, suc, ℕ, refl, Option, some, none, String, ◌≤◌, ◌≡◌, inl, inr, true,
  Bool-cases, Option-cases, ℕ_eq, String_eq, In,
}
use repo_mcp.Prelude.Result.{Result, ok, err}
use repo_mcp.Prelude.Value.{Value, obj, Fields, get}
use repo_mcp.Engine.{
  Sent, Process, Session, close, request, begin, Spawn, ensure_started, CbmError, shaken, told,
  started, called, call_on, perform_call, call_tool, call_params, initialize_params, await_reply,
  Arrival, closed, noise, line, names_id, plain_result, settle_message,
}

-- A message of the pipe with the id of a request, and what it returns.
pub record Replied (id : ℕ) (lines : List Arrival) (v : Value) : Type 0 where
  pub message : Fields
  pub arrived : In (line (obj message)) lines
  pub named : names_id (get "id" message) id ≡ true
  pub plain : get "error" message ≡ none
  pub held : v ≡ plain_result (get "result" message)

Replied-later :
    {id : ℕ} {lines : List Arrival} {v : Value} (a : Arrival)
    → Replied id lines v
    → Replied id (a ∷ lines) v
Replied-later a r = record {
  message = r.message;
  arrived = inr r.arrived;
  named = r.named;
  plain = r.plain;
  held = r.held;
}

pub await_reply-Replied :
    (id : ℕ) (lines : List Arrival) (v : Value)
    → (await_reply id lines).result ≡ ok v
    → ((await_reply id lines).closes ≡ none) × Replied id lines v
unfolding await_reply
await_reply-Replied id [] v h = cc
await_reply-Replied id (closed known ∷ rest) v h = cc
await_reply-Replied id (noise ∷ rest) v h =
    let (left, r) = await_reply-Replied id rest v h in (left, Replied-later noise r)
await_reply-Replied id (line (obj fs) ∷ rest) v h = elim (Bool-cases (names_id (get "id" fs) id)) [
  | inr other ↦
      let (left, r) = await_reply-Replied id rest v (rw other at h) in
      (rw other left, Replied-later (line (obj fs)) r)
  | inl mine ↦ elim (Option-cases (get "error" fs)) [
    | inr (e, failed) ↦
        absurd
          (let settled : settle_message fs ≡ ok v = rw mine at h in ground (arith, settled, failed))
    | inl plain ↦
        let settled : settle_message fs ≡ ok v = rw mine at h in
        (
          rw mine refl,
          record {
            message = fs;
            arrived = inl refl;
            named = mine;
            plain = plain;
            held = ground (arith, settled, plain);
          },
        )
  ]
]
await_reply-Replied id (line v ∷ rest) w h = cc

abbrev pub Below : ℕ → Sent → Type 0
Below n m = (i : ℕ) → m.id ≡ some i → i ≤ n

-- No request that was written to the process has a number beyond the last one given.
abbrev pub Counted : Option Process → ℕ → Type 0
Counted none n = Unit
Counted (some p) n = All (Below n) p.written

abbrev pub Numbered : Session → Type 0
Numbered s = Counted s.process s.next_id

Below-later : (n : ℕ) (ms : List Sent) → All (Below n) ms → All (Below (suc n)) ms
Below-later n [] h = tt
Below-later n (m ∷ ms) h = ((λ i e. let q = h.0 i e in omega arith), Below-later n ms h.1)

request-Numbered :
    (method : String) (params : Fields) (p : Process) (s : Session)
    → All (Below s.next_id) p.written
    → Numbered (request method params p s).1
unfolding request close
request-Numbered method params p s h =
    elim (Option-cases (await_reply (suc s.next_id) p.incoming).closes) [
      | inl e ↦ rw e (
        (λ i f. let same : suc s.next_id ≡ i = cc in omega arith),
        Below-later s.next_id p.written h,
      )
      | inr (known, e) ↦ rw e tt
    ]

told-Counted : (o : Option Process) (n : ℕ) → Counted o n → Counted (told o) n
told-Counted none n h = tt
told-Counted (some p) n h = ((λ i f. cc), h)

shaken-Numbered : (r : Result CbmError Value × Session) → Numbered r.1 → Numbered (shaken r).1
shaken-Numbered (ok v, s) h = told-Counted s.process s.next_id h
shaken-Numbered (err e, s) h = h

begin-Numbered : (o : Option (List Arrival)) (s : Session) → Numbered s → Numbered (begin o s).1
begin-Numbered none s h = h
begin-Numbered (some lines) s h =
    shaken-Numbered _ (request-Numbered "initialize" initialize_params _ _ tt)

pub started-Numbered :
    (spawn : Spawn) (o : Option Process) (s : Session) → Numbered s → Numbered (started spawn o s).1
unfolding started
started-Numbered spawn none s h = begin-Numbered (spawn s.starts) s h
started-Numbered spawn (some p) s h = elim (Bool-cases p.exited) [
  | inl dead ↦ rw dead (begin-Numbered (spawn s.starts) s h)
  | inr alive ↦ rw alive h
]

called-Numbered : (r : Result CbmError Value × Session) → Numbered r.1 → Numbered (called r).1
called-Numbered (ok v, s) h = h
called-Numbered (err e, s) h = h

call_on-Numbered :
    (o : Option Process) (now : ℕ) (name : String) (arguments : Fields) (s : Session)
    → Numbered s
    → Counted o s.next_id
    → Numbered (call_on o now name arguments s).1
call_on-Numbered none now name arguments s h k = h
call_on-Numbered (some p) now name arguments s h k =
    called-Numbered _ (
      request-Numbered "tools/call" (call_params name arguments) p (record s { last_used = now }) k)

perform_call-Numbered :
    (now : ℕ) (name : String) (arguments : Fields) (r : Result CbmError (Unit {0}) × Session)
    → Numbered r.1
    → Numbered (perform_call now name arguments r).1
perform_call-Numbered now name arguments (ok u, s) h =
    call_on-Numbered s.process now name arguments s h h
perform_call-Numbered now name arguments (err e, s) h = h

pub call_tool-Numbered :
    (spawn : Spawn) (now : ℕ) (name : String) (arguments : Fields) (s : Session)
    → Numbered s
    → Numbered (call_tool spawn now name arguments s).1
unfolding call_tool ensure_started
call_tool-Numbered spawn now name arguments s h =
    perform_call-Numbered now name arguments _ (started-Numbered spawn s.process s h)
