-- ===== src/Engine/Closed.antt =====
-- Calls of gateway/app/cbm.py that time out or lose the engine, and the call after them.
use repo_mcp.Prelude.{
  List, Option, Bool, ◌∷◌, [], inl, inr, Bool-cases, Option-cases, ℕ, String, suc, subst, ap, none,
  some, ◌≡◌, refl, true, false, arith, ℕ_eq, String_eq,
}
use repo_mcp.Prelude.Value.{Value, obj, Fields, get}
use repo_mcp.Prelude.Result.{Result, ok, err}
use repo_mcp.Engine.Recovers.{call_tool-Stopped, Healthy}
use repo_mcp.Engine.{
  Arrival, await_reply, request, Session, Process, Spawn, begin, started, called, shaken,
  perform_call, call_on, call_tool, close, initialize_params, call_params, ToolResult,
  ensure_started, names_id, closed, noise, line, CbmError, timed_out, exited, settle_message,
  error_of,
}

abbrev pub closing : CbmError → Bool
closing timed_out = true
closing exited = true
closing e = false

error_of-closing : (v : Value) → closing (error_of v) ≡ false
error_of-closing (obj fs) = refl
error_of-closing v = refl

-- an error that ends nothing
err-closing :
    {A : Type 0} {f e : CbmError}
    → ◌≡◌ {A = Result CbmError A} (err f) (err e)
    → closing e ≡ true
    → closing f ≡ true
err-closing {A} {f} {e} h c = let same : f ≡ e = cc in rw same c

settle-closing : (fs : Fields) (e : CbmError) → settle_message fs ≡ err e → closing e ≡ false
settle-closing fs e h = elim (Option-cases (get "error" fs)) [
  | inl plain ↦ absurd (ground (arith, h, plain))
  | inr (v, failed) ↦
      let same : error_of v ≡ e = ground (arith, h, failed) in
      subst (λ x. closing x ≡ false) same (error_of-closing v)
]

await_reply-closing :
    (id : ℕ) (lines : List Arrival) (e : CbmError)
    → (await_reply id lines).result ≡ err e
    → closing e ≡ true
    → (known : Bool) × ((await_reply id lines).closes ≡ some known)
unfolding await_reply
await_reply-closing id [] e h c = (false, refl)
await_reply-closing id (closed known ∷ rest) e h c = (known, refl)
await_reply-closing id (noise ∷ rest) e h c = await_reply-closing id rest e h c
await_reply-closing id (line (obj fs) ∷ rest) e h c =
    elim (Bool-cases (names_id (get "id" fs) id)) [
      | inr other ↦ rw other (await_reply-closing id rest e (rw other at h) c)
      | inl mine ↦ absurd (
          let settled : settle_message fs ≡ err e = rw mine at h in
          let never = settle-closing fs e settled in ground (arith, c, never))
    ]
await_reply-closing id (line v ∷ rest) e h c = absurd (let z = err-closing h c in cc)

request-closing :
    (method : String) (params : Fields) (p : Process) (s : Session) (e : CbmError)
    → (request method params p s).0 ≡ err e
    → closing e ≡ true
    → (request method params p s).1.process ≡ none
unfolding request close
request-closing method params p s e h c =
    let (known, closes) = await_reply-closing (suc s.next_id) p.incoming e h c in rw closes refl

shaken-closing :
    (x : Result CbmError Value × Session) (e : CbmError)
    → ((f : CbmError) → x.0 ≡ err f → closing f ≡ true → x.1.process ≡ none)
    → (shaken x).0 ≡ err e
    → closing e ≡ true
    → (shaken x).1.process ≡ none
shaken-closing (ok v, s) e k h c = cc
shaken-closing (err f, s) e k h c = k e (let same : f ≡ e = cc in ap err same) c

begin-closing :
    (o : Option (List Arrival)) (s : Session) (e : CbmError)
    → (begin o s).0 ≡ err e
    → closing e ≡ true
    → (begin o s).1.process ≡ none
begin-closing none s e h c = absurd (let z = err-closing h c in cc)
begin-closing (some lines) s e h c =
    shaken-closing _ e (λ f. request-closing "initialize" initialize_params _ _ f) h c

started-closing :
    (spawn : Spawn) (o : Option Process) (s : Session) (e : CbmError)
    → (started spawn o s).0 ≡ err e
    → closing e ≡ true
    → (started spawn o s).1.process ≡ none
unfolding started
started-closing spawn none s e h c = begin-closing (spawn s.starts) s e h c
started-closing spawn (some p) s e h c = elim (Bool-cases p.exited) [
  | inl dead ↦ rw dead (begin-closing (spawn s.starts) s e (rw dead at h) c)
  | inr alive ↦ cc (rw alive at h)
]

called-closing :
    (x : Result CbmError Value × Session) (e : CbmError)
    → ((f : CbmError) → x.0 ≡ err f → closing f ≡ true → x.1.process ≡ none)
    → (called x).0 ≡ err e
    → closing e ≡ true
    → (called x).1.process ≡ none
called-closing (ok (obj fs), s) e k h c = cc
called-closing (ok v, s) e k h c = absurd (let z = err-closing h c in cc)
called-closing (err f, s) e k h c = k e (let same : f ≡ e = cc in ap err same) c

call_on-closing :
    (o : Option Process) (now : ℕ) (name : String) (arguments : Fields) (s : Session) (e : CbmError)
    → (call_on o now name arguments s).0 ≡ err e
    → closing e ≡ true
    → (call_on o now name arguments s).1.process ≡ none
call_on-closing none now name arguments s e h c = absurd (let z = err-closing h c in cc)
call_on-closing (some p) now name arguments s e h c =
    called-closing _ e
      (λ f.
        request-closing "tools/call" (call_params name arguments) p (record s { last_used = now })
          f)
      h c

perform_call-closing :
    (now : ℕ) (name : String) (arguments : Fields) (x : Result CbmError (Unit {0}) × Session)
    (e : CbmError)
    → ((f : CbmError) → x.0 ≡ err f → closing f ≡ true → x.1.process ≡ none)
    → (perform_call now name arguments x).0 ≡ err e
    → closing e ≡ true
    → (perform_call now name arguments x).1.process ≡ none
perform_call-closing now name arguments (err f, s) e k h c =
    k e (let same : f ≡ e = cc in ap err same) c
perform_call-closing now name arguments (ok u, s) e k h c =
    call_on-closing s.process now name arguments s e h c

pub call_tool-closing :
    (spawn : Spawn) (now : ℕ) (name : String) (arguments : Fields) (s : Session) (e : CbmError)
    → (call_tool spawn now name arguments s).0 ≡ err e
    → closing e ≡ true
    → (call_tool spawn now name arguments s).1.process ≡ none
unfolding call_tool ensure_started
call_tool-closing spawn now name arguments s e h c =
    perform_call-closing now name arguments (started spawn s.process s) e
      (λ f. started-closing spawn s.process s f) h c

-- After a call that timed out or lost its engine, when the next start succeeds and that process
-- answers its greeting and its first call, whatever notices or unreadable lines it writes before
-- each, the next call returns that answer.
pub call_tool-recovers :
    (spawn : Spawn) (now later : ℕ) (name again : String) (arguments others : Fields) (s : Session)
    (e : CbmError) (lines : List Arrival) (r : ToolResult)
    → (call_tool spawn now name arguments s).0 ≡ err e
    → closing e ≡ true
    → let s' = (call_tool spawn now name arguments s).1 in
      spawn s'.starts ≡ some lines
      → Healthy lines r
      → (call_tool spawn later again others s').0 ≡ ok r
call_tool-recovers spawn now later name again arguments others s e lines r h c given healthy =
    let s' = (call_tool spawn now name arguments s).1 in
    call_tool-Stopped spawn later again others s' lines r
      (rw (call_tool-closing spawn now name arguments s e h c) tt) given healthy
