-- ===== src/Engine/Pool.antt =====
-- `CbmPool` of gateway/app/cbm.py: one session per squad, and the reaping of those that are idle.
use repo_mcp.Prelude.{
  ap, Bool-cases, Option-cases, inl, inr, suc, refl, ◌==◌, none, some, ◌≢◌, ◌≤◌, Option, false, ℕ,
  ◌+◌, String, ◌≡◌, ◌∙◌, Bool, not, List, [], ◌∷◌, map, arith, eq_iff, ltb, ℕ_eq, String_eq, keep,
  lookup, insert, lookup-insert,
}
use repo_mcp.Prelude.Result.{ok, err, Result}
use repo_mcp.Prelude.Value.{Value, Fields}
use repo_mcp.Engine.{
  await_reply, call_params, Process, call_on, perform_call, ensure_started, request, close, called,
  CbmError, Session, ToolResult, new_session, Spawn, call_tool,
}

abbrev pub Sessions : Type 0
Sessions = List (String × Session)

abbrev pub found_session : Option Session → ℕ → Session
found_session none now = new_session now
found_session (some s) now = s

-- `CbmPool.session`
unfoldable pub session_for : String → ℕ → Sessions → Session × Sessions
session_for tenant now pool =
    let s = found_session (lookup tenant pool) now in (s, insert tenant s pool)

-- a call of a squad: the session is the pool's own object, so what the call does to it stays there
unfoldable pub pool_call :
    (String → Spawn)
    → ℕ
    → String
    → String
    → Fields
    → Sessions
    → Result CbmError ToolResult × Sessions
pool_call spawn now tenant name arguments pool =
    let (s, pool') = session_for tenant now pool in
    let (r, s') = call_tool (spawn tenant) now name arguments s in (r, insert tenant s' pool')

-- `s.last_used < cutoff`, for the cutoff `now - idle`
abbrev pub stale : ℕ → ℕ → Session → Bool
stale idle now s = ltb (s.last_used + idle) now

-- a round of `_reap_loop`: the sessions that stay, and those that are taken out and closed
unfoldable pub reap : ℕ → ℕ → Sessions → Sessions × Sessions
reap idle now pool = (
  keep (λ (e : String × Session). not (stale idle now e.1)) pool,
  map (λ (e : String × Session). (e.0, close e.1))
      (keep (λ (e : String × Session). stale idle now e.1) pool),
)

insert_other :
    (k j : String) (s : Session) (pool : Sessions)
    → k ≢ j
    → lookup j (insert k s pool) ≡ lookup j pool
insert_other k j s pool h = ground (arith, lookup-insert k j s pool, eq_iff k j)

insert_own : (k : String) (s : Session) (pool : Sessions) → lookup k (insert k s pool) ≡ some s
insert_own k s pool = ground (arith, lookup-insert k k s pool, eq_iff k k)

-- A squad's call leaves every other squad's session as it was.
pub lookup-pool_call :
    (spawn : String → Spawn) (now : ℕ) (tenant other name : String) (arguments : Fields)
    (pool : Sessions)
    → tenant ≢ other
    → lookup other (pool_call spawn now tenant name arguments pool).1 ≡ lookup other pool
unfolding pool_call session_for
lookup-pool_call spawn now tenant other name arguments pool h =
    insert_other tenant other _ _ h ∙ insert_other tenant other _ pool h

pub lookup-reap :
    (idle now : ℕ) (tenant : String) (s : Session) (pool : Sessions)
    → lookup tenant pool ≡ some s
    → now ≤ s.last_used + idle
    → lookup tenant (reap idle now pool).0 ≡ some s
unfolding reap keep lookup
lookup-reap idle now tenant s [] h young = cc
lookup-reap idle now tenant s ((k, u) ∷ pool) h young = elim (Bool-cases (k == tenant)) [
  | inl own ↦
      let same : u ≡ s = ground (arith, h, own) in
      let used = ap (λ (x : Session). x.last_used) same in
      let fresh : stale idle now u ≡ false = ground (arith, used, young) in
      rw (fresh, own) (ap some same)
  | inr other ↦
      let later = lookup-reap idle now tenant s pool (ground (arith, h, other)) young in
      elim (Bool-cases (stale idle now u)) [
        | inl old ↦ rw old later
        | inr fresh ↦ rw (fresh, other) later
      ]
]

request-last_used :
    (method : String) (params : Fields) (p : Process) (s : Session)
    → (request method params p s).1.last_used ≡ s.last_used
unfolding request close
request-last_used method params p s =
    elim (Option-cases (await_reply (suc s.next_id) p.incoming).closes) [
      | inl e ↦ rw e refl
      | inr (known, e) ↦ rw e refl
    ]

called_used : (x : Result CbmError Value × Session) → (called x).1.last_used ≡ x.1.last_used
called_used (ok v, s) = refl
called_used (err e, s) = refl

call_on-last_used :
    (o : Option Process) (now : ℕ) (name : String) (arguments : Fields) (s : Session)
    (r : ToolResult)
    → (call_on o now name arguments s).0 ≡ ok r
    → (call_on o now name arguments s).1.last_used ≡ now
call_on-last_used none now name arguments s r h = cc
call_on-last_used (some p) now name arguments s r h =
    called_used (request "tools/call" (call_params name arguments) p (record s { last_used = now }))
    ∙ request-last_used "tools/call" (call_params name arguments) p (record s { last_used = now })

perform_call-last_used :
    (now : ℕ) (name : String) (arguments : Fields) (x : Result CbmError (Unit {0}) × Session)
    (r : ToolResult)
    → (perform_call now name arguments x).0 ≡ ok r
    → (perform_call now name arguments x).1.last_used ≡ now
perform_call-last_used now name arguments (err e, s) r h = cc
perform_call-last_used now name arguments (ok u, s) r h =
    call_on-last_used s.process now name arguments s r h

call_tool-last_used :
    (spawn : Spawn) (now : ℕ) (name : String) (arguments : Fields) (s : Session) (r : ToolResult)
    → (call_tool spawn now name arguments s).0 ≡ ok r
    → (call_tool spawn now name arguments s).1.last_used ≡ now
unfolding call_tool
call_tool-last_used spawn now name arguments s r h =
    perform_call-last_used now name arguments (ensure_started spawn s) r h

-- After a squad's call that returned a result, its session is in the pool, and a round of reaping at
-- most the idle time after the start of the call leaves it there.
pub called-session :
    (spawn : String → Spawn) (now : ℕ) (tenant name : String) (arguments : Fields) (pool : Sessions)
    (r : ToolResult)
    → (pool_call spawn now tenant name arguments pool).0 ≡ ok r
    → (s : Session) × (lookup tenant (pool_call spawn now tenant name arguments pool).1 ≡ some s)
      × (s.last_used ≡ now)
unfolding pool_call session_for
called-session spawn now tenant name arguments pool r h =
    let s = found_session (lookup tenant pool) now in
    let s' = (call_tool (spawn tenant) now name arguments s).1 in
    (
      s',
      insert_own tenant s' (insert tenant s pool),
      call_tool-last_used (spawn tenant) now name arguments s r h,
    )
