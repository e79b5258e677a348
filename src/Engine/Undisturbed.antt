-- ===== src/Engine/Undisturbed.antt =====
-- A squad's session in the pool of gateway/app/cbm.py while other squads call and idle sessions are
-- reaped.
use repo_mcp.Prelude.{
  subst, ◌≡◌, ◌∙◌, ◌≢◌, ◌≤◌, ◌+◌, ℕ, String, some, List, [], ◌∷◌, lookup, String_eq, sym,
}
use repo_mcp.Prelude.Value.{Fields}
use repo_mcp.Prelude.Result.{ok}
use repo_mcp.Engine.{Session, Spawn, ToolResult}
use repo_mcp.Engine.Pool.{Sessions, pool_call, reap, lookup-pool_call, lookup-reap, called-session}

-- a call of a squad, or a round of reaping
pub data Traffic : Type 0 where
  squad_call : String → ℕ → String → Fields → Traffic
  reaped : ℕ → Traffic

unfoldable pub after_traffic : (String → Spawn) → ℕ → List Traffic → Sessions → Sessions
after_traffic spawn idle [] pool = pool
after_traffic spawn idle (squad_call tenant now name arguments ∷ ts) pool =
    after_traffic spawn idle ts (pool_call spawn now tenant name arguments pool).1
after_traffic spawn idle (reaped now ∷ ts) pool = after_traffic spawn idle ts (reap idle now pool).0

-- calls of other squads, and rounds of reaping up to a moment
abbrev pub Elsewhere : String → ℕ → List Traffic → Type 0
Elsewhere own until [] = Unit
Elsewhere own until (squad_call tenant now name arguments ∷ ts) =
    (tenant ≢ own) × Elsewhere own until ts
Elsewhere own until (reaped now ∷ ts) = (now ≤ until) × Elsewhere own until ts

lookup-after_traffic :
    (spawn : String → Spawn) (idle : ℕ) (own : String) (ts : List Traffic) (s : Session)
    (pool : Sessions)
    → lookup own pool ≡ some s
    → Elsewhere own (s.last_used + idle) ts
    → lookup own (after_traffic spawn idle ts pool) ≡ some s
unfolding after_traffic
lookup-after_traffic spawn idle own [] s pool h e = h
lookup-after_traffic spawn idle own (squad_call tenant now name arguments ∷ ts) s pool h e =
    lookup-after_traffic spawn idle own ts s (pool_call spawn now tenant name arguments pool).1
      (lookup-pool_call spawn now tenant own name arguments pool e.0 ∙ h) e.1
lookup-after_traffic spawn idle own (reaped now ∷ ts) s pool h e =
    lookup-after_traffic spawn idle own ts s (reap idle now pool).0
      (lookup-reap idle now own s pool h e.0) e.1

-- After a squad's call that returned a result the pool has a session of the squad, and it is still
-- that session, its process included, after any sequence of other squads' calls and of rounds of
-- reaping that come at most the idle time after the start of the call.
pub after_traffic-pool_call :
    (spawn : String → Spawn) (idle now : ℕ) (own name : String) (arguments : Fields)
    (pool : Sessions) (r : ToolResult) (ts : List Traffic)
    → let pool' = (pool_call spawn now own name arguments pool).1 in
      (pool_call spawn now own name arguments pool).0 ≡ ok r
      → Elsewhere own (now + idle) ts
      → (s : Session) × (lookup own pool' ≡ some s)
        × (lookup own (after_traffic spawn idle ts pool') ≡ some s)
after_traffic-pool_call spawn idle now own name arguments pool r ts h e =
    let (s, kept, used) = called-session spawn now own name arguments pool r h in
    let pool' = (pool_call spawn now own name arguments pool).1 in
    (
      s,
      kept,
      lookup-after_traffic spawn idle own ts s pool' kept
          (subst (λ n. Elsewhere own (n + idle) ts) (sym used) e),
    )
