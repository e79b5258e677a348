-- ===== src/Database.antt =====
-- `Database.wait_until_ready` of common/repo_mcp_common/db.py: the loop that waits for the database,
-- with time in half seconds, of which every delay is a multiple. What an attempt to connect does is a
-- parameter: it depends on the moment at which the attempt starts, and takes time, which the loop does
-- not count. A sleep takes as long as it is asked for.
pub mod Waiting
mod Tests
use repo_mcp.Prelude.{
  ℕ, zero, suc, ◌+◌, ◌*◌, ◌≤◌, ◌<◌, ◌≡◌, refl, ◌⊎◌, inl, inr, Bool, true, false, arith, leb,
  if◌then◌else◌, Bool-cases,
}

-- What comes of `connect` and `execute`: an answer, a `SQLAlchemyError` or `OSError`, or another
-- exception, each after some time; or they never return.
pub data Attempt : Type 0 where
  answers fails raises : ℕ → Attempt
  hangs : Attempt

-- How the wait ends: with a database that answers, with `DatabaseUnavailable`, with another exception
-- of an attempt, each at a moment and with the count `waited`, or in an attempt that never returns;
-- `lost` says that the fuel is gone.
pub data Wait : Type 0 where
  ready unavailable escaped : ℕ → ℕ → Wait
  hung : ℕ → Wait
  lost : Wait

-- `min(delay * 2, 5.0)`
abbrev pub doubled : ℕ → ℕ
doubled delay = if leb (delay * 2) 10 then delay * 2 else 10

-- the loop at the moment `now`
unfoldable pub retry : ℕ → ℕ → (ℕ → Attempt) → ℕ → ℕ → ℕ → Wait
retry zero deadline attempt now waited delay = lost
retry (suc fuel) deadline attempt now waited delay =
    let tried : Wait = elim (attempt now) [
      | answers taken ↦ ready (now + taken) waited
      | fails taken ↦
          retry fuel deadline attempt (now + taken + delay) (waited + delay) (doubled delay)
      | raises taken ↦ escaped (now + taken) waited
      | hangs ↦ hung waited
    ] in
    if leb waited deadline then tried else unavailable now waited

-- Every delay is one half second at least, so that there are not more rounds than this fuel.
unfoldable pub wait_until_ready : ℕ → (ℕ → Attempt) → Wait
wait_until_ready deadline attempt = retry (suc (suc deadline)) deadline attempt 0 0 1
