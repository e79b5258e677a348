-- ===== src/Database/Tests.antt =====
-- The wait of common/repo_mcp_common/db.py for a database that starts to answer after four seconds,
-- where a refused attempt takes half a second, and for one that never does.
use repo_mcp.Prelude.{ℕ, ◌≤◌, ◌≡◌, refl, inl, inr, if◌then◌else◌, arith, leb, ◌+◌, Bool-cases}
use repo_mcp.Database.{
  Attempt, answers, fails, raises, ready, escaped, unavailable, retry, wait_until_ready,
}
use repo_mcp.Database.Waiting.{
  duration, Ended, Answers, Tries, wait_until_ready-Ended, wait_until_ready-ready,
}

abbrev starting : ℕ → Attempt
starting t = if leb 8 t then answers 0 else fails 1

steady : (t : ℕ) → 8 ≤ t → Answers 1 (starting t)
steady t le = (0, ground (arith, le), omega arith)

tries : (t : ℕ) → Tries 1 (starting t)
tries t = elim (Bool-cases (leb 8 t)) [
  | inl up ↦ inl (0, rw up refl, omega arith)
  | inr down ↦ inr (1, rw down refl, omega arith)
]

quick : (t : ℕ) → duration (starting t) ≤ 1
quick t = elim (Bool-cases (leb 8 t)) [
  | inl up ↦ rw up (omega arith)
  | inr down ↦ rw down (omega arith)
]

found : wait_until_ready 60 starting ≡ ready 10 7
unfolding wait_until_ready retry
found = refl

never : wait_until_ready 60 (λ t. fails 2) ≡ unavailable 83 65
unfolding wait_until_ready retry
never = refl

other : wait_until_ready 60 (λ t. raises 3) ≡ escaped 3 0
unfolding wait_until_ready retry
other = refl

wait_until_ready-Ended_example : Ended 60 1 starting (wait_until_ready 60 starting)
wait_until_ready-Ended_example = wait_until_ready-Ended 60 1 starting quick

wait_until_ready-ready_example :
    (at waited : ℕ) × (wait_until_ready 60 starting ≡ ready at waited) × (at ≤ 8 + 10 + 1 + 1)
wait_until_ready-ready_example = wait_until_ready-ready 60 1 8 starting tries steady (omega arith)
