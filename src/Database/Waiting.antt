-- ===== src/Database/Waiting.antt =====
-- How `Database.wait_until_ready` of common/repo_mcp_common/db.py ends.
use repo_mcp.Prelude.{
  ℕ, zero, suc, ◌+◌, ◌*◌, ◌≤◌, ◌<◌, ◌≡◌, refl, ◌⊎◌, inl, inr, true, arith, leb, Bool-cases,
}
use repo_mcp.Database.{
  Attempt, answers, fails, raises, hangs, Wait, ready, unavailable, escaped, hung, doubled, retry,
  wait_until_ready,
}

-- How long an attempt takes that returns.
abbrev pub duration : Attempt → ℕ
duration (answers taken) = taken
duration (fails taken) = taken
duration (raises taken) = taken
duration hangs = 0

-- The end of a wait in which no attempt that returns takes longer than `longest`: of the time that it
-- took, what was not spent in attempts is what was slept.
pub data Ended (deadline longest : ℕ) (attempt : ℕ → Attempt) : Wait → Type 0 where
  in_time :
      (start taken waited : ℕ)
      → waited ≤ deadline
      → attempt start ≡ answers taken
      → start ≤ waited + waited * longest
      → Ended deadline longest attempt (ready (start + taken) waited)
  too_late :
      (now waited : ℕ)
      → deadline < waited
      → waited ≤ deadline + 10
      → now ≤ waited + waited * longest
      → Ended deadline longest attempt (unavailable now waited)
  other_exception :
      (start taken waited : ℕ)
      → waited ≤ deadline
      → attempt start ≡ raises taken
      → start ≤ waited + waited * longest
      → Ended deadline longest attempt (escaped (start + taken) waited)
  no_return :
      (start waited : ℕ)
      → waited ≤ deadline
      → attempt start ≡ hangs
      → start ≤ waited + waited * longest
      → Ended deadline longest attempt (hung waited)

Attempt-cases :
    (a : Attempt)
    → ((d : ℕ) × (a ≡ answers d))
      ⊎ ((d : ℕ) × (a ≡ fails d))
      ⊎ ((d : ℕ) × (a ≡ raises d))
      ⊎ (a ≡ hangs)
Attempt-cases (answers d) = inl (d, refl)
Attempt-cases (fails d) = inr (inl (d, refl))
Attempt-cases (raises d) = inr (inr (inl (d, refl)))
Attempt-cases hangs = inr (inr (inr refl))

-- one more failed attempt and one more sleep
spent :
    (now taken waited delay longest : ℕ)
    → now ≤ waited + waited * longest
    → taken ≤ longest
    → 1 ≤ delay
    → now + taken + delay ≤ waited + delay + (waited + delay) * longest
spent now taken waited delay longest far quick slow = grind arith

module _ (deadline longest : ℕ) (attempt : ℕ → Attempt)
    (quick : (t : ℕ) → duration (attempt t) ≤ longest) where
  took : (now taken : ℕ) → attempt now ≡ fails taken → taken ≤ longest
  took now taken failed = let q = quick now in rw failed at q

  retry-Ended :
      (fuel now waited delay : ℕ)
      → 1 ≤ fuel
      → deadline + 1 < waited + fuel
      → waited ≤ deadline + 10
      → 1 ≤ delay
      → delay ≤ 10
      → now ≤ waited + waited * longest
      → Ended deadline longest attempt (retry fuel deadline attempt now waited delay)
  unfolding retry
  retry-Ended zero now waited delay some_fuel enough soon slow fast far = absurd (omega arith)
  retry-Ended (suc fuel) now waited delay some_fuel enough soon slow fast far =
      elim (Bool-cases (leb waited deadline)) [
        | inr late ↦ rw late (too_late now waited (ground (arith, late)) soon far)
        | inl early ↦
            let within : waited ≤ deadline = ground (arith, early) in
            rw early (elim (Attempt-cases (attempt now)) [
              | inl (d, e) ↦ rw (e, retry) (in_time now d waited within e far)
              | inr (inl (d, e)) ↦
                  rw (e, retry)
                    (retry-Ended fuel (now + d + delay) (waited + delay) (doubled delay)
                      (omega arith) (omega arith) (omega arith) (ground arith) (ground arith)
                      (spent now d waited delay longest far (took now d e) slow))
              | inr (inr (inl (d, e))) ↦ rw (e, retry) (other_exception now d waited within e far)
              | inr (inr (inr e)) ↦ rw (e, retry) (no_return now waited within e far)
            ])
      ]

-- Where no attempt that returns takes longer than some time, the wait for the database ends with an
-- attempt that answers, raises another exception or never returns, when at most the deadline has been
-- slept, or with the error, when more than the deadline has been slept, by five seconds at most; up to
-- the start of its last attempt it has taken what was slept and at most the longest attempt's time for
-- each half second slept. A number of rounds
-- equal to the deadline in half seconds and two is never used up.
pub wait_until_ready-Ended :
    (deadline longest : ℕ) (attempt : ℕ → Attempt)
    → ((t : ℕ) → duration (attempt t) ≤ longest)
    → Ended deadline longest attempt (wait_until_ready deadline attempt)
unfolding wait_until_ready
wait_until_ready-Ended deadline longest attempt quick =
    retry-Ended deadline longest attempt quick (suc (suc deadline)) 0 0 1 (omega arith)
      (omega arith) (omega arith) (omega arith) (omega arith) (omega arith)

-- An attempt answers if it starts from some moment on, and otherwise answers or fails.
abbrev pub Answers : ℕ → Attempt → Type 0
Answers longest a = (d : ℕ) × (a ≡ answers d) × (d ≤ longest)

abbrev pub Tries : ℕ → Attempt → Type 0
Tries longest a = Answers longest a ⊎ ((d : ℕ) × (a ≡ fails d) × (d ≤ longest))

module _ (deadline longest from : ℕ) (attempt : ℕ → Attempt)
    (tries : (t : ℕ) → Tries longest (attempt t))
    (steady : (t : ℕ) → from ≤ t → Answers longest (attempt t)) where
  before : (now taken : ℕ) → attempt now ≡ fails taken → now < from
  before now taken failed = elim (Bool-cases (leb from now)) [
    | inr early ↦ ground (arith, early)
    | inl late ↦ absurd (let (d, e, le) = steady now (ground (arith, late)) in cc)
  ]

  retry-ready :
      (fuel now waited delay : ℕ)
      → from + 10 ≤ deadline
      → deadline + 1 < waited + fuel
      → waited ≤ now
      → waited ≤ from + 10
      → now ≤ from + 10 + longest
      → 1 ≤ delay
      → delay ≤ 10
      → (at waited' : ℕ) × (retry fuel deadline attempt now waited delay ≡ ready at waited')
        × (at ≤ from + 10 + longest + longest)
  unfolding retry
  retry-ready zero now waited delay room enough below soon near slow fast = absurd (omega arith)
  retry-ready (suc fuel) now waited delay room enough below soon near slow fast =
      let early : leb waited deadline ≡ true = ground (arith, room, soon) in
      elim (tries now) [
        | inl (d, e, le) ↦ (now + d, waited, rw (early, e, retry) refl, omega arith)
        | inr (d, e, le) ↦
            let then_up = before now d e in
            let (at, w, r, last) =
              retry-ready fuel (now + d + delay) (waited + delay) (doubled delay) room (omega arith)
                (omega arith) (omega arith) (omega arith) (ground arith) (ground arith) in
            (at, w, rw (early, e, retry) r, last)
      ]

-- When every attempt answers or fails with a database error within some time, and every attempt that
-- starts from some moment on answers, and that moment is at least five seconds before the deadline, the
-- wait ends with a database that answers, at most five seconds and twice the time of an attempt after
-- that moment.
pub wait_until_ready-ready :
    (deadline longest from : ℕ) (attempt : ℕ → Attempt)
    → ((t : ℕ) → Tries longest (attempt t))
    → ((t : ℕ) → from ≤ t → Answers longest (attempt t))
    → from + 10 ≤ deadline
    → (at waited : ℕ) × (wait_until_ready deadline attempt ≡ ready at waited)
      × (at ≤ from + 10 + longest + longest)
unfolding wait_until_ready
wait_until_ready-ready deadline longest from attempt tries steady room =
    retry-ready deadline longest from attempt tries steady (suc (suc deadline)) 0 0 1 room
      (omega arith) (omega arith) (omega arith) (omega arith) (omega arith) (omega arith)
