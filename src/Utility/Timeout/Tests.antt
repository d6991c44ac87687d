-- ===== src/Utility/Timeout/Tests.antt =====
-- Runs of timeout.cpp.
use eagine_core.Common.{ℕ, ◌-◌, ◌≡◌, refl, ◌^◌, none, some, List, [], ◌∷◌, arith}
use eagine_core.Utility.Timeout.Code.{
  Timeout, BackingOffTimeout, reset, is_expired, resetting_check, fired, extend, ticks,
}
use eagine_core.Utility.Timeout.Firing.{AreReadings, IsSpaced, fired-IsSpaced}

-- The second reading of a check, from which the next period runs, may be later than the first one.
abbrev checks : List (ℕ × ℕ)
checks = (3, 3) ∷ (10, 11) ∷ (12, 12) ∷ (20, 20) ∷ (25, 27) ∷ (36, 36) ∷ (37, 37) ∷ []

abbrev every_ten : Timeout
every_ten = record { period = 10; deadline = 10 }

checked : fired checks every_ten ≡ some (10 ∷ 25 ∷ 37 ∷ [])
unfolding fired resetting_check is_expired reset ticks
checked = refl

checks-AreReadings : AreReadings 10 0 checks
checks-AreReadings = (
  omega arith,
  omega arith,
  omega arith,
  (
    omega arith,
    omega arith,
    omega arith,
    (
      omega arith,
      omega arith,
      omega arith,
      (
        omega arith,
        omega arith,
        omega arith,
        (
          omega arith,
          omega arith,
          omega arith,
          (omega arith, omega arith, omega arith, (omega arith, omega arith, omega arith, tt)),
        ),
      ),
    ),
  ),
)

fired-IsSpaced_example : (ts : List ℕ) × (fired checks every_ten ≡ some ts) × IsSpaced 10 10 ts
fired-IsSpaced_example = fired-IsSpaced checks every_ten 0 checks-AreReadings

abbrev state : ℕ → ℕ → BackingOffTimeout
state period deadline = record {
  min_period = 2;
  max_period = 10;
  cur_period = period;
  deadline = deadline;
}

-- Doubling a period of 2^62 ticks overflows.
overflows :
    extend 0
      (record { min_period = 2 ^ 62; max_period = 2 ^ 63 - 1; cur_period = 2 ^ 62; deadline = 0 })
    ≡ none
unfolding extend ticks
overflows = refl
