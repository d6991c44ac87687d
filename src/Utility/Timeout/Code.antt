-- ===== src/Utility/Timeout/Code.antt =====
-- timeout.cpp: durations and time points are numbers of the clock's ticks, which are not negative and
-- signed 64-bit integers in the source. A sum that overflows has no defined value there, and gives
-- none. Each reading of the clock is an argument.
use mathlib.Core.Option
use eagine_core.Common.{
  ℕ, ◌+◌, ◌*◌, ◌^◌, min, Bool, true, false, Option, none, some, List, [], ◌∷◌, ltb, leb, ◌>>=◌,
  if◌then◌else◌,
}

-- A number of ticks, when it is one of a signed 64-bit integer.
unfoldable pub ticks : ℕ → Option ℕ
ticks n = if ltb n (2 ^ 63) then some n else none

pub record Timeout : Type 0 where
  pub period : ℕ
  pub deadline : ℕ

-- Immediately expired.
unfoldable pub timeout_now : ℕ → Timeout
timeout_now now = record { period = 0; deadline = now }

unfoldable pub timeout_with_initial : ℕ → ℕ → ℕ → Option Timeout
timeout_with_initial now duration initial =
    Option.map (λ d. record { period = duration; deadline = d }) (ticks (now + initial))

unfoldable pub timeout_of : ℕ → ℕ → Option Timeout
timeout_of now duration = timeout_with_initial now duration duration

unfoldable pub set_duration : Timeout → ℕ → Timeout
set_duration t duration = record t { period = duration }

unfoldable pub reset : ℕ → Timeout → Option Timeout
reset now t = Option.map (λ d. record t { deadline = d }) (ticks (now + t.period))

unfoldable pub reset_with_initial : ℕ → Timeout → ℕ → ℕ → Option Timeout
reset_with_initial now t duration initial =
    Option.map (λ d. record t { period = duration; deadline = d }) (ticks (now + initial))

unfoldable pub is_expired : ℕ → Timeout → Bool
is_expired now t = leb t.deadline now

-- `operator bool` of `resetting_timeout`: is_expired reads the clock, and then reset reads it again.
unfoldable pub resetting_check : ℕ → ℕ → Timeout → Option (Bool × Timeout)
resetting_check now later t =
    let result = is_expired now t in
    if result then Option.map (λ next. (true, next)) (reset later t) else some (false, t)

-- The times, among those at which a resetting timeout is checked, at which it has expired. Each check
-- has the two readings of the clock.
unfoldable pub fired : List (ℕ × ℕ) → Timeout → Option (List ℕ)
fired [] t = some []
fired ((now, later) ∷ times) t = elim (resetting_check now later t) [
  | none ↦ none
  | some (result, next) ↦
      Option.map (λ rest. if result then now ∷ rest else rest) (fired times next)
]

-- `referencing_timeout`: the period is that of another object, so it is an argument.
unfoldable pub referencing_is_expired : ℕ → ℕ → ℕ → Option Bool
referencing_is_expired now period prev_reset =
    Option.map (λ d. leb d now) (ticks (prev_reset + period))

pub record BackingOffTimeout : Type 0 where
  pub min_period : ℕ
  pub max_period : ℕ
  pub cur_period : ℕ
  pub deadline : ℕ

unfoldable pub backing_off_timeout : ℕ → ℕ → ℕ → Option BackingOffTimeout
backing_off_timeout now least most =
    Option.map
      (λ d. record { min_period = least; max_period = most; cur_period = least; deadline = d })
      (ticks (now + least))

unfoldable pub backing_off_timeout_expired : ℕ → ℕ → ℕ → BackingOffTimeout
backing_off_timeout_expired now least most = record {
  min_period = least;
  max_period = most;
  cur_period = least;
  deadline = now;
}

unfoldable pub backing_off_is_expired : ℕ → BackingOffTimeout → Bool
backing_off_is_expired now t = leb t.deadline now

unfoldable pub backing_off_reset : ℕ → BackingOffTimeout → Option BackingOffTimeout
backing_off_reset now t = Option.map (λ d. record t { deadline = d }) (ticks (now + t.cur_period))

unfoldable pub rewind : ℕ → BackingOffTimeout → Option BackingOffTimeout
rewind now t = backing_off_reset now (record t { cur_period = t.min_period })

unfoldable pub extend : ℕ → BackingOffTimeout → Option BackingOffTimeout
extend now t = ticks (t.cur_period * 2) >>= λ twice.
    backing_off_reset now (record t { cur_period = min twice t.max_period })
