-- ===== src/Utility/Timeout/BackingOff.antt =====
-- timeout.cpp: the period of a backing off timeout, over every sequence of its operations.
use eagine_core.Common.{
  ℕ, ◌+◌, ◌*◌, ◌^◌, ◌≤◌, ◌<◌, ◌≡◌, refl, sym, ap, ◌∙◌, min, List, [], ◌∷◌, arith, length, leb, inl,
  inr, Bool-cases, Option, some, ◌>>=◌,
}
use native.Mathlib.Nat.{pow-suc}
use eagine_core.Common.BitStream.{two_pow_pos}
use eagine_core.Utility.Timeout.Code.{
  BackingOffTimeout, backing_off_timeout, backing_off_timeout_expired, backing_off_reset, rewind,
  extend,
}
use eagine_core.Utility.Timeout.Firing.{ticks_lem}

-- The states that the operations reach, with the last reading of a clock that does not go back.
pub data Reachable (least most : ℕ) : ℕ → BackingOffTimeout → Type 0 where
  made :
      (now : ℕ) (t : BackingOffTimeout)
      → backing_off_timeout now least most ≡ some t
      → Reachable least most now t
  made_expired : (now : ℕ) → Reachable least most now (backing_off_timeout_expired now least most)
  was_reset :
      (now later : ℕ) (t r : BackingOffTimeout)
      → now ≤ later
      → backing_off_reset later t ≡ some r
      → Reachable least most now t
      → Reachable least most later r
  was_rewound :
      (now later : ℕ) (t r : BackingOffTimeout)
      → now ≤ later
      → rewind later t ≡ some r
      → Reachable least most now t
      → Reachable least most later r
  was_extended :
      (now later : ℕ) (t r : BackingOffTimeout)
      → now ≤ later
      → extend later t ≡ some r
      → Reachable least most now t
      → Reachable least most later r

-- The bounds that the timeout was made with, and its period and deadline within them.
abbrev pub InBounds : ℕ → ℕ → ℕ → BackingOffTimeout → Type 0
InBounds least most now t =
    (t.min_period ≡ least)
    × (t.max_period ≡ most)
    × (least ≤ t.cur_period)
    × (t.cur_period ≤ most)
    × (now ≤ t.deadline)
    × (t.deadline ≤ now + most)

-- A call that does not overflow and leaves a timeout within its bounds.
abbrev pub RunsInBounds : ℕ → ℕ → ℕ → Option BackingOffTimeout → Type 0
RunsInBounds least most now o = (r : BackingOffTimeout) × (o ≡ some r) × InBounds least most now r

-- What a call gives, if it does not overflow, is within the bounds.
abbrev IfInBounds : ℕ → ℕ → ℕ → Option BackingOffTimeout → Type 0
IfInBounds least most now o = (r : BackingOffTimeout) → o ≡ some r → InBounds least most now r

-- Extended at each of the readings of the clock.
abbrev pub extend_each : List ℕ → BackingOffTimeout → Option BackingOffTimeout
extend_each [] t = some t
extend_each (now ∷ times) t = extend now t >>= λ next. extend_each times next

capped : (c p m : ℕ) → 0 < p → min (min (c * 2) m * p) m ≡ min (c * (p * 2)) m
capped c p m h = elim (Bool-cases (leb (c * 2) m)) [
  | inl below ↦
      let e : min (c * 2) m ≡ c * 2 = ground arith in
      let f : c * 2 * p ≡ c * (p * 2) = grind arith in rw (e, f) refl
  | inr above ↦
      let e : min (c * 2) m ≡ m = ground arith in
      let f : m ≤ m * p = grind arith in
      let g : c * 2 ≤ c * (p * 2) = grind arith in rw e (ground arith)
]

-- The readings of the clock leave room for the greatest period.
abbrev pub LeaveRoom : ℕ → List ℕ → Type 0
LeaveRoom most [] = Unit
LeaveRoom most (now ∷ times) = (now + most < 2 ^ 63) × LeaveRoom most times

extended :
    (now : ℕ) (t : BackingOffTimeout)
    → t.cur_period ≤ t.max_period
    → t.max_period * 2 < 2 ^ 63
    → now + t.max_period < 2 ^ 63
    → extend now t
      ≡ some (record t {
        cur_period = min (t.cur_period * 2) t.max_period;
        deadline = now + min (t.cur_period * 2) t.max_period;
      })
unfolding extend backing_off_reset
extended now t h twice here =
    rw
      (
        ticks_lem (t.cur_period * 2) (omega arith),
        ticks_lem (now + min (t.cur_period * 2) t.max_period) (omega arith),
      )
      refl

-- Extended any number of times without overflow, the period is doubled each time, up to the greatest.
cur_period-extend_each :
    (times : List ℕ) (t : BackingOffTimeout)
    → t.cur_period ≤ t.max_period
    → t.max_period * 2 < 2 ^ 63
    → LeaveRoom t.max_period times
    → (r : BackingOffTimeout) × (extend_each times t ≡ some r)
      × (r.cur_period ≡ min (t.cur_period * 2 ^ length times) t.max_period)
cur_period-extend_each [] t h twice room = (t, refl, omega arith)
cur_period-extend_each (now ∷ times) t h twice (here, room) =
    let next : BackingOffTimeout = record t {
      cur_period = min (t.cur_period * 2) t.max_period;
      deadline = now + min (t.cur_period * 2) t.max_period;
    } in
    let (r, runs, period) = cur_period-extend_each times next (omega arith) twice room in
    (
      r,
      rw (extended now t h twice here) runs,
      period
          ∙ capped t.cur_period (2 ^ length times) t.max_period (two_pow_pos (length times))
          ∙ ap (λ (p : ℕ). min (t.cur_period * p) t.max_period) (sym (pow-suc 2 (length times))),
    )
