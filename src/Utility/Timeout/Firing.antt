-- ===== src/Utility/Timeout/Firing.antt =====
-- timeout.cpp: how often a resetting timeout expires.
use eagine_core.Common.{
  ℕ, ◌+◌, ◌^◌, ◌≤◌, ◌<◌, ◌≡◌, refl, some, List, [], ◌∷◌, arith, ltb, lt→ltb, leb→le, le→leb, inl,
  inr, Bool-cases, true, false,
}
use eagine_core.Utility.Timeout.Code.{Timeout, ticks, is_expired, reset, resetting_check, fired}

-- Two readings of the clock for each check: the clock does not go back, and its readings leave room
-- for the period.
abbrev pub AreReadings : ℕ → ℕ → List (ℕ × ℕ) → Type 0
AreReadings period last [] = Unit
AreReadings period last ((now, later) ∷ times) =
    (last ≤ now) × (now ≤ later) × (later + period < 2 ^ 63) × AreReadings period later times

-- Each time is at least `gap` after the one before it, and the first after `from`.
abbrev pub IsSpaced : ℕ → ℕ → List ℕ → Type 0
IsSpaced gap from [] = Unit
IsSpaced gap from (t ∷ ts) = (from ≤ t) × IsSpaced gap (t + gap) ts

IsSpaced-le :
    (gap from to : ℕ) (ts : List ℕ) → from ≤ to → IsSpaced gap to ts → IsSpaced gap from ts
IsSpaced-le gap from to [] h s = tt
IsSpaced-le gap from to (t ∷ ts) h (first, rest) = (omega arith, rest)

pub ticks_lem : (n : ℕ) → n < 2 ^ 63 → ticks n ≡ some n
unfolding ticks
ticks_lem n h = let fits : ltb n (2 ^ 63) ≡ true = lt→ltb n (2 ^ 63) h in rw fits refl

expired_check :
    (now later : ℕ) (t : Timeout)
    → t.deadline ≤ now
    → later + t.period < 2 ^ 63
    → resetting_check now later t ≡ some (true, record t { deadline = later + t.period })
unfolding resetting_check reset is_expired
expired_check now later t h room =
    let over = le→leb t.deadline now h in rw (over, ticks_lem (later + t.period) room) refl

early_check :
    (now later : ℕ) (t : Timeout)
    → is_expired now t ≡ false
    → resetting_check now later t ≡ some (false, t)
unfolding resetting_check
early_check now later t before = rw before refl

-- When a resetting timeout is checked with a clock that does not go back and whose readings leave
-- room for the period, no sum overflows, and the times at which it has expired begin no earlier than
-- its deadline and are at least its period apart.
pub fired-IsSpaced :
    (times : List (ℕ × ℕ)) (t : Timeout) (last : ℕ)
    → AreReadings t.period last times
    → (ts : List ℕ) × (fired times t ≡ some ts) × IsSpaced t.period t.deadline ts
unfolding fired is_expired
fired-IsSpaced [] t last h = ([], refl, tt)
fired-IsSpaced ((now, later) ∷ times) t last (start, le, room, h) =
    elim (Bool-cases (is_expired now t)) [
      | inl over ↦
          let from = leb→le t.deadline now over in
          let next : Timeout = record t { deadline = later + t.period } in
          let (ts, ran, spaced) = fired-IsSpaced times next later h in
          let gap =
            IsSpaced-le t.period (now + t.period) (later + t.period) ts (omega arith) spaced in
          (now ∷ ts, rw (fired, expired_check now later t from room, ran) refl, (from, gap))
      | inr before ↦
          let (ts, ran, spaced) = fired-IsSpaced times t later h in
          (ts, rw (fired, early_check now later t before, ran) refl, spaced)
    ]
