-- ===== src/Memory/Biteset/Gather.antt =====
-- biteset.cpp: the loop that reads bits out of units gives the number that the bits stand for.
use Prim.Native.Nat.{bit_or}
use eagine_core.Common.{
  ℕ, zero, suc, ◌+◌, ◌-◌, ◌*◌, ◌/◌, ◌%◌, ◌^◌, ◌≤◌, ◌<◌, ◌≡◌, refl, sym, ap, ap₂, ◌∙◌, inl, inr,
  Bool, true, false, List, [], ◌∷◌, ◌++◌, arith, min, ltb, leb, take-length, Bool-cases, length,
  length-append, append_inj, take, drop, length-take, length-drop, take-append-drop,
}
use native.Mathlib.Nat.{mod-eq_of_lt}
use mathlib.Core.List.{append_assoc, append-nil}
use eagine_core.Common.Bits.{bit_or-add}
use eagine_core.Common.BitStream.{
  bits_of, number, number-bits_of, length-bits_of, stream, bits_of-append, number-append, number-lt,
  mod-pow-mod, pow_le,
}
use eagine_core.Memory.Biteset.Code.{get_bits}

-- The units that a loop reads, from one of them on.
abbrev pub units_from : (ℕ → ℕ) → ℕ → ℕ → List ℕ
units_from units c zero = []
units_from units c (suc k) = units c ∷ units_from units (c + 1) k

-- A field of a unit in the middle of its bits.
pub bits_of-split :
    (a b c v : ℕ)
    → bits_of (a + (b + c)) v
      ≡ bits_of a (v / 2 ^ (b + c)) ++ (bits_of b (v / 2 ^ c) ++ bits_of c v)
bits_of-split a b c v =
    bits_of-append a (b + c) v ∙ ap (λ l. bits_of a (v / 2 ^ (b + c)) ++ l) (bits_of-append b c v)

-- The value with more bits below it, when there is room.
push_bits :
    (width : ℕ) (acc x : List Bool) (v : ℕ)
    → length acc + length x ≤ width
    → bits_of (length x) v ≡ x
    → bit_or (number acc * 2 ^ length x % 2 ^ width) (v % 2 ^ width % 2 ^ length x)
      ≡ number (acc ++ x)
push_bits width acc x v h e =
    let m = length x in
    let low : v % 2 ^ width % 2 ^ m ≡ number x =
      mod-pow-mod m width v (omega arith) ∙ sym (number-bits_of m v) ∙ ap number e in
    let fits : 2 ^ length (acc ++ x) ≤ 2 ^ width =
      pow_le (length (acc ++ x)) width (omega (arith, length-append acc x)) in
    let wide : number acc * 2 ^ m + number x < 2 ^ width =
      omega (arith, number-append acc x, number-lt (acc ++ x)) in
    let high : number acc * 2 ^ m % 2 ^ width ≡ number acc * 2 ^ m = mod-eq_of_lt (omega arith) in
    ap₂ (λ (s t : ℕ). bit_or s t) high low
    ∙ bit_or-add m (number acc) (number x) (number-lt x)
    ∙ sym (number-append acc x)

pub get_bits_done :
    (units : ℕ → ℕ) (unit width n state bb be c : ℕ)
    → be ≤ bb
    → get_bits units unit width n state bb be c ≡ state
unfolding get_bits
get_bits_done units unit width zero state bb be c h = refl
get_bits_done units unit width (suc n) state bb be c h =
    let over : ltb bb be ≡ false = ground arith in rw over refl

-- What one step of the loop finds in a unit: the first of the bits that are asked for.
pub field_lem :
    (unit u : ℕ) (o x more z after : List Bool)
    → length o + length x ≤ unit
    → bits_of unit u ++ after ≡ o ++ ((x ++ more) ++ z)
    → (bits_of (length o) (u / 2 ^ (length x + (unit - length o - length x))) ≡ o)
      × (bits_of (length x) (u / 2 ^ (unit - length o - length x)) ≡ x)
      × (bits_of (unit - length o - length x) u ++ after ≡ more ++ z)
field_lem unit u o x more z after h e =
    let a = length o in
    let b = length x in
    let c = unit - a - b in
    let width : a + (b + c) ≡ unit = omega arith in
    let A = bits_of a (u / 2 ^ (b + c)) in
    let B = bits_of b (u / 2 ^ c) in
    let C = bits_of c u in
    let left : A ++ (B ++ (C ++ after)) ≡ bits_of unit u ++ after = sym (
      ap (λ l. l ++ after) (ap (λ n. bits_of n u) (sym width) ∙ bits_of-split a b c u)
      ∙ append_assoc A (B ++ C) after
      ∙ ap (λ l. A ++ l) (append_assoc B C after)) in
    let right : o ++ ((x ++ more) ++ z) ≡ o ++ (x ++ (more ++ z)) =
      ap (λ l. o ++ l) (append_assoc x more z) in
    let (front, inner) = append_inj A o _ _ (length-bits_of a _) (left ∙ e ∙ right) in
    let (found, back) = append_inj B x _ _ (length-bits_of b _) inner in (front, found, back)

step_value :
    (width unit u : ℕ) (acc o now : List Bool) (offset bl : ℕ)
    → offset ≡ length o
    → length now ≡ bl
    → bits_of (length now) (u / 2 ^ (unit - length o - length now)) ≡ now
    → length acc + length now ≤ width
    → bit_or (number acc * 2 ^ bl % 2 ^ width) (u / 2 ^ (unit - offset - bl) % 2 ^ width % 2 ^ bl)
      ≡ number (acc ++ now)
step_value width unit u acc o now offset bl bo size found h =
    ap₂
      (λ (m p : ℕ).
        bit_or (number acc * 2 ^ m % 2 ^ width) (u / 2 ^ (unit - p - m) % 2 ^ width % 2 ^ m))
      (sym size) bo
    ∙ push_bits width acc now (u / 2 ^ (unit - length o - length now)) h found

module _ (units : ℕ → ℕ) (unit width : ℕ) where
  -- Enough steps read the bits `x` that stand in the units after `o`.
  pub get_bits_lem :
      (n k : ℕ) (acc o x z : List Bool) (bb be c : ℕ)
      → length acc + length x ≤ width
      → length o + length x ≤ n * unit
      → length o < unit
      → bb ≡ c * unit + length o
      → be ≡ bb + length x
      → stream unit (units_from units c k) ≡ o ++ (x ++ z)
      → get_bits units unit width n (number acc) bb be c ≡ number (acc ++ x)
  unfolding get_bits stream bits_of
  get_bits_lem n k acc o [] z bb be c hw hn ho hb he e =
      get_bits_done units unit width n (number acc) bb be c (omega arith)
      ∙ ap number (sym (append-nil acc))
  get_bits_lem zero k acc o (b ∷ x) z bb be c hw hn ho hb he e = absurd (omega arith)
  get_bits_lem (suc n) zero acc o (b ∷ x) z bb be c hw hn ho hb he e =
      absurd (omega (arith, ap length e, length-append o ((b ∷ x) ++ z)))
  get_bits_lem (suc n) (suc k) acc o (b ∷ x) z bb be c hw hn ho hb he e =
      let go_on : ltb bb be ≡ true = ground arith in
      let X = b ∷ x in
      let bl = min (be - bb) (unit - (bb - c * unit)) in
      let now = take bl X in
      let more = drop bl X in
      let bo : bb - c * unit ≡ length o = omega arith in
      let asked : be - bb ≡ length X = omega arith in
      let size : length now ≡ bl = omega (arith, length-take bl X) in
      let whole : now ++ more ≡ X = take-append-drop bl X in
      let (before, found, after) =
        field_lem unit (units c) o now more z (stream unit (units_from units (c + 1) k))
          (omega arith) (e ∙ ap (λ l. o ++ (l ++ z)) (sym whole)) in
      let value =
        step_value width unit (units c) acc o now (bb - c * unit) bl bo size found (omega arith) in
      rw go_on (
        ap (λ (t : ℕ). get_bits units unit width n t (bb + bl) be (c + 1)) value
        ∙ elim (Bool-cases (leb (length X) (unit - length o))) [
          | inl last ↦
              let all : length X ≤ bl = ground arith in
              get_bits_done units unit width n (number (acc ++ now)) (bb + bl) be (c + 1)
                (omega arith)
              ∙ ap (λ l. number (acc ++ l)) (take-length bl X all)
          | inr further ↦
              let none_left : unit - length o - length now ≡ 0 = ground arith in
              let next_unit : (c + 1) * unit ≡ c * unit + unit = grind arith in
              let fuel : suc n * unit ≡ n * unit + unit = grind arith in
              let left : length more ≡ length X - bl = length-drop bl X in
              get_bits_lem n k (acc ++ now) [] more z (bb + bl) be (c + 1)
                (omega (arith, length-append acc now)) (ground arith) (omega arith) (ground arith)
                (ground arith)
                (ap (λ m. bits_of m (units c) ++ stream unit (units_from units (c + 1) k))
                    (sym none_left)
                  ∙ after)
              ∙ ap number (append_assoc acc now more ∙ ap (λ l. acc ++ l) whole)
        ])
