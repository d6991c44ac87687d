-- ===== src/Common/Bits.antt =====
-- `|` of a field and the bits below it is their sum.
use Prim.Native.Nat.{
  ℕ, zero, suc, ◌+◌, ◌*◌, ◌/◌, ◌%◌, ◌^◌, ◌≤◌, ◌<◌, max, bit_or, digits, bit_or-bitwise,
}
use mathlib.Core.Path.{◌≡◌, refl, sym, ap, ap₂, ◌∙◌}
use mathlib.Core.Logic.{inl, inr}
use native.Mathlib.Nat.{pow-suc}
use native.Mathlib.Omega.{arith}
use eagine_core.Common.Tests.{Bool-cases, ltb}

-- What the native operation stands for, with fuel for the digits of the first operand.
abbrev or_digits : ℕ → ℕ → ℕ → ℕ
or_digits n a b = digits (λ y. y) max n a b

-- One more unit of fuel than the operand needs changes nothing.
or_digits-suc : (n a b : ℕ) → a ≤ n → or_digits (suc n) a b ≡ or_digits n a b
or_digits-suc n zero b h = or_none n
  where
    or_none : (n : ℕ) → b ≡ or_digits n zero b
    or_none zero = refl
    or_none (suc n) = refl
or_digits-suc zero (suc a) b h = absurd (omega arith)
or_digits-suc (suc n) (suc a) b h =
    ap (λ (t : ℕ). t * 2 + max (suc a % 2) (b % 2))
      (or_digits-suc n (suc a / 2) (b / 2) (omega arith))

or_digits-enough : (n a b : ℕ) → a ≤ n → or_digits n a b ≡ bit_or a b
or_digits-enough zero zero b h = sym (bit_or-bitwise 0 b)
or_digits-enough zero (suc a) b h = absurd (omega arith)
or_digits-enough (suc n) a b h = elim (Bool-cases (ltb n a)) [
  | inl last ↦ let e : a ≡ suc n = ground arith in rw e (sym (bit_or-bitwise (suc n) b))
  | inr less ↦ or_digits-suc n a b (ground arith) ∙ or_digits-enough n a b (ground arith)
]

bit_or-halves : (a b : ℕ) → bit_or a b ≡ bit_or (a / 2) (b / 2) * 2 + max (a % 2) (b % 2)
bit_or-halves zero b = omega (
  arith,
  sym (or_digits-enough 0 0 b (omega arith)),
  sym (or_digits-enough 0 0 (b / 2) (omega arith)),
)
bit_or-halves (suc a) b =
    bit_or-bitwise (suc a) b
    ∙ ap (λ (t : ℕ). t * 2 + max (suc a % 2) (b % 2))
        (or_digits-enough a (suc a / 2) (b / 2) (omega arith))

bit_or-zero_below : (n a : ℕ) → a ≤ n → bit_or a 0 ≡ a
bit_or-zero_below n zero h = refl
bit_or-zero_below zero (suc a) h = absurd (omega arith)
bit_or-zero_below (suc n) (suc a) h =
    omega (arith, bit_or-halves (suc a) 0, bit_or-zero_below n (suc a / 2) (omega arith))

-- The field stands above the lowest `k` bits.
pub bit_or-add : (k a b : ℕ) → b < 2 ^ k → bit_or (a * 2 ^ k) b ≡ a * 2 ^ k + b
bit_or-add zero a b h = ground (arith, bit_or-zero_below a a (omega arith))
bit_or-add (suc k) a b h =
    let twice : a * 2 ^ suc k ≡ 2 * (a * 2 ^ k) =
      omega (arith, ap (λ (t : ℕ). a * t) (pow-suc 2 k)) in
    ground (arith, bit_or-halves (a * 2 ^ suc k) b, twice, pow-suc 2 k, bit_or-add k a (b / 2))

twice_pow : (k x : ℕ) → x * 2 ^ suc k ≡ 2 * (x * 2 ^ k)
twice_pow k x = omega (arith, ap (λ (t : ℕ). x * t) (pow-suc 2 k))

-- The second operand leaves the lowest `k` bits alone.
pub bit_or-shifted :
    (k a b l : ℕ) → l < 2 ^ k → bit_or (a * 2 ^ k + l) (b * 2 ^ k) ≡ bit_or a b * 2 ^ k + l
bit_or-shifted zero a b l h =
    let none_below : l ≡ 0 = ground arith in
    rw none_below (ap₂ (λ (x y : ℕ). bit_or x y) (one_times a) (times_one b) ∙ omega arith)
  where
    one_times : (x : ℕ) → x * 2 ^ 0 + 0 ≡ x
    one_times x = omega arith

    times_one : (x : ℕ) → x * 2 ^ 0 ≡ x
    times_one x = omega arith
bit_or-shifted (suc k) a b l h =
    let A = a * 2 ^ suc k + l in
    let B = b * 2 ^ suc k in
    let half : A / 2 ≡ a * 2 ^ k + l / 2 = omega (arith, twice_pow k a) in
    let half' : B / 2 ≡ b * 2 ^ k = omega (arith, twice_pow k b) in
    bit_or-halves A B
    ∙ ap₂ (λ (x y : ℕ). bit_or x y * 2 + max (A % 2) (B % 2)) half half'
    ∙ ap (λ (x : ℕ). x * 2 + max (A % 2) (B % 2))
        (bit_or-shifted k a b (l / 2) (omega (arith, pow-suc 2 k)))
    ∙ omega (arith, twice_pow k a, twice_pow k b, twice_pow k (bit_or a b))
