-- ===== src/Common/BitStream.antt =====
-- A number as its bits, the highest first, and lists of numbers as one stream of bits.
use Prim.Native.Nat.{ℕ, zero, suc, ◌+◌, ◌-◌, ◌*◌, ◌/◌, ◌%◌, ◌^◌, ◌≤◌, ◌<◌}
use mathlib.Core.Path.{◌≡◌, refl, sym, ap, ap₂, ◌∙◌}
use mathlib.Core.Bool.{Bool, true, false}
use mathlib.Core.List.{List, [], ◌∷◌, ◌++◌, append_assoc}
use native.Mathlib.Nat.{
  pow-suc, mod-lt, mod-eq_of_lt, zero-div, div-add-mod', mul-add-mod_self_right, mul-add-div_right,
  div-eq_of_lt, div-div-eq-div-mul, dvd-mul_left, mod-mod_of_dvd,
}
use native.Mathlib.Omega.{arith}
use eagine_core.Common.Tests.{◌==◌}
use eagine_core.Common.Lists.{length, replicate, replicate-add, length-append}

abbrev pub bit_value : Bool → ℕ
bit_value true = 1
bit_value false = 0

abbrev pub is_odd : ℕ → Bool
is_odd v = v % 2 == 1

unfoldable pub number : List Bool → ℕ
number [] = 0
number (b ∷ bs) = bit_value b * 2 ^ length bs + number bs

-- The lowest `w` bits of a number.
unfoldable pub bits_of : ℕ → ℕ → List Bool
bits_of zero v = []
bits_of (suc w) v = is_odd (v / 2 ^ w) ∷ bits_of w v

unfoldable pub stream : ℕ → List ℕ → List Bool
stream w [] = []
stream w (v ∷ vs) = bits_of w v ++ stream w vs

pub length-bits_of : (w v : ℕ) → length (bits_of w v) ≡ w
unfolding bits_of
length-bits_of zero v = refl
length-bits_of (suc w) v = ap suc (length-bits_of w v)

pub two_pow_pos : (k : ℕ) → 0 < 2 ^ k
two_pow_pos zero = omega arith
two_pow_pos (suc k) = omega (arith, pow-suc 2 k, two_pow_pos k)

pub number-lt : (bs : List Bool) → number bs < 2 ^ length bs
unfolding number
number-lt [] = omega arith
number-lt (true ∷ bs) = omega (arith, pow-suc 2 (length bs), number-lt bs)
number-lt (false ∷ bs) = omega (arith, pow-suc 2 (length bs), number-lt bs)

bit_value-is_odd : (v : ℕ) → bit_value (is_odd v) ≡ v % 2
bit_value-is_odd v = ground arith

bit-lt : (q : ℕ) → q % 2 < 2
bit-lt q = omega arith

halves_with : (h b P m : ℕ) → b < 2 → m < P → ((h * 2 + b) * P + m) % (P * 2) ≡ b * P + m
halves_with h b P m hb hm =
    let whole : (h * 2 + b) * P + m ≡ h * (P * 2) + (b * P + m) = grind arith in
    ap (λ (t : ℕ). t % (P * 2)) whole
    ∙ mul-add-mod_self_right h (P * 2) (b * P + m)
    ∙ mod-eq_of_lt (grind arith)

-- The bit above the lowest `w`, and those.
mod-pow-suc : (w v : ℕ) → v % 2 ^ suc w ≡ v / 2 ^ w % 2 * 2 ^ w + v % 2 ^ w
mod-pow-suc w v =
    let q = v / 2 ^ w in
    let split : v ≡ (q / 2 * 2 + q % 2) * 2 ^ w + v % 2 ^ w =
      sym (ap (λ (t : ℕ). t * 2 ^ w + v % 2 ^ w) (div-add-mod' q 2) ∙ div-add-mod' v (2 ^ w)) in
    ap₂ (λ (a b : ℕ). a % b) split (pow-suc 2 w)
    ∙ halves_with (q / 2) (q % 2) (2 ^ w) (v % 2 ^ w) (bit-lt q) (mod-lt v (two_pow_pos w))

pub number-bits_of : (w v : ℕ) → number (bits_of w v) ≡ v % 2 ^ w
unfolding bits_of number
number-bits_of zero v = omega arith
number-bits_of (suc w) v =
    rw (length-bits_of w v, number-bits_of w v, bit_value-is_odd (v / 2 ^ w))
      (sym (mod-pow-suc w v))

pub pow-add : (a b : ℕ) → 2 ^ (a + b) ≡ 2 ^ a * 2 ^ b
pow-add zero b = let e : 0 + b ≡ b = omega arith in rw e (omega arith)
pow-add (suc a) b =
    let e : suc a + b ≡ suc (a + b) = omega arith in
    rw (e, pow-suc 2 (a + b), pow-suc 2 a, pow-add a b) (grind arith)

pub pow_le : (a b : ℕ) → a ≤ b → 2 ^ a ≤ 2 ^ b
pow_le a b h =
    let e : 2 ^ b ≡ 2 ^ (b - a) * 2 ^ a = ap (λ (t : ℕ). 2 ^ t) (omega arith) ∙ pow-add (b - a) a in
    rw e (le_times (2 ^ (b - a)) (2 ^ a) (two_pow_pos (b - a)))
  where
    le_times : (x y : ℕ) → 0 < x → y ≤ x * y
    le_times x y h = grind arith

pub bits_of-append : (a b v : ℕ) → bits_of (a + b) v ≡ bits_of a (v / 2 ^ b) ++ bits_of b v
unfolding bits_of
bits_of-append zero b v = ap (λ w. bits_of w v) (omega arith)
bits_of-append (suc a) b v =
    let e : suc a + b ≡ suc (a + b) = omega arith in
    let swap : 2 ^ (a + b) ≡ 2 ^ b * 2 ^ a = rw (pow-add a b) (grind arith) in
    let d : v / 2 ^ (a + b) ≡ v / 2 ^ b / 2 ^ a =
      ap (λ (t : ℕ). v / t) swap ∙ sym (div-div-eq-div-mul v (2 ^ b) (2 ^ a)) in
    rw e (ap₂ (λ x xs. x ∷ xs) (ap is_odd d) (bits_of-append a b v))

fields_equal :
    (b c P m n : ℕ) → b < 2 → c < 2 → m < P → n < P → b * P + m ≡ c * P + n → (b ≡ c) × (m ≡ n)
fields_equal zero zero P m n hb hc hm hn e = ground arith
fields_equal zero (suc zero) P m n hb hc hm hn e = ground arith
fields_equal (suc zero) zero P m n hb hc hm hn e = ground arith
fields_equal (suc zero) (suc zero) P m n hb hc hm hn e = ground arith
fields_equal (suc (suc b)) c P m n hb hc hm hn e = absurd (omega arith)
fields_equal b (suc (suc c)) P m n hb hc hm hn e = absurd (omega arith)

-- Only the remainder matters.
pub bits_of-cong : (w u v : ℕ) → u % 2 ^ w ≡ v % 2 ^ w → bits_of w u ≡ bits_of w v
unfolding bits_of
bits_of-cong zero u v h = refl
bits_of-cong (suc w) u v h =
    let (top, low) =
      fields_equal (u / 2 ^ w % 2) (v / 2 ^ w % 2) (2 ^ w) (u % 2 ^ w) (v % 2 ^ w)
        (bit-lt (u / 2 ^ w)) (bit-lt (v / 2 ^ w)) (mod-lt u (two_pow_pos w))
        (mod-lt v (two_pow_pos w)) (sym (mod-pow-suc w u) ∙ h ∙ mod-pow-suc w v) in
    ap₂ (λ x xs. x ∷ xs) (ap (λ (t : ℕ). t == 1) top) (bits_of-cong w u v low)

-- A higher remainder keeps the lower one.
pub mod-pow-mod : (w k v : ℕ) → w ≤ k → v % 2 ^ k % 2 ^ w ≡ v % 2 ^ w
mod-pow-mod w k v h =
    let d = k - w in
    let split : 2 ^ k ≡ 2 ^ d * 2 ^ w = ap (λ (t : ℕ). 2 ^ t) (omega arith) ∙ pow-add d w in
    mod-mod_of_dvd (2 ^ w) v (rw split (dvd-mul_left (2 ^ w) (2 ^ d)))

mul-mod-mul : (w P B : ℕ) → 0 < P → 0 < B → w * B % (P * B) ≡ w % P * B
mul-mod-mul w P B hp hb =
    let q = w / P in
    let m = w % P in
    let low : m < P = mod-lt w hp in
    let whole : w * B ≡ q * (P * B) + m * B =
      ap (λ (t : ℕ). t * B) (sym (div-add-mod' w P)) ∙ spread q P m B in
    let inside : m * B < P * B = below m P B low hb in
    ap (λ (t : ℕ). t % (P * B)) whole
    ∙ mul-add-mod_self_right q (P * B) (m * B)
    ∙ mod-eq_of_lt inside
  where
    spread : (q P m B : ℕ) → (q * P + m) * B ≡ q * (P * B) + m * B
    spread q P m B = grind arith

    below : (m P B : ℕ) → m < P → 0 < B → m * B < P * B
    below m P B low pos = grind arith

-- A shift to the left that wraps keeps the bits that stay inside.
pub shift-wraps : (w b word : ℕ) → b ≤ word → w * 2 ^ b % 2 ^ word ≡ w % 2 ^ (word - b) * 2 ^ b
shift-wraps w b word h =
    let d = word - b in
    let split : 2 ^ word ≡ 2 ^ d * 2 ^ b = ap (λ (t : ℕ). 2 ^ t) (omega arith) ∙ pow-add d b in
    rw split (mul-mod-mul w (2 ^ d) (2 ^ b) (two_pow_pos d) (two_pow_pos b))

pub bits_of-mod : (w k v : ℕ) → w ≤ k → bits_of w (v % 2 ^ k) ≡ bits_of w v
bits_of-mod w k v h = bits_of-cong w (v % 2 ^ k) v (mod-pow-mod w k v h)

-- A number in two fields.
pub bits_of-fields :
    (a b q u : ℕ) → u < 2 ^ b → bits_of (a + b) (q * 2 ^ b + u) ≡ bits_of a q ++ bits_of b u
bits_of-fields a b q u h =
    bits_of-append a b (q * 2 ^ b + u)
    ∙ ap₂ (λ x y. bits_of a x ++ y)
        (mul-add-div_right (two_pow_pos b) q u
          ∙ ap (λ (t : ℕ). q + t) (div-eq_of_lt h)
          ∙ omega arith)
        (bits_of-cong b (q * 2 ^ b + u) u (mul-add-mod_self_right q (2 ^ b) u))

pub bits_of-number : (bs : List Bool) → bits_of (length bs) (number bs) ≡ bs
unfolding bits_of number
bits_of-number [] = refl
bits_of-number (b ∷ bs) =
    let e : suc (length bs) ≡ 1 + length bs = omega arith in
    ap (λ w. bits_of w (number (b ∷ bs))) e
    ∙ bits_of-fields 1 (length bs) (bit_value b) (number bs) (number-lt bs)
    ∙ ap₂ (λ x xs. x ∷ xs) (one_bit b) (bits_of-number bs)
  where
    one_bit : (b : Bool) → is_odd (bit_value b / 2 ^ 0) ≡ b
    one_bit true = refl
    one_bit false = refl

pub stream-append : (w : ℕ) (us vs : List ℕ) → stream w (us ++ vs) ≡ stream w us ++ stream w vs
unfolding stream
stream-append w [] vs = refl
stream-append w (u ∷ us) vs =
    rw (stream-append w us vs) (sym (append_assoc (bits_of w u) (stream w us) (stream w vs)))

pub length-stream : (w : ℕ) (vs : List ℕ) → length (stream w vs) ≡ w * length vs
unfolding stream
length-stream w [] = omega arith
length-stream w (v ∷ vs) =
    rw (length-append (bits_of w v) (stream w vs), length-bits_of w v, length-stream w vs)
      (grind arith)

pub bits_of-zero : (w : ℕ) → bits_of w 0 ≡ replicate w false
unfolding bits_of
bits_of-zero zero = refl
bits_of-zero (suc w) =
    let e : is_odd (0 / 2 ^ w) ≡ false = ap is_odd (zero-div (2 ^ w)) in
    ap₂ (λ x xs. x ∷ xs) e (bits_of-zero w)

pub number-append : (xs ys : List Bool) → number (xs ++ ys) ≡ number xs * 2 ^ length ys + number ys
unfolding number
number-append [] ys = omega arith
number-append (b ∷ xs) ys =
    rw (length-append xs ys, pow-add (length xs) (length ys), number-append xs ys) (grind arith)

pub number-below : (l : List Bool) (n : ℕ) → length l ≡ n → number l < 2 ^ n
number-below l n e = omega (arith, number-lt l, ap (λ (t : ℕ). 2 ^ t) e)

pub stream-zeros : (w k : ℕ) → stream w (replicate k 0) ≡ replicate (k * w) false
unfolding stream
stream-zeros w zero = let e : 0 * w ≡ 0 = omega arith in rw e refl
stream-zeros w (suc k) =
    let e : suc k * w ≡ w + k * w = grind arith in
    rw e (
      ap₂ (λ l m. l ++ m) (bits_of-zero w) (stream-zeros w k) ∙ sym (replicate-add w (k * w) false))
