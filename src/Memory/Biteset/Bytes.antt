-- ===== src/Memory/Biteset/Bytes.antt =====
-- byteset.cpp: an unsigned integer as bytes, the highest first.
use Prim.Native.Nat.{bit_or}
use eagine_core.Common.{
  ℕ, zero, suc, ◌+◌, ◌*◌, ◌/◌, ◌%◌, ◌^◌, ◌<◌, ◌≡◌, refl, sym, ap, ap₂, ◌∙◌, List, [], ◌∷◌, ◌++◌,
  arith, length,
}
use native.Mathlib.Nat.{mod-lt, mod-eq_of_lt}
use eagine_core.Common.Bits.{bit_or-add}
use eagine_core.Common.BitStream.{
  bits_of, number, number-bits_of, stream, bits_of-append, bits_of-mod, number-append, two_pow_pos,
  length-stream, pow-add,
}
use eagine_core.Memory.BitDensity.Chunks.{AllBelow}

unfoldable pub byteset_of : ℕ → ℕ → List ℕ
byteset_of zero init = []
byteset_of (suc n) init = init / 2 ^ (8 * n) % 2 ^ 8 ∷ byteset_of n init

-- The fold over `|` from the left.
unfoldable pub as_from : ℕ → List ℕ → ℕ
as_from value [] = value
as_from value (b ∷ bytes) = as_from (bit_or value (b * 2 ^ (8 * length bytes))) bytes

unfoldable pub as_uint : List ℕ → ℕ
as_uint bytes = as_from 0 bytes

-- The bits of the bytes are those of the integer.
pub stream-byteset_of : (n init : ℕ) → stream 8 (byteset_of n init) ≡ bits_of (8 * n) init
unfolding byteset_of stream bits_of
stream-byteset_of zero init = refl
stream-byteset_of (suc n) init =
    let width : 8 * suc n ≡ 8 + 8 * n = omega arith in
    ap₂ (λ k l. k ++ l) (bits_of-mod 8 8 (init / 2 ^ (8 * n)) (omega arith))
      (stream-byteset_of n init)
    ∙ sym (bits_of-append 8 (8 * n) init)
    ∙ ap (λ w. bits_of w init) (sym width)

-- The integer is the number of the bits.
as_from_lem :
    (bytes : List ℕ) (q : ℕ)
    → AllBelow (2 ^ 8) bytes
    → as_from (q * 2 ^ (8 * length bytes)) bytes
      ≡ q * 2 ^ (8 * length bytes) + number (stream 8 bytes)
unfolding as_from stream number
as_from_lem [] q h = omega arith
as_from_lem (b ∷ bytes) q (hb, h) =
    let n = 8 * length bytes in
    let P = 2 ^ n in
    let wide : 2 ^ (8 * suc (length bytes)) ≡ 2 ^ 8 * P =
      ap (λ (t : ℕ). 2 ^ t) (omega arith) ∙ pow-add 8 n in
    let field : b * P < 2 ^ (8 * suc (length bytes)) = rw wide (byte-lt b P (two_pow_pos n) hb) in
    let joined : q * 2 ^ (8 * suc (length bytes)) + b * P ≡ (q * 2 ^ 8 + b) * P =
      rw wide (join q b P) in
    let low : number (stream 8 (b ∷ bytes)) ≡ b * P + number (stream 8 bytes) =
      number-append (bits_of 8 b) (stream 8 bytes)
      ∙ ap₂ (λ (c w : ℕ). c * 2 ^ w + number (stream 8 bytes))
          (number-bits_of 8 b ∙ mod-eq_of_lt hb) (length-stream 8 bytes) in
    ap (λ (t : ℕ). as_from t bytes) (bit_or-add (8 * suc (length bytes)) q (b * P) field ∙ joined)
    ∙ as_from_lem bytes (q * 2 ^ 8 + b) h
    ∙ omega (arith, joined, low)
  where
    byte-lt : (b P : ℕ) → 0 < P → b < 2 ^ 8 → b * P < 2 ^ 8 * P
    byte-lt b P pos h = grind arith

    join : (q b P : ℕ) → q * (2 ^ 8 * P) + b * P ≡ (q * 2 ^ 8 + b) * P
    join q b P = grind arith

pub as_uint-number :
    (bytes : List ℕ) → AllBelow (2 ^ 8) bytes → as_uint bytes ≡ number (stream 8 bytes)
unfolding as_uint
as_uint-number bytes h =
    let e : 0 * 2 ^ (8 * length bytes) ≡ 0 = omega arith in
    ap (λ (t : ℕ). as_from t bytes) (sym e)
    ∙ as_from_lem bytes 0 h
    ∙ ap (λ (t : ℕ). t + number (stream 8 bytes)) e
    ∙ omega arith

pub AllBelow-byteset_of : (n init : ℕ) → AllBelow (2 ^ 8) (byteset_of n init)
unfolding byteset_of
AllBelow-byteset_of zero init = tt
AllBelow-byteset_of (suc n) init =
    (mod-lt (init / 2 ^ (8 * n)) (two_pow_pos 8), AllBelow-byteset_of n init)

-- The lowest bits of an integer come back from its bytes.
pub as_uint-byteset_of : (n init : ℕ) → as_uint (byteset_of n init) ≡ init % 2 ^ (8 * n)
as_uint-byteset_of n init =
    as_uint-number (byteset_of n init) (AllBelow-byteset_of n init)
    ∙ ap number (stream-byteset_of n init)
    ∙ number-bits_of (8 * n) init
