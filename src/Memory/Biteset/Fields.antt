-- ===== src/Memory/Biteset/Fields.antt =====
-- biteset.cpp: a field of a byte replaced by other bits.
use Prim.Native.Nat.{bit_or}
use eagine_core.Common.{
  ℕ, ◌+◌, ◌-◌, ◌*◌, ◌/◌, ◌%◌, ◌^◌, ◌≤◌, ◌<◌, ◌≡◌, sym, ap, ap₂, ◌∙◌, Bool, List, ◌++◌, arith,
  length,
}
use native.Mathlib.Nat.{mod-lt, div-add-mod', div-div-eq-div-mul, add_comm}
use mathlib.Core.List.{append_assoc}
use eagine_core.Common.Bits.{bit_or-add, bit_or-shifted}
use eagine_core.Common.BitStream.{bits_of, bits_of-mod, bits_of-fields, two_pow_pos, pow-add}
use eagine_core.Memory.Biteset.Code.{set_byte_bits}
use eagine_core.Memory.Biteset.Gather.{field_lem}

cleared_field :
    (u b c : ℕ) → u - u / 2 ^ c % 2 ^ b * 2 ^ c ≡ u / 2 ^ c / 2 ^ b * 2 ^ b * 2 ^ c + u % 2 ^ c
cleared_field u b c =
    let up = u / 2 ^ c in
    let whole : up * 2 ^ c + u % 2 ^ c ≡ u = div-add-mod' u (2 ^ c) in
    let parts : up / 2 ^ b * 2 ^ b * 2 ^ c + up % 2 ^ b * 2 ^ c ≡ up * 2 ^ c =
      spread (up / 2 ^ b * 2 ^ b) (up % 2 ^ b) (2 ^ c)
      ∙ ap (λ (t : ℕ). t * 2 ^ c) (div-add-mod' up (2 ^ b)) in
    omega arith
  where
    spread : (x y z : ℕ) → x * z + y * z ≡ (x + y) * z
    spread x y z = grind arith

-- The bits of a byte with a field replaced.
bits_of-set_byte_bits :
    (v u a b : ℕ)
    → a + b ≤ 8
    → v < 2 ^ b
    → bits_of 8 (set_byte_bits v u a b)
      ≡ bits_of a (u / 2 ^ (b + (8 - a - b))) ++ (bits_of b v ++ bits_of (8 - a - b) u)
unfolding set_byte_bits
bits_of-set_byte_bits v u a b h hv =
    let c = 8 - a - b in
    let up = u / 2 ^ c in
    let q = up / 2 ^ b in
    let l = u % 2 ^ c in
    let low : l < 2 ^ c = mod-lt u (two_pow_pos c) in
    let cleared = u - up % 2 ^ b * 2 ^ c in
    let joined : bit_or cleared (v * 2 ^ c) ≡ (q * 2 ^ b + v) * 2 ^ c + l =
      ap (λ (t : ℕ). bit_or t (v * 2 ^ c)) (cleared_field u b c)
      ∙ bit_or-shifted c (q * 2 ^ b) v l low
      ∙ ap (λ (t : ℕ). t * 2 ^ c + l) (bit_or-add b q v hv) in
    let width : a + b + c ≡ 8 = omega arith in
    let high : q ≡ u / 2 ^ (b + c) =
      div-div-eq-div-mul u (2 ^ c) (2 ^ b)
      ∙ ap (λ (t : ℕ). u / t) (sym (pow-add c b) ∙ ap (λ (t : ℕ). 2 ^ t) (add_comm c b)) in
    bits_of-mod 8 8 (bit_or cleared (v * 2 ^ c)) (omega arith)
    ∙ ap₂ (λ n t. bits_of n t) (sym width) joined
    ∙ bits_of-fields (a + b) c (q * 2 ^ b + v) l low
    ∙ ap₂ (λ k m. k ++ m) (bits_of-fields a b q v hv) (bits_of-mod c c u (omega arith))
    ∙ append_assoc (bits_of a q) (bits_of b v) (bits_of c u)
    ∙ ap (λ t. bits_of a t ++ (bits_of b v ++ bits_of c u)) high

-- A byte of the stream whose bits `x` are replaced by as many others.
pub replaced :
    (v u : ℕ) (o x more z after w : List Bool)
    → length o + length x ≤ 8
    → length w ≡ length x
    → bits_of (length x) v ≡ w
    → v < 2 ^ length x
    → bits_of 8 u ++ after ≡ o ++ ((x ++ more) ++ z)
    → bits_of 8 (set_byte_bits v u (length o) (length x)) ++ after ≡ o ++ ((w ++ more) ++ z)
replaced v u o x more z after w h same new hv e =
    let a = length o in
    let b = length x in
    let (front, found, back) = field_lem 8 u o x more z after h e in
    let A = bits_of a (u / 2 ^ (b + (8 - a - b))) in
    let C = bits_of (8 - a - b) u in
    ap (λ l. l ++ after) (bits_of-set_byte_bits v u a b h hv)
    ∙ append_assoc A (bits_of b v ++ C) after
    ∙ ap (λ l. A ++ l) (append_assoc (bits_of b v) C after)
    ∙ ap₂ (λ k m. k ++ m) front (ap₂ (λ k m. k ++ m) new back)
    ∙ ap (λ l. o ++ l) (sym (append_assoc w more z))
