-- ===== src/String/MultiByte/Fields.antt =====
-- multi_byte.cpp: the loops of the encoder and the decoder against the bytes of an encoding.
use Prim.Native.Nat.{bit_and, bit_or}
use eagine_core.Common.{
  ℕ, zero, suc, ◌+◌, ◌-◌, ◌*◌, ◌/◌, ◌%◌, ◌^◌, ◌≤◌, true, some, List, [], ◌∷◌, ◌++◌, length, get_or,
  set, set_middle, length-append, ◌≡◌, refl, sym, ap, ◌∙◌, arith,
}
use mathlib.Core.Path.{ap₂}
use mathlib.Core.List.{append_assoc}
use eagine_core.String.MultiByte.Masks.{tail_data_bitshift}
use eagine_core.String.MultiByte.Code.{
  encode_tails, decode_tails, encode_code_point_tail, decode_code_point_tail,
  do_decode_code_point_part,
}
use eagine_core.String.MultiByte.Bytes.{tails_of, tail_written, tail_read, join_group}

pub length-tails_of : (n cp : ℕ) → length (tails_of n cp) ≡ n
unfolding tails_of
length-tails_of zero cp = refl
length-tails_of (suc n) cp = ap suc (length-tails_of n cp)

tail_shift : (n i l : ℕ) → i + suc n ≡ l → 1 ≤ i → l ≤ 6 → tail_data_bitshift i l ≡ some (n * 6)
unfolding tail_data_bitshift
tail_shift n i l e lo hi = let d : l - i - 1 ≡ n = omega arith in rw d (ground arith)

pub get_or_middle :
    (pre rest : List ℕ) (x i : ℕ) → length pre ≡ i → get_or (pre ++ (x ∷ rest)) i 0 ≡ x
get_or_middle [] rest x zero e = refl
get_or_middle [] rest x (suc i) e = absurd (omega arith)
get_or_middle (y ∷ pre) rest x zero e = absurd (omega arith)
get_or_middle (y ∷ pre) rest x (suc i) e = get_or_middle pre rest x i (omega arith)

encode_step :
    (n i l cp : ℕ) (dest : List ℕ)
    → i + suc n ≡ l
    → 1 ≤ i
    → l ≤ 6
    → encode_tails l (suc n) i cp dest
      ≡ encode_tails l n (i + 1) cp (set dest i (128 + cp / 2 ^ (n * 6) % 64))
unfolding encode_tails encode_code_point_tail
encode_step n i l cp dest e lo hi =
    rw (tail_shift n i l e lo hi, encode_tails)
      (ap (λ t. encode_tails l n (i + 1) cp (set dest i t)) (tail_written cp (n * 6)))

decode_step :
    (n i l acc b : ℕ) (src : List ℕ)
    → i + suc n ≡ l
    → 1 ≤ i
    → l ≤ 6
    → get_or src i 0 ≡ b
    → decode_tails l (suc n) i src acc
      ≡ decode_tails l n (i + 1) src (bit_or acc (bit_and b 63 * 2 ^ (n * 6)))
unfolding decode_tails decode_code_point_tail do_decode_code_point_part
decode_step n i l acc b src e lo hi r =
    rw (tail_shift n i l e lo hi, decode_tails)
      (ap (λ t. decode_tails l n (i + 1) src (bit_or acc (bit_and t 63 * 2 ^ (n * 6)))) r)

-- The loop of the encoder writes the tail bytes in place of `n` old ones.
pub encode_tails-tails_of :
    (n i l cp : ℕ) (pre old rest : List ℕ)
    → i + n ≡ l
    → 1 ≤ i
    → l ≤ 6
    → length pre ≡ i
    → length old ≡ n
    → encode_tails l n i cp (pre ++ (old ++ rest)) ≡ (pre ++ (tails_of n cp ++ rest), true)
unfolding encode_tails tails_of
encode_tails-tails_of zero i l cp pre [] rest e lo hi le lo' = refl
encode_tails-tails_of zero i l cp pre (o ∷ old) rest e lo hi le lo' = absurd (omega arith)
encode_tails-tails_of (suc n) i l cp pre [] rest e lo hi le lo' = absurd (omega arith)
encode_tails-tails_of (suc n) i l cp pre (o ∷ old) rest e lo hi le lo' =
    let t = 128 + cp / 2 ^ (n * 6) % 64 in
    let longer : length (pre ++ (t ∷ [])) ≡ i + 1 = omega (arith, length-append pre (t ∷ [])) in
    encode_step n i l cp (pre ++ (o ∷ (old ++ rest))) e lo hi
    ∙ ap (encode_tails l n (i + 1) cp) (set_middle pre (old ++ rest) o t i le)
    ∙ encode_tails-tails_of n (i + 1) l cp (pre ++ (t ∷ [])) old rest (omega arith) (omega arith) hi
        longer (omega arith)
    ∙ ap (λ (x : List ℕ). (x, true)) (append_assoc pre (t ∷ []) (tails_of n cp ++ rest))

-- The loop of the decoder joins the tail bytes to the groups above them.
pub decode_tails-tails_of :
    (n i l cp : ℕ) (pre rest : List ℕ)
    → i + n ≡ l
    → 1 ≤ i
    → l ≤ 6
    → length pre ≡ i
    → decode_tails l n i (pre ++ (tails_of n cp ++ rest)) (cp / 2 ^ (n * 6) * 2 ^ (n * 6)) ≡ cp
unfolding decode_tails tails_of
decode_tails-tails_of zero i l cp pre rest e lo hi le = omega arith
decode_tails-tails_of (suc n) i l cp pre rest e lo hi le =
    let y = cp / 2 ^ (n * 6) % 64 in
    let t = 128 + y in
    let acc = cp / 2 ^ (suc n * 6) * 2 ^ (suc n * 6) in
    let longer : length (pre ++ (t ∷ [])) ≡ i + 1 = omega (arith, length-append pre (t ∷ [])) in
    let joined : bit_or acc (bit_and t 63 * 2 ^ (n * 6)) ≡ cp / 2 ^ (n * 6) * 2 ^ (n * 6) =
      rw (tail_read y (omega arith)) (join_group n cp) in
    decode_step n i l acc t (pre ++ (t ∷ (tails_of n cp ++ rest))) e lo hi
      (get_or_middle pre (tails_of n cp ++ rest) t i le)
    ∙ ap₂ (decode_tails l n (i + 1)) (sym (append_assoc pre (t ∷ []) (tails_of n cp ++ rest)))
        joined
    ∙ decode_tails-tails_of n (i + 1) l cp (pre ++ (t ∷ [])) rest (omega arith) (omega arith) hi
        longer
