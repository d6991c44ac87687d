-- ===== src/String/MultiByte/RoundTrip.antt =====
-- multi_byte.cpp: what is encoded is decoded, one code point at a time.
use eagine_core.Common.{
  ℕ, ◌+◌, ◌-◌, ◌*◌, ◌/◌, ◌^◌, ◌≤◌, ◌<◌, true, List, [], ◌∷◌, ◌++◌, leb, if◌then◌else◌, length, take,
  drop, length-append, length-take, take-append-drop, Bool-cases, inl, inr, ◌≡◌, refl, arith,
}
use eagine_core.String.MultiByte.Masks.{
  invalid_code_point, valid_code_point, is_sequence_length, head_code, head_data_bitshift,
  required_sequence_length,
}
use eagine_core.String.MultiByte.Code.{
  do_encode_code_point_byte, do_encode_code_point_into, encode_code_point_head,
  do_encode_code_point, encode_code_point, decode_sequence_length, decode_code_point_head,
  do_decode_code_point_part, do_decode_code_point_from, do_decode_code_point, decode_code_point,
}
use eagine_core.String.MultiByte.Bytes.{encoding, head_limit, HeadByte, head_byte}
use eagine_core.String.MultiByte.Fields.{
  length-tails_of, encode_tails-tails_of, decode_tails-tails_of,
}

-- The code point fits an encoding of `l` bytes.
pub record Fits (l cp : ℕ) : Type 0 where
  pub lo : 1 ≤ l
  pub hi : l ≤ 6
  pub top : cp / 2 ^ ((l - 1) * 6) < head_limit l

pub required-Fits : (cp : ℕ) → cp < invalid_code_point → Fits (required_sequence_length cp) cp
unfolding required_sequence_length
required-Fits cp h = ground arith

pub length-encoding : (l cp : ℕ) → Fits l cp → length (encoding l cp) ≡ l
unfolding encoding
length-encoding l cp f = omega (arith, length-tails_of (l - 1) cp, f.lo)

module _ (l cp : ℕ) (f : Fits l cp) where
  head : HeadByte l (cp / 2 ^ ((l - 1) * 6))
  head = head_byte l (cp / 2 ^ ((l - 1) * 6)) f.lo f.hi f.top

  pub into-encoding :
      (old rest : List ℕ)
      → length old ≡ l
      → do_encode_code_point_into l cp (old ++ rest) ≡ (encoding l cp ++ rest, true)
  unfolding do_encode_code_point_into encoding encode_code_point_head do_encode_code_point_byte
  into-encoding [] rest e = absurd (omega (arith, f.lo))
  into-encoding (o ∷ old) rest e = rw head.written (
      encode_tails-tails_of (l - 1) 1 l cp ((head_code l + cp / 2 ^ ((l - 1) * 6)) ∷ []) old rest
        (omega arith) (omega arith) f.hi refl (omega arith))

  pub from-encoding : (rest : List ℕ) → do_decode_code_point_from l (encoding l cp ++ rest) ≡ cp
  unfolding do_decode_code_point_from encoding decode_code_point_head do_decode_code_point_part
      head_data_bitshift
  from-encoding rest = rw head.read (
      decode_tails-tails_of (l - 1) 1 l cp ((head_code l + cp / 2 ^ ((l - 1) * 6)) ∷ []) rest
        (omega arith) (omega arith) f.hi refl)

  pub announces : (rest : List ℕ) → decode_sequence_length (encoding l cp ++ rest) ≡ l
  unfolding decode_sequence_length encoding
  announces rest = head.announces

  pub length-append-encoding : (rest : List ℕ) → length (encoding l cp ++ rest) ≡ l + length rest
  length-append-encoding rest =
      omega (arith, length-append (encoding l cp) rest, length-encoding l cp f)

  pub do_decode-encoding : (rest : List ℕ) → do_decode_code_point (encoding l cp ++ rest) l ≡ cp
  unfolding do_decode_code_point is_sequence_length
  do_decode-encoding rest =
      ground (arith, f.lo, f.hi, length-append-encoding rest, from-encoding rest)

  pub decode-encoding : (rest : List ℕ) → decode_code_point (encoding l cp ++ rest) ≡ cp
  unfolding decode_code_point
  decode-encoding rest = rw (announces rest) (do_decode-encoding rest)

-- encode_code_point of a valid code point into a span writes the bytes of its encoding over the
-- first ones and returns their number if the span has room; else it writes nothing and returns 0.
pub encode_code_point-encoding :
    (cp : ℕ) (dest : List ℕ)
    → cp < invalid_code_point
    → let l = required_sequence_length cp in
      encode_code_point cp dest
      ≡ (if leb l (length dest) then (encoding l cp ++ drop l dest, l) else (dest, 0))
unfolding encode_code_point do_encode_code_point valid_code_point is_sequence_length
encode_code_point-encoding cp dest h =
    let l = required_sequence_length cp in
    let f = required-Fits cp h in
    elim (Bool-cases (leb l (length dest))) [
      | inl room ↦
          let into : do_encode_code_point_into l cp dest ≡ (encoding l cp ++ drop l dest, true) =
            rw (take-append-drop l dest) at (
              into-encoding l cp f (take l dest) (drop l dest)
                (ground (arith, length-take l dest))) in
          ground (arith, into, f.lo, f.hi)
      | inr full ↦ ground (arith, f.lo, f.hi)
    ]
