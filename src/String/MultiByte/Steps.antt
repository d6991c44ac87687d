-- ===== src/String/MultiByte/Steps.antt =====
-- multi_byte.cpp: one round of each loop over a sequence of code points.
use eagine_core.Common.{
  ℕ, zero, suc, ◌+◌, ◌≤◌, ◌<◌, true, false, List, [], ◌∷◌, ◌++◌, ltb, leb, length, take, drop,
  length-append, ◌≡◌, refl, ap, arith,
}
use eagine_core.String.MultiByte.Masks.{
  invalid_code_point, valid_code_point, is_sequence_length, required_sequence_length,
}
use eagine_core.String.MultiByte.Code.{encode_code_point, decode_sequence_length}
use eagine_core.String.MultiByte.Spans.{
  decoding_code_points_required_from, encode_code_points_from, decode_code_points_from,
}
use eagine_core.String.MultiByte.Bytes.{encoding}
use eagine_core.String.MultiByte.RoundTrip.{
  required-Fits, length-encoding, length-append-encoding, announces, do_decode-encoding,
  encode_code_point-encoding,
}
use eagine_core.String.MultiByte.Single.{drop-append}

-- Every code point of a sequence is valid.
abbrev pub AllValid : List ℕ → Type 0
AllValid [] = Unit {0}
AllValid (cp ∷ cps) = (cp < invalid_code_point) × AllValid cps

-- The encodings of a sequence, one behind the other.
unfoldable pub encoded : List ℕ → List ℕ
encoded [] = []
encoded (cp ∷ cps) = encoding (required_sequence_length cp) cp ++ encoded cps

pub length-encoded :
    (cp : ℕ) (cps : List ℕ)
    → cp < invalid_code_point
    → length (encoded (cp ∷ cps)) ≡ required_sequence_length cp + length (encoded cps)
unfolding encoded
length-encoded cp cps h =
    length-append-encoding (required_sequence_length cp) cp (required-Fits cp h) (encoded cps)

pub take-append : (xs ys : List ℕ) (n : ℕ) → length xs ≡ n → take n (xs ++ ys) ≡ xs
take-append [] ys zero e = refl
take-append [] ys (suc n) e = absurd (omega arith)
take-append (x ∷ xs) ys zero e = absurd (omega arith)
take-append (x ∷ xs) ys (suc n) e = ap (λ l. x ∷ l) (take-append xs ys n (omega arith))

pub required_length_ok :
    (cp : ℕ) → cp < invalid_code_point → is_sequence_length (required_sequence_length cp) ≡ true
unfolding is_sequence_length
required_length_ok cp h = let f = required-Fits cp h in ground (arith, f.lo, f.hi)

pub decode_step :
    (cp n i : ℕ) (bytes rest : List ℕ)
    → cp < invalid_code_point
    → i < length bytes
    → drop i bytes ≡ encoding (required_sequence_length cp) cp ++ rest
    → decode_code_points_from (suc n) i bytes ≡ (
        let (cps, done) = decode_code_points_from n (i + required_sequence_length cp) bytes in
        (cp ∷ cps, done))
unfolding decode_code_points_from valid_code_point
decode_step cp n i bytes rest h lo e =
    let l = required_sequence_length cp in
    let f = required-Fits cp h in
    let inside : leb (length bytes) i ≡ false = ground arith in
    let valid : ltb cp invalid_code_point ≡ true = ground arith in
    rw
      (
        e,
        announces l cp f rest,
        do_decode-encoding l cp f rest,
        inside,
        required_length_ok cp h,
        valid,
      )
      refl

pub encode_step :
    (cp i : ℕ) (cps pre dest : List ℕ)
    → cp < invalid_code_point
    → length pre ≡ i
    → required_sequence_length cp ≤ length dest
    → let l = required_sequence_length cp in
      encode_code_points_from (cp ∷ cps) i (pre ++ dest)
      ≡ encode_code_points_from cps (i + l) (pre ++ (encoding l cp ++ drop l dest))
unfolding encode_code_points_from valid_code_point
encode_step cp i cps pre dest h e room =
    let l = required_sequence_length cp in
    let f = required-Fits cp h in
    let inside : leb (length (pre ++ dest)) i ≡ false =
      ground (arith, length-append pre dest, f.lo) in
    let valid : ltb cp invalid_code_point ≡ true = ground arith in
    let fits : leb l (length dest) ≡ true = ground arith in
    let written : encode_code_point cp dest ≡ (encoding l cp ++ drop l dest, l) =
      rw fits at (encode_code_point-encoding cp dest h) in
    rw
      (
        drop-append pre dest i e,
        take-append pre dest i e,
        written,
        valid,
        inside,
        required_length_ok cp h,
      )
      refl

pub counted_step :
    (cp fuel r : ℕ) (rest : List ℕ)
    → cp < invalid_code_point
    → decoding_code_points_required_from
        (suc fuel)
        (encoding (required_sequence_length cp) cp ++ rest)
        r
      ≡ decoding_code_points_required_from fuel rest (r + 1)
unfolding decoding_code_points_required_from encoding decode_sequence_length
counted_step cp fuel r rest h =
    let l = required_sequence_length cp in
    let f = required-Fits cp h in
    rw
      (
        announces l cp f rest,
        required_length_ok cp h,
        drop-append (encoding l cp) rest l (length-encoding l cp f),
      )
      refl
