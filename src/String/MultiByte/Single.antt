-- ===== src/String/MultiByte/Single.antt =====
-- multi_byte.cpp: the functions on one code point, as their callers see them.
use eagine_core.Common.{
  ℕ, zero, suc, ◌+◌, ◌-◌, ◌*◌, ◌/◌, ◌%◌, ◌^◌, ◌≤◌, ◌<◌, true, false, List, [], ◌∷◌, ◌++◌, ltb, ◌==◌,
  if◌then◌else◌, length, drop, length-append, all_below, all_below_sound, ◌≡◌, ◌↔◌, refl, sym, ◌∙◌,
  arith,
}
use mathlib.Core.List.{append-nil, append_assoc}
use eagine_core.String.MultiByte.Masks.{
  invalid_code_point, is_sequence_length, max_code_point, head_code, required_sequence_length,
  is_valid_head_byte_of, is_valid_tail_byte,
}
use eagine_core.String.MultiByte.Code.{
  encode_code_point, decode_sequence_length, do_decode_code_point_c, decode_code_point,
  do_decode_length_and_code_point, valid_tails, is_valid_encoding,
}
use eagine_core.String.MultiByte.Bytes.{tails_of, encoding, head_limit}
use eagine_core.String.MultiByte.Fields.{get_or_middle}
use eagine_core.String.MultiByte.RoundTrip.{
  Fits, required-Fits, length-encoding, length-append-encoding, announces, from-encoding,
  decode-encoding, encode_code_point-encoding,
}

pub drop-append : (xs ys : List ℕ) (n : ℕ) → length xs ≡ n → drop n (xs ++ ys) ≡ ys
drop-append [] ys zero e = refl
drop-append [] ys (suc n) e = absurd (omega arith)
drop-append (x ∷ xs) ys zero e = absurd (omega arith)
drop-append (x ∷ xs) ys (suc n) e = drop-append xs ys n (omega arith)

-- For a valid code point and a span with room for it, encode_code_point returns its required length,
-- decode_code_point of the span is the code point, decode_sequence_length the length, and the bytes
-- behind the encoding are kept.
pub decode-encode_code_point :
    (cp : ℕ) (dest : List ℕ)
    → cp < invalid_code_point
    → required_sequence_length cp ≤ length dest
    → let (dest', l) = encode_code_point cp dest in
      (decode_code_point dest' ≡ cp)
      × (l ≡ required_sequence_length cp)
      × (decode_sequence_length dest' ≡ l)
      × (drop l dest' ≡ drop l dest)
decode-encode_code_point cp dest h room =
    let l = required_sequence_length cp in
    let f = required-Fits cp h in
    let e : encode_code_point cp dest ≡ (encoding l cp ++ drop l dest, l) =
      encode_code_point-encoding cp dest h ∙ ground arith in
    rw e (
      decode-encoding l cp f (drop l dest),
      refl,
      announces l cp f (drop l dest),
      drop-append (encoding l cp) (drop l dest) l (length-encoding l cp f),
    )

-- For a valid code point and a length from 1 to 6, the code point is below max_code_point of the
-- length exactly when required_sequence_length is at most the length.
required_sequence_length_least :
    (cp l : ℕ)
    → cp < invalid_code_point
    → 1 ≤ l
    → l ≤ 6
    → (cp < max_code_point l) ↔ (required_sequence_length cp ≤ l)
unfolding max_code_point required_sequence_length
required_sequence_length_least cp l h lo hi = (λ p. ground arith, λ p. ground arith)

-- For a length from 1 to 5, required_sequence_length of max_code_point of the length is one more
-- than the length.
required_sequence_length-max :
    (l : ℕ) → 1 ≤ l → l ≤ 5 → required_sequence_length (max_code_point l) ≡ l + 1
unfolding max_code_point required_sequence_length
required_sequence_length-max l lo hi = ground arith

decoded_length_and_code_point :
    (l cp : ℕ) (rest : List ℕ)
    → Fits l cp
    → do_decode_length_and_code_point (encoding l cp ++ rest)
      ≡ (l, if ltb l (length (encoding l cp ++ rest)) then cp else invalid_code_point)
unfolding do_decode_length_and_code_point encoding do_decode_code_point_c decode_sequence_length
decoded_length_and_code_point l cp rest f =
    let positive : (l == 0) ≡ false = ground (arith, f.lo) in
    rw (announces l cp f rest, positive, from-encoding l cp f rest) refl

-- do_decode_length_and_code_point of an encoding that is followed by a byte is its length and code
-- point; of the same encoding at the end of the span it is the length and the code point that is not
-- valid.
do_decode_length_and_code_point_last :
    (l cp b : ℕ) (rest : List ℕ)
    → Fits l cp
    → (do_decode_length_and_code_point (encoding l cp ++ (b ∷ rest)) ≡ (l, cp))
      × (do_decode_length_and_code_point (encoding l cp) ≡ (l, invalid_code_point))
do_decode_length_and_code_point_last l cp b rest f =
    let room : ltb l (length (encoding l cp ++ (b ∷ rest))) ≡ true =
      ground (arith, length-append-encoding l cp f (b ∷ rest)) in
    let full : ltb l (length (encoding l cp)) ≡ false = ground (arith, length-encoding l cp f) in
    (
      rw (decoded_length_and_code_point l cp (b ∷ rest) f, room) refl,
      rw (append-nil (encoding l cp), full) at (decoded_length_and_code_point l cp [] f),
    )

tail_valid_table : all_below 64 (λ y. is_valid_tail_byte (128 + y)) ≡ true
unfolding all_below is_valid_tail_byte
tail_valid_table = refl

tail_valid : (x : ℕ) → is_valid_tail_byte (128 + x % 64) ≡ true
tail_valid x =
    all_below_sound 64 (λ y. is_valid_tail_byte (128 + y)) (x % 64) tail_valid_table (omega arith)

head_valid_table :
    (l : ℕ)
    → 1 ≤ l
    → l ≤ 6
    → all_below (head_limit l) (λ x. is_valid_head_byte_of (head_code l + x) l) ≡ true
unfolding all_below head_code is_valid_head_byte_of
head_valid_table zero lo hi = absurd (omega arith)
head_valid_table (suc zero) lo hi = refl
head_valid_table (suc (suc zero)) lo hi = refl
head_valid_table (suc (suc (suc zero))) lo hi = refl
head_valid_table (suc (suc (suc (suc zero)))) lo hi = refl
head_valid_table (suc (suc (suc (suc (suc zero))))) lo hi = refl
head_valid_table (suc (suc (suc (suc (suc (suc zero)))))) lo hi = refl
head_valid_table (suc (suc (suc (suc (suc (suc (suc n))))))) lo hi = absurd (omega arith)

valid_tails-tails_of :
    (n i cp : ℕ) (pre rest : List ℕ)
    → length pre ≡ i
    → valid_tails n i (pre ++ (tails_of n cp ++ rest)) ≡ true
unfolding valid_tails tails_of
valid_tails-tails_of zero i cp pre rest e = refl
valid_tails-tails_of (suc n) i cp pre rest e =
    let t = 128 + cp / 2 ^ (n * 6) % 64 in
    let longer : length (pre ++ (t ∷ [])) ≡ i + 1 = omega (arith, length-append pre (t ∷ [])) in
    let more = tails_of n cp ++ rest in
    rw
      (
        get_or_middle pre more t i e,
        tail_valid (cp / 2 ^ (n * 6)),
        sym (append_assoc pre (t ∷ []) more),
      )
      (valid_tails-tails_of n (i + 1) cp (pre ++ (t ∷ [])) rest longer)

head_valid :
    (l cp : ℕ) → Fits l cp → is_valid_head_byte_of (head_code l + cp / 2 ^ ((l - 1) * 6)) l ≡ true
head_valid l cp f =
    all_below_sound (head_limit l) (λ x. is_valid_head_byte_of (head_code l + x) l)
      (cp / 2 ^ ((l - 1) * 6)) (head_valid_table l f.lo f.hi) f.top

-- is_valid_encoding accepts the encoding of a code point in a length that it fits, whatever bytes
-- stand behind it.
is_valid_encoding-encoding :
    (l cp : ℕ) (rest : List ℕ) → Fits l cp → is_valid_encoding (encoding l cp ++ rest) ≡ true
unfolding is_valid_encoding encoding is_sequence_length
is_valid_encoding-encoding l cp rest f =
    let h = head_code l + cp / 2 ^ ((l - 1) * 6) in
    let room : ltb (length (encoding l cp ++ rest)) l ≡ false =
      ground (arith, length-append-encoding l cp f rest) in
    let length_ok : is_sequence_length l ≡ true = ground (arith, f.lo, f.hi) in
    rw (announces l cp f rest, length_ok, head_valid l cp f, room)
      (valid_tails-tails_of (l - 1) 1 cp (h ∷ []) rest refl)
