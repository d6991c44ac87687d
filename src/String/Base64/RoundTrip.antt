-- ===== src/String/Base64/RoundTrip.antt =====
-- base64.cpp: decoding gives back what was encoded.
use eagine_core.Common.{
  ℕ, ◌*◌, ◌/◌, ◌^◌, ◌≤◌, ◌<◌, ◌≡◌, refl, sym, ap, ◌∙◌, inl, inr, Bool, true, false, Option, none,
  some, List, [], ◌∷◌, ◌++◌, map, arith, length, length-map, length-append, ◌||◌, leb,
  if◌then◌else◌, Option-cases, ◌==◌, ◌>>=◌, le→leb, all_below, all_below_sound, ==_iff,
}
use native.Mathlib.Nat.{zero-add}
use mathlib.Core.List.{map-id}
use eagine_core.Common.BitStream.{stream}
use eagine_core.Memory.BitDensity.Code.{
  concentrated_bits_length, byte_bits, make_span_getter, make_span_putter,
}
use eagine_core.Memory.BitDensity.Chunks.{AllBelow}
use eagine_core.Memory.BitDensity.Streams.{
  IsDissolved, IsConcentrated, do_concentrate_bits-IsConcentrated,
}
use eagine_core.Memory.BitDensity.Lengths.{
  length-dissolved, length-concentrated, put_all-make_span_putter,
}
use eagine_core.Memory.BitDensity.RoundTrip.{
  bytes_unique, concentrated-dissolved, do_dissolve_bits-make_span_putter,
}
use eagine_core.String.Base64.Code.{
  base64_encode_char, decode_table, enter_codes, base64_decode_char, base64_encoded_length,
  base64_decoded_length, encode_within, decode_within, written, base64_encode, base64_encode_into,
  base64_decode_into, assign_if_fits,
}

abbrev gives : Option ℕ → ℕ → Bool
gives none v = false
gives (some u) v = u == v

gives-some : (o : Option ℕ) (v : ℕ) → gives o v ≡ true → o ≡ some v
gives-some none v h = ground arith
gives-some (some u) v h = ap some ((==_iff u v).0 h)

chars_checked : all_below 64 (λ v. gives (base64_decode_char (base64_encode_char v)) v) ≡ true
unfolding all_below base64_decode_char base64_encode_char decode_table enter_codes
chars_checked = refl

decode-encode_char : (v : ℕ) → v < 64 → base64_decode_char (base64_encode_char v) ≡ some v
decode-encode_char v h = gives-some _ v (all_below_sound 64 _ v chars_checked h)

getter-chars :
    (gs : List ℕ)
    → AllBelow (2 ^ 6) gs
    → make_span_getter base64_decode_char (map base64_encode_char gs) ≡ gs
unfolding make_span_getter
getter-chars [] h = refl
getter-chars (g ∷ gs) (hg, hgs) =
    rw (make_span_getter, decode-encode_char g hg) (ap (λ l. g ∷ l) (getter-chars gs hgs))

getter-some : (src : List ℕ) → make_span_getter (λ (b : ℕ). some b) src ≡ src
unfolding make_span_getter
getter-some [] = refl
getter-some (x ∷ src) = ap (λ l. x ∷ l) (getter-some src)

length-getter : (text : List ℕ) → length (make_span_getter base64_decode_char text) ≤ length text
unfolding make_span_getter
length-getter [] = omega arith
length-getter (x ∷ text) = elim (Option-cases (base64_decode_char x)) [
  | inl bad ↦ rw (make_span_getter, bad) (omega arith)
  | inr (v, good) ↦ rw (make_span_getter, good) (omega (arith, length-getter text))
]

getter-stops :
    (text : List ℕ) (c : ℕ) (junk : List ℕ)
    → base64_decode_char c ≡ none
    → make_span_getter base64_decode_char (text ++ (c ∷ junk))
      ≡ make_span_getter base64_decode_char text
unfolding make_span_getter
getter-stops [] c junk bad = rw (make_span_getter, bad) refl
getter-stops (x ∷ text) c junk bad = elim (Option-cases (base64_decode_char x)) [
  | inl e ↦ rw (make_span_getter, e) refl
  | inr (v, e) ↦ rw (make_span_getter, e) (ap (λ l. v ∷ l) (getter-stops text c junk bad))
]

concentrated-le : (m n : ℕ) → m ≤ n → 6 * m / 8 ≤ concentrated_bits_length n 6
unfolding concentrated_bits_length byte_bits
concentrated-le m n h = ground arith

length-groups :
    (src gs : List ℕ)
    → IsDissolved 6 (stream 8 src) gs
    → length gs ≡ base64_encoded_length (length src)
unfolding base64_encoded_length
length-groups src gs spec = length-dissolved 6 src gs spec

written-if :
    (b : Bool) (l : List ℕ) {n : ℕ}
    → length l ≡ n
    → length (written (if b then some l else none)) ≡ (if b then n else 0)
written-if true l e = e
written-if false l e = refl

concentrated_unique :
    (gs us vs : List ℕ)
    → IsConcentrated (stream 6 gs) us
    → IsConcentrated (stream 6 gs) vs
    → us ≡ vs
concentrated_unique gs us vs (r, short, below, same) (s, short', below', same') =
    bytes_unique us vs r s below below' short short' (same ∙ sym same')

module _ (word : ℕ) (hw : 16 ≤ word) where
  -- The characters of the groups are written when the destination has base64_encoded_length places.
  pub encode_within_lem :
      (src : List ℕ) (size : ℕ)
      → AllBelow (2 ^ 8) src
      → (gs : List ℕ) × IsDissolved 6 (stream 8 src) gs
        × (encode_within word src size ≡ (
            if leb (base64_encoded_length (length src)) size
            then some (map base64_encode_char gs)
            else none))
  unfolding encode_within base64_encoded_length
  encode_within_lem src size h =
      let (gs, spec, runs) =
        do_dissolve_bits-make_span_putter word 6 hw (omega arith) (omega arith) src h
          base64_encode_char size in
      (gs, spec, rw (getter-some src) runs)

  -- The bytes of the codes up to the first one that is not valid are written when they fit.
  pub decode_within_lem :
      (src gs : List ℕ) (size : ℕ)
      → make_span_getter base64_decode_char src ≡ gs
      → (bytes : List ℕ) × IsConcentrated (stream 6 gs) bytes
        × (decode_within word src size ≡ (if leb (length bytes) size then some bytes else none))
  unfolding decode_within
  decode_within_lem src gs size e =
      let (bytes, spec, runs) =
        do_concentrate_bits-IsConcentrated word (make_span_putter (λ v. some v) size) 6 hw
          (omega arith) (omega arith) gs in
      (
        bytes,
        spec,
        rw e (
            runs []
            ∙ put_all-make_span_putter (λ v. v) size bytes [] (omega arith)
            ∙ rw (map-id bytes, zero-add (length bytes)) refl),
      )

  -- The container is large enough for what is decoded into it.
  pub decode_into_lem :
      (text gs : List ℕ)
      → make_span_getter base64_decode_char text ≡ gs
      → length gs ≤ length text
      → (bytes : List ℕ) × IsConcentrated (stream 6 gs) bytes
        × (base64_decode_into word text ≡ some bytes)
  unfolding base64_decode_into base64_decoded_length
  decode_into_lem text gs e shorter =
      let n = concentrated_bits_length (length text) 6 in
      let (bytes, spec, runs) = decode_within_lem text gs n e in
      let (exact, upto) = length-concentrated 6 gs bytes spec in
      let more = concentrated-le (length gs) (length text) shorter in
      (bytes, spec, runs ∙ ap (λ b. if b then some bytes else none) (le→leb _ n (omega arith)))

  -- When double_byte has at least 16 bits, base64_encode of bytes into a container succeeds, and
  -- base64_decode of the text into a container succeeds with the bytes.
  pub base64_decode_into-base64_encode_into :
      (src : List ℕ)
      → AllBelow (2 ^ 8) src
      → (base64_encode_into word src >>= base64_decode_into word) ≡ some src
  unfolding base64_encode_into
  base64_decode_into-base64_encode_into src h =
      let n = base64_encoded_length (length src) in
      let (gs, spec, runs) = encode_within_lem src n h in
      let (pad, less, below, same) = spec in
      let text = map base64_encode_char gs in
      let same_length : length text ≡ length gs = length-map gs base64_encode_char in
      let (bytes, back, puts) = decode_into_lem text gs (getter-chars gs below) (omega arith) in
      let fits : leb n n ≡ true = le→leb n n (omega arith) in
      rw (runs, fits)
        (puts ∙ ap some (concentrated-dissolved 6 src gs bytes (omega arith) h spec back))

  -- The encoded text has base64_encoded_length characters, or none when that many do not fit.
  pub base64_encode_lem :
      (src : List ℕ) (size : ℕ)
      → AllBelow (2 ^ 8) src
      → length (base64_encode word src size) ≡ (
          if leb (base64_encoded_length (length src)) size
          then base64_encoded_length (length src)
          else 0)
  unfolding base64_encode
  base64_encode_lem src size h =
      let (gs, spec, runs) = encode_within_lem src size h in
      let groups : length (map base64_encode_char gs) ≡ base64_encoded_length (length src) =
        length-map gs base64_encode_char ∙ length-groups src gs spec in
      ap (λ o. length (written o)) runs
      ∙ written-if (leb (base64_encoded_length (length src)) size) (map base64_encode_char gs)
          groups

  -- When double_byte has at least 16 bits, base64_decode into a container of a text of ASCII
  -- characters with one behind it that is ASCII and not in the alphabet, and any characters behind
  -- that, gives what base64_decode of the text gives.
  pub base64_decode_into-stops :
      (text junk : List ℕ) (c : ℕ)
      → AllBelow (2 ^ 7) text
      → c < 2 ^ 7
      → base64_decode_char c ≡ none
      → base64_decode_into word (text ++ (c ∷ junk)) ≡ base64_decode_into word text
  base64_decode_into-stops text junk c ascii small bad =
      let gs = make_span_getter base64_decode_char text in
      let (bytes, spec, runs) =
        decode_into_lem (text ++ (c ∷ junk)) gs (getter-stops text c junk bad)
          (omega (arith, length-append text (c ∷ junk), length-getter text)) in
      let (bytes', spec', runs') = decode_into_lem text gs refl (length-getter text) in
      runs ∙ ap some (concentrated_unique gs bytes bytes' spec spec') ∙ sym runs'

  -- A text of ASCII characters is taken for bytes when it is empty or begins with two characters of the alphabet.
  pub assign_if_fits_lem :
      (src : List ℕ)
      → AllBelow (2 ^ 7) src
      → assign_if_fits word src
        ≡ ((length src == 0) || leb 2 (length (make_span_getter base64_decode_char src)))
  unfolding assign_if_fits
  assign_if_fits_lem src ascii =
      let gs = make_span_getter base64_decode_char src in
      let (bytes, spec, runs) = decode_into_lem src gs refl (length-getter src) in
      let (exact, upto) = length-concentrated 6 gs bytes spec in
      let shorter = length-getter src in rw (assign_if_fits, runs) (ground arith)
