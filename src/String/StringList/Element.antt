-- ===== src/String/StringList/Element.antt =====
-- list.cpp: an element that `push_back` appends, with what stands behind it.
use mathlib.Core.List.{append_assoc, append-nil}
use eagine_core.Common.{
  ℕ, ◌+◌, ◌%◌, ◌≤◌, ◌<◌, true, false, List, [], ◌++◌, ltb, ◌==◌, length, take, drop, replicate,
  length-append, take-append-drop, length-take, length-replicate, ◌≡◌, refl, sym, ap, ap₂, ◌∙◌,
  arith,
}
use eagine_core.Memory.SpanAlgorithm.Prefixes.{take-append, drop-append}
use eagine_core.String.MultiByte.Masks.{
  invalid_code_point, valid_code_point, required_sequence_length, is_sequence_length,
}
use eagine_core.String.MultiByte.Code.{do_encode_code_point, do_encode_code_point_into}
use eagine_core.String.MultiByte.Bytes.{encoding}
use eagine_core.String.MultiByte.RoundTrip.{
  Fits, required-Fits, length-encoding, into-encoding, announces, do_decode-encoding,
}
use eagine_core.String.StringList.{
  encode_code_point_string, encode_length, element_header_size, element_value_size, push_back,
  fit_size, header_size, value_size, value,
}

abbrev pub code_size : ℕ → ℕ
code_size n = required_sequence_length n

-- The encoding of a length.
abbrev pub code : ℕ → List ℕ
code n = encoding (code_size n) n

-- A value between the encodings of its length.
abbrev pub packed : List ℕ → List ℕ
packed v = code (length v) ++ (v ++ code (length v))

-- A length that has an encoding.
abbrev pub Short : List ℕ → Type 0
Short v = length v < invalid_code_point

encoded_seven :
    (n : ℕ) (tmp : List ℕ)
    → n < invalid_code_point
    → length tmp ≡ 7
    → do_encode_code_point n tmp (required_sequence_length n)
      ≡ (code n ++ drop (required_sequence_length n) tmp, true)
unfolding do_encode_code_point valid_code_point is_sequence_length
encoded_seven n tmp h seven =
    let l = required_sequence_length n in
    let f = required-Fits n h in
    let into : do_encode_code_point_into l n tmp ≡ (encoding l n ++ drop l tmp, true) =
      rw (take-append-drop l tmp) at
        (into-encoding l n f (take l tmp) (drop l tmp) (ground (arith, length-take l tmp, f.hi))) in
    ground (arith, into, f.lo, f.hi)

pub encode_length-code : (n : ℕ) → n < invalid_code_point → encode_length n ≡ code n
unfolding encode_length encode_code_point_string
encode_length-code n h =
    let f = required-Fits n h in
    let l = required_sequence_length n in
    let e : n % 4294967296 ≡ n = omega arith in
    let positive : (l == 0) ≡ false = ground (arith, f.lo) in
    let t = take-append (code n) (drop l (replicate 7 0)) in
    let k = length-encoding l n f in
    rw (e, encoded_seven n (replicate 7 0) h (length-replicate {A = ℕ} 7 0), positive) (rw k at t)

module _ (v rest : List ℕ) (h : Short v) where
  fits : Fits (code_size (length v)) (length v)
  fits = required-Fits (length v) h

  pub header-code : element_header_size (code (length v) ++ rest) ≡ code_size (length v)
  unfolding element_header_size
  header-code = announces (code_size (length v)) (length v) fits rest

  pub value-code : element_value_size (code (length v) ++ rest) (code_size (length v)) ≡ length v
  unfolding element_value_size valid_code_point
  value-code =
      let d = do_decode-encoding (code_size (length v)) (length v) fits rest in
      let known : ltb (length v) invalid_code_point ≡ true = ground arith in rw (d, known) refl

  pub length-code : length (code (length v)) ≡ code_size (length v)
  length-code = length-encoding (code_size (length v)) (length v) fits

  pub code_size_positive : 1 ≤ code_size (length v)
  code_size_positive = fits.lo

  pub length-packed : length (packed v) ≡ code_size (length v) + (length v + code_size (length v))
  length-packed = omega (
    arith,
    length-append (code (length v)) (v ++ code (length v)),
    length-append v (code (length v)),
    length-code,
  )

module _ (v rest : List ℕ) (h : Short v) where
  front : packed v ++ rest ≡ code (length v) ++ (v ++ (code (length v) ++ rest))
  front =
      append_assoc (code (length v)) (v ++ code (length v)) rest
      ∙ ap (λ t. code (length v) ++ t) (append_assoc v (code (length v)) rest)

  pub header-packed : element_header_size (packed v ++ rest) ≡ code_size (length v)
  header-packed = rw front (header-code v (v ++ (code (length v) ++ rest)) h)

  pub value-packed : element_value_size (packed v ++ rest) (code_size (length v)) ≡ length v
  value-packed = rw front (value-code v (v ++ (code (length v) ++ rest)) h)

  pub fit_size-packed : fit_size (packed v ++ rest) ≡ length (packed v)
  unfolding fit_size
  fit_size-packed = rw (header-packed, value-packed) (omega (arith, length-packed v rest h))

  pub push_back-packed : push_back rest v ≡ rest ++ packed v
  unfolding push_back
  push_back-packed = rw (encode_length-code (length v) h) refl

pub value_size-packed :
    (v : List ℕ)
    → Short v
    → (header_size (packed v) ≡ code_size (length v)) × (value_size (packed v) ≡ length v)
unfolding header_size value_size
value_size-packed v h =
    let hd = rw (append-nil (packed v)) at (header-packed v [] h) in
    let c = length-code v [] h in
    let t = take-append (code (length v)) (v ++ code (length v)) in
    let vc = rw (append-nil (code (length v))) at (value-code v [] h) in
    let p : take (header_size (packed v)) (packed v) ≡ code (length v) =
      ap (λ k. take k (packed v)) (hd ∙ sym c) ∙ t in
    (
      hd,
      ap (λ q. element_value_size q (length q)) p
          ∙ ap (element_value_size (code (length v))) c
          ∙ vc,
    )

pub value-packed_value : (v : List ℕ) → Short v → value (packed v) ≡ v
unfolding value
value-packed_value v h =
    let s = value_size-packed v h in
    let c = length-code v [] h in
    let d = drop-append (code (length v)) (v ++ code (length v)) in
    ap₂ (λ a b. take a (drop b (packed v))) s.1 (s.0 ∙ sym c)
    ∙ ap (take (length v)) d
    ∙ take-append v (code (length v))
