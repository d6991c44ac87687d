-- ===== src/Identifier/Distinct.antt =====
-- identifier.cpp: different texts have different values, and only one text has the value zero.
use eagine_core.Common.{
  ℕ, zero, suc, ◌*◌, ◌^◌, ◌<◌, ◌≡◌, refl, sym, ap, ap₂, ◌∙◌, true, false, List, [], ◌++◌, arith,
  length, length-append, length-replicate, replicate, ◌↔◌, ◌≢◌, ◌==◌, ==_iff, Bool-cases, inl, inr,
}
use mathlib.Core.List.{append-nil}
use native.Mathlib.Nat.{mod-eq_of_lt}
use eagine_core.Common.BitStream.{bits_of, number, bits_of-number, stream, length-stream}
use eagine_core.Memory.BitDensity.Chunks.{AllBelow}
use eagine_core.Memory.BitDensity.RoundTrip.{bytes_unique}
use eagine_core.Memory.Biteset.Bytes.{as_uint, as_from, as_uint-number, as_uint-byteset_of}
use eagine_core.Memory.Biteset.Code.{store_size, get_bits, get_byte, make_bytes, make_bytes_from}
use eagine_core.Memory.Biteset.Packing.{Packs}
use eagine_core.Memory.Biteset.Making.{make_bytes-Packs}
use eagine_core.Identifier.Code.{
  max_length, bite_bits, do_encode, encode, can_be_encoded, can_be_encoded_chars, in_chars,
  encoded_from, make_bites, value, str, is_empty, identifier_from_value,
}
use eagine_core.Identifier.RoundTrip.{
  AllBelow-encoded_from, spelled, spelled-make_bites, str-make_bites,
}

-- The bytes of an identifier made from a text pack the codes of its characters.
pub make_bites-Packs :
    (cs : List ℕ)
    → (length (make_bites cs) ≡ 8)
      × Packs bite_bits (make_bites cs) (encoded_from max_length cs 0) (replicate 4 false)
unfolding make_bites store_size encoded_from
make_bites-Packs cs =
    let vs = encoded_from max_length cs 0 in
    let (pad, few, size, (below, codes, bits)) =
      make_bytes-Packs bite_bits (omega arith) vs (AllBelow-encoded_from max_length cs 0) in
    let four : pad ≡ 4 = omega (
      arith,
      size,
      ap length bits,
      length-stream 8 (make_bites cs),
      length-append (stream bite_bits vs) (replicate pad false),
      length-stream bite_bits vs,
      length-replicate pad false,
    ) in
    (size, (below, codes, bits ∙ ap (λ k. stream bite_bits vs ++ replicate k false) four))

-- The value determines the bytes.
pub value_injective :
    (us vs : List ℕ)
    → length us ≡ length vs
    → AllBelow (2 ^ 8) us
    → AllBelow (2 ^ 8) vs
    → value us ≡ value vs
    → us ≡ vs
unfolding value
value_injective us vs size hu hv e =
    let sizes : length (stream 8 us) ≡ length (stream 8 vs) =
      length-stream 8 us ∙ ap (λ (t : ℕ). 8 * t) size ∙ sym (length-stream 8 vs) in
    let numbers : number (stream 8 us) ≡ number (stream 8 vs) =
      sym (as_uint-number us hu) ∙ e ∙ as_uint-number vs hv in
    let streams : stream 8 us ≡ stream 8 vs =
      sym (bits_of-number (stream 8 us))
      ∙ ap₂ (λ w n. bits_of w n) sizes numbers
      ∙ bits_of-number (stream 8 vs) in
    bytes_unique us vs [] [] hu hv (omega arith) (omega arith)
      (append-nil (stream 8 us) ∙ streams ∙ sym (append-nil (stream 8 vs)))

value-make_bites_injective :
    (cs ds : List ℕ)
    → AllBelow 256 cs
    → AllBelow 256 ds
    → can_be_encoded cs ≡ true
    → can_be_encoded ds ≡ true
    → value (make_bites cs) ≡ value (make_bites ds)
    → cs ≡ ds
value-make_bites_injective cs ds hc hd ec ed e =
    let (size, (below, codes, bits)) = make_bites-Packs cs in
    let (size', (below', codes', bits')) = make_bites-Packs ds in
    sym (spelled-make_bites cs hc ec)
    ∙ ap spelled (value_injective (make_bites cs) (make_bites ds) (size ∙ sym size') below below' e)
    ∙ spelled-make_bites ds hd ed

-- Ten underscores.
abbrev pub underscores : List ℕ
underscores = replicate 10 95

value-underscores : value (make_bites underscores) ≡ 0
unfolding value make_bites as_uint as_from make_bytes make_bytes_from store_size get_byte get_bits
    encoded_from encode do_encode
value-underscores = refl

pub underscores-can_be_encoded : can_be_encoded underscores ≡ true
unfolding can_be_encoded can_be_encoded_chars in_chars
underscores-can_be_encoded = refl

pub underscores_below : AllBelow 256 underscores
underscores_below = all_below_256 10
  where
    all_below_256 : (n : ℕ) → AllBelow 256 (replicate n 95)
    all_below_256 zero = tt
    all_below_256 (suc n) = (omega arith, all_below_256 n)

-- Two texts of at most ten characters, all of them in the character set, have identifiers of the
-- same value exactly when they are the same.
pub value-make_bites_iff :
    (cs ds : List ℕ)
    → AllBelow 256 cs
    → AllBelow 256 ds
    → can_be_encoded cs ≡ true
    → can_be_encoded ds ≡ true
    → (value (make_bites cs) ≡ value (make_bites ds)) ↔ (cs ≡ ds)
value-make_bites_iff cs ds hc hd ec ed =
    (value-make_bites_injective cs ds hc hd ec ed, λ e. ap (λ l. value (make_bites l)) e)

-- The value of the identifier of a text of at most ten characters of the set, which is_empty
-- compares to zero, is zero exactly when the text is ten underscores; so it is not zero for the
-- empty text.
pub value-eq-zero_iff :
    (cs : List ℕ)
    → AllBelow 256 cs
    → can_be_encoded cs ≡ true
    → (value (make_bites cs) ≡ 0) ↔ (cs ≡ underscores)
value-eq-zero_iff cs hb h = (
  λ e.
      value-make_bites_injective cs underscores hb underscores_below h underscores-can_be_encoded
        (e ∙ sym value-underscores),
  λ e. ap (λ l. value (make_bites l)) e ∙ value-underscores,
)

-- The name of an identifier made from a text of at most ten characters, all of them in the character
-- set and not ten underscores, is the text.
pub str-of_text :
    (cs : List ℕ)
    → AllBelow 256 cs
    → can_be_encoded cs ≡ true
    → cs ≢ underscores
    → str (make_bites cs) ≡ cs
unfolding is_empty
str-of_text cs hb h other = elim (Bool-cases (value (make_bites cs) == 0)) [
  | inl none_left ↦ absurd (other ((value-eq-zero_iff cs hb h).0 ((==_iff _ 0).0 none_left)))
  | inr fine ↦ str-make_bites cs hb h ∙ rw fine refl
]

-- An integer of 64 bits is the value of the identifier that is made from it.
pub value-identifier_from_value : (v : ℕ) → v < 2 ^ 64 → value (identifier_from_value v) ≡ v
unfolding value identifier_from_value
value-identifier_from_value v h = as_uint-byteset_of 8 v ∙ mod-eq_of_lt h
