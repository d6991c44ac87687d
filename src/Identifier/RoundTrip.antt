-- ===== src/Identifier/RoundTrip.antt =====
-- identifier.cpp: the name of an identifier is the text that it was made from.
use eagine_core.Common.{
  leb→le, ℕ, zero, suc, ◌+◌, ◌^◌, ◌≤◌, ◌<◌, ◌≡◌, refl, sym, ap, ap₂, ◌∙◌, Bool, true, false, List,
  [], ◌∷◌, arith, length, take, leb, if◌then◌else◌, inl, inr, Bool-cases, get_or,
}
use eagine_core.Memory.BitDensity.Chunks.{AllBelow}
use eagine_core.Memory.Biteset.Code.{get_cell, make_bytes}
use eagine_core.Memory.Biteset.Making.{get_cell-make_bytes}
use eagine_core.Identifier.Code.{
  values, invalid, max_length, bite_bits, encode, decode, is_invalid, in_chars,
  can_be_encoded_chars, can_be_encoded, encoded_from, make_bites, bite, is_empty, get_size, size,
  chars_from, name, name_str, str,
}
use eagine_core.Identifier.Chars.{decode-encode, encode-below, encode-zero}

get_or-encoded_from :
    (n : ℕ) (cs : List ℕ) (s i : ℕ)
    → i < n
    → get_or (encoded_from n cs s) i 0 ≡ encode (get_or cs (s + i) 0)
unfolding encoded_from
get_or-encoded_from zero cs s i h = absurd (omega arith)
get_or-encoded_from (suc n) cs s zero h =
    let e : s ≡ s + 0 = omega arith in ap (λ j. encode (get_or cs j 0)) e
get_or-encoded_from (suc n) cs s (suc i) h =
    let e : s + 1 + i ≡ s + suc i = omega arith in
    get_or-encoded_from n cs (s + 1) i (omega arith) ∙ ap (λ j. encode (get_or cs j 0)) e

pub AllBelow-encoded_from : (n : ℕ) (cs : List ℕ) (s : ℕ) → AllBelow (2 ^ 6) (encoded_from n cs s)
unfolding encoded_from
AllBelow-encoded_from zero cs s = tt
AllBelow-encoded_from (suc n) cs s =
    (encode-below (get_or cs s 0), AllBelow-encoded_from n cs (s + 1))

pub length-encoded_from : (n : ℕ) (cs : List ℕ) (s : ℕ) → length (encoded_from n cs s) ≡ n
unfolding encoded_from
length-encoded_from zero cs s = refl
length-encoded_from (suc n) cs s = ap suc (length-encoded_from n cs (s + 1))

-- The elements of an identifier made from a text.
bite-make_bites :
    (cs : List ℕ) (i : ℕ) → i < max_length → bite (make_bites cs) i ≡ encode (get_or cs i 0)
unfolding bite make_bites
bite-make_bites cs i h =
    let vs = encoded_from max_length cs 0 in
    let count : length vs ≡ max_length = length-encoded_from max_length cs 0 in
    let start : 0 + i ≡ i = omega arith in
    ap (λ n. get_cell bite_bits 8 (make_bytes n bite_bits vs) i) (sym count)
    ∙ get_cell-make_bytes bite_bits 8 vs i (omega arith) (omega arith) (omega arith)
        (AllBelow-encoded_from max_length cs 0) (rw count h)
    ∙ get_or-encoded_from max_length cs 0 i h
    ∙ ap (λ j. encode (get_or cs j 0)) start

-- The elements from `s` on hold the codes of the rest of a text.
abbrev Holds : ℕ → List ℕ → ℕ → List ℕ → Type 0
Holds n bites s rest = (j : ℕ) → j < n → bite bites (s + j) ≡ encode (get_or rest j 0)

Holds-next :
    (n : ℕ) (bites : List ℕ) (s c : ℕ) (rest : List ℕ)
    → Holds (suc n) bites s (c ∷ rest)
    → (bite bites s ≡ encode c) × Holds n bites (s + 1) rest
Holds-next n bites s c rest h =
    let start : s + 0 ≡ s = omega arith in
    (
      ap (bite bites) (sym start) ∙ h 0 (omega arith),
      λ j less.
          let next : s + 1 + j ≡ s + suc j = omega arith in
          ap (bite bites) next ∙ h (suc j) (omega arith),
    )

both_hold : (a b : Bool) → (if a then b else false) ≡ true → (a ≡ true) × (b ≡ true)
both_hold true b h = (refl, h)
both_hold false b h = ground arith

can_be_encoded_chars-next :
    (c : ℕ) (cs : List ℕ)
    → can_be_encoded_chars (c ∷ cs) ≡ true
    → (in_chars values c ≡ true) × (can_be_encoded_chars cs ≡ true)
unfolding can_be_encoded_chars
can_be_encoded_chars-next c cs h = both_hold (in_chars values c) (can_be_encoded_chars cs) h

get_size-Holds :
    (n : ℕ) (bites : List ℕ) (s : ℕ) (rest : List ℕ)
    → length rest ≤ n
    → AllBelow 256 rest
    → can_be_encoded_chars rest ≡ true
    → Holds n bites s rest
    → get_size n bites s ≡ s + length rest
unfolding get_size is_invalid
get_size-Holds zero bites s [] hn hb hc h = omega arith
get_size-Holds zero bites s (c ∷ rest) hn hb hc h = absurd (omega arith)
get_size-Holds (suc n) bites s [] hn hb hc h =
    let start : s + 0 ≡ s = omega arith in
    let code : bite bites s ≡ invalid =
      ap (bite bites) (sym start) ∙ h 0 (omega arith) ∙ encode-zero in
    rw code (sym start)
get_size-Holds (suc n) bites s (c ∷ rest) hn (hc8, hb) hc h =
    let (here, further) = Holds-next n bites s c rest h in
    let (element, more) = can_be_encoded_chars-next c rest hc in
    let (valid, back) = decode-encode c hc8 element in
    let good : leb invalid (encode c) ≡ false = ground arith in
    rw (here, good)
      (get_size-Holds n bites (s + 1) rest (omega arith) hb more further ∙ omega arith)

chars_from-Holds :
    (n : ℕ) (bites : List ℕ) (s : ℕ) (rest : List ℕ)
    → length rest ≤ n
    → AllBelow 256 rest
    → can_be_encoded_chars rest ≡ true
    → Holds n bites s rest
    → take (length rest) (chars_from n bites s) ≡ rest
unfolding chars_from
chars_from-Holds n bites s [] hn hb hc h = refl
chars_from-Holds zero bites s (c ∷ rest) hn hb hc h = absurd (omega arith)
chars_from-Holds (suc n) bites s (c ∷ rest) hn (hc8, hb) hc h =
    let (here, further) = Holds-next n bites s c rest h in
    let (element, more) = can_be_encoded_chars-next c rest hc in
    let (valid, back) = decode-encode c hc8 element in
    ap₂ (λ x xs. x ∷ xs) (ap decode here ∙ back)
      (chars_from-Holds n bites (s + 1) rest (omega arith) hb more further)

-- What the identifier stands for, whatever its value.
abbrev pub spelled : List ℕ → List ℕ
spelled bites = take (get_size max_length bites 0) (chars_from max_length bites 0)

pub spelled-make_bites :
    (cs : List ℕ) → AllBelow 256 cs → can_be_encoded cs ≡ true → spelled (make_bites cs) ≡ cs
unfolding can_be_encoded
spelled-make_bites cs hb h =
    let (fits, chars_ok) = both_hold (leb (length cs) max_length) (can_be_encoded_chars cs) h in
    let short : length cs ≤ max_length = leb→le _ _ fits in
    let holds : Holds max_length (make_bites cs) 0 cs = λ j less.
      let start : 0 + j ≡ j = omega arith in
      ap (bite (make_bites cs)) start ∙ bite-make_bites cs j less in
    ap (λ n. take n (chars_from max_length (make_bites cs) 0))
      (get_size-Holds max_length (make_bites cs) 0 cs short hb chars_ok holds ∙ omega arith)
    ∙ chars_from-Holds max_length (make_bites cs) 0 cs short hb chars_ok holds

-- The name of an identifier is its text, unless its value is zero.
pub str-make_bites :
    (cs : List ℕ)
    → AllBelow 256 cs
    → can_be_encoded cs ≡ true
    → str (make_bites cs) ≡ (if is_empty (make_bites cs) then [] else cs)
unfolding str name_str name size
str-make_bites cs hb h = elim (Bool-cases (is_empty (make_bites cs))) [
  | inl zero_value ↦ rw zero_value refl
  | inr other ↦ rw other (spelled-make_bites cs hb h)
]
