-- ===== src/Identifier/Chars.antt =====
-- identifier.cpp: the encoding of single characters.
use eagine_core.Common.{
  ℕ, ◌+◌, ◌^◌, ◌<◌, ◌≡◌, refl, true, not, ◌&&◌, ◌||◌, List, [], ◌∷◌, arith, length, ltb, ◌==◌,
  all_below, all_below_sound, inl, inr, Bool-cases,
}
use eagine_core.Identifier.Code.{values, invalid, do_encode, encode, decode, in_chars}

chars_checked :
    all_below 256
      (λ c. not (in_chars values c) || (ltb (encode c) invalid && (decode (encode c) == c)))
    ≡ true
unfolding all_below in_chars encode decode do_encode
chars_checked = refl

-- A character of the set has a valid code, and that is decoded to it.
pub decode-encode :
    (c : ℕ) → c < 256 → in_chars values c ≡ true → (encode c < invalid) × (decode (encode c) ≡ c)
decode-encode c h e =
    let checked = all_below_sound 256 _ c chars_checked h in ground (arith, checked)

do_encode-below : (c i : ℕ) (enc : List ℕ) → i + length enc < 2 ^ 6 → do_encode c i enc < 2 ^ 6
unfolding do_encode
do_encode-below c i [] h = omega arith
do_encode-below c i (e ∷ enc) h = elim (Bool-cases (c == 0)) [
  | inl ended ↦ rw ended (omega arith)
  | inr goes ↦ elim (Bool-cases (c == e)) [
    | inl here ↦ rw (goes, here) (omega arith)
    | inr on ↦ rw (goes, on) (do_encode-below c (i + 1) enc (omega arith))
  ]
]

pub encode-below : (c : ℕ) → encode c < 2 ^ 6
unfolding encode
encode-below c = do_encode-below c 0 values (omega arith)

pub encode-zero : encode 0 ≡ invalid
unfolding encode do_encode
encode-zero = refl
