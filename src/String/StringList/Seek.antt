-- ===== src/String/StringList/Seek.antt =====
-- list.cpp: the search for the head byte of the last code.
use eagine_core.Common.{
  ℕ, zero, suc, ◌+◌, ◌-◌, ◌/◌, ◌^◌, ◌*◌, ◌%◌, ◌≤◌, ◌<◌, true, false, not, List, [], ◌∷◌, ◌++◌, ◌==◌,
  length, get_or, all_below, all_below_sound, Bool-cases, inl, inr, ◌≡◌, refl, ap, ◌∙◌, arith,
}
use eagine_core.String.MultiByte.Masks.{invalid_code_point, head_code, is_valid_head_byte}
use eagine_core.String.MultiByte.Bytes.{tails_of, encoding, head_limit}
use eagine_core.String.MultiByte.Fields.{get_or_middle}
use eagine_core.String.MultiByte.RoundTrip.{required-Fits}
use eagine_core.String.StringList.{rev_seek}
use eagine_core.String.StringList.Element.{code_size, code}

tail_table : all_below 64 (λ y. not (is_valid_head_byte (128 + y))) ≡ true
unfolding all_below is_valid_head_byte
tail_table = refl

head_table :
    (l : ℕ)
    → 1 ≤ l
    → l ≤ 6
    → all_below (head_limit l) (λ x. is_valid_head_byte (head_code l + x)) ≡ true
unfolding all_below head_code is_valid_head_byte
head_table zero lo hi = absurd (omega arith)
head_table (suc zero) lo hi = refl
head_table (suc (suc zero)) lo hi = refl
head_table (suc (suc (suc zero))) lo hi = refl
head_table (suc (suc (suc (suc zero)))) lo hi = refl
head_table (suc (suc (suc (suc (suc zero))))) lo hi = refl
head_table (suc (suc (suc (suc (suc (suc zero)))))) lo hi = refl
head_table (suc (suc (suc (suc (suc (suc (suc n))))))) lo hi = absurd (omega arith)

get_or-append :
    (pre rest : List ℕ) (j : ℕ) → get_or (pre ++ rest) (length pre + j) 0 ≡ get_or rest j 0
get_or-append [] rest j = ap (λ i. get_or rest i 0) (omega arith)
get_or-append (x ∷ pre) rest j =
    let e : suc (length pre) + j ≡ suc (length pre + j) = omega arith in
    rw e (get_or-append pre rest j)

tails_not_heads :
    (k cp : ℕ) (rest : List ℕ) (j : ℕ)
    → j < k
    → is_valid_head_byte (get_or (tails_of k cp ++ rest) j 0) ≡ false
unfolding tails_of
tails_not_heads zero cp rest j h = absurd (omega arith)
tails_not_heads (suc k) cp rest zero h = ground (
  arith,
  all_below_sound 64 (λ y. not (is_valid_head_byte (128 + y))) (cp / 2 ^ (k * 6) % 64) tail_table
      (omega arith),
)
tails_not_heads (suc k) cp rest (suc j) h = tails_not_heads k cp rest j (omega arith)

rev_seek_lem :
    (list : List ℕ) (n i : ℕ)
    → i < n
    → is_valid_head_byte (get_or list i 0) ≡ true
    → ((j : ℕ) → i < j → j < n → is_valid_head_byte (get_or list j 0) ≡ false)
    → rev_seek list n ≡ i
unfolding rev_seek
rev_seek_lem list zero i h k t = absurd (omega arith)
rev_seek_lem list (suc n) i h k t = elim (Bool-cases (n == i)) [
  | inl same ↦ let e : n ≡ i = ground arith in rw (e, k) refl
  | inr other ↦
      let below : i < n = ground arith in
      rw (t n below (omega arith)) (rev_seek_lem list n i below k (λ j a b. t j a (omega arith)))
]

-- The last code is found from the byte behind it.
pub seek-code :
    (pre rest : List ℕ) (n : ℕ)
    → n < invalid_code_point
    → rev_seek (pre ++ (code n ++ rest)) (length pre + code_size n) ≡ length pre
unfolding encoding
seek-code pre rest n h =
    let f = required-Fits n h in
    let l = code_size n in
    let x = n / 2 ^ ((l - 1) * 6) in
    let list = pre ++ (code n ++ rest) in
    let first =
      all_below_sound (head_limit l) (λ y. is_valid_head_byte (head_code l + y)) x
        (head_table l f.lo f.hi) f.top in
    let at = get_or_middle pre (tails_of (l - 1) n ++ rest) (head_code l + x) (length pre) refl in
    rev_seek_lem list (length pre + l) (length pre) (omega (arith, f.lo))
      (ap is_valid_head_byte at ∙ first)
      (λ j lo hi.
        let e : j ≡ length pre + suc (j - length pre - 1) = omega arith in
        ap (λ i. is_valid_head_byte (get_or list i 0)) e
        ∙ ap is_valid_head_byte (get_or-append pre (code n ++ rest) (suc (j - length pre - 1)))
        ∙ tails_not_heads (l - 1) n rest (j - length pre - 1) (omega arith))
