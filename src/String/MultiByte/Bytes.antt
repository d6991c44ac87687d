-- ===== src/String/MultiByte/Bytes.antt =====
-- multi_byte.cpp: the bytes of an encoding in plain arithmetic, each by itself.
use Prim.Native.Nat.{bit_and, bit_or, bit_and-bitwise}
use native.Mathlib.Nat.{one-le-pow, mul_comm, div-div-eq-div-mul, div-add-mod}
use native.Mathlib.Numerals.{towards_suc}
use eagine_core.Common.{
  ℕ, zero, suc, ◌+◌, ◌-◌, ◌*◌, ◌/◌, ◌%◌, ◌^◌, ◌≤◌, ◌<◌, Bool, true, ◌&&◌, List, [], ◌∷◌, ◌==◌,
  if◌then◌else◌, all_below, all_below_sound, &&-eq-true, ==_iff, ◌≡◌, refl, sym, ap, ◌∙◌, arith,
}
use eagine_core.Common.Bits.{bit_or-add}
use eagine_core.String.MultiByte.Masks.{head_data_mask, head_code, do_decode_sequence_length}
use eagine_core.String.MultiByte.Code.{do_encode_code_point_byte}

-- The lower six-bit groups of a code point, highest first, each with the mark of a tail byte.
unfoldable pub tails_of : ℕ → ℕ → List ℕ
tails_of zero cp = []
tails_of (suc n) cp = (128 + cp / 2 ^ (n * 6) % 64) ∷ tails_of n cp

-- The encoding in `l` bytes.
unfoldable pub encoding : ℕ → ℕ → List ℕ
unfolding tails_of head_code
encoding l cp = (head_code l + cp / 2 ^ ((l - 1) * 6)) ∷ tails_of (l - 1) cp

-- What the head byte of `l` bytes has room for.
abbrev pub head_limit : ℕ → ℕ
head_limit l = if l == 1 then 128 else 2 ^ (7 - l)

abbrev head_ok : ℕ → ℕ → Bool
head_ok l x =
    bit_or (head_code l) (bit_and (head_data_mask l) x) % 256 == head_code l + x
    && (do_decode_sequence_length (head_code l + x) == l
        && bit_and (head_code l + x) (head_data_mask l) == x)

pub record HeadByte (l x : ℕ) : Type 0 where
  pub written : bit_or (head_code l) (bit_and (head_data_mask l) x) % 256 ≡ head_code l + x
  pub announces : do_decode_sequence_length (head_code l + x) ≡ l
  pub read : bit_and (head_code l + x) (head_data_mask l) ≡ x

head_table : (l : ℕ) → 1 ≤ l → l ≤ 6 → all_below (head_limit l) (head_ok l) ≡ true
unfolding all_below head_code head_data_mask do_decode_sequence_length
head_table zero lo hi = absurd (omega arith)
head_table (suc zero) lo hi = refl
head_table (suc (suc zero)) lo hi = refl
head_table (suc (suc (suc zero))) lo hi = refl
head_table (suc (suc (suc (suc zero)))) lo hi = refl
head_table (suc (suc (suc (suc (suc zero))))) lo hi = refl
head_table (suc (suc (suc (suc (suc (suc zero)))))) lo hi = refl
head_table (suc (suc (suc (suc (suc (suc (suc n))))))) lo hi = absurd (omega arith)

pub head_byte : (l x : ℕ) → 1 ≤ l → l ≤ 6 → x < head_limit l → HeadByte l x
head_byte l x lo hi h =
    let ok = all_below_sound (head_limit l) (head_ok l) x (head_table l lo hi) h in
    let a =
      &&-eq-true (bit_or (head_code l) (bit_and (head_data_mask l) x) % 256 == head_code l + x) _
        ok in
    let b = &&-eq-true (do_decode_sequence_length (head_code l + x) == l) _ a.1 in
    record {
      written = (==_iff _ _).0 a.0;
      announces = (==_iff _ _).0 b.0;
      read = (==_iff _ _).0 b.1;
    }

low_six : (x : ℕ) → bit_and 63 x ≡ x % 64
low_six x = omega (arith, bit_and-bitwise 63 x)

pub tail_written : (cp s : ℕ) → do_encode_code_point_byte cp 128 63 s ≡ 128 + cp / 2 ^ s % 64
unfolding do_encode_code_point_byte
tail_written cp s =
    rw (low_six (cp / 2 ^ s)) (omega (arith, bit_or-add 6 2 (cp / 2 ^ s % 64) (omega arith)))

tail_read_table : all_below 64 (λ y. bit_and (128 + y) 63 == y) ≡ true
unfolding all_below
tail_read_table = refl

pub tail_read : (y : ℕ) → y < 64 → bit_and (128 + y) 63 ≡ y
tail_read y h =
    (==_iff _ _).0 (all_below_sound 64 (λ y. bit_and (128 + y) 63 == y) y tail_read_table h)

sixty_four : (n : ℕ) → 2 ^ (suc n * 6) ≡ 64 * 2 ^ (n * 6)
sixty_four n = let e : suc n * 6 ≡ n * 6 + 6 = omega arith in rw e (simp towards_suc (omega arith))

-- The groups from `n` on, at their place, and those from `suc n` on.
regroup :
    (n cp : ℕ)
    → cp / 2 ^ (n * 6) * 2 ^ (n * 6)
      ≡ cp / 2 ^ (suc n * 6) * 2 ^ (suc n * 6) + cp / 2 ^ (n * 6) % 64 * 2 ^ (n * 6)
regroup n cp =
    let p = 2 ^ (n * 6) in
    let q = cp / 2 ^ (n * 6) in
    let upper : cp / (64 * p) ≡ q / 64 =
      ap (λ (t : ℕ). cp / t) (mul_comm 64 p) ∙ sym (div-div-eq-div-mul cp p 64) in
    rw (sixty_four n, upper) (omega (arith, ap (λ (t : ℕ). t * p) (div-add-mod q 64)))

-- One more group joins those that are read.
pub join_group :
    (n cp : ℕ)
    → bit_or (cp / 2 ^ (suc n * 6) * 2 ^ (suc n * 6)) (cp / 2 ^ (n * 6) % 64 * 2 ^ (n * 6))
      ≡ cp / 2 ^ (n * 6) * 2 ^ (n * 6)
join_group n cp =
    bit_or-add (suc n * 6) (cp / 2 ^ (suc n * 6)) (cp / 2 ^ (n * 6) % 64 * 2 ^ (n * 6))
      (rw (sixty_four n) (grind (arith, one-le-pow (n * 6) 2)))
    ∙ sym (regroup n cp)
