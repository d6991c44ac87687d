-- ===== src/Identifier/Decimal.antt =====
-- identifier_impl.cpp: identifiers that spell numbers.
use eagine_core.Common.{
  ℕ, zero, suc, ◌+◌, ◌-◌, ◌*◌, ◌/◌, ◌%◌, ◌^◌, ◌≤◌, ◌<◌, ◌≡◌, refl, sym, ap, ap₂, ◌∙◌, true, List,
  [], ◌∷◌, arith, length, get_or, ltb, ltb→lt, ◌≢◌, ◌⊎◌, ◌==◌, Bool-cases, inl, inr, le→leb,
  all_below, all_below_sound, if◌then◌else◌,
}
use native.Mathlib.Nat.{mod-lt, mod-eq_of_lt, div-add-mod', mul-add-mod_self_right, pow-suc}
use eagine_core.Memory.BitDensity.Chunks.{AllBelow}
use mathlib.Core.List.{head-eq_of_cons-eq}
use eagine_core.Identifier.Code.{
  values, make_bites, in_chars, can_be_encoded, can_be_encoded_chars, str,
}
use eagine_core.Identifier.Distinct.{underscores, str-of_text}

abbrev hd : List ℕ
hd = 48 ∷ 49 ∷ 50 ∷ 51 ∷ 52 ∷ 53 ∷ 54 ∷ 55 ∷ 56 ∷ 57 ∷ 97 ∷ 98 ∷ 99 ∷ 100 ∷ 101 ∷ 102 ∷ []

unfoldable pub byte_to_str : ℕ → List ℕ
byte_to_str b = 48 ∷ 120 ∷ get_or hd (b / 2 ^ 4 % 16) 0 ∷ get_or hd (b % 16) 0 ∷ []

unfoldable pub byte_to_identifier : ℕ → List ℕ
byte_to_identifier b = make_bites (byte_to_str b)

-- The loop that writes `l` digits from the last one on, before those that are written.
unfoldable pub ident_dec_to_str : ℕ → ℕ → List ℕ → List ℕ
ident_dec_to_str zero i tmp = tmp
ident_dec_to_str (suc l) i tmp = ident_dec_to_str l (i / 10) ((i % 10 + 48) ∷ tmp)

-- The number of digits that the branches of `dec_to_identifier` choose.
unfoldable pub dec_digits : ℕ → ℕ
dec_digits i =
    if ltb i 10
    then 1
    else (if ltb i 100
        then 2
        else (if ltb i 1000
            then 3
            else (if ltb i 10000
                then 4
                else (if ltb i 100000
                    then 5
                    else (if ltb i 1000000
                        then 6
                        else (if ltb i 10000000
                            then 7
                            else (if ltb i 100000000
                                then 8
                                else (if ltb i 1000000000 then 9 else 10))))))))

unfoldable pub dec_to_str : ℕ → List ℕ
dec_to_str i = ident_dec_to_str (dec_digits i) i []

unfoldable pub dec_to_identifier : ℕ → List ℕ
dec_to_identifier i = make_bites (dec_to_str i)

-- The number that a text of digits stands for, after what stands before it.
unfoldable pub read_decimal : ℕ → List ℕ → ℕ
read_decimal acc [] = acc
read_decimal acc (c ∷ str) = read_decimal (acc * 10 + (c - 48)) str

ten_pow_pos : (l : ℕ) → 0 < 10 ^ l
ten_pow_pos zero = omega arith
ten_pow_pos (suc l) = omega (arith, pow-suc 10 l, ten_pow_pos l)

mod-pow_ten : (l i : ℕ) → i / 10 % 10 ^ l * 10 + i % 10 ≡ i % 10 ^ suc l
mod-pow_ten l i =
    let q = i / 10 in
    let P = 10 ^ l in
    let d = i % 10 in
    let low : q % P < P = mod-lt q (ten_pow_pos l) in
    let small : q % P * 10 + d < P * 10 = omega arith in
    let split : i ≡ q / P * (P * 10) + (q % P * 10 + d) = sym (
      spread (q / P) P (q % P) d
      ∙ ap (λ (t : ℕ). t * 10 + d) (div-add-mod' q P)
      ∙ div-add-mod' i 10) in
    sym (
      ap₂ (λ (a b : ℕ). a % b) split (pow-suc 10 l)
      ∙ mul-add-mod_self_right (q / P) (P * 10) (q % P * 10 + d)
      ∙ mod-eq_of_lt small)
  where
    spread : (a b c d : ℕ) → a * (b * 10) + (c * 10 + d) ≡ (a * b + c) * 10 + d
    spread a b c d = grind arith

read_decimal-ident_dec_to_str :
    (l i : ℕ) (tmp : List ℕ)
    → read_decimal 0 (ident_dec_to_str l i tmp) ≡ read_decimal (i % 10 ^ l) tmp
unfolding ident_dec_to_str read_decimal
read_decimal-ident_dec_to_str zero i tmp = ap (λ n. read_decimal n tmp) (omega arith)
read_decimal-ident_dec_to_str (suc l) i tmp =
    let digit : i % 10 + 48 - 48 ≡ i % 10 = omega arith in
    read_decimal-ident_dec_to_str l (i / 10) ((i % 10 + 48) ∷ tmp)
    ∙ ap (λ n. read_decimal (i / 10 % 10 ^ l * 10 + n) tmp) digit
    ∙ ap (λ n. read_decimal n tmp) (mod-pow_ten l i)

abbrev pub AreDigits : List ℕ → Type 0
AreDigits [] = Unit
AreDigits (c ∷ cs) = (48 ≤ c) × (c < 58) × AreDigits cs

AreDigits-ident_dec_to_str :
    (l i : ℕ) (tmp : List ℕ) → AreDigits tmp → AreDigits (ident_dec_to_str l i tmp)
unfolding ident_dec_to_str
AreDigits-ident_dec_to_str zero i tmp h = h
AreDigits-ident_dec_to_str (suc l) i tmp h =
    AreDigits-ident_dec_to_str l (i / 10) _ (omega arith, omega arith, h)

length-ident_dec_to_str :
    (l i : ℕ) (tmp : List ℕ) → length (ident_dec_to_str l i tmp) ≡ l + length tmp
unfolding ident_dec_to_str
length-ident_dec_to_str zero i tmp = omega arith
length-ident_dec_to_str (suc l) i tmp =
    length-ident_dec_to_str l (i / 10) ((i % 10 + 48) ∷ tmp) ∙ omega arith

-- The digits of a number, with no zero before them: the first digit is not 0 unless it is the only one.
abbrev pub IsDecimal : ℕ → List ℕ → Type 0
IsDecimal i cs = (read_decimal 0 cs ≡ i) × AreDigits cs × ((length cs ≡ 1) ⊎ (get_or cs 0 0 ≢ 48))

-- `n` digits are enough, and no more than there are.
abbrev Exact : ℕ → ℕ → Type 0
Exact i n = (i < 10 ^ n) × (1 ≤ n) × (n ≤ 10) × (1 < n → 10 ^ (n - 1) ≤ i)

-- One branch, for numbers with at least `n` digits, before the branches for those with more.
branch :
    (i n m : ℕ)
    → 1 ≤ n
    → n ≤ 10
    → (1 < n → 10 ^ (n - 1) ≤ i)
    → (10 ^ n ≤ i → Exact i m)
    → Exact i (if ltb i (10 ^ n) then n else m)
branch i n m lo hi more rest = elim (Bool-cases (ltb i (10 ^ n))) [
  | inl below ↦ rw below (ltb→lt i (10 ^ n) below, lo, hi, more)
  | inr above ↦ rw above (rest (ground arith))
]

-- The branches choose the number of the digits.
dec_digits_lem : (i : ℕ) → i < 10 ^ 10 → Exact i (dec_digits i)
unfolding dec_digits
dec_digits_lem i h =
    branch i 1 _ (omega arith) (omega arith) (λ m. absurd (omega arith))
      (λ a.
        branch i 2 _ (omega arith) (omega arith) (λ _. a)
          (λ b.
            branch i 3 _ (omega arith) (omega arith) (λ _. b)
              (λ c.
                branch i 4 _ (omega arith) (omega arith) (λ _. c)
                  (λ d.
                    branch i 5 _ (omega arith) (omega arith) (λ _. d)
                      (λ e.
                        branch i 6 _ (omega arith) (omega arith) (λ _. e)
                          (λ f.
                            branch i 7 _ (omega arith) (omega arith) (λ _. f)
                              (λ g.
                                branch i 8 _ (omega arith) (omega arith) (λ _. g)
                                  (λ k.
                                    branch i 9 _ (omega arith) (omega arith) (λ _. k)
                                      (λ l. (h, omega arith, omega arith, λ _. l))))))))))

-- Fewer digits stand for smaller numbers.
read_decimal-lt :
    (cs : List ℕ) (acc : ℕ) → AreDigits cs → read_decimal acc cs < (acc + 1) * 10 ^ length cs
unfolding read_decimal
read_decimal-lt [] acc h = omega arith
read_decimal-lt (c ∷ cs) acc (lo, hi, h) =
    let P = 10 ^ length cs in
    let a = acc * 10 + (c - 48) in
    let digit : a + 1 ≤ (acc + 1) * 10 = omega arith in
    let step : (a + 1) * P ≤ (acc + 1) * (P * 10) = grind arith in
    let e : 10 ^ suc (length cs) ≡ P * 10 = pow-suc 10 (length cs) in
    let rest = read_decimal-lt cs a h in rw e (omega arith)

read_decimal-leading_zero :
    (cs : List ℕ) → AreDigits cs → get_or cs 0 0 ≡ 48 → read_decimal 0 cs < 10 ^ (length cs - 1)
unfolding read_decimal
read_decimal-leading_zero [] h e = absurd (omega arith)
read_decimal-leading_zero (c ∷ cs) (lo, hi, h) e =
    let zero_digit : 0 * 10 + (c - 48) ≡ 0 = omega arith in
    let n : suc (length cs) - 1 ≡ length cs = omega arith in
    let rest = read_decimal-lt cs 0 h in rw (zero_digit, n) (omega arith)

digits_checked : all_below 10 (λ d. in_chars values (d + 48)) ≡ true
unfolding all_below in_chars
digits_checked = refl

one_of_digits : (c : ℕ) → 48 ≤ c → c < 58 → (in_chars values c ≡ true) × (c < 256)
one_of_digits c lo hi =
    let e : c - 48 + 48 ≡ c = omega arith in
    (
      ap (in_chars values) (sym e)
          ∙ all_below_sound 10 (λ d. in_chars values (d + 48)) (c - 48) digits_checked
              (omega arith),
      omega arith,
    )

digits-can_be_encoded :
    (cs : List ℕ) → AreDigits cs → (can_be_encoded_chars cs ≡ true) × AllBelow 256 cs
unfolding can_be_encoded_chars
digits-can_be_encoded [] h = (refl, tt)
digits-can_be_encoded (c ∷ cs) (lo, hi, h) =
    let (element, small) = one_of_digits c lo hi in
    let (more, below) = digits-can_be_encoded cs h in (rw element more, (small, below))

not_underscores : (cs : List ℕ) → AreDigits cs → cs ≢ underscores
not_underscores [] h e = absurd (omega (arith, ap length e))
not_underscores (c ∷ cs) (lo, hi, h) e = omega (arith, head-eq_of_cons-eq e)

-- The name of dec_to_identifier of a number below 10^10 is its decimal: it consists of digits, reads
-- as the number, and does not begin with the digit 0 unless that is all of it.
pub str-dec_to_identifier : (i : ℕ) → i < 10 ^ 10 → IsDecimal i (str (dec_to_identifier i))
unfolding dec_to_identifier dec_to_str can_be_encoded read_decimal
str-dec_to_identifier i h =
    let (room, some_digit, few, needed) = dec_digits_lem i h in
    let d = dec_digits i in
    let cs = ident_dec_to_str d i [] in
    let digits = AreDigits-ident_dec_to_str d i [] tt in
    let size : length cs ≡ d = length-ident_dec_to_str d i [] ∙ omega arith in
    let fits = le→leb (length cs) 10 (omega arith) in
    let (encodable, below) = digits-can_be_encoded cs digits in
    let name : str (make_bites cs) ≡ cs =
      str-of_text cs below (rw fits encodable) (not_underscores cs digits) in
    let reads : read_decimal 0 cs ≡ i = read_decimal-ident_dec_to_str d i [] ∙ mod-eq_of_lt room in
    rw name (
      reads,
      digits,
      elim (Bool-cases (d == 1)) [
        | inl one ↦ inl (size ∙ ground arith)
        | inr more ↦ inr (λ e.
            let small : read_decimal 0 cs < 10 ^ (d - 1) =
              rw size at (read_decimal-leading_zero cs digits e) in
            let big = needed (ground arith) in omega arith)
      ],
    )
