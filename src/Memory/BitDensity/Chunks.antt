-- ===== src/Memory/BitDensity/Chunks.antt =====
-- The inner loops of bit_density.cpp as moves of bits: what `push` puts and leaves, and what `fill`
-- takes in.
use eagine_core.Common.{
  ℕ, zero, suc, ◌+◌, ◌-◌, ◌*◌, ◌/◌, ◌%◌, ◌^◌, ◌≤◌, ◌<◌, ◌≡◌, refl, sym, ap, ap₂, ◌∙◌, inl, inr,
  Bool, true, false, Option, some, List, [], ◌∷◌, ◌++◌, arith, length, ltb, leb, Bool-cases, ◌>>=◌,
  >>=-assoc, >>=-cong,
}
use native.Mathlib.Nat.{mod-lt, mul-mod_left}
use mathlib.Core.List.{append_assoc, append-nil}
use Prim.Native.Nat.{bit_or}
use eagine_core.Common.Bits.{bit_or-add}
use eagine_core.Common.BitStream.{
  bits_of, stream, two_pow_pos, shift-wraps, bits_of-append, bits_of-mod, bits_of-fields,
}
use eagine_core.Memory.BitDensity.Code.{byte_bits, byte_mod, push, shift_in, shift_group, fill}

abbrev pub AllBelow : ℕ → List ℕ → Type 0
AllBelow m [] = Unit
AllBelow m (v ∷ vs) = (v < m) × AllBelow m vs

-- A putter called on each value in turn.
unfoldable pub put_all {ℓ} : {S : Type ℓ} → (S → ℕ → Option S) → List ℕ → S → Option S
put_all put [] s = some s
put_all put (v ∷ vs) s = put s v >>= put_all put vs

pub put_all-append {ℓ} :
    {S : Type ℓ} (put : S → ℕ → Option S) (us vs : List ℕ) (s : S)
    → put_all put (us ++ vs) s ≡ (put_all put us s >>= put_all put vs)
unfolding put_all
put_all-append put [] vs s = refl
put_all-append put (u ∷ us) vs s =
    >>=-cong (put s u) _ _ (put_all-append put us vs)
    ∙ sym (>>=-assoc (put s u) (put_all put us) (put_all put vs))

pub AllBelow-append :
    (m : ℕ) (us vs : List ℕ) → AllBelow m us → AllBelow m vs → AllBelow m (us ++ vs)
AllBelow-append m [] vs hu hv = hv
AllBelow-append m (u ∷ us) vs (h, hu) hv = (h, AllBelow-append m us vs hu hv)

-- The next byte comes below the pending bits.
pub bits_of-shift_in :
    (word r w x : ℕ)
    → r + 8 ≤ word
    → x < 2 ^ 8
    → bits_of (r + 8) (shift_in word w x) ≡ bits_of r w ++ bits_of 8 x
unfolding byte_bits
bits_of-shift_in word r w x h hx =
    let q = w % 2 ^ (word - 8) in
    ap (λ (t : ℕ). bits_of (r + 8) (bit_or t x)) (shift-wraps w 8 word (omega arith))
    ∙ ap (λ (t : ℕ). bits_of (r + 8) t) (bit_or-add 8 q x hx)
    ∙ bits_of-fields r 8 q x hx
    ∙ ap (λ l. l ++ bits_of 8 x) (bits_of-mod r (word - 8) w (omega arith))

pub bits_of-shift_group :
    (word bits r w x : ℕ)
    → r + bits ≤ word
    → bits_of (r + bits) (shift_group word bits w x) ≡ bits_of r w ++ bits_of bits x
bits_of-shift_group word bits r w x h =
    let q = w % 2 ^ (word - bits) in
    let low : x % 2 ^ bits < 2 ^ bits = mod-lt x (two_pow_pos bits) in
    let clear : q * 2 ^ bits - q * 2 ^ bits % 2 ^ bits ≡ q * 2 ^ bits =
      omega (arith, mul-mod_left q (2 ^ bits)) in
    ap (λ (t : ℕ). bits_of (r + bits) (bit_or (t - t % 2 ^ bits) (x % 2 ^ bits)))
      (shift-wraps w bits word (omega arith))
    ∙ ap (λ (t : ℕ). bits_of (r + bits) (bit_or t (x % 2 ^ bits))) clear
    ∙ ap (λ (t : ℕ). bits_of (r + bits) t) (bit_or-add bits q (x % 2 ^ bits) low)
    ∙ bits_of-fields r bits q (x % 2 ^ bits) low
    ∙ ap₂ (λ k l. k ++ l) (bits_of-mod r (word - bits) w (omega arith))
        (bits_of-mod bits bits x (omega arith))

-- A group that is put, and the bits below it.
take_group :
    (bits r w : ℕ)
    → bits ≤ 8
    → bits ≤ r
    → bits_of bits (w / 2 ^ (r - bits) % byte_mod % 2 ^ bits) ++ bits_of (r - bits) w ≡ bits_of r w
take_group bits r w hb h =
    let q = w / 2 ^ (r - bits) in
    let e : bits + (r - bits) ≡ r = omega arith in
    ap (λ l. l ++ bits_of (r - bits) w)
      (bits_of-mod bits bits (q % byte_mod) (omega arith) ∙ bits_of-mod bits 8 q hb)
    ∙ sym (bits_of-append bits (r - bits) w)
    ∙ ap (λ n. bits_of n w) e

-- The inner loop puts whole groups of the pending bits and leaves fewer than one.
pub push_lem {ℓ} :
    {S : Type ℓ} (put : S → ℕ → Option S) (bits n r w : ℕ)
    → 0 < bits
    → bits ≤ 8
    → r ≤ n
    → (gs : List ℕ) × (r' : ℕ) × (r' < bits)
      × AllBelow (2 ^ bits) gs
      × (stream bits gs ++ bits_of r' w ≡ bits_of r w)
      × ((s : S) → push put bits n r w s ≡ (put_all put gs s >>= λ s'. some (r', s')))
unfolding push put_all stream
push_lem put bits zero r w hb h8 h = ([], r, omega arith, tt, refl, λ s. refl)
push_lem put bits (suc n) r w hb h8 h = elim (Bool-cases (leb bits r)) [
  | inl whole ↦
      let le : bits ≤ r = ground arith in
      let v = w / 2 ^ (r - bits) % byte_mod % 2 ^ bits in
      let (gs, r', less, below, bits_same, runs) =
        push_lem put bits n (r - bits) w hb h8 (omega arith) in
      (
        v ∷ gs,
        r',
        less,
        (mod-lt _ (two_pow_pos bits), below),
        append_assoc (bits_of bits v) (stream bits gs) (bits_of r' w)
            ∙ ap (λ l. bits_of bits v ++ l) bits_same
            ∙ take_group bits r w h8 le,
        λ s. rw whole (
            >>=-cong (put s v) _ _ runs
            ∙ sym (>>=-assoc (put s v) (put_all put gs) (λ s'. some (r', s')))),
      )
  | inr less ↦ ([], r, ground arith, tt, refl, λ s. rw less refl)
]

-- What the inner loop that takes groups in does: the bits that it holds and those still to get are
-- the same, and it stops with a byte or at the end.
abbrev pub Filled : ℕ → List ℕ → ℕ → ℕ → Bool × List ℕ × ℕ × ℕ → Type 0
Filled bits src r w (true, src', r', w') =
    (r' < 8) × (bits_of r' w' ≡ bits_of r w ++ stream bits src)
Filled bits src r w (false, src', r', w') =
    (8 ≤ r')
    × (r' < 16)
    × (length src' ≤ length src)
    × (r < 8 → length src' < length src)
    × (bits_of r' w' ++ stream bits src' ≡ bits_of r w ++ stream bits src)

Filled-step :
    (word bits : ℕ) (src : List ℕ) (r w x : ℕ) (out : Bool × List ℕ × ℕ × ℕ)
    → r + bits ≤ word
    → Filled bits src (r + bits) (shift_group word bits w x) out
    → Filled bits (x ∷ src) r w out
unfolding stream
Filled-step word bits src r w x (true, src', r', w') h (less, same) = (less, same ∙ group_in)
  where
    group_in :
        bits_of (r + bits) (shift_group word bits w x) ++ stream bits src
        ≡ bits_of r w ++ (bits_of bits x ++ stream bits src)
    group_in =
        ap (λ l. l ++ stream bits src) (bits_of-shift_group word bits r w x h)
        ∙ append_assoc (bits_of r w) (bits_of bits x) (stream bits src)
Filled-step word bits src r w x (false, src', r', w') h (le, lt, shorter, fewer, same) = (
  le,
  lt,
  omega arith,
  λ less. omega arith,
  same
      ∙ ap (λ l. l ++ stream bits src) (bits_of-shift_group word bits r w x h)
      ∙ append_assoc (bits_of r w) (bits_of bits x) (stream bits src),
)

pub fill_lem :
    (word bits : ℕ) (src : List ℕ) (r w : ℕ)
    → 16 ≤ word
    → bits ≤ 8
    → r < 16
    → Filled bits src r w (fill word bits src r w)
unfolding fill stream byte_bits
fill_lem word bits [] r w hw hb h = elim (Bool-cases (ltb r 8)) [
  | inl less ↦ rw less (ground arith, sym (append-nil (bits_of r w)))
  | inr full ↦ rw full (ground arith, h, omega arith, λ e. ground arith, refl)
]
fill_lem word bits (x ∷ src) r w hw hb h = elim (Bool-cases (ltb r 8)) [
  | inl less ↦ rw less (
      Filled-step word bits src r w x _ (ground arith)
        (fill_lem word bits src (r + bits) (shift_group word bits w x) hw hb (ground arith)))
  | inr full ↦ rw full (ground arith, h, omega arith, λ e. ground arith, refl)
]
