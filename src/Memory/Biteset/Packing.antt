-- ===== src/Memory/Biteset/Packing.antt =====
-- biteset.cpp: the bytes of a biteset are the stream of the bits of its elements.
use eagine_core.Common.{
  ℕ, zero, suc, ◌+◌, ◌-◌, ◌*◌, ◌/◌, ◌%◌, ◌^◌, ◌≤◌, ◌<◌, ◌≡◌, refl, sym, ap, ap₂, ◌∙◌, inl, inr,
  Bool, List, [], ◌∷◌, ◌++◌, arith, ◌==◌, Bool-cases, length, get_or, set, length-append,
  append_inj, drop, length-drop, drop_all, drop-add, ltb, min,
}
use native.Mathlib.Nat.{mod-lt, mod-eq_of_lt}
use mathlib.Core.List.{append_assoc}
use eagine_core.Common.BitStream.{
  bits_of, number, number-bits_of, length-bits_of, length-stream, stream, two_pow_pos,
}
use eagine_core.Memory.BitDensity.Chunks.{AllBelow}
use eagine_core.Memory.Biteset.Code.{max_steps, get_cell, set_byte_bits, set_cell_bits}
use eagine_core.Memory.Biteset.Gather.{units_from, get_bits_lem}

-- The elements `vs` packed into bytes, with the bits `pad` after them.
abbrev pub Packs : ℕ → List ℕ → List ℕ → List Bool → Type 0
Packs bite bytes vs pad =
    AllBelow (2 ^ 8) bytes × AllBelow (2 ^ bite) vs × (stream 8 bytes ≡ stream bite vs ++ pad)

-- Where an element stands in the stream, and what the stream is with another one there.
pub element_at :
    (w : ℕ) (vs : List ℕ) (i : ℕ)
    → i < length vs
    → (p : List Bool) × (q : List Bool) × (length p ≡ i * w)
      × (stream w vs ≡ p ++ (bits_of w (get_or vs i 0) ++ q))
      × ((v : ℕ) → stream w (set vs i v) ≡ p ++ (bits_of w v ++ q))
unfolding stream
element_at w [] i h = absurd (omega arith)
element_at w (u ∷ vs) zero h =
    let none_before : 0 ≡ 0 * w = omega arith in ([], stream w vs, none_before, refl, λ v. refl)
element_at w (u ∷ vs) (suc i) h =
    let (p, q, size, here, there) = element_at w vs i (omega arith) in
    let next : suc i * w ≡ w + i * w = grind arith in
    (
      bits_of w u ++ p,
      q,
      length-append (bits_of w u) p ∙ omega (arith, length-bits_of w u),
      ap (λ l. bits_of w u ++ l) here ∙ sym (append_assoc (bits_of w u) p _),
      λ v. ap (λ l. bits_of w u ++ l) (there v) ∙ sym (append_assoc (bits_of w u) p _),
    )

drop-append {ℓ} :
    {A : Type ℓ} (n : ℕ) (p s : List A) → n ≤ length p → drop n (p ++ s) ≡ drop n p ++ s
drop-append zero p s h = refl
drop-append (suc n) [] s h = absurd (omega arith)
drop-append (suc n) (x ∷ p) s h = drop-append n p s (omega arith)

units_shift :
    (u : ℕ) (us : List ℕ) (c k : ℕ)
    → units_from (λ j. get_or (u ∷ us) j 0) (suc c) k ≡ units_from (λ j. get_or us j 0) c k
units_shift u us c zero = refl
units_shift u us c (suc k) =
    let e : suc c + 1 ≡ suc (c + 1) = omega arith in
    ap₂ (λ x xs. x ∷ xs) refl
      (ap (λ n. units_from (λ j. get_or (u ∷ us) j 0) n k) e ∙ units_shift u us (c + 1) k)

units_from-drop :
    (us : List ℕ) (c : ℕ) → units_from (λ j. get_or us j 0) c (length us - c) ≡ drop c us
units_from-drop [] zero = refl
units_from-drop [] (suc c) =
    let e : 0 - suc c ≡ 0 = omega arith in ap (units_from (λ j. get_or [] j 0) (suc c)) e
units_from-drop (u ∷ us) zero =
    let e : 0 + 1 ≡ 1 = omega arith in
    let all : length us ≡ length us - 0 = omega arith in
    let first : suc (length us) - 0 ≡ suc (length us) = omega arith in
    ap (units_from (λ j. get_or (u ∷ us) j 0) 0) first
    ∙ ap (λ l. u ∷ l)
        (ap (λ n. units_from (λ j. get_or (u ∷ us) j 0) n (length us)) e
          ∙ units_shift u us 0 (length us)
          ∙ ap (units_from (λ j. get_or us j 0) 0) all
          ∙ units_from-drop us 0)
units_from-drop (u ∷ us) (suc c) =
    let e : suc (length us) - suc c ≡ length us - c = omega arith in
    ap (units_from (λ j. get_or (u ∷ us) j 0) (suc c)) e
    ∙ units_shift u us c (length us - c)
    ∙ units_from-drop us c

stream-drop : (w : ℕ) (us : List ℕ) (c : ℕ) → stream w (drop c us) ≡ drop (c * w) (stream w us)
unfolding stream
stream-drop w us zero = let e : 0 * w ≡ 0 = omega arith in rw e refl
stream-drop w [] (suc c) = sym (drop_all (suc c * w) [] (omega arith))
stream-drop w (u ∷ us) (suc c) =
    let e : suc c * w ≡ w + c * w = grind arith in
    let skip : drop w (bits_of w u ++ stream w us) ≡ stream w us =
      drop-append w (bits_of w u) (stream w us) (omega (arith, length-bits_of w u))
      ∙ ap (λ l. l ++ stream w us) (drop_all w (bits_of w u) (omega (arith, length-bits_of w u))) in
    stream-drop w us c
    ∙ ap (drop (c * w)) (sym skip)
    ∙ drop-add w (c * w) (bits_of w u ++ stream w us)
    ∙ ap (λ n. drop n (bits_of w u ++ stream w us)) (sym e)

pub AllBelow-get_or : (m : ℕ) (vs : List ℕ) (i : ℕ) → 0 < m → AllBelow m vs → get_or vs i 0 < m
AllBelow-get_or m [] i pos h = pos
AllBelow-get_or m (v ∷ vs) zero pos h = h.0
AllBelow-get_or m (v ∷ vs) (suc i) pos h = AllBelow-get_or m vs i pos h.1

pub AllBelow-set : (m : ℕ) (vs : List ℕ) (i v : ℕ) → v < m → AllBelow m vs → AllBelow m (set vs i v)
AllBelow-set m [] i v hv h = h
AllBelow-set m (u ∷ vs) zero v hv h = (hv, h.1)
AllBelow-set m (u ∷ vs) (suc i) v hv h = (h.0, AllBelow-set m vs i v hv h.1)

pub AllBelow-set_cell_bits :
    (cell n state bb be c : ℕ) (bytes : List ℕ)
    → AllBelow (2 ^ 8) bytes
    → AllBelow (2 ^ 8) (set_cell_bits cell n state bb be c bytes)
unfolding set_cell_bits set_byte_bits
AllBelow-set_cell_bits cell zero state bb be c bytes h = h
AllBelow-set_cell_bits cell (suc n) state bb be c bytes h =
    let bl = min (be - bb) (8 - (bb - c * 8)) in
    let by = set_byte_bits (state / 2 ^ (cell - bl)) (get_or bytes c 0) (bb - c * 8) bl in
    elim (Bool-cases (ltb bb be)) [
      | inl more ↦ rw more (
          AllBelow-set_cell_bits cell n (state * 2 ^ bl % 2 ^ cell) (bb + bl) be (c + 1)
            (set bytes c by) (AllBelow-set (2 ^ 8) bytes c by (mod-lt _ (two_pow_pos 8)) h))
      | inr over ↦ rw over h
    ]

-- The stream from a unit on.
pub from_unit :
    (w : ℕ) (us : List ℕ) (c : ℕ) (p s : List Bool)
    → c * w ≤ length p
    → stream w us ≡ p ++ s
    → stream w (units_from (λ j. get_or us j 0) c (length us - c)) ≡ drop (c * w) p ++ s
from_unit w us c p s h e =
    ap (stream w) (units_from-drop us c)
    ∙ stream-drop w us c
    ∙ ap (drop (c * w)) e
    ∙ drop-append (c * w) p s h

-- A byte of a stream of bytes.
pub byte_at :
    (us : List ℕ) (i : ℕ) (p x z : List Bool)
    → length p ≡ i * 8
    → length x ≡ 8
    → stream 8 us ≡ p ++ (x ++ z)
    → bits_of 8 (get_or us i 0) ≡ x
byte_at us i p x z hp hx e =
    let sum = length-append p (x ++ z) in
    let inside : i < length us =
      omega (arith, ap length e, length-stream 8 us, sum, length-append x z) in
    let (p', q, size, here, there) = element_at 8 us i inside in
    let (front, back) = append_inj p' p _ _ (size ∙ sym hp) (sym here ∙ e) in
    (append_inj (bits_of 8 (get_or us i 0)) x q z (length-bits_of 8 _ ∙ sym hx) back).0

module _ (bite cell : ℕ) (pos : 0 < bite) (reach : bite ≤ 49) (room : bite ≤ cell) where
  -- An element is read as it was packed.
  pub get_cell-Packs :
      (bytes vs : List ℕ) (pad : List Bool) (i : ℕ)
      → Packs bite bytes vs pad
      → i < length vs
      → get_cell bite cell bytes i ≡ get_or vs i 0
  unfolding get_cell number
  get_cell-Packs bytes vs pad i (hb, hv, e) h =
      let v = get_or vs i 0 in
      let small : v < 2 ^ bite = AllBelow-get_or (2 ^ bite) vs i (two_pow_pos bite) hv in
      let (p, q, size, here, there) = element_at bite vs i h in
      let whole : stream 8 bytes ≡ p ++ (bits_of bite v ++ (q ++ pad)) =
        e
        ∙ ap (λ l. l ++ pad) here
        ∙ append_assoc p _ pad
        ∙ ap (λ l. p ++ l) (append_assoc _ q pad) in
      elim (Bool-cases (bite == 8)) [
        | inl byte ↦
            let eight : bite ≡ 8 = ground arith in
            let same =
              byte_at bytes i p (bits_of bite v) (q ++ pad) (size ∙ ap (λ (t : ℕ). i * t) eight)
                (length-bits_of bite v ∙ eight) whole in
            rw (get_cell, byte)
              (sym (mod-eq_of_lt (AllBelow-get_or (2 ^ 8) bytes i (two_pow_pos 8) hb))
                ∙ sym (number-bits_of 8 (get_or bytes i 0))
                ∙ ap number same
                ∙ number-bits_of bite v
                ∙ mod-eq_of_lt small)
        | inr other ↦
            let c = i * bite / 8 in
            let after : (i + 1) * bite ≡ i * bite + bite = grind arith in
            let o_size : length (drop (c * 8) p) ≡ i * bite - c * 8 =
              omega (arith, length-drop (c * 8) p) in
            rw (get_cell, other)
              (get_bits_lem (λ j. get_or bytes j 0) 8 cell max_steps (length bytes - c) []
                  (drop (c * 8) p) (bits_of bite v) (q ++ pad) (i * bite) ((i + 1) * bite) c
                  (omega (arith, length-bits_of bite v)) (omega (arith, length-bits_of bite v))
                  (omega arith) (omega arith) (omega (arith, length-bits_of bite v))
                  (from_unit 8 bytes c p _ (omega arith) whole)
                ∙ number-bits_of bite v
                ∙ mod-eq_of_lt small)
      ]
