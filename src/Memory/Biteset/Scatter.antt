-- ===== src/Memory/Biteset/Scatter.antt =====
-- biteset.cpp: the loop that writes a value into bytes replaces its bits and keeps the others.
use eagine_core.Common.{
  ℕ, zero, suc, ◌+◌, ◌-◌, ◌*◌, ◌/◌, ◌%◌, ◌^◌, ◌≤◌, ◌<◌, ◌≡◌, refl, sym, ap, ap₂, ◌∙◌, inl, inr,
  Bool, true, false, List, [], ◌∷◌, ◌++◌, arith, min, ltb, leb, take-length, Bool-cases, length,
  get_or, set, replicate, length-append, append_inj, take, drop, length-take, length-drop,
  take-append-drop, drop_all,
}
use native.Mathlib.Nat.{mod-lt, div-lt_iff_lt-mul}
use mathlib.Core.List.{append_assoc, append-nil}
use eagine_core.Common.BitStream.{
  bits_of, length-bits_of, stream, bits_of-append, bits_of-mod, bits_of-fields, two_pow_pos,
  pow-add, bits_of-zero,
}
use eagine_core.Memory.Biteset.Code.{set_byte_bits, set_cell_bits}
use eagine_core.Memory.Biteset.Fields.{replaced}

-- The same in a sequence of bytes.
replaced_at :
    (bytes : List ℕ) (c v : ℕ) (p x more z w : List Bool)
    → c * 8 ≤ length p
    → length p - c * 8 + length x ≤ 8
    → 0 < length x
    → length w ≡ length x
    → bits_of (length x) v ≡ w
    → v < 2 ^ length x
    → stream 8 bytes ≡ p ++ ((x ++ more) ++ z)
    → stream 8 (set bytes c (set_byte_bits v (get_or bytes c 0) (length p - c * 8) (length x)))
      ≡ p ++ ((w ++ more) ++ z)
unfolding stream
replaced_at [] c v p x more z w hc h8 pos same new hv e = absurd (
    omega (
      arith,
      ap length e,
      length-append p ((x ++ more) ++ z),
      length-append (x ++ more) z,
      length-append x more,
    ))
replaced_at (u ∷ post) zero v p x more z w hc h8 pos same new hv e =
    let start : length p - 0 * 8 ≡ length p = omega arith in
    rw start (replaced v u p x more z (stream 8 post) w (omega arith) same new hv e)
replaced_at (u ∷ post) (suc c) v p x more z w hc h8 pos same new hv e =
    let front = take 8 p in
    let back = drop 8 p in
    let whole : front ++ back ≡ p = take-append-drop 8 p in
    let shorter : length back ≡ length p - 8 = length-drop 8 p in
    let size : length front ≡ length (bits_of 8 u) =
      omega (arith, length-take 8 p, length-bits_of 8 u) in
    let (first, more_same) =
      append_inj front (bits_of 8 u) (back ++ ((x ++ more) ++ z)) (stream 8 post) size (
        sym (append_assoc front back ((x ++ more) ++ z))
        ∙ ap (λ l. l ++ ((x ++ more) ++ z)) whole
        ∙ sym e) in
    let offset : length p - suc c * 8 ≡ length back - c * 8 = omega arith in
    rw offset (
      ap₂ (λ k m. k ++ m) (sym first)
        (replaced_at post c v back x more z w (omega arith) (omega arith) pos same new hv
          (sym more_same))
      ∙ sym (append_assoc front back ((w ++ more) ++ z))
      ∙ ap (λ l. l ++ ((w ++ more) ++ z)) whole)

-- The highest bits of a state, and the state after they are shifted out.
shifted_out :
    (cell bl state : ℕ) (w more r : List Bool)
    → bits_of cell state ≡ (w ++ more) ++ r
    → length w ≡ bl
    → state < 2 ^ cell
    → (bits_of bl (state / 2 ^ (cell - bl)) ≡ w)
      × (state / 2 ^ (cell - bl) < 2 ^ bl)
      × (bits_of cell (state * 2 ^ bl % 2 ^ cell) ≡ more ++ (r ++ replicate bl false))
shifted_out cell bl state w more r e size h =
    let d = cell - bl in
    let lengths : length w + (length more + length r) ≡ cell = omega (
      arith,
      ap length e,
      length-bits_of cell state,
      length-append (w ++ more) r,
      length-append w more,
    ) in
    let width : bl + d ≡ cell = omega arith in
    let width' : d + bl ≡ cell = omega arith in
    let split =
      sym (bits_of-append bl d state)
      ∙ ap (λ n. bits_of n state) width
      ∙ e
      ∙ append_assoc w more r in
    let (top, low) =
      append_inj (bits_of bl (state / 2 ^ d)) w (bits_of d state) (more ++ r)
        (length-bits_of bl _ ∙ sym size) split in
    let none_below : state * 2 ^ bl + 0 ≡ state * 2 ^ bl = omega arith in
    (
      top,
      (div-lt_iff_lt-mul (two_pow_pos d)).1 (rw (sym (pow-add bl d)) (rw width h)),
      bits_of-mod cell cell (state * 2 ^ bl) (omega arith)
          ∙ ap₂ (λ n t. bits_of n t) (sym width') (sym none_below)
          ∙ bits_of-fields d bl state 0 (two_pow_pos bl)
          ∙ ap₂ (λ k m. k ++ m) low (bits_of-zero bl)
          ∙ append_assoc more r (replicate bl false),
    )

set_cell_bits_done :
    (cell n state bb be c : ℕ) (bytes : List ℕ)
    → be ≤ bb
    → set_cell_bits cell n state bb be c bytes ≡ bytes
unfolding set_cell_bits
set_cell_bits_done cell zero state bb be c bytes h = refl
set_cell_bits_done cell (suc n) state bb be c bytes h =
    let over : ltb bb be ≡ false = ground arith in rw over refl

nil_of_length : (l : List Bool) → length l ≡ 0 → l ≡ []
nil_of_length [] h = refl
nil_of_length (b ∷ l) h = absurd (omega arith)

regroup : (p new more z : List Bool) → p ++ ((new ++ more) ++ z) ≡ (p ++ new) ++ (more ++ z)
regroup p new more z =
    ap (λ l. p ++ l) (append_assoc new more z) ∙ sym (append_assoc p new (more ++ z))

-- Enough steps replace the bits `x` by the highest bits `w` of the state.
pub set_cell_bits_lem :
    (cell n state : ℕ) (w r : List Bool) (bytes : List ℕ) (p x z : List Bool) (be c : ℕ)
    → state < 2 ^ cell
    → bits_of cell state ≡ w ++ r
    → length w ≡ length x
    → c * 8 ≤ length p
    → length p < c * 8 + 8
    → length p - c * 8 + length x ≤ n * 8
    → be ≡ length p + length x
    → stream 8 bytes ≡ p ++ (x ++ z)
    → stream 8 (set_cell_bits cell n state (length p) be c bytes) ≡ p ++ (w ++ z)
unfolding set_cell_bits
set_cell_bits_lem cell n state w r bytes p [] z be c hs hw size hc ho hn he e =
    ap (stream 8) (set_cell_bits_done cell n state (length p) be c bytes (omega arith))
    ∙ e
    ∙ ap (λ l. p ++ (l ++ z)) (sym (nil_of_length w size))
set_cell_bits_lem cell zero state w r bytes p (b ∷ x) z be c hs hw size hc ho hn he e =
    absurd (omega arith)
set_cell_bits_lem cell (suc n) state w r bytes p (b ∷ x) z be c hs hw size hc ho hn he e =
    let go_on : ltb (length p) be ≡ true = ground arith in
    let X = b ∷ x in
    let bo = length p - c * 8 in
    let bl = min (be - length p) (8 - bo) in
    let v = state / 2 ^ (cell - bl) in
    let now = take bl X in
    let now_size : length now ≡ bl = omega (arith, length-take bl X) in
    let new = take bl w in
    let new_size : length new ≡ bl = omega (arith, length-take bl w) in
    let (found, small, state_left) =
      shifted_out cell bl state new (drop bl w) r
        (hw ∙ ap (λ l. l ++ r) (sym (take-append-drop bl w))) new_size hs in
    let written =
      replaced_at bytes c v p now (drop bl X) z new hc (omega arith) (ground arith)
        (new_size ∙ sym now_size) (ap (λ n. bits_of n v) now_size ∙ found) (rw now_size small)
        (e ∙ ap (λ l. p ++ (l ++ z)) (sym (take-append-drop bl X))) in
    let by = set_byte_bits v (get_or bytes c 0) bo bl in
    let stored : stream 8 (set bytes c by) ≡ p ++ ((new ++ drop bl X) ++ z) =
      ap (λ n. stream 8 (set bytes c (set_byte_bits v (get_or bytes c 0) bo n))) (sym now_size)
      ∙ written in
    rw go_on (elim (Bool-cases (leb (length X) (8 - bo))) [
      | inl last ↦
          let all : length X ≤ bl = ground arith in
          ap (stream 8) (
            set_cell_bits_done cell n (state * 2 ^ bl % 2 ^ cell) (length p + bl) be (c + 1)
              (set bytes c by) (omega arith))
          ∙ stored
          ∙ ap₂ (λ k m. p ++ ((k ++ m) ++ z)) (take-length bl w (omega arith)) (drop_all bl X all)
          ∙ ap (λ l. p ++ (l ++ z)) (append-nil w)
      | inr further ↦
          let full : bl ≡ 8 - bo = ground arith in
          let longer : length (p ++ new) ≡ length p + bl =
            length-append p new ∙ ap (λ (t : ℕ). length p + t) new_size in
          let left : length (drop bl X) ≡ length X - bl = length-drop bl X in
          let left' : length (drop bl w) ≡ length w - bl = length-drop bl w in
          ap
            (λ t.
              stream 8
                (set_cell_bits cell n (state * 2 ^ bl % 2 ^ cell) t be (c + 1) (set bytes c by)))
            (sym longer)
          ∙ set_cell_bits_lem cell n (state * 2 ^ bl % 2 ^ cell) (drop bl w)
              (r ++ replicate bl false) (set bytes c by) (p ++ new) (drop bl X) z be (c + 1)
              (mod-lt (state * 2 ^ bl) (two_pow_pos cell)) state_left (omega arith) (omega arith)
              (omega arith) (omega arith) (omega arith) (stored ∙ regroup p new (drop bl X) z)
          ∙ sym (regroup p new (drop bl w) z)
          ∙ ap (λ l. p ++ (l ++ z)) (take-append-drop bl w)
    ])
