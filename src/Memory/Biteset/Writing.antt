-- ===== src/Memory/Biteset/Writing.antt =====
-- biteset.cpp: writing an element changes the stream of bits as it should.
use eagine_core.Common.{
  ℕ, ◌+◌, ◌-◌, ◌*◌, ◌/◌, ◌%◌, ◌^◌, ◌≤◌, ◌<◌, ◌≡◌, sym, ap, ap₂, ◌∙◌, inl, inr, Bool, false, List,
  ◌++◌, arith, ◌==◌, Bool-cases, length, get_or, set, replicate, length-append, append_inj,
}
use native.Mathlib.Nat.{mod-lt}
use mathlib.Core.List.{append_assoc}
use eagine_core.Common.BitStream.{
  bits_of, length-bits_of, length-stream, stream, bits_of-mod, bits_of-fields, two_pow_pos,
  bits_of-zero,
}
use eagine_core.Memory.Biteset.Code.{max_steps, set_cell_bits, set_cell}
use eagine_core.Memory.Biteset.Scatter.{set_cell_bits_lem}
use eagine_core.Memory.Biteset.Packing.{Packs, element_at, AllBelow-set, AllBelow-set_cell_bits}

-- The state that the loop starts with has the value in its highest bits.
start_state :
    (bite cell v : ℕ)
    → bite ≤ cell
    → bits_of cell (v * 2 ^ (cell - bite) % 2 ^ cell)
      ≡ bits_of bite v ++ replicate (cell - bite) false
start_state bite cell v h =
    let d = cell - bite in
    let width : bite + d ≡ cell = omega arith in
    let none_below : v * 2 ^ d + 0 ≡ v * 2 ^ d = omega arith in
    bits_of-mod cell cell (v * 2 ^ d) (omega arith)
    ∙ ap₂ (λ n t. bits_of n t) (sym width) (sym none_below)
    ∙ bits_of-fields bite d v 0 (two_pow_pos d)
    ∙ ap (λ l. bits_of bite v ++ l) (bits_of-zero d)

-- A byte of a stream of bytes replaced.
byte_set :
    (us : List ℕ) (i : ℕ) (p x z : List Bool) (v : ℕ)
    → length p ≡ i * 8
    → length x ≡ 8
    → stream 8 us ≡ p ++ (x ++ z)
    → stream 8 (set us i v) ≡ p ++ (bits_of 8 v ++ z)
byte_set us i p x z v hp hx e =
    let sum = length-append p (x ++ z) in
    let inside : i < length us =
      omega (arith, ap length e, length-stream 8 us, sum, length-append x z) in
    let (p', q, size, here, there) = element_at 8 us i inside in
    let (front, back) = append_inj p' p _ _ (size ∙ sym hp) (sym here ∙ e) in
    let (field, after) =
      append_inj (bits_of 8 (get_or us i 0)) x q z (length-bits_of 8 _ ∙ sym hx) back in
    there v ∙ ap₂ (λ k m. k ++ (bits_of 8 v ++ m)) front after

module _ (bite cell : ℕ) (pos : 0 < bite) (reach : bite ≤ 49) (room : bite ≤ cell) where
  -- For elements of 1 to 49 bits and a value type with as many, when the bits of bytes are those of
  -- the elements and more bits behind them, after set of an element in range to a value of that many
  -- bits they are those of the elements with this one replaced, and the same bits behind them.
  pub set_cell-Packs :
      (bytes vs : List ℕ) (pad : List Bool) (i v : ℕ)
      → Packs bite bytes vs pad
      → i < length vs
      → v < 2 ^ bite
      → Packs bite (set_cell bite cell bytes i v) (set vs i v) pad
  unfolding set_cell
  set_cell-Packs bytes vs pad i v (hb, hv, e) h small =
      let (p, q, size, here, there) = element_at bite vs i h in
      let x = bits_of bite (get_or vs i 0) in
      let whole : stream 8 bytes ≡ p ++ (x ++ (q ++ pad)) =
        e
        ∙ ap (λ l. l ++ pad) here
        ∙ append_assoc p _ pad
        ∙ ap (λ l. p ++ l) (append_assoc _ q pad) in
      let result : stream bite (set vs i v) ++ pad ≡ p ++ (bits_of bite v ++ (q ++ pad)) =
        ap (λ l. l ++ pad) (there v)
        ∙ append_assoc p _ pad
        ∙ ap (λ l. p ++ l) (append_assoc _ q pad) in
      elim (Bool-cases (bite == 8)) [
        | inl byte ↦
            let eight : bite ≡ 8 = ground arith in
            let narrow : bits_of 8 (v % 2 ^ 8) ≡ bits_of bite v =
              bits_of-mod 8 8 v (omega arith) ∙ ap (λ n. bits_of n v) (sym eight) in
            rw byte (
              AllBelow-set (2 ^ 8) bytes i (v % 2 ^ 8) (mod-lt v (two_pow_pos 8)) hb,
              AllBelow-set (2 ^ bite) vs i v small hv,
              byte_set bytes i p x (q ++ pad) (v % 2 ^ 8) (size ∙ ap (λ (t : ℕ). i * t) eight)
                    (length-bits_of bite _ ∙ eight) whole
                  ∙ ap (λ l. p ++ (l ++ (q ++ pad))) narrow
                  ∙ sym result,
            )
        | inr other ↦
            let c = i * bite / 8 in
            let after : (i + 1) * bite ≡ i * bite + bite = grind arith in
            let stored =
              set_cell_bits_lem cell max_steps (v * 2 ^ (cell - bite) % 2 ^ cell) (bits_of bite v)
                (replicate (cell - bite) false) bytes p x (q ++ pad) ((i + 1) * bite) c
                (mod-lt _ (two_pow_pos cell)) (start_state bite cell v room)
                (length-bits_of bite v ∙ sym (length-bits_of bite _)) (omega arith) (omega arith)
                (omega (arith, length-bits_of bite (get_or vs i 0)))
                (omega (arith, length-bits_of bite (get_or vs i 0))) whole in
            rw other (
              AllBelow-set_cell_bits cell max_steps _ (i * bite) ((i + 1) * bite) c bytes hb,
              AllBelow-set (2 ^ bite) vs i v small hv,
              ap
                    (λ n. stream 8 (
                      set_cell_bits cell max_steps (v * 2 ^ (cell - bite) % 2 ^ cell) n
                        ((i + 1) * bite) c bytes))
                    (sym size)
                  ∙ stored
                  ∙ sym result,
            )
      ]
