-- ===== src/Memory/Biteset/Making.antt =====
-- biteset.cpp: packing values into bytes.
use eagine_core.Common.{
  ℕ, zero, suc, ◌+◌, ◌-◌, ◌*◌, ◌/◌, ◌%◌, ◌^◌, ◌≤◌, ◌<◌, ◌≡◌, refl, sym, ap, ap₂, ◌∙◌, inl, inr,
  Bool, false, List, [], ◌∷◌, ◌++◌, arith, ◌==◌, Bool-cases, length, get_or, replicate,
  length-append, take, drop, length-take, length-drop, take-append-drop, length-replicate,
  replicate-add,
}
use native.Mathlib.Nat.{mod-lt, mul_comm, div-add-mod'}
use mathlib.Core.List.{append_assoc}
use eagine_core.Common.BitStream.{
  bits_of, number, number-below, stream-zeros, number-bits_of, length-stream, stream, stream-append,
  bits_of-number,
}
use eagine_core.Memory.BitDensity.Chunks.{AllBelow}
use eagine_core.Memory.Biteset.Code.{
  store_size, get_bits, max_steps, get_cell, get_byte, make_bytes_from, make_bytes,
}
use eagine_core.Memory.Biteset.Gather.{get_bits_lem}
use eagine_core.Memory.Biteset.Packing.{Packs, get_cell-Packs, from_unit, byte_at}

get_or-zeros : (vs : List ℕ) (k i : ℕ) → get_or (vs ++ replicate k 0) i 0 ≡ get_or vs i 0
get_or-zeros [] zero i = refl
get_or-zeros [] (suc k) zero = refl
get_or-zeros [] (suc k) (suc i) = get_or-zeros [] k i
get_or-zeros (v ∷ vs) k zero = refl
get_or-zeros (v ∷ vs) k (suc i) = get_or-zeros vs k i

store_size_lem :
    (count bite : ℕ)
    → let n = store_size count bite in (n * 8 - count * bite < 8) × (count * bite ≤ n * 8)
unfolding store_size
store_size_lem count bite = ground arith

length-make_bytes_from :
    (n bite : ℕ) (vs : List ℕ) (i : ℕ) → length (make_bytes_from n bite vs i) ≡ n
unfolding make_bytes_from
length-make_bytes_from zero bite vs i = refl
length-make_bytes_from (suc n) bite vs i = ap suc (length-make_bytes_from n bite vs (i + 1))

module _ (bite : ℕ) (two : 2 ≤ bite) where
  get_byte_lem :
      (vs : List ℕ) (k i : ℕ) (p x z : List Bool)
      → length p ≡ i * 8
      → length x ≡ 8
      → stream bite (vs ++ replicate k 0) ≡ p ++ (x ++ z)
      → get_byte bite vs i ≡ number x
  unfolding get_byte number
  get_byte_lem vs k i p x z hp hx e = elim (Bool-cases (bite == 8)) [
    | inl byte ↦
        let eight : bite ≡ 8 = ground arith in
        rw byte (
          ap (λ (t : ℕ). t % 2 ^ 8) (sym (get_or-zeros vs k i))
          ∙ sym (number-bits_of 8 (get_or (vs ++ replicate k 0) i 0))
          ∙ ap number (
              byte_at (vs ++ replicate k 0) i p x z hp hx
                (ap (λ w. stream w (vs ++ replicate k 0)) (sym eight) ∙ e)))
    | inr other ↦
        let c = i * 8 / bite in
        let us = vs ++ replicate k 0 in
        let low : i * 8 % bite < bite = mod-lt (i * 8) (omega arith) in
        let split : c * bite + i * 8 % bite ≡ i * 8 = div-add-mod' (i * 8) bite in
        let o_size : length (drop (c * bite) p) ≡ i * 8 - c * bite =
          omega (arith, length-drop (c * bite) p) in
        rw other (
          ap (λ f. get_bits f bite 8 max_steps 0 (i * 8) ((i + 1) * 8) c)
            (λ j. λ n. sym (get_or-zeros vs k n) j)
          ∙ get_bits_lem (λ n. get_or us n 0) bite 8 max_steps (length us - c) []
              (drop (c * bite) p) x z (i * 8) ((i + 1) * 8) c (omega arith) (omega arith)
              (omega arith) (omega arith) (omega arith)
              (from_unit bite us c p (x ++ z) (omega arith) e))
  ]

  -- The bytes of a pack, from one of them on.
  stream-make_bytes_from :
      (n : ℕ) (vs : List ℕ) (k i : ℕ) (p x z : List Bool)
      → length p ≡ i * 8
      → length x ≡ n * 8
      → stream bite (vs ++ replicate k 0) ≡ p ++ (x ++ z)
      → (stream 8 (make_bytes_from n bite vs i) ≡ x)
        × AllBelow (2 ^ 8) (make_bytes_from n bite vs i)
  unfolding make_bytes_from stream
  stream-make_bytes_from zero vs k i p [] z hp hx e = (refl, tt)
  stream-make_bytes_from zero vs k i p (b ∷ x) z hp hx e = absurd (omega arith)
  stream-make_bytes_from (suc n) vs k i p x z hp hx e =
      let first = take 8 x in
      let more = drop 8 x in
      let size : length first ≡ 8 = omega (arith, length-take 8 x) in
      let next : length (p ++ first) ≡ (i + 1) * 8 = omega (arith, length-append p first) in
      let whole : stream bite (vs ++ replicate k 0) ≡ p ++ (first ++ (more ++ z)) =
        e
        ∙ ap (λ l. p ++ (l ++ z)) (sym (take-append-drop 8 x))
        ∙ ap (λ l. p ++ l) (append_assoc first more z) in
      let byte : get_byte bite vs i ≡ number first =
        get_byte_lem vs k i p first (more ++ z) hp size whole in
      let (same, below) =
        stream-make_bytes_from n vs k (i + 1) (p ++ first) more z next
          (omega (arith, length-drop 8 x)) (whole ∙ sym (append_assoc p first (more ++ z))) in
      let bits : bits_of 8 (get_byte bite vs i) ≡ first =
        ap₂ (λ w v. bits_of w v) (sym size) byte ∙ bits_of-number first in
      let small : get_byte bite vs i < 2 ^ 8 = rw byte (number-below first 8 size) in
      (ap₂ (λ l m. l ++ m) bits same ∙ take-append-drop 8 x, (small, below))

  -- The bytes that are made hold the values, and fewer than eight zeros behind them.
  pub make_bytes-Packs :
      (vs : List ℕ)
      → AllBelow (2 ^ bite) vs
      → let bytes = make_bytes (length vs) bite vs in
        (pad : ℕ) × (pad < 8)
        × (length bytes ≡ store_size (length vs) bite)
        × Packs bite bytes vs (replicate pad false)
  unfolding make_bytes
  make_bytes-Packs vs hv =
      let total = length vs * bite in
      let n = store_size (length vs) bite in
      let pad = n * 8 - total in
      let (few, enough) = store_size_lem (length vs) bite in
      let zeros : stream bite (replicate 8 0)
          ≡ replicate pad false ++ replicate (8 * bite - pad) false =
        stream-zeros bite 8
        ∙ ap (λ k. replicate k false) (omega arith)
        ∙ replicate-add pad (8 * bite - pad) false in
      let whole =
        stream-append bite vs (replicate 8 0)
        ∙ ap (λ l. stream bite vs ++ l) zeros
        ∙ sym (append_assoc (stream bite vs) (replicate pad false) _) in
      let size : length (stream bite vs ++ replicate pad false) ≡ n * 8 = omega (
        arith,
        length-append (stream bite vs) (replicate pad false),
        length-stream bite vs,
        length-replicate pad false,
        mul_comm bite (length vs),
      ) in
      let (same, below) =
        stream-make_bytes_from n vs 8 0 [] (stream bite vs ++ replicate pad false) _ (omega arith)
          size whole in
      (pad, few, length-make_bytes_from n bite vs 0, (below, hv, same))

-- For elements of 2 to 49 bits and a value type with as many, get of an index in range of a biteset
-- that is made from a pack of values is the value at that index.
pub get_cell-make_bytes :
    (bite cell : ℕ) (vs : List ℕ) (i : ℕ)
    → 2 ≤ bite
    → bite ≤ 49
    → bite ≤ cell
    → AllBelow (2 ^ bite) vs
    → i < length vs
    → get_cell bite cell (make_bytes (length vs) bite vs) i ≡ get_or vs i 0
get_cell-make_bytes bite cell vs i two reach room hv h =
    let (pad, few, size, packed) = make_bytes-Packs bite two vs hv in
    get_cell-Packs bite cell (omega arith) reach room _ vs _ i packed h
