-- ===== src/Identifier/Increment.antt =====
-- identifier.cpp: incrementing an identifier adds one to the number that its elements spell.
use eagine_core.Common.{
  ℕ, zero, suc, ◌+◌, ◌-◌, ◌*◌, ◌%◌, ◌^◌, ◌≤◌, ◌<◌, ◌≡◌, refl, sym, ap, ap₂, ◌∙◌, Bool, false, List,
  ◌++◌, arith, length, length-append, replicate, set, length-set, get_or, ltb, inl, inr, Bool-cases,
}
use native.Mathlib.Nat.{mod-eq_of_lt}
use eagine_core.Common.BitStream.{
  bits_of, number, number-bits_of, number-append, number-below, length-bits_of, stream,
  length-stream, pow-add,
}
use eagine_core.Memory.BitDensity.Chunks.{AllBelow}
use eagine_core.Memory.Biteset.Bytes.{as_uint-number}
use eagine_core.Memory.Biteset.Code.{set_cell}
use eagine_core.Memory.Biteset.Packing.{Packs, element_at, get_cell-Packs, AllBelow-get_or}
use eagine_core.Memory.Biteset.Writing.{set_cell-Packs}
use eagine_core.Identifier.Code.{max_length, bite_bits, bite, value, inc_bites, increment}

-- The number that elements spell in base 64.
abbrev total : List ℕ → ℕ
total vs = number (stream 6 vs)

total-lt : (vs : List ℕ) → length vs ≡ 10 → total vs < 2 ^ 60
total-lt vs h = number-below (stream 6 vs) 60 (length-stream 6 vs ∙ ap (λ (t : ℕ). 6 * t) h)

field_number :
    (p q : List Bool) (v : ℕ)
    → v < 2 ^ 6
    → number (p ++ (bits_of 6 v ++ q)) ≡ number p * 2 ^ (6 + length q) + number q + v * 2 ^ length q
field_number p q v h =
    let inner : number (bits_of 6 v ++ q) ≡ v * 2 ^ length q + number q =
      number-append (bits_of 6 v) q
      ∙ ap (λ (t : ℕ). t * 2 ^ length q + number q) (number-bits_of 6 v ∙ mod-eq_of_lt h) in
    let size : length (bits_of 6 v ++ q) ≡ 6 + length q =
      length-append (bits_of 6 v) q ∙ ap (λ (t : ℕ). t + length q) (length-bits_of 6 v) in
    number-append p (bits_of 6 v ++ q)
    ∙ ap₂ (λ (w t : ℕ). number p * 2 ^ w + t) size inner
    ∙ omega arith

-- What one element counts.
total-set :
    (vs : List ℕ) (i : ℕ)
    → length vs ≡ 10
    → i < 10
    → AllBelow (2 ^ 6) vs
    → let unit = 2 ^ (6 * (10 - suc i)) in
      (others : ℕ) × (total vs ≡ others + get_or vs i 0 * unit)
      × ((v : ℕ) → v < 2 ^ 6 → total (set vs i v) ≡ others + v * unit)
total-set vs i size h below =
    let (p, q, at, here, there) = element_at 6 vs i (omega arith) in
    let after : length q ≡ 6 * (10 - suc i) = omega (
      arith,
      ap length here,
      length-stream 6 vs,
      length-append p (bits_of 6 (get_or vs i 0) ++ q),
      length-append (bits_of 6 (get_or vs i 0)) q,
      length-bits_of 6 (get_or vs i 0),
    ) in
    let others = number p * 2 ^ (6 + length q) + number q in
    let weight : 2 ^ length q ≡ 2 ^ (6 * (10 - suc i)) = ap (λ (t : ℕ). 2 ^ t) after in
    let small = AllBelow-get_or (2 ^ 6) vs i (omega arith) below in
    (
      others,
      ap number here
          ∙ field_number p q (get_or vs i 0) small
          ∙ ap (λ (t : ℕ). others + get_or vs i 0 * t) weight,
      λ v hv. ap number (there v) ∙ field_number p q v hv ∙ ap (λ (t : ℕ). others + v * t) weight,
    )

-- An identifier whose elements are followed by four unused bits, all zero.
abbrev pub IsIdentifier : List ℕ → List ℕ → Type 0
IsIdentifier bytes vs = (length vs ≡ 10) × Packs bite_bits bytes vs (replicate 4 false)

zero-IsIdentifier : IsIdentifier (replicate 8 0) (replicate 10 0)
unfolding stream bits_of
zero-IsIdentifier =
    (refl, (all_zero 8 (2 ^ 8) (omega arith), all_zero 10 (2 ^ 6) (omega arith), refl))
  where
    all_zero : (n m : ℕ) → 0 < m → AllBelow m (replicate n 0)
    all_zero zero m h = tt
    all_zero (suc n) m h = (h, all_zero n m h)

total-zero : total (replicate 10 0) ≡ 0
unfolding stream bits_of number
total-zero = refl

bite-IsIdentifier :
    (bytes vs : List ℕ) (i : ℕ) → IsIdentifier bytes vs → i < 10 → bite bytes i ≡ get_or vs i 0
unfolding bite
bite-IsIdentifier bytes vs i (size, packed) h =
    get_cell-Packs bite_bits 8 (omega arith) (omega arith) (omega arith) bytes vs
      (replicate 4 false) i packed (omega arith)

carry_at : (v : ℕ) → v < 2 ^ 6 → ltb (v + 1) (2 ^ 6) ≡ false → v ≡ 63
carry_at v h e = ground arith

inc_bites_lem :
    (p : ℕ) (bytes vs : List ℕ)
    → IsIdentifier bytes vs
    → p ≤ 10
    → total vs + 2 ^ (6 * (10 - p)) ≤ 2 ^ 60
    → (vs' : List ℕ) × IsIdentifier (inc_bites p bytes) vs'
      × (total vs' ≡ (total vs + 2 ^ (6 * (10 - p))) % 2 ^ 60)
unfolding inc_bites
inc_bites_lem zero bytes vs (size, packed) hp h =
    let none_left : total vs + 2 ^ 60 ≡ 2 ^ 60 = omega arith in
    (replicate 10 0, zero-IsIdentifier, total-zero ∙ sym (ap (λ (t : ℕ). t % 2 ^ 60) none_left))
inc_bites_lem (suc p) bytes vs (size, packed) hp h =
    let (others, here, there) = total-set vs p size (omega arith) packed.1 in
    let unit = 2 ^ (6 * (10 - suc p)) in
    let same = bite-IsIdentifier bytes vs p (size, packed) (omega arith) in
    elim (Bool-cases (ltb (get_or vs p 0 + 1) (2 ^ bite_bits))) [
      | inl more ↦
          let next = get_or vs p 0 + 1 in
          let fits : next < 2 ^ 6 = ground arith in
          let stored : IsIdentifier (set_cell bite_bits 8 bytes p next) (set vs p next) = (
            length-set vs p next ∙ size,
            set_cell-Packs bite_bits 8 (omega arith) (omega arith) (omega arith) bytes vs
                (replicate 4 false) p next packed (omega arith) fits,
          ) in
          let one_more : next * unit ≡ get_or vs p 0 * unit + unit = grind arith in
          let sum : total (set vs p next) ≡ total vs + unit = omega (arith, there next fits) in
          rw (same, more)
            (
              set vs p next,
              stored,
              sum ∙ sym (mod-eq_of_lt (omega (arith, total-lt (set vs p next) stored.0, sum))),
            )
      | inr carry ↦
          let last : get_or vs p 0 ≡ 63 =
            carry_at (get_or vs p 0) (AllBelow-get_or (2 ^ 6) vs p (omega arith) packed.1) carry in
          let cleared : IsIdentifier (set_cell bite_bits 8 bytes p 0) (set vs p 0) = (
            length-set vs p 0 ∙ size,
            set_cell-Packs bite_bits 8 (omega arith) (omega arith) (omega arith) bytes vs
                (replicate 4 false) p 0 packed (omega arith) (omega arith),
          ) in
          let wider : 2 ^ (6 * (10 - p)) ≡ 64 * unit =
            ap (λ (t : ℕ). 2 ^ t) (omega arith) ∙ pow-add 6 (6 * (10 - suc p)) in
          let all : get_or vs p 0 * unit ≡ 63 * unit = ap (λ (t : ℕ). t * unit) last in
          let carried : total (set vs p 0) + 2 ^ (6 * (10 - p)) ≡ total vs + unit =
            omega (arith, there 0 (omega arith)) in
          let (vs', packed', sum) =
            inc_bites_lem p (set_cell bite_bits 8 bytes p 0) (set vs p 0) cleared (omega arith)
              (omega arith) in
          rw (same, carry) (vs', packed', sum ∙ ap (λ (t : ℕ). t % 2 ^ 60) carried)
    ]

value-total : (bytes vs : List ℕ) → IsIdentifier bytes vs → value bytes ≡ total vs * 2 ^ 4
unfolding value number
value-total bytes vs (size, (below, codes, bits)) =
    as_uint-number bytes below
    ∙ ap number bits
    ∙ number-append (stream 6 vs) (replicate 4 false)
    ∙ omega arith

-- For an identifier whose ten elements are followed by four bits that are zero, increment adds 2^4
-- to the value, modulo 2^64, and gives such an identifier again.
pub value-increment :
    (bytes vs : List ℕ)
    → IsIdentifier bytes vs
    → (value (increment bytes) ≡ (value bytes + 2 ^ 4) % 2 ^ 64)
      × ((vs' : List ℕ) × IsIdentifier (increment bytes) vs')
unfolding increment
value-increment bytes vs h =
    let (vs', h', sum) =
      inc_bites_lem max_length bytes vs h (omega arith) (omega (arith, total-lt vs h.0)) in
    (omega (arith, value-total bytes vs h, value-total _ vs' h'), (vs', h'))
