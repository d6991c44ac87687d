-- ===== src/Memory/BitDensity/RoundTrip.antt =====
-- bit_density.cpp between spans: what fits, and concentrating after dissolving.
use eagine_core.Common.{
  ℕ, ◌+◌, ◌^◌, ◌≤◌, ◌<◌, ◌≡◌, refl, sym, ap, ◌∙◌, Bool, true, false, none, some, List, [], ◌∷◌,
  ◌++◌, map, arith, length, length-append, append_inj, length-replicate, leb, if◌then◌else◌,
  replicate, ◌>>=◌,
}
use native.Mathlib.Nat.{mod-eq_of_lt, zero-add}
use mathlib.Core.List.{append_assoc, map-id}
use eagine_core.Common.BitStream.{bits_of, number, number-bits_of, length-bits_of, stream}
use eagine_core.Memory.BitDensity.Code.{
  dissolved_bits_length, make_span_putter, do_dissolve_bits, do_concentrate_bits,
}
use eagine_core.Memory.BitDensity.Chunks.{AllBelow}
use eagine_core.Memory.BitDensity.Streams.{
  IsDissolved, IsConcentrated, do_dissolve_bits-IsDissolved, do_concentrate_bits-IsConcentrated,
}
use eagine_core.Memory.BitDensity.Lengths.{length-dissolved, put_all-make_span_putter}

byte_unique : (u v : ℕ) → u < 2 ^ 8 → v < 2 ^ 8 → bits_of 8 u ≡ bits_of 8 v → u ≡ v
byte_unique u v hu hv e =
    sym (mod-eq_of_lt hu)
    ∙ sym (number-bits_of 8 u)
    ∙ ap number e
    ∙ number-bits_of 8 v
    ∙ mod-eq_of_lt hv

byte_needs_bits : (v : ℕ) (t r s : List Bool) → length r < 8 → r ≡ (bits_of 8 v ++ t) ++ s → ⊥
byte_needs_bits v t r s h e = omega (
  arith,
  ap length e,
  length-append (bits_of 8 v ++ t) s,
  length-append (bits_of 8 v) t,
  length-bits_of 8 v,
)

-- Whole bytes are determined by the bits.
pub bytes_unique :
    (us vs : List ℕ) (r s : List Bool)
    → AllBelow (2 ^ 8) us
    → AllBelow (2 ^ 8) vs
    → length r < 8
    → length s < 8
    → stream 8 us ++ r ≡ stream 8 vs ++ s
    → us ≡ vs
unfolding stream
bytes_unique [] [] r s hu hv hr hs e = refl
bytes_unique [] (v ∷ vs) r s hu hv hr hs e = absurd (byte_needs_bits v (stream 8 vs) r s hr e)
bytes_unique (u ∷ us) [] r s hu hv hr hs e = absurd (byte_needs_bits u (stream 8 us) s r hs (sym e))
bytes_unique (u ∷ us) (v ∷ vs) r s (hu, hus) (hv, hvs) hr hs e =
    let (first, more) =
      append_inj (bits_of 8 u) (bits_of 8 v) (stream 8 us ++ r) (stream 8 vs ++ s)
        (length-bits_of 8 u ∙ sym (length-bits_of 8 v))
        (sym (append_assoc (bits_of 8 u) (stream 8 us) r)
          ∙ e
          ∙ append_assoc (bits_of 8 v) (stream 8 vs) s) in
    λ i. byte_unique u v hu hv first i ∷ bytes_unique us vs r s hus hvs hr hs more i

-- The bytes that concentrating gives back after dissolving.
pub concentrated-dissolved :
    (bits : ℕ) (src gs bytes : List ℕ)
    → bits ≤ 8
    → AllBelow (2 ^ 8) src
    → IsDissolved bits (stream 8 src) gs
    → IsConcentrated (stream bits gs) bytes
    → bytes ≡ src
concentrated-dissolved bits src gs bytes h8 h (pad, less, below, same)
      (rest, short, below', same') =
    bytes_unique bytes src rest (replicate pad false) below' h short
      (omega (arith, length-replicate pad false)) (same' ∙ same)

module _ (word bits : ℕ) (hw : 16 ≤ word) (hb : 0 < bits) (h8 : bits ≤ 8) (src : List ℕ)
    (h : AllBelow (2 ^ 8) src) where
  -- A span takes the groups exactly when it is as long as dissolved_bits_length says.
  pub do_dissolve_bits-make_span_putter {ℓ} :
      {T : Type ℓ} (f : ℕ → T) (size : ℕ)
      → (gs : List ℕ) × IsDissolved bits (stream 8 src) gs
        × (do_dissolve_bits word (make_span_putter (λ v. some (f v)) size) bits src [] ≡ (
            if leb (dissolved_bits_length (length src) bits) size then some (map f gs) else none))
  do_dissolve_bits-make_span_putter f size =
      let (gs, spec, runs) =
        do_dissolve_bits-IsDissolved word (make_span_putter (λ v. some (f v)) size) bits hw hb h8
          src h in
      (
        gs,
        spec,
        runs []
            ∙ put_all-make_span_putter f size gs [] (omega arith)
            ∙ ap (λ n. if leb n size then some (map f gs) else none)
                (zero-add (length gs) ∙ length-dissolved bits src gs spec),
      )

  -- When double_byte has at least 16 bits, for 1 to 8 bits, bytes, a span of at least
  -- dissolved_bits_length elements and one as long as the bytes, do_dissolve_bits into the first
  -- succeeds, and do_concentrate_bits of what it wrote succeeds with the bytes in the second.
  pub do_concentrate_bits-do_dissolve_bits :
      (size size' : ℕ)
      → dissolved_bits_length (length src) bits ≤ size
      → length src ≤ size'
      → (do_dissolve_bits word (make_span_putter (λ v. some v) size) bits src [] >>= λ gs.
          do_concentrate_bits word (make_span_putter (λ v. some v) size') bits gs [])
        ≡ some src
  do_concentrate_bits-do_dissolve_bits size size' fits fits' =
      let (gs, spec, runs) = do_dissolve_bits-make_span_putter (λ v. v) size in
      let (bytes, back, puts) =
        do_concentrate_bits-IsConcentrated word (make_span_putter (λ v. some v) size') bits hw hb h8
          gs in
      let same : bytes ≡ src = concentrated-dissolved bits src gs bytes h8 h spec back in
      let room : leb (dissolved_bits_length (length src) bits) size ≡ true = ground arith in
      let room' : leb (0 + length bytes) size' ≡ true = rw same (ground arith) in
      rw (runs, room, map-id gs)
        (puts []
          ∙ put_all-make_span_putter (λ v. v) size' bytes [] (omega arith)
          ∙ rw (room', map-id bytes, same) refl)
