-- ===== src/Memory/BitDensity/Lengths.antt =====
-- The lengths that bit_density.cpp predicts, and what the putter of a span accepts.
use eagine_core.Common.{
  ℕ, suc, ◌+◌, ◌-◌, ◌*◌, ◌/◌, ◌%◌, ◌≤◌, ◌<◌, ◌≡◌, refl, sym, ap, ap₂, ◌∙◌, inl, inr, true, false,
  none, some, List, [], ◌∷◌, ◌++◌, map, arith, length, length-append, length-replicate, ltb, leb,
  if◌then◌else◌, Bool-cases, replicate, ◌==◌,
}
use native.Mathlib.Nat.{div-add-mod, mod-lt}
use mathlib.Core.List.{append_assoc, append-nil}
use eagine_core.Common.BitStream.{stream, length-stream}
use eagine_core.Memory.BitDensity.Code.{
  byte_bits, dissolved_bits_length, concentrated_bits_length, make_span_putter,
}
use eagine_core.Memory.BitDensity.Chunks.{put_all}
use eagine_core.Memory.BitDensity.Streams.{IsDissolved, IsConcentrated}

times_mono : (d a b : ℕ) → a ≤ b → d * a ≤ d * b
times_mono d a b h = grind arith

quotient_of : (d g q x : ℕ) → d * g ≡ d * q + x → x < d → g ≡ q
quotient_of d g q x e h =
    let low : d * (q + 1) ≡ d * q + d = grind arith in
    let high : d * (g + 1) ≡ d * g + d = grind arith in
    elim (Bool-cases (ltb q g)) [
      | inl above ↦ absurd (omega (arith, times_mono d (q + 1) g (ground arith)))
      | inr upto ↦ elim (Bool-cases (ltb g q)) [
        | inl below ↦ absurd (omega (arith, times_mono d (g + 1) q (ground arith)))
        | inr same ↦ ground arith
      ]
    ]

-- Division that rounds up.
round_up : (n d g pad : ℕ) → pad < d → d * g ≡ n + pad → n / d + (if n % d == 0 then 0 else 1) ≡ g
round_up n d g pad h e =
    let q = n / d in
    let whole : d * q + n % d ≡ n = div-add-mod n d in
    let low : n % d < d = mod-lt n (omega arith) in
    elim (Bool-cases (n % d == 0)) [
      | inl exact ↦ rw exact (omega (arith, quotient_of d g q pad (ground arith) h))
      | inr over ↦
          let next : d * (q + 1) ≡ d * q + d = grind arith in
          elim (Bool-cases (ltb (n % d + pad) d)) [
            | inl small ↦
                let small_sum : n % d + pad < d = ground arith in
                let g_is : g ≡ q = quotient_of d g q (n % d + pad) (ground arith) small_sum in
                absurd (ground (arith, ap (λ (t : ℕ). d * t) g_is))
            | inr large ↦ rw over (
                omega
                  (arith, quotient_of d g (q + 1) (n % d + pad - d) (ground arith) (ground arith)))
          ]
    ]

pub length-dissolved :
    (bits : ℕ) (src gs : List ℕ)
    → IsDissolved bits (stream 8 src) gs
    → length gs ≡ dissolved_bits_length (length src) bits
unfolding dissolved_bits_length byte_bits
length-dissolved bits src gs (pad, less, below, same) =
    let e : bits * length gs ≡ length src * 8 + pad =
      sym (length-stream bits gs)
      ∙ ap length same
      ∙ length-append (stream 8 src) (replicate pad false)
      ∙ ap₂ (λ (a b : ℕ). a + b) (length-stream 8 src) (length-replicate pad false)
      ∙ omega arith in
    sym (round_up (length src * 8) bits (length gs) pad less e)

-- A span takes what fits.
pub put_all-make_span_putter {ℓ} :
    {T : Type ℓ} (f : ℕ → T) (size : ℕ) (vs : List ℕ) (spn : List T)
    → length spn ≤ size
    → put_all (make_span_putter (λ v. some (f v)) size) vs spn
      ≡ (if leb (length spn + length vs) size then some (spn ++ map f vs) else none)
unfolding put_all make_span_putter
put_all-make_span_putter f size [] spn h =
    let fits : leb (length spn + 0) size ≡ true = ground arith in rw (fits, append-nil spn) refl
put_all-make_span_putter f size (v ∷ vs) spn h = elim (Bool-cases (ltb (length spn) size)) [
  | inl room ↦
      let longer : length (spn ++ (f v ∷ [])) ≡ length spn + 1 = length-append spn (f v ∷ []) in
      let sum : length spn + 1 + length vs ≡ length spn + suc (length vs) = omega arith in
      rw room (
        put_all-make_span_putter f size vs (spn ++ (f v ∷ [])) (ground arith)
        ∙ rw (longer, sum, append_assoc spn (f v ∷ []) (map f vs)) refl)
  | inr full ↦
      let over : leb (length spn + suc (length vs)) size ≡ false = ground arith in
      rw (full, over) refl
]

-- Concentrating gives no more than is predicted.
pub length-concentrated :
    (bits : ℕ) (src bytes : List ℕ)
    → IsConcentrated (stream bits src) bytes
    → (length bytes ≡ bits * length src / 8)
      × (length bytes ≤ concentrated_bits_length (length src) bits)
unfolding concentrated_bits_length byte_bits
length-concentrated bits src bytes (rest, short, below, same) =
    let e : 8 * length bytes + length rest ≡ bits * length src =
      sym (
        length-append (stream 8 bytes) rest
        ∙ ap (λ (t : ℕ). t + length rest) (length-stream 8 bytes))
      ∙ ap length same
      ∙ length-stream bits src in
    let swap : length src * bits ≡ bits * length src = grind arith in (omega arith, ground arith)
