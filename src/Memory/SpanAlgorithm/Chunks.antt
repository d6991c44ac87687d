-- ===== src/Memory/SpanAlgorithm/Chunks.antt =====
-- span_algorithm.cpp: `for_each_chunk`, and the searches for one element.
use mathlib.Core.List.{append-nil}
use eagine_core.Common.{
  ℕ, zero, suc, ◌+◌, ◌-◌, ◌≤◌, ◌<◌, min, some, List, [], ◌∷◌, ◌++◌, leb, ltb, length, take, drop,
  length-append, length-take, length-drop, take-length, take-append-drop, drop_all, drop-add,
  Bool-cases, inl, inr, ◌≡◌, refl, sym, ap, ◌∙◌, arith,
}
use eagine_core.Common.Integers.{pos}
use eagine_core.Memory.SpanAlgorithm.Slices.{slice}
use eagine_core.Memory.SpanAlgorithm.Parts.{chunks, for_each_chunk}

module _ {ℓ} {A : Type ℓ} where
  -- One chunk after the other.
  abbrev pub all_chunks : List (List A) → List A
  all_chunks [] = []
  all_chunks (c ∷ cs) = c ++ all_chunks cs

  -- Every chunk holds 1 to `len` elements, and every one but the last holds `len`.
  abbrev pub AreChunks : ℕ → List (List A) → Type 0
  AreChunks len [] = Unit {0}
  AreChunks len (c ∷ []) = (1 ≤ length c) × (length c ≤ len)
  AreChunks len (c ∷ d ∷ cs) = (length c ≡ len) × AreChunks len (d ∷ cs)

  one_chunk :
      (s : List A) (p len : ℕ)
      → p < length s
      → (slice s (pos p) len ++ drop (p + len) s ≡ drop p s)
        × (length (slice s (pos p) len) ≡ min len (length s - p))
  unfolding slice
  one_chunk s p len h =
      let b : min p (length s) ≡ p = omega arith in
      let n = min (p + len) (length s) - p in
      rw b (
        elim (Bool-cases (leb (p + len) (length s))) [
          | inl fits ↦
              let e : n ≡ len = ground arith in
              rw (e, sym (drop-add p len s)) (take-append-drop len (drop p s))
          | inr over ↦
              let e : n ≡ length s - p = ground arith in
              rw
                (
                  e,
                  drop_all (p + len) s (ground arith),
                  append-nil (take (length s - p) (drop p s)),
                )
                (take-length (length s - p) (drop p s) (omega (arith, length-drop p s)))
        ],
        omega (arith, length-take n (drop p s), length-drop p s),
      )

  first_filled :
      (len : ℕ) (d : List A) (cs : List (List A)) → 1 ≤ len → AreChunks len (d ∷ cs) → 1 ≤ length d
  first_filled len d [] l h = h.0
  first_filled len d (c ∷ cs) l h = omega (arith, h.0)

  chunk_before :
      (len : ℕ) (c : List A) (cs : List (List A))
      → 1 ≤ len
      → 1 ≤ length c
      → length c ≤ len
      → (length c < len → all_chunks cs ≡ [])
      → AreChunks len cs
      → AreChunks len (c ∷ cs)
  chunk_before len c [] l lo hi last h = (lo, hi)
  chunk_before len c (d ∷ cs) l lo hi last h = elim (Bool-cases (ltb (length c) len)) [
    | inl short ↦
        let e = ap length (last (ground arith)) in
        absurd (omega (arith, e, length-append d (all_chunks cs), first_filled len d cs l h))
    | inr full ↦ (ground arith, h)
  ]

  chunks_lem :
      (s : List A) (len fuel p : ℕ)
      → 1 ≤ len
      → length s - p < fuel
      → (parts : List (List A)) × (chunks fuel s len p ≡ some parts)
        × (all_chunks parts ≡ drop p s)
        × AreChunks len parts
  unfolding chunks slice
  chunks_lem s len zero p l h = absurd (omega arith)
  chunks_lem s len (suc fuel) p l h = elim (Bool-cases (ltb p (length s))) [
    | inl more ↦
        let here = one_chunk s p len (ground arith) in
        let (parts, ran, rest, good) = chunks_lem s len fuel (p + len) l (ground arith) in
        let c = slice s (pos p) len in
        (
          c ∷ parts,
          rw (chunks, more, ran) refl,
          rw rest here.0,
          chunk_before len c parts l (ground (arith, here.1)) (omega (arith, here.1))
              (λ short. rest ∙ drop_all (p + len) s (omega (arith, here.1))) good,
        )
    | inr over ↦ ([], rw (chunks, over) refl, sym (drop_all p s (ground arith)), tt)
  ]

  -- For a length of at least 1, for_each_chunk ends, and the chunks that it calls the function on
  -- are the span one after the other; every chunk but the last has the length, and the last 1 to
  -- that many elements.
  for_each_chunk_lem :
      (s : List A) (len : ℕ)
      → 1 ≤ len
      → (parts : List (List A)) × (for_each_chunk s len ≡ some parts)
        × (all_chunks parts ≡ s)
        × AreChunks len parts
  unfolding for_each_chunk
  for_each_chunk_lem s len l = chunks_lem s len (length s + 1) 0 l (omega arith)
