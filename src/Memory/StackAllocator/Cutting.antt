-- ===== src/Memory/StackAllocator/Cutting.antt =====
-- stack_allocator.cpp: `truncate` of a live block keeps the invariant.
use eagine_core.Common.{
  ℕ, ◌+◌, ◌-◌, ◌≤◌, ◌<◌, List, ◌∷◌, ◌++◌, leb, ◌==◌, if◌then◌else◌, Bool-cases, inl, inr, ◌≡◌,
  arith,
}
use eagine_core.Memory.StackAllocator.{Block, Stack, lowered, truncate}
use eagine_core.Memory.StackAllocator.Spaced.{
  Spaced, above, Cut, above-append, Cut-append, Spaced-append, Spaced_weaken, above_low, Cut-low,
  Spaced_none,
}
use eagine_core.Memory.StackAllocator.Invariant.{Inv}
use eagine_core.Memory.StackAllocator.Safety.{around, bounds, cuts, high_side}

module _ (s : Stack) (pre post : List Block) (b : Block) (nn : ℕ) (inv : Inv s (pre ++ (b ∷ post)))
    (h : 0 < nn) (k : nn ≤ b.size) where
  small : Block
  small = record b { size = nn }

  shorter : Spaced s.btm (pre ++ (small ∷ post)) s.pos
  unfolding small
  shorter =
      let a = around s pre post b inv in
      Spaced-append s.btm b.addr s.pos pre (small ∷ post) a.0 (
        omega arith,
        h,
        Spaced_weaken (b.addr + b.size) (b.addr + nn) s.pos s.pos post a.2 (omega arith)
            (omega arith),
      )

  ends : b.addr + b.size ≡ s.pos → Spaced s.btm (pre ++ (small ∷ post)) (b.addr + nn)
  unfolding small
  ends e =
      let a = around s pre post b inv in
      Spaced-append s.btm b.addr (b.addr + nn) pre (small ∷ post) a.0 (
        omega arith,
        h,
        (Spaced_none (b.addr + b.size) s.pos (b.addr + nn) post a.2 (omega arith)).0,
      )

  Cut-small : Cut s.min (pre ++ (small ∷ post))
  unfolding small
  Cut-small =
      let c = cuts s pre post b inv in
      Cut-append s.min pre (small ∷ post) c.0
        (elim c.1.0 [ inl below ↦ inl (omega arith) | inr over ↦ inr over ], c.1.1)

  saved :
      above s.min (pre ++ (small ∷ post)) + (if leb s.min b.addr then b.size - nn else 0) ≤ s.dif
  unfolding small
  saved = ground (
    arith,
    inv.covers.fits,
    above-append s.min pre (b ∷ post),
    above-append s.min pre (small ∷ post),
  )

  truncate_low :
      b.addr + b.size ≡ s.pos
      → s.min ≡ s.pos
      → Inv
          (record s { min = s.min - (b.size - nn); pos = s.pos - (b.size - nn) })
          (pre ++ (small ∷ post))
  truncate_low e same =
      let p : s.pos - (b.size - nn) ≡ b.addr + nn = omega arith in
      let m : s.min - (b.size - nn) ≡ b.addr + nn = omega arith in
      let t = ends e in
      record {
        covers = record {
          low = omega (arith, (bounds s pre post b inv).0);
          mid = omega arith;
          high = omega (arith, inv.covers.high);
          spaced = rw p t;
          cut =
              rw m
                (Cut-low s.btm (b.addr + nn) (b.addr + nn) (pre ++ (small ∷ post)) t (omega arith));
          fits = rw m (
              omega (
                arith,
                above_low s.btm (b.addr + nn) (b.addr + nn) (pre ++ (small ∷ post)) t (omega arith),
              ));
        };
        settled = λ _. omega arith;
      }

  truncate_high :
      b.addr + b.size ≡ s.pos
      → s.min < s.pos
      → Inv
          (record s { dif = s.dif - (b.size - nn); pos = s.pos - (b.size - nn) })
          (pre ++ (small ∷ post))
  unfolding small
  truncate_high e less =
      let p : s.pos - (b.size - nn) ≡ b.addr + nn = omega arith in
      let over = high_side s pre post b inv (omega arith) in
      let all : above s.min (pre ++ (small ∷ post)) + (b.size - nn) ≤ s.dif =
        ground (arith, saved) in
      let more : nn ≤ above s.min (pre ++ (small ∷ post)) =
        ground (arith, above-append s.min pre (small ∷ post)) in
      record {
        covers = record {
          low = inv.covers.low;
          mid = omega arith;
          high = omega (arith, inv.covers.high);
          spaced = rw p (ends e);
          cut = Cut-small;
          fits = omega arith;
        };
        settled = λ z. absurd (omega arith);
      }

  pub truncate-Inv : Inv (truncate b nn s).0 (pre ++ ((truncate b nn s).1 ∷ post))
  unfolding truncate lowered small
  truncate-Inv = elim (Bool-cases (b.addr + b.size == s.pos)) [
    | inl last ↦ elim (Bool-cases (s.min == s.pos)) [
      | inl same ↦ rw (last, same) (truncate_low (ground arith) (ground arith))
      | inr other ↦ rw (last, other) (truncate_high (ground arith) (ground (arith, inv.covers.mid)))
    ]
    | inr inner ↦ rw inner (record {
      covers = record {
        low = inv.covers.low;
        mid = inv.covers.mid;
        high = inv.covers.high;
        spaced = shorter;
        cut = Cut-small;
        fits = omega (arith, saved);
      };
      settled = inv.settled;
    })
  ]
