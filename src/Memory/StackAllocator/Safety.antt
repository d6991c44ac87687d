-- ===== src/Memory/StackAllocator/Safety.antt =====
-- stack_allocator.cpp: the blocks that are live never share an element, whatever the order in which
-- they are given back.
use eagine_core.Common.{
  ◌+◌, ◌-◌, ◌≤◌, ◌<◌, List, ◌∷◌, ◌++◌, ltb, leb, ◌==◌, if◌then◌else◌, Bool-cases, inl, inr, ◌≡◌,
  arith,
}
use eagine_core.Memory.StackAllocator.{Block, Stack, lowered, release, deallocate}
use eagine_core.Memory.StackAllocator.Spaced.{
  Spaced, total, above, Cut, above-append, Cut-append, Cut-parts, Spaced-append, Spaced_around,
  Spaced_weaken, Spaced-total, above_low, above_high, Cut-low, Cut-high, Spaced_none,
  total-le-above,
}
use eagine_core.Memory.StackAllocator.Invariant.{Covers, Inv, settle-Inv}

module _ (s : Stack) (pre post : List Block) (b : Block) (inv : Inv s (pre ++ (b ∷ post))) where
  pub around : Spaced s.btm pre b.addr × (0 < b.size) × Spaced (b.addr + b.size) post s.pos
  around = Spaced_around s.btm s.pos pre post b inv.covers.spaced

  -- What the blocks before and behind take.
  pub bounds : (s.btm + total pre ≤ b.addr) × (b.addr + b.size + total post ≤ s.pos)
  bounds =
      (Spaced-total s.btm b.addr pre around.0, Spaced-total (b.addr + b.size) s.pos post around.2)

  pub cuts : Cut s.min pre × Cut s.min (b ∷ post)
  cuts = Cut-parts s.min pre (b ∷ post) inv.covers.cut

  pub joined : Spaced s.btm (pre ++ post) s.pos
  joined =
      Spaced-append s.btm b.addr s.pos pre post around.0 (
        Spaced_weaken (b.addr + b.size) b.addr s.pos s.pos post around.2 (omega arith)
          (omega arith))

  pub on_top : b.addr + b.size ≡ s.pos → Spaced s.btm (pre ++ post) b.addr
  on_top e =
      Spaced-append s.btm b.addr b.addr pre post around.0
        (Spaced_none (b.addr + b.size) s.pos b.addr post around.2 (omega arith)).0

  -- The sizes from `_min` on, with and without the block.
  sizes : above s.min (pre ++ post) + (if leb s.min b.addr then b.size else 0) ≤ s.dif
  sizes =
      omega (arith, inv.covers.fits, above-append s.min pre (b ∷ post), above-append s.min pre post)

  Cut-rest : Cut s.min (pre ++ post)
  Cut-rest = Cut-append s.min pre post cuts.0 cuts.1.1

  pub release_last_low :
      b.addr + b.size ≡ s.pos
      → s.min ≡ s.pos
      → Covers (record s { min = s.min - b.size; pos = s.pos - b.size }) (pre ++ post)
  release_last_low e same =
      let p : s.pos - b.size ≡ b.addr = omega arith in
      let m : s.min - b.size ≡ b.addr = omega arith in
      record {
        low = omega (arith, bounds.0);
        mid = omega arith;
        high = omega (arith, inv.covers.high);
        spaced = rw p (on_top e);
        cut = rw m (Cut-low s.btm b.addr b.addr (pre ++ post) (on_top e) (omega arith));
        fits =
            rw m
              (omega (arith, above_low s.btm b.addr b.addr (pre ++ post) (on_top e) (omega arith)));
      }

  pub high_side : s.min < b.addr + b.size → s.min ≤ b.addr
  high_side h = elim cuts.1.0 [ inl below ↦ absurd (omega arith) | inr above ↦ above ]

  release_last_high :
      b.addr + b.size ≡ s.pos
      → s.min < s.pos
      → Covers (record s { dif = s.dif - b.size; pos = s.pos - b.size }) (pre ++ post)
  release_last_high e less =
      let p : s.pos - b.size ≡ b.addr = omega arith in
      let h = high_side (omega arith) in
      record {
        low = inv.covers.low;
        mid = omega arith;
        high = omega (arith, inv.covers.high);
        spaced = rw p (on_top e);
        cut = Cut-rest;
        fits = ground (arith, sizes);
      }

  release_high : s.min < b.addr + b.size → Covers (record s { dif = s.dif - b.size }) (pre ++ post)
  release_high less =
      let h = high_side less in
      record {
        low = inv.covers.low;
        mid = inv.covers.mid;
        high = inv.covers.high;
        spaced = joined;
        cut = Cut-rest;
        fits = ground (arith, sizes);
      }

  -- The blocks behind one that ends at or before `_min`.
  pub behind : b.addr + b.size ≤ s.min → total post + b.addr + b.size ≤ s.min + s.dif
  behind h = omega (
    arith,
    total-le-above (b.addr + b.size) s.pos s.min post around.2 cuts.1.1 h,
    inv.covers.fits,
    above-append s.min pre (b ∷ post),
  )

  low-Cut : Cut b.addr (pre ++ post)
  low-Cut =
      Cut-append b.addr pre post (Cut-low s.btm b.addr b.addr pre around.0 (omega arith))
        (Cut-high (b.addr + b.size) s.pos b.addr post around.2 (omega arith))

  pub low_above : above b.addr (pre ++ post) ≡ total post
  low_above = omega (
    arith,
    above-append b.addr pre post,
    above_low s.btm b.addr b.addr pre around.0 (omega arith),
    above_high (b.addr + b.size) s.pos b.addr post around.2 (omega arith),
  )

  release_at_min :
      b.addr + b.size ≡ s.min → Covers (record s { min = s.min - b.size }) (pre ++ post)
  release_at_min e =
      let m : s.min - b.size ≡ b.addr = omega arith in
      record {
        low = omega (arith, bounds.0);
        mid = omega (arith, inv.covers.mid);
        high = inv.covers.high;
        spaced = joined;
        cut = rw m low-Cut;
        fits = rw m (omega (arith, low_above, behind (omega arith)));
      }

  release_low :
      b.addr + b.size < s.min
      → Covers (record s { dif = s.dif + (s.min - b.addr - b.size); min = b.addr }) (pre ++ post)
  release_low less = record {
    low = omega (arith, bounds.0);
    mid = omega (arith, bounds.1);
    high = inv.covers.high;
    spaced = joined;
    cut = low-Cut;
    fits = omega (arith, low_above, behind (omega arith));
  }

  pub release-Covers : Covers (release b s) (pre ++ post)
  unfolding release lowered
  release-Covers = elim (Bool-cases (b.addr + b.size == s.pos)) [
    | inl last ↦ elim (Bool-cases (s.min == s.pos)) [
      | inl same ↦ rw (last, same) (release_last_low (ground arith) (ground arith))
      | inr other ↦
          rw (last, other) (release_last_high (ground arith) (ground (arith, inv.covers.mid)))
    ]
    | inr inner ↦ elim (Bool-cases (b.addr + b.size == s.min)) [
      | inl at_min ↦ rw (inner, at_min) (release_at_min (ground arith))
      | inr off_min ↦ elim (Bool-cases (ltb s.min (b.addr + b.size))) [
        | inl above_min ↦ rw (inner, off_min, above_min) (release_high (ground arith))
        | inr below_min ↦ rw (inner, off_min, below_min) (release_low (ground arith))
      ]
    ]
  ]

  pub deallocate-Inv : Inv (deallocate b s) (pre ++ post)
  unfolding deallocate
  deallocate-Inv = settle-Inv (release b s) (pre ++ post) release-Covers
