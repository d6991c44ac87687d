-- ===== src/Memory/StackAllocator/Invariant.antt =====
-- stack_allocator.cpp: the invariant, which the constructor, a new block and the last test of
-- `deallocate` keep.
use eagine_core.Common.{
  ℕ, ◌+◌, ◌≤◌, ◌<◌, List, [], ◌∷◌, ◌++◌, ◌==◌, Bool-cases, inl, inr, ◌≡◌, refl, arith,
}
use eagine_core.Memory.StackAllocator.{Block, Stack, on_store, raised, settle}
use eagine_core.Memory.StackAllocator.Spaced.{
  Spaced, above, Cut, above-append, Cut-append, Spaced-append, above_low, Cut-low, Spaced_squeeze,
}

-- The stack against the live blocks, in the order of their addresses. `_min` is a place that no block
-- crosses, and `_dif` covers the blocks from there on.
pub record Covers (s : Stack) (live : List Block) : Type 0 where
  pub low : s.btm ≤ s.min
  pub mid : s.min ≤ s.pos
  pub high : s.pos ≤ s.top
  pub spaced : Spaced s.btm live s.pos
  pub cut : Cut s.min live
  pub fits : above s.min live ≤ s.dif

pub record Inv (s : Stack) (live : List Block) : Type 0 where
  pub covers : Covers s live
  pub settled : s.dif ≡ 0 → s.min ≡ s.pos

pub on_store-Inv : (b t : ℕ) → b ≤ t → Inv (on_store b t) []
unfolding on_store
on_store-Inv b t h = record {
  covers = record {
    low = omega arith;
    mid = omega arith;
    high = h;
    spaced = omega arith;
    cut = tt;
    fits = omega arith;
  };
  settled = λ e. refl;
}

pub raised-Inv :
    (n : ℕ) (s : Stack) (live : List Block)
    → 0 < n
    → s.pos + n ≤ s.top
    → Inv s live
    → Inv (raised n s) (live ++ (record { addr = s.pos; size = n } ∷ []))
unfolding raised
raised-Inv n s live h room inv =
    let b : Block = record { addr = s.pos; size = n } in
    let c = inv.covers in
    let more =
      Spaced-append s.btm s.pos (s.pos + n) live (b ∷ []) c.spaced (omega arith, h, omega arith) in
    elim (Bool-cases (s.min == s.pos)) [
      | inl same ↦
          let e : s.min ≡ s.pos = ground arith in
          let end : s.min + n ≡ s.pos + n = omega arith in
          rw same (record {
            covers = record {
              low = omega (arith, c.low);
              mid = omega arith;
              high = room;
              spaced = more;
              cut = Cut-low s.btm (s.pos + n) (s.min + n) (live ++ (b ∷ [])) more (omega arith);
              fits = omega (
                arith,
                above_low s.btm (s.pos + n) (s.min + n) (live ++ (b ∷ [])) more (omega arith),
              );
            };
            settled = λ _. end;
          })
      | inr other ↦ rw other (record {
        covers = record {
          low = c.low;
          mid = omega (arith, c.mid);
          high = room;
          spaced = more;
          cut = Cut-append s.min live (b ∷ []) c.cut (inr c.mid, tt);
          fits = ground (arith, above-append s.min live (b ∷ []), c.fits, c.mid);
        };
        settled = λ e. absurd (omega arith);
      })
    ]

pub settle-Inv : (s : Stack) (live : List Block) → Covers s live → Inv (settle s) live
unfolding settle
settle-Inv s live c = elim (Bool-cases (s.dif == 0)) [
  | inl none_left ↦
      let z : above s.min live ≡ 0 = ground (arith, c.fits) in
      rw none_left (record {
        covers = record {
          low = c.low;
          mid = omega arith;
          high = omega (arith, c.mid, c.high);
          spaced = Spaced_squeeze s.btm s.pos s.min live c.spaced c.cut z c.low;
          cut = c.cut;
          fits = c.fits;
        };
        settled = λ _. refl;
      })
  | inr some_left ↦ rw some_left (record { covers = c; settled = λ e. absurd (ground arith) })
]
