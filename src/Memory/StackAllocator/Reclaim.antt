-- ===== src/Memory/StackAllocator/Reclaim.antt =====
-- stack_allocator.cpp: when all blocks are given back, all of the store is free again.
use eagine_core.Common.{
  ℕ, ◌+◌, ◌-◌, ◌≤◌, ◌<◌, false, List, [], ◌∷◌, ◌++◌, ltb, leb, ◌==◌, if◌then◌else◌, Bool-cases, inl,
  inr, ◌≡◌, refl, sym, ◌∙◌, arith,
}
use eagine_core.Memory.StackAllocator.{
  Block, Stack, on_store, max_size, raised, lowered, release, settle, deallocate,
}
use eagine_core.Memory.StackAllocator.Spaced.{total, above, total-append, above-append, above_low}
use eagine_core.Memory.StackAllocator.Invariant.{Inv}
use eagine_core.Memory.StackAllocator.Safety.{bounds, on_top, low_above, high_side, behind}
use eagine_core.Memory.StackAllocator.Reach.{
  Step, Reach, allocated_lem, full_lem, Reach-Inv, Reach_store,
}

-- Nothing below `_min` is free, and `_dif` is just what the blocks from there on take.
pub record Exact (s : Stack) (live : List Block) : Type 0 where
  pub filled : s.btm + total live ≡ s.min + s.dif
  pub counted : above s.min live ≡ s.dif

on_store-Exact : (b t : ℕ) → Exact (on_store b t) []
unfolding on_store
on_store-Exact b t = record { filled = omega arith; counted = refl }

raised-Exact :
    (n : ℕ) (s : Stack) (live : List Block)
    → Inv s live
    → Exact s live
    → Exact (raised n s) (live ++ (record { addr = s.pos; size = n } ∷ []))
unfolding raised
raised-Exact n s live inv x =
    let b : Block = record { addr = s.pos; size = n } in
    let t = total-append live (b ∷ []) in
    elim (Bool-cases (s.min == s.pos)) [
      | inl same ↦
          let z = above_low s.btm s.pos s.min live inv.covers.spaced (ground arith) in
          let z' = above_low s.btm s.pos (s.min + n) live inv.covers.spaced (ground arith) in
          rw same (record {
            filled = omega (arith, x.filled);
            counted = ground (arith, above-append (s.min + n) live (b ∷ []), z, z', x.counted);
          })
      | inr other ↦ rw other (record {
        filled = omega (arith, x.filled);
        counted = ground (arith, x.counted, above-append s.min live (b ∷ []), inv.covers.mid);
      })
    ]

settle-Exact : (s : Stack) (live : List Block) → Exact s live → Exact (settle s) live
unfolding settle
settle-Exact s live x = elim (Bool-cases (s.dif == 0)) [
  | inl none_left ↦ rw none_left (record { filled = x.filled; counted = x.counted })
  | inr some_left ↦ rw some_left x
]

module _ (s : Stack) (pre post : List Block) (b : Block) (inv : Inv s (pre ++ (b ∷ post)))
    (x : Exact s (pre ++ (b ∷ post))) where
  parts :
      (s.btm + total pre + b.size + total post ≡ s.min + s.dif)
      × (total (pre ++ post) ≡ total pre + total post)
      × (above s.min pre + (if leb s.min b.addr then b.size else 0) + above s.min post ≡ s.dif)
  parts = (
    omega (arith, x.filled, total-append pre (b ∷ post)),
    total-append pre post,
    omega (arith, x.counted, above-append s.min pre (b ∷ post)),
  )

  Exact-last_low :
      b.addr + b.size ≡ s.pos
      → s.min ≡ s.pos
      → Exact (record s { min = s.min - b.size; pos = s.pos - b.size }) (pre ++ post)
  Exact-last_low e same =
      let m : s.min - b.size ≡ b.addr = omega arith in
      let z =
        above_low s.btm b.addr b.addr (pre ++ post) (on_top s pre post b inv e) (omega arith) in
      let z' = above_low s.btm s.pos s.min (pre ++ (b ∷ post)) inv.covers.spaced (omega arith) in
      record { filled = omega (arith, parts); counted = rw m (omega (arith, z, z', x.counted)) }

  -- A block that ends at or before `_min` leaves just what is behind it.
  rest : b.addr + b.size ≤ s.min → total post + b.addr + b.size ≡ s.min + s.dif
  rest h = omega (arith, parts, behind s pre post b inv h, bounds s pre post b inv)

  Exact-at_min : b.addr + b.size ≡ s.min → Exact (record s { min = s.min - b.size }) (pre ++ post)
  Exact-at_min e =
      let m : s.min - b.size ≡ b.addr = omega arith in
      record {
        filled = omega (arith, parts);
        counted = rw m (omega (arith, low_above s pre post b inv, rest (omega arith)));
      }

  Exact-low :
      b.addr + b.size < s.min
      → Exact (record s { dif = s.dif + (s.min - b.addr - b.size); min = b.addr }) (pre ++ post)
  Exact-low less = record {
    filled = omega (arith, parts);
    counted = omega (arith, low_above s pre post b inv, rest (omega arith));
  }

  release-Exact : Exact (release b s) (pre ++ post)
  unfolding release lowered
  release-Exact = elim (Bool-cases (b.addr + b.size == s.pos)) [
    | inl last ↦ elim (Bool-cases (s.min == s.pos)) [
      | inl same ↦ rw (last, same) (Exact-last_low (ground arith) (ground arith))
      | inr other ↦
          let over = high_side s pre post b inv (ground (arith, inv.covers.mid)) in
          rw (last, other)
            (record {
              filled = ground (arith, parts);
              counted = ground (arith, parts, above-append s.min pre post);
            })
    ]
    | inr inner ↦ elim (Bool-cases (b.addr + b.size == s.min)) [
      | inl at_min ↦ rw (inner, at_min) (Exact-at_min (ground arith))
      | inr off_min ↦ elim (Bool-cases (ltb s.min (b.addr + b.size))) [
        | inl above_min ↦
            let over = high_side s pre post b inv (ground arith) in
            rw (inner, off_min, above_min)
              (record {
                filled = ground (arith, parts);
                counted = ground (arith, parts, above-append s.min pre post);
              })
        | inr below_min ↦ rw (inner, off_min, below_min) (Exact-low (ground arith))
      ]
    ]
  ]

  deallocate-Exact : Exact (deallocate b s) (pre ++ post)
  unfolding deallocate
  deallocate-Exact = settle-Exact (release b s) (pre ++ post) release-Exact

-- Without `truncate` nothing is lost.
Step-Exact :
    {s s' : Stack} {live live' : List Block}
    → Step false s live s' live'
    → Inv s live
    → Exact s live
    → Exact s' live'
Step-Exact {s = s} {live = live} (Step.allocates n b h e l) inv x =
    let a = allocated_lem n s _ b h e in rw (l, a.1, a.2) (raised-Exact n s live inv x)
Step-Exact {s = s} (Step.is_full n e l) inv x = rw (l, full_lem n s _ e) x
Step-Exact (Step.truncates pre post b b' nn c h k l e l') inv x = absurd cc
Step-Exact {s = s} (Step.deallocates pre post b l e l') inv x =
    rw (l', e) (deallocate-Exact s pre post b (rw l at inv) (rw l at x))

Reach-Exact :
    {btm top : ℕ} {s : Stack} {live : List Block}
    → btm ≤ top
    → Reach false btm top s live
    → Exact s live
Reach-Exact h (Reach.start) = on_store-Exact _ _
Reach-Exact h (Reach.later r st) = Step-Exact st (Reach-Inv h r) (Reach-Exact h r)

-- When a stack allocator on a store with btm at most top has been used without truncate and for
-- blocks that are not empty, and all blocks have been given back in any order, it is in its first
-- state and has the room of all of the store.
pub reclaim_lem :
    {btm top : ℕ} {s : Stack}
    → btm ≤ top
    → Reach false btm top s []
    → (s ≡ on_store btm top) × (max_size s ≡ top - btm)
unfolding on_store max_size
reclaim_lem {s = s} h r =
    let st = Reach_store r in
    let x = Reach-Exact h r in
    let z = x.counted in
    let m = (Reach-Inv h r).settled (sym z) in
    let f = x.filled in
    let at : s.min ≡ s.btm = omega arith in
    (
      λ i. record {
        btm = st.0 i;
        top = st.1 i;
        pos = (sym m ∙ at ∙ st.0) i;
        min = (at ∙ st.0) i;
        dif = sym z i;
      },
      omega arith,
    )
