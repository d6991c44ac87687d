-- ===== src/Memory/StackAllocator/Reach.antt =====
-- stack_allocator.cpp: the states that a client of the allocator can reach.
use mathlib.Core.Option.{some-injective}
use eagine_core.Common.{
  ℕ, ◌+◌, ◌-◌, ◌≤◌, ◌<◌, Bool, true, none, some, List, [], ◌∷◌, ◌++◌, ltb, Bool-cases, inl, inr,
  ◌≡◌, refl, sym, ap, ◌∙◌, arith,
}
use eagine_core.Memory.StackAllocator.{
  Block, Stack, on_store, max_size, raised, lowered, allocate, truncate, release, settle,
  deallocate,
}
use eagine_core.Memory.StackAllocator.Spaced.{Spaced, Spaced-total, Spaced_around}
use eagine_core.Memory.StackAllocator.Invariant.{Inv, on_store-Inv, raised-Inv}
use eagine_core.Memory.StackAllocator.Safety.{deallocate-Inv}
use eagine_core.Memory.StackAllocator.Cutting.{truncate-Inv}

-- A call of the client, which gives back or cuts only blocks that are live; blocks are not empty.
-- Without `cutting` it does not call `truncate`.
pub data Step (cutting : Bool) (s : Stack) (live : List Block) (s' : Stack) (live' : List Block)
    : Type 0 where
  allocates :
      (n : ℕ) (b : Block)
      → 0 < n
      → allocate n s ≡ (s', some b)
      → live' ≡ live ++ (b ∷ [])
      → Step cutting s live s' live'
  is_full : (n : ℕ) → allocate n s ≡ (s', none) → live' ≡ live → Step cutting s live s' live'
  truncates :
      (pre post : List Block) (b b' : Block) (nn : ℕ)
      → cutting ≡ true
      → 0 < nn
      → nn ≤ b.size
      → live ≡ pre ++ (b ∷ post)
      → truncate b nn s ≡ (s', b')
      → live' ≡ pre ++ (b' ∷ post)
      → Step cutting s live s' live'
  deallocates :
      (pre post : List Block) (b : Block)
      → live ≡ pre ++ (b ∷ post)
      → s' ≡ deallocate b s
      → live' ≡ pre ++ post
      → Step cutting s live s' live'

pub data Reach (cutting : Bool) (btm top : ℕ) : Stack → List Block → Type 0 where
  start : Reach cutting btm top (on_store btm top) []
  later :
      {s s' : Stack} {live live' : List Block}
      → Reach cutting btm top s live
      → Step cutting s live s' live'
      → Reach cutting btm top s' live'

-- What a call of `allocate` that gives a block does.
pub allocated_lem :
    (n : ℕ) (s s' : Stack) (b : Block)
    → 0 < n
    → allocate n s ≡ (s', some b)
    → (s.pos + n ≤ s.top) × (s' ≡ raised n s) × (b ≡ record { addr = s.pos; size = n })
unfolding allocate max_size
allocated_lem n s s' b h e = elim (Bool-cases (ltb (s.top - s.pos) n)) [
  | inl no_room ↦ let q = rw no_room at e in absurd_full (ap (λ r. r.1) q)
  | inr room ↦
      let q = sym (rw room at e) in
      (
        ground arith,
        ap (λ r. r.0) q,
        some-injective b (record { addr = s.pos; size = n }) (ap (λ r. r.1) q),
      )
]
  where
    absurd_full : {A : Type 0} → none ≡ some b → A
    absurd_full q = cc

pub full_lem : (n : ℕ) (s s' : Stack) → allocate n s ≡ (s', none) → s' ≡ s
unfolding allocate
full_lem n s s' e = ground arith

pub Step-Inv :
    {cutting : Bool} {s s' : Stack} {live live' : List Block}
    → Step cutting s live s' live'
    → Inv s live
    → Inv s' live'
Step-Inv {s = s} {live = live} (Step.allocates n b h e l) inv =
    let a = allocated_lem n s _ b h e in rw (l, a.1, a.2) (raised-Inv n s live h a.0 inv)
Step-Inv {s = s} {live = live} (Step.is_full n e l) inv = rw (l, full_lem n s _ e) inv
Step-Inv {s = s} (Step.truncates pre post b b' nn c h k l e l') inv =
    let t = truncate-Inv s pre post b nn (rw l at inv) h k in rw l' (rw e at t)
Step-Inv {s = s} (Step.deallocates pre post b l e l') inv =
    rw (l', e) (deallocate-Inv s pre post b (rw l at inv))

pub Reach-Inv :
    {cutting : Bool} {btm top : ℕ} {s : Stack} {live : List Block}
    → btm ≤ top
    → Reach cutting btm top s live
    → Inv s live
Reach-Inv h (Reach.start) = on_store-Inv _ _ h
Reach-Inv h (Reach.later r st) = Step-Inv st (Reach-Inv h r)

-- No call moves the store.
pub Step-store :
    {cutting : Bool} {s s' : Stack} {live live' : List Block}
    → Step cutting s live s' live'
    → (s'.btm ≡ s.btm) × (s'.top ≡ s.top)
unfolding allocate raised truncate lowered deallocate release settle
Step-store {s = s} {s' = s'} (Step.allocates n b h e l) =
    let a = (allocated_lem n s s' b h e).1 in ground arith
Step-store {s = s} {s' = s'} (Step.is_full n e l) = let a = full_lem n s s' e in ground arith
Step-store {s = s} {s' = s'} (Step.truncates pre post b b' nn c h k l e l') =
    let a = sym (ap (λ r. r.0) e) in ground arith
Step-store (Step.deallocates pre post b l e l') = ground arith

pub Reach_store :
    {cutting : Bool} {btm top : ℕ} {s : Stack} {live : List Block}
    → Reach cutting btm top s live
    → (s.btm ≡ btm) × (s.top ≡ top)
unfolding on_store
Reach_store (Reach.start) = (refl, refl)
Reach_store (Reach.later r st) =
    let a = Step-store st in let b = Reach_store r in (a.0 ∙ b.0, a.1 ∙ b.1)

apart :
    (lo hi : ℕ) (pre mid post : List Block) (b c : Block)
    → Spaced lo (pre ++ (b ∷ (mid ++ (c ∷ post)))) hi
    → b.addr + b.size ≤ c.addr
apart lo hi [] mid post b c h = omega (
  arith,
  Spaced-total (b.addr + b.size) c.addr mid (Spaced_around (b.addr + b.size) hi mid post c h.2).0,
)
apart lo hi (x ∷ pre) mid post b c h = apart (x.addr + x.size) hi pre mid post b c h.2

-- In every state of a stack allocator on a store with btm at most top that calls of allocate for
-- blocks that are not empty, of truncate of live ones to at least one element, and of deallocate of
-- live ones, in any order, can reach, the live blocks are not empty, do not overlap, and lie between
-- btm and the position in the order in which they were allocated, and the position is at most top.
pub live_lem :
    {cutting : Bool} {btm top : ℕ} {s : Stack} {live : List Block}
    → btm ≤ top
    → Reach cutting btm top s live
    → Spaced btm live s.pos
      × (s.pos ≤ top)
      × ((pre mid post : List Block) (b c : Block)
          → live ≡ pre ++ (b ∷ (mid ++ (c ∷ post)))
          → b.addr + b.size ≤ c.addr)
live_lem {btm = btm} {s = s} h r =
    let inv = Reach-Inv h r in
    let st = Reach_store r in
    let spaced = rw st.0 at inv.covers.spaced in
    (
      spaced,
      omega (arith, inv.covers.high),
      λ pre mid post b c e. apart btm s.pos pre mid post b c (rw e at spaced),
    )
