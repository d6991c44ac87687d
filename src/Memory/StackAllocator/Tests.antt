-- ===== src/Memory/StackAllocator/Tests.antt =====
-- Runs of stack_allocator.cpp, and the theorems at concrete inputs.
use eagine_core.Common.{
  ℕ, ◌+◌, ◌%◌, ◌<◌, ◌-◌, ◌≤◌, false, none, some, List, [], ◌∷◌, ◌++◌, ◌≡◌, refl, arith,
}
use eagine_core.Memory.StackAllocator.{
  Block, Stack, on_store, max_size, raised, lowered, allocate, truncate, release, settle,
  deallocate,
}
use eagine_core.Memory.StackAllocator.ByteStack.{
  Given, byte_allocate, byte_deallocate, allocate_only,
}
use eagine_core.Memory.StackAllocator.Headers.{header_lem}
use eagine_core.Memory.StackAllocator.Spaced.{Spaced}
use eagine_core.Memory.StackAllocator.Reach.{Step, Reach, Reach-Inv, live_lem}
use eagine_core.Memory.StackAllocator.Reclaim.{reclaim_lem}

abbrev block : ℕ → ℕ → Block
block a n = record { addr = a; size = n }

abbrev stack : ℕ → ℕ → ℕ → Stack
stack p m d = record { btm = 100; top = 120; pos = p; min = m; dif = d }

refused : allocate 21 (on_store 100 120) ≡ (on_store 100 120, none)
unfolding on_store allocate max_size
refused = refl

-- A first block given back before the second leaves a gap, which the second one closes.
gap : deallocate (block 100 4) (stack 106 106 0) ≡ stack 106 100 2
unfolding deallocate release settle
gap = refl

-- What `truncate` cuts from a block with others behind it is not free again when all are given back.
lost :
    deallocate
      (block 100 1)
      (deallocate (block 104 2) (truncate (block 100 4) 1 (stack 106 106 0)).0)
    ≡ stack 104 100 3
unfolding deallocate release settle truncate lowered
lost = refl

-- An empty block that is given back below a live one cuts that one: the next call with it
-- takes 10 from a `_dif` of 5.
empty_block :
    deallocate
      (block 5 0)
      (allocate 10 (deallocate (block 0 5) (allocate 0 (allocate 5 (on_store 0 20)).0).0)).0
    ≡ record { btm = 0; top = 20; pos = 10; min = 5; dif = 5 }
unfolding on_store allocate max_size raised deallocate release lowered settle
empty_block = refl

-- Two blocks, of which the first is given back.
first : Reach false 100 120 (stack 104 104 0) (block 100 4 ∷ [])
unfolding on_store allocate max_size raised
first = Reach.later Reach.start (Step.allocates 4 (block 100 4) (omega arith) refl refl)

second : Reach false 100 120 (stack 106 106 0) (block 100 4 ∷ block 104 2 ∷ [])
unfolding allocate max_size raised
second = Reach.later first (Step.allocates 2 (block 104 2) (omega arith) refl refl)

one_live : Reach false 100 120 (stack 106 100 2) (block 104 2 ∷ [])
unfolding deallocate release settle
one_live = Reach.later second (Step.deallocates [] (block 104 2 ∷ []) (block 100 4) refl refl refl)

none_live : Reach false 100 120 (stack 100 100 0) []
unfolding deallocate release lowered settle
none_live = Reach.later one_live (Step.deallocates [] [] (block 104 2) refl refl refl)

live_lem_example :
    Spaced 100 (block 104 2 ∷ []) 106
    × (106 ≤ 120)
    × ((pre mid post : List Block) (b c : Block)
        → (block 104 2 ∷ []) ≡ pre ++ (b ∷ (mid ++ (c ∷ post)))
        → b.addr + b.size ≤ c.addr)
live_lem_example = live_lem (omega arith) one_live

reclaim_lem_example :
    (stack 100 100 0 ≡ on_store 100 120) × (max_size (stack 100 100 0) ≡ 120 - 100)
reclaim_lem_example = reclaim_lem (omega arith) none_live

-- Blocks are aligned from the start of the store on, and not from the address 0.
aligned : (allocate_only 4 8 (on_store 104 120)).1 ≡ Given.given (block 104 4)
unfolding allocate_only on_store allocate max_size
aligned = refl

misaligned :
    ((allocate_only 4 8 (on_store 100 120)).1 ≡ Given.failed_assert)
    × ((byte_allocate 4 8 (record { stack = on_store 100 120; bytes = λ i. 0 })).1
        ≡ Given.failed_assert)
unfolding allocate_only byte_allocate on_store allocate max_size
misaligned = (refl, refl)

-- With no room left for the header the call ends in a failed assertion.
no_room :
    (byte_allocate 16 8 (record { stack = on_store 104 120; bytes = λ i. 0 })).1
    ≡ Given.failed_assert
unfolding byte_allocate on_store allocate max_size
no_room = refl

-- A block that the allocator has not given out fails the assertion of `deallocate`.
foreign : byte_deallocate (block 90 2) (record { stack = on_store 104 120; bytes = λ i. 0 }) ≡ none
unfolding byte_deallocate on_store
foreign = refl

-- The store begins at 100, which 4 divides.
header_lem_example :
    let r = byte_allocate 2 4 (record { stack = stack 106 100 2; bytes = λ i. 0 }) in
    (b : Block) × (r.1 ≡ Given.given b)
    × (b.size ≡ 2)
    × (b.addr % 4 ≡ 0)
    × (106 < b.addr)
    × (b.addr + 2 ≤ 120)
    × ((i : ℕ) → i < 106 → r.0.bytes i ≡ 0)
    × (byte_deallocate b r.0 ≡ some (record r.0 { stack = stack 106 100 2 }))
unfolding max_size
header_lem_example =
    header_lem (stack 106 100 2) (block 104 2 ∷ []) (Reach-Inv (omega arith) one_live) (λ i. 0) 2 4
      (omega arith) (omega arith) (omega arith) (omega arith) (omega arith)
