-- ===== src/Memory/StackAllocator/Headers.antt =====
-- stack_allocator_impl.cpp: a block that is given back gives back its padding too.
use native.Mathlib.Nat.{zero-add, mod-lt, mod_self, mod-add-mod}
use eagine_core.Common.{
  ℕ, ◌+◌, ◌-◌, ◌%◌, ◌≤◌, ◌<◌, true, false, Option, some, List, ltb, leb, ==_iff, le→leb, ◌==◌,
  Bool-cases, inl, inr, ◌≡◌, refl, sym, ap, ◌∙◌, arith,
}
use eagine_core.Memory.StackAllocator.{
  Block, Stack, max_size, raised, lowered, allocate, release, settle, deallocate,
}
use eagine_core.Memory.StackAllocator.Invariant.{Inv}
use eagine_core.Memory.StackAllocator.ByteStack.{
  ByteStack, Given, allocated_size, is_aligned_to, has_allocated, write, byte_allocate,
  byte_deallocate,
}

padded : (x a : ℕ) → 0 < a → (x + (a - x % a)) % a ≡ 0
padded x a h =
    let below = mod-lt x h in
    let e : x % a + (a - x % a) ≡ a = omega arith in
    sym (mod-add-mod x a (a - x % a)) ∙ ap (λ n. n % a) e ∙ mod_self a

module _ (s : Stack) (live : List Block) (inv : Inv s live) where
  allocate-room :
      (n : ℕ)
      → n ≤ max_size s
      → allocate n s ≡ (raised n s, some (record { addr = s.pos; size = n }))
  unfolding allocate
  allocate-room n h = let fits : ltb (max_size s) n ≡ false = ground arith in rw fits refl

  settle_same : settle s ≡ s
  unfolding settle
  settle_same = elim (Bool-cases (s.dif == 0)) [
    | inl none_left ↦
        let e = inv.settled (ground arith) in rw none_left (λ i. record s { pos = e i })
    | inr some_left ↦ rw some_left refl
  ]

  has_allocated-raised :
      (n : ℕ) (b : Block)
      → s.btm ≤ b.addr
      → b.addr + b.size ≤ s.pos + n
      → has_allocated b (raised n s) ≡ true
  unfolding has_allocated raised
  has_allocated-raised n b lo hi =
      let below = le→leb s.btm b.addr lo in
      let above = le→leb (b.addr + b.size) (s.pos + n) hi in
      elim (Bool-cases (s.min == s.pos)) [
        | inl same ↦ rw (same, below, above) refl
        | inr other ↦ rw (other, below, above) refl
      ]

  release-raised : (n : ℕ) → release (record { addr = s.pos; size = n }) (raised n s) ≡ s
  unfolding release lowered raised
  release-raised n =
      let mid = inv.covers.mid in
      let back : s.pos + n - n ≡ s.pos = omega arith in
      let end : (s.pos + n == s.pos + n) ≡ true = ground arith in
      elim (Bool-cases (s.min == s.pos)) [
        | inl same ↦
            let low : s.min + n - n ≡ s.min = omega arith in
            let still : (s.min + n == s.pos + n) ≡ true = ground arith in
            rw (same, end, still) (λ i. record s { min = low i; pos = back i })
        | inr other ↦
            let high : s.dif + n - n ≡ s.dif = omega arith in
            let apart : (s.min == s.pos + n) ≡ false = ground arith in
            rw (other, end, apart) (λ i. record s { dif = high i; pos = back i })
      ]

  -- The last block that was allocated.
  deallocate-raised : (n : ℕ) → deallocate (record { addr = s.pos; size = n }) (raised n s) ≡ s
  unfolding deallocate
  deallocate-raised n = ap settle (release-raised n) ∙ settle_same

  module _ (bytes : ℕ → ℕ) (n a : ℕ) (h : 0 < n) (k : 0 < a) (small : a < 255)
      (aligned : s.btm % a ≡ 0) where
    abbrev pad : ℕ
    pad = a - allocated_size s % a

    abbrev taken : ByteStack
    taken = record { stack = raised (pad + n) s; bytes = write bytes (s.pos + pad - 1) (pad % 256) }

    abbrev block : Block
    block = record { addr = s.pos + pad; size = pad + n - pad }

    pad_bounds : (0 < pad) × (pad ≤ a)
    pad_bounds = let below = mod-lt (allocated_size s) k in (omega arith, omega arith)

    on_multiple : (s.pos + pad) % a ≡ 0
    unfolding allocated_size
    on_multiple =
        let low = inv.covers.low in
        let mid = inv.covers.mid in
        let at : s.pos + pad ≡ s.btm + (allocated_size s + pad) = omega arith in
        ap (λ x. x % a) at
        ∙ sym (mod-add-mod s.btm a (allocated_size s + pad))
        ∙ ap (λ x. (x + (allocated_size s + pad)) % a) aligned
        ∙ ap (λ x. x % a) (zero-add (allocated_size s + pad))
        ∙ padded (allocated_size s) a k

    allocated_block :
        pad + n ≤ max_size s
        → byte_allocate n a (record { stack = s; bytes = bytes }) ≡ (taken, Given.given block)
    unfolding byte_allocate is_aligned_to
    allocated_block room =
        let asked : (n == 0) ≡ false = ground arith in
        let b = pad_bounds in
        let byte : ltb pad 255 ≡ true = ground (arith, b) in
        let multiple : ((s.pos + pad) % a == 0) ≡ true =
          (==_iff ((s.pos + pad) % a) 0).1 on_multiple in
        let with_stack : Stack × Option Block → ByteStack × Given = λ q. (
          record { stack = q.0; bytes = write bytes (s.pos + pad - 1) (pad % 256) },
          Given.given block,
        ) in
        rw (asked, byte, allocate-room (pad + n) room, multiple)
          (ap with_stack (allocate-room (pad + n) room))

    written : taken.bytes (block.addr - 1) ≡ pad
    unfolding write
    written =
        let b = pad_bounds in
        let at : (s.pos + pad - 1 == s.pos + pad - 1) ≡ true = ground arith in rw at (omega arith)

    given_back : byte_deallocate block taken ≡ some (record taken { stack = s })
    unfolding byte_deallocate has_allocated
    given_back =
        let b = pad_bounds in
        let low = inv.covers.low in
        let mid = inv.covers.mid in
        let some_bytes : (block.size == 0) ≡ false = ground (arith, h) in
        let start : block.addr - pad ≡ s.pos = omega arith in
        let size : block.size + pad ≡ pad + n = omega arith in
        let within : has_allocated block (raised (pad + n) s) ≡ true =
          has_allocated-raised (pad + n) block (omega arith) (omega arith) in
        let first : leb 1 block.addr ≡ true = le→leb 1 block.addr (omega arith) in
        let fits : leb pad block.addr ≡ true = le→leb pad block.addr (omega arith) in
        let with_stack : Stack → Option ByteStack = λ x. some (record taken { stack = x }) in
        rw (some_bytes, within, written, first, fits, start, size)
          (ap with_stack (deallocate-raised (pad + n)))

    -- For a stack allocator that satisfies its invariant, on a store that begins at a multiple of
    -- the alignment, a size of at least 1, an alignment from 1 to 254 and room for the size and the
    -- padding, no assertion fails: allocate of the byte allocator gives a block of the size, at a
    -- multiple of the alignment, that lies beyond the position and within the store, and changes no
    -- byte below the position; deallocate of the block right after it leaves the stack allocator as
    -- it was.
    pub header_lem :
        a - allocated_size s % a + n ≤ max_size s
        → let r = byte_allocate n a (record { stack = s; bytes = bytes }) in
          (b : Block) × (r.1 ≡ Given.given b)
          × (b.size ≡ n)
          × (b.addr % a ≡ 0)
          × (s.pos < b.addr)
          × (b.addr + n ≤ s.top)
          × ((i : ℕ) → i < s.pos → r.0.bytes i ≡ bytes i)
          × (byte_deallocate b r.0 ≡ some (record r.0 { stack = s }))
    unfolding max_size write allocated_size
    header_lem room =
        let b = pad_bounds in
        let low = inv.covers.low in
        let mid = inv.covers.mid in
        let high = inv.covers.high in
        rw (allocated_block room) (
          block,
          refl,
          omega arith,
          on_multiple,
          omega arith,
          omega arith,
          λ i l. let off : (i == s.pos + pad - 1) ≡ false = ground (arith, b) in rw off refl,
          given_back,
        )
