-- ===== src/Memory/StackAllocator/ByteStack.antt =====
-- source/modules/eagine/memory/stack_allocator_impl.cpp and stack_allocator.cpp: `stack_byte_allocator`,
-- which writes the size of its padding into the byte before a block, and `stack_byte_allocator_only`.
use eagine_core.Common.{
  ℕ, ◌+◌, ◌-◌, ◌%◌, Bool, not, ◌&&◌, ◌||◌, Option, none, some, ltb, leb, ◌==◌, if◌then◌else◌,
}
use eagine_core.Memory.StackAllocator.{Block, Stack, max_size, allocate, deallocate}

-- `_alloc`, and the bytes of the memory by their addresses.
pub record ByteStack : Type 0 where
  pub stack : Stack
  pub bytes : ℕ → ℕ

-- What a call gives back: where an assertion of the source fails there is nothing else.
pub data Given : Type 0 where
  empty_block : Given
  failed_assert : Given
  given : Block → Given

unfoldable pub allocated_size : Stack → ℕ
allocated_size s = s.pos - s.btm

unfoldable pub write : (ℕ → ℕ) → ℕ → ℕ → ℕ → ℕ
write bytes at v i = if i == at then v else bytes i

-- The address is a multiple of the alignment.
unfoldable pub is_aligned_to : ℕ → ℕ → Bool
is_aligned_to addr algn = addr % algn == 0

-- `stack_byte_allocator::allocate`. The assertions are that the padding fits into a byte, that the
-- block is aligned, and, where there is no room and so no block, that the padding is none.
unfoldable pub byte_allocate : ℕ → ℕ → ByteStack → ByteStack × Given
unfolding allocated_size allocate write is_aligned_to
byte_allocate n a t =
    let m = a - allocated_size t.stack % a in
    let r = allocate (m + n) t.stack in
    let no_block = if leb m 0 then Given.empty_block else Given.failed_assert in
    if n == 0
    then (t, Given.empty_block)
    else if not (ltb m 255)
    then (t, Given.failed_assert)
    else elim r.1 [
      | none ↦ (record t { stack = r.0 }, no_block)
      | some b ↦
          if is_aligned_to (b.addr + m) a
          then (
            record { stack = r.0; bytes = write t.bytes (b.addr + m - 1) (m % 256) },
            Given.given (record { addr = b.addr + m; size = b.size - m }),
          )
          else (record t { stack = r.0 }, Given.failed_assert)
    ]

-- A block lies in the allocated part of the store.
unfoldable pub has_allocated : Block → Stack → Bool
has_allocated b s = leb s.btm b.addr && leb (b.addr + b.size) s.pos

-- `none` where an assertion fails.
unfoldable pub byte_deallocate : Block → ByteStack → Option ByteStack
unfolding deallocate has_allocated
byte_deallocate b t =
    let m = t.bytes (b.addr - 1) in
    if b.size == 0
    then some t
    else if has_allocated b t.stack && (leb 1 b.addr && leb m b.addr)
    then some
        (record t { stack = deallocate (record { addr = b.addr - m; size = b.size + m }) t.stack })
    else none

unfoldable pub byte_max_size : ℕ → ByteStack → ℕ
unfolding max_size
byte_max_size a t = if ltb a (max_size t.stack) then max_size t.stack - a else 0

-- `stack_byte_allocator_only`, whose blocks have no header and are not given back.
unfoldable pub allocate_only : ℕ → ℕ → Stack → Stack × Given
unfolding allocated_size allocate is_aligned_to
allocate_only n a s =
    let m = (a - allocated_size s % a) % a in
    let r = allocate (m + n) s in
    elim r.1 [
      | none ↦ (r.0, if m == 0 then Given.empty_block else Given.failed_assert)
      | some b ↦ (
        r.0,
        if not (ltb 0 b.size) || is_aligned_to (b.addr + m) a
            then Given.given (record { addr = b.addr + m; size = b.size - m })
            else Given.failed_assert,
      )
    ]

unfoldable pub deallocate_only : Block → Stack → Option Stack
unfolding has_allocated
deallocate_only b s = if has_allocated b s then some s else none
