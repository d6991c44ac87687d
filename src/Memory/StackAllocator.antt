-- ===== src/Memory/StackAllocator.antt =====
-- source/modules/eagine/memory/stack_allocator.cpp: `base_stack_allocator`. A pointer is the number
-- of elements before it in the address space; `_dif` never falls below 0 where the blocks that are
-- given back are live, and is a natural number.
pub mod Spaced
pub mod Invariant
pub mod Safety
pub mod Cutting
pub mod Reach
pub mod Reclaim
pub mod ByteStack
pub mod Headers
mod Tests
use eagine_core.Common.{ℕ, ◌+◌, ◌-◌, Bool, Option, none, some, ltb, leb, ◌==◌, if◌then◌else◌}

-- `owned_block`: `data` is the address of its first element.
pub record Block : Type 0 where
  pub addr : ℕ
  pub size : ℕ

pub record Stack : Type 0 where
  pub btm : ℕ
  pub top : ℕ
  pub pos : ℕ
  pub min : ℕ
  pub dif : ℕ

-- The constructor, on a store that is aligned already.
unfoldable pub on_store : ℕ → ℕ → Stack
on_store b t = record { btm = b; top = t; pos = b; min = b; dif = 0 }

unfoldable pub max_size : Stack → ℕ
max_size s = s.top - s.pos

-- `_min += n` or `_dif += n`, then `_pos += n`.
unfoldable pub raised : ℕ → Stack → Stack
raised n s =
    if s.min == s.pos
    then record s { min = s.min + n; pos = s.pos + n }
    else record s { dif = s.dif + n; pos = s.pos + n }

-- `_min -= n` or `_dif -= n`, then `_pos -= n`.
unfoldable pub lowered : ℕ → Stack → Stack
lowered n s =
    if s.min == s.pos
    then record s { min = s.min - n; pos = s.pos - n }
    else record s { dif = s.dif - n; pos = s.pos - n }

-- `none` is the empty block that says that there is no room.
unfoldable pub allocate : ℕ → Stack → Stack × Option Block
unfolding max_size raised
allocate n s =
    if ltb (max_size s) n then (s, none) else (raised n s, some (record { addr = s.pos; size = n }))

-- `truncate` of a block to `nn` elements, at most its size.
unfoldable pub truncate : Block → ℕ → Stack → Stack × Block
unfolding lowered
truncate b nn s =
    let cut : Block = record b { size = nn } in
    if b.addr + b.size == s.pos then (lowered (b.size - nn) s, cut) else (s, cut)

-- `deallocate` up to its last test.
unfoldable pub release : Block → Stack → Stack
unfolding lowered
release b s =
    let end = b.addr + b.size in
    if end == s.pos
    then lowered b.size s
    else if end == s.min
    then record s { min = s.min - b.size }
    else if ltb s.min end
    then record s { dif = s.dif - b.size }
    else record s { dif = s.dif + (s.min - b.addr - b.size); min = b.addr }

unfoldable pub settle : Stack → Stack
settle s = if s.dif == 0 then record s { pos = s.min } else s

unfoldable pub deallocate : Block → Stack → Stack
unfolding release settle
deallocate b s = settle (release b s)
