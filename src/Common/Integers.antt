-- ===== src/Common/Integers.antt =====
-- The signed sizes of the program, `span_size_t`, and what is done with them.
use Prim.Native.Nat.{ℕ, ◌+◌, ◌-◌, min}
use eagine_core.Common.Tests.{leb, if◌then◌else◌}

pub data ℤ : Type 0 where
  pos : ℕ → ℤ
  negsuc : ℕ → ℤ

infixl 60 ◌+ℤ◌
abbrev pub ◌+ℤ◌ : ℤ → ℤ → ℤ
pos a +ℤ pos b = pos (a + b)
pos a +ℤ negsuc b = if leb (b + 1) a then pos (a - (b + 1)) else negsuc (b - a)
negsuc a +ℤ pos b = if leb (a + 1) b then pos (b - (a + 1)) else negsuc (a - b)
negsuc a +ℤ negsuc b = negsuc (a + b + 1)

-- The size less a number.
abbrev pub size_less : ℕ → ℤ → ℤ
size_less size (pos l) = if leb l size then pos (size - l) else negsuc (l - size - 1)
size_less size (negsuc l) = pos (size + l + 1)

-- `std::clamp(l, 0, size)`
abbrev pub clamp : ℤ → ℕ → ℕ
clamp (pos l) size = min l size
clamp (negsuc l) size = 0
