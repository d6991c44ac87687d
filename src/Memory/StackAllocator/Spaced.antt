-- ===== src/Memory/StackAllocator/Spaced.antt =====
-- stack_allocator.cpp: lists of blocks in the order of their addresses.
use eagine_core.Common.{
  ℕ, ◌+◌, ◌≤◌, ◌<◌, List, [], ◌∷◌, ◌++◌, leb, if◌then◌else◌, ◌⊎◌, inl, inr, ◌≡◌, refl, arith,
}
use eagine_core.Memory.StackAllocator.{Block}

-- Blocks that are not empty, one behind the end of the other, from `lo` to `hi`.
abbrev pub Spaced : ℕ → List Block → ℕ → Type 0
Spaced lo [] hi = lo ≤ hi
Spaced lo (b ∷ bs) hi = (lo ≤ b.addr) × (0 < b.size) × Spaced (b.addr + b.size) bs hi

abbrev pub total : List Block → ℕ
total [] = 0
total (b ∷ bs) = b.size + total bs

-- The sizes of the blocks from `m` on.
abbrev pub above : ℕ → List Block → ℕ
above m [] = 0
above m (b ∷ bs) = (if leb m b.addr then b.size else 0) + above m bs

-- No block lies across `m`.
abbrev pub Cut : ℕ → List Block → Type 0
Cut m [] = Unit {0}
Cut m (b ∷ bs) = ((b.addr + b.size ≤ m) ⊎ (m ≤ b.addr)) × Cut m bs

pub total-append : (xs ys : List Block) → total (xs ++ ys) ≡ total xs + total ys
total-append [] ys = omega arith
total-append (x ∷ xs) ys = omega (arith, total-append xs ys)

pub above-append : (m : ℕ) (xs ys : List Block) → above m (xs ++ ys) ≡ above m xs + above m ys
above-append m [] ys = omega arith
above-append m (x ∷ xs) ys = omega (arith, above-append m xs ys)

pub Cut-append : (m : ℕ) (xs ys : List Block) → Cut m xs → Cut m ys → Cut m (xs ++ ys)
Cut-append m [] ys h k = k
Cut-append m (x ∷ xs) ys h k = (h.0, Cut-append m xs ys h.1 k)

pub Cut-parts : (m : ℕ) (xs ys : List Block) → Cut m (xs ++ ys) → Cut m xs × Cut m ys
Cut-parts m [] ys h = (tt, h)
Cut-parts m (x ∷ xs) ys h = let r = Cut-parts m xs ys h.1 in ((h.0, r.0), r.1)

pub Spaced-append :
    (lo mid hi : ℕ) (xs ys : List Block)
    → Spaced lo xs mid
    → Spaced mid ys hi
    → Spaced lo (xs ++ ys) hi
Spaced-append lo mid hi [] [] h k = omega arith
Spaced-append lo mid hi [] (y ∷ ys) h k = (omega arith, k.1, k.2)
Spaced-append lo mid hi (x ∷ xs) ys h k =
    (h.0, h.1, Spaced-append (x.addr + x.size) mid hi xs ys h.2 k)

-- The parts around a block.
pub Spaced_around :
    (lo hi : ℕ) (xs ys : List Block) (b : Block)
    → Spaced lo (xs ++ (b ∷ ys)) hi
    → Spaced lo xs b.addr × (0 < b.size) × Spaced (b.addr + b.size) ys hi
Spaced_around lo hi [] ys b h = h
Spaced_around lo hi (x ∷ xs) ys b h =
    let r = Spaced_around (x.addr + x.size) hi xs ys b h.2 in ((h.0, h.1, r.0), r.1, r.2)

pub Spaced_weaken :
    (lo lo' hi hi' : ℕ) (xs : List Block)
    → Spaced lo xs hi
    → lo' ≤ lo
    → hi ≤ hi'
    → Spaced lo' xs hi'
Spaced_weaken lo lo' hi hi' [] h l k = omega arith
Spaced_weaken lo lo' hi hi' (x ∷ xs) h l k = (
  omega arith,
  h.1,
  Spaced_weaken (x.addr + x.size) (x.addr + x.size) hi hi' xs h.2 (omega arith) k,
)

pub Spaced-total : (lo hi : ℕ) (xs : List Block) → Spaced lo xs hi → lo + total xs ≤ hi
Spaced-total lo hi [] h = omega arith
Spaced-total lo hi (x ∷ xs) h = omega (arith, Spaced-total (x.addr + x.size) hi xs h.2)

pub above_low : (lo hi m : ℕ) (xs : List Block) → Spaced lo xs hi → hi ≤ m → above m xs ≡ 0
above_low lo hi m [] h k = refl
above_low lo hi m (x ∷ xs) h k =
    ground
      (arith, above_low (x.addr + x.size) hi m xs h.2 k, Spaced-total (x.addr + x.size) hi xs h.2)

pub above_high : (lo hi m : ℕ) (xs : List Block) → Spaced lo xs hi → m ≤ lo → above m xs ≡ total xs
above_high lo hi m [] h k = refl
above_high lo hi m (x ∷ xs) h k =
    ground (arith, above_high (x.addr + x.size) hi m xs h.2 (omega arith))

pub Cut-low : (lo hi m : ℕ) (xs : List Block) → Spaced lo xs hi → hi ≤ m → Cut m xs
Cut-low lo hi m [] h k = tt
Cut-low lo hi m (x ∷ xs) h k = (
  inl (omega (arith, Spaced-total (x.addr + x.size) hi xs h.2)),
  Cut-low (x.addr + x.size) hi m xs h.2 k,
)

pub Cut-high : (lo hi m : ℕ) (xs : List Block) → Spaced lo xs hi → m ≤ lo → Cut m xs
Cut-high lo hi m [] h k = tt
Cut-high lo hi m (x ∷ xs) h k =
    (inr (omega arith), Cut-high (x.addr + x.size) hi m xs h.2 (omega arith))

-- What lies below `m` fits below it.
pub total-le-above :
    (lo hi m : ℕ) (xs : List Block)
    → Spaced lo xs hi
    → Cut m xs
    → lo ≤ m
    → lo + total xs ≤ m + above m xs
total-le-above lo hi m [] h c l = omega arith
total-le-above lo hi m (x ∷ xs) h (inl below, c) l =
    ground (arith, total-le-above (x.addr + x.size) hi m xs h.2 c below)
total-le-above lo hi m (x ∷ xs) h (inr high, c) l =
    ground (arith, above_high (x.addr + x.size) hi m xs h.2)

-- With nothing from `m` on, the blocks end at `m`.
pub Spaced_squeeze :
    (lo hi m : ℕ) (xs : List Block)
    → Spaced lo xs hi
    → Cut m xs
    → above m xs ≡ 0
    → lo ≤ m
    → Spaced lo xs m
Spaced_squeeze lo hi m [] h c z l = l
Spaced_squeeze lo hi m (x ∷ xs) h (inl below, c) z l =
    (h.0, h.1, Spaced_squeeze (x.addr + x.size) hi m xs h.2 c (omega arith) below)
Spaced_squeeze lo hi m (x ∷ xs) h (inr high, c) z l = absurd (ground arith)

pub Spaced_none :
    (lo hi m : ℕ) (xs : List Block) → Spaced lo xs hi → hi ≤ lo → Spaced m xs m × (total xs ≡ 0)
Spaced_none lo hi m [] h k = (omega arith, refl)
Spaced_none lo hi m (x ∷ xs) h k = absurd (omega (arith, Spaced-total (x.addr + x.size) hi xs h.2))
