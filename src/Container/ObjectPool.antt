-- ===== src/Container/ObjectPool.antt =====
-- source/modules/eagine/container/object_pool.cpp: `object_pool`. An object is known by its address, a
-- number, under which `_storage` owns it; `make` and `get` are given the address of the object that
-- they would construct.
pub mod Slots
pub mod Marks
pub mod Refines
mod Tests
use eagine_core.Common.{
  ℕ, ◌+◌, ◌*◌, ◌%◌, Bool, true, false, not, List, [], ◌∷◌, ◌++◌, Option, none, some, leb, ◌==◌,
  if◌then◌else◌, length,
}

-- The pair of the pointer, with the object behind it, and the flag.
pub record Slot {ℓ} (Object : Type ℓ) : Type ℓ where
  pub addr : ℕ
  pub object : Object
  pub used : Bool

pub record Pool {ℓ} (Object : Type ℓ) : Type ℓ where
  pub storage : List (Slot Object)
  pub count : ℕ

-- `++` and `--` on `std::size_t`
unfoldable pub incremented : ℕ → ℕ
incremented n = (n + 1) % 18446744073709551616

unfoldable pub decremented : ℕ → ℕ
decremented n = (n + 18446744073709551615) % 18446744073709551616

module _ {ℓ} {Object : Type ℓ} where
  unfoldable pub no_objects : Pool Object
  no_objects = record { storage = []; count = 0 }

  -- `std::find_if` with `_get_empty`, and the write through the iterator; a new slot at the end when
  -- there is none. With it comes the address.
  unfoldable pub fill_first :
      (Object → Object) → Slot Object → List (Slot Object) → List (Slot Object) × ℕ
  fill_first change new [] = (new ∷ [], new.addr)
  fill_first change new (s ∷ storage) =
      let rest = fill_first change new storage in
      if not s.used
      then (record s { object = change s.object; used = true } ∷ storage, s.addr)
      else (s ∷ rest.0, rest.1)

  unfoldable pub make : ℕ → Object → Pool Object → Pool Object × ℕ
  unfolding fill_first incremented
  make fresh object p =
      let filled =
        fill_first (λ _. object) (record { addr = fresh; object = object; used = true })
          p.storage in
      (record { storage = filled.0; count = incremented p.count }, filled.1)

  -- An object that is in store already is given as it was left.
  unfoldable pub get : ℕ → Object → Pool Object → Pool Object × ℕ
  unfolding fill_first incremented
  get fresh initial p =
      let filled =
        fill_first (λ o. o) (record { addr = fresh; object = initial; used = true }) p.storage in
      (record { storage = filled.0; count = incremented p.count }, filled.1)

  -- The search of `eat`, and the write of the flag.
  unfoldable pub mark_unused : ℕ → List (Slot Object) → Option (List (Slot Object))
  mark_unused addr [] = none
  mark_unused addr (s ∷ storage) =
      if s.addr == addr
      then some (record s { used = false } ∷ storage)
      else elim (mark_unused addr storage) [ none ↦ none | some rest ↦ some (s ∷ rest) ]

  unfoldable pub remove_unused : List (Slot Object) → List (Slot Object)
  remove_unused [] = []
  remove_unused (s ∷ storage) =
      let rest = remove_unused storage in if s.used then s ∷ rest else rest

  unfoldable pub eat : ℕ → Pool Object → Pool Object × Bool
  unfolding mark_unused remove_unused decremented
  eat addr p = elim (mark_unused addr p.storage) [
    | none ↦ (p, false)
    | some storage ↦
        let count = decremented p.count in
        if leb ((count * 2) % 18446744073709551616) (length storage)
        then (record { storage = remove_unused storage; count = count }, true)
        else (record { storage = storage; count = count }, true)
  ]

  unfoldable pub is_empty : Pool Object → Bool
  is_empty p = p.count == 0

  unfoldable pub size : Pool Object → ℕ
  size p = p.count

  unfoldable pub capacity : Pool Object → ℕ
  capacity p = length p.storage
