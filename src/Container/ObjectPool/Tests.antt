-- ===== src/Container/ObjectPool/Tests.antt =====
-- Runs of object_pool.cpp, and the theorems at concrete inputs.
use eagine_core.Common.{ℕ, ◌+◌, true, false, [], ◌∷◌, none, some, ◌≡◌, ◌≢◌, refl, arith}
use eagine_core.Container.ObjectPool.{Pool, no_objects, make, eat, size}
use eagine_core.Container.ObjectPool.Slots.{held, used_count}
use eagine_core.Container.ObjectPool.Refines.{IsPool, no_objects-IsPool, make_lem, eat_lem}

abbrev one_made : Pool ℕ
one_made = record { storage = record { addr = 100; object = 7; used = true } ∷ []; count = 1 }

abbrev two_made : Pool ℕ
two_made = record {
  storage =
      record { addr = 100; object = 7; used = true }
      ∷ record { addr = 200; object = 8; used = true }
      ∷ [];
  count = 2;
}

makes : make 200 8 (make 100 7 no_objects).0 ≡ (two_made, 200)
unfolding make no_objects
makes = refl

eats_unknown : eat 300 two_made ≡ (two_made, false)
unfolding eat
eats_unknown = refl

abbrev four_made : Pool ℕ
four_made = record {
  storage =
      record { addr = 100; object = 7; used = true }
      ∷ record { addr = 200; object = 8; used = true }
      ∷ record { addr = 300; object = 9; used = true }
      ∷ record { addr = 400; object = 5; used = true }
      ∷ [];
  count = 4;
}

-- An object that is given back twice is counted twice: three objects are still handed out.
eats_twice :
    ((eat 100 (eat 100 four_made).0).1 ≡ true)
    × (size (eat 100 (eat 100 four_made).0).0 ≡ 2)
    × (used_count (eat 100 (eat 100 four_made).0).0.storage ≡ 3)
unfolding eat size
eats_twice = (refl, refl, refl)

one_made-IsPool : IsPool one_made
unfolding make no_objects
one_made-IsPool = (make_lem 100 7 no_objects no_objects-IsPool tt (omega arith)).0

make_lem_example :
    IsPool (make 200 8 one_made).0
    × (size (make 200 8 one_made).0 ≡ size one_made + 1)
    × (held one_made.storage (make 200 8 one_made).1 ≡ none)
    × (held (make 200 8 one_made).0.storage (make 200 8 one_made).1 ≡ some 8)
    × ((a : ℕ)
        → a ≢ (make 200 8 one_made).1
        → held (make 200 8 one_made).0.storage a ≡ held one_made.storage a)
make_lem_example = make_lem 200 8 one_made one_made-IsPool (omega arith, tt) (omega arith)

eat_lem_example :
    IsPool (eat 100 one_made).0
    × ((eat 100 one_made).1 ≡ true)
    × (size (eat 100 one_made).0 + 1 ≡ size one_made)
    × (held (eat 100 one_made).0.storage 100 ≡ none)
    × ((b : ℕ) → b ≢ 100 → held (eat 100 one_made).0.storage b ≡ held one_made.storage b)
eat_lem_example = eat_lem 100 one_made one_made-IsPool cc
