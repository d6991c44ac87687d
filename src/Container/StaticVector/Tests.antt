-- ===== src/Container/StaticVector/Tests.antt =====
-- Runs of static_vector.cpp.
use eagine_core.Common.{ℕ, ◌≡◌, refl, [], ◌∷◌, some, none, ◌>>=◌, ◌-◌}
use eagine_core.Container.StaticVector.Code.{
  StaticVector, insert_range, erase_between, erase_at, resize, pop_back, clear, available, max_size,
  element_at,
}

abbrev three_of_five : StaticVector ℕ
three_of_five = record { elems = 1 ∷ 2 ∷ 3 ∷ 0 ∷ 0 ∷ []; used = 3 }

inserted :
    insert_range 1 (8 ∷ 9 ∷ []) three_of_five
    ≡ some (record { elems = 1 ∷ 8 ∷ 9 ∷ 2 ∷ 3 ∷ []; used = 5 })
unfolding insert_range
inserted = refl

-- The element behind the ones in use is the old one, and a larger size brings it back.
stale :
    (erase_at 0 0 three_of_five >>= λ v. resize 0 3 v)
    ≡ some (record { elems = 2 ∷ 3 ∷ 3 ∷ 0 ∷ 0 ∷ []; used = 3 })
unfolding erase_at erase_between resize
stale = refl

-- pop_back resets the element.
popped :
    (pop_back 0 three_of_five >>= λ v. resize 0 3 v)
    ≡ some (record { elems = 1 ∷ 2 ∷ 0 ∷ 0 ∷ 0 ∷ []; used = 3 })
unfolding pop_back resize
popped = refl

free : available three_of_five ≡ max_size three_of_five - 3
unfolding available max_size
free = refl

cleared : clear 0 three_of_five ≡ record { elems = 0 ∷ 0 ∷ 0 ∷ 0 ∷ 0 ∷ []; used = 0 }
unfolding clear
cleared = refl

outside : element_at three_of_five 3 ≡ none
unfolding element_at
outside = refl
