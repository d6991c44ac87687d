-- ===== src/Container/FlatMap/Tests.antt =====
-- Runs of flat_map.cpp over `std::less` of numbers, and the theorems at concrete inputs.
use mathlib.Core.Option.{get_or}
use eagine_core.Common.{ℕ, true, false, ltb, ◌==◌, List, [], ◌∷◌, none, some, ◌≡◌, ◌≢◌, refl, arith}
use eagine_core.Container.FlatMap.Ops.{
  KeyOps, first_index, lower_bound, find, test_at, at, find_insert_pos, find_insert_pos_hint,
  hint_inside,
}
use eagine_core.Container.FlatMap.Map.{
  insert_at, do_emplace, emplace, emplace_hint, erase, subscript,
}
use eagine_core.Container.FlatMap.Spec.{KeyLaws, IsMap}
use eagine_core.Container.FlatMap.Lookup.{at-lookup, lookup-emplace, lookup-erase}
use eagine_core.Container.FlatMap.Hint.{emplace_hint_duplicates}
use eagine_core.Container.FlatMap.Results.{subscript_lem}

abbrev less_ops : KeyOps ℕ
less_ops = record { before = ltb; eq = λ a b. a == b }

less_laws : KeyLaws less_ops
less_laws = record {
  order = record { asym = λ a b h. ground arith; neg_trans = λ a b c h k. ground arith };
  same = λ a b. ground arith;
}

abbrev three : List (ℕ × ℕ)
three = (1, 10) ∷ (3, 30) ∷ (5, 50) ∷ []

three-IsMap : IsMap less_ops three
three-IsMap = ground arith

emplaces : emplace less_ops three 4 40 ≡ ((1, 10) ∷ (3, 30) ∷ (4, 40) ∷ (5, 50) ∷ [], (2, true))
unfolding emplace do_emplace find_insert_pos lower_bound first_index test_at insert_at
emplaces = refl

-- With the first element for a hint the key 3 is stored a second time.
hint_doubles : emplace_hint less_ops three 0 3 33 ≡ ((1, 10) ∷ (3, 33) ∷ (3, 30) ∷ (5, 50) ∷ [], 1)
unfolding emplace_hint do_emplace find_insert_pos_hint hint_inside lower_bound first_index test_at
    insert_at
hint_doubles = refl

found_three : at less_ops three 3 ≡ some 30
unfolding at find lower_bound first_index test_at
found_three = refl

found_four : at less_ops three 4 ≡ none
unfolding at find lower_bound first_index test_at
found_four = refl

at-lookup_example : at less_ops three 3 ≡ some 30
at-lookup_example = at-lookup less_ops less_laws three 3 three-IsMap

lookup-emplace_example :
    at less_ops (emplace less_ops three 4 40).0 4 ≡ some (get_or (at less_ops three 4) 40)
lookup-emplace_example = lookup-emplace less_ops less_laws 4 4 40 three three-IsMap

lookup-erase_example : at less_ops (erase less_ops three 3).0 3 ≡ none
lookup-erase_example = lookup-erase less_ops less_laws 3 3 three three-IsMap

first_differs : test_at three 0 (λ j. 3 == j) ≡ false
unfolding test_at
first_differs = refl

three_stored : at less_ops three 3 ≢ none
unfolding at find lower_bound first_index test_at
three_stored e = cc e

emplace_hint_duplicates_example : ¬ IsMap less_ops (emplace_hint less_ops three 0 3 33).0
emplace_hint_duplicates_example =
    emplace_hint_duplicates less_ops less_laws three 0 3 33 three-IsMap (omega arith) first_differs
      three_stored

subscript_lem_example :
    let (xs', r) = subscript less_ops 0 three 4 in
    (r ≡ some (get_or (at less_ops three 4) 0))
    × IsMap less_ops xs'
    × (at less_ops xs' 3 ≡ at less_ops three 3)
subscript_lem_example = subscript_lem less_ops less_laws 0 three 4 3 three-IsMap
