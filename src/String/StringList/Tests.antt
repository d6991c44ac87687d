-- ===== src/String/StringList/Tests.antt =====
-- Runs of list.cpp, and the theorems at concrete inputs.
use mathlib.Core.List.{reverse}
use eagine_core.Common.{ℕ, ◌+◌, true, false, none, some, List, [], ◌∷◌, length, ◌≡◌, refl, arith}
use eagine_core.String.StringList.{
  front_value, push_all, for_each_elem, element_count, rev_for_each, split, join,
}
use eagine_core.String.StringList.CStrings.{for_each_separated_c_str, split_c_str}
use eagine_core.String.StringList.Iterators.{iterate, rev_iterate}
use eagine_core.String.StringList.Iterated.{iterate-push_all}
use eagine_core.String.StringList.Backward.{rev_for_each-push_all}
use eagine_core.String.StringList.Join.{join-split}

-- "ab", "" and "c"
abbrev ab : List ℕ
ab = 97 ∷ 98 ∷ []

abbrev three : List (List ℕ)
three = ab ∷ [] ∷ (99 ∷ []) ∷ []

abbrev comma : List ℕ
comma = 44 ∷ []

pushed : push_all [] three ≡ 2 ∷ 97 ∷ 98 ∷ 2 ∷ 0 ∷ 0 ∷ 1 ∷ 99 ∷ 1 ∷ []
unfolding push_all
pushed = refl

first_value : front_value (push_all [] three) ≡ ab
unfolding front_value push_all
first_value = refl

joined_three : join (push_all [] three) comma true ≡ some (97 ∷ 98 ∷ 44 ∷ 44 ∷ 99 ∷ 44 ∷ [])
unfolding join push_all
joined_three = refl

-- Bytes that start with none of a code are a list that the loop does not leave.
stuck : for_each_elem (128 ∷ 128 ∷ []) ≡ none
unfolding for_each_elem
stuck = refl

rev_for_each-push_all_example : rev_for_each (push_all [] three) ≡ some (reverse three)
rev_for_each-push_all_example =
    rev_for_each-push_all three (omega arith, (omega arith, (omega arith, tt)))

join-split_example :
    (list : List ℕ) × (n : ℕ) × (split (97 ∷ 44 ∷ 98 ∷ []) comma ≡ some (list, n))
    × (element_count list ≡ some n)
    × (join list comma false ≡ some (97 ∷ 44 ∷ 98 ∷ []))
join-split_example = join-split (97 ∷ 44 ∷ 98 ∷ []) comma (omega arith) (omega arith)

iterate-push_all_example :
    let list = push_all [] three in
    (iterate (length list + 1) list 0 ≡ some three)
    × (rev_iterate (length list + 1) list (length list) ≡ some (reverse three))
iterate-push_all_example = iterate-push_all three (omega arith, (omega arith, (omega arith, tt)))

-- "ab,c": what stands behind the last separator is lost.
last_part_lost : split_c_str (97 ∷ 98 ∷ 44 ∷ 99 ∷ 0 ∷ []) 44 ≡ some (2 ∷ 97 ∷ 98 ∷ 2 ∷ [], 1)
unfolding split_c_str
last_part_lost = refl

-- The strings "ab", "c" and "de" behind one another: one of a single character ends the loop.
short_part_ends :
    for_each_separated_c_str (97 ∷ 98 ∷ 0 ∷ 99 ∷ 0 ∷ 100 ∷ 101 ∷ 0 ∷ 0 ∷ []) 0 ≡ some (ab ∷ [])
unfolding for_each_separated_c_str
short_part_ends = refl
