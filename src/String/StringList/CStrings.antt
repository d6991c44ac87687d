-- ===== src/String/StringList/CStrings.antt =====
-- list.cpp: `for_each_separated_c_str` and `split_c_str`. The string is its bytes with the terminating
-- zeros, and reads as 0 past them. A null pointer,
-- for which no loop is entered, is not among them. The loops run on fuel, and `none` means that it
-- ran out.
use mathlib.Core.Option
use eagine_core.Common.{
  ℕ, zero, suc, ◌+◌, ◌-◌, Option, none, some, List, [], ◌∷◌, ltb, ◌==◌, if◌then◌else◌, length,
  get_or, take, drop,
}
use eagine_core.String.StringList.{push_all}

-- `string_view(bgn, pos - bgn)`
unfoldable pub part : List ℕ → ℕ → ℕ → List ℕ
part str bgn at = take (at - bgn) (drop bgn str)

-- The loop for a separator that is not 0, from `pos` on.
unfoldable pub separated : ℕ → List ℕ → ℕ → ℕ → ℕ → Option (List (List ℕ))
unfolding part
separated zero str sep bgn at = none
separated (suc fuel) str sep bgn at =
    let c = get_or str at 0 in
    let next = separated fuel str sep (at + 1) (at + 1) in
    let further = separated fuel str sep bgn (at + 1) in
    if c == 0
    then some []
    else if c == sep
    then (if ltb bgn at then Option.map (λ parts. part str bgn at ∷ parts) next else some [])
    else further

-- The loop for the separator 0.
unfoldable pub zero_separated : ℕ → List ℕ → ℕ → ℕ → Option (List (List ℕ))
unfolding part
zero_separated zero str bgn at = none
zero_separated (suc fuel) str bgn at =
    let next = zero_separated fuel str (at + 1) (at + 1) in
    let further = zero_separated fuel str bgn (at + 1) in
    if get_or str at 0 == 0
    then (if ltb 1 (at - bgn) then Option.map (λ parts. part str bgn at ∷ parts) next else some [])
    else further

unfoldable pub for_each_separated_c_str : List ℕ → ℕ → Option (List (List ℕ))
unfolding separated zero_separated
for_each_separated_c_str str sep =
    if sep == 0
    then zero_separated (length str + 2) str 0 0
    else separated (length str + 2) str sep 0 0

-- `split_c_str`: the list, and the number of its elements.
unfoldable pub split_c_str : List ℕ → ℕ → Option (List ℕ × ℕ)
unfolding for_each_separated_c_str push_all
split_c_str str sep =
    Option.map (λ parts. (push_all [] parts, length parts)) (for_each_separated_c_str str sep)
