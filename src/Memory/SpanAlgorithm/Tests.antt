-- ===== src/Memory/SpanAlgorithm/Tests.antt =====
-- span_algorithm.cpp: runs over spans of numbers, and witnesses.
use eagine_core.Common.{ℕ, Bool, length, some, List, [], ◌∷◌, ◌==◌, ==_iff, ◌≡◌, arith}
use eagine_core.Memory.SpanAlgorithm.Searches.{contains, split_by_first, split_by_last}
use eagine_core.Memory.SpanAlgorithm.Parts.{for_each_delimited}
use eagine_core.Memory.SpanAlgorithm.Prefixes.{IsEquality}
use eagine_core.Memory.SpanAlgorithm.Positions.{IsFirst, IsLast}
use eagine_core.Memory.SpanAlgorithm.Splits.{
  IsSplit, joined, AreCuts, split_lem, for_each_delimited_lem,
}

abbrev same : ℕ → ℕ → Bool
same a b = a == b

same-IsEquality : IsEquality same
same-IsEquality a b = ==_iff a b

abbrev list : List ℕ
list = 1 ∷ 0 ∷ 2 ∷ 3 ∷ 0 ∷ 4 ∷ []

abbrev comma : List ℕ
comma = 0 ∷ []

split_lem_example :
    IsSplit list comma
      (λ p. IsFirst same list comma 0 (length list) (some p))
      (contains same list comma)
      (split_by_first same list comma)
    × IsSplit list comma
        (λ p. IsLast same list comma (length list) (some p))
        (contains same list comma)
        (split_by_last same list comma)
split_lem_example = split_lem same same-IsEquality list comma

for_each_delimited_lem_example :
    (part : List ℕ) × (parts : List (List ℕ)) × (for_each_delimited same list comma
      ≡ some (part ∷ parts))
    × (joined comma part parts ≡ list)
    × AreCuts same comma part parts
for_each_delimited_lem_example =
    for_each_delimited_lem same same-IsEquality list comma (omega arith)
