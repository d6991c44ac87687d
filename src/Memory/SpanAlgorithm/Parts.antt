-- ===== src/Memory/SpanAlgorithm/Parts.antt =====
-- span_algorithm.cpp: the parts of a span, in the order in which the function is called on them. The
-- loops run on fuel, and `none` means that it ran out.
use mathlib.Core.Option
use eagine_core.Common.{
  ℕ, zero, suc, ◌+◌, Bool, Option, none, some, List, [], ◌∷◌, ltb, if◌then◌else◌, length,
}
use eagine_core.Common.Integers.{pos}
use eagine_core.Memory.SpanAlgorithm.Slices.{slice, head, skip}
use eagine_core.Memory.SpanAlgorithm.Searches.{find_position}

module _ {ℓ} {A : Type ℓ} where
  -- The loop of `for_each_delimited`, with `tmp` left.
  unfoldable pub delimited : (A → A → Bool) → ℕ → List A → List A → Option (List (List A))
  delimited eq zero tmp delim = none
  delimited eq (suc fuel) tmp delim = elim (find_position eq tmp delim) [
    | none ↦ some (tmp ∷ [])
    | some p ↦
        Option.map (λ parts. head tmp (pos p) ∷ parts)
          (delimited eq fuel (skip tmp (pos (p + length delim))) delim)
  ]

  unfoldable pub for_each_delimited : (A → A → Bool) → List A → List A → Option (List (List A))
  for_each_delimited eq spn delim = delimited eq (length spn + 1) spn delim

  -- The loop of `for_each_chunk`, from `p` on.
  unfoldable pub chunks : ℕ → List A → ℕ → ℕ → Option (List (List A))
  chunks zero spn len p = none
  chunks (suc fuel) spn len p =
      let rest = chunks fuel spn len (p + len) in
      if ltb p (length spn)
      then Option.map (λ parts. slice spn (pos p) len ∷ parts) rest
      else some []

  unfoldable pub for_each_chunk : List A → ℕ → Option (List (List A))
  for_each_chunk spn len = chunks (length spn + 1) spn len 0
