-- ===== src/Memory/SpanAlgorithm/Searches.antt =====
-- span_algorithm.cpp: searches. Each loop is over the positions from `i` on, of which `n` are left.
use mathlib.Core.Option.{get_or}
use eagine_core.Common.{
  ℕ, zero, suc, ◌+◌, Bool, true, false, Option, none, some, List, [], if◌then◌else◌, length,
  get_elem?,
}
use eagine_core.Common.Integers.{pos}
use eagine_core.Memory.SpanAlgorithm.Slices.{head, skip, starts_with}

module _ {ℓ} {A : Type ℓ} where
  unfoldable pub find_element_if_from : (A → Bool) → ℕ → ℕ → List A → Option ℕ
  find_element_if_from predicate zero i spn = none
  find_element_if_from predicate (suc n) i spn =
      let rest = find_element_if_from predicate n (i + 1) spn in
      elim (get_elem? spn i) [ none ↦ none | some x ↦ if predicate x then some i else rest ]

  unfoldable pub find_element_if : List A → (A → Bool) → Option ℕ
  find_element_if spn predicate = find_element_if_from predicate (length spn) 0 spn

  unfoldable pub skip_until : List A → (A → Bool) → List A
  skip_until spn predicate = elim (find_element_if spn predicate) [
    | none ↦ spn
    | some found ↦ skip spn (pos found)
  ]

  unfoldable pub take_until : List A → (A → Bool) → List A
  take_until spn predicate = elim (find_element_if spn predicate) [
    | none ↦ spn
    | some found ↦ head spn (pos found)
  ]

module _ {ℓ} {A : Type ℓ} (eq : A → A → Bool) where
  unfoldable pub contains_from : ℕ → ℕ → List A → List A → Bool
  contains_from zero i spn what = false
  contains_from (suc n) i spn what =
      let rest = contains_from n (i + 1) spn what in
      if starts_with eq (skip spn (pos i)) what then true else rest

  unfoldable pub contains : List A → List A → Bool
  contains spn what = contains_from (length spn) 0 spn what

  unfoldable pub find_position_from : ℕ → ℕ → List A → List A → Option ℕ
  find_position_from zero i spn what = none
  find_position_from (suc n) i spn what =
      let rest = find_position_from n (i + 1) spn what in
      if starts_with eq (skip spn (pos i)) what then some i else rest

  unfoldable pub find_position : List A → List A → Option ℕ
  find_position spn what = find_position_from (length spn) 0 spn what

  -- The loop of `reverse_find_position`, for the positions below `n`.
  unfoldable pub reverse_find_below : ℕ → List A → List A → Option ℕ
  reverse_find_below zero spn what = none
  reverse_find_below (suc n) spn what =
      let rest = reverse_find_below n spn what in
      if starts_with eq (skip spn (pos n)) what then some n else rest

  unfoldable pub reverse_find_position : List A → List A → Option ℕ
  reverse_find_position spn what = reverse_find_below (length spn) spn what

  unfoldable pub find : List A → List A → List A
  find where_ what = elim (find_position where_ what) [ none ↦ [] | some p ↦ skip where_ (pos p) ]

  unfoldable pub slice_before : List A → List A → List A
  slice_before spn what = head spn (pos (get_or (find_position spn what) (length spn)))

  unfoldable pub slice_after : List A → List A → List A
  slice_after spn what = skip spn (pos (get_or (find_position spn what) (length spn) + length what))

  unfoldable pub split_by_first : List A → List A → List A × List A
  split_by_first spn what =
      let p = get_or (find_position spn what) (length spn) in
      (head spn (pos p), skip spn (pos (p + length what)))

  unfoldable pub slice_before_last : List A → List A → List A
  slice_before_last spn what = head spn (pos (get_or (reverse_find_position spn what) (length spn)))

  unfoldable pub slice_after_last : List A → List A → List A
  slice_after_last spn what =
      skip spn (pos (get_or (reverse_find_position spn what) (length spn) + length what))

  unfoldable pub split_by_last : List A → List A → List A × List A
  split_by_last spn what =
      let p = get_or (reverse_find_position spn what) (length spn) in
      (head spn (pos p), skip spn (pos (p + length what)))

  unfoldable pub has_element_from : ℕ → ℕ → List A → A → Bool
  has_element_from zero i spn what = false
  has_element_from (suc n) i spn what =
      let rest = has_element_from n (i + 1) spn what in
      elim (get_elem? spn i) [ none ↦ false | some x ↦ if eq x what then true else rest ]

  unfoldable pub has_element : List A → A → Bool
  has_element spn what = has_element_from (length spn) 0 spn what

  unfoldable pub find_element_from : ℕ → ℕ → List A → A → Option ℕ
  find_element_from zero i spn what = none
  find_element_from (suc n) i spn what =
      let rest = find_element_from n (i + 1) spn what in
      elim (get_elem? spn i) [ none ↦ none | some x ↦ if eq x what then some i else rest ]

  unfoldable pub find_element : List A → A → Option ℕ
  find_element spn what = find_element_from (length spn) 0 spn what

  unfoldable pub split_by_first_element : List A → A → List A × List A
  split_by_first_element spn what =
      let p = get_or (find_element spn what) (length spn) in
      (head spn (pos p), skip spn (pos (p + 1)))
