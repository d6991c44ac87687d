-- ===== src/Memory/SpanAlgorithm/Positions.antt =====
-- span_algorithm.cpp: what the searches find.
use eagine_core.Common.{
  ℕ, zero, suc, ◌+◌, ◌≤◌, ◌<◌, Bool, true, false, Option, none, some, List, ◌==◌, length,
  Bool-cases, inl, inr, ◌≡◌, refl, arith,
}
use eagine_core.Common.Integers.{pos}
use eagine_core.Memory.SpanAlgorithm.Slices.{skip, starts_with}
use eagine_core.Memory.SpanAlgorithm.Searches.{
  contains, contains_from, find_position, find_position_from, reverse_find_position,
  reverse_find_below,
}

module _ {ℓ} {A : Type ℓ} (eq : A → A → Bool) (spn what : List A) where
  abbrev found_at : ℕ → Bool
  found_at i = starts_with eq (skip spn (pos i)) what

  -- `p` is the first position in [i, i + n) at which `what` stands, `none` if there is no such one.
  abbrev pub IsFirst : ℕ → ℕ → Option ℕ → Type 0
  IsFirst i n none = (j : ℕ) → i ≤ j → j < i + n → found_at j ≡ false
  IsFirst i n (some p) =
      (p < i + n) × (found_at p ≡ true) × ((j : ℕ) → i ≤ j → j < p → found_at j ≡ false)

  abbrev pub IsLast : ℕ → Option ℕ → Type 0
  IsLast n none = (j : ℕ) → j < n → found_at j ≡ false
  IsLast n (some p) = (p < n) × (found_at p ≡ true) × ((j : ℕ) → p < j → j < n → found_at j ≡ false)

  not_here :
      (i k : ℕ)
      → found_at i ≡ false
      → ((j : ℕ) → i + 1 ≤ j → j < k → found_at j ≡ false)
      → (j : ℕ) → i ≤ j
      → j < k
      → found_at j ≡ false
  not_here i k away later j lo hi = elim (Bool-cases (j == i)) [
    | inl same ↦ let e : j ≡ i = ground arith in rw e away
    | inr other ↦ later j (ground arith) hi
  ]

  IsFirst-step :
      (n i : ℕ) (o : Option ℕ) → found_at i ≡ false → IsFirst (i + 1) n o → IsFirst i (suc n) o
  IsFirst-step n i none away f =
      λ j lo hi. not_here i (i + suc n) away (λ j lo hi. f j lo (omega arith)) j lo hi
  IsFirst-step n i (some p) away f = (omega (arith, f.0), f.1, not_here i p away f.2)

  IsLast-step : (n : ℕ) (o : Option ℕ) → found_at n ≡ false → IsLast n o → IsLast (suc n) o
  IsLast-step n none away f = λ j h. elim (Bool-cases (j == n)) [
    | inl same ↦ let e : j ≡ n = ground arith in rw e away
    | inr other ↦ f j (ground arith)
  ]
  IsLast-step n (some p) away f = (
    omega (arith, f.0),
    f.1,
    λ j lo hi. elim (Bool-cases (j == n)) [
      | inl same ↦ let e : j ≡ n = ground arith in rw e away
      | inr other ↦ f.2 j lo (ground arith)
    ],
  )

  find_position_from-IsFirst : (n i : ℕ) → IsFirst i n (find_position_from eq n i spn what)
  unfolding find_position_from
  find_position_from-IsFirst zero i = λ j lo hi. absurd (omega arith)
  find_position_from-IsFirst (suc n) i = elim (Bool-cases (found_at i)) [
    | inl here ↦ rw here (omega arith, here, λ j lo hi. absurd (omega arith))
    | inr away ↦ rw away (
        IsFirst-step n i (find_position_from eq n (i + 1) spn what) away
          (find_position_from-IsFirst n (i + 1)))
  ]

  reverse_find_below-IsLast : (n : ℕ) → IsLast n (reverse_find_below eq n spn what)
  unfolding reverse_find_below
  reverse_find_below-IsLast zero = λ j h. absurd (omega arith)
  reverse_find_below-IsLast (suc n) = elim (Bool-cases (found_at n)) [
    | inl here ↦ rw here (omega arith, here, λ j lo hi. absurd (omega arith))
    | inr away ↦
        rw away
          (IsLast-step n (reverse_find_below eq n spn what) away (reverse_find_below-IsLast n))
  ]

  contains_from_lem :
      (n i : ℕ)
      → contains_from eq n i spn what
        ≡ elim (find_position_from eq n i spn what) [ none ↦ false | some p ↦ true ]
  unfolding contains_from find_position_from
  contains_from_lem zero i = refl
  contains_from_lem (suc n) i = elim (Bool-cases (found_at i)) [
    | inl here ↦ rw here refl
    | inr away ↦ rw (away, contains_from_lem n (i + 1)) refl
  ]

  -- find_position is the first position in a span at which it goes on with what,
  -- reverse_find_position the last one, and contains is true exactly when find_position finds one.
  pub find_position_lem :
      IsFirst 0 (length spn) (find_position eq spn what)
      × IsLast (length spn) (reverse_find_position eq spn what)
      × (contains eq spn what ≡ elim (find_position eq spn what) [ none ↦ false | some p ↦ true ])
  unfolding find_position reverse_find_position contains
  find_position_lem = (
    find_position_from-IsFirst (length spn) 0,
    reverse_find_below-IsLast (length spn),
    contains_from_lem (length spn) 0,
  )
