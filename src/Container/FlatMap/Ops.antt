-- ===== src/Container/FlatMap/Ops.antt =====
-- flat_map.cpp, `flat_map_ops` and the positions of insertion. The storage is a list of key/value
-- pairs and an iterator is an index into it, the end being the length.
use mathlib.Core.Option
use eagine_core.Common.{
  ℕ, suc, ◌+◌, ◌-◌, Bool, true, false, not, ◌&&◌, ◌||◌, Option, none, some, List, [], ◌∷◌, ◌==◌,
  if◌then◌else◌, length, get_elem?, take, drop,
}

-- The comparator `Cmp` and the `==` of keys, through which `are_equal` compares them.
pub record KeyOps {ℓ} (K : Type ℓ) : Type ℓ where
  pub before : K → K → Bool
  pub eq : K → K → Bool

module _ {ℓ κ} {K : Type ℓ} {V : Type κ} where
  -- A test of the pair at an index; an index past the end is never asked for.
  unfoldable pub test_at : List (K × V) → ℕ → (K → Bool) → Bool
  test_at xs i p = elim (get_elem? xs i) [ none ↦ false | some (k, v) ↦ p k ]

  -- The first index of a range at which `stop` holds of the key.
  unfoldable pub first_index : (K → Bool) → List (K × V) → ℕ
  first_index stop [] = 0
  first_index stop ((k, v) ∷ xs) = if stop k then 0 else suc (first_index stop xs)

  abbrev pub range : List (K × V) → ℕ → ℕ → List (K × V)
  range xs b e = take (e - b) (drop b xs)

module _ {ℓ κ} {K : Type ℓ} {V : Type κ} (ops : KeyOps K) where
  -- `std::lower_bound` and `std::upper_bound` over [b, e) of the storage.
  unfoldable pub lower_bound : List (K × V) → ℕ → ℕ → K → ℕ
  lower_bound xs b e key = b + first_index (λ k. not (ops.before k key)) (range xs b e)

  unfoldable pub upper_bound : List (K × V) → ℕ → ℕ → K → ℕ
  upper_bound xs b e key = b + first_index (λ k. ops.before key k) (range xs b e)

  unfoldable pub equal_range : List (K × V) → ℕ → ℕ → K → ℕ × ℕ
  equal_range xs b e key = (lower_bound xs b e key, upper_bound xs b e key)

  unfoldable pub find : List (K × V) → ℕ → ℕ → K → ℕ
  find xs b e key =
      let p = lower_bound xs b e key in
      if not (p == e) && test_at xs p (λ k. ops.before key k) then e else p

  -- `at`: `none` is the exception `std::out_of_range`.
  unfoldable pub at : List (K × V) → K → Option V
  at xs key =
      let p = find xs 0 (length xs) key in
      if p == length xs then none else Option.map (λ r. r.1) (get_elem? xs p)

  unfoldable pub contains : List (K × V) → K → Bool
  contains xs key = not (find xs 0 (length xs) key == length xs)

  -- `_find_insert_pos(k)`
  unfoldable pub find_insert_pos : List (K × V) → K → ℕ × Bool
  find_insert_pos xs key =
      let p = lower_bound xs 0 (length xs) key in
      (p, p == length xs || not (test_at xs p (λ k. ops.eq key k)))

  unfoldable pub last_before : List (K × V) → K → Bool
  last_before xs key = test_at xs (length xs - 1) (λ k. ops.before k key)

  -- The tail of `_find_insert_pos(p, k)`, for `p` that is not the end.
  unfoldable pub hint_inside : List (K × V) → ℕ → K → ℕ × Bool
  hint_inside xs p key =
      if test_at xs p (λ k. ops.eq key k)
      then (p, false)
      else if test_at xs p (λ k. ops.before key k)
      then ((if not (p == 0) then lower_bound xs 0 p key else p), true)
      else (lower_bound xs p (length xs) key, true)

  -- `_find_insert_pos(p, k)`
  unfoldable pub find_insert_pos_hint : List (K × V) → ℕ → K → ℕ × Bool
  find_insert_pos_hint xs p key =
      if p == length xs
      then (if length xs == 0 || last_before xs key
          then (p, true)
          else hint_inside xs (lower_bound xs 0 (length xs) key) key)
      else hint_inside xs p key
