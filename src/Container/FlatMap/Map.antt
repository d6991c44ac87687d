-- ===== src/Container/FlatMap/Map.antt =====
-- flat_map.cpp, the operations of `flat_map`. One that changes the map returns the new storage beside
-- its result.
use mathlib.Core.Option
use eagine_core.Common.{
  ℕ, zero, suc, ◌+◌, Bool, not, ◌&&◌, Option, List, [], ◌∷◌, ◌++◌, ◌==◌, if◌then◌else◌, length,
  get_elem?, take, drop,
}
use eagine_core.Container.FlatMap.Ops.{
  KeyOps, test_at, lower_bound, find_insert_pos, find_insert_pos_hint,
}

-- `Container::insert(pos, x)` and `Container::erase(pos)` of the underlying sequence.
module _ {ℓ} {A : Type ℓ} where
  unfoldable pub insert_at : ℕ → A → List A → List A
  insert_at zero x xs = x ∷ xs
  insert_at (suc i) x [] = x ∷ []
  insert_at (suc i) x (y ∷ xs) = y ∷ insert_at i x xs

  unfoldable pub erase_at : ℕ → List A → List A
  erase_at i [] = []
  erase_at zero (x ∷ xs) = xs
  erase_at (suc i) (x ∷ xs) = x ∷ erase_at i xs

module _ {ℓ κ} {K : Type ℓ} {V : Type κ} where
  -- `_do_emplace` and `_do_insert`: the value is stored only if the position asks for it.
  unfoldable pub do_emplace : List (K × V) → ℕ × Bool → K → V → List (K × V) × (ℕ × Bool)
  do_emplace xs ip key v = if ip.1 then (insert_at ip.0 (key, v) xs, ip) else (xs, ip)

  -- `erase(f, t)`
  unfoldable pub erase_range : List (K × V) → ℕ → ℕ → List (K × V)
  erase_range xs f t = take f xs ++ drop t xs

  -- `erase_if(predicate)`: how many were erased.
  unfoldable pub erase_if : (K × V → Bool) → List (K × V) → List (K × V) × ℕ
  erase_if p [] = ([], 0)
  erase_if p (x ∷ xs) =
      let (rest, n) = erase_if p xs in if p x then (rest, n + 1) else (x ∷ rest, n)

module _ {ℓ κ} {K : Type ℓ} {V : Type κ} (ops : KeyOps K) where
  unfoldable pub emplace : List (K × V) → K → V → List (K × V) × (ℕ × Bool)
  emplace xs key v = do_emplace xs (find_insert_pos ops xs key) key v

  unfoldable pub try_emplace : List (K × V) → K → V → List (K × V) × (ℕ × Bool)
  try_emplace xs key v = do_emplace xs (find_insert_pos ops xs key) key v

  unfoldable pub insert : List (K × V) → K × V → List (K × V) × (ℕ × Bool)
  insert xs value = do_emplace xs (find_insert_pos ops xs value.0) value.0 value.1

  -- `operator[]`: a missing key gets a value-initialised `Val`; the result is the value referred to.
  unfoldable pub subscript : V → List (K × V) → K → List (K × V) × Option V
  subscript fresh xs key =
      let (xs', ip) = emplace xs key fresh in (xs', Option.map (λ r. r.1) (get_elem? xs' ip.0))

  unfoldable pub emplace_hint : List (K × V) → ℕ → K → V → List (K × V) × ℕ
  emplace_hint xs p key v =
      let (xs', ip) = do_emplace xs (find_insert_pos_hint ops xs p key) key v in (xs', ip.0)

  unfoldable pub insert_hint : List (K × V) → ℕ → K × V → List (K × V) × ℕ
  insert_hint xs p value =
      let (xs', ip) = do_emplace xs (find_insert_pos_hint ops xs p value.0) value.0 value.1 in
      (xs', ip.0)

  -- `erase(key)`: how many were erased.
  unfoldable pub erase : List (K × V) → K → List (K × V) × ℕ
  erase xs key =
      let p = lower_bound ops xs 0 (length xs) key in
      if not (p == length xs) && not (test_at xs p (λ k. ops.before key k))
      then (erase_at p xs, 1)
      else (xs, 0)
