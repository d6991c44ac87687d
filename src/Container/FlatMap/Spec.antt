-- ===== src/Container/FlatMap/Spec.antt =====
-- What `flat_map` promises: keys in strictly rising order, and the value stored under a key.
use eagine_core.Common.{
  ℕ, ◌-◌, Bool, true, not, ◌&&◌, ◌||◌, Option, none, some, List, [], ◌∷◌, ◌==◌, if◌then◌else◌,
  length, take-length, ◌≡◌, refl, arith,
}
use eagine_core.Common.Order.{StrictWeakOrder}
use eagine_core.Container.FlatMap.Ops.{
  KeyOps, range, first_index, lower_bound, test_at, find_insert_pos, find,
}
use eagine_core.Container.FlatMap.Map.{insert_at, erase_at, do_emplace, emplace, erase}

-- The comparator is a strict weak order, and `==` of keys is its equivalence.
pub record KeyLaws {ℓ} {K : Type ℓ} (ops : KeyOps K) : Type ℓ where
  pub order : StrictWeakOrder ops.before
  pub same : (a b : K) → ops.eq a b ≡ (not (ops.before a b) && not (ops.before b a))

module _ {ℓ} {K : Type ℓ} (ops : KeyOps K) (laws : KeyLaws ops) where
  -- Keys that are `==` are before and after the same keys.
  pub eq_before : (i k j : K) → ops.eq i k ≡ true → ops.before i j ≡ ops.before k j
  eq_before i k j h =
      ground (arith, laws.same i k, laws.order.neg_trans i k j, laws.order.neg_trans k i j)

  pub eq_after : (i k j : K) → ops.eq i k ≡ true → ops.before j i ≡ ops.before j k
  eq_after i k j h =
      ground (arith, laws.same i k, laws.order.neg_trans j i k, laws.order.neg_trans j k i)

pub range_all {ℓ κ} : {K : Type ℓ} {V : Type κ} (xs : List (K × V)) → range xs 0 (length xs) ≡ xs
range_all xs = take-length (length xs - 0) xs (omega arith)

abbrev pub stop {ℓ} : {K : Type ℓ} → KeyOps K → K → K → Bool
stop ops key k = not (ops.before k key)

module _ {ℓ κ} {K : Type ℓ} {V : Type κ} (ops : KeyOps K) where
  -- Every key of the list is after `k`.
  abbrev pub Above : K → List (K × V) → Type 0
  Above k [] = Unit {0}
  Above k ((j, w) ∷ xs) = (ops.before k j ≡ true) × Above k xs

  -- The invariant of the storage.
  abbrev pub IsMap : List (K × V) → Type 0
  IsMap [] = Unit {0}
  IsMap ((k, v) ∷ xs) = Above k xs × IsMap xs

  -- The value under a key, found without any use of the order.
  abbrev pub lookup : K → List (K × V) → Option V
  lookup k [] = none
  lookup k ((j, w) ∷ xs) = if ops.eq k j then some w else lookup k xs

  -- Insertion as one pass.
  abbrev pub insert_sorted : K → V → List (K × V) → List (K × V)
  insert_sorted k v [] = (k, v) ∷ []
  insert_sorted k v ((j, w) ∷ xs) =
      if ops.before j k
      then (j, w) ∷ insert_sorted k v xs
      else if ops.eq k j
      then (j, w) ∷ xs
      else (k, v) ∷ (j, w) ∷ xs

  -- Erasure as one pass.
  abbrev pub erase_sorted : K → List (K × V) → List (K × V)
  erase_sorted k [] = []
  erase_sorted k ((j, w) ∷ xs) =
      if ops.before j k
      then (j, w) ∷ erase_sorted k xs
      else if ops.before k j
      then (j, w) ∷ xs
      else xs

  pub lower_bound_all :
      (xs : List (K × V)) (key : K)
      → lower_bound ops xs 0 (length xs) key ≡ first_index (stop ops key) xs
  unfolding lower_bound
  lower_bound_all xs key = rw (range_all xs) (omega arith)

  abbrev pub place : List (K × V) → K → ℕ × Bool
  place xs key =
      let p = first_index (stop ops key) xs in
      (p, p == length xs || not (test_at xs p (λ k. ops.eq key k)))

  pub place_lem : (xs : List (K × V)) (key : K) → find_insert_pos ops xs key ≡ place xs key
  unfolding find_insert_pos
  place_lem xs key = rw (lower_bound_all xs key)

  emplace_place :
      (xs : List (K × V)) (k : K) (v : V)
      → (do_emplace xs (place xs k) k v).0 ≡ insert_sorted k v xs
  unfolding do_emplace first_index test_at insert_at
  emplace_place [] k v = refl
  emplace_place ((j, w) ∷ xs) k v = ground (arith, emplace_place xs k v)

  -- `emplace` is the insertion in one pass.
  pub emplace-insert_sorted :
      (xs : List (K × V)) (k : K) (v : V) → (emplace ops xs k v).0 ≡ insert_sorted k v xs
  unfolding emplace
  emplace-insert_sorted xs k v = rw (place_lem xs k) (emplace_place xs k v)

  erase_place :
      (xs : List (K × V)) (k : K)
      → let p = first_index (stop ops k) xs in
        (if not (p == length xs) && not (test_at xs p (λ j. ops.before k j))
          then erase_at p xs
          else xs)
        ≡ erase_sorted k xs
  unfolding first_index test_at erase_at
  erase_place [] k = refl
  erase_place ((j, w) ∷ xs) k = ground (arith, erase_place xs k)

  pub erase-erase_sorted : (xs : List (K × V)) (k : K) → (erase ops xs k).0 ≡ erase_sorted k xs
  unfolding erase
  erase-erase_sorted xs k = rw (lower_bound_all xs k) (ground (arith, erase_place xs k))

  abbrev pub find_place : List (K × V) → K → ℕ
  find_place xs k =
      let p = first_index (stop ops k) xs in
      if not (p == length xs) && test_at xs p (λ j. ops.before k j) then length xs else p

  pub find_lem : (xs : List (K × V)) (k : K) → find ops xs 0 (length xs) k ≡ find_place xs k
  unfolding find
  find_lem xs k = rw (lower_bound_all xs k)
