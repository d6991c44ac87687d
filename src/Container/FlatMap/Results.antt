-- ===== src/Container/FlatMap/Results.antt =====
-- flat_map.cpp: what `emplace`, `erase`, `contains` and `operator[]` return.
use eagine_core.Common.{
  ℕ, Bool, true, false, not, ◌&&◌, some, List, [], ◌∷◌, ◌==◌, if◌then◌else◌, length, get_elem?, ◌≡◌,
  refl, arith,
}
use mathlib.Core.Option
use mathlib.Core.Option.{get_or}
use eagine_core.Container.FlatMap.Ops.{KeyOps, at, contains, first_index, test_at}
use eagine_core.Container.FlatMap.Map.{insert_at, do_emplace, emplace, erase, subscript}
use eagine_core.Container.FlatMap.Spec.{
  KeyLaws, IsMap, lookup, stop, place, place_lem, find_place, find_lem, lower_bound_all,
}
use eagine_core.Container.FlatMap.Lookup.{
  at-lookup, lookup-Above, Above-trans, emplace-IsMap, lookup-emplace,
}

module _ {ℓ κ} {K : Type ℓ} {V : Type κ} (ops : KeyOps K) (laws : KeyLaws ops) where
  place_flag : (xs : List (K × V)) (k : K) → (place ops xs k).1 ≡ (find_place ops xs k == length xs)
  unfolding first_index test_at
  place_flag [] k = refl
  place_flag ((j, w) ∷ xs) k = ground (arith, place_flag xs k, laws.same k j)

  erase_flag :
      (xs : List (K × V)) (k : K)
      → let p = first_index (stop ops k) xs in
        (not (p == length xs) && not (test_at xs p (λ j. ops.before k j)))
        ≡ not (find_place ops xs k == length xs)
  unfolding first_index test_at
  erase_flag [] k = refl
  erase_flag ((j, w) ∷ xs) k = ground (arith, erase_flag xs k)

  -- For a strict weak order of keys whose equivalence is == and every storage, emplace reports an
  -- insertion exactly when contains is false, and erase counts one element exactly when contains is
  -- true and none otherwise.
  contains-emplace-erase :
      (xs : List (K × V)) (k : K) (v : V)
      → ((emplace ops xs k v).1.1 ≡ not (contains ops xs k))
        × ((erase ops xs k).1 ≡ (if contains ops xs k then 1 else 0))
  unfolding emplace erase contains do_emplace
  contains-emplace-erase xs k v = (
    rw (place_lem ops xs k, find_lem ops xs k) (ground (arith, place_flag xs k)),
    rw (find_lem ops xs k, lower_bound_all ops xs k) (ground (arith, erase_flag xs k)),
  )

  subscript_place :
      (xs : List (K × V)) (k : K) (v : V)
      → IsMap ops xs
      → Option.map
          (λ r. r.1)
          (get_elem? (do_emplace xs (place ops xs k) k v).0 (first_index (stop ops k) xs))
        ≡ some (get_or (lookup ops k xs) v)
  unfolding first_index test_at do_emplace insert_at
  subscript_place [] k v m = refl
  subscript_place ((j, w) ∷ xs) k v m = ground (
    arith,
    subscript_place xs k v m.1,
    laws.same k j,
    laws.order.asym j k,
    lookup-Above ops laws k xs,
    Above-trans ops laws k j xs,
  )

  do_emplace_pos :
      (xs : List (K × V)) (ip : ℕ × Bool) (k : K) (v : V) → (do_emplace xs ip k v).1 ≡ ip
  unfolding do_emplace
  do_emplace_pos xs (i, true) k v = refl
  do_emplace_pos xs (i, false) k v = refl

  subscript_value :
      (fresh : V) (xs : List (K × V)) (k : K)
      → IsMap ops xs
      → (subscript ops fresh xs k).1 ≡ some (get_or (at ops xs k) fresh)
  unfolding subscript emplace
  subscript_value fresh xs k m =
      rw (place_lem ops xs k, do_emplace_pos xs (place ops xs k) k fresh, at-lookup ops laws xs k m)
        (subscript_place xs k fresh m)

  -- For a strict weak order of keys whose equivalence is ==, in a storage with strictly rising keys,
  -- operator[] refers to the value stored under the key, or to a fresh one; the keys stay strictly
  -- rising, and at reads that value under a key equal to the given one and under every other key
  -- what it read before.
  pub subscript_lem :
      (fresh : V) (xs : List (K × V)) (k i : K)
      → IsMap ops xs
      → let (xs', r) = subscript ops fresh xs k in
        (r ≡ some (get_or (at ops xs k) fresh))
        × IsMap ops xs'
        × (at ops xs' i ≡ (if ops.eq i k then r else at ops xs i))
  unfolding subscript
  subscript_lem fresh xs k i m = (
    value,
    emplace-IsMap ops laws xs k fresh m,
    rw value (lookup-emplace ops laws i k fresh xs m),
  )
    where
      value :
          Option.map (λ r. r.1) (get_elem? (emplace ops xs k fresh).0 (emplace ops xs k fresh).1.0)
          ≡ some (get_or (at ops xs k) fresh)
      value = subscript_value fresh xs k m
