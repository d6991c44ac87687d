-- ===== src/Container/FlatMap/Lookup.antt =====
-- flat_map.cpp: `emplace`, `at`, `contains` and `erase` against the abstract map of the keys.
use eagine_core.Common.{
  true, none, some, List, [], ◌∷◌, ◌==◌, if◌then◌else◌, length, get_elem?, ◌≡◌, refl, ◌∙◌, arith,
}
use eagine_core.Common.Order.{before_trans}
use mathlib.Core.Option
use mathlib.Core.Option.{get_or}
use eagine_core.Container.FlatMap.Ops.{KeyOps, first_index, test_at, at}
use eagine_core.Container.FlatMap.Map.{emplace, erase}
use eagine_core.Container.FlatMap.Spec.{
  KeyLaws, Above, IsMap, lookup, insert_sorted, erase_sorted, find_place, find_lem,
  emplace-insert_sorted, erase-erase_sorted, eq_before, eq_after,
}

module _ {ℓ κ} {K : Type ℓ} {V : Type κ} (ops : KeyOps K) (laws : KeyLaws ops) where
  pub Above-trans :
      (k j : K) (xs : List (K × V)) → ops.before k j ≡ true → Above ops j xs → Above ops k xs
  Above-trans k j [] h a = tt
  Above-trans k j ((i, w) ∷ xs) h a =
      (before_trans ops.before laws.order k j i h a.0, Above-trans k j xs h a.1)

  pub lookup-Above : (k : K) (xs : List (K × V)) → Above ops k xs → lookup ops k xs ≡ none
  lookup-Above k [] a = refl
  lookup-Above k ((j, w) ∷ xs) a = ground (arith, laws.same k j, lookup-Above k xs)

  at_place :
      (xs : List (K × V)) (k : K)
      → IsMap ops xs
      → (let p = find_place ops xs k in
          if p == length xs then none else Option.map (λ r. r.1) (get_elem? xs p))
        ≡ lookup ops k xs
  unfolding first_index test_at
  at_place [] k m = refl
  at_place ((j, w) ∷ xs) k m = ground (
    arith,
    at_place xs k m.1,
    laws.same k j,
    laws.order.asym j k,
    lookup-Above k xs,
    Above-trans k j xs,
  )

  -- For a strict weak order of keys whose equivalence is ==, in a storage with strictly rising keys,
  -- at gives what a search that ignores the order finds under the key, and throws when that finds
  -- nothing.
  pub at-lookup : (xs : List (K × V)) (k : K) → IsMap ops xs → at ops xs k ≡ lookup ops k xs
  unfolding at
  at-lookup xs k m = rw (find_lem ops xs k) (at_place xs k m)

  Above-insert_sorted :
      (j k : K) (v : V) (xs : List (K × V))
      → ops.before j k ≡ true
      → Above ops j xs
      → Above ops j (insert_sorted ops k v xs)
  Above-insert_sorted j k v [] h a = (h, tt)
  Above-insert_sorted j k v ((i, w) ∷ xs) h a = ground (arith, Above-insert_sorted j k v xs h a.1)

  insert_sorted-IsMap :
      (k : K) (v : V) (xs : List (K × V)) → IsMap ops xs → IsMap ops (insert_sorted ops k v xs)
  insert_sorted-IsMap k v [] m = (tt, tt)
  insert_sorted-IsMap k v ((j, w) ∷ xs) m = ground (
    arith,
    insert_sorted-IsMap k v xs m.1,
    Above-insert_sorted j k v xs,
    laws.same k j,
    Above-trans k j xs,
  )

  -- For a strict weak order of keys whose equivalence is ==, emplace keeps the keys of a storage
  -- strictly rising.
  pub emplace-IsMap :
      (xs : List (K × V)) (k : K) (v : V) → IsMap ops xs → IsMap ops (emplace ops xs k v).0
  emplace-IsMap xs k v m = rw (emplace-insert_sorted ops xs k v) (insert_sorted-IsMap k v xs m)

  lookup-insert_sorted :
      (i k : K) (v : V) (xs : List (K × V))
      → IsMap ops xs
      → lookup ops i (insert_sorted ops k v xs)
        ≡ (if ops.eq i k then some (get_or (lookup ops k xs) v) else lookup ops i xs)
  lookup-insert_sorted i k v [] m = refl
  lookup-insert_sorted i k v ((j, w) ∷ xs) m = ground (
    arith,
    lookup-insert_sorted i k v xs m.1,
    laws.same i k,
    laws.same i j,
    laws.same k j,
    eq_before ops laws i k j,
    eq_after ops laws i k j,
    lookup-Above k xs,
    Above-trans k j xs,
    laws.order.asym j k,
  )

  -- For a strict weak order of keys whose equivalence is ==, in a storage with strictly rising keys,
  -- after emplace of k at reads for a key equal to k the value that k had, or the new one if it had
  -- none, and for every other key what it read before.
  pub lookup-emplace :
      (i k : K) (v : V) (xs : List (K × V))
      → IsMap ops xs
      → at ops (emplace ops xs k v).0 i
        ≡ (if ops.eq i k then some (get_or (at ops xs k) v) else at ops xs i)
  lookup-emplace i k v xs m =
      rw
        (
          at-lookup (emplace ops xs k v).0 i (emplace-IsMap xs k v m),
          at-lookup xs k m,
          at-lookup xs i m,
          emplace-insert_sorted ops xs k v,
        )
        (lookup-insert_sorted i k v xs m)

  Above-erase_sorted :
      (j k : K) (xs : List (K × V)) → Above ops j xs → Above ops j (erase_sorted ops k xs)
  Above-erase_sorted j k [] a = tt
  Above-erase_sorted j k ((i, w) ∷ xs) a = ground (arith, Above-erase_sorted j k xs a.1)

  erase_sorted-IsMap :
      (k : K) (xs : List (K × V)) → IsMap ops xs → IsMap ops (erase_sorted ops k xs)
  erase_sorted-IsMap k [] m = tt
  erase_sorted-IsMap k ((j, w) ∷ xs) m =
      ground (arith, erase_sorted-IsMap k xs m.1, Above-erase_sorted j k xs m.0)

  -- For a strict weak order of keys whose equivalence is ==, erase of a key keeps the keys of a
  -- storage strictly rising.
  erase-IsMap : (xs : List (K × V)) (k : K) → IsMap ops xs → IsMap ops (erase ops xs k).0
  erase-IsMap xs k m = rw (erase-erase_sorted ops xs k) (erase_sorted-IsMap k xs m)

  Above-eq : (i j : K) (xs : List (K × V)) → ops.eq i j ≡ true → Above ops j xs → Above ops i xs
  Above-eq i j [] h a = tt
  Above-eq i j ((n, w) ∷ xs) h a = (eq_before ops laws i j n h ∙ a.0, Above-eq i j xs h a.1)

  lookup-erase_sorted :
      (i k : K) (xs : List (K × V))
      → IsMap ops xs
      → lookup ops i (erase_sorted ops k xs) ≡ (if ops.eq i k then none else lookup ops i xs)
  lookup-erase_sorted i k [] m = ground arith
  lookup-erase_sorted i k ((j, w) ∷ xs) m = ground (
    arith,
    lookup-erase_sorted i k xs m.1,
    laws.same i k,
    laws.same i j,
    laws.same k j,
    eq_before ops laws i k j,
    eq_after ops laws i k j,
    lookup-Above i xs,
    Above-trans i j xs,
    Above-eq i j xs,
    laws.order.asym j k,
    laws.order.neg_trans i j k,
    laws.order.neg_trans k j i,
  )

  -- For a strict weak order of keys whose equivalence is ==, in a storage with strictly rising keys,
  -- after erase of k at finds nothing under a key equal to k, and under every other key what it
  -- found before.
  pub lookup-erase :
      (i k : K) (xs : List (K × V))
      → IsMap ops xs
      → at ops (erase ops xs k).0 i ≡ (if ops.eq i k then none else at ops xs i)
  lookup-erase i k xs m =
      rw
        (
          at-lookup (erase ops xs k).0 i (erase-IsMap xs k m),
          at-lookup xs i m,
          erase-erase_sorted ops xs k,
        )
        (lookup-erase_sorted i k xs m)
