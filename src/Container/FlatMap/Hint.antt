-- ===== src/Container/FlatMap/Hint.antt =====
-- flat_map.cpp: insertion with a hint. A hint inside the map is followed without looking whether the
-- key is already stored.
use eagine_core.Common.{
  ℕ, zero, suc, ◌-◌, ◌≤◌, ◌<◌, Bool, true, false, none, List, [], ◌∷◌, ◌==◌, length, drop,
  take-length, length-drop, ◌≡◌, ◌≢◌, refl, sym, ◌∙◌, arith, Bool-cases, inl, inr,
}
use eagine_core.Common.Order.{before_trans}
use eagine_core.Container.FlatMap.Ops.{
  KeyOps, at, first_index, lower_bound, test_at, find_insert_pos_hint, hint_inside, last_before,
}
use eagine_core.Container.FlatMap.Map.{insert_at, do_emplace, emplace, emplace_hint}
use eagine_core.Container.FlatMap.Spec.{
  KeyLaws, Above, IsMap, lookup, insert_sorted, stop, lower_bound_all, emplace-insert_sorted,
}
use eagine_core.Container.FlatMap.Lookup.{at-lookup, lookup-Above, Above-trans}
use eagine_core.Container.FlatMap.Position.{
  first_index-le, first_index-take, first_index-drop, key_at,
}

module _ {ℓ κ} {K : Type ℓ} {V : Type κ} (ops : KeyOps K) (laws : KeyLaws ops) where
  before_of_Above :
      (j k : K) (xs : List (K × V)) (p : ℕ)
      → Above ops j xs
      → test_at xs p (λ i. ops.before i k) ≡ true
      → ops.before j k ≡ true
  unfolding test_at
  before_of_Above j k [] p a h = cc
  before_of_Above j k ((i, w) ∷ xs) zero a h = before_trans ops.before laws.order j i k a.0 h
  before_of_Above j k ((i, w) ∷ xs) (suc p) a h = before_of_Above j k xs p a.1 h

  -- In a map the keys up to one that is before `k` are all before `k`.
  lt-first_index :
      (xs : List (K × V)) (p : ℕ) (k : K)
      → IsMap ops xs
      → test_at xs p (λ j. ops.before j k) ≡ true
      → p < first_index (stop ops k) xs
  unfolding first_index test_at
  lt-first_index [] p k m h = cc
  lt-first_index ((j, w) ∷ xs) zero k m h = ground arith
  lt-first_index ((j, w) ∷ xs) (suc p) k m h =
      ground (arith, before_of_Above j k xs p m.0 h, lt-first_index xs p k m.1 h)

  lower_bound_front :
      (xs : List (K × V)) (p : ℕ) (k : K)
      → first_index (stop ops k) xs ≤ p
      → lower_bound ops xs 0 p k ≡ first_index (stop ops k) xs
  unfolding lower_bound
  lower_bound_front xs p k h =
      let e : p - 0 ≡ p = omega arith in rw e (omega (arith, first_index-take (stop ops k) xs p h))

  lower_bound_back :
      (xs : List (K × V)) (p : ℕ) (k : K)
      → p ≤ first_index (stop ops k) xs
      → lower_bound ops xs p (length xs) k ≡ first_index (stop ops k) xs
  unfolding lower_bound
  lower_bound_back xs p k h =
      rw (take-length (length xs - p) (drop p xs) (omega (arith, length-drop p xs)))
        (first_index-drop (stop ops k) xs p h)

  -- At a hint whose key is not `==` to the new one, the answer is to insert at the lower bound.
  hint_inside_lem :
      (xs : List (K × V)) (p : ℕ) (k : K)
      → IsMap ops xs
      → p < length xs
      → test_at xs p (λ j. ops.eq k j) ≡ false
      → hint_inside ops xs p k ≡ (first_index (stop ops k) xs, true)
  unfolding hint_inside
  hint_inside_lem xs p k m h e =
      let (j, at) = key_at xs p h in
      elim (Bool-cases (ops.before k j)) [
        | inl b ↦
            let le : first_index (stop ops k) xs ≤ p =
              first_index-le (stop ops k) xs p
                (at (stop ops k) ∙ ground (arith, laws.order.asym k j)) in
            rw (e, at (λ j. ops.before k j), b) (ground (arith, lower_bound_front xs p k le))
        | inr b ↦
            let lt : p < first_index (stop ops k) xs =
              lt-first_index xs p k m
                (at (λ j. ops.before j k) ∙ ground (arith, laws.same k j, at (λ j. ops.eq k j))) in
            rw (e, at (λ j. ops.before k j), b) (ground (arith, lower_bound_back xs p k))
      ]

  -- `emplace_hint` with a hint inside the map, at another key, always stores: at the lower bound of the
  -- key, whether or not the key is already there.
  pub emplace_hint_inside :
      (xs : List (K × V)) (p : ℕ) (k : K) (v : V)
      → IsMap ops xs
      → p < length xs
      → test_at xs p (λ j. ops.eq k j) ≡ false
      → (emplace_hint ops xs p k v).0 ≡ insert_at (lower_bound ops xs 0 (length xs) k) (k, v) xs
  unfolding emplace_hint find_insert_pos_hint do_emplace
  emplace_hint_inside xs p k v m h e =
      rw (hint_inside_lem xs p k m h e, lower_bound_all ops xs k) (ground arith)

  insert_at-absent :
      (xs : List (K × V)) (k : K) (v : V)
      → lookup ops k xs ≡ none
      → insert_at (first_index (stop ops k) xs) (k, v) xs ≡ insert_sorted ops k v xs
  unfolding insert_at first_index
  insert_at-absent [] k v h = refl
  insert_at-absent ((j, w) ∷ xs) k v h = ground (arith, insert_at-absent xs k v)

  insert_at-present :
      (xs : List (K × V)) (k : K) (v : V)
      → IsMap ops xs
      → lookup ops k xs ≢ none
      → ¬ IsMap ops (insert_at (first_index (stop ops k) xs) (k, v) xs)
  unfolding insert_at first_index
  insert_at-present [] k v m h i = h refl
  insert_at-present ((j, w) ∷ xs) k v m h i = ground (
    arith,
    insert_at-present xs k v m.1,
    laws.same k j,
    lookup-Above ops laws k xs,
    Above-trans ops laws k j xs,
  )

  absent_at :
      (xs : List (K × V)) (p : ℕ) (k : K)
      → lookup ops k xs ≡ none
      → test_at xs p (λ j. ops.eq k j) ≡ false
  unfolding test_at
  absent_at [] p k h = refl
  absent_at ((j, w) ∷ xs) zero k h = ground arith
  absent_at ((j, w) ∷ xs) (suc p) k h = ground (arith, absent_at xs p k)

  first_index-le-length : (halt : K → Bool) (xs : List (K × V)) → first_index halt xs ≤ length xs
  unfolding first_index
  first_index-le-length halt [] = omega arith
  first_index-le-length halt ((j, w) ∷ xs) = ground (arith, first_index-le-length halt xs)

  -- A hint at the end of the map.
  hint_at_end :
      (xs : List (K × V)) (k : K)
      → IsMap ops xs
      → lookup ops k xs ≡ none
      → find_insert_pos_hint ops xs (length xs) k ≡ (first_index (stop ops k) xs, true)
  unfolding find_insert_pos_hint last_before
  hint_at_end [] k m h = unfold first_index in refl
  hint_at_end ((i, w) ∷ xs) k m h =
      let l = (i, w) ∷ xs in
      let (j, at) = key_at l (length l - 1) (omega arith) in
      elim (Bool-cases (ops.before j k)) [
        | inl b ↦
            rw (at (λ j. ops.before j k), b)
              (ground (
                arith,
                lt-first_index l (length l - 1) k m (at (λ j. ops.before j k) ∙ b),
                first_index-le-length (stop ops k) l,
              ))
        | inr b ↦
            let le : first_index (stop ops k) l ≤ length l - 1 =
              first_index-le (stop ops k) l (length l - 1) (at (stop ops k) ∙ ground arith) in
            rw (at (λ j. ops.before j k), b, lower_bound_all ops l k)
              (ground (
                arith,
                hint_inside_lem l (first_index (stop ops k) l) k m (omega arith)
                    (absent_at l (first_index (stop ops k) l) k h),
              ))
      ]

  -- For a strict weak order of keys whose equivalence is ==, in a storage with strictly rising keys,
  -- for a key that is not stored and every hint up to the end, emplace_hint leaves the storage that
  -- emplace leaves.
  emplace_hint-emplace :
      (xs : List (K × V)) (p : ℕ) (k : K) (v : V)
      → IsMap ops xs
      → p ≤ length xs
      → at ops xs k ≡ none
      → (emplace_hint ops xs p k v).0 ≡ (emplace ops xs k v).0
  unfolding emplace_hint do_emplace
  emplace_hint-emplace xs p k v m h e =
      let e' : lookup ops k xs ≡ none = sym (at-lookup ops laws xs k m) ∙ e in
      elim (Bool-cases (p == length xs)) [
        | inl end ↦
            let q : p ≡ length xs = ground arith in
            rw (q, hint_at_end xs k m e', emplace-insert_sorted ops xs k v)
              (insert_at-absent xs k v e')
        | inr other ↦
            emplace_hint_inside xs p k v m (ground arith) (absent_at xs p k e')
            ∙ rw (lower_bound_all ops xs k, emplace-insert_sorted ops xs k v)
                (insert_at-absent xs k v e')
      ]

  -- For a strict weak order of keys whose equivalence is ==, in a storage with strictly rising keys,
  -- emplace_hint of a stored key with a hint inside the storage at an element of another key leaves
  -- keys that are not strictly rising.
  pub emplace_hint_duplicates :
      (xs : List (K × V)) (p : ℕ) (k : K) (v : V)
      → IsMap ops xs
      → p < length xs
      → test_at xs p (λ j. ops.eq k j) ≡ false
      → at ops xs k ≢ none
      → ¬ IsMap ops (emplace_hint ops xs p k v).0
  emplace_hint_duplicates xs p k v m h e there =
      rw (emplace_hint_inside xs p k v m h e, lower_bound_all ops xs k)
        (insert_at-present xs k v m (λ q. there (at-lookup ops laws xs k m ∙ q)))
