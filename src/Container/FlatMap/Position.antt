-- ===== src/Container/FlatMap/Position.antt =====
-- flat_map.cpp: the first index at which a search halts, in parts of a storage.
use eagine_core.Common.{
  ℕ, zero, suc, ◌+◌, ◌≤◌, ◌<◌, Bool, true, List, [], ◌∷◌, length, take, drop, ◌≡◌, refl, arith,
}
use eagine_core.Container.FlatMap.Ops.{first_index, test_at}

module _ {ℓ κ} {K : Type ℓ} {V : Type κ} (halt : K → Bool) where
  pub first_index-le :
      (xs : List (K × V)) (p : ℕ) → test_at xs p halt ≡ true → first_index halt xs ≤ p
  unfolding first_index test_at
  first_index-le [] p h = omega arith
  first_index-le ((j, w) ∷ xs) zero h = ground arith
  first_index-le ((j, w) ∷ xs) (suc p) h = ground (arith, first_index-le xs p h)

  pub first_index-take :
      (xs : List (K × V)) (p : ℕ)
      → first_index halt xs ≤ p
      → first_index halt (take p xs) ≡ first_index halt xs
  unfolding first_index
  first_index-take [] zero h = refl
  first_index-take [] (suc p) h = refl
  first_index-take ((j, w) ∷ xs) zero h = ground arith
  first_index-take ((j, w) ∷ xs) (suc p) h = ground (arith, first_index-take xs p)

  pub first_index-drop :
      (xs : List (K × V)) (p : ℕ)
      → p ≤ first_index halt xs
      → p + first_index halt (drop p xs) ≡ first_index halt xs
  unfolding first_index
  first_index-drop xs zero h = omega arith
  first_index-drop [] (suc p) h = omega arith
  first_index-drop ((j, w) ∷ xs) (suc p) h = ground (arith, first_index-drop xs p)

-- The key at an index in range.
pub key_at {ℓ κ} :
    {K : Type ℓ} {V : Type κ} (xs : List (K × V)) (p : ℕ)
    → p < length xs
    → (j : K) × ((f : K → Bool) → test_at xs p f ≡ f j)
unfolding test_at
key_at [] p h = absurd (omega arith)
key_at ((j, w) ∷ xs) zero h = (j, λ f. refl)
key_at ((j, w) ∷ xs) (suc p) h = key_at xs p (omega arith)
