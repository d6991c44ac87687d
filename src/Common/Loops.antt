-- ===== src/Common/Loops.antt =====
-- Counted loops: `for i in [i, i + n)`, and the list of what a function gives at those indices.
use Prim.Native.Nat.{ℕ, zero, suc, ◌+◌, ◌≤◌, ◌<◌}
use mathlib.Core.Bool.{Bool, true, ◌&&◌}
use native.Mathlib.Omega.{arith}
use mathlib.Core.Path.{◌≡◌, refl, ap, ap₂, ◌∙◌}
use mathlib.Core.List.{List, [], ◌∷◌, map}
use eagine_core.Common.Lists.{length}

-- for(i = from; i != from + rounds; ++i) state = step(i, state)
unfoldable pub for_range {ℓ} : {S : Type ℓ} → ℕ → ℕ → (ℕ → S → S) → S → S
for_range zero from step state = state
for_range (suc rounds) from step state = for_range rounds (from + 1) step (step from state)

module _ {ℓ} {A : Type ℓ} where
  unfoldable pub tabulate : ℕ → ℕ → (ℕ → A) → List A
  tabulate zero i f = []
  tabulate (suc n) i f = f i ∷ tabulate n (i + 1) f

  pub length-tabulate : (n i : ℕ) (f : ℕ → A) → length (tabulate n i f) ≡ n
  unfolding tabulate
  length-tabulate zero i f = refl
  length-tabulate (suc n) i f = ap suc (length-tabulate n (i + 1) f)

  pub tabulate_ext :
      (n i : ℕ) (f h : ℕ → A)
      → ((j : ℕ) → i ≤ j → j < i + n → f j ≡ h j)
      → tabulate n i f ≡ tabulate n i h
  unfolding tabulate
  tabulate_ext zero i f h e = refl
  tabulate_ext (suc n) i f h e =
      ap₂ ◌∷◌ (e i (omega arith) (omega arith))
        (tabulate_ext n (i + 1) f h (λ j lo hi. e j (omega arith) (omega arith)))

-- A test of every number below a bound.
unfoldable pub all_below : ℕ → (ℕ → Bool) → Bool
all_below zero test = true
all_below (suc bound) test = test bound && all_below bound test

pub all_below_sound :
    (bound : ℕ) (test : ℕ → Bool) (j : ℕ) → all_below bound test ≡ true → j < bound → test j ≡ true
unfolding all_below
all_below_sound zero test j passed below = absurd (omega arith)
all_below_sound (suc bound) test j passed below = ground (arith, all_below_sound bound test j)

pub map-tabulate {ℓ κ} :
    {A : Type ℓ} {B : Type κ} (g : A → B) (f : ℕ → A) (h : ℕ → B)
    → ((j : ℕ) → g (f j) ≡ h j)
    → (n i : ℕ) → map g (tabulate n i f) ≡ tabulate n i h
unfolding tabulate
map-tabulate g f h e zero i = refl
map-tabulate g f h e (suc n) i = ap₂ ◌∷◌ (e i) (map-tabulate g f h e n (i + 1))

-- A loop carried through a function that commutes with its body.
pub for_range-map {ℓ κ} :
    {S : Type ℓ} {R : Type κ} (g : S → R) (body : ℕ → S → S) (body' : ℕ → R → R)
    → ((j : ℕ) (s : S) → body' j (g s) ≡ g (body j s))
    → (n i : ℕ) (s : S) → for_range n i body' (g s) ≡ g (for_range n i body s)
unfolding for_range
for_range-map g body body' e zero i s = refl
for_range-map g body body' e (suc n) i s =
    ap (for_range n (i + 1) body') (e i s) ∙ for_range-map g body body' e n (i + 1) (body i s)
