-- ===== src/Common/Order.antt =====
-- What the standard library asks of a comparator, and lists sorted by one.
use Prim.Native.Nat.{ℕ, ◌+◌}
use mathlib.Core.Path.{◌≡◌}
use mathlib.Core.Bool.{Bool, true, false, not, ◌&&◌}
use mathlib.Core.List.{List, [], ◌∷◌}
use native.Mathlib.Omega.{arith}
use eagine_core.Common.Tests.{if◌then◌else◌}

pub record StrictWeakOrder {ℓ} {T : Type ℓ} (before : T → T → Bool) : Type ℓ where
  pub asym : (a b : T) → before a b ≡ true → before b a ≡ false
  pub neg_trans : (a b c : T) → before a b ≡ false → before b c ≡ false → before a c ≡ false

module _ {ℓ} {T : Type ℓ} (before : T → T → Bool) (w : StrictWeakOrder before) where
  pub before_irrefl : (a : T) → before a a ≡ false
  before_irrefl a = ground (arith, w.asym a a)

  pub before_trans : (a b c : T) → before a b ≡ true → before b c ≡ true → before a c ≡ true
  before_trans a b c h k =
      ground (arith, w.asym a b, w.asym b c, w.neg_trans a c b, w.neg_trans b a c)

-- No element is before the one in front of it.
abbrev pub IsSorted {ℓ} : {T : Type ℓ} → (T → T → Bool) → List T → Type 0
IsSorted before [] = Unit {0}
IsSorted before (x ∷ []) = Unit {0}
IsSorted before (x ∷ y ∷ l) = (before y x ≡ false) × IsSorted before (y ∷ l)

abbrev pub count_if {ℓ} : {T : Type ℓ} → (T → Bool) → List T → ℕ
count_if p [] = 0
count_if p (x ∷ l) = (if p x then 1 else 0) + count_if p l

-- Neither is before the other.
abbrev pub equivalent {ℓ} : {T : Type ℓ} → (T → T → Bool) → T → T → Bool
equivalent before t x = not (before x t) && not (before t x)
