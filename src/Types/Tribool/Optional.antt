-- ===== src/Types/Tribool/Optional.antt =====
-- tribool.cpp as an optional Boolean.
use mathlib.Core.Option
use mathlib.Core.Option.{get_or}
use eagine_core.Common.{Bool, true, Option, none, some, ◌≡◌, refl}
use eagine_core.Types.Tribool.{
  Tribool, _false, of_optional, of_bool, value_or, and_then, or_else, transform, transform_bool,
}

-- A tribool and an optional Boolean convert into each other without loss, and value_or, transform,
-- and_then and or_else of a tribool made from an optional are those of the optional.
optional_lem {ℓ} :
    {R : Type ℓ} (t : Tribool) (o : Option Bool) (d : Bool) (e : Tribool) (f : Bool → Bool)
    (g : Bool → R) (k : Bool → Option R)
    → (of_optional (transform t (λ b. b)) ≡ t)
      × (transform (of_optional o) (λ b. b) ≡ o)
      × (value_or (of_optional o) d ≡ get_or o d)
      × (transform (of_optional o) g ≡ Option.map g o)
      × (and_then none (of_optional o) k ≡ elim o [ none ↦ none | some b ↦ k b ])
      × (transform_bool (of_optional o) f ≡ of_optional (Option.map f o))
      × (or_else (of_optional o) e ≡ elim o [ none ↦ e | some b ↦ of_bool b ])
unfolding of_optional transform value_or and_then transform_bool or_else of_bool
optional_lem _false none d e f g k = (refl, refl, refl, refl, refl, refl, refl)
optional_lem _ (some true) d e f g k = (refl, refl, refl, refl, refl, refl, refl)
optional_lem _ _ d e f g k = (refl, refl, refl, refl, refl, refl, refl)
