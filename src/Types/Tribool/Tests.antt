-- ===== src/Types/Tribool/Tests.antt =====
-- The theorems about tribool.cpp at concrete inputs.
use eagine_core.Common.{false, not, ◌&&◌, ◌||◌, ◌≡◌, refl}
use mathlib.Core.Bool.{xor}
use eagine_core.Types.Tribool.{_false, _true, _unknown, and, or, eq, ne}
use eagine_core.Types.Tribool.Logic.{IsExact, operators-IsExact}

and_unknown : (and _unknown _false ≡ _false) × (and _unknown _true ≡ _unknown)
unfolding and
and_unknown = (refl, refl)

or_unknown : (or _unknown _false ≡ _unknown) × (or _unknown _true ≡ _true)
unfolding or
or_unknown = (refl, refl)

operators-IsExact_example :
    IsExact and (λ x y. x && y) _unknown _false false
    × IsExact or (λ x y. x || y) _unknown _false false
    × IsExact eq (λ x y. not (xor x y)) _unknown _false false
    × IsExact ne (λ x y. xor x y) _unknown _false false
operators-IsExact_example = operators-IsExact _unknown _false false
