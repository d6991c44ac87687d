-- ===== src/Types/Tribool/Logic.antt =====
-- tribool.cpp: the operators against the Booleans that an indeterminate value may stand for.
use eagine_core.Common.{Bool, true, false, not, ◌&&◌, ◌||◌, ◌≡◌, ◌↔◌, arith}
use mathlib.Core.Bool.{xor}
use eagine_core.Types.Tribool.{
  Tribool, _false, _true, _unknown, of_bool, and, or, eq, ne, to_bool, is_not, weak, weak_to_bool,
  weak_not,
}

-- `b` is a Boolean that `t` may stand for.
abbrev pub MayBe : Tribool → Bool → Type 0
MayBe _false b = b ≡ false
MayBe _true b = b ≡ true
MayBe _unknown b = Unit {0}

-- An operator is exact for a function of Booleans: its result is a known value just where every
-- reading of its operands gives that value.
abbrev pub IsExact :
    (Tribool → Tribool → Tribool) → (Bool → Bool → Bool) → Tribool → Tribool → Bool → Type 0
IsExact op f a b v = (op a b ≡ of_bool v) ↔ ((x y : Bool) → MayBe a x → MayBe b y → f x y ≡ v)

and-IsExact : (a b : Tribool) (v : Bool) → IsExact and (λ x y. x && y) a b v
unfolding and of_bool xor
and-IsExact _false _false v = (
  λ e x y p q. ground arith,
  λ h. ground (arith, h true true, h true false, h false true, h false false),
)
and-IsExact _ _ v = (
  λ e x y p q. ground arith,
  λ h. ground (arith, h true true, h true false, h false true, h false false),
)

or-IsExact : (a b : Tribool) (v : Bool) → IsExact or (λ x y. x || y) a b v
unfolding or of_bool xor
or-IsExact _false _false v = (
  λ e x y p q. ground arith,
  λ h. ground (arith, h true true, h true false, h false true, h false false),
)
or-IsExact _ _ v = (
  λ e x y p q. ground arith,
  λ h. ground (arith, h true true, h true false, h false true, h false false),
)

eq-IsExact : (a b : Tribool) (v : Bool) → IsExact eq (λ x y. not (xor x y)) a b v
unfolding eq of_bool xor
eq-IsExact _false _false v = (
  λ e x y p q. ground arith,
  λ h. ground (arith, h true true, h true false, h false true, h false false),
)
eq-IsExact _ _ v = (
  λ e x y p q. ground arith,
  λ h. ground (arith, h true true, h true false, h false true, h false false),
)

ne-IsExact : (a b : Tribool) (v : Bool) → IsExact ne (λ x y. xor x y) a b v
unfolding ne of_bool xor
ne-IsExact _false _false v = (
  λ e x y p q. ground arith,
  λ h. ground (arith, h true true, h true false, h false true, h false false),
)
ne-IsExact _ _ v = (
  λ e x y p q. ground arith,
  λ h. ground (arith, h true true, h true false, h false true, h false false),
)

-- The result of each of the operators &&, ||, == and != of tribool is a known value exactly when
-- every Boolean reading of the operands gives that value.
pub operators-IsExact :
    (a b : Tribool) (v : Bool)
    → IsExact and (λ x y. x && y) a b v
      × IsExact or (λ x y. x || y) a b v
      × IsExact eq (λ x y. not (xor x y)) a b v
      × IsExact ne (λ x y. xor x y) a b v
operators-IsExact a b v = (and-IsExact a b v, or-IsExact a b v, eq-IsExact a b v, ne-IsExact a b v)

-- A tribool converts to true, or its operator! is true, exactly when every reading of it is true, or
-- false; for its weakbool, exactly when some reading is.
conditions_lem :
    (t : Tribool)
    → ((to_bool t ≡ true) ↔ ((x : Bool) → MayBe t x → x ≡ true))
      × ((is_not t ≡ true) ↔ ((x : Bool) → MayBe t x → x ≡ false))
      × ((weak_to_bool (weak t) ≡ true) ↔ MayBe t true)
      × ((weak_not (weak t) ≡ true) ↔ MayBe t false)
unfolding to_bool is_not weak_to_bool weak_not weak
conditions_lem _false = (
  (λ e x m. ground arith, λ h. ground (arith, h true, h false)),
  (λ e x m. ground arith, λ h. ground (arith, h true, h false)),
  (λ e. ground arith, λ m. ground arith),
  (λ e. ground arith, λ m. ground arith),
)
conditions_lem _ = (
  (λ e x m. ground arith, λ h. ground (arith, h true, h false)),
  (λ e x m. ground arith, λ h. ground (arith, h true, h false)),
  (λ e. ground arith, λ m. ground arith),
  (λ e. ground arith, λ m. ground arith),
)
