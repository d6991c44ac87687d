-- ===== src/Types/Tribool.antt =====
-- source/modules/eagine/types/tribool.cpp: the classes `weakbool` and `tribool`. The name of an
-- operator function is that of the C++ operator.
pub mod Logic
pub mod Optional
mod Tests
use eagine_core.Common.{Bool, true, false, not, ◌&&◌, Option, none, some, if◌then◌else◌}

-- `_tribool_value_t`
pub data Tribool : Type 0 where
  _false _true _unknown : Tribool

-- Comparison of the stored values.
unfoldable pub same_value : Tribool → Tribool → Bool
same_value _false _false = true
same_value _true _true = true
same_value _unknown _unknown = true
same_value _ _ = false

-- `tribool(const bool)`
unfoldable pub of_bool : Bool → Tribool
of_bool value = if value then _true else _false

-- `tribool(const bool value, const bool is_known)`
unfoldable pub of_parts : Bool → Bool → Tribool
of_parts value is_known = if not is_known then _unknown else if value then _true else _false

-- `tribool(const std::optional<bool>&)`
unfoldable pub of_optional : Option Bool → Tribool
of_optional none = _unknown
of_optional (some value) = if value then _true else _false

unfoldable pub to_bool : Tribool → Bool
unfolding same_value
to_bool t = same_value t _true

unfoldable pub is_not : Tribool → Bool
unfolding same_value
is_not t = same_value t _false

unfoldable pub has_value : Tribool → Bool
unfolding same_value
has_value t = not (same_value t _unknown)

unfoldable pub reset : Tribool → Tribool
reset t = _unknown

-- `value()`, under its precondition `has_value()`.
unfoldable pub value : Tribool → Bool
unfolding to_bool
value t = to_bool t

unfoldable pub value_or : Tribool → Bool → Bool
unfolding has_value same_value
value_or t fallback = if has_value t then same_value t _true else fallback

unfoldable pub or_true : Tribool → Bool
unfolding value_or
or_true t = value_or t true

unfoldable pub or_false : Tribool → Bool
unfolding value_or
or_false t = value_or t false

unfoldable pub or_default : Tribool → Bool
unfolding or_false
or_default t = or_false t

-- `and_then` of a function into an optional-like type, whose empty value is `empty`.
unfoldable pub and_then {ℓ} : {R : Type ℓ} → R → Tribool → (Bool → R) → R
unfolding has_value to_bool
and_then empty t function = if has_value t then function (to_bool t) else empty

-- `or_else`; the function is called only for an indeterminate value.
unfoldable pub or_else : Tribool → Tribool → Tribool
unfolding has_value
or_else t fallback = if has_value t then t else fallback

-- `transform` of a function into `bool`, and into any other type.
unfoldable pub transform_bool : Tribool → (Bool → Bool) → Tribool
unfolding has_value to_bool of_parts
transform_bool t function = if has_value t then of_parts (function (to_bool t)) true else _unknown

unfoldable pub transform {ℓ} : {R : Type ℓ} → Tribool → (Bool → R) → Option R
unfolding has_value to_bool
transform t function = if has_value t then some (function (to_bool t)) else none

-- `is(const bool)` and `is(const indeterminate_t)`
unfoldable pub is : Tribool → Bool → Bool
unfolding same_value
is t value = same_value t (if value then _true else _false)

unfoldable pub is_indeterminate : Tribool → Bool
unfolding same_value
is_indeterminate t = same_value t _unknown

-- `operator==` and `operator!=`
unfoldable pub eq : Tribool → Tribool → Tribool
unfolding of_parts same_value is_indeterminate
eq a b = of_parts (same_value a b) (not (is_indeterminate a) && not (is_indeterminate b))

unfoldable pub ne : Tribool → Tribool → Tribool
unfolding of_parts same_value is_indeterminate
ne a b = of_parts (not (same_value a b)) (not (is_indeterminate a) && not (is_indeterminate b))

-- `operator&&` and `operator||`
unfoldable pub and : Tribool → Tribool → Tribool
unfolding is_not to_bool of_bool
and a b =
    if is_not a
    then of_bool false
    else if to_bool a
    then b
    else if is_not b
    then of_bool false
    else _unknown

unfoldable pub or : Tribool → Tribool → Tribool
unfolding is_not to_bool of_bool
or a b =
    if to_bool a
    then of_bool true
    else if is_not a
    then b
    else if to_bool b
    then of_bool true
    else _unknown

-- `weakbool`, made by `operator~`, holds the same value and reads it the other way.
pub record Weakbool : Type 0 where
  pub stored : Tribool

unfoldable pub weak : Tribool → Weakbool
weak t = record { stored = t }

unfoldable pub weak_to_bool : Weakbool → Bool
unfolding same_value
weak_to_bool w = not (same_value w.stored _false)

unfoldable pub weak_not : Weakbool → Bool
unfolding same_value
weak_not w = not (same_value w.stored _true)

unfoldable pub weak_is_indeterminate : Weakbool → Bool
unfolding same_value
weak_is_indeterminate w = same_value w.stored _unknown
