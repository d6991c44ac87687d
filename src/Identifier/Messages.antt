-- ===== src/Identifier/Messages.antt =====
-- identifier.cpp: the pair of identifiers of a message in one number.
use Prim.Native.Nat.{bit_or}
use eagine_core.Common.{
  ℕ, ◌+◌, ◌*◌, ◌/◌, ◌%◌, ◌^◌, ◌<◌, ◌≡◌, refl, sym, ap, ap₂, ◌∙◌, &&-eq-true, ==_iff, true, arith,
  ◌↔◌,
}
use eagine_core.Common.Bits.{bit_or-add}
use native.Mathlib.Nat.{mod-eq_of_lt}
use eagine_core.Identifier.Code.{message_id, class_id, method_id, message_is}

message_id-sum : (c m : ℕ) → c < 2 ^ 64 → m < 2 ^ 64 → message_id c m ≡ c * 2 ^ 64 + m
unfolding message_id
message_id-sum c m hc hm =
    ap (λ (t : ℕ). bit_or t m) (mod-eq_of_lt (omega arith)) ∙ bit_or-add 64 c m hm

-- A message identifier holds its two identifiers, and is those two exactly when it is the number made of them.
pub message_id_lem :
    (c m idc idm : ℕ)
    → c < 2 ^ 64
    → m < 2 ^ 64
    → idc < 2 ^ 64
    → idm < 2 ^ 64
    → (class_id (message_id c m) ≡ c)
      × (method_id (message_id c m) ≡ m)
      × ((message_is (message_id c m) idc idm ≡ true) ↔ (message_id c m ≡ message_id idc idm))
unfolding class_id method_id message_is
message_id_lem c m idc idm hc hm hidc hidm =
    let sum = message_id-sum c m hc hm in
    let other = message_id-sum idc idm hidc hidm in
    let first : message_id c m / 2 ^ 64 % 2 ^ 64 ≡ c = omega arith in
    let second : message_id c m % 2 ^ 64 ≡ m = omega arith in
    (
      first,
      second,
      (
        λ e.
            let (same_class, same_method) = &&-eq-true _ _ e in
            sum
            ∙ ap₂ (λ (a b : ℕ). a * 2 ^ 64 + b) (sym first ∙ (==_iff _ idc).0 same_class)
                (sym second ∙ (==_iff _ idm).0 same_method)
            ∙ sym other,
        λ e.
            let class_same : message_id c m / 2 ^ 64 % 2 ^ 64 ≡ idc = omega arith in
            let method_same : message_id c m % 2 ^ 64 ≡ idm = omega arith in
            rw ((==_iff _ idc).1 class_same, (==_iff _ idm).1 method_same) refl,
      ),
    )
