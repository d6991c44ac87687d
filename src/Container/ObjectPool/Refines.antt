-- ===== src/Container/ObjectPool/Refines.antt =====
-- object_pool.cpp: the pool as a map from the addresses that are handed out to their objects.
use eagine_core.Common.{
  ℕ, ◌+◌, ◌*◌, ◌%◌, ◌<◌, true, none, some, leb, Bool-cases, Option-cases, inl, inr, ◌≡◌, ◌≢◌, refl,
  sym, ap, ◌∙◌, arith, length,
}
use eagine_core.Container.ObjectPool.{
  Slot, Pool, incremented, decremented, no_objects, make, get, mark_unused, eat, size,
}
use eagine_core.Container.ObjectPool.Slots.{held, used_count, Absent, Distinct, fill_first_lem}
use eagine_core.Container.ObjectPool.Marks.{mark_unused-none, mark_unused_lem, remove_unused_lem}

-- `_count` is the number of the objects that are handed out, and each slot has its own object.
pub record IsPool {ℓ} {Object : Type ℓ} (p : Pool Object) : Type 0 where
  pub distinct : Distinct p.storage
  pub counted : p.count ≡ used_count p.storage
  pub small : p.count < 18446744073709551616

module _ {ℓ} {Object : Type ℓ} where
  pub no_objects-IsPool : IsPool (no_objects {Object = Object})
  unfolding no_objects
  no_objects-IsPool = record { distinct = tt; counted = refl; small = omega arith }

  module _ (fresh : ℕ) (object : Object) (p : Pool Object) (i : IsPool p)
      (h : Absent fresh p.storage) (few : p.count + 1 < 18446744073709551616) where
    -- For a pool whose slots have different objects and whose count is the number of those handed
    -- out, when the new object would get the address of no slot and the count is not at its limit,
    -- make keeps this, counts one more, hands out an object that was not handed out before and holds
    -- the given value, and changes no other one that is handed out.
    pub make_lem :
        IsPool (make fresh object p).0
        × (size (make fresh object p).0 ≡ size p + 1)
        × (held p.storage (make fresh object p).1 ≡ none)
        × (held (make fresh object p).0.storage (make fresh object p).1 ≡ some object)
        × ((a : ℕ)
            → a ≢ (make fresh object p).1
            → held (make fresh object p).0.storage a ≡ held p.storage a)
    unfolding make incremented size
    make_lem =
        let slot : Slot Object = record { addr = fresh; object = object; used = true } in
        let r = fill_first_lem (λ _. object) slot p.storage i.distinct h refl in
        let c = r.counted in
        let pc = i.counted in
        let now = r.held_now in
        let is : now.0 ≡ object = elim now.2 [ inl e ↦ e | inr (o', e) ↦ e ] in
        (
          record { distinct = r.distinct; counted = omega arith; small = omega arith },
          omega arith,
          r.was_free,
          now.1 ∙ ap some is,
          r.others,
        )

    get-IsPool :
        IsPool (get fresh object p).0
        × (held p.storage (get fresh object p).1 ≡ none)
        × (held (get fresh object p).0.storage (get fresh object p).1 ≢ none)
    unfolding get incremented
    get-IsPool =
        let slot : Slot Object = record { addr = fresh; object = object; used = true } in
        let r = fill_first_lem (λ o. o) slot p.storage i.distinct h refl in
        let c = r.counted in
        let pc = i.counted in
        let now = r.held_now.1 in
        (
          record { distinct = r.distinct; counted = omega arith; small = omega arith },
          r.was_free,
          λ e. absurd cc,
        )

  -- For a pool whose slots have different objects and whose count is the number of those handed out,
  -- eat of an object that is handed out keeps this, returns true and counts one less; the object is
  -- no longer handed out, and every other one is as before, whether or not the pool drops its free
  -- slots.
  pub eat_lem :
      (a : ℕ) (p : Pool Object)
      → IsPool p
      → held p.storage a ≢ none
      → IsPool (eat a p).0
        × ((eat a p).1 ≡ true)
        × (size (eat a p).0 + 1 ≡ size p)
        × (held (eat a p).0.storage a ≡ none)
        × ((b : ℕ) → b ≢ a → held (eat a p).0.storage b ≡ held p.storage b)
  unfolding eat decremented size
  eat_lem a p i h = elim (Option-cases (mark_unused a p.storage)) [
    | inl e ↦ absurd (h (mark_unused-none a p.storage e))
    | inr (storage, e) ↦
        let m = mark_unused_lem a p.storage storage e i.distinct in
        let c = m.counted h in
        let pc = i.counted in
        let count = (p.count + 18446744073709551615) % 18446744073709551616 in
        let less : count + 1 ≡ p.count = omega (arith, i.small) in
        let small : count < 18446744073709551616 = omega arith in
        let right : count ≡ used_count storage = omega arith in
        let u = remove_unused_lem storage m.distinct in
        elim (Bool-cases (leb ((count * 2) % 18446744073709551616) (length storage))) [
          | inl compacts ↦
              rw (eat, e, compacts)
                (
                  record { distinct = u.0; counted = right ∙ sym u.2; small = small },
                  refl,
                  less,
                  u.3 a ∙ m.gone,
                  λ b off. u.3 b ∙ m.others b off,
                )
          | inr keeps ↦
              rw (eat, e, keeps)
                (
                  record { distinct = m.distinct; counted = right; small = small },
                  refl,
                  less,
                  m.gone,
                  m.others,
                )
        ]
  ]
