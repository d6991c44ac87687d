-- ===== src/Container/ObjectPool/Slots.antt =====
-- object_pool.cpp: the slots, and what they hold.
use eagine_core.Common.{
  ℕ, ◌+◌, true, false, not, List, [], ◌∷◌, Option, none, some, ◌==◌, if◌then◌else◌, Bool-cases, ◌⊎◌,
  inl, inr, ◌≡◌, ◌≢◌, refl, arith,
}
use eagine_core.Container.ObjectPool.{Slot, fill_first}

module _ {ℓ} {Object : Type ℓ} where
  -- The object that is handed out under an address.
  abbrev pub held : List (Slot Object) → ℕ → Option Object
  held [] a = none
  held (s ∷ storage) a =
      let rest = held storage a in
      if s.addr == a then (if s.used then some s.object else none) else rest

  abbrev pub used_count : List (Slot Object) → ℕ
  used_count [] = 0
  used_count (s ∷ storage) = (if s.used then 1 else 0) + used_count storage

  -- No slot has this address.
  abbrev pub Absent : ℕ → List (Slot Object) → Type 0
  Absent a [] = Unit {0}
  Absent a (s ∷ storage) = (s.addr ≢ a) × Absent a storage

  abbrev pub Distinct : List (Slot Object) → Type 0
  Distinct [] = Unit {0}
  Distinct (s ∷ storage) = Absent s.addr storage × Distinct storage

  pub held-Absent :
      (a : ℕ) (storage : List (Slot Object)) → Absent a storage → held storage a ≡ none
  held-Absent a [] h = refl
  held-Absent a (s ∷ storage) h =
      let off : (s.addr == a) ≡ false = ground (arith, h.0) in rw off (held-Absent a storage h.1)

  module _ (change : Object → Object) (new : Slot Object) where
    fill_first-Absent :
        (a : ℕ) (storage : List (Slot Object))
        → Absent a storage
        → new.addr ≢ a
        → Absent a (fill_first change new storage).0
    unfolding fill_first
    fill_first-Absent a [] h n = (n, tt)
    fill_first-Absent a (s ∷ storage) h n = elim (Bool-cases (not s.used)) [
      | inl free ↦ rw free h
      | inr taken ↦ rw taken (h.0, fill_first-Absent a storage h.1 n)
    ]

    fill_first_addr :
        (a : ℕ) (storage : List (Slot Object))
        → Absent a storage
        → new.addr ≢ a
        → (fill_first change new storage).1 ≢ a
    unfolding fill_first
    fill_first_addr a [] h n = n
    fill_first_addr a (s ∷ storage) h n = elim (Bool-cases (not s.used)) [
      | inl free ↦ rw free h.0
      | inr taken ↦ rw taken (fill_first_addr a storage h.1 n)
    ]

    -- The result of a search for a free slot.
    pub record Filled (storage : List (Slot Object)) (r : List (Slot Object) × ℕ) : Type ℓ where
      pub distinct : Distinct r.0
      pub counted : used_count r.0 ≡ used_count storage + 1
      pub was_free : held storage r.1 ≡ none
      pub held_now :
          (o : Object) × (held r.0 r.1 ≡ some o)
          × ((o ≡ new.object) ⊎ ((o' : Object) × (o ≡ change o')))
      pub others : (a : ℕ) → a ≢ r.1 → held r.0 a ≡ held storage a

    pub fill_first_lem :
        (storage : List (Slot Object))
        → Distinct storage
        → Absent new.addr storage
        → new.used ≡ true
        → Filled storage (fill_first change new storage)
    unfolding fill_first
    fill_first_lem [] d h u =
        let same : (new.addr == new.addr) ≡ true = ground arith in
        record {
          distinct = (tt, tt);
          counted = rw u refl;
          was_free = refl;
          held_now = (new.object, rw (same, u) refl, inl refl);
          others =
              λ a off. let no_match : (new.addr == a) ≡ false = ground arith in rw no_match refl;
        }
    fill_first_lem (s ∷ storage) d h u = elim (Bool-cases s.used) [
      | inr free ↦
          let same : (s.addr == s.addr) ≡ true = ground arith in
          rw free (record {
            distinct = d;
            counted = omega arith;
            was_free = rw same refl;
            held_now = (change s.object, rw same refl, inr (s.object, refl));
            others =
                λ a off. let no_match : (s.addr == a) ≡ false = ground arith in rw no_match refl;
          })
      | inl taken ↦
          let r = fill_first_lem storage d.1 h.1 u in
          let off = fill_first_addr s.addr storage d.0 (ground (arith, h.0)) in
          let no_match : (s.addr == (fill_first change new storage).1) ≡ false = ground arith in
          rw taken (record {
            distinct = (fill_first-Absent s.addr storage d.0 (ground (arith, h.0)), r.distinct);
            counted = omega (arith, r.counted);
            was_free = rw no_match r.was_free;
            held_now = (r.held_now.0, rw no_match r.held_now.1, r.held_now.2);
            others = λ a differs. elim (Bool-cases (s.addr == a)) [
              | inl here ↦ rw here refl
              | inr there ↦ rw there (r.others a differs)
            ];
          })
    ]
