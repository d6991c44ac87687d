-- ===== src/Container/ObjectPool/Marks.antt =====
-- object_pool.cpp: the slots after the search of `eat`, and without those that are free.
use mathlib.Core.Option.{some-injective}
use eagine_core.Common.{
  ℕ, suc, ◌+◌, false, none, some, List, [], ◌∷◌, ◌==◌, Bool-cases, Option-cases, inl, inr, ◌≡◌, ◌≢◌,
  refl, sym, ap, arith, length,
}
use eagine_core.Container.ObjectPool.{Slot, mark_unused, remove_unused}
use eagine_core.Container.ObjectPool.Slots.{held, used_count, Absent, Distinct, held-Absent}

module _ {ℓ} {Object : Type ℓ} where
  -- The results of `eat`'s search.
  pub mark_unused-none :
      (a : ℕ) (storage : List (Slot Object)) → mark_unused a storage ≡ none → held storage a ≡ none
  unfolding mark_unused
  mark_unused-none a [] e = refl
  mark_unused-none a (s ∷ storage) e = elim (Bool-cases (s.addr == a)) [
    | inl here ↦ let f = rw here at e in absurd cc
    | inr there ↦ elim (Option-cases (mark_unused a storage)) [
      | inl m ↦ rw there (mark_unused-none a storage m)
      | inr (rest, m) ↦ let f = rw (there, m) at e in absurd cc
    ]
  ]

  mark_unused-Absent :
      (a b : ℕ) (storage storage' : List (Slot Object))
      → mark_unused a storage ≡ some storage'
      → Absent b storage
      → Absent b storage'
  unfolding mark_unused
  mark_unused-Absent a b [] storage' e h = absurd cc
  mark_unused-Absent a b (s ∷ storage) storage' e h = elim (Bool-cases (s.addr == a)) [
    | inl here ↦
        let f = some-injective (record s { used = false } ∷ storage) storage' (rw here at e) in
        rw (sym f) h
    | inr there ↦ elim (Option-cases (mark_unused a storage)) [
      | inl m ↦ let f = rw (there, m) at e in absurd cc
      | inr (rest, m) ↦
          let f = some-injective (s ∷ rest) storage' (rw (there, m) at e) in
          rw (sym f) (h.0, mark_unused-Absent a b storage rest m h.1)
    ]
  ]

  pub record Marked (a : ℕ) (storage storage' : List (Slot Object)) : Type ℓ where
    pub distinct : Distinct storage'
    pub long : length storage' ≡ length storage
    pub counted : held storage a ≢ none → used_count storage' + 1 ≡ used_count storage
    pub gone : held storage' a ≡ none
    pub others : (b : ℕ) → b ≢ a → held storage' b ≡ held storage b

  pub mark_unused_lem :
      (a : ℕ) (storage storage' : List (Slot Object))
      → mark_unused a storage ≡ some storage'
      → Distinct storage
      → Marked a storage storage'
  unfolding mark_unused
  mark_unused_lem a [] storage' e d = absurd cc
  mark_unused_lem a (s ∷ storage) storage' e d = elim (Bool-cases (s.addr == a)) [
    | inl here ↦
        let f = some-injective (record s { used = false } ∷ storage) storage' (rw here at e) in
        rw (sym f) (record {
          distinct = d;
          long = refl;
          counted = λ h. elim (Bool-cases s.used) [
            | inl u ↦ ground arith
            | inr u ↦ absurd (h (rw (here, u) refl))
          ];
          gone = rw here refl;
          others = λ b off. let no_match : (s.addr == b) ≡ false = ground arith in rw no_match refl;
        })
    | inr there ↦ elim (Option-cases (mark_unused a storage)) [
      | inl m ↦ let f = rw (there, m) at e in absurd cc
      | inr (rest, m) ↦
          let f = some-injective (s ∷ rest) storage' (rw (there, m) at e) in
          let r = mark_unused_lem a storage rest m d.1 in
          rw (sym f) (record {
            distinct = (mark_unused-Absent a s.addr storage rest m d.0, r.distinct);
            long = ap suc r.long;
            counted = λ h. omega (arith, r.counted (λ z. h (rw there z)));
            gone = rw there r.gone;
            others = λ b off. elim (Bool-cases (s.addr == b)) [
              | inl same ↦ rw same refl
              | inr other ↦ rw other (r.others b off)
            ];
          })
    ]
  ]

  remove_unused-Absent :
      (a : ℕ) (storage : List (Slot Object)) → Absent a storage → Absent a (remove_unused storage)
  unfolding remove_unused
  remove_unused-Absent a [] h = tt
  remove_unused-Absent a (s ∷ storage) h = elim (Bool-cases s.used) [
    | inl kept ↦ rw kept (h.0, remove_unused-Absent a storage h.1)
    | inr dropped ↦ rw dropped (remove_unused-Absent a storage h.1)
  ]

  pub remove_unused_lem :
      (storage : List (Slot Object))
      → Distinct storage
      → Distinct (remove_unused storage)
        × (length (remove_unused storage) ≡ used_count storage)
        × (used_count (remove_unused storage) ≡ used_count storage)
        × ((a : ℕ) → held (remove_unused storage) a ≡ held storage a)
  unfolding remove_unused
  remove_unused_lem [] d = (tt, refl, refl, λ a. refl)
  remove_unused_lem (s ∷ storage) d =
      let r = remove_unused_lem storage d.1 in
      elim (Bool-cases s.used) [
        | inl kept ↦ rw kept (
          (remove_unused-Absent s.addr storage d.0, r.0),
          omega (arith, r.1),
          omega (arith, r.2),
          λ a. elim (Bool-cases (s.addr == a)) [
            | inl here ↦ rw here refl
            | inr there ↦ rw there (r.3 a)
          ],
        )
        | inr dropped ↦ rw dropped (
          r.0,
          omega (arith, r.1),
          omega (arith, r.2),
          λ a. elim (Bool-cases (s.addr == a)) [
            | inl here ↦
                let e : s.addr ≡ a = ground arith in
                rw here (
                  held-Absent a (remove_unused storage)
                    (remove_unused-Absent a storage (rw e at d.0)))
            | inr there ↦ rw there (r.3 a)
          ],
        )
      ]
