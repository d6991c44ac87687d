-- ===== src/Memory/SpanAlgorithm/Prefixes.antt =====
-- span_algorithm.cpp: slices that make up the span, prefixes and suffixes.
use eagine_core.Common.{
  ℕ, ◌-◌, ◌≤◌, min, Bool, true, List, [], ◌∷◌, ◌++◌, ◌==◌, length, take, drop, length-take,
  length-drop, length-append, take-append-drop, &&-eq-true, Bool-cases, inl, inr, ◌≡◌, ◌≢◌, ◌↔◌,
  refl, sym, ap, ap₂, arith,
}
use eagine_core.Common.Integers.{ℤ, pos, negsuc, size_less, clamp}
use eagine_core.Memory.SpanAlgorithm.Slices.{
  skip, head, snip, tail, equal, are_equal, starts_with, ends_with, strip_prefix, strip_suffix,
}

-- `eq` decides the equality of elements.
abbrev pub IsEquality {ℓ} : {A : Type ℓ} → (A → A → Bool) → Type ℓ
IsEquality {A = A} eq = (a b : A) → (eq a b ≡ true) ↔ (a ≡ b)

module _ {ℓ} {A : Type ℓ} where
  pub take-append : (xs ys : List A) → take (length xs) (xs ++ ys) ≡ xs
  take-append [] ys = refl
  take-append (x ∷ xs) ys = ap (λ l. x ∷ l) (take-append xs ys)

  pub drop-append : (xs ys : List A) → drop (length xs) (xs ++ ys) ≡ ys
  drop-append [] ys = refl
  drop-append (x ∷ xs) ys = drop-append xs ys

  -- At any signed number, head and skip cut a span in two, and so do snip and tail; head and tail
  -- have the number of elements asked for, clamped to what there is.
  pub slices_lem :
      (s : List A) (l : ℤ)
      → (head s l ++ skip s l ≡ s)
        × (snip s l ++ tail s l ≡ s)
        × (length (head s l) ≡ clamp l (length s))
        × (length (tail s l) ≡ clamp l (length s))
  unfolding head skip snip tail
  slices_lem s l = (
    take-append-drop (clamp l (length s)) s,
    take-append-drop (clamp (size_less (length s) l) (length s)) s,
    omega (arith, length-take (clamp l (length s)) s, clamp_le l (length s)),
    omega (
      arith,
      length-drop (clamp (size_less (length s) l) (length s)) s,
      clamp-size_less l (length s),
    ),
  )
    where
      clamp_le : (l : ℤ) (n : ℕ) → clamp l n ≤ n
      clamp_le (pos l) n = omega arith
      clamp_le (negsuc l) n = omega arith

      clamp-size_less : (l : ℤ) (n : ℕ) → n - clamp (size_less n l) n ≡ clamp l n
      clamp-size_less (pos l) n = ground arith
      clamp-size_less (negsuc l) n = ground arith

  module _ (eq : A → A → Bool) (laws : IsEquality eq) where
    pub equal_iff : (xs ys : List A) → length xs ≡ length ys → (equal eq xs ys ≡ true) ↔ (xs ≡ ys)
    unfolding equal
    equal_iff [] [] e = (λ h. refl, λ h. refl)
    equal_iff [] (y ∷ ys) e = absurd (omega arith)
    equal_iff (x ∷ xs) [] e = absurd (omega arith)
    equal_iff (x ∷ xs) (y ∷ ys) e =
        let rest = equal_iff xs ys (omega arith) in
        (
          λ h.
              let both = &&-eq-true (eq x y) (equal eq xs ys) h in
              ap₂ ◌∷◌ ((laws x y).0 both.0) (rest.0 both.1),
          λ h. rw ((laws x y).1 (cc h), rest.1 (cc h)) refl,
        )

    pub are_equal_iff : (xs ys : List A) → (are_equal eq xs ys ≡ true) ↔ (xs ≡ ys)
    unfolding are_equal
    are_equal_iff xs ys = elim (Bool-cases (length xs == length ys)) [
      | inl same ↦
          let e : length xs ≡ length ys = ground arith in
          (λ h. (equal_iff xs ys e).0 (rw same at h), λ h. rw same ((equal_iff xs ys e).1 h))
      | inr other ↦ (λ h. ground arith, λ h. ground (arith, ap length h))
    ]

module _ {ℓ} {A : Type ℓ} (xs ys : List A) where
  pub head-append : head (xs ++ ys) (pos (length xs)) ≡ xs
  unfolding head
  head-append =
      let e : min (length xs) (length (xs ++ ys)) ≡ length xs =
        omega (arith, length-append xs ys) in
      rw e (take-append xs ys)

  pub skip-append : skip (xs ++ ys) (pos (length xs)) ≡ ys
  unfolding skip
  skip-append =
      let e : min (length xs) (length (xs ++ ys)) ≡ length xs =
        omega (arith, length-append xs ys) in
      rw e (drop-append xs ys)

  cut : clamp (size_less (length (xs ++ ys)) (pos (length ys))) (length (xs ++ ys)) ≡ length xs
  cut = ground (arith, length-append xs ys)

  pub tail-append : tail (xs ++ ys) (pos (length ys)) ≡ ys
  unfolding tail skip
  tail-append = rw cut (drop-append xs ys)

  pub snip-append : snip (xs ++ ys) (pos (length ys)) ≡ xs
  unfolding snip head
  snip-append = rw cut (take-append xs ys)

module _ {ℓ} {A : Type ℓ} (eq : A → A → Bool) (laws : IsEquality eq) where
  -- For an equality of elements, starts_with is true exactly when the span is the other one with
  -- elements behind it, and ends_with exactly when it is the other one with elements before it.
  pub starts_with_iff :
      (spn with : List A)
      → ((starts_with eq spn with ≡ true) ↔ ((rest : List A) × (spn ≡ with ++ rest)))
        × ((ends_with eq spn with ≡ true) ↔ ((rest : List A) × (spn ≡ rest ++ with)))
  unfolding starts_with ends_with
  starts_with_iff spn with =
      let n = pos (length with) in
      (
        (
          λ h. (
            skip spn n,
            rw ((are_equal_iff eq laws (head spn n) with).0 h) at (sym (slices_lem spn n).0),
          ),
          λ (rest, e). (are_equal_iff eq laws (head spn n) with).1 (rw e (head-append with rest)),
        ),
        (
          λ h. (
            snip spn n,
            rw ((are_equal_iff eq laws (tail spn n) with).0 h) at (sym (slices_lem spn n).1),
          ),
          λ (rest, e). (are_equal_iff eq laws (tail spn n) with).1 (rw e (tail-append rest with)),
        ),
      )

  -- For an equality of elements, strip_prefix and strip_suffix take away a prefix or a suffix that
  -- is there, and leave a span without it as it is.
  strip_lem :
      (s p : List A)
      → (strip_prefix eq (p ++ s) p ≡ s)
        × (strip_suffix eq (s ++ p) p ≡ s)
        × (((rest : List A) → s ≢ p ++ rest) → strip_prefix eq s p ≡ s)
        × (((rest : List A) → s ≢ rest ++ p) → strip_suffix eq s p ≡ s)
  unfolding strip_prefix strip_suffix
  strip_lem s p = (
    rw ((starts_with_iff (p ++ s) p).0.1 (s, refl)) (skip-append p s),
    rw ((starts_with_iff (s ++ p) p).1.1 (s, refl)) (snip-append s p),
    λ h. elim (Bool-cases (starts_with eq s p)) [
      | inl found ↦ let r = (starts_with_iff s p).0.0 found in absurd (h r.0 r.1)
      | inr missing ↦ rw missing refl
    ],
    λ h. elim (Bool-cases (ends_with eq s p)) [
      | inl found ↦ let r = (starts_with_iff s p).1.0 found in absurd (h r.0 r.1)
      | inr missing ↦ rw missing refl
    ],
  )
