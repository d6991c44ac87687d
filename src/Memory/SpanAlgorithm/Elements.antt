-- ===== src/Memory/SpanAlgorithm/Elements.antt =====
-- span_algorithm.cpp: the searches for one element, and what stands before and behind it.
use mathlib.Core.List.{append-nil, append_assoc}
use eagine_core.Common.{
  ℕ, zero, suc, ◌+◌, Bool, true, false, Option, none, some, List, [], ◌∷◌, ◌++◌, if◌then◌else◌,
  length, get_elem?, length-append, Bool-cases, Option-cases, inl, inr, ◌≡◌, refl, sym, arith,
}
use eagine_core.Common.Integers.{pos}
use eagine_core.Memory.SpanAlgorithm.Slices.{head, skip}
use eagine_core.Memory.SpanAlgorithm.Searches.{
  find_element_if, find_element_if_from, find_element, find_element_from, has_element,
  has_element_from, skip_until, take_until,
}
use eagine_core.Memory.SpanAlgorithm.Prefixes.{head-append, skip-append}

module _ {ℓ} {A : Type ℓ} (p : A → Bool) where
  -- No element of a list satisfies the predicate.
  abbrev pub NoneOf : List A → Type 0
  NoneOf [] = Unit {0}
  NoneOf (x ∷ xs) = (p x ≡ false) × NoneOf xs

  -- `before` and `found` cut the list at the first element that satisfies the predicate.
  pub record IsCut (s before found : List A) : Type ℓ where
    pub whole : before ++ found ≡ s
    pub skipped : NoneOf before
    pub first : (x : A) × (rest : List A) × (found ≡ x ∷ rest) × (p x ≡ true)

  get_elem?-append :
      (pre rest : List A) (x : A) (i : ℕ)
      → length pre ≡ i
      → get_elem? (pre ++ (x ∷ rest)) i ≡ some x
  get_elem?-append [] rest x zero e = refl
  get_elem?-append [] rest x (suc i) e = absurd (omega arith)
  get_elem?-append (y ∷ pre) rest x zero e = absurd (omega arith)
  get_elem?-append (y ∷ pre) rest x (suc i) e = get_elem?-append pre rest x i (omega arith)

  NoneOf-append : (xs : List A) (x : A) → NoneOf xs → p x ≡ false → NoneOf (xs ++ (x ∷ []))
  NoneOf-append [] x h e = (e, tt)
  NoneOf-append (y ∷ xs) x h e = (h.0, NoneOf-append xs x h.1 e)

  -- What a search returns of `s`.
  abbrev IsFound : List A → Option ℕ → Type ℓ
  IsFound s none = (before : List A) × (before ≡ s) × NoneOf before
  IsFound s (some i) =
      (before : List A) × (found : List A) × IsCut s before found × (length before ≡ i)

  find_element_if_from-IsFound :
      (rest pre : List A) (i : ℕ)
      → length pre ≡ i
      → NoneOf pre
      → IsFound (pre ++ rest) (find_element_if_from p (length rest) i (pre ++ rest))
  unfolding find_element_if_from
  find_element_if_from-IsFound [] pre i e h = (pre, sym (append-nil pre), h)
  find_element_if_from-IsFound (x ∷ rest) pre i e h =
      let next = find_element_if_from p (length rest) (i + 1) (pre ++ (x ∷ rest)) in
      let step : find_element_if_from p (suc (length rest)) i (pre ++ (x ∷ rest))
          ≡ (if p x then some i else next) =
        rw (find_element_if_from, get_elem?-append pre rest x i e) refl in
      elim (Bool-cases (p x)) [
        | inl holds ↦
            rw (step, holds)
              (
                pre,
                x ∷ rest,
                record { whole = refl; skipped = h; first = (x, rest, refl, holds) },
                e,
              )
        | inr fails ↦
            let longer : length (pre ++ (x ∷ [])) ≡ i + 1 =
              omega (arith, length-append pre (x ∷ []), e) in
            rw (step, fails)
              (rw (append_assoc pre (x ∷ []) rest) at (
                find_element_if_from-IsFound rest (pre ++ (x ∷ [])) (i + 1) longer
                  (NoneOf-append pre x h fails)))
      ]

  -- What `take_until` and `skip_until` are to give for what the search of `s` has returned.
  abbrev pub IsUntil : List A → Option ℕ → List A → List A → Type ℓ
  IsUntil s none before found = (before ≡ s) × (found ≡ s) × NoneOf s
  IsUntil s (some i) before found = IsCut s before found

  IsFound-IsUntil :
      (s : List A) (o : Option ℕ)
      → IsFound s o
      → IsUntil s o
          (elim o [ none ↦ s | some i ↦ head s (pos i) ])
          (elim o [ none ↦ s | some i ↦ skip s (pos i) ])
  IsFound-IsUntil s none (before, e, h) = (refl, refl, rw e at h)
  IsFound-IsUntil s (some i) (before, found, cut, l) =
      let front : head s (pos i) ≡ before = rw (sym cut.whole, sym l) (head-append before found) in
      let back : skip s (pos i) ≡ found = rw (sym cut.whole, sym l) (skip-append before found) in
      rw (front, back) cut

  -- take_until and skip_until cut a span at the first element that satisfies the predicate, where no
  -- element before it does; when no element of the span does, both are the whole span.
  until_lem : (s : List A) → IsUntil s (find_element_if s p) (take_until s p) (skip_until s p)
  unfolding find_element_if take_until skip_until
  until_lem s =
      IsFound-IsUntil s (find_element_if_from p (length s) 0 s)
        (find_element_if_from-IsFound s [] 0 refl tt)

module _ {ℓ} {A : Type ℓ} (eq : A → A → Bool) where
  find_element_from_lem :
      (n i : ℕ) (s : List A) (what : A)
      → (find_element_from eq n i s what ≡ find_element_if_from (λ x. eq x what) n i s)
        × (has_element_from eq n i s what
            ≡ elim (find_element_if_from (λ x. eq x what) n i s) [ none ↦ false | some j ↦ true ])
  unfolding find_element_from find_element_if_from has_element_from
  find_element_from_lem zero i s what = (refl, refl)
  find_element_from_lem (suc n) i s what =
      let rest = find_element_from_lem n (i + 1) s what in
      elim (Option-cases (get_elem? s i)) [
        | inl out ↦ rw (find_element_from, has_element_from, find_element_if_from, out) (refl, refl)
        | inr (x, at_i) ↦ elim (Bool-cases (eq x what)) [
          | inl holds ↦
              rw (find_element_from, has_element_from, find_element_if_from, at_i, holds)
                (refl, refl)
          | inr fails ↦
              rw (find_element_from, has_element_from, find_element_if_from, at_i, fails) rest
        ]
      ]

  -- find_element is find_element_if for the elements equal to the given one, and has_element is true
  -- exactly when it finds one.
  find_element_lem :
      (s : List A) (what : A)
      → (find_element eq s what ≡ find_element_if s (λ x. eq x what))
        × (has_element eq s what ≡ elim (find_element eq s what) [ none ↦ false | some j ↦ true ])
  unfolding find_element find_element_if has_element
  find_element_lem s what =
      let both = find_element_from_lem (length s) 0 s what in (both.0, rw both.0 both.1)
