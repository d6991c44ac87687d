-- ===== src/Memory/SpanAlgorithm/Splits.antt =====
-- span_algorithm.cpp: the pieces of a split make up the span.
use mathlib.Core.Option.{get_or, some-injective}
use mathlib.Core.List.{append_assoc}
use eagine_core.Common.{
  ℕ, zero, suc, ◌+◌, ◌<◌, min, Bool, true, false, Option, none, some, List, [], ◌∷◌, ◌++◌, length,
  Option-cases, length-append, take-length, drop_all, inl, inr, ◌≡◌, refl, sym, ap, ◌∙◌, arith,
}
use eagine_core.Common.Integers.{pos}
use eagine_core.Memory.SpanAlgorithm.Slices.{head, skip, starts_with}
use eagine_core.Memory.SpanAlgorithm.Searches.{
  contains, find_position, reverse_find_position, split_by_first, split_by_last,
}
use eagine_core.Memory.SpanAlgorithm.Parts.{delimited, for_each_delimited}
use eagine_core.Memory.SpanAlgorithm.Prefixes.{IsEquality, skip-append, starts_with_iff, slices_lem}
use eagine_core.Memory.SpanAlgorithm.Positions.{IsFirst, IsLast, find_position_lem}

module _ {ℓ} {A : Type ℓ} where
  -- Two spans that a split at a position with `P` leaves of `s`, whether or not `what` is in it.
  abbrev pub IsSplit : List A → List A → (ℕ → Type 0) → Bool → List A × List A → Type ℓ
  IsSplit s what P true r = (r.0 ++ (what ++ r.1) ≡ s) × P (length r.0)
  IsSplit s what P false r = (r.0 ≡ s) × (r.1 ≡ [])

  -- Parts with the delimiter between them.
  abbrev pub joined : List A → List A → List (List A) → List A
  joined delim part [] = part
  joined delim part (next ∷ parts) = part ++ (delim ++ joined delim next parts)

  skip-middle :
      (s pre what rest : List A) (p : ℕ)
      → s ≡ (pre ++ what) ++ rest
      → length pre ≡ p
      → skip s (pos (p + length what)) ≡ rest
  skip-middle s pre what rest p e l =
      let n : p + length what ≡ length (pre ++ what) = omega (arith, length-append pre what) in
      rw (n, e) (skip-append (pre ++ what) rest)

  whole :
      (s : List A) → (head s (pos (length s)) ≡ s) × ((n : ℕ) → skip s (pos (length s + n)) ≡ [])
  unfolding head skip
  whole s = (
    take-length (min (length s) (length s)) s (omega arith),
    λ n. drop_all (min (length s + n) (length s)) s (omega arith),
  )

  length-head : (s : List A) (p : ℕ) → p < length s → length (head s (pos p)) ≡ p
  length-head s p h = omega (arith, (slices_lem s (pos p)).2)

abbrev is_some : Option ℕ → Bool
is_some o = elim o [ none ↦ false | some p ↦ true ]

module _ {ℓ} {A : Type ℓ} (eq : A → A → Bool) where
  -- Each delimiter stands at the first position at which what is left of the span goes on with it, and
  -- the last part goes on with it nowhere.
  abbrev pub AreCuts : List A → List A → List (List A) → Type 0
  AreCuts delim part [] = IsFirst eq part delim 0 (length part) none
  AreCuts delim part (next ∷ parts) =
      IsFirst eq (joined delim part (next ∷ parts)) delim 0
        (length (joined delim part (next ∷ parts))) (some (length part))
      × AreCuts delim next parts

module _ {ℓ} {A : Type ℓ} (eq : A → A → Bool) (laws : IsEquality eq) where
  -- The span around `what` at a position where it stands.
  pub around :
      (s what : List A) (p : ℕ)
      → p < length s
      → starts_with eq (skip s (pos p)) what ≡ true
      → (head s (pos p) ++ (what ++ skip s (pos (p + length what))) ≡ s)
        × (p + length what + length (skip s (pos (p + length what))) ≡ length s)
  around s what p h f =
      let found = (starts_with_iff eq laws (skip s (pos p)) what).0.0 f in
      let pre = head s (pos p) in
      let parts : s ≡ pre ++ (what ++ found.0) =
        sym (slices_lem s (pos p)).0 ∙ ap (λ t. pre ++ t) found.1 in
      let l : length pre ≡ p = omega (arith, (slices_lem s (pos p)).2) in
      let after : skip s (pos (p + length what)) ≡ found.0 =
        skip-middle s pre what found.0 p (parts ∙ sym (append_assoc pre what found.0)) l in
      (
        rw after (sym parts),
        rw after (
            omega (
              arith,
              ap length parts,
              length-append pre (what ++ found.0),
              length-append what found.0,
              l,
            )),
      )

  IsSplit-at :
      (s what : List A) (P : ℕ → Type 0) (o : Option ℕ)
      → ((p : ℕ) → o ≡ some p → (p < length s) × (starts_with eq (skip s (pos p)) what ≡ true))
      → ((p : ℕ) → o ≡ some p → P p)
      → IsSplit s what P
          (is_some o)
          (head s (pos (get_or o (length s))), skip s (pos (get_or o (length s) + length what)))
  IsSplit-at s what P none f k = ((whole s).0, (whole s).1 (length what))
  IsSplit-at s what P (some p) f k =
      let here = f p refl in
      let cut = length-head s p here.0 in ((around s what p here.0 here.1).0, rw cut (k p refl))

  first_found :
      (s what : List A) (o : Option ℕ) (p : ℕ)
      → IsFirst eq s what 0 (length s) o
      → o ≡ some p
      → (p < length s) × (starts_with eq (skip s (pos p)) what ≡ true)
  first_found s what none p f e = ground arith
  first_found s what (some q) p f e =
      let same = sym (some-injective q p e) in rw same (omega (arith, f.0), f.1)

  last_found :
      (s what : List A) (o : Option ℕ) (p : ℕ)
      → IsLast eq s what (length s) o
      → o ≡ some p
      → (p < length s) × (starts_with eq (skip s (pos p)) what ≡ true)
  last_found s what none p f e = ground arith
  last_found s what (some q) p f e = let same = sym (some-injective q p e) in rw same (f.0, f.1)

  agree :
      (s what : List A) (o r : Option ℕ)
      → IsFirst eq s what 0 (length s) o
      → IsLast eq s what (length s) r
      → is_some o ≡ is_some r
  agree s what none none f l = refl
  agree s what none (some q) f l = ground (arith, f q (omega arith) (omega (arith, l.0)), l.1)
  agree s what (some p) none f l = ground (arith, l p (omega (arith, f.0)), f.1)
  agree s what (some p) (some q) f l = refl

  -- For an equality of elements, the two spans of split_by_first, and those of split_by_last, with
  -- what between them are the span if it contains what, and the length of the first one is the first
  -- position in the span at which it goes on with what, or the last one; if not, they are the span
  -- and the empty span.
  pub split_lem :
      (s what : List A)
      → IsSplit s what
          (λ p. IsFirst eq s what 0 (length s) (some p))
          (contains eq s what)
          (split_by_first eq s what)
        × IsSplit s what
            (λ p. IsLast eq s what (length s) (some p))
            (contains eq s what)
            (split_by_last eq s what)
  unfolding split_by_first split_by_last
  split_lem s what =
      let all = find_position_lem eq s what in
      let o = find_position eq s what in
      let r = reverse_find_position eq s what in
      (
        rw all.2 (
            IsSplit-at s what (λ p. IsFirst eq s what 0 (length s) (some p)) o
              (λ p e. first_found s what o p all.0 e) (λ p e. rw e at all.0)),
        rw (all.2, agree s what o r all.0 all.1)
            (IsSplit-at s what (λ p. IsLast eq s what (length s) (some p)) r
              (λ p e. last_found s what r p all.1 e) (λ p e. rw e at all.1)),
      )

  delimited_lem :
      (delim : List A) (fuel : ℕ) (tmp : List A)
      → 0 < length delim
      → length tmp < fuel
      → (part : List A) × (parts : List (List A)) × (delimited eq fuel tmp delim
          ≡ some (part ∷ parts))
        × (joined delim part parts ≡ tmp)
        × AreCuts eq delim part parts
  unfolding delimited
  delimited_lem delim zero tmp d h = absurd (omega arith)
  delimited_lem delim (suc fuel) tmp d h =
      let found = (find_position_lem eq tmp delim).0 in
      elim (Option-cases (find_position eq tmp delim)) [
        | inl nowhere ↦ (tmp, [], rw (delimited, nowhere) refl, refl, rw nowhere at found)
        | inr (p, e) ↦
            let here = first_found tmp delim (find_position eq tmp delim) p found e in
            let cut = around tmp delim p here.0 here.1 in
            let (part, parts, ran, whole_rest, cuts) =
              delimited_lem delim fuel (skip tmp (pos (p + length delim))) d
                (omega (arith, cut.1)) in
            let whole : head tmp (pos p) ++ (delim ++ joined delim part parts) ≡ tmp =
              rw whole_rest cut.0 in
            let first : IsFirst eq tmp delim 0 (length tmp) (some (length (head tmp (pos p)))) =
              let n = length-head tmp p here.0 in rw n (rw e at found) in
            (
              head tmp (pos p),
              part ∷ parts,
              rw (delimited, e, ran) refl,
              whole,
              (rw whole first, cuts),
            )
      ]

  -- For an equality of elements and a delimiter that is not empty, for_each_delimited ends, and the
  -- parts that it calls the function on, with the delimiter between each two, are the span; each of
  -- these delimiters stands at the first position at which the span behind the delimiter before it
  -- goes on with the delimiter, and the last part does so nowhere.
  pub for_each_delimited_lem :
      (s delim : List A)
      → 0 < length delim
      → (part : List A) × (parts : List (List A)) × (for_each_delimited eq s delim
          ≡ some (part ∷ parts))
        × (joined delim part parts ≡ s)
        × AreCuts eq delim part parts
  unfolding for_each_delimited
  for_each_delimited_lem s delim d = delimited_lem delim (length s + 1) s d (omega arith)
