-- ===== src/Utility/NetworkSort/ZeroOne.antt =====
-- The zero-one principle for the networks of network_sort.cpp: a network that sorts the Booleans
-- sorts every type with a strict weak order.
use eagine_core.Common.{
  ℕ, zero, suc, ◌+◌, ◌<◌, Bool, true, false, not, ◌&&◌, some, List, [], ◌∷◌, map, ◌==◌,
  if◌then◌else◌, length, ltb, ltb→lt, get_or, get_or-map, length-map, map-tabulate, ◌≡◌, refl, sym,
  ap, ◌∙◌, arith, &&-eq-true, ==_iff,
}
use mathlib.Core.Path.{subst}
use eagine_core.Common.Order.{StrictWeakOrder, before_irrefl, IsSorted, count_if, equivalent}
use eagine_core.Utility.NetworkSort.Network.{Network}
use eagine_core.Utility.NetworkSort.Sorter.{lesser, greater, min_max_cpy, step_value, sort_by}
use eagine_core.Utility.NetworkSort.Rounds.{
  parallel_round, run_rounds, sort_by-run_rounds, in_range, run_rounds-start,
}

-- `std::less<bool>`
abbrev pub less_bool : Bool → Bool → Bool
less_bool a b = not a && b

-- A function that commutes with the lesser and the greater of two.
pub record Commutes {ℓ κ} {T : Type ℓ} {U : Type κ} (before : T → T → Bool) (before' : U → U → Bool)
    (g : T → U) : Type (ℓ ⊔ κ) where
  pub low : (a b : T) → g (lesser before a b) ≡ lesser before' (g a) (g b)
  pub high : (a b : T) → g (greater before a b) ≡ greater before' (g a) (g b)

module _ {ℓ κ} {T : Type ℓ} {U : Type κ} (before : T → T → Bool) (before' : U → U → Bool)
    (g : T → U) (c : Commutes before before' g) (net : Network) (start : T) where
  cpy-map :
      (a b : T) (mn mx : Bool)
      → g (min_max_cpy before a b mn mx) ≡ min_max_cpy before' (g a) (g b) mn mx
  unfolding min_max_cpy
  cpy-map a b true mx = c.low a b
  cpy-map a b false true = c.high a b
  cpy-map a b false false = refl

  step_value-map :
      (xs : List T) (r i : ℕ)
      → g (step_value before net start xs r i) ≡ step_value before' net (g start) (map g xs) r i
  unfolding step_value
  step_value-map xs r i =
      rw (get_or-map xs g i start, get_or-map xs g (net.index r i) start)
        (cpy-map (get_or xs i start) (get_or xs (net.index r i) start) (net.min r i (net.index r i))
          (net.max r i (net.index r i)))

  -- The network does to the images what it does to the elements.
  pub run_rounds-map :
      (n k r : ℕ) (xs : List T)
      → run_rounds before' net (g start) n k r (map g xs)
        ≡ map g (run_rounds before net start n k r xs)
  unfolding run_rounds
  run_rounds-map n zero r xs = refl
  run_rounds-map n (suc k) r xs =
      ap (run_rounds before' net (g start) n k (r + 1))
        (sym (map-tabulate g (step_value before net start xs r) _ (step_value-map xs r) n 0))
      ∙ run_rounds-map n k (r + 1) (parallel_round before net start n r xs)

unfoldable pub sorted_bools : List Bool → Bool
sorted_bools [] = true
sorted_bools (x ∷ []) = true
sorted_bools (x ∷ y ∷ l) = not (less_bool y x) && sorted_bools (y ∷ l)

unfoldable pub every_bools : ℕ → (List Bool → Bool) → Bool
every_bools zero p = p []
every_bools (suc n) p = every_bools n (λ l. p (false ∷ l)) && every_bools n (λ l. p (true ∷ l))

every_bools_sound :
    (n : ℕ) (p : List Bool → Bool) (l : List Bool)
    → every_bools n p ≡ true
    → length l ≡ n
    → p l ≡ true
unfolding every_bools
every_bools_sound zero p [] h e = h
every_bools_sound zero p (x ∷ l) h e = absurd (omega arith)
every_bools_sound (suc n) p [] h e = absurd (omega arith)
every_bools_sound (suc n) p (false ∷ l) h e =
    every_bools_sound n (λ l. p (false ∷ l)) l (&&-eq-true _ _ h).0 (omega arith)
every_bools_sound (suc n) p (true ∷ l) h e =
    every_bools_sound n (λ l. p (true ∷ l)) l (&&-eq-true _ _ h).1 (omega arith)

abbrev is_true : Bool → Bool
is_true b = b

-- One list of Booleans comes out sorted, and with as many `true`s.
unfoldable pub sorts_one : Network → ℕ → List Bool → Bool
unfolding run_rounds sorted_bools
sorts_one net n l =
    let out = run_rounds less_bool net false n net.rounds 0 l in
    sorted_bools out && count_if is_true out == count_if is_true l

-- The network sorts every list of `n` Booleans, has a round, and stays inside the array.
unfoldable pub sorts_bools : Network → ℕ → Bool
unfolding every_bools in_range sorts_one
sorts_bools net n = ltb 0 net.rounds && (in_range net n && every_bools n (sorts_one net n))

sorts_one-parts :
    (net : Network) (n : ℕ) (l : List Bool)
    → sorts_one net n l ≡ true
    → let out = run_rounds less_bool net false n net.rounds 0 l in
      (sorted_bools out ≡ true) × (count_if is_true out ≡ count_if is_true l)
unfolding sorts_one
sorts_one-parts net n l h =
    let both = &&-eq-true (sorted_bools (run_rounds less_bool net false n net.rounds 0 l)) _ h in
    (both.0, (==_iff _ _).0 both.1)

sorts_bools-parts :
    (net : Network) (n : ℕ)
    → sorts_bools net n ≡ true
    → (0 < net.rounds) × (in_range net n ≡ true) × (every_bools n (sorts_one net n) ≡ true)
unfolding sorts_bools
sorts_bools-parts net n h =
    let a = &&-eq-true (ltb 0 net.rounds) _ h in
    let b = &&-eq-true (in_range net n) _ a.1 in (ltb→lt 0 net.rounds a.0, b.0, b.1)

-- The thresholds: monotone functions into the Booleans.
abbrev at_least {ℓ} : {T : Type ℓ} → (T → T → Bool) → T → T → Bool
at_least before t x = not (before x t)

abbrev above {ℓ} : {T : Type ℓ} → (T → T → Bool) → T → T → Bool
above before t x = before t x

module _ {ℓ} {T : Type ℓ} (before : T → T → Bool) (w : StrictWeakOrder before) (t : T) where
  at_least-Commutes : Commutes before less_bool (at_least before t)
  unfolding lesser greater
  at_least-Commutes = record {
    low = λ a b. ground (arith, w.asym a b, w.neg_trans a b t, w.neg_trans b a t, w.asym b a);
    high = λ a b. ground (arith, w.asym a b, w.neg_trans a b t, w.neg_trans b a t, w.asym b a);
  }

  above-Commutes : Commutes before less_bool (above before t)
  unfolding lesser greater
  above-Commutes = record {
    low = λ a b. ground (arith, w.asym a b, w.neg_trans t a b, w.neg_trans t b a, w.asym b a);
    high = λ a b. ground (arith, w.asym a b, w.neg_trans t a b, w.neg_trans t b a, w.asym b a);
  }

  count-equivalent :
      (xs : List T)
      → count_if (equivalent before t) xs + count_if (above before t) xs
        ≡ count_if (at_least before t) xs
  count-equivalent [] = omega arith
  count-equivalent (x ∷ xs) = ground (arith, count-equivalent xs, w.asym t x)

count_if-map {ℓ} :
    {T : Type ℓ} (p : T → Bool) (xs : List T) → count_if is_true (map p xs) ≡ count_if p xs
count_if-map p [] = refl
count_if-map p (x ∷ xs) = ap (λ (k : ℕ). (if p x then 1 else 0) + k) (count_if-map p xs)

module _ {ℓ} {T : Type ℓ} (before : T → T → Bool) (w : StrictWeakOrder before) where
  -- A list whose images under the thresholds are sorted is sorted.
  IsSorted-of_thresholds :
      (xs : List T)
      → ((t : T) → sorted_bools (map (at_least before t) xs) ≡ true)
      → IsSorted before xs
  unfolding sorted_bools
  IsSorted-of_thresholds [] h = tt
  IsSorted-of_thresholds (x ∷ []) h = tt
  IsSorted-of_thresholds (x ∷ y ∷ l) h = (
    ground (arith, h x, before_irrefl before w x),
    IsSorted-of_thresholds (y ∷ l) (λ t. (&&-eq-true _ _ (h t)).1),
  )

  module _ (net : Network) (start : T) (n : ℕ) (xs : List T) (l : length xs ≡ n)
      (ok : sorts_bools net n ≡ true) where
    abbrev output : List T
    output = run_rounds before net start n net.rounds 0 xs

    -- The run on the images, whatever the arrays are filled with at first.
    image_run :
        (g : T → Bool)
        → Commutes before less_bool g
        → run_rounds less_bool net false n net.rounds 0 (map g xs) ≡ map g output
    image_run g c =
        run_rounds-start less_bool net n (sorts_bools-parts net n ok).1 false (g start) net.rounds 0
          (map g xs) (omega arith) (length-map xs g ∙ l)
        ∙ run_rounds-map before less_bool g c net start n net.rounds 0 xs

    -- What the check of all Booleans says at the images of `xs`.
    image :
        (g : T → Bool)
        → Commutes before less_bool g
        → (sorted_bools (map g output) ≡ true) × (count_if g output ≡ count_if g xs)
    image g c =
        let one = sorts_one-parts net n (map g xs) (
          every_bools_sound n (sorts_one net n) (map g xs) (sorts_bools-parts net n ok).2
            (length-map xs g ∙ l)) in
        let e = image_run g c in
        (
          subst (λ o. sorted_bools o ≡ true) e one.0,
          sym (count_if-map g output) ∙ sym (ap (count_if is_true) e) ∙ one.1 ∙ count_if-map g xs,
        )

    -- If a network sorts the Booleans of a length, then for every strict weak order and list of that
    -- length its sorter ends, and its result is sorted and holds as many elements equivalent to any
    -- t as the input.
    pub zero_one :
        (out : List T) × (sort_by before net start n xs ≡ some out)
        × IsSorted before out
        × ((t : T) → count_if (equivalent before t) out ≡ count_if (equivalent before t) xs)
    zero_one = (
      output,
      sort_by-run_rounds before net start n xs (sorts_bools-parts net n ok).0 l,
      IsSorted-of_thresholds output (λ t. (image _ (at_least-Commutes before w t)).0),
      λ t. omega (
        arith,
        count-equivalent before w t output,
        count-equivalent before w t xs,
        (image _ (at_least-Commutes before w t)).1,
        (image _ (above-Commutes before w t)).1,
      ),
    )
