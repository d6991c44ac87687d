-- ===== src/Utility/NetworkSort/Rounds.antt =====
-- network_sort.cpp, described without its two arrays: a round replaces every element at once.
use eagine_core.Common.{
  ℕ, zero, suc, ◌+◌, ◌%◌, ◌≤◌, ◌<◌, Bool, true, false, some, List, [], ◌∷◌, ◌++◌, ltb, ◌==◌,
  if◌then◌else◌, set, length, length-append, for_range-map, set_middle, for_range, tabulate,
  length-tabulate, ◌≡◌, refl, ap, ap₂, ◌∙◌, lt→ltb, ltb→lt, all_below, all_below_sound,
  tabulate_ext, get_or_default, arith, inl, inr, Bool-cases,
}
use mathlib.Core.Option
use mathlib.Core.List.{append_assoc}
use eagine_core.Utility.NetworkSort.Network.{Network}
use eagine_core.Utility.NetworkSort.Sorter.{
  Sorter, step_value, single_sort_step, sort_single, sort_round, next_round, sort, sort_by, result,
}

module _ {ℓ} {T : Type ℓ} where
  -- Writing every index in turn is writing all at once.
  for_range-set :
      (n i : ℕ) (h : ℕ → T) (pre ys : List T)
      → length pre ≡ i
      → length ys ≡ n
      → for_range n i (λ j d. set d j (h j)) (pre ++ ys) ≡ pre ++ tabulate n i h
  unfolding for_range tabulate
  for_range-set zero i h pre [] e l = refl
  for_range-set zero i h pre (y ∷ ys) e l = absurd (omega arith)
  for_range-set (suc n) i h pre [] e l = absurd (omega arith)
  for_range-set (suc n) i h pre (y ∷ ys) e l =
      ap (for_range n (i + 1) (λ j d. set d j (h j))) (set_middle pre ys y (h i) i e)
      ∙ for_range-set n (i + 1) h (pre ++ (h i ∷ [])) ys
          (omega (arith, length-append pre (h i ∷ []))) (omega arith)
      ∙ append_assoc pre (h i ∷ []) (tabulate n (i + 1) h)

ltb_self : {a b : ℕ} → a ≡ b → ltb a b ≡ false
ltb_self h = ground arith

module _ {ℓ} {T : Type ℓ} (before : T → T → Bool) (net : Network) (start : T) where
  unfoldable pub parallel_round : ℕ → ℕ → List T → List T
  unfolding step_value tabulate
  parallel_round n r xs = tabulate n 0 (step_value before net start xs r)

  -- `k` rounds, from round `r` on.
  unfoldable pub run_rounds : ℕ → ℕ → ℕ → List T → List T
  unfolding parallel_round
  run_rounds n zero r xs = xs
  run_rounds n (suc k) r xs = run_rounds n k (r + 1) (parallel_round n r xs)

  fill :
      (n r : ℕ) (src dst : List T)
      → length dst ≡ n
      → for_range n 0 (λ j d. single_sort_step before net start src d r j) dst
        ≡ parallel_round n r src
  unfolding parallel_round single_sort_step
  fill n r src dst l = for_range-set n 0 (step_value before net start src r) [] dst refl l

  sort_round_even :
      (n : ℕ) (s : Sorter T)
      → (s.round % 2 == 0) ≡ true
      → length s.odd ≡ n
      → sort_round before net start n s ≡ record s { odd = parallel_round n s.round s.even }
  unfolding sort_round sort_single
  sort_round_even n s h l =
      for_range-map (λ o. record s { odd = o })
        (λ j d. single_sort_step before net start s.even d s.round j) _ (λ j o. rw h) n 0 s.odd
      ∙ ap (λ o. record s { odd = o }) (fill n s.round s.even s.odd l)

  sort_round_odd :
      (n : ℕ) (s : Sorter T)
      → (s.round % 2 == 0) ≡ false
      → length s.even ≡ n
      → sort_round before net start n s ≡ record s { even = parallel_round n s.round s.odd }
  unfolding sort_round sort_single
  sort_round_odd n s h l =
      for_range-map (λ o. record s { even = o })
        (λ j d. single_sort_step before net start s.odd d s.round j) _ (λ j o. rw h) n 0 s.even
      ∙ ap (λ o. record s { even = o }) (fill n s.round s.odd s.even l)

  -- The array that the next round reads.
  abbrev current : Sorter T → List T
  current s = if s.round % 2 == 0 then s.even else s.odd

  last_result : (s : Sorter T) → s.round ≡ net.rounds → result before net start s ≡ current s
  unfolding result
  last_result s e = rw e

  length-parallel_round : (n r : ℕ) (xs : List T) → length (parallel_round n r xs) ≡ n
  unfolding parallel_round
  length-parallel_round n r xs = length-tabulate n 0 _

  -- What one pass of the loop in `sort` leaves.
  record Advanced (n : ℕ) (s s' : Sorter T) : Type ℓ where
    step :
        next_round before net start (sort_round before net start n s)
        ≡ (s', ltb (s.round + 1) net.rounds)
    next : s'.round ≡ s.round + 1
    moved : current s' ≡ parallel_round n s.round (current s)
    even_length : length s'.even ≡ n
    odd_length : length s'.odd ≡ n

  advance :
      (n : ℕ) (s : Sorter T)
      → s.round < net.rounds
      → length s.even ≡ n
      → length s.odd ≡ n
      → (s' : Sorter T) × Advanced n s s'
  unfolding next_round
  advance n s h le lo = elim (Bool-cases (s.round % 2 == 0)) [
    | inl e ↦ (
      record { round = s.round + 1; even = s.even; odd = parallel_round n s.round s.even },
      record {
        step = rw (sort_round_even n s e lo) (ground arith);
        next = refl;
        moved = ground arith;
        even_length = le;
        odd_length = length-parallel_round n s.round s.even;
      },
    )
    | inr e ↦ (
      record { round = s.round + 1; even = parallel_round n s.round s.odd; odd = s.odd },
      record {
        step = rw (sort_round_odd n s e le) (ground arith);
        next = refl;
        moved = ground arith;
        even_length = length-parallel_round n s.round s.odd;
        odd_length = lo;
      },
    )
  ]

  sort-run_rounds :
      (n k : ℕ) (s : Sorter T)
      → s.round + suc k ≡ net.rounds
      → length s.even ≡ n
      → length s.odd ≡ n
      → Option.map (result before net start) (sort before net start n (suc k) s)
        ≡ some (run_rounds n (suc k) s.round (current s))
  unfolding sort run_rounds
  sort-run_rounds n zero s h le lo =
      let (s', a) = advance n s (omega arith) le lo in
      let last : s.round + 1 ≡ net.rounds = h in
      rw (a.step, ltb_self h, last_result s' (a.next ∙ h), a.moved)
  sort-run_rounds n (suc k) s h le lo =
      let (s', a) = advance n s (omega arith) le lo in
      rw (a.step, lt→ltb (s.round + 1) net.rounds (omega arith))
        (sort-run_rounds n k s' (omega (arith, a.next)) a.even_length a.odd_length
          ∙ ap some (ap₂ (λ r xs. run_rounds n (suc k) r xs) a.next a.moved))

  sort_from_start :
      (n m : ℕ) (xs : List T)
      → m ≡ net.rounds
      → 0 < m
      → length xs ≡ n
      → Option.map
          (result before net start)
          (sort before net start n m (record { round = 0; even = xs; odd = xs }))
        ≡ some (run_rounds n m 0 xs)
  sort_from_start n zero xs e h l = absurd (omega arith)
  sort_from_start n (suc m) xs e h l =
      sort-run_rounds n m (record { round = 0; even = xs; odd = xs }) (omega arith) l l

  -- For a network of at least one round and a list of n elements, the sorter with its two arrays
  -- ends and gives what whole rounds, each computed from the list before it, give.
  pub sort_by-run_rounds :
      (n : ℕ) (xs : List T)
      → 0 < net.rounds
      → length xs ≡ n
      → sort_by before net start n xs ≡ some (run_rounds n net.rounds 0 xs)
  unfolding sort_by
  sort_by-run_rounds n xs h l = sort_from_start n net.rounds xs refl h l

-- Every partner that the network names in its rounds is one of the `n` elements.
unfoldable pub in_range : Network → ℕ → Bool
unfolding all_below
in_range net n = all_below net.rounds (λ r. all_below n (λ i. ltb (net.index r i) n))

module _ {ℓ} {T : Type ℓ} (before : T → T → Bool) (net : Network) (n : ℕ)
    (safe : in_range net n ≡ true) (start start' : T) where
  partner-lt : (r i : ℕ) → r < net.rounds → i < n → net.index r i < n
  unfolding in_range
  partner-lt r i hr hi =
      ltb→lt _ _ (
        all_below_sound n (λ i. ltb (net.index r i) n) i (all_below_sound net.rounds _ r safe hr)
          hi)

  -- For a network whose partners are all below n, any number of its rounds on n elements does not
  -- depend on the value that the arrays are filled with at first.
  pub run_rounds-start :
      (k r : ℕ) (xs : List T)
      → r + k ≤ net.rounds
      → length xs ≡ n
      → run_rounds before net start n k r xs ≡ run_rounds before net start' n k r xs
  unfolding run_rounds step_value
  run_rounds-start zero r xs h l = refl
  run_rounds-start (suc k) r xs h l =
      run_rounds-start k (r + 1) (parallel_round before net start n r xs) (omega arith)
        (length-parallel_round before net start n r xs)
      ∙ ap (run_rounds before net start' n k (r + 1)) same
    where
      same : parallel_round before net start n r xs ≡ parallel_round before net start' n r xs
      same =
          tabulate_ext n 0 (step_value before net start xs r) (step_value before net start' xs r)
            (λ i lo hi. rw (
              get_or_default xs i start start' (omega arith),
              get_or_default xs (net.index r i) start start'
                  (omega (arith, partner-lt r i (omega arith) (omega arith))),
            ))
