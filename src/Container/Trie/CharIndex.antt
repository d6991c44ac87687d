-- ===== src/Container/Trie/CharIndex.antt =====
-- trie.cpp: `_find_char_index`, the binary search for a character.
use mathlib.Core.Option.{some-injective}
use eagine_core.Common.{
  ℕ, zero, suc, ◌+◌, ◌-◌, ◌%◌, ◌≤◌, ◌<◌, true, false, List, [], ◌∷◌, none, some, ltb, ◌==◌,
  Bool-cases, ◌⊎◌, inl, inr, ◌≡◌, ◌≢◌, refl, sym, ap, ◌∙◌, arith, length, get_or, tabulate,
}
use eagine_core.Common.Order.{IsSorted}
use eagine_core.Container.Trie.{
  invalid_char_index, pivot, do_find_char_index, find_char_index, char_map, get_char_index,
  is_valid_char,
}

-- What `static_assert` and the type of an index ask of the characters.
pub record Charset (chars : List ℕ) : Type 0 where
  pub sorted : IsSorted ltb chars
  pub few : length chars ≤ 255

first_least :
    (x : ℕ) (chars : List ℕ)
    → IsSorted ltb (x ∷ chars)
    → (i : ℕ) → i < length chars
    → x ≤ get_or chars i 0
first_least x [] h i k = absurd (omega arith)
first_least x (y ∷ chars) h zero k = ground arith
first_least x (y ∷ chars) h (suc i) k = ground (arith, first_least y chars h.1 i (omega arith))

IsSorted-tail : (x : ℕ) (chars : List ℕ) → IsSorted ltb (x ∷ chars) → IsSorted ltb chars
IsSorted-tail x [] h = tt
IsSorted-tail x (y ∷ chars) h = h.1

sorted_le :
    (chars : List ℕ)
    → IsSorted ltb chars
    → (i j : ℕ) → i ≤ j
    → j < length chars
    → get_or chars i 0 ≤ get_or chars j 0
sorted_le [] h i j l k = absurd (omega arith)
sorted_le (x ∷ chars) h zero zero l k = omega arith
sorted_le (x ∷ chars) h zero (suc j) l k = first_least x chars h j (omega arith)
sorted_le (x ∷ chars) h (suc i) zero l k = absurd (omega arith)
sorted_le (x ∷ chars) h (suc i) (suc j) l k =
    sorted_le chars (IsSorted-tail x chars h) i j (omega arith) (omega arith)

pivot_lem :
    (n : ℕ) → (pivot n ≤ n) × (0 < n → pivot n < n) × (1 < n → 0 < pivot n) × (n ≡ 1 → pivot n ≡ 0)
unfolding pivot
pivot_lem zero =
    (omega arith, λ h. absurd (omega arith), λ h. absurd (omega arith), λ h. absurd (omega arith))
pivot_lem (suc zero) = (omega arith, λ h. omega arith, λ h. absurd (omega arith), λ h. refl)
pivot_lem (suc (suc n)) =
    (omega arith, λ h. omega arith, λ h. omega arith, λ h. absurd (omega arith))

get_or-tabulate : (n i j : ℕ) (f : ℕ → ℕ) (d : ℕ) → j < n → get_or (tabulate n i f) j d ≡ f (i + j)
unfolding tabulate
get_or-tabulate zero i j f d h = absurd (omega arith)
get_or-tabulate (suc n) i zero f d h = ap f (omega arith)
get_or-tabulate (suc n) i (suc j) f d h =
    get_or-tabulate n (i + 1) j f d (omega arith) ∙ ap f (omega arith)

get_or_outside : (n i j : ℕ) (f : ℕ → ℕ) (d : ℕ) → n ≤ j → get_or (tabulate n i f) j d ≡ d
unfolding tabulate
get_or_outside zero i j f d h = refl
get_or_outside (suc n) i zero f d h = absurd (omega arith)
get_or_outside (suc n) i (suc j) f d h = get_or_outside n (i + 1) j f d (omega arith)

-- A search among the characters from `lo` to `hi` gave `r`.
abbrev Searched : List ℕ → ℕ → ℕ → ℕ → ℕ → Type 0
Searched chars c lo hi r =
    ((r ≡ invalid_char_index) × ((j : ℕ) → lo ≤ j → j < hi → get_or chars j 0 ≢ c))
    ⊎ ((lo ≤ r) × (r < hi) × (get_or chars r 0 ≡ c))

Searched-left :
    (chars : List ℕ) (c lo mid hi r : ℕ)
    → mid ≤ hi
    → ((j : ℕ) → mid ≤ j → j < hi → get_or chars j 0 ≢ c)
    → Searched chars c lo mid r
    → Searched chars c lo hi r
Searched-left chars c lo mid hi r h k (inl (e, n)) = inl (
  e,
  λ j l u. elim (Bool-cases (ltb j mid)) [
    | inl below ↦ n j l (ground arith)
    | inr over ↦ k j (ground arith) u
  ],
)
Searched-left chars c lo mid hi r h k (inr found) = inr (found.0, omega arith, found.2)

Searched-right :
    (chars : List ℕ) (c lo mid hi r : ℕ)
    → lo ≤ mid
    → ((j : ℕ) → lo ≤ j → j < mid → get_or chars j 0 ≢ c)
    → Searched chars c mid hi r
    → Searched chars c lo hi r
Searched-right chars c lo mid hi r h k (inl (e, n)) = inl (
  e,
  λ j l u. elim (Bool-cases (ltb j mid)) [
    | inl below ↦ k j l (ground arith)
    | inr over ↦ n j (ground arith) u
  ],
)
Searched-right chars c lo mid hi r h k (inr found) = inr (omega arith, found.1, found.2)

module _ (chars : List ℕ) (s : Charset chars) where
  do_find_char_index_lem :
      (fuel c ofs len : ℕ)
      → len ≤ fuel
      → ofs + len ≤ length chars
      → Searched chars c ofs (ofs + len) (do_find_char_index fuel chars c ofs len)
  unfolding do_find_char_index
  do_find_char_index_lem zero c ofs len h k = inl (refl, λ j l u. absurd (omega arith))
  do_find_char_index_lem (suc fuel) c ofs len h k =
      let few = s.few in
      let p = pivot_lem len in
      let at = get_or chars (ofs + pivot len) 0 in
      elim (Bool-cases (pivot len == len)) [
        | inl nil ↦ rw nil (inl (refl, λ j l u. absurd (ground arith)))
        | inr more ↦ elim (Bool-cases (len == 1)) [
          | inl one ↦ elim (Bool-cases (c == get_or chars ofs 0)) [
            | inl same ↦
                let e : ofs % 256 ≡ ofs = ground arith in
                rw (more, one, same, e) (inr (omega arith, ground arith, ground arith))
            | inr other ↦
                rw (more, one, other)
                  (inl (refl, λ j l u. let e : j ≡ ofs = ground arith in rw e (ground arith)))
          ]
          | inr many ↦ elim (Bool-cases (ltb c at)) [
            | inl before ↦
                let there : ltb 0 (pivot len) ≡ true = ground arith in
                let below =
                  do_find_char_index_lem fuel c ofs (pivot len) (ground arith) (omega arith) in
                rw (more, many, before, there)
                  (Searched-left chars c ofs (ofs + pivot len) (ofs + len) _ (omega arith)
                    (λ j l u.
                      ground (arith, sorted_le chars s.sorted (ofs + pivot len) j l (omega arith)))
                    below)
            | inr over ↦ elim (Bool-cases (ltb at c)) [
              | inl behind ↦
                  let end : ofs + pivot len + 1 + (len - pivot len - 1) ≡ ofs + len =
                    ground arith in
                  let above =
                    do_find_char_index_lem fuel c (ofs + pivot len + 1) (len - pivot len - 1)
                      (ground arith) (omega arith) in
                  let skipped : (j : ℕ) → ofs ≤ j → j < ofs + pivot len + 1 → get_or chars j 0 ≢ c =
                    λ j l u. ground (
                      arith,
                      sorted_le chars s.sorted j (ofs + pivot len) (omega arith) (ground arith),
                    ) in
                  elim (Bool-cases (ltb (pivot len + 1) len)) [
                    | inl some_right ↦
                        rw (more, many, over, behind, some_right)
                          (Searched-right chars c ofs (ofs + pivot len + 1) (ofs + len) _
                            (omega arith) skipped (rw end at above))
                    | inr none_right ↦
                        rw (more, many, over, behind, none_right)
                          (inl (refl, λ j l u. skipped j l (ground arith)))
                  ]
              | inr same ↦
                  let e : (ofs + pivot len) % 256 ≡ ofs + pivot len = ground arith in
                  rw (more, many, over, same, e) (inr (omega arith, ground arith, ground arith))
            ]
          ]
        ]
      ]

  searched : (c : ℕ) → Searched chars c 0 (length chars) (find_char_index chars c)
  unfolding find_char_index
  searched c =
      let e : 0 + length chars ≡ length chars = omega arith in
      let r =
        do_find_char_index_lem (length chars) c 0 (length chars) (omega arith) (omega arith) in
      rw e at r

  -- For sorted characters, at most 255, and an ASCII character, either the character is among them,
  -- is_valid_char is true and get_char_index gives an index at which it stands, or it is not among
  -- them, is_valid_char is false and get_char_index gives none.
  pub get_char_index_lem :
      (c : ℕ)
      → c < 128
      → ((get_char_index chars c ≡ none)
          × (is_valid_char chars c ≡ false)
          × ((j : ℕ) → j < length chars → get_or chars j 0 ≢ c))
        ⊎ ((i : ℕ) × (get_char_index chars c ≡ some i)
            × (is_valid_char chars c ≡ true)
            × (i < length chars)
            × (get_or chars i 0 ≡ c))
  unfolding get_char_index char_map is_valid_char
  get_char_index_lem c h =
      let few = s.few in
      let z : 0 + c ≡ c = omega arith in
      let t = rw z at (get_or-tabulate 128 0 c (find_char_index chars) invalid_char_index h) in
      rw t (elim (searched c) [
        | inl (e, n) ↦ rw e (inl (refl, refl, λ j l. n j (omega arith) l))
        | inr found ↦
            let off : (find_char_index chars c == invalid_char_index) ≡ false = ground arith in
            inr (find_char_index chars c, rw off refl, rw off refl, found.1, found.2)
      ])

  wide_absent : (c : ℕ) → 128 ≤ c → (i : ℕ) → get_char_index chars c ≢ some i
  unfolding get_char_index char_map
  wide_absent c h i e =
      let t = get_or_outside 128 0 c (find_char_index chars) invalid_char_index h in
      let f = rw t at e in absurd (ground arith)

  pub index_found :
      (c i : ℕ) → get_char_index chars c ≡ some i → (i < length chars) × (get_or chars i 0 ≡ c)
  index_found c i e = elim (Bool-cases (ltb c 128)) [
    | inl ascii ↦ elim (get_char_index_lem c (ground arith)) [
      | inl missing ↦ let m = missing.0 in absurd cc
      | inr found ↦
          let j = some-injective found.0 i (sym found.1 ∙ e) in rw (sym j) (found.3, found.4)
    ]
    | inr wide ↦ absurd (wide_absent c (ground arith) i e)
  ]
