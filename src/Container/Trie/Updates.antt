-- ===== src/Container/Trie/Updates.antt =====
-- trie.cpp: what `insert` and `remove` change of what is found.
use eagine_core.Common.{
  ℕ, ◌+◌, ◌≤◌, ◌<◌, Bool, true, false, ◌&&◌, List, [], ◌∷◌, ◌++◌, Option, none, some, ◌==◌,
  Bool-cases, Option-cases, &&-eq-true, ◌⊎◌, inl, inr, ◌≡◌, ◌≢◌, refl, sym, ap, ◌∙◌, arith, length,
  drop, length-append,
}
use eagine_core.Container.Trie.{
  Node, next_at, object_at, set_object, extend, get_char_index, is_valid_key, find_insert_pos,
  insert, find, has_value, contains, remove,
}
use eagine_core.Container.Trie.CharIndex.{Charset}
use eagine_core.Container.Trie.View.{
  length-set_object, next_at-set_object, object_at-set_object, width-set_object,
}
use eagine_core.Container.Trie.Paths.{
  IsTrie, Steps, value_of, onto, onto_injective, Steps-grow, Steps-unique, value_of-Steps,
}
use eagine_core.Container.Trie.Growth.{IsAscii, Grown, extend_lem}
use eagine_core.Container.Trie.Map.{
  IsAscii-rest, drop_taken, onto-append, Located, pos_lem, find_lem,
}

whole_way :
    (taken rest key : List ℕ)
    → key ≡ taken ++ rest
    → length key ≡ length taken
    → onto key [] ≡ onto taken []
whole_way taken [] key e l = ap (λ k. onto k []) e ∙ onto-append taken [] []
whole_way taken (c ∷ rest) key e l =
    absurd (omega (arith, length-append taken (c ∷ rest), ap length e))

has_value-none {ℓ} : {Value : Type ℓ} (o : Option Value) → has_value o ≡ false → o ≡ none
unfolding has_value
has_value-none none e = refl
has_value-none (some v) e = absurd cc

module _ {ℓ} {Value : Type ℓ} (chars : List ℕ) (s : Charset chars) where
  module _ (nodes : List (Node Value)) (t : IsTrie chars nodes) (last : ℕ) (v : Option Value)
      (h : last < length nodes) where
    set_object-IsTrie : IsTrie chars (set_object chars nodes last v)
    set_object-IsTrie =
        let l = length-set_object chars nodes last v in
        let n : (i c : ℕ)
            → next_at chars (set_object chars nodes last v) i c ≡ next_at chars nodes i c =
          λ i c. next_at-set_object chars nodes last i c v h in
        record {
          root = omega (arith, t.root);
          width = λ i. width-set_object chars nodes last i v h ∙ t.width i;
          forward = λ i c. rw (n i c, l) (t.forward i c);
          unique = λ i c j d u e. t.unique i c j d (rw (n i c) at u) (sym (n i c) ∙ e ∙ n j d);
        }

    module _ (key : List ℕ) (way : Steps chars nodes (onto key []) last) where
      set_here : find chars (set_object chars nodes last v) key ≡ v
      set_here =
          let same : (last == last) ≡ true = ground arith in
          let o = rw same at (object_at-set_object chars nodes last last v h) in
          find_lem chars s (set_object chars nodes last v) set_object-IsTrie key
          ∙ value_of-Steps chars (set_object chars nodes last v) key [] 0 last refl (
              Steps-grow chars nodes (set_object chars nodes last v)
                (λ p k _. next_at-set_object chars nodes last p k v h) (onto key []) last way)
          ∙ o

      set_elsewhere_from :
          (other acc : List ℕ) (i : ℕ)
          → Steps chars nodes acc i
          → onto other acc ≢ onto key []
          → value_of chars (set_object chars nodes last v) other i ≡ value_of chars nodes other i
      set_elsewhere_from [] acc i path differs = elim (Bool-cases (last == i)) [
        | inl same ↦
            let li : last ≡ i = ground arith in
            absurd (differs (Steps-unique chars nodes s t acc (onto key []) i path (rw li at way)))
        | inr off ↦ let o = object_at-set_object chars nodes last i v h in rw off at o
      ]
      set_elsewhere_from (c ∷ other) acc i path differs =
          elim (Option-cases (get_char_index chars c)) [
            | inl e ↦ rw (value_of, e) refl
            | inr (k, e) ↦
                let n = next_at-set_object chars nodes last i k v h in
                elim (Bool-cases (next_at chars nodes i k == 0)) [
                  | inl end ↦ rw (value_of, e, n, end) refl
                  | inr more ↦
                      rw (value_of, e, n, more)
                        (set_elsewhere_from other (c ∷ acc) (next_at chars nodes i k)
                          (i, k, path, e, refl, ground arith) differs)
                ]
          ]

      set_elsewhere :
          (other : List ℕ)
          → other ≢ key
          → find chars (set_object chars nodes last v) other ≡ find chars nodes other
      set_elsewhere other differs =
          find_lem chars s (set_object chars nodes last v) set_object-IsTrie other
          ∙ set_elsewhere_from other [] 0 refl (λ e. differs (onto_injective other key e))
          ∙ sym (find_lem chars s nodes t other)

  module _ (nodes : List (Node Value)) (t : IsTrie chars nodes) (key : List ℕ) (value : Value)
      (ascii : IsAscii key) (fits : length nodes + length key ≤ 4294967296) where
    loc : Located chars nodes key [] 0 0 (find_insert_pos chars nodes key)
    loc = pos_lem chars s nodes t key

    grown : List (Node Value) × ℕ × Bool
    grown =
        extend chars nodes (drop (find_insert_pos chars nodes key).1 key)
          (find_insert_pos chars nodes key).0

    -- What the loop leaves, where the key's first part ends at a node.
    grow :
        (find_insert_pos chars nodes key).2 ≡ true
        → Grown chars nodes loc.rest (onto loc.taken []) grown
    unfolding grown
    grow f =
        let e : drop (find_insert_pos chars nodes key).1 key ≡ loc.rest =
          ap (λ n. drop n key) (loc.offset ∙ omega arith)
          ∙ ap (drop (length loc.taken)) loc.parts
          ∙ drop_taken loc.taken loc.rest in
        let p = loc.parts in
        rw e (
          extend_lem chars s loc.rest (onto loc.taken []) nodes (find_insert_pos chars nodes key).0
            t loc.inside (IsAscii-rest loc.taken loc.rest (rw p at ascii))
            (omega (arith, length-append loc.taken loc.rest, ap length loc.parts, fits))
            (loc.free f).0 loc.way)

    unchanged :
        Grown chars nodes loc.rest (onto loc.taken []) grown
        → (other : List ℕ) → find chars grown.0 other ≡ find chars nodes other
    unchanged g other =
        find_lem chars s grown.0 g.trie other
        ∙ g.same other 0
        ∙ sym (find_lem chars s nodes t other)

    -- For sorted characters, at most 255, a well-formed trie and an ASCII key such that the nodes
    -- and the characters of the key together are at most 2^32: insert leaves a well-formed trie and
    -- returns is_valid_key of the key; after a valid key find gives its value; and for every other
    -- key, or when the key is not valid, find gives what it gave before.
    pub insert_lem :
        IsTrie chars (insert chars nodes key value).0
        × ((insert chars nodes key value).1 ≡ is_valid_key chars key)
        × (is_valid_key chars key ≡ true
            → find chars (insert chars nodes key value).0 key ≡ some value)
        × ((other : List ℕ)
            → (other ≢ key) ⊎ (is_valid_key chars key ≡ false)
            → find chars (insert chars nodes key value).0 other ≡ find chars nodes other)
    unfolding insert grown
    insert_lem = elim (Bool-cases (find_insert_pos chars nodes key).2) [
      | inl goes_on ↦
          let g = grow goes_on in
          let valid = g.done ∙ sym ((loc.free goes_on).1 ascii) in
          elim (Bool-cases grown.2) [
            | inl done ↦
                let (end, inside) = g.reached done in
                let q : onto key [] ≡ onto loc.rest (onto loc.taken []) =
                  ap (λ k. onto k []) loc.parts ∙ onto-append loc.taken loc.rest [] in
                let way : Steps chars grown.0 (onto key []) grown.1 = rw q end in
                rw (goes_on, done)
                  (
                    set_object-IsTrie grown.0 g.trie grown.1 (some value) inside,
                    sym done ∙ valid,
                    λ _. set_here grown.0 g.trie grown.1 (some value) inside key way,
                    λ other differs. elim differs [
                      | inl off ↦
                          set_elsewhere grown.0 g.trie grown.1 (some value) inside key way other off
                          ∙ unchanged g other
                      | inr wrong ↦ absurd cc
                    ],
                  )
            | inr stuck ↦
                rw (goes_on, stuck)
                  (g.trie, sym stuck ∙ valid, λ f. absurd cc, λ other _. unchanged g other)
          ]
      | inr shut ↦
          let bad = loc.bad shut ascii in rw shut (t, sym bad, λ f. absurd cc, λ other _. refl)
    ]

  -- For sorted characters, at most 255, a well-formed trie and an ASCII key, remove leaves a well-
  -- formed trie and returns whether the trie contained the key; then find finds nothing under the
  -- key, and under every other ASCII key what it found before.
  pub remove_lem :
      (nodes : List (Node Value)) (key : List ℕ)
      → IsTrie chars nodes
      → IsAscii key
      → IsTrie chars (remove chars nodes key).0
        × ((remove chars nodes key).1 ≡ contains chars nodes key)
        × (find chars (remove chars nodes key).0 key ≡ none)
        × ((other : List ℕ)
            → IsAscii other
            → other ≢ key
            → find chars (remove chars nodes key).0 other ≡ find chars nodes other)
  unfolding remove contains find
  remove_lem nodes key t ascii =
      let pos = find_insert_pos chars nodes key in
      let l = pos_lem chars s nodes t key in
      elim (Bool-cases (pos.2 && (pos.1 == length key))) [
        | inr missing ↦ rw missing (t, refl, rw (find, missing) refl, λ other _ _. refl)
        | inl there ↦ elim (Bool-cases (has_value (object_at chars nodes pos.0))) [
          | inr removed ↦
              rw (there, removed)
                (
                  t,
                  refl,
                  rw (find, there) (has_value-none (object_at chars nodes pos.0) removed),
                  λ other _ _. refl,
                )
          | inl held ↦
              let whole : pos.1 ≡ length key =
                ground (arith, (&&-eq-true pos.2 (pos.1 == length key) there).1) in
              let q = whole_way l.taken l.rest key l.parts (omega (arith, l.offset)) in
              let way : Steps chars nodes (onto key []) pos.0 = rw q l.way in
              rw (there, held)
                (
                  set_object-IsTrie nodes t pos.0 none l.inside,
                  refl,
                  set_here nodes t pos.0 none l.inside key way,
                  λ other _. set_elsewhere nodes t pos.0 none l.inside key way other,
                )
        ]
      ]
