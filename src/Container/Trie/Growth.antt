-- ===== src/Container/Trie/Growth.antt =====
-- trie.cpp: a new node that is put below another one, and the loop of `insert`.
use eagine_core.Common.{
  ℕ, ◌+◌, ◌≤◌, ◌<◌, Bool, true, false, ◌&&◌, List, [], ◌∷◌, none, some, ◌==◌, if◌then◌else◌,
  Bool-cases, Option-cases, ◌⊎◌, inl, inr, ◌≡◌, refl, sym, ap, ◌∙◌, arith, length,
}
use eagine_core.Container.Trie.{
  Node, node_at, next_at, attach, extend, get_char_index, is_valid_key,
}
use eagine_core.Container.Trie.CharIndex.{Charset, get_char_index_lem}
use eagine_core.Container.Trie.View.{
  node_past, object_past, length-attach, object_at-attach, width-attach, next_at-attach,
}
use eagine_core.Container.Trie.Paths.{IsTrie, Steps, value_of, onto, Steps-grow}

module _ {ℓ} {Value : Type ℓ} (chars : List ℕ) where
  module _ (nodes : List (Node Value)) (t : IsTrie chars nodes) (i k : ℕ) (h : i < length nodes)
      (few : length nodes < 4294967296) (w : k < length chars)
      (free : next_at chars nodes i k ≡ 0) where
    room : k < length (node_at chars nodes i).next
    room = omega (arith, t.width i)

    next_new :
        (j d : ℕ)
        → next_at chars (attach chars nodes i k) j d
          ≡ (if (i == j) && (k == d) then length nodes else next_at chars nodes j d)
    next_new j d = next_at-attach chars nodes i k j h few d room

    next_here : next_at chars (attach chars nodes i k) i k ≡ length nodes
    next_here = ground (arith, next_new i k)

    -- The entries that are in use stay.
    keeps :
        (p d : ℕ)
        → 0 < next_at chars nodes p d
        → next_at chars (attach chars nodes i k) p d ≡ next_at chars nodes p d
    keeps p d u = next_new p d ∙ elim (Bool-cases ((i == p) && (k == d))) [
      | inl here ↦
          let ip : i ≡ p = ground arith in
          let kd : k ≡ d = ground arith in let f = rw (ip, kd) at free in absurd (omega arith)
      | inr there ↦ rw there refl
    ]

    old_index : (p d : ℕ) → next_at chars nodes p d < length nodes
    old_index p d = elim (t.forward p d) [ inl z ↦ omega arith | inr b ↦ b.1 ]

    attach_forward :
        (j d : ℕ)
        → (next_at chars (attach chars nodes i k) j d ≡ 0)
          ⊎ ((j < next_at chars (attach chars nodes i k) j d)
              × (next_at chars (attach chars nodes i k) j d < length (attach chars nodes i k)))
    attach_forward j d =
        let l = length-attach chars nodes i k in
        elim (Bool-cases ((i == j) && (k == d))) [
          | inl here ↦
              let n = rw here at (next_new j d) in
              let ij : i ≡ j = ground arith in inr (omega arith, omega arith)
          | inr there ↦
              let n = rw there at (next_new j d) in
              elim (t.forward j d) [ inl z ↦ inl (n ∙ z) | inr b ↦ inr (omega arith, omega arith) ]
        ]

    attach_unique :
        (p c q d : ℕ)
        → 0 < next_at chars (attach chars nodes i k) p c
        → next_at chars (attach chars nodes i k) p c ≡ next_at chars (attach chars nodes i k) q d
        → (p ≡ q) × (c ≡ d)
    attach_unique p c q d u e = elim (Bool-cases ((i == p) && (k == c))) [
      | inl here ↦
          let n = rw here at (next_new p c) in
          elim (Bool-cases ((i == q) && (k == d))) [
            | inl here' ↦ (ground arith, ground arith)
            | inr there ↦
                let n' = rw there at (next_new q d) in absurd (omega (arith, old_index q d))
          ]
      | inr there ↦
          let n = rw there at (next_new p c) in
          elim (Bool-cases ((i == q) && (k == d))) [
            | inl here ↦ let n' = rw here at (next_new q d) in absurd (omega (arith, old_index p c))
            | inr there' ↦
                let n' = rw there' at (next_new q d) in
                t.unique p c q d (omega arith) (sym n ∙ e ∙ n')
          ]
    ]

    pub attach-IsTrie : IsTrie chars (attach chars nodes i k)
    attach-IsTrie =
        let l = length-attach chars nodes i k in
        record {
          root = omega arith;
          width = λ j. width-attach chars nodes i k j h few ∙ t.width j;
          forward = attach_forward;
          unique = attach_unique;
        }

    pub attach-Steps :
        (rev : List ℕ) (j : ℕ)
        → Steps chars nodes rev j
        → Steps chars (attach chars nodes i k) rev j
    attach-Steps = Steps-grow chars nodes (attach chars nodes i k) keeps

    -- Nothing is found below the new node.
    new_value : (key : List ℕ) → value_of chars (attach chars nodes i k) key (length nodes) ≡ none
    new_value [] =
        object_at-attach chars nodes i k (length nodes) h few
        ∙ object_past chars nodes (length nodes) (omega arith)
    new_value (c ∷ key) = elim (Option-cases (get_char_index chars c)) [
      | inl e ↦ rw (value_of, e) refl
      | inr (d, e) ↦
          let z : next_at chars (attach chars nodes i k) (length nodes) d ≡ 0 = ground (
            arith,
            next_new (length nodes) d,
            node_past chars nodes (length nodes) d (omega arith),
          ) in
          rw (value_of, e, z) refl
    ]

    pub value_of-attach :
        (key : List ℕ) (j : ℕ)
        → value_of chars (attach chars nodes i k) key j ≡ value_of chars nodes key j
    value_of-attach [] j = object_at-attach chars nodes i k j h few
    value_of-attach (c ∷ key) j = elim (Option-cases (get_char_index chars c)) [
      | inl e ↦ rw (value_of, e) refl
      | inr (d, e) ↦ elim (Bool-cases ((i == j) && (k == d))) [
        | inl here ↦
            let ij : i ≡ j = ground arith in
            let kd : k ≡ d = ground arith in
            let f = rw (ij, kd) at free in
            let n : next_at chars (attach chars nodes i k) j d ≡ length nodes =
              ground (arith, next_new j d) in
            let more : (length nodes == 0) ≡ false = ground arith in
            rw (value_of, e, n, f, more) (new_value key)
        | inr there ↦
            let n : next_at chars (attach chars nodes i k) j d ≡ next_at chars nodes j d =
              ground (arith, next_new j d) in
            rw (value_of, e, n)
              (ap (λ r. if next_at chars nodes j d == 0 then none else r)
                (value_of-attach key (next_at chars nodes j d)))
      ]
    ]

-- The loop of `insert` from a node on at which the key's next character leads nowhere.
abbrev pub Free {ℓ} : {Value : Type ℓ} → List ℕ → List (Node Value) → List ℕ → ℕ → Type 0
Free chars nodes [] i = Unit {0}
Free chars nodes (c ∷ key) i =
    (k : ℕ) → get_char_index chars c ≡ some k → next_at chars nodes i k ≡ 0

abbrev pub IsAscii : List ℕ → Type 0
IsAscii [] = Unit {0}
IsAscii (c ∷ key) = (c < 128) × IsAscii key

pub record Grown {ℓ} {Value : Type ℓ} (chars : List ℕ) (nodes : List (Node Value))
    (key acc : List ℕ) (grown : List (Node Value) × ℕ × Bool) : Type ℓ where
  pub trie : IsTrie chars grown.0
  pub same :
      (other : List ℕ) (j : ℕ) → value_of chars grown.0 other j ≡ value_of chars nodes other j
  pub done : grown.2 ≡ is_valid_key chars key
  pub reached :
      grown.2 ≡ true → Steps chars grown.0 (onto key acc) grown.1 × (grown.1 < length grown.0)

module _ {ℓ} {Value : Type ℓ} (chars : List ℕ) (s : Charset chars) where
  new_Free :
      (nodes : List (Node Value)) (i k : ℕ)
      → IsTrie chars nodes
      → (h : i < length nodes) → length nodes < 4294967296
      → k < length chars
      → next_at chars nodes i k ≡ 0
      → (key : List ℕ) → Free chars (attach chars nodes i k) key (length nodes)
  new_Free nodes i k t h few w free [] = tt
  new_Free nodes i k t h few w free (c ∷ key) = λ d e. ground (
    arith,
    next_at-attach chars nodes i k (length nodes) h few d (omega (arith, t.width i)),
    node_past chars nodes (length nodes) d (omega arith),
  )

  pub extend_lem :
      (key acc : List ℕ) (nodes : List (Node Value)) (i : ℕ)
      → IsTrie chars nodes
      → i < length nodes
      → IsAscii key
      → length nodes + length key ≤ 4294967296
      → Free chars nodes key i
      → Steps chars nodes acc i
      → Grown chars nodes key acc (extend chars nodes key i)
  unfolding extend is_valid_key
  extend_lem [] acc nodes i t h a few free way = record {
    trie = t;
    same = λ other j. refl;
    done = refl;
    reached = λ d. (way, h);
  }
  extend_lem (c ∷ key) acc nodes i t h a few free way = elim (get_char_index_lem chars s c a.0) [
    | inl missing ↦
        rw (extend, missing.0)
          (record {
            trie = t;
            same = λ other j. refl;
            done = rw missing.1 refl;
            reached = λ d. absurd cc;
          })
    | inr (k, e, valid, w, _) ↦
        let z = free k e in
        let l = length-attach chars nodes i k in
        let next_way : Steps chars (attach chars nodes i k) (c ∷ acc) (length nodes) = (
          i,
          k,
          attach-Steps chars nodes t i k h (omega arith) w z acc i way,
          e,
          next_here chars nodes t i k h (omega arith) w z,
          omega arith,
        ) in
        let g =
          extend_lem key (c ∷ acc) (attach chars nodes i k) (length nodes)
            (attach-IsTrie chars nodes t i k h (omega arith) w z) (omega arith) a.1 (omega arith)
            (new_Free nodes i k t h (omega arith) w z key) next_way in
        rw (extend, e)
          (record {
            trie = g.trie;
            same = λ other j.
                g.same other j ∙ value_of-attach chars nodes t i k h (omega arith) w z other j;
            done = rw valid g.done;
            reached = g.reached;
          })
  ]
