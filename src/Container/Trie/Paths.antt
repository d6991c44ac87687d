-- ===== src/Container/Trie/Paths.antt =====
-- trie.cpp: the nodes as a tree, and the ways from the root to a node.
use mathlib.Core.Option.{some-injective}
use eagine_core.Common.{
  ℕ, zero, suc, ◌+◌, ◌<◌, false, List, [], ◌∷◌, Option, none, some, ◌==◌, if◌then◌else◌, ◌⊎◌, inl,
  ◌≡◌, refl, sym, ap, ◌∙◌, arith, length, get_or, length-replicate,
}
use eagine_core.Container.Trie.{
  Node, empty_node, start, node_at, next_at, object_at, get_char_index,
}
use eagine_core.Container.Trie.CharIndex.{Charset, index_found}
use eagine_core.Container.Trie.View.{get_or-replicate}

-- Every index but 0 is that of a later node, and no two places hold the same one.
pub record IsTrie {ℓ} {Value : Type ℓ} (chars : List ℕ) (nodes : List (Node Value)) : Type 0 where
  pub root : 0 < length nodes
  pub width : (i : ℕ) → length (node_at chars nodes i).next ≡ length chars + 1
  pub forward :
      (i c : ℕ)
      → (next_at chars nodes i c ≡ 0)
        ⊎ ((i < next_at chars nodes i c) × (next_at chars nodes i c < length nodes))
  pub unique :
      (i c j d : ℕ)
      → 0 < next_at chars nodes i c
      → next_at chars nodes i c ≡ next_at chars nodes j d
      → (i ≡ j) × (c ≡ d)

-- The characters, the last one first, lead from the root to a node.
abbrev pub Steps {ℓ} : {Value : Type ℓ} → List ℕ → List (Node Value) → List ℕ → ℕ → Type 0
Steps chars nodes [] i = i ≡ 0
Steps chars nodes (c ∷ rev) i =
    (p : ℕ) × (k : ℕ) × Steps chars nodes rev p
    × (get_char_index chars c ≡ some k)
    × (next_at chars nodes p k ≡ i)
    × (0 < i)

-- What a key leads to from a node on.
abbrev pub value_of {ℓ} : {Value : Type ℓ} → List ℕ → List (Node Value) → List ℕ → ℕ → Option Value
value_of chars nodes [] i = object_at chars nodes i
value_of chars nodes (c ∷ key) i = elim (get_char_index chars c) [
  | none ↦ none
  | some k ↦
      let rest = value_of chars nodes key (next_at chars nodes i k) in
      if next_at chars nodes i k == 0 then none else rest
]

-- The key put in front of a reversed one.
abbrev pub onto : List ℕ → List ℕ → List ℕ
onto [] acc = acc
onto (c ∷ key) acc = onto key (c ∷ acc)

length-onto : (key acc : List ℕ) → length (onto key acc) ≡ length key + length acc
length-onto [] acc = omega arith
length-onto (c ∷ key) acc = omega (arith, length-onto key (c ∷ acc))

onto_same :
    (a b acc acc' : List ℕ)
    → length a ≡ length b
    → onto a acc ≡ onto b acc'
    → (a ≡ b) × (acc ≡ acc')
onto_same [] [] acc acc' l e = (refl, e)
onto_same [] (d ∷ b) acc acc' l e = absurd (omega arith)
onto_same (c ∷ a) [] acc acc' l e = absurd (omega arith)
onto_same (c ∷ a) (d ∷ b) acc acc' l e =
    let r = onto_same a b (c ∷ acc) (d ∷ acc') (omega arith) e in
    let q = r.1 in let p = r.0 in (cc, cc)

pub onto_injective : (a b : List ℕ) → onto a [] ≡ onto b [] → a ≡ b
onto_injective a b e =
    (onto_same a b [] [] (omega (arith, length-onto a [], length-onto b [], ap length e)) e).0

start_node {ℓ} :
    (Value : Type ℓ) (chars : List ℕ) (i : ℕ)
    → node_at {Value = Value} chars (start chars) i ≡ empty_node chars
unfolding start node_at
start_node Value chars zero = refl
start_node Value chars (suc i) = refl

start_next {ℓ} :
    (Value : Type ℓ) (chars : List ℕ) (i c : ℕ)
    → next_at {Value = Value} chars (start chars) i c ≡ 0
unfolding next_at empty_node
start_next Value chars i c =
    ap (λ n. get_or n.next c 0) (start_node Value chars i) ∙ get_or-replicate (length chars + 1) c 0

module _ {ℓ} {Value : Type ℓ} (chars : List ℕ) where
  pub start-IsTrie : IsTrie chars (start {Value = Value} chars)
  unfolding start empty_node
  start-IsTrie = record {
    root = omega arith;
    width = λ i.
        ap (λ n. length n.next) (start_node Value chars i) ∙ length-replicate (length chars + 1) 0;
    forward = λ i c. inl (start_next Value chars i c);
    unique = λ i c j d h e. absurd (omega (arith, start_next Value chars i c));
  }

  pub Steps-grow :
      (nodes nodes' : List (Node Value))
      → ((p k : ℕ)
          → 0 < next_at chars nodes p k
          → next_at chars nodes' p k ≡ next_at chars nodes p k)
      → (rev : List ℕ) (i : ℕ) → Steps chars nodes rev i
      → Steps chars nodes' rev i
  Steps-grow nodes nodes' keeps [] i h = h
  Steps-grow nodes nodes' keeps (c ∷ rev) i (p, k, way, e, n, pos) =
      (p, k, Steps-grow nodes nodes' keeps rev p way, e, keeps p k (omega arith) ∙ n, pos)

  module _ (nodes : List (Node Value)) where
    -- One way leads to one node.
    pub Steps-functional :
        (rev : List ℕ) (i j : ℕ) → Steps chars nodes rev i → Steps chars nodes rev j → i ≡ j
    Steps-functional [] i j h k = h ∙ sym k
    Steps-functional (c ∷ rev) i j (p, k, way, e, n, pos) (q, m, way', e', n', pos') =
        let pq = Steps-functional rev p q way way' in let km = some-injective k m (sym e ∙ e') in cc

    Steps-prefix :
        (key acc : List ℕ) (j : ℕ)
        → Steps chars nodes (onto key acc) j
        → (i : ℕ) × Steps chars nodes acc i
    Steps-prefix [] acc j h = (j, h)
    Steps-prefix (c ∷ key) acc j h = let r = Steps-prefix key (c ∷ acc) j h in (r.1.0, r.1.2)

    -- What a key leads to is the object of the node at its end.
    pub value_of-Steps :
        (key acc : List ℕ) (i j : ℕ)
        → Steps chars nodes acc i
        → Steps chars nodes (onto key acc) j
        → value_of chars nodes key i ≡ object_at chars nodes j
    value_of-Steps [] acc i j way end =
        ap (object_at chars nodes) (Steps-functional acc i j way end)
    value_of-Steps (c ∷ key) acc i j way end =
        let (q, (p, k, way', e, n, pos)) = Steps-prefix key (c ∷ acc) j end in
        let ip = Steps-functional acc i p way way' in
        let more : (next_at chars nodes p k == 0) ≡ false = ground arith in
        rw (value_of, e, ip, more, n) (value_of-Steps key (c ∷ acc) q j (p, k, way', e, n, pos) end)

    -- One node is reached on one way.
    pub Steps-unique :
        Charset chars
        → IsTrie chars nodes
        → (a b : List ℕ) (i : ℕ) → Steps chars nodes a i
        → Steps chars nodes b i
        → a ≡ b
    Steps-unique s t [] [] i h k = refl
    Steps-unique s t [] (d ∷ b) i h (p, k, way, e, n, pos) = absurd (omega arith)
    Steps-unique s t (c ∷ a) [] i (p, k, way, e, n, pos) h = absurd (omega arith)
    Steps-unique s t (c ∷ a) (d ∷ b) i (p, k, way, e, n, pos) (q, m, way', e', n', pos') =
        let u = t.unique p k q m (omega arith) (n ∙ sym n') in
        let ab = Steps-unique s t a b p way (rw (sym u.0) at way') in
        let x = (index_found chars s c k e).1 in
        let y = (index_found chars s d m e').1 in let km = u.1 in cc
