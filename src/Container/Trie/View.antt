-- ===== src/Container/Trie/View.antt =====
-- trie.cpp: what a write of a node changes of the table of the next nodes and of the objects.
use eagine_core.Common.{
  ℕ, zero, suc, ◌+◌, ◌%◌, ◌≤◌, ◌<◌, ◌&&◌, List, [], ◌∷◌, ◌++◌, Option, none, ◌==◌, if◌then◌else◌,
  Bool-cases, inl, inr, ◌≡◌, ◌≢◌, refl, sym, ap, ap₂, ◌∙◌, arith, length, get_or, set, replicate,
  length-append, length-set,
}
use eagine_core.Container.Trie.{
  Node, limit_cast, empty_node, node_at, next_at, object_at, set_next, set_object, attach,
}

module _ {ℓ} {A : Type ℓ} where
  get_or-append : (xs : List A) (d : A) (j : ℕ) → get_or (xs ++ (d ∷ [])) j d ≡ get_or xs j d
  get_or-append [] d zero = refl
  get_or-append [] d (suc j) = refl
  get_or-append (x ∷ xs) d zero = refl
  get_or-append (x ∷ xs) d (suc j) = get_or-append xs d j

  pub get_or-replicate : (n j : ℕ) (d : A) → get_or (replicate n d) j d ≡ d
  get_or-replicate zero j d = refl
  get_or-replicate (suc n) zero d = refl
  get_or-replicate (suc n) (suc j) d = get_or-replicate n j d

  get_or_past : (xs : List A) (j : ℕ) (d : A) → length xs ≤ j → get_or xs j d ≡ d
  get_or_past [] j d h = refl
  get_or_past (x ∷ xs) zero d h = absurd (omega arith)
  get_or_past (x ∷ xs) (suc j) d h = get_or_past xs j d (omega arith)

  get_or-set_same : (xs : List A) (i : ℕ) (v d : A) → i < length xs → get_or (set xs i v) i d ≡ v
  get_or-set_same [] i v d h = absurd (omega arith)
  get_or-set_same (x ∷ xs) zero v d h = refl
  get_or-set_same (x ∷ xs) (suc i) v d h = get_or-set_same xs i v d (omega arith)

  get_or-set_other :
      (xs : List A) (i j : ℕ) (v d : A) → i ≢ j → get_or (set xs i v) j d ≡ get_or xs j d
  get_or-set_other [] i j v d h = refl
  get_or-set_other (x ∷ xs) zero zero v d h = absurd (h refl)
  get_or-set_other (x ∷ xs) zero (suc j) v d h = refl
  get_or-set_other (x ∷ xs) (suc i) zero v d h = refl
  get_or-set_other (x ∷ xs) (suc i) (suc j) v d h = get_or-set_other xs i j v d (λ e. h (ap suc e))

module _ {ℓ} {Value : Type ℓ} (chars : List ℕ) where
  pub node_past :
      (nodes : List (Node Value)) (i c : ℕ) → length nodes ≤ i → next_at chars nodes i c ≡ 0
  unfolding next_at node_at empty_node
  node_past nodes i c h =
      rw (get_or_past nodes i (empty_node chars) h) (get_or-replicate (length chars + 1) c 0)

  pub object_past :
      (nodes : List (Node Value)) (i : ℕ) → length nodes ≤ i → object_at chars nodes i ≡ none
  unfolding object_at node_at empty_node
  object_past nodes i h = ap (λ n. n.object) (get_or_past nodes i (empty_node chars) h)

  -- A write of an object leaves the table and changes that object only.
  pub length-set_object :
      (nodes : List (Node Value)) (i : ℕ) (v : Option Value)
      → length (set_object chars nodes i v) ≡ length nodes
  unfolding set_object
  length-set_object nodes i v = length-set nodes i _

  pub next_at-set_object :
      (nodes : List (Node Value)) (i j c : ℕ) (v : Option Value)
      → i < length nodes
      → next_at chars (set_object chars nodes i v) j c ≡ next_at chars nodes j c
  unfolding set_object next_at node_at
  next_at-set_object nodes i j c v h = elim (Bool-cases (i == j)) [
    | inl same ↦
        let e : i ≡ j = ground arith in
        rw (sym e) (ap (λ n. get_or n.next c 0) (get_or-set_same nodes i _ (empty_node chars) h))
    | inr other ↦
        ap (λ n. get_or n.next c 0) (get_or-set_other nodes i j _ (empty_node chars) (ground arith))
  ]

  pub width-set_object :
      (nodes : List (Node Value)) (i j : ℕ) (v : Option Value)
      → i < length nodes
      → length (node_at chars (set_object chars nodes i v) j).next
        ≡ length (node_at chars nodes j).next
  unfolding set_object node_at
  width-set_object nodes i j v h = elim (Bool-cases (i == j)) [
    | inl same ↦
        let e : i ≡ j = ground arith in
        rw (sym e) (ap (λ n. length n.next) (get_or-set_same nodes i _ (empty_node chars) h))
    | inr other ↦
        ap (λ n. length n.next) (get_or-set_other nodes i j _ (empty_node chars) (ground arith))
  ]

  pub object_at-set_object :
      (nodes : List (Node Value)) (i j : ℕ) (v : Option Value)
      → i < length nodes
      → object_at chars (set_object chars nodes i v) j
        ≡ (if i == j then v else object_at chars nodes j)
  unfolding set_object object_at node_at
  object_at-set_object nodes i j v h = elim (Bool-cases (i == j)) [
    | inl same ↦
        let e : i ≡ j = ground arith in
        rw (same, sym e) (ap (λ n. n.object) (get_or-set_same nodes i _ (empty_node chars) h))
    | inr other ↦
        rw other
          (ap (λ n. n.object) (get_or-set_other nodes i j _ (empty_node chars) (ground arith)))
  ]

  pub length-attach :
      (nodes : List (Node Value)) (i c : ℕ) → length (attach chars nodes i c) ≡ length nodes + 1
  unfolding attach set_next
  length-attach nodes i c =
      length-set (nodes ++ (empty_node chars ∷ [])) i _
      ∙ length-append nodes (empty_node chars ∷ [])

  module _ (nodes : List (Node Value)) (i c j : ℕ) (h : i < length nodes)
      (few : length nodes < 4294967296) where
    -- The old node with the new one below it, where it is the one that is written.
    written : Node Value → Node Value
    written n = record n { next = set n.next c (length nodes) }

    node_at-attach :
        node_at chars (attach chars nodes i c) j
        ≡ (if i == j then written (node_at chars nodes j) else node_at chars nodes j)
    unfolding attach set_next node_at limit_cast written
    node_at-attach =
        let into : Node Value → ℕ → Node Value = λ n k. record n { next = set n.next c k } in
        let e : length nodes % 4294967296 ≡ length nodes = omega arith in
        let m = get_or-append nodes (empty_node chars) in
        let l = length-append nodes (empty_node chars ∷ []) in
        elim (Bool-cases (i == j)) [
          | inl same ↦
              let ij : i ≡ j = ground arith in
              rw (same, sym ij)
                (get_or-set_same (nodes ++ (empty_node chars ∷ [])) i _ (empty_node chars)
                    (omega arith)
                  ∙ ap₂ into (m i) e)
          | inr other ↦ rw other (
              get_or-set_other (nodes ++ (empty_node chars ∷ [])) i j _ (empty_node chars)
                (ground arith)
              ∙ m j)
        ]

    pub object_at-attach : object_at chars (attach chars nodes i c) j ≡ object_at chars nodes j
    unfolding object_at written
    object_at-attach =
        ap (λ n. n.object) node_at-attach
        ∙ elim (Bool-cases (i == j)) [ inl same ↦ rw same refl | inr other ↦ rw other refl ]

    pub width-attach :
        length (node_at chars (attach chars nodes i c) j).next ≡ length (node_at chars nodes j).next
    unfolding written
    width-attach = ap (λ n. length n.next) node_at-attach ∙ elim (Bool-cases (i == j)) [
      | inl same ↦ rw same (length-set (node_at chars nodes j).next c (length nodes))
      | inr other ↦ rw other refl
    ]

    pub next_at-attach :
        (d : ℕ)
        → c < length (node_at chars nodes i).next
        → next_at chars (attach chars nodes i c) j d
          ≡ (if (i == j) && (c == d) then length nodes else next_at chars nodes j d)
    unfolding next_at written
    next_at-attach d w = ap (λ n. get_or n.next d 0) node_at-attach ∙ elim (Bool-cases (i == j)) [
      | inl same ↦
          let ij : i ≡ j = ground arith in
          let w' = rw ij at w in
          elim (Bool-cases (c == d)) [
            | inl here ↦
                let cd : c ≡ d = ground arith in
                rw (same, here, sym cd)
                  (get_or-set_same (node_at chars nodes j).next c (length nodes) 0 w')
            | inr there ↦
                rw (same, there)
                  (get_or-set_other (node_at chars nodes j).next c d (length nodes) 0
                    (ground arith))
          ]
      | inr other ↦ rw other refl
    ]
