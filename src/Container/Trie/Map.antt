-- ===== src/Container/Trie/Map.antt =====
-- trie.cpp: the trie as a map from keys to values.
use mathlib.Core.Option.{some-injective}
use eagine_core.Common.{
  ℕ, ◌+◌, ◌<◌, Bool, true, false, ◌&&◌, List, [], ◌∷◌, ◌++◌, none, some, ◌==◌, if◌then◌else◌,
  Bool-cases, Option-cases, inl, inr, ◌≡◌, refl, sym, ap, ◌∙◌, arith, length, drop,
}
use eagine_core.Container.Trie.{
  Node, next_at, object_at, get_char_index, is_valid_char, is_valid_key, insert_pos_from,
  find_insert_pos, find, has_value, contains,
}
use eagine_core.Container.Trie.CharIndex.{Charset, get_char_index_lem}
use eagine_core.Container.Trie.Paths.{IsTrie, Steps, value_of, onto}
use eagine_core.Container.Trie.Growth.{Free, IsAscii}

pub IsAscii-rest : (taken rest : List ℕ) → IsAscii (taken ++ rest) → IsAscii rest
IsAscii-rest [] rest h = h
IsAscii-rest (c ∷ taken) rest h = IsAscii-rest taken rest h.1

pub drop_taken : (taken rest : List ℕ) → drop (length taken) (taken ++ rest) ≡ rest
drop_taken [] rest = refl
drop_taken (c ∷ taken) rest = drop_taken taken rest

pub onto-append : (a b acc : List ℕ) → onto (a ++ b) acc ≡ onto b (onto a acc)
onto-append [] b acc = refl
onto-append (c ∷ a) b acc = onto-append a b (c ∷ acc)

-- What `_find_insert_pos` finds: the part of the key that the nodes have, and what is left of it.
pub record Located {ℓ} {Value : Type ℓ} (chars : List ℕ) (nodes : List (Node Value))
    (key acc : List ℕ) (i offs : ℕ) (pos : ℕ × ℕ × Bool) : Type ℓ where
  pub taken : List ℕ
  pub rest : List ℕ
  pub parts : key ≡ taken ++ rest
  pub offset : pos.1 ≡ offs + length taken
  pub way : Steps chars nodes (onto taken acc) pos.0
  pub inside : pos.0 < length nodes
  pub free :
      pos.2 ≡ true
      → Free chars nodes rest pos.0
        × (IsAscii key → is_valid_key chars key ≡ is_valid_key chars rest)
  pub bad : pos.2 ≡ false → IsAscii key → is_valid_key chars key ≡ false
  pub value :
      value_of chars nodes key i
      ≡ (if pos.2 && (pos.1 == offs + length key) then object_at chars nodes pos.0 else none)

module _ {ℓ} {Value : Type ℓ} (chars : List ℕ) (s : Charset chars) where
  module _ (nodes : List (Node Value)) (t : IsTrie chars nodes) where
    char_known :
        (c k : ℕ) → get_char_index chars c ≡ some k → c < 128 → is_valid_char chars c ≡ true
    char_known c k e a = elim (get_char_index_lem chars s c a) [
      | inl missing ↦ let m = missing.0 in absurd cc
      | inr found ↦ found.2
    ]

    char_unknown : (c : ℕ) → get_char_index chars c ≡ none → c < 128 → is_valid_char chars c ≡ false
    char_unknown c e a = elim (get_char_index_lem chars s c a) [
      | inl missing ↦ missing.1
      | inr found ↦ let m = found.1 in absurd cc
    ]

    insert_pos_lem :
        (key acc : List ℕ) (i offs : ℕ)
        → i < length nodes
        → Steps chars nodes acc i
        → Located chars nodes key acc i offs (insert_pos_from chars nodes key i offs)
    unfolding insert_pos_from is_valid_key
    insert_pos_lem [] acc i offs h way =
        let e : (offs == offs + 0) ≡ true = ground arith in
        record {
          taken = [];
          rest = [];
          parts = refl;
          offset = omega arith;
          way = way;
          inside = h;
          free = λ _. (tt, λ _. refl);
          bad = λ f. absurd cc;
          value = rw e refl;
        }
    insert_pos_lem (c ∷ key) acc i offs h way = elim (Option-cases (get_char_index chars c)) [
      | inl e ↦
          rw (insert_pos_from, e)
            (record {
              taken = [];
              rest = c ∷ key;
              parts = refl;
              offset = omega arith;
              way = way;
              inside = h;
              free = λ f. absurd cc;
              bad = λ _ a. rw (char_unknown c e a.0) refl;
              value = rw (value_of, e) refl;
            })
      | inr (k, e) ↦ elim (Bool-cases (next_at chars nodes i k == 0)) [
        | inl last ↦
            let short : (offs == offs + length (c ∷ key)) ≡ false = ground arith in
            rw (insert_pos_from, e, last)
              (record {
                taken = [];
                rest = c ∷ key;
                parts = refl;
                offset = omega arith;
                way = way;
                inside = h;
                free = λ _. (
                  (λ d f. let kd = some-injective k d (sym e ∙ f) in rw (sym kd) (ground arith)),
                  λ _. refl,
                );
                bad = λ f. absurd cc;
                value = rw (value_of, e, last, short) refl;
              })
        | inr more ↦
            let n = next_at chars nodes i k in
            let inside : next_at chars nodes i k < length nodes = elim (t.forward i k) [
              | inl z ↦ absurd (ground arith)
              | inr b ↦ b.1
            ] in
            let r =
              insert_pos_lem key (c ∷ acc) n (offs + 1) inside (i, k, way, e, refl, ground arith) in
            let len : offs + 1 + length key ≡ offs + length (c ∷ key) = omega arith in
            let v = r.value in
            rw (insert_pos_from, e, more)
              (record {
                taken = c ∷ r.taken;
                rest = r.rest;
                parts = ap (λ l. c ∷ l) r.parts;
                offset = r.offset ∙ omega arith;
                way = r.way;
                inside = r.inside;
                free = λ f. ((r.free f).0, λ a. rw (char_known c k e a.0) ((r.free f).1 a.1));
                bad = λ f a. rw (char_known c k e a.0) (r.bad f a.1);
                value = rw (value_of, e, more) (rw len at v);
              })
      ]
    ]

    pub pos_lem : (key : List ℕ) → Located chars nodes key [] 0 0 (find_insert_pos chars nodes key)
    unfolding find_insert_pos
    pos_lem key = insert_pos_lem key [] 0 0 t.root refl

    -- `find` is the walk down the tree.
    pub find_lem : (key : List ℕ) → find chars nodes key ≡ value_of chars nodes key 0
    unfolding find
    find_lem key =
        let z : 0 + length key ≡ length key = omega arith in
        let l = pos_lem key in let v = l.value in sym (rw z at v)

    pub contains-find : (key : List ℕ) → contains chars nodes key ≡ has_value (find chars nodes key)
    unfolding contains find has_value
    contains-find key =
        elim (Bool-cases (
          (find_insert_pos chars nodes key).2
          && ((find_insert_pos chars nodes key).1 == length key))) [
            | inl there ↦ rw there refl
            | inr missing ↦ rw missing refl
          ]
