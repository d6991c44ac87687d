-- ===== src/String/StringList/Backward.antt =====
-- list.cpp: the loop from the last element to the first.
use mathlib.Core.Option
use mathlib.Core.List.{append_assoc, append-nil, reverse, reverse_aux}
use eagine_core.Common.{
  ℕ, zero, suc, ◌+◌, ◌-◌, ◌<◌, false, some, List, [], ◌∷◌, ◌++◌, map, leb, length, take, drop,
  length-append, ◌≡◌, refl, sym, ap, ap₂, ◌∙◌, arith,
}
use eagine_core.Memory.SpanAlgorithm.Prefixes.{take-append, drop-append}
use eagine_core.String.StringList.{
  rev_seek, push_all, element_header_size, element_value_size, header_size, value_size, value,
  rev_elements_from, rev_for_each_elem, rev_for_each,
}
use eagine_core.String.StringList.Element.{
  code_size, code, packed, Short, header-code, value-code, length-packed, value_size-packed,
  length-code,
}
use eagine_core.String.StringList.Forward.{
  AllShort, flat, push_all-flat, length-packed-ge, map-value,
}
use eagine_core.String.StringList.Seek.{seek-code}

module _ (v pre rest : List ℕ) (h : Short v) where
  -- What stands before the last code of an element.
  pub before : List ℕ
  before = pre ++ (code (length v) ++ v)

  pub split_last : (pre ++ packed v) ++ rest ≡ before ++ (code (length v) ++ rest)
  unfolding before
  split_last = simp append_assoc

  pub length-before : length before ≡ length pre + code_size (length v) + length v
  unfolding before
  length-before = omega (
    arith,
    length-append pre (code (length v) ++ v),
    length-append (code (length v)) v,
    length-code v [] h,
  )

  pub length-element : length (pre ++ packed v) ≡ length before + code_size (length v)
  length-element = omega (arith, length-before, length-append pre (packed v), length-packed v [] h)

  pub found : rev_seek ((pre ++ packed v) ++ rest) (length (pre ++ packed v)) ≡ length before
  found = ap₂ rev_seek split_last length-element ∙ seek-code before rest (length v) h

  pub foot : drop (length before) ((pre ++ packed v) ++ rest) ≡ code (length v) ++ rest
  foot = ap (drop (length before)) split_last ∙ drop-append before (code (length v) ++ rest)

  foot_header :
      element_header_size (drop (length before) ((pre ++ packed v) ++ rest)) ≡ code_size (length v)
  foot_header = ap element_header_size foot ∙ header-code v rest h

  foot_value :
      element_value_size (drop (length before) ((pre ++ packed v) ++ rest)) (code_size (length v))
      ≡ length v
  foot_value = ap (λ s. element_value_size s (code_size (length v))) foot ∙ value-code v rest h

  element_there :
      take
        (code_size (length v) + length v + code_size (length v))
        (drop (length before - (code_size (length v) + length v)) ((pre ++ packed v) ++ rest))
      ≡ packed v
  element_there =
      let size : code_size (length v) + length v + code_size (length v) ≡ length (packed v) =
        omega (arith, length-packed v [] h) in
      let at : length before - (code_size (length v) + length v) ≡ length pre =
        omega (arith, length-before) in
      ap₂ (λ k i. take k (drop i ((pre ++ packed v) ++ rest))) size at
      ∙ ap (λ l. take (length (packed v)) (drop (length pre) l)) (append_assoc pre (packed v) rest)
      ∙ ap (take (length (packed v))) (drop-append pre (packed v ++ rest))
      ∙ take-append (packed v) rest

  next_end : length before + 1 - (header_size (packed v) + value_size (packed v) + 1) ≡ length pre
  next_end =
      let sizes = value_size-packed v h in
      let hd = sizes.0 in let vs = sizes.1 in omega (arith, length-before)

-- The reversed elements, the last one first.
abbrev pub flat_reversed : List (List ℕ) → List ℕ
flat_reversed [] = []
flat_reversed (v ∷ vs) = flat_reversed vs ++ packed v

rev_elements_from_lem :
    (fuel : ℕ) (rs : List (List ℕ)) (rest : List ℕ)
    → AllShort rs
    → length (flat_reversed rs) < fuel
    → rev_elements_from fuel (flat_reversed rs ++ rest) (length (flat_reversed rs))
      ≡ some (map packed rs)
unfolding rev_elements_from
rev_elements_from_lem zero rs rest h f = absurd (omega arith)
rev_elements_from_lem (suc fuel) [] rest h f = refl
rev_elements_from_lem (suc fuel) (v ∷ rs) rest h f =
    let pre = flat_reversed rs in
    let big = length-packed-ge v h.0 in
    let goes_on : leb (length (pre ++ packed v)) 1 ≡ false =
      ground (arith, length-append pre (packed v)) in
    let later =
      rev_elements_from_lem fuel rs (packed v ++ rest) h.1
        (omega (arith, length-append pre (packed v))) in
    let list = (pre ++ packed v) ++ rest in
    rw
      (
        rev_elements_from,
        goes_on,
        found v pre rest h.0,
        foot_header v pre rest h.0,
        foot_value v pre rest h.0,
        element_there v pre rest h.0,
      )
      (ap (λ o. Option.map (λ elems. packed v ∷ elems) o)
        (ap (rev_elements_from fuel list) (next_end v pre rest h.0)
          ∙ ap (λ l. rev_elements_from fuel l (length pre)) (append_assoc pre (packed v) rest)
          ∙ later))

pub flat_reversed-reverse_aux :
    (vs acc : List (List ℕ)) → flat_reversed (reverse_aux vs acc) ≡ flat_reversed acc ++ flat vs
flat_reversed-reverse_aux [] acc = sym (append-nil (flat_reversed acc))
flat_reversed-reverse_aux (v ∷ vs) acc =
    flat_reversed-reverse_aux vs (v ∷ acc) ∙ append_assoc (flat_reversed acc) (packed v) (flat vs)

pub reverse_aux-AllShort :
    (vs acc : List (List ℕ)) → AllShort vs → AllShort acc → AllShort (reverse_aux vs acc)
reverse_aux-AllShort [] acc h k = k
reverse_aux-AllShort (v ∷ vs) acc h k = reverse_aux-AllShort vs (v ∷ acc) h.1 (h.0, k)

-- For strings shorter than 0x7FFFFFFF that are pushed one after the other on an empty list,
-- rev_for_each ends and gives them in the reverse order.
pub rev_for_each-push_all :
    (vs : List (List ℕ)) → AllShort vs → rev_for_each (push_all [] vs) ≡ some (reverse vs)
unfolding rev_for_each rev_for_each_elem
rev_for_each-push_all vs h =
    let rs = reverse vs in
    let k : AllShort rs = reverse_aux-AllShort vs [] h tt in
    let list : push_all [] vs ≡ flat_reversed rs ++ [] =
      push_all-flat [] vs h
      ∙ sym (flat_reversed-reverse_aux vs [])
      ∙ sym (append-nil (flat_reversed rs)) in
    let l : length (flat_reversed rs ++ []) ≡ length (flat_reversed rs) =
      ap length (append-nil (flat_reversed rs)) in
    let e = rev_elements_from_lem (length (flat_reversed rs) + 1) rs [] k (omega arith) in
    ap (λ s. Option.map (map value) (rev_elements_from (length s + 1) s (length s))) list
    ∙ ap (λ n. Option.map (map value) (rev_elements_from (n + 1) (flat_reversed rs ++ []) n)) l
    ∙ ap (Option.map (map value)) e
    ∙ ap some (map-value rs k)
