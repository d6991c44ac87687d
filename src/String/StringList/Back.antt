-- ===== src/String/StringList/Back.antt =====
-- list.cpp: the last element of a list, and what is left without it.
use mathlib.Core.List.{append_assoc, append-nil}
use eagine_core.Common.{
  ℕ, ◌+◌, ◌-◌, ◌≤◌, min, true, List, [], ◌++◌, leb, length, take, drop, length-append, ◌≡◌, refl,
  sym, ap, ap₂, ◌∙◌, arith,
}
use eagine_core.Common.Integers.{pos, size_less}
use eagine_core.Memory.SpanAlgorithm.Slices.{slice, skip, head}
use eagine_core.Memory.SpanAlgorithm.Prefixes.{take-append, drop-append, head-append, skip-append}
use eagine_core.String.StringList.{
  rev_seek, rev_seek_header_start, back_value, without_back, pop_back, push_back,
  element_header_size, element_value_size,
}
use eagine_core.String.StringList.Element.{
  code_size, code, packed, Short, header-code, value-code, push_back-packed, length-code,
}
use eagine_core.String.StringList.Backward.{
  before, split_last, length-before, length-element, found,
}

slice-within : (s : List ℕ) (i l : ℕ) → i + l ≤ length s → slice s (pos i) l ≡ take l (drop i s)
unfolding slice
slice-within s i l h =
    let a : min i (length s) ≡ i = omega arith in
    let b : min (i + l) (length s) - min i (length s) ≡ l = omega arith in
    ap₂ (λ m k. take m (drop k s)) b a

size_less-le : (i l : ℕ) → l ≤ i → size_less i (pos l) ≡ pos (i - l)
size_less-le i l h = let e : leb l i ≡ true = ground arith in rw e refl

module _ (v pre : List ℕ) (h : Short v) where
  last_start : rev_seek_header_start (pre ++ packed v) ≡ length (before v pre [] h)
  unfolding rev_seek_header_start
  last_start =
      ap (λ l. rev_seek l (length (pre ++ packed v))) (sym (append-nil (pre ++ packed v)))
      ∙ found v pre [] h

  last_code : skip (pre ++ packed v) (pos (length (before v pre [] h))) ≡ code (length v)
  last_code =
      let e : pre ++ packed v ≡ before v pre [] h ++ code (length v) =
        sym (append-nil (pre ++ packed v))
        ∙ split_last v pre [] h
        ∙ ap (λ t. before v pre [] h ++ t) (append-nil (code (length v))) in
      ap (λ l. skip l (pos (length (before v pre [] h)))) e
      ∙ skip-append (before v pre [] h) (code (length v))

  last_header :
      element_header_size (skip (pre ++ packed v) (pos (length (before v pre [] h))))
      ≡ code_size (length v)
  last_header =
      ap element_header_size (last_code ∙ sym (append-nil (code (length v)))) ∙ header-code v [] h

  last_size :
      element_value_size
        (skip (pre ++ packed v) (pos (length (before v pre [] h))))
        (code_size (length v))
      ≡ length v
  last_size =
      ap (λ s. element_value_size s (code_size (length v)))
        (last_code ∙ sym (append-nil (code (length v))))
      ∙ value-code v [] h

  last_slice :
      slice (pre ++ packed v) (size_less (length (before v pre [] h)) (pos (length v))) (length v)
      ≡ v
  last_slice =
      let b = length-before v pre [] h in
      let i = length (before v pre [] h) in
      let s = size_less-le i (length v) (omega arith) in
      let at : i - length v ≡ length (pre ++ code (length v)) =
        omega (arith, length-append pre (code (length v)), length-code v [] h) in
      let inside : i - length v + length v ≤ length (pre ++ packed v) =
        omega (arith, length-element v pre [] h) in
      ap (λ z. slice (pre ++ packed v) z (length v)) s
      ∙ slice-within (pre ++ packed v) (i - length v) (length v) inside
      ∙ ap₂ (λ k l. take (length v) (drop k l)) at
          (sym (append_assoc pre (code (length v)) (v ++ code (length v))))
      ∙ ap (take (length v)) (drop-append (pre ++ code (length v)) (v ++ code (length v)))
      ∙ take-append v (code (length v))

  last_rest :
      head
        (pre ++ packed v)
        (size_less (length (before v pre [] h)) (pos (code_size (length v) + length v)))
      ≡ pre
  last_rest =
      let b = length-before v pre [] h in
      let i = length (before v pre [] h) in
      let n = code_size (length v) + length v in
      let at : i - n ≡ length pre = omega arith in
      ap (head (pre ++ packed v)) (size_less-le i n (omega arith) ∙ ap pos at)
      ∙ head-append pre (packed v)

-- After push_back of a string shorter than 0x7FFFFFFF on any list, back_value is the string, and
-- without_back and pop_back give the list as it was.
back_lem :
    (list v : List ℕ)
    → Short v
    → (back_value (push_back list v) ≡ v)
      × (without_back (push_back list v) ≡ list)
      × (pop_back (push_back list v) ≡ list)
unfolding back_value without_back pop_back
back_lem list v h = rw (push_back-packed v list h) (last_value, rest_list, popped)
  where
    last_value : back_value (list ++ packed v) ≡ v
    last_value =
        rw (back_value, last_start v list h, last_header v list h, last_size v list h)
          (last_slice v list h)

    rest_list : without_back (list ++ packed v) ≡ list
    rest_list =
        rw (without_back, last_start v list h, last_header v list h, last_size v list h)
          (last_rest v list h)

    popped : pop_back (list ++ packed v) ≡ list
    popped = ap (λ r. take (length r) (list ++ packed v)) rest_list ∙ take-append list (packed v)
