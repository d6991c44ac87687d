-- ===== src/String/StringList/Iterated.antt =====
-- list.cpp: what the iterators pass over.
use mathlib.Core.Option
use mathlib.Core.List.{append_assoc, append-nil, reverse}
use eagine_core.Common.{
  ℕ, zero, suc, ◌+◌, ◌-◌, ◌<◌, true, false, some, List, [], ◌∷◌, ◌++◌, ◌==◌, length, get_or, take,
  drop, length-append, ◌≡◌, refl, sym, ap, ap₂, ◌∙◌, arith,
}
use eagine_core.Memory.SpanAlgorithm.Prefixes.{take-append, drop-append}
use eagine_core.String.MultiByte.Masks.{do_decode_sequence_length}
use eagine_core.String.StringList.{element_header_size, element_value_size, push_all}
use eagine_core.String.StringList.Iterators.{
  len_len, val_len, iterator_value, iterator_next, iterate, rev_iterator_value, rev_iterator_next,
  rev_iterate,
}
use eagine_core.String.StringList.Element.{
  code_size, code, packed, Short, header-code, value-code, length-packed, length-code,
}
use eagine_core.String.StringList.Forward.{AllShort, flat, push_all-flat, length-packed-ge}
use eagine_core.String.StringList.Backward.{
  before, length-before, found, foot, flat_reversed, flat_reversed-reverse_aux,
  reverse_aux-AllShort,
}

get_or-drop : (xs : List ℕ) (i : ℕ) → get_or xs i 0 ≡ get_or (drop i xs) 0 0
get_or-drop [] zero = refl
get_or-drop [] (suc i) = refl
get_or-drop (x ∷ xs) zero = refl
get_or-drop (x ∷ xs) (suc i) = get_or-drop xs i

module _ (v rest list : List ℕ) (at : ℕ) (h : Short v)
    (here : drop at list ≡ code (length v) ++ rest) where
  -- A position at the code of a length.
  len_len-code : len_len list at ≡ code_size (length v)
  unfolding len_len element_header_size
  len_len-code =
      ap do_decode_sequence_length (get_or-drop list at)
      ∙ ap (λ l. do_decode_sequence_length (get_or l 0 0)) here
      ∙ header-code v rest h

  val_len-code : val_len list at (code_size (length v)) ≡ length v
  unfolding val_len
  val_len-code =
      let c = length-code v [] h in
      let p : take (code_size (length v)) (drop at list) ≡ code (length v) =
        ap (take (code_size (length v))) here
        ∙ ap (λ k. take k (code (length v) ++ rest)) (sym c)
        ∙ take-append (code (length v)) rest in
      ap (λ q. element_value_size q (code_size (length v))) (p ∙ sym (append-nil (code (length v))))
      ∙ value-code v [] h

module _ (v pre rest : List ℕ) (h : Short v) where
  regrouped :
      (pre ++ packed v) ++ rest ≡ (pre ++ code (length v)) ++ (v ++ (code (length v) ++ rest))
  regrouped = simp append_assoc

  -- The string from the value on.
  from_value :
      (i : ℕ)
      → i ≡ length pre + code_size (length v)
      → take (length v) (drop i ((pre ++ packed v) ++ rest)) ≡ v
  from_value i e =
      let at : i ≡ length (pre ++ code (length v)) =
        omega (arith, length-append pre (code (length v)), length-code v [] h) in
      ap₂ (λ k l. take (length v) (drop k l)) at regrouped
      ∙ ap (take (length v)) (drop-append (pre ++ code (length v)) (v ++ (code (length v) ++ rest)))
      ∙ take-append v (code (length v) ++ rest)

  at_header :
      drop (length pre) ((pre ++ packed v) ++ rest)
      ≡ code (length v) ++ (v ++ (code (length v) ++ rest))
  at_header =
      ap (drop (length pre))
        (regrouped ∙ append_assoc pre (code (length v)) (v ++ (code (length v) ++ rest)))
      ∙ drop-append pre (code (length v) ++ (v ++ (code (length v) ++ rest)))

  iterator_lem :
      (iterator_value ((pre ++ packed v) ++ rest) (length pre) ≡ v)
      × (iterator_next ((pre ++ packed v) ++ rest) (length pre) ≡ length (pre ++ packed v))
  unfolding iterator_value iterator_next
  iterator_lem =
      let list = (pre ++ packed v) ++ rest in
      let ll = len_len-code v (v ++ (code (length v) ++ rest)) list (length pre) h at_header in
      let vl = val_len-code v (v ++ (code (length v) ++ rest)) list (length pre) h at_header in
      (
        ap (λ k. take (val_len list (length pre) k) (drop (length pre + k) list)) ll
            ∙ ap (λ k. take k (drop (length pre + code_size (length v)) list)) vl
            ∙ from_value (length pre + code_size (length v)) refl,
        ap (λ k. length pre + (k + val_len list (length pre) k + k)) ll
            ∙ ap (λ k. length pre + (code_size (length v) + k + code_size (length v))) vl
            ∙ omega (arith, length-append pre (packed v), length-packed v [] h),
      )

  rev_iterator_lem :
      (rev_iterator_value ((pre ++ packed v) ++ rest) (length (pre ++ packed v)) ≡ v)
      × (rev_iterator_next ((pre ++ packed v) ++ rest) (length (pre ++ packed v)) ≡ length pre)
  unfolding rev_iterator_value rev_iterator_next
  rev_iterator_lem =
      let list = (pre ++ packed v) ++ rest in
      let at = length (before v pre rest h) in
      let ll = len_len-code v rest list at h (foot v pre rest h) in
      let vl = val_len-code v rest list at h (foot v pre rest h) in
      let b = length-before v pre rest h in
      (
        ap
              (λ k.
                take (val_len list k (len_len list k))
                  (drop (k - val_len list k (len_len list k)) list))
              (found v pre rest h)
            ∙ ap (λ k. take (val_len list at k) (drop (at - val_len list at k) list)) ll
            ∙ ap (λ k. take k (drop (at - k) list)) vl
            ∙ from_value (at - length v) (omega arith),
        ap (λ k. k + 1 - (len_len list k + val_len list k (len_len list k) + 1))
              (found v pre rest h)
            ∙ ap (λ k. at + 1 - (k + val_len list at k + 1)) ll
            ∙ ap (λ k. at + 1 - (code_size (length v) + k + 1)) vl
            ∙ omega arith,
      )

iterate_from :
    (fuel : ℕ) (pre : List ℕ) (vs : List (List ℕ))
    → AllShort vs
    → length (flat vs) < fuel
    → iterate fuel (pre ++ flat vs) (length pre) ≡ some vs
unfolding iterate
iterate_from zero pre vs h f = absurd (omega arith)
iterate_from (suc fuel) pre [] h f =
    let ends : (length pre == length (pre ++ [])) ≡ true = ground (arith, length-append pre []) in
    rw ends refl
iterate_from (suc fuel) pre (v ∷ vs) h f =
    let big = length-packed-ge v h.0 in
    let goes_on : (length pre == length (pre ++ (packed v ++ flat vs))) ≡ false =
      ground (arith, length-append pre (packed v ++ flat vs), length-append (packed v) (flat vs)) in
    let step = iterator_lem v pre (flat vs) h.0 in
    let same = sym (append_assoc pre (packed v) (flat vs)) in
    let rest =
      iterate_from fuel (pre ++ packed v) vs h.1
        (omega (arith, length-append (packed v) (flat vs))) in
    let value = ap (λ l. iterator_value l (length pre)) same ∙ step.0 in
    let later =
      ap (λ l. iterate fuel l (iterator_next l (length pre))) same
      ∙ ap (iterate fuel ((pre ++ packed v) ++ flat vs)) step.1
      ∙ rest in
    rw goes_on (ap₂ (λ x o. Option.map (λ values. x ∷ values) o) value later)

rev_iterate_from :
    (fuel : ℕ) (rs : List (List ℕ)) (rest : List ℕ)
    → AllShort rs
    → length (flat_reversed rs) < fuel
    → rev_iterate fuel (flat_reversed rs ++ rest) (length (flat_reversed rs)) ≡ some rs
unfolding rev_iterate
rev_iterate_from zero rs rest h f = absurd (omega arith)
rev_iterate_from (suc fuel) [] rest h f = refl
rev_iterate_from (suc fuel) (v ∷ rs) rest h f =
    let pre = flat_reversed rs in
    let big = length-packed-ge v h.0 in
    let goes_on : (length (pre ++ packed v) == 0) ≡ false =
      ground (arith, length-append pre (packed v)) in
    let step = rev_iterator_lem v pre rest h.0 in
    let list = (pre ++ packed v) ++ rest in
    let later =
      ap (rev_iterate fuel list) step.1
      ∙ ap (λ l. rev_iterate fuel l (length pre)) (append_assoc pre (packed v) rest)
      ∙ rev_iterate_from fuel rs (packed v ++ rest) h.1
          (omega (arith, length-append pre (packed v))) in
    rw goes_on (ap₂ (λ x o. Option.map (λ values. x ∷ values) o) step.0 later)

-- For strings shorter than 0x7FFFFFFF that are pushed one after the other on an empty list, a loop
-- over iterators from the begin to the end ends and gives the strings in this order, and one over
-- reverse iterators gives them in the reverse order.
pub iterate-push_all :
    (vs : List (List ℕ))
    → AllShort vs
    → let list = push_all [] vs in
      (iterate (length list + 1) list 0 ≡ some vs)
      × (rev_iterate (length list + 1) list (length list) ≡ some (reverse vs))
iterate-push_all vs h =
    let p = push_all-flat [] vs h in
    let rs = reverse vs in
    let k : AllShort rs = reverse_aux-AllShort vs [] h tt in
    let q : push_all [] vs ≡ flat_reversed rs ++ [] =
      p ∙ sym (flat_reversed-reverse_aux vs []) ∙ sym (append-nil (flat_reversed rs)) in
    let l : length (flat_reversed rs ++ []) ≡ length (flat_reversed rs) =
      ap length (append-nil (flat_reversed rs)) in
    (
      ap (λ s. iterate (length s + 1) s 0) p
          ∙ iterate_from (length (flat vs) + 1) [] vs h (omega arith),
      ap (λ s. rev_iterate (length s + 1) s (length s)) q
          ∙ ap (λ n. rev_iterate (n + 1) (flat_reversed rs ++ []) n) l
          ∙ rev_iterate_from (length (flat_reversed rs) + 1) rs [] k (omega arith),
    )
