-- ===== src/String/StringList/Forward.antt =====
-- list.cpp: the loop over the elements of a list that `push_back` made.
use mathlib.Core.Option
use mathlib.Core.List.{append_assoc, append-nil}
use eagine_core.Common.{
  ℕ, zero, suc, ◌+◌, ◌≤◌, ◌<◌, true, false, some, List, [], ◌∷◌, ◌++◌, map, leb, length, take,
  length-append, length-map, ◌≡◌, refl, sym, ap, ap₂, ◌∙◌, arith,
}
use eagine_core.Memory.SpanAlgorithm.Prefixes.{take-append, drop-append}
use eagine_core.String.StringList.{
  push_back, push_all, fit_size, value, elements_from, for_each_elem, for_each, element_count,
}
use eagine_core.String.StringList.Element.{
  packed, Short, fit_size-packed, push_back-packed, length-packed, code_size_positive,
  value-packed_value,
}

abbrev pub AllShort : List (List ℕ) → Type 0
AllShort [] = Unit {0}
AllShort (v ∷ vs) = Short v × AllShort vs

abbrev pub flat : List (List ℕ) → List ℕ
flat [] = []
flat (v ∷ vs) = packed v ++ flat vs

pub length-packed-ge : (v : List ℕ) → Short v → 2 ≤ length (packed v)
length-packed-ge v h = omega (arith, length-packed v [] h, code_size_positive v [] h)

pub push_all-flat :
    (dst : List ℕ) (vs : List (List ℕ)) → AllShort vs → push_all dst vs ≡ dst ++ flat vs
unfolding push_all
push_all-flat dst [] h = sym (append-nil dst)
push_all-flat dst (v ∷ vs) h =
    push_all-flat (push_back dst v) vs h.1
    ∙ ap (λ l. l ++ flat vs) (push_back-packed v dst h.0)
    ∙ append_assoc dst (packed v) (flat vs)

elements_from_lem :
    (fuel : ℕ) (pre : List ℕ) (vs : List (List ℕ))
    → AllShort vs
    → length (flat vs) < fuel
    → elements_from fuel (pre ++ flat vs) (length pre) ≡ some (map packed vs)
unfolding elements_from
elements_from_lem zero pre vs h f = absurd (omega arith)
elements_from_lem (suc fuel) pre [] h f =
    let ends : leb (length pre + 2) (length (pre ++ [])) ≡ false =
      ground (arith, length-append pre []) in
    rw ends refl
elements_from_lem (suc fuel) pre (v ∷ vs) h f =
    let big = length-packed-ge v h.0 in
    let here = drop-append pre (packed v ++ flat vs) in
    let size = fit_size-packed v (flat vs) h.0 in
    let goes_on : leb (length pre + 2) (length (pre ++ (packed v ++ flat vs))) ≡ true =
      ground (arith, length-append pre (packed v ++ flat vs), length-append (packed v) (flat vs)) in
    let l : length pre + length (packed v) ≡ length (pre ++ packed v) =
      omega (arith, length-append pre (packed v)) in
    let rest =
      elements_from_lem fuel (pre ++ packed v) vs h.1
        (omega (arith, length-append (packed v) (flat vs))) in
    let list = pre ++ (packed v ++ flat vs) in
    let sized = ap fit_size here ∙ size in
    let first = ap₂ take sized here ∙ take-append (packed v) (flat vs) in
    let later =
      ap (λ k. elements_from fuel list (length pre + k)) sized
      ∙ ap₂ (elements_from fuel) (sym (append_assoc pre (packed v) (flat vs))) l
      ∙ rest in
    rw goes_on (ap₂ (λ e o. Option.map (λ elems. e ∷ elems) o) first later)

pub map-value : (vs : List (List ℕ)) → AllShort vs → map value (map packed vs) ≡ vs
map-value [] h = refl
map-value (v ∷ vs) h = ap₂ ◌∷◌ (value-packed_value v h.0) (map-value vs h.1)

pub for_each_elem-flat :
    (vs : List (List ℕ)) → AllShort vs → for_each_elem (flat vs) ≡ some (map packed vs)
unfolding for_each_elem
for_each_elem-flat vs h = elements_from_lem (length (flat vs) + 1) [] vs h (omega arith)

-- For strings shorter than 0x7FFFFFFF that are pushed one after the other on an empty list, for_each
-- ends and gives them in this order, and element_count their number.
pub for_each-push_all :
    (vs : List (List ℕ))
    → AllShort vs
    → (for_each (push_all [] vs) ≡ some vs) × (element_count (push_all [] vs) ≡ some (length vs))
unfolding for_each element_count
for_each-push_all vs h =
    let p = push_all-flat [] vs h in
    let e = for_each_elem-flat vs h in
    (
      ap (λ l. Option.map (map value) (for_each_elem l)) p
          ∙ ap (Option.map (map value)) e
          ∙ ap some (map-value vs h),
      ap (λ l. Option.map length (for_each_elem l)) p
          ∙ ap (Option.map length) e
          ∙ ap some (length-map vs packed),
    )
