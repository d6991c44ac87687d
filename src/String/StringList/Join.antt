-- ===== src/String/StringList/Join.antt =====
-- list.cpp: `split` and `join`.
use mathlib.Core.Option
use mathlib.Core.List.{append-nil}
use eagine_core.Common.{
  ℕ, ◌<◌, Bool, true, false, Option, some, List, [], ◌∷◌, ◌++◌, map, ◌==◌, if◌then◌else◌, length,
  length-append, ==_iff, ◌≡◌, ap, ap₂, ◌∙◌, arith,
}
use eagine_core.Memory.SpanAlgorithm.Splits.{joined, for_each_delimited_lem}
use eagine_core.String.MultiByte.Masks.{invalid_code_point}
use eagine_core.String.StringList.{
  value, for_each_elem, element_count, push_all, split_into, split, fill, join,
}
use eagine_core.String.StringList.Element.{packed, Short, value-packed_value}
use eagine_core.String.StringList.Forward.{
  AllShort, push_all-flat, for_each_elem-flat, for_each-push_all,
}

fill-later :
    (sep : List ℕ) (v : List ℕ) (vs : List (List ℕ))
    → Short v
    → AllShort vs
    → value (packed v) ++ fill sep false (map packed vs) ≡ joined sep v vs
unfolding fill
fill-later sep v [] h k = append-nil (value (packed v)) ∙ value-packed_value v h
fill-later sep v (w ∷ vs) h k =
    ap₂ ◌++◌ (value-packed_value v h) (ap (λ t. sep ++ t) (fill-later sep w vs k.0 k.1))

-- A list is joined from its values.
pub join-push_all :
    (v : List ℕ) (vs : List (List ℕ)) (sep : List ℕ) (trail_sep : Bool)
    → AllShort (v ∷ vs)
    → join (push_all [] (v ∷ vs)) sep trail_sep
      ≡ some (joined sep v vs ++ (if trail_sep then sep else []))
unfolding join fill
join-push_all v vs sep trail_sep h =
    let all : List ℕ → Option (List ℕ) = λ l.
      Option.map (λ elems. fill sep true elems ++ (if trail_sep then sep else []))
        (for_each_elem l) in
    ap all (push_all-flat [] (v ∷ vs) h)
    ∙ ap (Option.map (λ elems. fill sep true elems ++ (if trail_sep then sep else [])))
        (for_each_elem-flat (v ∷ vs) h)
    ∙ ap (λ t. some (t ++ (if trail_sep then sep else []))) (fill-later sep v vs h.0 h.1)

joined-AllShort :
    (sep v : List ℕ) (vs : List (List ℕ))
    → length (joined sep v vs) < invalid_code_point
    → AllShort (v ∷ vs)
joined-AllShort sep v [] h = (h, tt)
joined-AllShort sep v (w ∷ vs) h =
    let l = length-append v (sep ++ joined sep w vs) in
    let m = length-append sep (joined sep w vs) in
    (omega arith, joined-AllShort sep w vs (omega arith))

-- For a separator that is not empty and a string shorter than 0x7FFFFFFF, split ends with a list and
-- the number of its elements, which element_count also gives, and join of that list with the
-- separator ends with the string.
pub join-split :
    (str sep : List ℕ)
    → 0 < length sep
    → length str < invalid_code_point
    → (list : List ℕ) × (n : ℕ) × (split str sep ≡ some (list, n))
      × (element_count list ≡ some n)
      × (join list sep false ≡ some str)
unfolding split split_into
join-split str sep h short =
    let (part, parts, e, whole, cuts) =
      for_each_delimited_lem (λ a b. a == b) (λ a b. ==_iff a b) str sep h in
    let all = joined-AllShort sep part parts (rw whole short) in
    (
      push_all [] (part ∷ parts),
      length (part ∷ parts),
      ap (Option.map (λ p. (push_all [] p, length p))) e,
      (for_each-push_all (part ∷ parts) all).1,
      join-push_all part parts sep false all ∙ ap some (append-nil (joined sep part parts) ∙ whole),
    )
