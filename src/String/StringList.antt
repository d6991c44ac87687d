-- ===== src/String/StringList.antt =====
-- source/modules/eagine/string/list.cpp: a list of strings in one string. A string is the list of its
-- bytes. The loops run on fuel, and `none` means that it ran out.
pub mod Element
pub mod Forward
pub mod Seek
pub mod Backward
pub mod Back
pub mod Join
pub mod Iterators
pub mod Iterated
pub mod CStrings
mod Tests
use mathlib.Core.Option
use eagine_core.Common.{
  ℕ, zero, suc, ◌+◌, ◌-◌, ◌%◌, Bool, true, false, Option, none, some, List, [], ◌∷◌, ◌++◌, map, leb,
  ◌==◌, if◌then◌else◌, length, get_or, take, drop, replicate,
}
use eagine_core.Common.Integers.{pos, size_less}
use eagine_core.Memory.SpanAlgorithm.Slices.{slice, skip, head}
use eagine_core.Memory.SpanAlgorithm.Parts.{for_each_delimited}
use eagine_core.String.MultiByte.Masks.{
  valid_code_point, required_sequence_length, is_valid_head_byte,
}
use eagine_core.String.MultiByte.Code.{
  decode_sequence_length, do_decode_code_point, do_encode_code_point,
}

-- `encode_code_point` into a string; the empty one says that it failed.
unfoldable pub encode_code_point_string : ℕ → List ℕ
unfolding required_sequence_length do_encode_code_point
encode_code_point_string cp =
    let l = required_sequence_length cp in
    let (tmp, done) = do_encode_code_point cp (replicate 7 0) l in
    if l == 0 then [] else if done then take l tmp else []

unfoldable pub encode_length : ℕ → List ℕ
unfolding encode_code_point_string
encode_length len = encode_code_point_string (len % 4294967296)

unfoldable pub element_header_size : List ℕ → ℕ
unfolding decode_sequence_length
element_header_size elem = decode_sequence_length elem

unfoldable pub element_value_size : List ℕ → ℕ → ℕ
unfolding do_decode_code_point valid_code_point
element_value_size elem l =
    let cp = do_decode_code_point elem l in if valid_code_point cp then cp else 0

-- The last head byte among the first `n` bytes; 0 when there is none.
unfoldable pub rev_seek : List ℕ → ℕ → ℕ
unfolding is_valid_head_byte
rev_seek elem zero = 0
rev_seek elem (suc i) =
    let rest = rev_seek elem i in if is_valid_head_byte (get_or elem i 0) then i else rest

unfoldable pub rev_seek_header_start : List ℕ → ℕ
unfolding rev_seek
rev_seek_header_start elem = rev_seek elem (length elem)

unfoldable pub front_value : List ℕ → List ℕ
unfolding element_header_size element_value_size slice
front_value list =
    let k = element_header_size list in let l = element_value_size list k in slice list (pos k) l

unfoldable pub back_value : List ℕ → List ℕ
unfolding rev_seek_header_start element_header_size element_value_size slice skip
back_value list =
    let i = rev_seek_header_start list in
    let header = skip list (pos i) in
    let k = element_header_size header in
    let l = element_value_size header k in slice list (size_less i (pos l)) l

unfoldable pub without_back : List ℕ → List ℕ
unfolding rev_seek_header_start element_header_size element_value_size head skip
without_back list =
    let i = rev_seek_header_start list in
    let header = skip list (pos i) in
    let k = element_header_size header in
    let l = element_value_size header k in head list (size_less i (pos (k + l)))

-- `list.resize` to a smaller size.
unfoldable pub pop_back : List ℕ → List ℕ
unfolding without_back
pop_back list = take (length (without_back list)) list

unfoldable pub push_back : List ℕ → List ℕ → List ℕ
unfolding encode_length
push_back list value = let elen = encode_length (length value) in list ++ (elen ++ (value ++ elen))

-- The size of the element at the front, which `_fit` computes.
unfoldable pub fit_size : List ℕ → ℕ
unfolding element_header_size element_value_size
fit_size s = let hs = element_header_size s in hs + element_value_size s hs + hs

-- The members of `element`, on its own bytes.
unfoldable pub header_size : List ℕ → ℕ
unfolding element_header_size
header_size elem = element_header_size elem

unfoldable pub value_size : List ℕ → ℕ
unfolding header_size element_value_size
value_size elem =
    let header = take (header_size elem) elem in element_value_size header (length header)

unfoldable pub value : List ℕ → List ℕ
unfolding header_size value_size
value elem = take (value_size elem) (drop (header_size elem) elem)

-- The loop of `for_each_elem` from index `i` on: the elements that the function is called with.
unfoldable pub elements_from : ℕ → List ℕ → ℕ → Option (List (List ℕ))
unfolding fit_size
elements_from zero list i = none
elements_from (suc fuel) list i =
    let here = drop i list in
    let rest = elements_from fuel list (i + fit_size here) in
    if leb (i + 2) (length list)
    then Option.map (λ elems. take (fit_size here) here ∷ elems) rest
    else some []

unfoldable pub for_each_elem : List ℕ → Option (List (List ℕ))
unfolding elements_from
for_each_elem list = elements_from (length list + 1) list 0

unfoldable pub for_each : List ℕ → Option (List (List ℕ))
unfolding for_each_elem value
for_each list = Option.map (map value) (for_each_elem list)

unfoldable pub element_count : List ℕ → Option ℕ
unfolding for_each_elem
element_count list = Option.map length (for_each_elem list)

-- The loop of `rev_for_each_elem` with `i + 1` for its index; both ends of the loop are at 1 or below.
unfoldable pub rev_elements_from : ℕ → List ℕ → ℕ → Option (List (List ℕ))
unfolding rev_seek element_header_size element_value_size header_size value_size
rev_elements_from zero list n = none
rev_elements_from (suc fuel) list n =
    let i = rev_seek list n in
    let foot = drop i list in
    let hs = element_header_size foot in
    let vs = element_value_size foot hs in
    let elem = take (hs + vs + hs) (drop (i - (hs + vs)) list) in
    let rest = rev_elements_from fuel list (i + 1 - (header_size elem + value_size elem + 1)) in
    if leb n 1 then some [] else Option.map (λ elems. elem ∷ elems) rest

unfoldable pub rev_for_each_elem : List ℕ → Option (List (List ℕ))
unfolding rev_elements_from
rev_for_each_elem list = rev_elements_from (length list + 1) list (length list)

unfoldable pub rev_for_each : List ℕ → Option (List (List ℕ))
unfolding rev_for_each_elem value
rev_for_each list = Option.map (map value) (rev_for_each_elem list)

unfoldable pub push_all : List ℕ → List (List ℕ) → List ℕ
unfolding push_back
push_all dst [] = dst
push_all dst (x ∷ xs) = push_all (push_back dst x) xs

-- `split_into`: the list, and the number of its elements.
unfoldable pub split_into : List ℕ → List ℕ → List ℕ → Option (List ℕ × ℕ)
unfolding for_each_delimited push_all
split_into dst str sep =
    Option.map (λ parts. (push_all dst parts, length parts))
      (for_each_delimited (λ a b. a == b) str sep)

unfoldable pub split : List ℕ → List ℕ → Option (List ℕ × ℕ)
unfolding split_into
split str sep = split_into [] str sep

-- `fill` on each of the elements.
unfoldable pub fill : List ℕ → Bool → List (List ℕ) → List ℕ
unfolding value
fill sep first [] = []
fill sep first (e ∷ elems) = (if first then [] else sep) ++ (value e ++ fill sep false elems)

unfoldable pub join : List ℕ → List ℕ → Bool → Option (List ℕ)
unfolding for_each_elem fill
join list sep trail_sep =
    Option.map (λ elems. fill sep true elems ++ (if trail_sep then sep else []))
      (for_each_elem list)
