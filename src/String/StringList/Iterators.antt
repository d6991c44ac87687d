-- ===== src/String/StringList/Iterators.antt =====
-- list.cpp: `iterator` and `rev_iterator`. A position is the index of its byte in the string; that of a
-- `rev_iterator`, whose end is before the first byte, is kept as the number one above it.
use mathlib.Core.Option
use eagine_core.Common.{
  ℕ, zero, suc, ◌+◌, ◌-◌, Option, none, some, List, [], ◌∷◌, ◌==◌, if◌then◌else◌, length, get_or,
  take, drop,
}
use eagine_core.String.MultiByte.Masks.{do_decode_sequence_length}
use eagine_core.String.StringList.{element_value_size, rev_seek}

-- `_len_len` and `_val_len`
unfoldable pub len_len : List ℕ → ℕ → ℕ
unfolding do_decode_sequence_length
len_len list at = do_decode_sequence_length (get_or list at 0)

unfoldable pub val_len : List ℕ → ℕ → ℕ → ℕ
unfolding element_value_size
val_len list at ll = element_value_size (take ll (drop at list)) ll

-- `operator*` and `operator++`
unfoldable pub iterator_value : List ℕ → ℕ → List ℕ
unfolding len_len val_len
iterator_value list at = let ll = len_len list at in take (val_len list at ll) (drop (at + ll) list)

unfoldable pub iterator_next : List ℕ → ℕ → ℕ
unfolding len_len val_len
iterator_next list at = let ll = len_len list at in at + (ll + val_len list at ll + ll)

-- A loop from an iterator to the end, on fuel.
unfoldable pub iterate : ℕ → List ℕ → ℕ → Option (List (List ℕ))
unfolding iterator_value iterator_next
iterate zero list at = none
iterate (suc fuel) list at =
    let rest = iterate fuel list (iterator_next list at) in
    if at == length list
    then some []
    else Option.map (λ values. iterator_value list at ∷ values) rest

-- The same of a `rev_iterator`, which looks for the head byte first.
unfoldable pub rev_iterator_value : List ℕ → ℕ → List ℕ
unfolding rev_seek len_len val_len
rev_iterator_value list n =
    let at = rev_seek list n in
    let vl = val_len list at (len_len list at) in take vl (drop (at - vl) list)

unfoldable pub rev_iterator_next : List ℕ → ℕ → ℕ
unfolding rev_seek len_len val_len
rev_iterator_next list n =
    let at = rev_seek list n in let ll = len_len list at in at + 1 - (ll + val_len list at ll + 1)

unfoldable pub rev_iterate : ℕ → List ℕ → ℕ → Option (List (List ℕ))
unfolding rev_iterator_value rev_iterator_next
rev_iterate zero list n = none
rev_iterate (suc fuel) list n =
    let rest = rev_iterate fuel list (rev_iterator_next list n) in
    if n == 0 then some [] else Option.map (λ values. rev_iterator_value list n ∷ values) rest
