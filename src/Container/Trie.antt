-- ===== src/Container/Trie.antt =====
-- source/modules/eagine/container/trie.cpp: `basic_trie_utils` and `basic_trie_impl`. `chars` are the
-- characters of the literal without its terminating zero, so that N is one more than their number. A
-- character is a number below 128; from there on the source reads behind the end of `_char_map`.
pub mod CharIndex
pub mod View
pub mod Paths
pub mod Growth
pub mod Map
pub mod Updates
mod Tests
use eagine_core.Common.{
  ℕ, zero, suc, ◌+◌, ◌-◌, ◌/◌, ◌%◌, Bool, true, false, ◌&&◌, List, [], ◌∷◌, ◌++◌, Option, none,
  some, ltb, ◌==◌, if◌then◌else◌, tabulate, length, get_or, set, drop, replicate,
}

abbrev pub invalid_char_index : ℕ
invalid_char_index = 255

unfoldable pub pivot : ℕ → ℕ
pivot zero = 0
pivot (suc zero) = 0
pivot (suc (suc n)) = (n + 2) / 2

-- `_do_find_char_index`, in `len` characters from `ofs` on; the fuel stands for the nesting of the
-- template's instances, at most one for each character.
unfoldable pub do_find_char_index : ℕ → List ℕ → ℕ → ℕ → ℕ → ℕ
unfolding pivot
do_find_char_index zero chars c ofs len = invalid_char_index
do_find_char_index (suc fuel) chars c ofs len =
    let piv = pivot len in
    let at = get_or chars (ofs + piv) 0 in
    let left = do_find_char_index fuel chars c ofs piv in
    let right = do_find_char_index fuel chars c (ofs + piv + 1) (len - piv - 1) in
    if piv == len
    then invalid_char_index
    else if len == 1
    then (if c == get_or chars ofs 0 then ofs % 256 else invalid_char_index)
    else if ltb c at
    then (if ltb 0 piv then left else invalid_char_index)
    else if ltb at c
    then (if ltb (piv + 1) len then right else invalid_char_index)
    else (ofs + piv) % 256

unfoldable pub find_char_index : List ℕ → ℕ → ℕ
unfolding do_find_char_index
find_char_index chars c = do_find_char_index (length chars) chars c 0 (length chars)

unfoldable pub char_map : List ℕ → List ℕ
unfolding tabulate find_char_index
char_map chars = tabulate 128 0 (find_char_index chars)

unfoldable pub get_char_index : List ℕ → ℕ → Option ℕ
unfolding char_map
get_char_index chars c =
    let idx = get_or (char_map chars) c invalid_char_index in
    if idx == invalid_char_index then none else some idx

unfoldable pub is_valid_char : List ℕ → ℕ → Bool
unfolding find_char_index
is_valid_char chars c = if find_char_index chars c == invalid_char_index then false else true

unfoldable pub is_valid_key : List ℕ → List ℕ → Bool
unfolding is_valid_char
is_valid_key chars [] = true
is_valid_key chars (c ∷ key) = is_valid_char chars c && is_valid_key chars key

pub record Node {ℓ} (Value : Type ℓ) : Type ℓ where
  pub next : List ℕ
  pub object : Option Value

unfoldable pub has_value {ℓ} : {Value : Type ℓ} → Option Value → Bool
has_value none = false
has_value (some v) = true

-- `limit_cast<std::uint32_t>`
unfoldable pub limit_cast : ℕ → ℕ
limit_cast n = n % 4294967296

pub record Traversal {ℓ} (Value : Type ℓ) : Type ℓ where
  pub idx : List (ℕ × ℕ)
  pub str : List ℕ
  pub calls : List (List ℕ × Value)

-- `++idx.back()[0]`
unfoldable pub bump : List (ℕ × ℕ) → List (ℕ × ℕ)
bump [] = []
bump ((cidx, nidx) ∷ idx) = (cidx + 1, nidx) ∷ idx

unfoldable pub pop : List ℕ → List ℕ
pop [] = []
pop (c ∷ str) = str

module _ {ℓ} {Value : Type ℓ} (chars : List ℕ) where
  unfoldable pub empty_node : Node Value
  empty_node = record { next = replicate (length chars + 1) 0; object = none }

  unfoldable pub start : List (Node Value)
  unfolding empty_node
  start = empty_node ∷ []

  -- `_nodes[i]`
  unfoldable pub node_at : List (Node Value) → ℕ → Node Value
  unfolding empty_node
  node_at nodes i = get_or nodes i empty_node

  unfoldable pub next_at : List (Node Value) → ℕ → ℕ → ℕ
  unfolding node_at
  next_at nodes i cidx = get_or (node_at nodes i).next cidx 0

  unfoldable pub object_at : List (Node Value) → ℕ → Option Value
  unfolding node_at
  object_at nodes i = (node_at nodes i).object

  -- `_find_insert_pos` from a node and an offset on, with what is left of the key.
  unfoldable pub insert_pos_from : List (Node Value) → List ℕ → ℕ → ℕ → ℕ × ℕ × Bool
  unfolding next_at
  insert_pos_from nodes [] iidx offs = (iidx, offs, true)
  insert_pos_from nodes (c ∷ key) iidx offs = elim (get_char_index chars c) [
    | none ↦ (iidx, offs, false)
    | some cidx ↦
        let next = next_at nodes iidx cidx in
        let rest = insert_pos_from nodes key next (offs + 1) in
        if next == 0 then (iidx, offs, true) else rest
  ]

  unfoldable pub find_insert_pos : List (Node Value) → List ℕ → ℕ × ℕ × Bool
  unfolding insert_pos_from
  find_insert_pos nodes key = insert_pos_from nodes key 0 0

  unfoldable pub set_next : List (Node Value) → ℕ → ℕ → ℕ → List (Node Value)
  unfolding node_at
  set_next nodes i cidx v =
      let node = node_at nodes i in set nodes i (record node { next = set node.next cidx v })

  unfoldable pub set_object : List (Node Value) → ℕ → Option Value → List (Node Value)
  unfolding node_at
  set_object nodes i v = let node = node_at nodes i in set nodes i (record node { object = v })

  -- A round of the loop in `insert`: `_get_next_idx` and the write of the index.
  unfoldable pub attach : List (Node Value) → ℕ → ℕ → List (Node Value)
  unfolding set_next limit_cast empty_node
  attach nodes iidx cidx =
      set_next (nodes ++ (empty_node ∷ [])) iidx cidx (limit_cast (length nodes))

  -- The loop in `insert`: the nodes, the last one's index, and whether the whole key is done.
  unfoldable pub extend : List (Node Value) → List ℕ → ℕ → List (Node Value) × ℕ × Bool
  unfolding attach
  extend nodes [] iidx = (nodes, iidx, true)
  extend nodes (c ∷ key) iidx = elim (get_char_index chars c) [
    | none ↦ (nodes, iidx, false)
    | some cidx ↦ extend (attach nodes iidx cidx) key (length nodes)
  ]

  unfoldable pub insert : List (Node Value) → List ℕ → Value → List (Node Value) × Bool
  unfolding find_insert_pos extend set_object
  insert nodes key value =
      let pos = find_insert_pos nodes key in
      let grown = extend nodes (drop pos.1 key) pos.0 in
      if pos.2
      then (if grown.2 then (set_object grown.0 grown.1 (some value), true) else (grown.0, false))
      else (nodes, false)

  unfoldable pub add : List (Node Value) → List ℕ → Value → List (Node Value)
  unfolding insert
  add nodes key value = (insert nodes key value).0

  unfoldable pub find : List (Node Value) → List ℕ → Option Value
  unfolding find_insert_pos object_at
  find nodes key =
      let pos = find_insert_pos nodes key in
      if pos.2 && (pos.1 == length key) then object_at nodes pos.0 else none

  unfoldable pub contains : List (Node Value) → List ℕ → Bool
  unfolding find_insert_pos object_at has_value
  contains nodes key =
      let pos = find_insert_pos nodes key in
      if pos.2 && (pos.1 == length key) then has_value (object_at nodes pos.0) else false

  unfoldable pub remove : List (Node Value) → List ℕ → List (Node Value) × Bool
  unfolding find_insert_pos object_at has_value set_object
  remove nodes key =
      let pos = find_insert_pos nodes key in
      if pos.2 && (pos.1 == length key)
      then (if has_value (object_at nodes pos.0)
          then (set_object nodes pos.0 none, true)
          else (nodes, false))
      else (nodes, false)

  unfoldable pub value_node_count : List (Node Value) → ℕ
  unfolding has_value
  value_node_count [] = 0
  value_node_count (n ∷ nodes) = (if has_value n.object then 1 else 0) + value_node_count nodes

  unfoldable pub internal_node_count : List (Node Value) → ℕ
  unfolding has_value
  internal_node_count [] = 0
  internal_node_count (n ∷ nodes) =
      (if has_value n.object then 0 else 1) + internal_node_count nodes

  -- The loop that skips the characters that lead nowhere, with at most `rounds` of them left.
  unfoldable pub next_used : List (Node Value) → ℕ → ℕ → ℕ → ℕ
  unfolding next_at
  next_used nodes zero nidx cidx = cidx
  next_used nodes (suc rounds) nidx cidx =
      let rest = next_used nodes rounds nidx (cidx + 1) in
      if next_at nodes nidx cidx == 0 then rest else cidx

  -- A round of `_do_traverse`: `idx` and `str` with their last element first, and the calls of the
  -- function so far. Nothing is left of an empty string that is popped.
  unfoldable pub traverse_round : List (Node Value) → Traversal Value → Traversal Value
  unfolding next_used object_at next_at bump pop
  traverse_round nodes t = elim t.idx [
    | [] ↦ t
    | (cidx, nidx) ∷ idx ↦
        let k = next_used nodes (length chars + 1 - cidx) nidx cidx in
        let calls : List (List ℕ × Value) = elim (object_at nodes nidx) [
          | none ↦ t.calls
          | some v ↦ t.calls ++ ((t.str, v) ∷ [])
        ] in
        if k == length chars + 1
        then record { idx = bump idx; str = pop t.str; calls = calls }
        else record {
          idx = (0, next_at nodes nidx k) ∷ (k, nidx) ∷ idx;
          str = get_or chars k 0 ∷ t.str;
          calls = calls;
        }
  ]
