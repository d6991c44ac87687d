-- ===== src/Container/Trie/Tests.antt =====
-- Runs of trie.cpp, and the theorems at concrete inputs.
use eagine_core.Common.{
  ℕ, true, false, List, [], ◌∷◌, none, some, ◌⊎◌, ◌≡◌, ◌≢◌, refl, arith, for_range,
}
use eagine_core.Container.Trie.{
  Node, value_node_count, internal_node_count, traverse_round, get_char_index, is_valid_key, start,
  insert, find, contains, remove,
}
use eagine_core.Container.Trie.CharIndex.{Charset}
use eagine_core.Container.Trie.Paths.{IsTrie, start-IsTrie}
use eagine_core.Container.Trie.Growth.{IsAscii}
use eagine_core.Container.Trie.Updates.{insert_lem, remove_lem}

-- "abc"
abbrev letters : List ℕ
letters = 97 ∷ 98 ∷ 99 ∷ []

letters-Charset : Charset letters
letters-Charset = record { sorted = ground arith; few = omega arith }

abbrev key_ab : List ℕ
key_ab = 97 ∷ 98 ∷ []

abbrev key_a : List ℕ
key_a = 97 ∷ []

-- The trie with "ab" for its key.
abbrev trie_ab : List (Node ℕ)
trie_ab =
    record { next = 1 ∷ 0 ∷ 0 ∷ 0 ∷ []; object = none }
    ∷ record { next = 0 ∷ 2 ∷ 0 ∷ 0 ∷ []; object = none }
    ∷ record { next = 0 ∷ 0 ∷ 0 ∷ 0 ∷ []; object = some 7 }
    ∷ []

insert_ab : insert {Value = ℕ} letters (start letters) key_ab 7 ≡ (trie_ab, true)
unfolding start insert get_char_index
insert_ab = refl

insert_bad : (insert {Value = ℕ} letters trie_ab (97 ∷ 97 ∷ 120 ∷ []) 7).1 ≡ false
unfolding insert get_char_index
insert_bad = refl

abbrev trie_a_ab : List (Node ℕ)
trie_a_ab =
    record { next = 1 ∷ 0 ∷ 0 ∷ 0 ∷ []; object = none }
    ∷ record { next = 0 ∷ 2 ∷ 0 ∷ 0 ∷ []; object = some 8 }
    ∷ record { next = 0 ∷ 0 ∷ 0 ∷ 0 ∷ []; object = some 7 }
    ∷ []

insert_a : insert letters trie_ab key_a 8 ≡ (trie_a_ab, true)
unfolding insert get_char_index
insert_a = refl

counts : (value_node_count letters trie_a_ab ≡ 2) × (internal_node_count letters trie_a_ab ≡ 1)
unfolding value_node_count internal_node_count
counts = (refl, refl)

-- The function is called for "a" before and after "ab".
traversed :
    for_range 5 0
      (λ _. traverse_round letters trie_a_ab)
      (record { idx = (0, 0) ∷ []; str = []; calls = [] })
    ≡ record { idx = []; str = []; calls = (key_a, 8) ∷ (98 ∷ 97 ∷ [], 7) ∷ (key_a, 8) ∷ [] }
unfolding for_range traverse_round
traversed = refl

trie_ab-IsTrie : IsTrie letters trie_ab
unfolding start insert get_char_index
trie_ab-IsTrie =
    (insert_lem letters letters-Charset (start letters) (start-IsTrie letters) key_ab 7
      (omega arith, (omega arith, tt)) (omega arith)).0

insert_lem_example :
    IsTrie letters (insert letters trie_ab key_a 8).0
    × ((insert letters trie_ab key_a 8).1 ≡ is_valid_key letters key_a)
    × (is_valid_key letters key_a ≡ true
        → find letters (insert letters trie_ab key_a 8).0 key_a ≡ some 8)
    × ((other : List ℕ)
        → (other ≢ key_a) ⊎ (is_valid_key letters key_a ≡ false)
        → find letters (insert letters trie_ab key_a 8).0 other ≡ find letters trie_ab other)
insert_lem_example =
    insert_lem letters letters-Charset trie_ab trie_ab-IsTrie key_a 8 (omega arith, tt)
      (omega arith)

remove_lem_example :
    IsTrie letters (remove letters trie_ab key_ab).0
    × ((remove letters trie_ab key_ab).1 ≡ contains letters trie_ab key_ab)
    × (find letters (remove letters trie_ab key_ab).0 key_ab ≡ none)
    × ((other : List ℕ)
        → IsAscii other
        → other ≢ key_ab
        → find letters (remove letters trie_ab key_ab).0 other ≡ find letters trie_ab other)
remove_lem_example =
    remove_lem letters letters-Charset trie_ab key_ab trie_ab-IsTrie
      (omega arith, (omega arith, tt))
