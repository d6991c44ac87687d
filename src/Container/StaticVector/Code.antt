-- ===== src/Container/StaticVector/Code.antt =====
-- static_vector.cpp: an array of `N` elements, of which the first ones are in use. An iterator is
-- an index, and none is where an assertion fails. `filler` is a value-initialized element.
use eagine_core.Common.{
  ℕ, ◌+◌, ◌-◌, Bool, not, ◌&&◌, Option, none, some, List, [], ◌∷◌, ◌++◌, length, take, drop,
  replicate, get_elem?, ◌≤◌, leb, ltb, ◌==◌, if◌then◌else◌,
}

pub record StaticVector {ℓ} (T : Type ℓ) : Type ℓ where
  pub elems : List T
  pub used : ℕ

module _ {ℓ} {T : Type ℓ} where
  -- The elements of an array in a range, and an array with a range written to it.
  abbrev pub range_of : ℕ → ℕ → List T → List T
  range_of first last elems = take (last - first) (drop first elems)

  abbrev pub write_at : List T → ℕ → List T → List T
  write_at elems i xs = take i elems ++ (xs ++ drop (i + length xs) elems)

  unfoldable pub max_size : StaticVector T → ℕ
  max_size v = length v.elems

  unfoldable pub available : StaticVector T → ℕ
  available v = length v.elems - v.used

  unfoldable pub full : StaticVector T → Bool
  full v = v.used == length v.elems

  unfoldable pub push_back : T → StaticVector T → Option (StaticVector T)
  push_back value v =
      if full v
      then none
      else some (record { elems = write_at v.elems v.used (value ∷ []); used = v.used + 1 })

  unfoldable pub pop_back : T → StaticVector T → Option (StaticVector T)
  pop_back filler v =
      if v.used == 0
      then none
      else some (record { elems = write_at v.elems (v.used - 1) (filler ∷ []); used = v.used - 1 })

  unfoldable pub resize : T → ℕ → StaticVector T → Option (StaticVector T)
  resize filler n v =
      if leb n (length v.elems)
      then some (record {
        elems =
            if ltb n v.used then write_at v.elems n (replicate (v.used - n) filler) else v.elems;
        used = n;
      })
      else none

  unfoldable pub clear : T → StaticVector T → StaticVector T
  clear filler v = record { elems = write_at v.elems 0 (replicate v.used filler); used = 0 }

  -- The elements from the position on are moved back, and the new ones take their place.
  unfoldable pub insert_range : ℕ → List T → StaticVector T → Option (StaticVector T)
  insert_range pos xs v =
      if leb (v.used + length xs) (length v.elems)
      then (let moved = write_at v.elems (pos + length xs) (range_of pos v.used v.elems) in
          some (record { elems = write_at moved pos xs; used = v.used + length xs }))
      else none

  unfoldable pub insert_value : ℕ → T → StaticVector T → Option (StaticVector T)
  insert_value pos value v =
      if not (full v) && leb pos v.used
      then (let moved = write_at v.elems (pos + 1) (range_of pos v.used v.elems) in
          some (record { elems = write_at moved pos (value ∷ []); used = v.used + 1 }))
      else none

  -- The range is overwritten, and then the elements behind it are moved to its place.
  unfoldable pub erase_between : T → ℕ → ℕ → StaticVector T → Option (StaticVector T)
  erase_between filler first last v =
      if leb first v.used && leb last v.used
      then (let cleared = write_at v.elems first (replicate (last - first) filler) in
          let moved = write_at cleared first (range_of last v.used cleared) in
          some (record { elems = moved; used = v.used - (last - first) }))
      else none

  -- At the end, which the assertion lets pass, the code leaves the elements in use: none.
  unfoldable pub erase_at : T → ℕ → StaticVector T → Option (StaticVector T)
  erase_at filler pos v = if ltb pos v.used then erase_between filler pos (pos + 1) v else none

  unfoldable pub element_at : StaticVector T → ℕ → Option T
  element_at v i = if ltb i v.used then get_elem? v.elems i else none

  -- What a client sees.
  abbrev pub contents : StaticVector T → List T
  contents v = take v.used v.elems

  unfoldable pub InCapacity : StaticVector T → Type 0
  InCapacity v = v.used ≤ length v.elems
