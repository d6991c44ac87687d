-- ===== src/Memory/BitDensity/Code.antt =====
-- Dissolving bytes into groups of bits and back, and the getters and putters of spans that feed
-- it (source/modules/eagine/memory/bit_density.cpp and span_algorithm.cpp). A getter is the list
-- of what its calls return, and gives nothing after its end; a putter is a function on its own
-- state, with none where it returns false. `word` is the width of `double_byte`.
use eagine_core.Common.{
  ℕ, zero, suc, ◌+◌, ◌-◌, ◌*◌, ◌/◌, ◌%◌, ◌^◌, Bool, false, Option, none, some, List, [], ◌∷◌, ◌++◌,
  length, ltb, leb, ◌==◌, if◌then◌else◌, ◌>>=◌,
}
use Prim.Native.Nat.{bit_or}

-- A byte is below this.
abbrev pub byte_mod : ℕ
byte_mod = 2 ^ 8

unfoldable pub byte_bits : ℕ
byte_bits = 8

unfoldable pub dissolved_bits_length : ℕ → ℕ → ℕ
dissolved_bits_length original_length bits =
    original_length * byte_bits / bits + (if original_length * byte_bits % bits == 0 then 0 else 1)

unfoldable pub concentrated_bits_length : ℕ → ℕ → ℕ
concentrated_bits_length original_length bits =
    original_length * bits / byte_bits + (if original_length * bits % byte_bits == 0 then 0 else 1)

-- What a getter of a span gives with a transformation, whose nothing ends the reading.
unfoldable pub make_span_getter {ℓ} : {A : Type ℓ} → (A → Option ℕ) → List A → List ℕ
make_span_getter transform [] = []
make_span_getter transform (x ∷ spn) = elim (transform x) [
  | none ↦ []
  | some v ↦ v ∷ make_span_getter transform spn
]

-- The putter of a span of a given size: its state is what it has written.
unfoldable pub make_span_putter {ℓ} :
    {T : Type ℓ} → (ℕ → Option T) → ℕ → List T → ℕ → Option (List T)
make_span_putter transform size spn value =
    if ltb (length spn) size then (transform value >>= λ t. some (spn ++ (t ∷ []))) else none

-- The width after the next byte.
abbrev pub shift_in : ℕ → ℕ → ℕ → ℕ
shift_in word w x = bit_or (w * 2 ^ byte_bits % 2 ^ word) x

module _ (word bits : ℕ) where
  -- The width after the next group: `w & ~m` clears its place.
  abbrev pub shift_group : ℕ → ℕ → ℕ
  shift_group w x =
      let shifted = w * 2 ^ bits % 2 ^ word in bit_or (shifted - shifted % 2 ^ bits) (x % 2 ^ bits)

  -- The inner loop that gets groups for a byte: whether it is done, what is left to get, and the
  -- pending bits.
  unfoldable pub fill : List ℕ → ℕ → ℕ → Bool × List ℕ × ℕ × ℕ
  fill [] r w = (ltb r byte_bits, [], r, w)
  fill (x ∷ src) r w =
      let rest = fill src (r + bits) (shift_group w x) in
      if ltb r byte_bits then rest else (false, x ∷ src, r, w)

module _ {ℓ} {S : Type ℓ} (put : S → ℕ → Option S) (bits : ℕ) where
  -- The inner loop that puts the whole groups; `n` is fuel, for which the width serves.
  unfoldable pub push : ℕ → ℕ → ℕ → S → Option (ℕ × S)
  push zero r w s = some (r, s)
  push (suc n) r w s =
      if leb bits r
      then (put s (w / 2 ^ (r - bits) % byte_mod % 2 ^ bits) >>= λ s'. push n (r - bits) w s')
      else some (r, s)

  unfoldable pub dissolve_rest : ℕ → ℕ → S → Option S
  dissolve_rest r w s = if ltb 0 r then put s (w * 2 ^ (bits - r) % byte_mod % 2 ^ bits) else some s

module _ {ℓ} {S : Type ℓ} (word : ℕ) (put : S → ℕ → Option S) (bits : ℕ) where
  unfoldable pub dissolve_loop : ℕ → List ℕ → ℕ → ℕ → S → Option S
  dissolve_loop zero src r w s = none
  dissolve_loop (suc n) [] r w s =
      if ltb r bits
      then dissolve_rest put bits r w s
      else (push put bits r r w s >>= λ (r', s'). dissolve_loop n [] r' w s')
  dissolve_loop (suc n) (x ∷ src) r w s =
      if ltb r bits
      then (push put bits (r + byte_bits) (r + byte_bits) (shift_in word w x) s >>= λ (r', s').
          dissolve_loop n src r' (shift_in word w x) s')
      else (push put bits r r w s >>= λ (r', s'). dissolve_loop n (x ∷ src) r' w s')

  -- With a unit of fuel for each byte and one for the end.
  unfoldable pub do_dissolve_bits : List ℕ → S → Option S
  do_dissolve_bits src s = dissolve_loop (suc (length src)) src 0 0 s

  unfoldable pub concentrate_loop : ℕ → List ℕ → ℕ → ℕ → S → Option S
  concentrate_loop zero src r w s = none
  concentrate_loop (suc n) src r w s =
      let (done, src', r', w') = fill word bits src r w in
      (if leb byte_bits r'
        then (put s (w' / 2 ^ (r' - byte_bits) % byte_mod) >>= λ s'. some (r' - byte_bits, s'))
        else some (r', s))
      >>= λ (r'', s'). if done then some s' else concentrate_loop n src' r'' w' s'

  -- With a unit of fuel for each group and one for the end.
  unfoldable pub do_concentrate_bits : List ℕ → S → Option S
  do_concentrate_bits src s = concentrate_loop (suc (length src)) src 0 0 s
