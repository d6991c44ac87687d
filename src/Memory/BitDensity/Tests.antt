-- ===== src/Memory/BitDensity/Tests.antt =====
-- Runs of bit_density.cpp.
use eagine_core.Common.{ℕ, ◌≡◌, refl, ◌^◌, Option, none, some, List, [], ◌∷◌, arith, ◌>>=◌}
use eagine_core.Common.BitStream.{stream}
use eagine_core.Memory.BitDensity.Code.{
  byte_bits, dissolved_bits_length, make_span_putter, push, dissolve_rest, dissolve_loop,
  do_dissolve_bits, do_concentrate_bits,
}
use eagine_core.Memory.BitDensity.Chunks.{AllBelow, put_all}
use eagine_core.Memory.BitDensity.Streams.{
  IsDissolved, IsConcentrated, do_dissolve_bits-IsDissolved, do_concentrate_bits-IsConcentrated,
}
use eagine_core.Memory.BitDensity.RoundTrip.{do_concentrate_bits-do_dissolve_bits}

abbrev two_bytes : List ℕ
two_bytes = 0xab ∷ 0x1f ∷ []

abbrev room_for : ℕ → List ℕ → ℕ → Option (List ℕ)
room_for size = make_span_putter (λ v. some v) size

two_bytes_below : AllBelow (2 ^ 8) two_bytes
two_bytes_below = (omega arith, (omega arith, tt))

dissolved : do_dissolve_bits 16 (room_for 4) 5 two_bytes [] ≡ some (21 ∷ 12 ∷ 15 ∷ 16 ∷ [])
unfolding do_dissolve_bits dissolve_loop dissolve_rest push make_span_putter byte_bits
dissolved = refl

no_room : do_dissolve_bits 16 (room_for 3) 5 two_bytes [] ≡ none
unfolding do_dissolve_bits dissolve_loop dissolve_rest push make_span_putter byte_bits
no_room = refl

do_dissolve_bits-IsDissolved_example :
    (gs : List ℕ) × IsDissolved 5 (stream 8 two_bytes) gs
    × ((s : List ℕ) → do_dissolve_bits 16 (room_for 4) 5 two_bytes s ≡ put_all (room_for 4) gs s)
do_dissolve_bits-IsDissolved_example =
    do_dissolve_bits-IsDissolved 16 (room_for 4) 5 (omega arith) (omega arith) (omega arith)
      two_bytes two_bytes_below

do_concentrate_bits-IsConcentrated_example :
    (bytes : List ℕ) × IsConcentrated (stream 5 two_bytes) bytes
    × ((s : List ℕ)
        → do_concentrate_bits 16 (room_for 4) 5 two_bytes s ≡ put_all (room_for 4) bytes s)
do_concentrate_bits-IsConcentrated_example =
    do_concentrate_bits-IsConcentrated 16 (room_for 4) 5 (omega arith) (omega arith) (omega arith)
      two_bytes

do_concentrate_bits-do_dissolve_bits_example :
    (do_dissolve_bits 16 (room_for 4) 5 two_bytes [] >>= λ gs.
    do_concentrate_bits 16 (room_for 2) 5 gs [])
    ≡ some two_bytes
unfolding dissolved_bits_length byte_bits
do_concentrate_bits-do_dissolve_bits_example =
    do_concentrate_bits-do_dissolve_bits 16 5 (omega arith) (omega arith) (omega arith) two_bytes
      two_bytes_below 4 2 (omega arith) (omega arith)
