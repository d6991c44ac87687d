-- ===== src/Memory/BitDensity/Streams.antt =====
-- bit_density.cpp against streams of bits: dissolving and concentrating regroup the bits.
use eagine_core.Common.{
  ℕ, zero, suc, ◌+◌, ◌-◌, ◌*◌, ◌/◌, ◌%◌, ◌^◌, ◌≤◌, ◌<◌, ◌≡◌, refl, sym, ap, ap₂, ◌∙◌, Bool, true,
  false, Option, List, [], ◌∷◌, ◌++◌, arith, length, leb, lt→ltb, replicate, ◌>>=◌, >>=-assoc,
  >>=-cong, >>=-some,
}
use native.Mathlib.Nat.{mod-lt}
use mathlib.Core.List.{append_assoc, append-nil}
use eagine_core.Common.BitStream.{
  bits_of, stream, stream-append, two_pow_pos, length-bits_of, bits_of-append, bits_of-mod,
  bits_of-fields, bits_of-zero,
}
use eagine_core.Memory.BitDensity.Code.{
  byte_bits, byte_mod, dissolve_rest, dissolve_loop, do_dissolve_bits, shift_in, fill,
  concentrate_loop, do_concentrate_bits,
}
use eagine_core.Memory.BitDensity.Chunks.{
  AllBelow, AllBelow-append, put_all, put_all-append, push_lem, bits_of-shift_in, Filled, fill_lem,
}

-- The groups that stand for a stream of bits, the last of them filled up with zeros.
abbrev pub IsDissolved : ℕ → List Bool → List ℕ → Type 0
IsDissolved bits bs gs =
    (pad : ℕ) × (pad < bits) × AllBelow (2 ^ bits) gs × (stream bits gs ≡ bs ++ replicate pad false)

-- The whole bytes of a stream of bits, which ends with less than one.
abbrev pub IsConcentrated : List Bool → List ℕ → Type 0
IsConcentrated bs bytes =
    (rest : List Bool) × (length rest < 8) × AllBelow (2 ^ 8) bytes × (stream 8 bytes ++ rest ≡ bs)

last_group :
    (bits r w : ℕ)
    → bits ≤ 8
    → r < bits
    → bits_of bits (w * 2 ^ (bits - r) % byte_mod % 2 ^ bits)
      ≡ bits_of r w ++ replicate (bits - r) false
last_group bits r w h8 h =
    let v = w * 2 ^ (bits - r) in
    let width : r + (bits - r) ≡ bits = omega arith in
    let none_below : v + 0 ≡ v = omega arith in
    bits_of-mod bits bits (v % byte_mod) (omega arith)
    ∙ bits_of-mod bits 8 v h8
    ∙ ap₂ (λ n m. bits_of n m) (sym width) (sym none_below)
    ∙ bits_of-fields r (bits - r) w 0 (two_pow_pos (bits - r))
    ∙ ap (λ l. bits_of r w ++ l) (bits_of-zero (bits - r))

regroup {ℓ} :
    {A : Type ℓ} (gs held pending byte more pad : List A)
    → gs ++ held ≡ pending ++ byte
    → gs ++ ((held ++ more) ++ pad) ≡ (pending ++ (byte ++ more)) ++ pad
regroup gs held pending byte more pad e =
    let left : gs ++ ((held ++ more) ++ pad) ≡ ((gs ++ held) ++ more) ++ pad =
      simp append_assoc refl in
    let right : ((pending ++ byte) ++ more) ++ pad ≡ (pending ++ (byte ++ more)) ++ pad =
      simp append_assoc refl in
    left ∙ ap (λ l. (l ++ more) ++ pad) e ∙ right

module _ {ℓ} {S : Type ℓ} (word : ℕ) (put : S → ℕ → Option S) (bits : ℕ) (hw : 16 ≤ word)
    (hb : 0 < bits) (h8 : bits ≤ 8) where
  dissolve_rest_lem :
      (r w : ℕ)
      → r < bits
      → (gs : List ℕ) × IsDissolved bits (bits_of r w) gs
        × ((s : S) → dissolve_rest put bits r w s ≡ put_all put gs s)
  unfolding dissolve_rest put_all stream bits_of
  dissolve_rest_lem zero w h = ([], (0, hb, tt, refl), λ s. refl)
  dissolve_rest_lem (suc r) w h =
      let v = w * 2 ^ (bits - suc r) % byte_mod % 2 ^ bits in
      (
        v ∷ [],
        (
          bits - suc r,
          omega arith,
          (mod-lt _ (two_pow_pos bits), tt),
          append-nil (bits_of bits v) ∙ last_group bits (suc r) w h8 h,
        ),
        λ s. rw (lt→ltb 0 (suc r) (omega arith)) (sym (>>=-some (put s v))),
      )

  dissolve_loop_lem :
      (n : ℕ) (src : List ℕ) (r w : ℕ)
      → length src < n
      → r < bits
      → AllBelow (2 ^ 8) src
      → (gs : List ℕ) × IsDissolved bits (bits_of r w ++ stream 8 src) gs
        × ((s : S) → dissolve_loop word put bits n src r w s ≡ put_all put gs s)
  unfolding dissolve_loop stream byte_bits
  dissolve_loop_lem zero src r w hn h hs = absurd (omega arith)
  dissolve_loop_lem (suc n) [] r w hn h hs =
      let (gs, (pad, less, below, same), runs) = dissolve_rest_lem r w h in
      (
        gs,
        (
          pad,
          less,
          below,
          same ∙ ap (λ l. l ++ replicate pad false) (sym (append-nil (bits_of r w))),
        ),
        λ s. rw (lt→ltb r bits h) (runs s),
      )
  dissolve_loop_lem (suc n) (x ∷ src) r w hn h (hx, hs) =
      let w' = shift_in word w x in
      let (gs, r', less, below, bits_same, pushes) =
        push_lem put bits (r + 8) (r + 8) w' hb h8 (omega arith) in
      let (hs', (pad, pad_less, below', same), runs) =
        dissolve_loop_lem n src r' w' (omega arith) less hs in
      (
        gs ++ hs',
        (
          pad,
          pad_less,
          AllBelow-append _ gs hs' below below',
          stream-append bits gs hs'
              ∙ ap (λ l. stream bits gs ++ l) same
              ∙ regroup (stream bits gs) (bits_of r' w') (bits_of r w) (bits_of 8 x) (stream 8 src)
                  (replicate pad false) (bits_same ∙ bits_of-shift_in word r w x (omega arith) hx),
        ),
        λ s. rw (lt→ltb r bits h) (
            ap (λ m. m >>= λ (r', s'). dissolve_loop word put bits n src r' w' s') (pushes s)
            ∙ >>=-assoc (put_all put gs s) _ _
            ∙ >>=-cong (put_all put gs s) _ _ runs
            ∙ sym (put_all-append put gs hs' s)),
      )

  -- When double_byte has at least 16 bits, for 1 to 8 bits, bytes and every putter, do_dissolve_bits
  -- is the calls of the putter, until one fails, on groups of that many bits whose bits, one after
  -- the other, are those of the bytes and fewer zeros behind them than a group has.
  pub do_dissolve_bits-IsDissolved :
      (src : List ℕ)
      → AllBelow (2 ^ 8) src
      → (gs : List ℕ) × IsDissolved bits (stream 8 src) gs
        × ((s : S) → do_dissolve_bits word put bits src s ≡ put_all put gs s)
  unfolding do_dissolve_bits bits_of
  do_dissolve_bits-IsDissolved src h =
      dissolve_loop_lem (suc (length src)) src 0 0 (omega arith) hb h

  abbrev Concentrates : ℕ → List ℕ → ℕ → ℕ → Type ℓ
  Concentrates n src r w =
      (bytes : List ℕ) × IsConcentrated (bits_of r w ++ stream bits src) bytes
      × ((s : S) → concentrate_loop word put bits n src r w s ≡ put_all put bytes s)

  concentrate_step :
      (n : ℕ) (src : List ℕ) (r w : ℕ) (out : Bool × List ℕ × ℕ × ℕ)
      → r < 8
      → length src < suc n
      → ((src' : List ℕ) (r' w' : ℕ) → length src' < n → r' < 8 → Concentrates n src' r' w')
      → fill word bits src r w ≡ out
      → Filled bits src r w out
      → Concentrates (suc n) src r w
  unfolding concentrate_loop stream byte_bits put_all
  concentrate_step n src r w (true, src', r', w') h hn again e (less, same) =
      let over : leb 8 r' ≡ false = ground arith in
      let short : length (bits_of r' w') < 8 = rw (length-bits_of r' w') less in
      ([], (bits_of r' w', short, tt, same), λ s. rw (e, over) refl)
  concentrate_step n src r w (false, src', r', w') h hn again e (le, lt, shorter, fewer, same) =
      let byte_there : leb 8 r' ≡ true = ground arith in
      let v = w' / 2 ^ (r' - 8) % byte_mod in
      let (bytes, (rest, short, below, same'), runs) =
        again src' (r' - 8) w' (omega (arith, fewer h)) (omega arith) in
      let width : 8 + (r' - 8) ≡ r' = omega arith in
      let byte_out : bits_of 8 v ++ bits_of (r' - 8) w' ≡ bits_of r' w' =
        ap (λ l. l ++ bits_of (r' - 8) w') (bits_of-mod 8 8 (w' / 2 ^ (r' - 8)) (omega arith))
        ∙ sym (bits_of-append 8 (r' - 8) w')
        ∙ ap (λ n. bits_of n w') width in
      (
        v ∷ bytes,
        (
          rest,
          short,
          (mod-lt _ (two_pow_pos 8), below),
          append_assoc (bits_of 8 v) (stream 8 bytes) rest
              ∙ ap (λ l. bits_of 8 v ++ l) same'
              ∙ sym (append_assoc (bits_of 8 v) (bits_of (r' - 8) w') (stream bits src'))
              ∙ ap (λ l. l ++ stream bits src') byte_out
              ∙ same,
        ),
        λ s. rw (e, byte_there) (>>=-assoc (put s v) _ _ ∙ >>=-cong (put s v) _ _ runs),
      )

  concentrate_loop_lem :
      (n : ℕ) (src : List ℕ) (r w : ℕ) → length src < n → r < 8 → Concentrates n src r w
  concentrate_loop_lem zero src r w hn h = absurd (omega arith)
  concentrate_loop_lem (suc n) src r w hn h =
      concentrate_step n src r w (fill word bits src r w) h hn (concentrate_loop_lem n) refl
        (fill_lem word bits src r w hw h8 (omega arith))

  -- When double_byte has at least 16 bits, for 1 to 8 bits and every putter, do_concentrate_bits is
  -- the calls of the putter, until one fails, on bytes whose bits, one after the other and with
  -- fewer than eight more behind them, are the lowest bits of what is read.
  pub do_concentrate_bits-IsConcentrated :
      (src : List ℕ)
      → (bytes : List ℕ) × IsConcentrated (stream bits src) bytes
        × ((s : S) → do_concentrate_bits word put bits src s ≡ put_all put bytes s)
  unfolding do_concentrate_bits bits_of
  do_concentrate_bits-IsConcentrated src =
      concentrate_loop_lem (suc (length src)) src 0 0 (omega arith) (omega arith)
