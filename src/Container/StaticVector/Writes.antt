-- ===== src/Container/StaticVector/Writes.antt =====
-- Writes to the array of a static_vector, read back in parts.
use eagine_core.Common.{
  ℕ, zero, suc, ◌+◌, ◌-◌, ◌≤◌, List, [], ◌∷◌, ◌++◌, length, take, drop, arith, ◌≡◌, refl, sym, ◌∙◌,
  ap, length-take, length-drop, length-append, drop-add, take-length,
}
use eagine_core.Container.StaticVector.Code.{write_at, range_of}

module _ {ℓ} {T : Type ℓ} where
  pub append_assoc : (xs ys zs : List T) → (xs ++ ys) ++ zs ≡ xs ++ (ys ++ zs)
  append_assoc [] ys zs = refl
  append_assoc (x ∷ xs) ys zs = ap (λ l. x ∷ l) (append_assoc xs ys zs)

  take-append_front : (n : ℕ) (xs ys : List T) → n ≤ length xs → take n (xs ++ ys) ≡ take n xs
  take-append_front zero xs ys h = refl
  take-append_front (suc n) [] ys h = absurd (omega arith)
  take-append_front (suc n) (x ∷ xs) ys h =
      ap (λ l. x ∷ l) (take-append_front n xs ys (omega arith))

  pub take-append : (n : ℕ) (xs ys : List T) → length xs ≡ n → take n (xs ++ ys) ≡ xs
  take-append n xs ys h = take-append_front n xs ys (omega arith) ∙ take-length n xs (omega arith)

  drop-append_back : (n : ℕ) (xs ys : List T) → drop (length xs + n) (xs ++ ys) ≡ drop n ys
  drop-append_back n [] ys = ap (λ m. drop m ys) (omega arith)
  drop-append_back n (x ∷ xs) ys =
      let e : length (x ∷ xs) + n ≡ suc (length xs + n) = omega arith in
      rw e (drop-append_back n xs ys)

  pub drop-append : (n : ℕ) (xs ys : List T) → length xs ≡ n → drop n (xs ++ ys) ≡ ys
  drop-append n xs ys h = let e : n ≡ length xs + 0 = omega arith in rw e (drop-append_back 0 xs ys)

  pub take-take : (m n : ℕ) (xs : List T) → m ≤ n → take m (take n xs) ≡ take m xs
  take-take zero n xs h = refl
  take-take (suc m) zero xs h = absurd (omega arith)
  take-take (suc m) (suc n) [] h = refl
  take-take (suc m) (suc n) (x ∷ xs) h = ap (λ l. x ∷ l) (take-take m n xs (omega arith))

  pub drop-take : (m n : ℕ) (xs : List T) → range_of m n xs ≡ drop m (take n xs)
  drop-take zero n xs = ap (λ k. take k xs) (omega arith)
  drop-take (suc m) zero [] = let e : 0 - suc m ≡ 0 = omega arith in rw e refl
  drop-take (suc m) zero (x ∷ xs) = let e : 0 - suc m ≡ 0 = omega arith in rw e refl
  drop-take (suc m) (suc n) [] = take-length (suc n - suc m) [] (omega arith)
  drop-take (suc m) (suc n) (x ∷ xs) =
      let e : suc n - suc m ≡ n - m = omega arith in rw e (drop-take m n xs)

  pub take-write_at :
      (m i : ℕ) (elems ys : List T)
      → m ≤ i
      → i ≤ length elems
      → take m (write_at elems i ys) ≡ take m elems
  take-write_at m i elems ys h k =
      take-append_front m (take i elems) _ (omega (arith, length-take i elems))
      ∙ take-take m i elems h

  drop-write_at :
      (i : ℕ) (elems ys : List T)
      → i ≤ length elems
      → drop i (write_at elems i ys) ≡ ys ++ drop (i + length ys) elems
  drop-write_at i elems ys h = drop-append i (take i elems) _ (omega (arith, length-take i elems))

  pub drop_behind-write_at :
      (i : ℕ) (elems ys : List T)
      → i ≤ length elems
      → drop (i + length ys) (write_at elems i ys) ≡ drop (i + length ys) elems
  drop_behind-write_at i elems ys h =
      sym (drop-add i (length ys) (write_at elems i ys))
      ∙ (ap (λ l. drop (length ys) l) (drop-write_at i elems ys h)
          ∙ drop-append (length ys) ys _ refl)

  pub take_behind-write_at :
      (i n : ℕ) (elems ys : List T)
      → i ≤ length elems
      → length ys ≡ n
      → take (i + n) (write_at elems i ys) ≡ take i elems ++ ys
  take_behind-write_at i n elems ys h e =
      ap (λ l. take (i + n) l) (sym (append_assoc (take i elems) ys _))
      ∙ take-append (i + n) (take i elems ++ ys) _
          (omega (arith, length-append (take i elems) ys, length-take i elems))

  pub length-write_at :
      (i : ℕ) (elems ys : List T)
      → i + length ys ≤ length elems
      → length (write_at elems i ys) ≡ length elems
  length-write_at i elems ys h = omega (
    arith,
    length-append (take i elems) (ys ++ drop (i + length ys) elems),
    length-append ys (drop (i + length ys) elems),
    length-take i elems,
    length-drop (i + length ys) elems,
  )

  take-add : (m n : ℕ) (xs : List T) → take (m + n) xs ≡ take m xs ++ take n (drop m xs)
  take-add zero n xs = ap (λ k. take k xs) (omega arith)
  take-add (suc m) n [] =
      take-length (suc m + n) [] (omega arith) ∙ sym (take-length n [] (omega arith))
  take-add (suc m) n (x ∷ xs) =
      let e : suc m + n ≡ suc (m + n) = omega arith in rw e (ap (λ l. x ∷ l) (take-add m n xs))

  -- A write behind a gap, and then a write into the gap.
  pub write_at-write_at :
      (elems xs ys : List T) (pos n : ℕ)
      → pos + (length xs + n) ≤ length elems
      → length ys ≡ n
      → take (pos + (length xs + n)) (write_at (write_at elems (pos + length xs) ys) pos xs)
        ≡ take pos elems ++ (xs ++ ys)
  write_at-write_at elems xs ys pos n h e =
      let moved = write_at elems (pos + length xs) ys in
      let long : length moved ≡ length elems =
        length-write_at (pos + length xs) elems ys (omega arith) in
      let front : take pos (write_at moved pos xs) ≡ take pos elems =
        take-write_at pos pos moved xs (omega arith) (omega (arith, long))
        ∙ take-write_at pos (pos + length xs) elems ys (omega arith) (omega arith) in
      let behind : drop pos (write_at moved pos xs)
          ≡ (xs ++ ys) ++ drop (pos + length xs + length ys) elems =
        drop-write_at pos moved xs (omega (arith, long))
        ∙ (ap (λ l. xs ++ l) (drop-write_at (pos + length xs) elems ys (omega arith))
            ∙ sym (append_assoc xs ys _)) in
      take-add pos (length xs + n) (write_at moved pos xs)
      ∙ rw (front, behind)
          (ap (λ l. take pos elems ++ l)
            (take-append (length xs + n) (xs ++ ys) _ (omega (arith, length-append xs ys))))

  pub length-drop-take :
      (m n : ℕ) (xs : List T) → m ≤ n → n ≤ length xs → length (drop m (take n xs)) ≡ n - m
  length-drop-take m n xs h k = omega (arith, length-drop m (take n xs), length-take n xs)
