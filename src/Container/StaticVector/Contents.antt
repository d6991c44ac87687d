-- ===== src/Container/StaticVector/Contents.antt =====
-- What the operations of a static_vector do to its contents.
use eagine_core.Common.{
  ℕ, ◌==◌, ◌+◌, ◌-◌, ◌≤◌, true, some, none, List, [], ◌∷◌, ◌++◌, length, take, drop, replicate, leb,
  arith, ◌≡◌, refl, sym, ◌∙◌, ap, ◌>>=◌, if◌then◌else◌, Bool-cases, inl, inr, leb→le, le→leb,
  length-take, length-append, length-replicate, take-append-drop,
}
use eagine_core.Container.StaticVector.Code.{
  StaticVector, InCapacity, contents, insert_range, insert_value, erase_between, push_back, full,
  write_at, range_of,
}
use eagine_core.Container.StaticVector.Writes.{
  take-append, append_assoc, take-take, drop-take, take-write_at, drop_behind-write_at,
  take_behind-write_at, length-write_at, write_at-write_at, length-drop-take, drop-append,
}

module _ {ℓ} {T : Type ℓ} where
  contents_inserted :
      (pos : ℕ) (xs : List T) (v : StaticVector T)
      → pos ≤ v.used
      → v.used + length xs ≤ length v.elems
      → take
          (v.used + length xs)
          (write_at (write_at v.elems (pos + length xs) (range_of pos v.used v.elems)) pos xs)
        ≡ take pos (contents v) ++ (xs ++ drop pos (contents v))
  contents_inserted pos xs v h k =
      let e : v.used + length xs ≡ pos + (length xs + (v.used - pos)) = omega arith in
      rw (e, drop-take pos v.used v.elems, take-take pos v.used v.elems h)
        (write_at-write_at v.elems xs (drop pos (take v.used v.elems)) pos (v.used - pos)
          (omega arith) (length-drop-take pos v.used v.elems h (omega arith)))

  contents_erased :
      (filler : T) (first last : ℕ) (v : StaticVector T)
      → first ≤ last
      → last ≤ v.used
      → InCapacity v
      → (let cleared = write_at v.elems first (replicate (last - first) filler) in
          take (v.used - (last - first)) (write_at cleared first (range_of last v.used cleared)))
        ≡ take first (contents v) ++ drop last (contents v)
  unfolding InCapacity
  contents_erased filler first last v h k c =
      let cleared = write_at v.elems first (replicate (last - first) filler) in
      let len : length (replicate (last - first) filler) ≡ last - first =
        length-replicate (last - first) filler in
      let long : length cleared ≡ length v.elems =
        length-write_at first v.elems (replicate (last - first) filler) (omega (arith, len)) in
      let e : v.used - (last - first) ≡ first + (v.used - last) = omega arith in
      let back : range_of last v.used cleared ≡ drop last (contents v) =
        let f : last ≡ first + length (replicate (last - first) filler) = omega (arith, len) in
        ap (λ l. take (v.used - last) l)
          (ap (λ m. drop m cleared) f
            ∙ (drop_behind-write_at first v.elems _ (omega arith)
                ∙ ap (λ m. drop m v.elems) (sym f)))
        ∙ drop-take last v.used v.elems in
      rw (e, back)
        (take_behind-write_at first (v.used - last) cleared (drop last (contents v))
            (omega (arith, long)) (length-drop-take last v.used v.elems k c)
          ∙ ap (λ l. l ++ drop last (contents v))
              (take-write_at first first v.elems _ (omega arith) (omega arith)
                ∙ sym (take-take first v.used v.elems (omega arith))))

  pub erase_between-contents :
      (filler : T) (first last : ℕ) (v : StaticVector T)
      → first ≤ last
      → InCapacity v
      → (erase_between filler first last v >>= λ w. some (contents w)) ≡ (
          if leb last v.used
          then some (take first (contents v) ++ drop last (contents v))
          else none)
  unfolding erase_between
  erase_between-contents filler first last v h c = elim (Bool-cases (leb last v.used)) [
    | inl e ↦
        let k = leb→le last v.used e in
        let f : leb first v.used ≡ true = le→leb first v.used (omega arith) in
        rw (f, e) (ap some (contents_erased filler first last v h k c))
    | inr e ↦ elim (Bool-cases (leb first v.used)) [
      | inl f ↦ rw (f, e) refl
      | inr f ↦ rw (f, e) refl
    ]
  ]

  length_inserted :
      (pos : ℕ) (xs : List T) (v : StaticVector T)
      → pos ≤ v.used
      → v.used + length xs ≤ length v.elems
      → length (write_at (write_at v.elems (pos + length xs) (range_of pos v.used v.elems)) pos xs)
        ≡ length v.elems
  length_inserted pos xs v h k =
      let moved = write_at v.elems (pos + length xs) (range_of pos v.used v.elems) in
      let n : length (range_of pos v.used v.elems) ≡ v.used - pos =
        ap length (drop-take pos v.used v.elems)
        ∙ length-drop-take pos v.used v.elems h (omega arith) in
      let e : length moved ≡ length v.elems =
        length-write_at (pos + length xs) v.elems (range_of pos v.used v.elems)
          (omega (arith, n)) in
      length-write_at pos moved xs (omega (arith, e)) ∙ e

  parts_inserted :
      (pos : ℕ) (xs cs : List T)
      → pos ≤ length cs
      → take pos (take pos cs ++ (xs ++ drop pos cs))
          ++ drop (pos + length xs) (take pos cs ++ (xs ++ drop pos cs))
        ≡ cs
  parts_inserted pos xs cs h =
      let n : length (take pos cs) ≡ pos = omega (arith, length-take pos cs) in
      rw
        (
          take-append pos (take pos cs) (xs ++ drop pos cs) n,
          sym (append_assoc (take pos cs) xs (drop pos cs)),
          drop-append (pos + length xs) (take pos cs ++ xs) (drop pos cs)
              (omega (arith, n, length-append (take pos cs) xs)),
        )
        (take-append-drop pos cs)

  -- What is inserted and then erased again leaves the contents as they were.
  erase_between-insert_range :
      (filler : T) (pos : ℕ) (xs : List T) (v : StaticVector T)
      → pos ≤ v.used
      → v.used + length xs ≤ length v.elems
      → (insert_range pos xs v >>= λ w.
          erase_between filler pos (pos + length xs) w >>= λ u. some (contents u))
        ≡ some (contents v)
  unfolding insert_range InCapacity
  erase_between-insert_range filler pos xs v h k =
      let w : StaticVector T = record {
        elems = write_at (write_at v.elems (pos + length xs) (range_of pos v.used v.elems)) pos xs;
        used = v.used + length xs;
      } in
      let room : leb (v.used + length xs) (length v.elems) ≡ true = le→leb _ _ k in
      let valid : leb (pos + length xs) (v.used + length xs) ≡ true = le→leb _ _ (omega arith) in
      let e : contents w ≡ take pos (contents v) ++ (xs ++ drop pos (contents v)) =
        contents_inserted pos xs v h k in
      let parts : take pos (contents w) ++ drop (pos + length xs) (contents w) ≡ contents v =
        rw e (parts_inserted pos xs (contents v) (omega (arith, length-take v.used v.elems))) in
      rw room (
        erase_between-contents filler pos (pos + length xs) w (omega arith)
          (omega (arith, length_inserted pos xs v h k))
        ∙ rw valid (ap some parts))

  -- Insertion of one value is the insertion of a range of one.
  insert_value-insert_range :
      (pos : ℕ) (value : T) (v : StaticVector T)
      → InCapacity v
      → pos ≤ v.used
      → insert_value pos value v ≡ insert_range pos (value ∷ []) v
  unfolding insert_value insert_range InCapacity full
  insert_value-insert_range pos value v c h = ground arith

  write_at_nothing : (n : ℕ) (elems : List T) → write_at elems n [] ≡ elems
  write_at_nothing n elems = let e : n + 0 ≡ n = omega arith in rw e (take-append-drop n elems)

  -- Pushing is insertion at the end.
  push_back-insert_value :
      (value : T) (v : StaticVector T)
      → InCapacity v
      → push_back value v ≡ insert_value v.used value v
  unfolding insert_value push_back full
  push_back-insert_value value v c =
      let e : v.used - v.used ≡ 0 = omega arith in
      let f : leb v.used v.used ≡ true = le→leb v.used v.used (omega arith) in
      elim (Bool-cases (v.used == length v.elems)) [
        | inl g ↦ rw g refl
        | inr g ↦ rw (g, f, e, write_at_nothing (v.used + 1) v.elems) refl
      ]
