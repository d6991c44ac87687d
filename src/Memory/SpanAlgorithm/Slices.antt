-- ===== src/Memory/SpanAlgorithm/Slices.antt =====
-- span_algorithm.cpp: slices. A span is the list of its elements; `eq` compares two of them, as
-- `are_equal` does.
use eagine_core.Common.{
  ℕ, ◌-◌, Bool, true, false, ◌&&◌, List, ◌∷◌, ◌==◌, if◌then◌else◌, length, take, drop,
}
use eagine_core.Common.Integers.{ℤ, pos, ◌+ℤ◌, size_less, clamp}

module _ {ℓ} {A : Type ℓ} where
  -- `slice` of a length that is not negative.
  unfoldable pub slice : List A → ℤ → ℕ → List A
  slice s i l =
      let b = clamp i (length s) in let e = clamp (i +ℤ pos l) (length s) in take (e - b) (drop b s)

  unfoldable pub skip : List A → ℤ → List A
  skip s l = drop (clamp l (length s)) s

  unfoldable pub head : List A → ℤ → List A
  head s l = take (clamp l (length s)) s

  unfoldable pub snip : List A → ℤ → List A
  unfolding head
  snip s l = head s (size_less (length s) l)

  unfoldable pub shrink : List A → ℤ → List A
  unfolding snip skip
  shrink s l = snip (skip s l) l

  unfoldable pub tail : List A → ℤ → List A
  unfolding skip
  tail s l = skip s (size_less (length s) l)

module _ {ℓ} {A : Type ℓ} (eq : A → A → Bool) where
  -- `std::equal` of spans of one size.
  unfoldable pub equal : List A → List A → Bool
  equal (x ∷ xs) (y ∷ ys) = eq x y && equal xs ys
  equal _ _ = true

  -- `equal_cmp::check` of two spans.
  unfoldable pub are_equal : List A → List A → Bool
  are_equal l r = if length l == length r then equal l r else false

  unfoldable pub starts_with : List A → List A → Bool
  starts_with spn with = are_equal (head spn (pos (length with))) with

  unfoldable pub ends_with : List A → List A → Bool
  ends_with spn with = are_equal (tail spn (pos (length with))) with

  unfoldable pub strip_prefix : List A → List A → List A
  strip_prefix spn prefix = if starts_with spn prefix then skip spn (pos (length prefix)) else spn

  unfoldable pub strip_suffix : List A → List A → List A
  strip_suffix spn suffix = if ends_with spn suffix then snip spn (pos (length suffix)) else spn
