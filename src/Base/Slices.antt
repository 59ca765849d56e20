-- ===== src/Base/Slices.antt =====
-- Slices of lists: `xs[a..b]`, `resize`, and how the parts of a list fit together.
use Prim.Native.Nat.{ℕ, zero, suc, ◌+◌, ◌-◌, ◌*◌, ◌/◌, ◌≤◌, min}
use mathlib.Core.Path.{◌≡◌, refl, ap, ◌∙◌, sym}
use mathlib.Core.List.{List, [], ◌∷◌, ◌++◌}
use native.Mathlib.Omega.{arith}
use blockframe_rs.Base.Lists.{length, take, drop, replicate, length-drop}
use blockframe_rs.Base.Strings.{Bytes}

-- `a.div_ceil(b)`
abbrev pub div_ceil : ℕ → ℕ → ℕ
div_ceil a b = (a + b - 1) / b

-- `v.resize(size, 0)`
abbrev pub resize : Bytes → ℕ → Bytes
resize v size = take size v ++ replicate (size - length v) 0

module _ {ℓ} {A : Type ℓ} where
  -- `xs[start..end]`
  abbrev pub slice : List A → ℕ → ℕ → List A
  slice xs start end = take (end - start) (drop start xs)

  -- The part of a list that starts at a multiple of `size`: `xs[i * size..min((i + 1) * size, len)]`.
  abbrev pub piece : List A → ℕ → ℕ → List A
  piece xs size i = slice xs (i * size) (min ((i + 1) * size) (length xs))

  pub take-nil : (n : ℕ) → ◌≡◌ {A = List A} (take n []) []
  take-nil zero = refl
  take-nil (suc n) = refl

  pub drop-nil : (n : ℕ) → ◌≡◌ {A = List A} (drop n []) []
  drop-nil zero = refl
  drop-nil (suc n) = refl

  pub take-of_le : (n : ℕ) (xs : List A) → length xs ≤ n → take n xs ≡ xs
  take-of_le n [] h = take-nil n
  take-of_le zero (x ∷ xs) h = absurd (omega arith)
  take-of_le (suc n) (x ∷ xs) h = ap (λ ys. x ∷ ys) (take-of_le n xs (omega arith))

  pub drop-of_le : (n : ℕ) (xs : List A) → length xs ≤ n → drop n xs ≡ []
  drop-of_le n [] h = drop-nil n
  drop-of_le zero (x ∷ xs) h = absurd (omega arith)
  drop-of_le (suc n) (x ∷ xs) h = drop-of_le n xs (omega arith)

  pub take-split :
      (n a b : ℕ) (xs : List A) → n ≡ a + b → take n xs ≡ take a xs ++ take b (drop a xs)
  take-split n zero b xs e = let e' : n ≡ b = omega arith in ap (λ k. take k xs) e'
  take-split zero (suc a) b xs e = absurd (omega arith)
  take-split (suc n) (suc a) b [] e = sym (take-nil b)
  take-split (suc n) (suc a) b (x ∷ xs) e = ap (λ ys. x ∷ ys) (take-split n a b xs (omega arith))

  pub drop-drop : (n a b : ℕ) (xs : List A) → n ≡ a + b → drop b (drop a xs) ≡ drop n xs
  drop-drop n zero b xs e = let e' : b ≡ n = omega arith in ap (λ k. drop k xs) e'
  drop-drop zero (suc a) b xs e = absurd (omega arith)
  drop-drop (suc n) (suc a) b [] e = drop-nil b
  drop-drop (suc n) (suc a) b (x ∷ xs) e = drop-drop n a b xs (omega arith)

  pub drop-take : (n a b : ℕ) (xs : List A) → n ≡ b - a → drop a (take b xs) ≡ take n (drop a xs)
  drop-take n zero b xs e = let e' : b ≡ n = omega arith in ap (λ k. take k xs) e'
  drop-take n (suc a) zero xs e =
      let e' : 0 ≡ n = omega arith in ap (λ k. take k (drop (suc a) xs)) e'
  drop-take n (suc a) (suc b) [] e = sym (take-nil n)
  drop-take n (suc a) (suc b) (x ∷ xs) e = drop-take n a b xs (omega arith)

  pub take-take : (n a b : ℕ) (xs : List A) → n ≡ min a b → take a (take b xs) ≡ take n xs
  take-take zero zero b xs e = refl
  take-take (suc n) zero b xs e = absurd (omega arith)
  take-take zero (suc a) zero xs e = refl
  take-take (suc n) (suc a) zero xs e = absurd (omega arith)
  take-take zero (suc a) (suc b) xs e = absurd (omega arith)
  take-take (suc n) (suc a) (suc b) [] e = refl
  take-take (suc n) (suc a) (suc b) (x ∷ xs) e =
      ap (λ ys. x ∷ ys) (take-take n a b xs (omega arith))

  -- Taking no further than the end takes the same.
  pub take-min : (n m : ℕ) (xs : List A) → m ≡ min n (length xs) → take m xs ≡ take n xs
  take-min n m xs e =
      ap (take m) (sym (take-of_le (length xs) xs (omega arith)))
      ∙ take-take m m (length xs) xs (omega arith)
      ∙ sym (
          ap (take n) (sym (take-of_le (length xs) xs (omega arith)))
          ∙ take-take m n (length xs) xs e)

  pub take_append : (n : ℕ) (xs ys : List A) → n ≡ length xs → take n (xs ++ ys) ≡ xs
  take_append zero [] ys e = refl
  take_append (suc n) [] ys e = absurd (omega arith)
  take_append zero (x ∷ xs) ys e = absurd (omega arith)
  take_append (suc n) (x ∷ xs) ys e = ap (λ zs. x ∷ zs) (take_append n xs ys (omega arith))

  -- A piece is what a window of the given size shows of the list.
  pub piece-eq : (xs : List A) (size i : ℕ) → piece xs size i ≡ take size (drop (i * size) xs)
  piece-eq xs size i =
      take-min size (min ((i + 1) * size) (length xs) - i * size) (drop (i * size) xs)
        (omega (arith, length-drop (i * size) xs))
