-- ===== src/Mount/Cache/Keys.antt =====
-- Cache keys of different segments differ.
use blockframe_rs.Base.{ℕ, ◌≡◌, refl, [], ◌∷◌, ◌++◌, Text, All, arith}
use blockframe_rs.Base.Decimal.{to_string, to_string_injective, to_string-IsDigit, IsDigit}
use blockframe_rs.Mount.Cache.{cache_key}

-- Digits hold no colon.
no_colon : (f ds es : Text) → All IsDigit es → ¬ (es ≡ f ++ (58 ∷ ds))
no_colon [] ds [] d e = cc
no_colon [] ds (c ∷ es) (d, _) e = let c_eq : c ≡ 58 = cc in omega arith
no_colon (x ∷ f) ds [] d e = cc
no_colon (x ∷ f) ds (c ∷ es) (_, d) e = no_colon f ds es d (cc)

split_last_colon :
    (f g ds es : Text)
    → All IsDigit ds
    → All IsDigit es
    → f ++ (58 ∷ ds) ≡ g ++ (58 ∷ es)
    → (f ≡ g) × (ds ≡ es)
split_last_colon [] [] ds es p q e = (refl, cc)
split_last_colon [] (y ∷ g) ds es p q e = absurd (no_colon g es ds p (cc))
split_last_colon (x ∷ f) [] ds es p q e = absurd (no_colon f ds es q (cc))
split_last_colon (x ∷ f) (y ∷ g) ds es p q e =
    let tails : f ++ (58 ∷ ds) ≡ g ++ (58 ∷ es) = cc in
    let (same, rest) = split_last_colon f g ds es p q tails in (cc, rest)

-- The key names its file and its segment, whatever characters the file's name has.
pub cache_key_injective : (f g : Text) (i j : ℕ) → cache_key f i ≡ cache_key g j → (f ≡ g) × (i ≡ j)
unfolding cache_key
cache_key_injective f g i j e =
    let (files, numbers) =
      split_last_colon f g (to_string i) (to_string j) (to_string-IsDigit i) (to_string-IsDigit j)
        e in
    (files, to_string_injective i j numbers)
