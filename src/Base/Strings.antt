-- ===== src/Base/Strings.antt =====
-- Byte strings. A Rust `String` is the list of its UTF-8 bytes, so that `as_bytes` is the identity
-- and `format!("{}{}", a, b)` is `a ++ b`.
use Prim.Native.Nat.{ℕ}
use Prim.Native.Char.{code}
use Prim.Native.String.{String}
use mathlib.Core.Path.{◌≡◌, refl, subst}
use mathlib.Core.Logic.{◌↔◌, ◌≢◌}
use mathlib.Core.Bool.{Bool, true, false, ◌&&◌}
use mathlib.Core.List.{List, [], ◌∷◌, ◌++◌}
use native.Mathlib.Omega.{arith}
use blockframe_rs.Base.Tests.{◌==◌}
use blockframe_rs.Base.Lists.{length}

abbrev pub Bytes : Type 0
Bytes = List ℕ

abbrev pub Text : Type 0
Text = List ℕ

-- A literal of the source, which is ASCII.
abbrev pub text : String → Text
text String.[] = []
text (String.◌∷◌ c s) = code c ∷ text s

unfoldable pub text_eq : Text → Text → Bool
text_eq [] [] = true
text_eq [] (y ∷ ys) = false
text_eq (x ∷ xs) [] = false
text_eq (x ∷ xs) (y ∷ ys) = x == y && text_eq xs ys

pub text_eq_refl : (xs : Text) → text_eq xs xs ≡ true
unfolding text_eq
text_eq_refl [] = refl
text_eq_refl (x ∷ xs) = ground (arith, text_eq_refl xs)

pub eq_of_text_eq : (xs ys : Text) → text_eq xs ys ≡ true → xs ≡ ys
unfolding text_eq
eq_of_text_eq [] [] h = refl
eq_of_text_eq [] (y ∷ ys) h = ground arith
eq_of_text_eq (x ∷ xs) [] h = ground arith
eq_of_text_eq (x ∷ xs) (y ∷ ys) h = ground (arith, eq_of_text_eq xs ys)

pub text_eq_iff : (xs ys : Text) → (text_eq xs ys ≡ true) ↔ (xs ≡ ys)
text_eq_iff xs ys =
    (eq_of_text_eq xs ys, λ e. subst (λ zs. text_eq xs zs ≡ true) e (text_eq_refl xs))

-- Two texts that agree, up to the length of one of the parts, agree part by part.
pub append-cancel :
    (xs ys us vs : Text) → length xs ≡ length ys → xs ++ us ≡ ys ++ vs → (xs ≡ ys) × (us ≡ vs)
append-cancel [] [] us vs l e = (refl, e)
append-cancel [] (y ∷ ys) us vs l e = absurd (omega arith)
append-cancel (x ∷ xs) [] us vs l e = absurd (omega arith)
append-cancel (x ∷ xs) (y ∷ ys) us vs l e =
    let tails : xs ++ us ≡ ys ++ vs = cc in
    let (p, q) = append-cancel xs ys us vs (omega arith) tails in (cc, q)

pub ne_of_text_eq : (a b : Text) → text_eq a b ≡ false → a ≢ b
ne_of_text_eq a b h p = let q = (text_eq_iff a b).1 p in cc
