-- ===== src/Base/Decimal.antt =====
-- `to_string` of an unsigned number, as `format!` prints it.
use blockframe_rs.Base.{
  ℕ, zero, suc, ◌+◌, ◌-◌, ◌*◌, ◌/◌, ◌%◌, ◌≤◌, ◌<◌, ◌≡◌, ◌≢◌, refl, ap, ◌∙◌, sym, [], ◌∷◌, ◌++◌,
  Text, All, ltb, if◌then◌else◌, arith, Bool-cases, inl, inr,
}

-- The fuel bounds the number of digits.
digits : ℕ → ℕ → Text
digits zero n = []
digits (suc fuel) n =
    let rest = digits fuel (n / 10) ++ ((n % 10 + 48) ∷ []) in
    if ltb n 10 then (n + 48) ∷ [] else rest

unfoldable pub to_string : ℕ → Text
unfolding digits
to_string n = digits (n + 1) n

-- The number that a row of digits stands for, read on from `acc`.
abbrev pub value : ℕ → Text → ℕ
value acc [] = acc
value acc (c ∷ cs) = value (acc * 10 + (c - 48)) cs

value-append : (acc : ℕ) (cs ds : Text) → value acc (cs ++ ds) ≡ value (value acc cs) ds
value-append acc [] ds = refl
value-append acc (c ∷ cs) ds = value-append (acc * 10 + (c - 48)) cs ds

value-digits : (fuel n : ℕ) → n < fuel → value 0 (digits fuel n) ≡ n
unfolding digits
value-digits zero n h = elim h [ ]
value-digits (suc fuel) n h = elim (Bool-cases (ltb n 10)) [
  | inl e ↦ rw e (omega arith)
  | inr e ↦ rw (e, value-append, value-digits fuel (n / 10) (ground arith)) (omega arith)
]

pub value-to_string : (n : ℕ) → value 0 (to_string n) ≡ n
unfolding to_string
value-to_string n = value-digits (n + 1) n (omega arith)

-- Two numbers with one text are the same number.
pub to_string_injective : (n m : ℕ) → to_string n ≡ to_string m → n ≡ m
unfolding to_string
to_string_injective n m e =
    sym (value-digits (n + 1) n (omega arith))
    ∙ ap (value 0) e
    ∙ value-digits (m + 1) m (omega arith)

abbrev pub IsDigit : ℕ → Type 0
IsDigit c = (48 ≤ c) × (c < 58)

All-append : (cs ds : Text) → All IsDigit cs → All IsDigit ds → All IsDigit (cs ++ ds)
All-append [] ds p q = q
All-append (c ∷ cs) ds (h, p) q = (h, All-append cs ds p q)

digits-IsDigit : (fuel n : ℕ) → All IsDigit (digits fuel n)
unfolding digits
digits-IsDigit zero n = tt
digits-IsDigit (suc fuel) n = elim (Bool-cases (ltb n 10)) [
  | inl e ↦ rw e (ground arith, tt)
  | inr e ↦ rw e (All-append _ _ (digits-IsDigit fuel (n / 10)) (omega arith, tt))
]

-- A number's text consists of digits.
pub to_string-IsDigit : (n : ℕ) → All IsDigit (to_string n)
unfolding to_string
to_string-IsDigit n = digits-IsDigit (n + 1) n

-- A number's text is not empty.
pub to_string_nonempty : (n : ℕ) → to_string n ≢ []
to_string_nonempty n e =
    let zero_is : 0 ≡ n = ap (value 0) (sym e) ∙ value-to_string n in
    let at_zero : to_string 0 ≡ 48 ∷ [] = unfold to_string in unfold digits in refl in absurd (cc)
