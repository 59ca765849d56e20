-- ===== src/Config/Laws.antt =====
-- What src/config.rs reads.
use blockframe_rs.Base.{
  ℕ, suc, zero, ◌+◌, ◌-◌, ◌*◌, ◌^◌, ◌<◌, ◌≤◌, ◌≡◌, ◌≢◌, refl, ap, ◌∙◌, none, some, [], ◌∷◌, ◌++◌,
  All, Text, text, text_eq, text_eq_refl, eq_of_text_eq, ok, inl, inr, Bool-cases, length,
  length-append, leb, if◌then◌else◌, drop, take_append, subst, arith, true, false,
}
use mathlib.Core.List.{append-nil}
use blockframe_rs.Base.Decimal.{
  to_string, IsDigit, to_string-IsDigit, to_string_nonempty, value, value-to_string,
}
use blockframe_rs.Filestore.Reconstruct.{parse_digits, parse_usize}
use blockframe_rs.Config.{Units, scaled, strip_suffix, parse_upper, parse_size}

-- A row of digits whose number fits into 64 bits is read as that number.
value_grows : (acc : ℕ) (cs : Text) → acc ≤ value acc cs
value_grows acc [] = omega arith
value_grows acc (c ∷ cs) = omega (arith, value_grows (acc * 10 + (c - 48)) cs)

parse_digits_reads :
    (acc : ℕ) (cs : Text)
    → All IsDigit cs
    → value acc cs < 2 ^ 64
    → parse_digits acc cs ≡ some (value acc cs)
unfolding parse_digits
parse_digits_reads acc [] d h = refl
parse_digits_reads acc (c ∷ cs) ((l, u), d) h =
    let grows = value_grows (acc * 10 + (c - 48)) cs in
    let below = parse_digits_reads (acc * 10 + (c - 48)) cs d h in ground arith

parse_usize_reads :
    (t : Text) → All IsDigit t → t ≢ [] → value 0 t < 2 ^ 64 → parse_usize t ≡ some (value 0 t)
unfolding parse_usize
parse_usize_reads [] d some_left h = absurd (some_left refl)
parse_usize_reads (c ∷ []) d some_left h = parse_digits_reads 0 (c ∷ []) d h
parse_usize_reads (c ∷ e ∷ cs) d some_left h =
    let below = parse_digits_reads 0 (c ∷ e ∷ cs) d h in let ((l, u), _) = d in ground arith

parse_usize-to_string : (n : ℕ) → n < 2 ^ 64 → parse_usize (to_string n) ≡ some n
parse_usize-to_string n h =
    let same = value-to_string n in
    parse_usize_reads (to_string n) (to_string-IsDigit n) (to_string_nonempty n) (omega arith)
    ∙ ap some same

drop_append : (t u : Text) → drop (length t) (t ++ u) ≡ u
drop_append [] u = refl
drop_append (c ∷ t) u = drop_append t u

-- A suffix of the right length is the one that is looked for, or there is none.
strip_suffix-append :
    (t u suffix : Text)
    → length u ≡ length suffix
    → strip_suffix (t ++ u) suffix ≡ (if text_eq u suffix then some t else none)
unfolding strip_suffix
strip_suffix-append t u suffix h =
    let all = length-append t u in
    let kept : length (t ++ u) - length suffix ≡ length t = omega arith in
    let long : leb (length suffix) (length (t ++ u)) ≡ true = ground arith in
    let front = take_append (length t) t u refl in rw (kept, long, drop_append t u, front) refl

strip_suffix-same : (t suffix : Text) → strip_suffix (t ++ suffix) suffix ≡ some t
strip_suffix-same t suffix =
    let same = text_eq_refl suffix in strip_suffix-append t suffix suffix refl ∙ rw same refl

strip_suffix-other :
    (t u suffix : Text)
    → length u ≡ length suffix
    → text_eq u suffix ≡ false
    → strip_suffix (t ++ u) suffix ≡ none
strip_suffix-other t u suffix h ne = strip_suffix-append t u suffix h ∙ rw ne refl

drop-IsDigit : (n : ℕ) (t : Text) → All IsDigit t → All IsDigit (drop n t)
drop-IsDigit zero t d = d
drop-IsDigit (suc n) [] d = tt
drop-IsDigit (suc n) (c ∷ t) (_, d) = drop-IsDigit n t d

-- A row of digits ends with no letter.
strip_suffix-digits :
    (t : Text) (c : ℕ) (suffix : Text) → All IsDigit t → 58 ≤ c → strip_suffix t (c ∷ suffix) ≡ none
unfolding strip_suffix
strip_suffix-digits t c suffix d h =
    let kept = length t - length (c ∷ suffix) in
    elim (Bool-cases (text_eq (drop kept t) (c ∷ suffix))) [
      | inl e ↦
          let same = eq_of_text_eq (drop kept t) (c ∷ suffix) e in
          let (l, u) = (subst (All IsDigit) same (drop-IsDigit kept t d)).0 in absurd (omega arith)
      | inr e ↦ ground arith
    ]

-- The units that a size is given in, with nothing for bytes.
pub data SizeUnit : Type 0 where
  gb : SizeUnit
  mb : SizeUnit
  kb : SizeUnit
  plain : SizeUnit

abbrev pub suffix_of : SizeUnit → Text
suffix_of gb = text "GB"
suffix_of mb = text "MB"
suffix_of kb = text "KB"
suffix_of plain = []

abbrev pub bytes_of : SizeUnit → ℕ
bytes_of gb = 1_000_000_000
bytes_of mb = 1_000_000
bytes_of kb = 1_000
bytes_of plain = 1

-- A character from `0` to `Z`, which is no blank and no small letter.
abbrev pub IsPlain : ℕ → Type 0
IsPlain c = (48 ≤ c) × (c ≤ 90)

-- Documented behaviour of `trim`, `to_uppercase` and `f64`: whole numbers below 2^53 are exact.
pub record IsUnits (U : Units) : Type 0 where
  pub trims : (t : Text) → All IsPlain t → U.trim t ≡ t
  pub upper : (t : Text) → All IsPlain t → U.to_uppercase t ≡ t
  pub exact :
      (n unit : ℕ)
      → n * unit < 2 ^ 53
      → (num : U.F64) × (U.parse (to_string n) ≡ ok num)
        × (U.as_usize (U.times num unit) ≡ n * unit)

-- The digits of a number and what else is plain.
append-IsPlain : (t u : Text) → All IsDigit t → All IsPlain u → All IsPlain (t ++ u)
append-IsPlain [] u d p = p
append-IsPlain (c ∷ t) u ((l, h), d) p = ((l, omega arith), append-IsPlain t u d p)

module _ (U : Units) (I : IsUnits U) where
  cleaned : (t : Text) → All IsPlain t → U.to_uppercase (U.trim t) ≡ t
  cleaned t p = ap U.to_uppercase (I.trims t p) ∙ I.upper t p

  scaled_reads : (n unit : ℕ) → n * unit < 2 ^ 53 → scaled U (to_string n) unit ≡ ok (n * unit)
  scaled_reads n unit h =
      let (num, parses, same) = I.exact n unit h in
      let bare = I.trims (to_string n) (
        subst (All IsPlain) (append-nil (to_string n))
          (append-IsPlain (to_string n) [] (to_string-IsDigit n) tt)) in
      rw (bare, parses, same) refl

  parse_upper-digits : (n : ℕ) → n < 2 ^ 64 → parse_upper U (to_string n) ≡ ok n
  unfolding parse_upper
  parse_upper-digits n h =
      let d = to_string-IsDigit n in
      rw
        (
          parse_upper,
          strip_suffix-digits (to_string n) 71 (66 ∷ []) d (omega arith),
          strip_suffix-digits (to_string n) 77 (66 ∷ []) d (omega arith),
          strip_suffix-digits (to_string n) 75 (66 ∷ []) d (omega arith),
          parse_usize-to_string n h,
        )
        refl

  parse_upper-to_string :
      (n : ℕ) (u : SizeUnit)
      → n * bytes_of u < 2 ^ 53
      → parse_upper U (to_string n ++ suffix_of u) ≡ ok (n * bytes_of u)
  unfolding parse_upper text_eq
  parse_upper-to_string n gb h =
      rw (parse_upper, strip_suffix-same (to_string n) (text "GB")) (scaled_reads n 1_000_000_000 h)
  parse_upper-to_string n mb h =
      rw
        (
          parse_upper,
          strip_suffix-other (to_string n) (text "MB") (text "GB") refl refl,
          strip_suffix-same (to_string n) (text "MB"),
        )
        (scaled_reads n 1_000_000 h)
  parse_upper-to_string n kb h =
      rw
        (
          parse_upper,
          strip_suffix-other (to_string n) (text "KB") (text "GB") refl refl,
          strip_suffix-other (to_string n) (text "KB") (text "MB") refl refl,
          strip_suffix-same (to_string n) (text "KB"),
        )
        (scaled_reads n 1_000 h)
  parse_upper-to_string n plain h =
      let one : n ≡ n * 1 = omega arith in
      ap (parse_upper U) (append-nil (to_string n)) ∙ parse_upper-digits n (omega arith) ∙ ap ok one

  suffix_of-IsPlain : (u : SizeUnit) → All IsPlain (suffix_of u)
  suffix_of-IsPlain gb = ground arith
  suffix_of-IsPlain mb = ground arith
  suffix_of-IsPlain kb = ground arith
  suffix_of-IsPlain plain = tt

  -- A size printed as a whole number with its unit, in capitals, is read as its number of bytes, if
  -- there are fewer than 2^53 of them.
  pub parse_size-to_string :
      (n : ℕ) (u : SizeUnit)
      → n * bytes_of u < 2 ^ 53
      → parse_size U (to_string n ++ suffix_of u) ≡ ok (n * bytes_of u)
  unfolding parse_size
  parse_size-to_string n u h =
      let clean =
        cleaned (to_string n ++ suffix_of u) (
          append-IsPlain (to_string n) (suffix_of u) (to_string-IsDigit n) (suffix_of-IsPlain u)) in
      ap (parse_upper U) clean ∙ parse_upper-to_string n u h
