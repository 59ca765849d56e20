-- ===== src/Tests/Sizes.antt =====
-- A run of the theorem on sizes.
use blockframe_rs.Base.{
  ℕ, ◌-◌, ◌*◌, ◌≡◌, refl, ap, [], ◌∷◌, ◌++◌, All, Text, ok, ◌&&◌, ◌==◌, leb, if◌then◌else◌, arith,
}
use blockframe_rs.Base.Decimal.{to_string, value, value-to_string}
use blockframe_rs.Config.{Units, parse_size}
use blockframe_rs.Config.Laws.{IsPlain, IsUnits, mb, bytes_of, suffix_of, parse_size-to_string}

-- Blanks in front are dropped.
abbrev trim_blanks : Text → Text
trim_blanks [] = []
trim_blanks (c ∷ cs) = let rest = trim_blanks cs in if c == 32 then rest else c ∷ cs

abbrev capital : ℕ → ℕ
capital c = if leb 97 c && leb c 122 then c - 32 else c

abbrev capitals : Text → Text
capitals [] = []
capitals (c ∷ cs) = capital c ∷ capitals cs

-- Numbers that stay exact.
abbrev exact_units : Units
exact_units = record {
  trim = trim_blanks;
  to_uppercase = capitals;
  F64 = ℕ;
  parse = λ t. ok (value 0 t);
  times = λ num unit. num * unit;
  as_usize = λ num. num;
}

trims_plain : (t : Text) → All IsPlain t → trim_blanks t ≡ t
trims_plain [] p = refl
trims_plain (c ∷ cs) ((l, h), p) = ground arith

capital_plain : (c : ℕ) → IsPlain c → capital c ≡ c
capital_plain c (l, h) = ground arith

upper_plain : (t : Text) → All IsPlain t → capitals t ≡ t
upper_plain [] p = refl
upper_plain (c ∷ cs) (h, p) =
    let here = capital_plain c h in let rest = upper_plain cs p in rw (here, rest) refl

exact_units-IsUnits : IsUnits exact_units
exact_units-IsUnits = record {
  trims = trims_plain;
  upper = upper_plain;
  exact = λ n unit h. (n, ap ok (value-to_string n), refl);
}

parse_size-to_string_example :
    parse_size exact_units (to_string 250 ++ suffix_of mb) ≡ ok (250 * bytes_of mb)
parse_size-to_string_example =
    parse_size-to_string exact_units exact_units-IsUnits 250 mb (omega arith)
