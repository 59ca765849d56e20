-- ===== src/Disk/Names/Apart.antt =====
-- Different files of an archive have different paths.
use blockframe_rs.Base.{
  ℕ, ◌≡◌, ◌≢◌, refl, ap, List, [], ◌∷◌, ◌++◌, Text, text, append-cancel, length, length-append,
  arith, All,
}
use blockframe_rs.Base.Decimal.{to_string, to_string_injective, to_string-IsDigit, IsDigit}
use blockframe_rs.Disk.{PathBuf, join}
use blockframe_rs.Disk.Names.{
  data_file, parity_file, segment_file, segment_parity_file, block_parity_file, manifest_file,
  block_name,
}

module _ {ℓ} {A : Type ℓ} where
  append_cancel_right : (xs ys us : List A) → xs ++ us ≡ ys ++ us → xs ≡ ys
  append_cancel_right [] [] us e = refl
  append_cancel_right [] (y ∷ ys) us e =
      absurd (omega (arith, ap length e, length-append (y ∷ ys) us))
  append_cancel_right (x ∷ xs) [] us e =
      absurd (omega (arith, ap length e, length-append (x ∷ xs) us))
  append_cancel_right (x ∷ xs) (y ∷ ys) us e =
      let rest : xs ++ us ≡ ys ++ us = cc in let same = append_cancel_right xs ys us rest in cc

append_cancel_left : (xs us vs : Text) → xs ++ us ≡ xs ++ vs → us ≡ vs
append_cancel_left xs us vs e = (append-cancel xs xs us vs refl e).1

pub join_injective : (dir : PathBuf) (a b : Text) → join dir a ≡ join dir b → a ≡ b
join_injective [] a b e = cc
join_injective (name ∷ dir) a b e =
    let rest : join dir a ≡ join dir b = cc in join_injective dir a b rest

pub parity_file_injective : (i j : ℕ) → parity_file i ≡ parity_file j → i ≡ j
parity_file_injective i j e =
    let tails : to_string i ++ text ".dat" ≡ to_string j ++ text ".dat" = cc in
    to_string_injective i j (append_cancel_right (to_string i) (to_string j) (text ".dat") tails)

pub segment_file_injective : (i j : ℕ) → segment_file i ≡ segment_file j → i ≡ j
segment_file_injective i j e =
    let tails : to_string i ++ text ".dat" ≡ to_string j ++ text ".dat" = cc in
    to_string_injective i j (append_cancel_right (to_string i) (to_string j) (text ".dat") tails)

pub segment_parity_file_injective :
    (k i j : ℕ) → segment_parity_file k i ≡ segment_parity_file k j → i ≡ j
segment_parity_file_injective k i j e =
    let a = to_string i ++ text ".dat" in
    let b = to_string j ++ text ".dat" in
    let tails : to_string k ++ (text "_parity_" ++ a) ≡ to_string k ++ (text "_parity_" ++ b) =
      append_cancel_left (text "segment_") _ _ e in
    let ends : a ≡ b =
      append_cancel_left (text "_parity_") a b (append_cancel_left (to_string k) _ _ tails) in
    to_string_injective i j (append_cancel_right (to_string i) (to_string j) (text ".dat") ends)

-- A row of digits ends where the first other character stands.
digits-cancel :
    (ds es xs ys : Text)
    → All IsDigit ds
    → All IsDigit es
    → ds ++ (95 ∷ xs) ≡ es ++ (95 ∷ ys)
    → (ds ≡ es) × (xs ≡ ys)
digits-cancel [] [] xs ys p q e = (refl, cc)
digits-cancel [] (b ∷ es) xs ys p (d, _) e = let at : 95 ≡ b = cc in absurd (omega arith)
digits-cancel (a ∷ ds) [] xs ys (d, _) q e = let at : a ≡ 95 = cc in absurd (omega arith)
digits-cancel (a ∷ ds) (b ∷ es) xs ys (_, p) (_, q) e =
    let tails : ds ++ (95 ∷ xs) ≡ es ++ (95 ∷ ys) = cc in
    let (same, rest) = digits-cancel ds es xs ys p q tails in (cc, rest)

pub segment_parity_file-segment :
    (k l i j : ℕ) → segment_parity_file k i ≡ segment_parity_file l j → k ≡ l
segment_parity_file-segment k l i j e = to_string_injective k l (
    (digits-cancel (to_string k) (to_string l) _ _ (to_string-IsDigit k) (to_string-IsDigit l)
      (append_cancel_left (text "segment_") _ _ e)).0)

-- The first character of a name.
first : Text → ℕ
first [] = 0
first (c ∷ cs) = c

pub data_file-ne-parity_file : (i : ℕ) → data_file ≢ parity_file i
unfolding first
data_file-ne-parity_file i e = let c : 100 ≡ 112 = ap first e in omega (arith, c)

pub data_file-ne-manifest_file : data_file ≢ manifest_file
unfolding first
data_file-ne-manifest_file e = let c : 100 ≡ 109 = ap first e in omega (arith, c)

pub parity_file-ne-manifest_file : (i : ℕ) → parity_file i ≢ manifest_file
unfolding first
parity_file-ne-manifest_file i e = let c : 112 ≡ 109 = ap first e in omega (arith, c)

first_name : PathBuf → Text
first_name [] = []
first_name (name ∷ path) = name

-- What is in one directory is not in the other.
pub segments-ne-parity :
    (dir : PathBuf) (a b : Text)
    → join (join dir (text "segments")) a ≢ join (join dir (text "parity")) b
unfolding first first_name
segments-ne-parity [] a b e =
    let c : 115 ≡ 112 = ap (λ path. first (first_name path)) e in omega (arith, c)
segments-ne-parity (name ∷ dir) a b e =
    let rest : join (join dir (text "segments")) a ≡ join (join dir (text "parity")) b = cc in
    segments-ne-parity dir a b rest

pub deeper_ne : (dir : PathBuf) (sub name other : Text) → join (join dir sub) name ≢ join dir other
deeper_ne dir sub name other e = omega (
  arith,
  ap length e,
  length-append (join dir sub) (name ∷ []),
  length-append dir (sub ∷ []),
  length-append dir (other ∷ []),
)

pub block_name_injective : (i j : ℕ) → block_name i ≡ block_name j → i ≡ j
block_name_injective i j e = to_string_injective i j (append_cancel_left (text "block_") _ _ e)

pub block_parity_file_injective : (i j : ℕ) → block_parity_file i ≡ block_parity_file j → i ≡ j
block_parity_file_injective i j e =
    let tails : to_string i ++ text ".dat" ≡ to_string j ++ text ".dat" =
      append_cancel_left (text "block_parity_") _ _ e in
    to_string_injective i j (append_cancel_right (to_string i) (to_string j) (text ".dat") tails)

-- A file two directories below another has a path that says which they are.
pub nested_path_injective :
    (dir : PathBuf) (a b p q n m : Text)
    → join (join (join dir a) p) n ≡ join (join (join dir b) q) m
    → (a ≡ b) × (p ≡ q) × (n ≡ m)
nested_path_injective [] a b p q n m e = (cc, cc, cc)
nested_path_injective (name ∷ dir) a b p q n m e =
    let rest : join (join (join dir a) p) n ≡ join (join (join dir b) q) m = cc in
    nested_path_injective dir a b p q n m rest

pub deepest_ne :
    (dir : PathBuf) (top a p n other : Text)
    → join (join (join (join dir top) a) p) n ≢ join dir other
deepest_ne dir top a p n other e = omega (
  arith,
  ap length e,
  length-append (join (join (join dir top) a) p) (n ∷ []),
  length-append (join (join dir top) a) (p ∷ []),
  length-append (join dir top) (a ∷ []),
  length-append dir (top ∷ []),
  length-append dir (other ∷ []),
)
