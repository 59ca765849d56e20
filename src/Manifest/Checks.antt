-- ===== src/Manifest/Checks.antt =====
-- What `validate` and `verify_against_chunks` establish.
use mathlib.Core.Option.{some-injective}
use blockframe_rs.Base.{
  ℕ, suc, ◌+◌, ◌^◌, ◌≤◌, ◌<◌, ◌≡◌, refl, ap, ◌∙◌, sym, ◌↔◌, ◌≢◌, ◌⊎◌, inl, inr, Bool, true, false,
  ◌&&◌, ◌||◌, some, List, [], ◌∷◌, Text, Bytes, text_eq_iff, length, all, All, ℤ, pos, negsuc,
  int_eq, int_eq_iff, int_le, to_u64, to_i32, HashMap, keys, values, lookup, i32_key, ◌==◌, arith,
  Bool-cases, Option-cases, &&_iff, ==_iff,
}
use blockframe_rs.Utils.{Hasher, blake3_hash_bytes}
use blockframe_rs.Merkle.{MerkleTree, new, get_root}
use blockframe_rs.Manifest.{
  ManifestFile, is_valid_hash, is_empty, insert_sorted, sort, is_counting_from, validate,
  leaves_match, verify_against_chunks,
}

abbrev elem : ℤ → List ℤ → Bool
elem k [] = false
elem k (x ∷ xs) = int_eq k x || elem k xs

elem-insert_sorted :
    (k x : ℤ) (ys : List ℤ) → elem k (insert_sorted x ys) ≡ (int_eq k x || elem k ys)
unfolding insert_sorted
elem-insert_sorted k x [] = refl
elem-insert_sorted k x (y ∷ ys) = ground (arith, elem-insert_sorted k x ys)

elem-sort : (k : ℤ) (xs : List ℤ) → elem k (sort xs) ≡ elem k xs
unfolding sort
elem-sort k [] = refl
elem-sort k (x ∷ xs) = rw (elem-insert_sorted k x (sort xs), elem-sort k xs)

length-insert_sorted : (x : ℤ) (ys : List ℤ) → length (insert_sorted x ys) ≡ suc (length ys)
unfolding insert_sorted
length-insert_sorted x [] = refl
length-insert_sorted x (y ∷ ys) = ground (arith, length-insert_sorted x ys)

length-sort : (xs : List ℤ) → length (sort xs) ≡ length xs
unfolding sort
length-sort [] = refl
length-sort (x ∷ xs) = omega (arith, length-insert_sorted x (sort xs), length-sort xs)

-- The range of an `i32`.
abbrev pub IsI32 : ℤ → Type 0
IsI32 (pos n) = n < 2 ^ 31
IsI32 (negsuc n) = n < 2 ^ 31

All-insert_sorted : (x : ℤ) (ys : List ℤ) → IsI32 x → All IsI32 ys → All IsI32 (insert_sorted x ys)
unfolding insert_sorted
All-insert_sorted x [] h hs = (h, tt)
All-insert_sorted x (y ∷ ys) h (h', hs) = elim (Bool-cases (int_le x y)) [
  | inl e ↦ rw e (h, (h', hs))
  | inr e ↦ rw e (h', All-insert_sorted x ys h hs)
]

All-sort : (xs : List ℤ) → All IsI32 xs → All IsI32 (sort xs)
unfolding sort
All-sort [] hs = tt
All-sort (x ∷ xs) (h, hs) = All-insert_sorted x (sort xs) h (All-sort xs hs)

-- An index that a cast takes to a number of the size of a list is that number.
pos_of_to_u64 : (a : ℤ) (e : ℕ) → IsI32 a → e < 2 ^ 63 → e ≡ to_u64 a → a ≡ pos e
pos_of_to_u64 a e r l h = ground arith

elem-counting :
    (e i : ℕ) (xs : List ℤ)
    → All IsI32 xs
    → e + length xs < 2 ^ 63
    → is_counting_from e xs ≡ true
    → e ≤ i
    → i < e + length xs
    → elem (pos i) xs ≡ true
unfolding is_counting_from
elem-counting e i [] a l c low high = absurd (omega arith)
elem-counting e i (x ∷ xs) (r, a) l c low high =
    let (here, rest) = (&&_iff (e == to_u64 x) (is_counting_from (e + 1) xs)).0 c in
    let x_eq = pos_of_to_u64 x e r (omega arith) ((==_iff e (to_u64 x)).0 here) in
    elim (Bool-cases (e == i)) [
      | inl same ↦ ground (arith, x_eq, int_eq_iff (pos i) x)
      | inr other ↦
          let above =
            elem-counting (e + 1) i xs a (omega arith) rest (ground arith) (omega arith) in
          ground (arith, above)
    ]

lookup-elem :
    (k : ℤ) (m : HashMap ℤ Text) → elem k (keys m) ≡ true → (v : Text) × (lookup k m ≡ some v)
unfolding lookup
lookup-elem k [] h = absurd (cc)
lookup-elem k ((j, v) ∷ m) h = elim (Bool-cases (int_eq k j)) [
  | inl here ↦ (v, ground arith)
  | inr past ↦ let (w, found) = lookup-elem k m (ground arith) in (w, ground arith)
]

all-values :
    (p : Text → Bool) (k : ℤ) (v : Text) (m : HashMap ℤ Text)
    → all p (values m) ≡ true
    → lookup k m ≡ some v
    → p v ≡ true
unfolding lookup
all-values p k v [] a h = absurd (cc)
all-values p k v ((j, w) ∷ m) a h = ground (arith, all-values p k v m)

length-keys : {K V : Type 0} (m : HashMap K V) → length (keys m) ≡ length m
length-keys [] = refl
length-keys ((k, v) ∷ m) = ap suc (length-keys m)

validate_parts :
    (m : ManifestFile)
    → validate m ≡ true
    → (is_valid_hash m.merkle_tree.root ≡ true)
      × ((is_empty m.merkle_tree.leaves
            && is_empty m.merkle_tree.segments
            && is_empty m.merkle_tree.blocks)
          ≡ false)
      × (all is_valid_hash (values m.merkle_tree.leaves) ≡ true)
      × (is_counting_from 0 (sort (keys m.merkle_tree.leaves)) ≡ true)
unfolding validate
validate_parts m v = ground arith

ne-nil {ℓ} : {A : Type ℓ} (xs : List A) → is_empty xs ≡ false → xs ≢ []
ne-nil [] h = cc
ne-nil (x ∷ xs) h = λ e. cc

content_of_tests :
    (m : ManifestFile)
    → (is_empty m.merkle_tree.leaves
        && is_empty m.merkle_tree.segments
        && is_empty m.merkle_tree.blocks)
      ≡ false
    → (m.merkle_tree.leaves ≢ []) ⊎ (m.merkle_tree.segments ≢ []) ⊎ (m.merkle_tree.blocks ≢ [])
content_of_tests m h = elim (Bool-cases (is_empty m.merkle_tree.leaves)) [
  | inr e ↦ inl (ne-nil _ e)
  | inl e ↦ elim (Bool-cases (is_empty m.merkle_tree.segments)) [
    | inr f ↦ inr (inl (ne-nil _ f))
    | inl f ↦ inr (inr (ne-nil _ (ground arith)))
  ]
]

-- A manifest that `validate` accepts, with leaf indices in the range of their type: its root is a
-- hash, it lists a leaf, a segment or a block, and each index below the number of leaves has a
-- leaf, which is a hash.
pub validate_sound :
    (m : ManifestFile)
    → All IsI32 (keys m.merkle_tree.leaves)
    → length m.merkle_tree.leaves < 2 ^ 63
    → validate m ≡ true
    → (is_valid_hash m.merkle_tree.root ≡ true)
      × ((m.merkle_tree.leaves ≢ []) ⊎ (m.merkle_tree.segments ≢ []) ⊎ (m.merkle_tree.blocks ≢ []))
      × ((i : ℕ)
          → i < length m.merkle_tree.leaves
          → (hash : Text) × (lookup (pos i) m.merkle_tree.leaves ≡ some hash)
            × (is_valid_hash hash ≡ true))
validate_sound m r l v =
    let (root, content, hashes, counted) = validate_parts m v in
    let indices = keys m.merkle_tree.leaves in
    let size : length (sort indices) ≡ length m.merkle_tree.leaves =
      length-sort indices ∙ length-keys m.merkle_tree.leaves in
    (
      root,
      content_of_tests m content,
      λ i below.
          let there : elem (pos i) indices ≡ true =
            sym (elem-sort (pos i) indices)
            ∙ elem-counting 0 i (sort indices) (All-sort indices r) (omega arith) counted
                (omega arith) (omega arith) in
          let (hash, found) = lookup-elem (pos i) m.merkle_tree.leaves there in
          (hash, found, all-values is_valid_hash (pos i) hash m.merkle_tree.leaves hashes found),
    )

module _ (H : Hasher) where
  -- Every chunk, from the index `i` on, has its hash in the map.
  abbrev pub Agree : HashMap ℤ Text → ℕ → List Bytes → Type 0
  Agree leaves i [] = Unit
  Agree leaves i (chunk ∷ chunks) =
      (lookup (to_i32 i) leaves ≡ some (blake3_hash_bytes H chunk)) × Agree leaves (i + 1) chunks

  leaves_match_iff :
      (leaves : HashMap ℤ Text) (i : ℕ) (chunks : List Bytes)
      → (leaves_match H leaves i chunks ≡ true) ↔ Agree leaves i chunks
  unfolding leaves_match
  leaves_match_iff leaves i [] = (λ _. tt, λ _. refl)
  leaves_match_iff leaves i (chunk ∷ chunks) =
      let (ih, ih') = leaves_match_iff leaves (i + 1) chunks in
      elim (Option-cases (lookup (to_i32 i) leaves)) [
        | inl e ↦ (λ h. ground arith, λ (h, _). cc)
        | inr (hash, e) ↦ (
          λ h. (ground (arith, text_eq_iff (blake3_hash_bytes H chunk) hash), ih (ground arith)),
          λ (h, rest). ground (arith, text_eq_iff (blake3_hash_bytes H chunk) hash, ih' rest, h),
        )
      ]

  -- `verify_against_chunks` accepts exactly those chunks, as many as the manifest has leaves, of
  -- which each has the leaf at its index for a hash, and whose tree has the manifest's root.
  pub verify_against_chunks_iff :
      (m : ManifestFile) (chunks : List Bytes)
      → (verify_against_chunks H m chunks ≡ some true) ↔ (
          (length chunks ≡ length m.merkle_tree.leaves)
          × Agree m.merkle_tree.leaves 0 chunks
          × ((tree : MerkleTree) × (new H chunks ≡ some tree)
              × (get_root tree ≡ m.merkle_tree.root)))
  unfolding verify_against_chunks
  verify_against_chunks_iff m chunks =
      let (matched, agree) = leaves_match_iff m.merkle_tree.leaves 0 chunks in
      elim (Option-cases (new H chunks)) [
        | inl e ↦ (λ h. ground arith, λ (l, a, (other, made, root)). cc)
        | inr (tree, e) ↦
            let (same, same') = text_eq_iff (get_root tree) m.merkle_tree.root in
            (
              λ h. (ground arith, matched (ground arith), (tree, e, same (ground arith))),
              λ (l, a, (other, made, root)). ground (
                arith,
                agree a,
                same' (ap get_root (some-injective tree other (sym e ∙ made)) ∙ root),
              ),
            )
      ]
