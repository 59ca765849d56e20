-- ===== src/Filestore/Recovery/Blocks.antt =====
-- `recover_segment_rs30_3` of src/filestore/recovery.rs on what `generate_parity` made.
use blockframe_rs.Base.{
  ℕ, zero, suc, ◌+◌, ◌≤◌, ◌<◌, ◌≡◌, refl, ap, ◌∙◌, sym, inl, inr, Option, none, some, List, [], ◌∷◌,
  map, Bytes, ok, >>=-eq-ok, Result-cases, length, get_elem?, All, resize, max, arith,
}
use blockframe_rs.ReedSolomon.{
  ReedSolomon, IsRestoring, AreSlotsOf, absent, add_slots, add_original_shards, add_recovery_shards,
}
use blockframe_rs.Chunker.Generate.{max_len, generate_parity}
use blockframe_rs.Chunker.Generate.Laws.{resize_self}
use blockframe_rs.Chunker.Generate.Encoded.{generate_parity_calls}
use blockframe_rs.Filestore.Recovery.{
  recover_segment_rs30_3, count_missing, first_size, add_valid, decode_block,
}

max_len-same :
    (s : Bytes) (segments : List Bytes) (size : ℕ)
    → All (λ s. length s ≡ size) (s ∷ segments)
    → max_len (s ∷ segments) ≡ some size
unfolding max_len
max_len-same s [] size (here, _) = ap some here
max_len-same s (t ∷ segments) size (here, rest) =
    let below = max_len-same t segments size rest in
    let larger : max (length s) size ≡ size = omega (arith, here) in rw (below, larger) refl

max_len-whole :
    (segments : List Bytes) (size : ℕ)
    → 0 < length segments
    → All (λ s. length s ≡ size) segments
    → max_len segments ≡ some size
max_len-whole [] size h all = absurd (omega (arith, h))
max_len-whole (s ∷ segments) size h all = max_len-same s segments size all

get_elem?-bound :
    {A : Type 0} (xs : List A) (i : ℕ) (a : A) → get_elem? xs i ≡ some a → i < length xs
get_elem?-bound [] i a h = absurd (cc)
get_elem?-bound (x ∷ xs) zero a h = omega arith
get_elem?-bound (x ∷ xs) (suc i) a h = omega (arith, get_elem?-bound xs i a h)

map-resize :
    (segments : List Bytes) (size : ℕ)
    → All (λ s. length s ≡ size) segments
    → map (λ chunk. resize chunk size) segments ≡ segments
map-resize [] size all = refl
map-resize (s ∷ segments) size (here, rest) =
    let first = resize_self s size (omega (arith, here)) in
    let below = map-resize segments size rest in rw (first, below) refl

module _ (R : ReedSolomon) where
  absent-count_missing : (slots : List (Option Bytes)) → absent R slots ≡ count_missing slots
  unfolding count_missing
  absent-count_missing [] = refl
  absent-count_missing (none ∷ slots) = omega (arith, absent-count_missing slots)
  absent-count_missing (some s ∷ slots) = absent-count_missing slots

  length-slots :
      (shards : List Bytes) (slots : List (Option Bytes))
      → AreSlotsOf R shards slots
      → length slots ≡ length shards
  length-slots [] [] a = refl
  length-slots [] (slot ∷ slots) a = elim a [ ]
  length-slots (s ∷ shards) [] a = elim a [ ]
  length-slots (s ∷ shards) (none ∷ slots) a = ap suc (length-slots shards slots a)
  length-slots (s ∷ shards) (some t ∷ slots) (_, a) = ap suc (length-slots shards slots a)

  -- Where some shard is left, the first one that is left gives the size.
  first_size-slots :
      (shards : List Bytes) (slots : List (Option Bytes)) (size : ℕ)
      → All (λ s. length s ≡ size) shards
      → AreSlotsOf R shards slots
      → count_missing slots < length slots
      → first_size slots ≡ some size
  unfolding first_size count_missing
  first_size-slots [] [] size all a h = absurd (omega (arith, h))
  first_size-slots [] (slot ∷ slots) size all a h = elim a [ ]
  first_size-slots (s ∷ shards) [] size all a h = elim a [ ]
  first_size-slots (s ∷ shards) (none ∷ slots) size (_, all) a h =
      first_size-slots shards slots size all a (omega (arith, h))
  first_size-slots (s ∷ shards) (some t ∷ slots) size (here, all) (same, a) h =
      ap some (ap length same ∙ here)

  add_valid-eq :
      (d : R.Decoder) (i : ℕ) (slots : List (Option Bytes))
      → add_valid R d i slots ≡ add_slots R d i slots
  unfolding add_valid
  add_valid-eq d i [] = refl
  add_valid-eq d i (none ∷ slots) = add_valid-eq d (i + 1) slots
  add_valid-eq d i (some t ∷ slots) = elim (Result-cases (R.add_original_shard d i t)) [
    | inl (d', added) ↦ rw added (add_valid-eq d' (i + 1) slots)
    | inr (x, failed) ↦ rw failed refl
  ]

  -- The decoder, once it restores the target.
  decode_restored :
      (slots : List (Option Bytes)) (p q r shard : Bytes) (target size : ℕ) (d d' d'' : R.Decoder)
      (restored : R.Restored)
      → R.decoder_new 30 3 size ≡ ok d
      → add_slots R d 0 slots ≡ ok d'
      → add_recovery_shards R d' ((0, p) ∷ (1, q) ∷ (2, r) ∷ []) ≡ ok d''
      → R.decode d'' ≡ ok restored
      → R.restored_original restored target ≡ some shard
      → decode_block R slots (p ∷ q ∷ r ∷ []) target size ≡ ok shard
  unfolding decode_block
  decode_restored slots p q r shard target size d d' d'' restored made added more decoded there =
      let added' = add_valid-eq d 0 slots ∙ added in
      let (d₀, first, h₀) = >>=-eq-ok (R.add_recovery_shard d' 0 p) _ more in
      let (d₁, second, h₁) = >>=-eq-ok (R.add_recovery_shard d₀ 1 q) _ h₀ in
      let (d₂, third, h₂) = >>=-eq-ok (R.add_recovery_shard d₁ 2 r) _ h₁ in
      let same : R.decode d₂ ≡ ok restored = cc in
      rw (made, added', first, second, third, same, there) refl

  -- Past the checks, the decoder runs with the size of the first segment that is left.
  recover_decodes :
      (slots : List (Option Bytes)) (p q r shard : Bytes) (target size : ℕ)
      → length slots ≡ 30
      → target < 30
      → count_missing slots ≤ 3
      → first_size slots ≡ some size
      → decode_block R slots (p ∷ q ∷ r ∷ []) target size ≡ ok shard
      → recover_segment_rs30_3 R slots (p ∷ q ∷ r ∷ []) target ≡ ok shard
  unfolding recover_segment_rs30_3
  recover_decodes slots p q r shard target size thirty inside few sized decodes = ground arith

  -- Of a block of 30 segments of one size, any one that is missing comes back from the others
  -- and the parity shards that `generate_parity` made of the block, if at most three are missing.
  pub recover_segment_rs30_3-generate_parity :
      IsRestoring R
      → (segments : List Bytes) (slots : List (Option Bytes)) (size target : ℕ)
        (segment p q r : Bytes)
      → length segments ≡ 30
      → All (λ s. length s ≡ size) segments
      → generate_parity R segments 30 3 ≡ ok (p ∷ q ∷ r ∷ [])
      → AreSlotsOf R segments slots
      → count_missing slots ≤ 3
      → get_elem? slots target ≡ some none
      → get_elem? segments target ≡ some segment
      → recover_segment_rs30_3 R slots (p ∷ q ∷ r ∷ []) target ≡ ok segment
  recover_segment_rs30_3-generate_parity L segments slots size target segment p q r whole alike
        generated left few gone there =
      let longest = max_len-whole segments size (omega (arith, whole)) alike in
      let (e, e', made, added, encoded) =
        generate_parity_calls R segments size 30 (p ∷ q ∷ r ∷ []) longest generated in
      let added' : add_original_shards R e segments ≡ ok e' =
        ap (add_original_shards R e) (sym (map-resize segments size alike)) ∙ added in
      let counted = absent-count_missing slots in
      let (d, d', d'', restored, made_d, some_added, all_added, decoded, restores) =
        L.restores segments slots size e e' p q r whole alike made added' encoded left
          (omega (arith, counted)) in
      let thirty : length slots ≡ 30 = length-slots segments slots left ∙ whole in
      let sized = first_size-slots segments slots size alike left (omega (arith, thirty)) in
      let inside = get_elem?-bound segments target segment there in
      recover_decodes slots p q r segment target size thirty (omega (arith, inside)) few sized (
        decode_restored slots p q r segment target size d d' d'' restored made_d some_added
          all_added decoded (restores target segment gone there))
