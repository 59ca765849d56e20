-- ===== src/Merkle/Binding.antt =====
-- Two accepted openings of one position under one root hold the same chunk, or they exhibit two
-- inputs with the same digest.
use mathlib.Core.List.{Mem, mem-cons_self, mem-cons_of_mem}
use blockframe_rs.Base.{
  ℕ, ◌+◌, ◌/◌, ◌%◌, ◌≡◌, refl, ap, ◌∙◌, sym, ◌≢◌, ◌⊎◌, inl, inr, List, [], ◌∷◌, ◌++◌, true, length,
  length-append, arith, Text, Bytes, Bool-cases, text_eq, eq_of_text_eq, ne_of_text_eq,
  append-cancel, ◌==◌, if◌then◌else◌,
}
use blockframe_rs.Utils.{Hasher, IsHexDigest, blake3_hash_bytes}
use blockframe_rs.Merkle.{combine, climb, verify_proof}

module _ (H : Hasher) where
  -- Two different inputs with one digest, the first out of one list, the second out of another.
  pub record Clash (xs ys : List Bytes) : Type 0 where
    pub first : Bytes
    pub second : Bytes
    pub first_in : Mem first xs
    pub second_in : Mem second ys
    pub differ : first ≢ second
    pub collide : blake3_hash_bytes H first ≡ blake3_hash_bytes H second

  -- Equal digests come from equal inputs, or the inputs clash.
  hash_inverse :
      (a b : Bytes) (xs ys : List Bytes)
      → blake3_hash_bytes H a ≡ blake3_hash_bytes H b
      → (a ≡ b) ⊎ Clash (a ∷ xs) (b ∷ ys)
  hash_inverse a b xs ys e = elim (Bool-cases (text_eq a b)) [
    | inl same ↦ inl (eq_of_text_eq a b same)
    | inr other ↦ inr (record {
      first = a;
      second = b;
      first_in = mem-cons_self;
      second_in = mem-cons_self;
      differ = ne_of_text_eq a b other;
      collide = e;
    })
  ]

  later : (a b : Bytes) (xs ys : List Bytes) → Clash xs ys → Clash (a ∷ xs) (b ∷ ys)
  later a b xs ys c = record {
    first = c.first;
    second = c.second;
    first_in = mem-cons_of_mem a c.first_in;
    second_in = mem-cons_of_mem b c.second_in;
    differ = c.differ;
    collide = c.collide;
  }

  -- What the loop of `verify_proof` hashes.
  unfoldable pub climbed : Text → ℕ → List Text → List Bytes
  climbed current index [] = []
  climbed current index (sibling ∷ proof) =
      let pair = if index % 2 == 0 then current ++ sibling else sibling ++ current in
      pair ∷ climbed (blake3_hash_bytes H pair) (index / 2) proof

  -- What a run of `verify_proof` hashes.
  abbrev pub hashed : Bytes → ℕ → List Text → List Bytes
  hashed chunk index proof = chunk ∷ climbed (blake3_hash_bytes H chunk) index proof

module _ (H : Hasher) (L : IsHexDigest H) where
  length-hash : (a : Bytes) → length (blake3_hash_bytes H a) ≡ 64
  unfolding blake3_hash_bytes
  length-hash a = L.length-finalize (H.update H.init a)

  -- One step up, on either side, determines the two texts below it.
  combine_inverse :
      (a b s t : Text) (xs ys : List Bytes)
      → length a ≡ length b
      → blake3_hash_bytes H (a ++ s) ≡ blake3_hash_bytes H (b ++ t)
      → ((a ≡ b) × (s ≡ t)) ⊎ Clash H ((a ++ s) ∷ xs) ((b ++ t) ∷ ys)
  combine_inverse a b s t xs ys l e = elim (hash_inverse H (a ++ s) (b ++ t) xs ys e) [
    | inl p ↦ inl (append-cancel a b s t l p)
    | inr c ↦ inr c
  ]

  combine_inverse_right :
      (a b s t : Text) (xs ys : List Bytes)
      → length a ≡ length b
      → blake3_hash_bytes H (s ++ a) ≡ blake3_hash_bytes H (t ++ b)
      → ((a ≡ b) × (s ≡ t)) ⊎ Clash H ((s ++ a) ∷ xs) ((t ++ b) ∷ ys)
  combine_inverse_right a b s t xs ys l e = elim (hash_inverse H (s ++ a) (t ++ b) xs ys e) [
    | inl p ↦
        let totals : length s + length a ≡ length t + length b =
          sym (length-append s a) ∙ ap length p ∙ length-append t b in
        let (same, rest) = append-cancel s t a b (omega arith) p in inl (rest, same)
    | inr c ↦ inr c
  ]

  -- From equal texts and proofs above a step to equal ones below it.
  joined :
      (a b s t x y : Text) (p q : List Text) (xs ys : List Bytes)
      → (blake3_hash_bytes H x ≡ blake3_hash_bytes H y
          → ((a ≡ b) × (s ≡ t)) ⊎ Clash H (x ∷ xs) (y ∷ ys))
      → ((blake3_hash_bytes H x ≡ blake3_hash_bytes H y) × (p ≡ q)) ⊎ Clash H xs ys
      → ((a ≡ b) × ((s ∷ p) ≡ (t ∷ q))) ⊎ Clash H (x ∷ xs) (y ∷ ys)
  joined a b s t x y p q xs ys below (inr c) = inr (later H x y xs ys c)
  joined a b s t x y p q xs ys below (inl (up, rest)) = elim (below up) [
    | inl (here, side) ↦ inl (here, cc)
    | inr c ↦ inr c
  ]

  climb_inverse :
      (a b : Text) (index : ℕ) (p q : List Text)
      → length a ≡ 64
      → length b ≡ 64
      → length p ≡ length q
      → climb H a index p ≡ climb H b index q
      → ((a ≡ b) × (p ≡ q)) ⊎ Clash H (climbed H a index p) (climbed H b index q)
  unfolding climb combine climbed
  climb_inverse a b index [] [] la lb l e = inl (e, refl)
  climb_inverse a b index [] (t ∷ q) la lb l e = absurd (omega arith)
  climb_inverse a b index (s ∷ p) [] la lb l e = absurd (omega arith)
  climb_inverse a b index (s ∷ p) (t ∷ q) la lb l e = elim (Bool-cases (index % 2 == 0)) [
    | inl even ↦
        let up = blake3_hash_bytes H (a ++ s) in
        let up' = blake3_hash_bytes H (b ++ t) in
        let e' : climb H up (index / 2) p ≡ climb H up' (index / 2) q = rw even at e in
        let above =
          climb_inverse up up' (index / 2) p q (length-hash (a ++ s)) (length-hash (b ++ t))
            (omega arith) e' in
        rw even (
          joined a b s t (a ++ s) (b ++ t) p q _ _ (combine_inverse a b s t _ _ (omega arith))
            above)
    | inr odd ↦
        let up = blake3_hash_bytes H (s ++ a) in
        let up' = blake3_hash_bytes H (t ++ b) in
        let e' : climb H up (index / 2) p ≡ climb H up' (index / 2) q = rw odd at e in
        let above =
          climb_inverse up up' (index / 2) p q (length-hash (s ++ a)) (length-hash (t ++ b))
            (omega arith) e' in
        rw odd (
          joined a b s t (s ++ a) (t ++ b) p q _ _ (combine_inverse_right a b s t _ _ (omega arith))
            above)
  ]

  -- Two chunks that are accepted at one index under one root, with proofs of one length, are the
  -- same chunk with the same proof, or two different inputs that the two runs hash have one digest.
  pub verify_proof_binding :
      (chunk other : Bytes) (index : ℕ) (proof another : List Text) (root : Text)
      → length proof ≡ length another
      → verify_proof H chunk index proof root ≡ true
      → verify_proof H other index another root ≡ true
      → ((chunk ≡ other) × (proof ≡ another))
        ⊎ Clash H (hashed H chunk index proof) (hashed H other index another)
  unfolding verify_proof
  verify_proof_binding chunk other index proof another root l v w =
      let up = eq_of_text_eq (climb H (blake3_hash_bytes H chunk) index proof) root v in
      let up' = eq_of_text_eq (climb H (blake3_hash_bytes H other) index another) root w in
      elim (climb_inverse _ _ index proof another (length-hash chunk) (length-hash other) l
        (up ∙ sym up')) [
          | inr c ↦ inr (later H chunk other _ _ c)
          | inl (hashes, proofs) ↦ elim (hash_inverse H chunk other _ _ hashes) [
            | inl same ↦ inl (same, proofs)
            | inr c ↦ inr c
          ]
        ]
