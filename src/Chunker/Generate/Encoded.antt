-- ===== src/Chunker/Generate/Encoded.antt =====
-- `generate_parity` of src/chunker/generate.rs.
use blockframe_rs.Base.{
  ℕ, ◌%◌, ◌≤◌, ◌<◌, ◌≡◌, refl, ap, ◌∙◌, sym, inl, inr, some, false, List, [], ◌∷◌, map, Bytes, ok,
  is_ok, ◌>>=◌, >>=-eq-ok, Result-cases, length, length-map, All, resize, arith,
}
use blockframe_rs.ReedSolomon.{ReedSolomon, IsEncoding, RefusesOdd, add_original_shards}
use blockframe_rs.Chunker.Generate.{max_len, add_all, generate_parity}
use blockframe_rs.Chunker.Generate.Laws.{length-resize}

module _ (R : ReedSolomon) where
  add_all-eq :
      (e : R.Encoder) (shards : List Bytes) → add_all R e shards ≡ add_original_shards R e shards
  unfolding add_all
  add_all-eq e [] = refl
  add_all-eq e (shard ∷ shards) = elim (Result-cases (R.add_original e shard)) [
    | inl (e', added) ↦ rw added (add_all-eq e' shards)
    | inr (x, failed) ↦ rw failed refl
  ]

  All-resize :
      (n : ℕ) (segments : List Bytes)
      → All (λ s. length s ≡ n) (map (λ chunk. resize chunk n) segments)
  All-resize n [] = tt
  All-resize n (s ∷ segments) = (length-resize s n, All-resize n segments)

  -- The calls of the encoder, for segments whose longest has a known size.
  generate_parity_eq :
      (segments : List Bytes) (n k : ℕ)
      → max_len segments ≡ some n
      → generate_parity R segments k 3 ≡ (
          R.encoder_new k 3 n >>= λ e.
          add_all R e (map (λ chunk. resize chunk n) segments) >>= R.encode)
  unfolding generate_parity
  generate_parity_eq segments n k longest = rw (generate_parity, longest) refl

  -- The parity shards that the calls of the encoder give come back.
  pub generate_parity_runs :
      (segments : List Bytes) (n k : ℕ) (parity : List Bytes) (e e' : R.Encoder)
      → max_len segments ≡ some n
      → R.encoder_new k 3 n ≡ ok e
      → add_original_shards R e (map (λ chunk. resize chunk n) segments) ≡ ok e'
      → R.encode e' ≡ ok parity
      → generate_parity R segments k 3 ≡ ok parity
  generate_parity_runs segments n k parity e e' longest made added encoded =
      let added' = add_all-eq e (map (λ chunk. resize chunk n) segments) ∙ added in
      generate_parity_eq segments n k longest ∙ rw (made, added', encoded) refl

  -- The calls behind parity shards that came back.
  pub generate_parity_calls :
      (segments : List Bytes) (n k : ℕ) (parity : List Bytes)
      → max_len segments ≡ some n
      → generate_parity R segments k 3 ≡ ok parity
      → (e e' : R.Encoder) × (R.encoder_new k 3 n ≡ ok e)
        × (add_original_shards R e (map (λ chunk. resize chunk n) segments) ≡ ok e')
        × (R.encode e' ≡ ok parity)
  generate_parity_calls segments n k parity longest h =
      let chunks = map (λ chunk. resize chunk n) segments in
      let run = sym (generate_parity_eq segments n k longest) ∙ h in
      let (e, made, rest) =
        >>=-eq-ok (R.encoder_new k 3 n) (λ e. add_all R e chunks >>= R.encode) run in
      let (e', added, encoded) = >>=-eq-ok (add_all R e chunks) R.encode rest in
      (e, e', made, sym (add_all-eq e chunks) ∙ added, encoded)

  -- For up to 30 segments, the longest of a positive even size, three shards come back.
  pub generate_parity_total :
      IsEncoding R
      → (segments : List Bytes) (n : ℕ) → max_len segments ≡ some n
      → 0 < length segments
      → length segments ≤ 30
      → 0 < n
      → n % 2 ≡ 0
      → (p q r : Bytes) × (generate_parity R segments (length segments) 3 ≡ ok (p ∷ q ∷ r ∷ []))
  generate_parity_total L segments n longest some_left few positive even =
      let chunks = map (λ chunk. resize chunk n) segments in
      let same = length-map (λ chunk. resize chunk n) segments in
      let (e, e', p, q, r, made, added, encoded, _, _, _) =
        L.encodes chunks n (omega (arith, same)) (omega (arith, same)) (All-resize n segments)
          positive even in
      let made' : R.encoder_new (length segments) 3 n ≡ ok e =
        ap (λ k. R.encoder_new k 3 n) (sym same) ∙ made in
      (
        p,
        q,
        r,
        generate_parity_runs segments n (length segments) (p ∷ q ∷ r ∷ []) e e' longest made' added
            encoded,
      )

  -- Where the longest segment has an odd size, the encoder refuses.
  pub generate_parity_refuses :
      RefusesOdd R
      → (segments : List Bytes) (n k : ℕ) → max_len segments ≡ some n
      → n % 2 ≡ 1
      → is_ok (generate_parity R segments k 3) ≡ false
  generate_parity_refuses L segments n k longest odd = elim (Result-cases (R.encoder_new k 3 n)) [
    | inl (e, made) ↦ let refused = L.refuses k 3 n odd in absurd (ground arith)
    | inr (x, failed) ↦ ap is_ok (generate_parity_eq segments n k longest) ∙ rw failed refl
  ]
