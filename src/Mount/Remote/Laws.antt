-- ===== src/Mount/Remote/Laws.antt =====
-- `RemoteSource` of src/mount/source.rs over the handlers of src/serve/routes.rs.
use blockframe_rs.Base.{
  ℕ, ◌≡◌, ◌↔◌, inl, inr, refl, ap, ◌∙◌, sym, subst, false, Option, none, some, [], ◌∷◌, ◌++◌, Text,
  Bytes, text, Result, ok, err, external, is_ok, Result-cases, Bool-cases, text_eq,
}
use blockframe_rs.Base.Decimal.{to_string}
use blockframe_rs.Base.Exec.{proceed-fails, proceed-failed}
use blockframe_rs.Utils.{Hasher, blake3_hash_bytes}
use blockframe_rs.ReedSolomon.{ReedSolomon}
use blockframe_rs.Manifest.{ManifestFile}
use blockframe_rs.Disk.{PathBuf, FileSystem}
use blockframe_rs.Chunker.Io.{Serde}
use blockframe_rs.Filestore.Models.{File}
use blockframe_rs.Filestore.Index.{find, get_data_path, get_segment_path, get_block_segment_path}
use blockframe_rs.Serve.{
  Response, replied, refused, or_status, get_data, get_segment, get_block_segment, get_parity,
  send_parity,
}
use blockframe_rs.Mount.Hashes.{IsTier, recovery_hash}
use blockframe_rs.Mount.Local.{local_source, read_at}
use blockframe_rs.Mount.Recover.{recover_segment, accept_recovered, expected_size}
use blockframe_rs.Filestore.Recovery.{recover_segment_rs13}
use blockframe_rs.Mount.Remote.{
  Agent, file_url, segment_url, block_segment_url, parity_url, write_url, remote_source,
}

-- What the client makes of a reply: a status of 400 or more is an error.
abbrev pub answer : {A : Type 0} → Response A → Result A
answer (replied a) = ok a
answer (refused status t) = err (external (text "http status: " ++ to_string status))

module _ (F : FileSystem) (J : Serde) (store : PathBuf) (base_url : Text) (A : Agent F.World) where
  -- Documented behaviour of the client and of the server's router, for the name of a file that
  -- stands for itself in a URL: a request comes to the handler of its path, with the parameters
  -- that the URL gives, and the handler's reply comes back.
  pub record IsRouted (f : Text) : Type 0 where
    pub data_routed :
        (w : F.World) → A.read_to_vec (file_url base_url f) w ≡ (answer (get_data F J store w f), w)
    pub segment_routed :
        (k : ℕ) (w : F.World)
        → A.read_to_vec (segment_url base_url f k) w ≡ (answer (get_segment F J store w f k), w)
    pub block_segment_routed :
        (b k : ℕ) (w : F.World)
        → A.read_to_vec (block_segment_url base_url f b k) w
          ≡ (answer (get_block_segment F J store w f b k), w)
    pub parity_routed :
        (k i : ℕ) (b : Option ℕ) (w : F.World)
        → A.read_to_vec (parity_url base_url f k i b) w
          ≡ (answer (get_parity F J store w f b (some k) (some i)), w)
    pub write_routed :
        (k b : ℕ) (w : F.World)
        → A.read_to_vec (write_url base_url f k (some b)) w
          ≡ (answer (get_parity F J store w f (some b) (some k) none), w)

  -- A reading through a handler gives what a reading of the store gives, where that gives a value.
  answer-read_at :
      (f : Text) (w : F.World) (path : File → Result PathBuf) (status : ℕ) (bytes : Bytes)
      → (answer (
            or_status
              (find F J w store f)
              404
              (λ file. or_status (path file) status (λ p. or_status (F.read w p) 404 replied)))
          ≡ ok bytes)
        ↔ (read_at F J store path f w ≡ ok bytes)
  unfolding read_at
  answer-read_at f w path status bytes = elim (Result-cases (find F J w store f)) [
    | inr (e, h) ↦ rw h ((λ p. absurd (cc)), (λ p. absurd (cc)))
    | inl (file, h) ↦ elim (Result-cases (path file)) [
      | inr (e, h') ↦ rw (h, h') ((λ p. absurd (cc)), (λ p. absurd (cc)))
      | inl (p, h') ↦ elim (Result-cases (F.read w p)) [
        | inr (e, h'') ↦ rw (h, h', h'') ((λ p. absurd (cc)), (λ p. absurd (cc)))
        | inl (b, h'') ↦ rw (h, h', h'') ((λ p. p), (λ p. p))
      ]
    ]
  ]

  module _ (f : Text) (I : IsRouted f) (w : F.World) where
    -- For a file name whose requests reach the handlers: the remote source gives the data, a segment
    -- or a segment of a block exactly where the local source of the server's store gives it, with
    -- the same bytes.
    pub remote_source-local_source :
        (k b : ℕ) (bytes : Bytes)
        → (((remote_source base_url A).read_data f w).0 ≡ ok bytes
            ↔ ((local_source F J store).read_data f w).0 ≡ ok bytes)
          × (((remote_source base_url A).read_segment f k w).0 ≡ ok bytes
              ↔ ((local_source F J store).read_segment f k w).0 ≡ ok bytes)
          × (((remote_source base_url A).read_block_segment f b k w).0 ≡ ok bytes
              ↔ ((local_source F J store).read_block_segment f b k w).0 ≡ ok bytes)
    unfolding get_data get_segment get_block_segment
    remote_source-local_source k b bytes =
        let routed : (run : Result Bytes × F.World) (r : Result Bytes) (s : Result Bytes)
            → run ≡ (r, w)
            → ((r ≡ ok bytes) ↔ (s ≡ ok bytes))
            → ((run.0 ≡ ok bytes) ↔ (s ≡ ok bytes)) =
          λ run r s e h. subst (λ t. (t.0 ≡ ok bytes) ↔ (s ≡ ok bytes)) (sym e) h in
        (
          routed _ _ _ (I.data_routed w) (answer-read_at f w get_data_path 400 bytes),
          routed _ _ _ (I.segment_routed k w)
              (answer-read_at f w (λ file. get_segment_path file k) 500 bytes),
          routed _ _ _ (I.block_segment_routed b k w)
              (answer-read_at f w (λ file. get_block_segment_path file b k) 500 bytes),
        )

  -- A request for parity without the number of the shard is refused.
  refuses :
      (f : Text) (b k : ℕ) (w : F.World)
      → ((obj : File) → find F J w store f ≡ ok obj → IsTier obj.manifest.tier)
      → is_ok (answer (get_parity F J store w f (some b) (some k) none)) ≡ false
  unfolding get_parity send_parity
  refuses f b k w tiers = elim (Result-cases (find F J w store f)) [
    | inr (e, h) ↦ rw h refl
    | inl (obj, h) ↦ elim (tiers obj h) [
      | inl one ↦ rw h (rw one refl)
      | inr (inl two) ↦ rw h (rw two refl)
      | inr (inr three) ↦ rw h (rw three refl)
    ]
  ]

  write_parity-fails :
      (f : Text) (I : IsRouted f) (k : ℕ) (block : Option ℕ) (bytes : Bytes) (w : F.World)
      → ((obj : File) → find F J w store f ≡ ok obj → IsTier obj.manifest.tier)
      → is_ok ((remote_source base_url A).write_parity f k block bytes w).0 ≡ false
  write_parity-fails f I k block bytes w tiers =
      let (b, same) = block_number block in
      proceed-failed (A.read_to_vec (write_url base_url f k block) w) _ (
        ap (λ url. is_ok (A.read_to_vec url w).0) same
        ∙ ap (λ run. is_ok run.0) (I.write_routed k b w)
        ∙ refuses f b k w tiers)
    where
      block_number :
          (block : Option ℕ)
          → (b : ℕ) × (write_url base_url f k block ≡ write_url base_url f k (some b))
      block_number none = (0, refl)
      block_number (some b) = (b, refl)

  accept_recovered-fails :
      (H : Hasher) (R : ReedSolomon) (f : Text) (I : IsRouted f) (k : ℕ) (block : Option ℕ)
      (recovered : Bytes) (hash : Text) (w : F.World)
      → ((obj : File) → find F J w store f ≡ ok obj → IsTier obj.manifest.tier)
      → is_ok (accept_recovered H R (remote_source base_url A) f k block recovered hash w).0 ≡ false
  unfolding accept_recovered
  accept_recovered-fails H R f I k block recovered hash w tiers =
      let refused_write = write_parity-fails f I k block recovered w tiers in
      elim (Bool-cases (text_eq (blake3_hash_bytes H recovered) hash)) [
        | inr other ↦ rw other refl
        | inl same ↦ rw same (
            proceed-failed ((remote_source base_url A).write_parity f k block recovered w) _
              refused_write)
      ]

  -- For a file name whose requests reach the handlers, and of a file that the server has with tier
  -- 1, 2 or 3 in every state, if it has it: nothing is recovered over the remote source, whatever
  -- parity the server has, since it refuses the request that ends a recovery.
  pub recover_segment-remote_source :
      (H : Hasher) (R : ReedSolomon) (f : Text) (I : IsRouted f) (m : ManifestFile) (k : ℕ)
      (block : Option ℕ) (w : F.World)
      → ((v : F.World) (obj : File) → find F J v store f ≡ ok obj → IsTier obj.manifest.tier)
      → is_ok (recover_segment H R (remote_source base_url A) f m k block w).0 ≡ false
  unfolding recover_segment
  recover_segment-remote_source H R f I m k block w tiers =
      let S = remote_source base_url A in
      proceed-fails (S.read_parity f k 0 block w) _ (λ p w₁.
        proceed-fails (S.read_parity f k 1 block w₁) _ (λ q w₂.
          proceed-fails (S.read_parity f k 2 block w₂) _ (λ r w₃.
            proceed-fails (recover_segment_rs13 R (p ∷ q ∷ r ∷ []) (expected_size m), w₃) _
              (λ recovered w₄.
                proceed-fails (recovery_hash m k block, w₄) _
                  (λ hash w₅.
                    accept_recovered-fails H R f I k block recovered hash w₅ (tiers w₅))))))
