-- ===== src/Chunker/Commit/Segmented.antt =====
-- The loop over the segments in `commit_segmented` of src/chunker/commit.rs.
pub mod Rounds
use blockframe_rs.Base.{
  ℕ, zero, suc, ◌+◌, ◌*◌, ◌≤◌, ◌<◌, ◌≡◌, ◌≢◌, refl, ap, ◌∙◌, sym, subst, inl, inr, some, List, [],
  ◌∷◌, ◌++◌, map, Text, Bytes, ok, length, length-take, length-drop, get_elem?, piece, piece-eq,
  take, drop, take-split, drop-drop, lookup, usize_key, arith, ◌==◌, Bool-cases,
}
use blockframe_rs.Base.Exec.{proceed, ◌>>=◌}
use blockframe_rs.Base.Exec.Ends.{Ends, returns, Ends-bind, Ends-step, Ends-weaken}
use blockframe_rs.Utils.{Hasher, IsIncremental, blake3_hash_bytes}
use blockframe_rs.ReedSolomon.{ReedSolomon, IsReplicating}
use blockframe_rs.Merkle.{from_hashes, get_root}
use blockframe_rs.Merkle.Trees.{from_hashes_total}
use blockframe_rs.Manifest.{SegmentHashes}
use blockframe_rs.Disk.{PathBuf, join, FileSystem}
use blockframe_rs.Disk.Laws.{IsFileSystem, Keeps, Keeps-refl, Keeps-trans, Holds, Holds-Keeps}
use blockframe_rs.Disk.Names.{segment_file, segment_parity_file}
use blockframe_rs.Disk.Names.Apart.{
  join_injective, segment_file_injective, segment_parity_file_injective,
  segment_parity_file-segment,
}
use blockframe_rs.Chunker.Generate.{generate_parity_segmented}
use blockframe_rs.Chunker.Generate.Laws.{generate_parity_segmented_total}
use blockframe_rs.Chunker.Io.{write_segment, write_segment_parities, write_chunks}
use blockframe_rs.Chunker.Io.Laws.{Written, write_chunks-Written}
use blockframe_rs.Chunker.Commit.{Collected, tree_or, segment_loop}

module _ (H : Hasher) (R : ReedSolomon) (F : FileSystem) (segments_dir parity_dir : PathBuf) where
  -- A segment and its parity are in their files, and their hashes are known.
  pub record IsStored (index : ℕ) (segment : Bytes) (info : SegmentHashes) (w : F.World)
      : Type 0 where
    pub parity : List Bytes
    pub generated : generate_parity_segmented R segment ≡ ok parity
    pub data_hash : info.segment_data ≡ blake3_hash_bytes H segment
    pub parity_hashes : info.parity ≡ map (blake3_hash_bytes H) parity
    pub data_there : Holds F w (join segments_dir (segment_file index)) segment
    pub parity_there :
        (i : ℕ) (shard : Bytes)
        → get_elem? parity i ≡ some shard
        → Holds F w (join parity_dir (segment_parity_file index i)) shard

  -- A path that is not of a file which the loop writes from the segment `k` on.
  pub record IsOther (k : ℕ) (other : PathBuf) : Type 0 where
    pub no_segment : (j : ℕ) → k ≤ j → other ≢ join segments_dir (segment_file j)
    pub no_parity : (j i : ℕ) → k ≤ j → other ≢ join parity_dir (segment_parity_file j i)

  -- What the loop leaves behind from the segment `k` on, after `n` rounds.
  pub record Collects (file : Bytes) (z k n : ℕ) (state : H.State) (w : F.World)
      (c : Collected H R F) (w' : F.World) : Type 0 where
    pub hashed : c.0 ≡ H.update state (take (n * z) (drop (k * z) file))
    pub count : length c.2 ≡ n
    pub stored :
        (j : ℕ)
        → k ≤ j
        → j < k + n
        → (info : SegmentHashes) × (lookup j c.1 ≡ some info) × IsStored j (piece file z j) info w'
    pub keeps : (other : PathBuf) → IsOther k other → Keeps F w w' other

module _ {H : Hasher} {R : ReedSolomon} {F : FileSystem} {segments_dir parity_dir : PathBuf} where
  IsOther-next :
      (k : ℕ) (other : PathBuf)
      → IsOther H R F segments_dir parity_dir k other
      → IsOther H R F segments_dir parity_dir (k + 1) other
  IsOther-next k other o = record {
    no_segment = λ j l. o.no_segment j (omega arith);
    no_parity = λ j i l. o.no_parity j i (omega arith);
  }

module _ (H : Hasher) (I : IsIncremental H) (R : ReedSolomon) (F : FileSystem)
    (segments_dir parity_dir : PathBuf)
    (apart : (a b : Text) → join segments_dir a ≢ join parity_dir b) where
  segment_IsOther :
      (j k : ℕ)
      → j < k
      → IsOther H R F segments_dir parity_dir k (join segments_dir (segment_file j))
  segment_IsOther j k l = record {
    no_segment = λ i m same.
        let i_eq = segment_file_injective j i (join_injective segments_dir _ _ same) in omega arith;
    no_parity = λ i h m same. apart _ _ same;
  }

  parity_IsOther :
      (j k i : ℕ)
      → j < k
      → IsOther H R F segments_dir parity_dir k (join parity_dir (segment_parity_file j i))
  parity_IsOther j k i l = record {
    no_segment = λ h m same. apart _ _ (sym same);
    no_parity = λ h g m same.
        let j_eq = segment_parity_file-segment j h i g (join_injective parity_dir _ _ same) in
        omega arith;
  }

  pub IsStored-Keeps :
      (j k : ℕ) (segment : Bytes) (info : SegmentHashes) (v w : F.World)
      → j < k
      → IsStored H R F segments_dir parity_dir j segment info v
      → ((other : PathBuf) → IsOther H R F segments_dir parity_dir k other → Keeps F v w other)
      → IsStored H R F segments_dir parity_dir j segment info w
  IsStored-Keeps j k segment info v w l s keeps = record {
    parity = s.parity;
    generated = s.generated;
    data_hash = s.data_hash;
    parity_hashes = s.parity_hashes;
    data_there = Holds-Keeps s.data_there (keeps _ (segment_IsOther j k l));
    parity_there =
        λ i shard at. Holds-Keeps (s.parity_there i shard at) (keeps _ (parity_IsOther j k i l));
  }

  -- One hash state after two pieces.
  update_pieces :
      (file : Bytes) (z k n : ℕ) (state : H.State)
      → H.update (H.update state (piece file z k)) (take (n * z) (drop ((k + 1) * z) file))
        ≡ H.update state (take (suc n * z) (drop (k * z) file))
  update_pieces file z k n state =
      I.update-append state (piece file z k) (take (n * z) (drop ((k + 1) * z) file))
      ∙ ap (H.update state) (
          ap (λ c. c ++ take (n * z) (drop ((k + 1) * z) file)) (piece-eq file z k)
          ∙ ap (λ rest. take z (drop (k * z) file) ++ take (n * z) rest)
              (sym (drop-drop ((k + 1) * z) (k * z) z file (omega arith)))
          ∙ sym (take-split (suc n * z) z (n * z) (drop (k * z) file) (omega arith)))

  pub Collects-suc :
      (file : Bytes) (z k n : ℕ) (state : H.State) (w v v' : F.World) (c : Collected H R F)
      (info : SegmentHashes) (root : Text)
      → IsStored H R F segments_dir parity_dir k (piece file z k) info v
      → ((other : PathBuf) → IsOther H R F segments_dir parity_dir k other → Keeps F w v other)
      → Collects H R F segments_dir parity_dir file z
          (k + 1)
          n
          (H.update state (piece file z k))
          v
          c
          v'
      → Collects H R F segments_dir parity_dir file z k
          (suc n)
          state
          w
          (c.0, (k, info) ∷ c.1, root ∷ c.2)
          v'
  unfolding lookup
  Collects-suc file z k n state w v v' c info root here frame rest = record {
    hashed = rest.hashed ∙ update_pieces file z k n state;
    count = ap suc rest.count;
    stored = λ j low high. elim (Bool-cases (j == k)) [
      | inl same ↦
          let j_eq : k ≡ j = ground arith in
          subst
            (λ i.
              (found : SegmentHashes) × (lookup i ((k, info) ∷ c.1) ≡ some found)
              × IsStored H R F segments_dir parity_dir i (piece file z i) found v')
            j_eq
            (info, ground arith, IsStored-Keeps k (k + 1) _ info v v' (omega arith) here rest.keeps)
      | inr other ↦
          let (found, at, there) = rest.stored j (ground arith) (omega arith) in
          (found, rw other at, there)
    ];
    keeps = λ other o. Keeps-trans (frame other o) (rest.keeps other (IsOther-next k other o));
  }
