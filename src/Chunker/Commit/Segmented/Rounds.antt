-- ===== src/Chunker/Commit/Segmented/Rounds.antt =====
-- The rounds of the loop in `commit_segmented` of src/chunker/commit.rs.
use blockframe_rs.Base.{
  ℕ, zero, suc, ◌+◌, ◌*◌, ◌≤◌, ◌<◌, ◌≡◌, ◌≢◌, refl, sym, subst, [], ◌∷◌, map, Text, Bytes, ok,
  length, length-take, length-drop, piece, piece-eq, drop, usize_key, arith,
}
use blockframe_rs.Base.Exec.Ends.{Ends, returns, Ends-bind, Ends-step}
use blockframe_rs.Utils.{Hasher, IsIncremental, blake3_hash_bytes}
use blockframe_rs.ReedSolomon.{ReedSolomon, IsReplicating}
use blockframe_rs.Merkle.{from_hashes, get_root}
use blockframe_rs.Merkle.Trees.{from_hashes_total}
use blockframe_rs.Disk.{PathBuf, join, FileSystem}
use blockframe_rs.Disk.Laws.{IsFileSystem, Keeps-refl, Keeps-trans, Holds, Holds-Keeps}
use blockframe_rs.Disk.Names.{segment_file, segment_parity_file}
use blockframe_rs.Disk.Names.Apart.{segment_parity_file_injective}
use blockframe_rs.Chunker.Generate.{generate_parity_segmented}
use blockframe_rs.Chunker.Generate.Laws.{generate_parity_segmented_total}
use blockframe_rs.Chunker.Io.{write_segment, write_segment_parities, write_chunks}
use blockframe_rs.Chunker.Io.Laws.{Written, write_chunks-Written}
use blockframe_rs.Chunker.Commit.{tree_or, segment_loop}
use blockframe_rs.Chunker.Commit.Segmented.{IsStored, Collects, Collects-suc}

module _ (H : Hasher) (I : IsIncremental H) (R : ReedSolomon) (F : FileSystem)
    (segments_dir parity_dir : PathBuf)
    (apart : (a b : Text) → join segments_dir a ≢ join parity_dir b) where
  module _ {E : Type 0} (D : IsFileSystem F E) (L : IsReplicating R) (file : Bytes) (z : ℕ)
      (cut : 0 < z) where
    length-piece :
        (file : Bytes) (z k : ℕ) → 0 < z → k * z < length file → 0 < length (piece file z k)
    length-piece file z k cut inside =
        rw (piece-eq file z k)
          (omega (arith, length-take z (drop (k * z) file), length-drop (k * z) file))

    -- What one round writes.
    stored_here :
        (k : ℕ) (p q r : Bytes) (w v v' : F.World)
        → generate_parity_segmented R (piece file z k) ≡ ok (p ∷ q ∷ r ∷ [])
        → Holds F v (join segments_dir (segment_file k)) (piece file z k)
        → Written F parity_dir (segment_parity_file k) v 0 (p ∷ q ∷ r ∷ []) v'
        → IsStored H R F segments_dir parity_dir k
            (piece file z k)
            (record {
              segment_data = blake3_hash_bytes H (piece file z k);
              parity = map (blake3_hash_bytes H) (p ∷ q ∷ r ∷ []);
            })
            v'
    stored_here k p q r w v v' made there written = record {
      parity = p ∷ q ∷ r ∷ [];
      generated = made;
      data_hash = refl;
      parity_hashes = refl;
      data_there = Holds-Keeps there (written.keeps _ (λ i _ same. apart _ _ same));
      parity_there = λ i shard at.
          (let start : 0 + i ≡ i = omega arith in
            subst (λ n. Holds F v' (join parity_dir (segment_parity_file k n)) shard) start
              (written.holds i shard at));
    }

    -- The loop over the segments, from the segment `k` on and for `n` rounds, where each of these
    -- segments starts within the file: it returns, unless an operation of the disk fails, the hash
    -- state over the bytes that it went through, one root for each segment, and the hashes of each
    -- segment and of its parity shards; these are in the files that their indices name, and all
    -- files that are not of these segments are as they were.
    pub segment_loop-Collects :
        (n k : ℕ) (state : H.State) (w : F.World)
        → ((j : ℕ) → k ≤ j → j < k + n → j * z < length file)
        → Ends E
            (λ c w'. Collects H R F segments_dir parity_dir file z k n state w c w')
            (segment_loop H R F segments_dir parity_dir file z state k n w)
    unfolding segment_loop write_segment write_segment_parities
    segment_loop-Collects zero k state w inside = returns _ refl (record {
      hashed = (let none_left : 0 * z ≡ 0 = omega arith in rw none_left (sym (I.update_nil state)));
      count = refl;
      stored = λ j low high. absurd (omega arith);
      keeps = λ other o. Keeps-refl w other;
    })
    segment_loop-Collects (suc n) k state w inside =
        let segment = piece file z k in
        let hash = blake3_hash_bytes H segment in
        let some_left : 0 < length segment =
          length-piece file z k cut (inside k (omega arith) (omega arith)) in
        let (_, _, p, q, r, made, _, _, _, _, _, _) =
          generate_parity_segmented_total R L segment some_left in
        let parity = p ∷ q ∷ r ∷ [] in
        let hashes = map (blake3_hash_bytes H) parity in
        let (tree, built, _) = from_hashes_total H (hash ∷ hashes) (omega arith) in
        Ends-step (generate_parity_segmented R segment) w parity _ made (
          Ends-bind (F.write (join segments_dir (segment_file k)) segment w) _
            (D.writes (join segments_dir (segment_file k)) segment w)
            (λ _ v (there, frame).
              Ends-bind (write_chunks F parity_dir (segment_parity_file k) 0 parity v) _
                (write_chunks-Written D parity_dir (segment_parity_file k)
                  (segment_parity_file_injective k) 0 parity v)
                (λ _ v' written.
                  Ends-step (tree_or (from_hashes H (hash ∷ hashes))) v' tree _ (rw built refl) (
                    Ends-bind
                      (segment_loop H R F segments_dir parity_dir file z (H.update state segment)
                        (k + 1) n v')
                      _
                      (segment_loop-Collects n (k + 1) (H.update state segment) v'
                        (λ j low high. inside j (omega arith) (omega arith)))
                      (λ c w' rest. returns _ refl (
                        Collects-suc H I R F segments_dir parity_dir apart file z k n state w v' w'
                          c _ (get_root tree) (stored_here k p q r w v v' made there written)
                          (λ other o.
                            Keeps-trans (frame other (o.no_segment k (omega arith)))
                              (written.keeps other (λ i _. o.no_parity k i (omega arith))))
                          rest))))))
