-- ===== src/Chunker/Io/Laws.antt =====
-- What the writes of src/chunker/io.rs leave behind.
use blockframe_rs.Base.{
  ℕ, zero, suc, ◌+◌, ◌≤◌, ◌≡◌, ◌≢◌, refl, sym, subst, some, List, [], ◌∷◌, Text, Bytes, get_elem?,
  Bool-cases, lookup, i32_key, pos, map, inl, inr, arith,
}
use blockframe_rs.Base.Exec.Ends.{Ends, returns, Ends-bind, Ends-weaken}
use blockframe_rs.Merkle.{leaf}
use blockframe_rs.Disk.{PathBuf, join, FileSystem}
use blockframe_rs.Disk.Laws.{IsFileSystem, Keeps, Keeps-refl, Keeps-trans, Holds, Holds-Keeps}
use blockframe_rs.Disk.Names.Apart.{join_injective}
use blockframe_rs.Chunker.Io.{
  leaves_object, create_dir, check_for_archive_dir, write_chunks, archive_directory,
}

-- The object of leaves has each hash at its index.
pub lookup-leaves_object :
    (i k : ℕ) (hashes : List Text) (hash : Text)
    → get_elem? hashes k ≡ some hash
    → lookup (pos (i + k)) (leaves_object i (map leaf hashes)) ≡ some hash
unfolding lookup
lookup-leaves_object i k [] hash e = absurd (cc)
lookup-leaves_object i zero (h ∷ hashes) hash e = ground arith
lookup-leaves_object i (suc k) (h ∷ hashes) hash e =
    let ih = lookup-leaves_object (i + 1) k hashes hash e in
    let at : i + 1 + k ≡ i + suc k = omega arith in
    let ih' =
      subst (λ n. lookup (pos n) (leaves_object (i + 1) (map leaf hashes)) ≡ some hash) at ih in
    ground arith

module _ (F : FileSystem) (dir : PathBuf) (name : ℕ → Text) where
  -- The state behind a loop that writes chunks from an index on: each chunk is in its file, and
  -- the files with other paths are as they were.
  pub record Written (w : F.World) (index : ℕ) (chunks : List Bytes) (w' : F.World) : Type 0 where
    pub holds :
        (k : ℕ) (chunk : Bytes)
        → get_elem? chunks k ≡ some chunk
        → Holds F w' (join dir (name (index + k))) chunk
    pub keeps :
        (other : PathBuf) → ((k : ℕ) → index ≤ k → other ≢ join dir (name k)) → Keeps F w w' other

-- The files that a loop from the index 0 on wrote.
pub Written-Holds :
    (F : FileSystem) (dir : PathBuf) (name : ℕ → Text) (w w' : F.World) (chunks : List Bytes)
    (i : ℕ) (chunk : Bytes)
    → Written F dir name w 0 chunks w'
    → get_elem? chunks i ≡ some chunk
    → Holds F w' (join dir (name i)) chunk
Written-Holds F dir name w w' chunks i chunk written at =
    let start : 0 + i ≡ i = omega arith in
    subst (λ n. Holds F w' (join dir (name n)) chunk) start (written.holds i chunk at)

module _ {F : FileSystem} {E : Type 0} (D : IsFileSystem F E) where
  pub create_dir-Keeps :
      (dir : PathBuf) (w : F.World)
      → Ends E (λ _ w'. (other : PathBuf) → Keeps F w w' other) (create_dir F dir w)
  unfolding create_dir
  create_dir-Keeps dir w = elim (Bool-cases (F.is_dir w dir)) [
    | inl there ↦ rw there (returns _ refl (λ other. Keeps-refl w other))
    | inr gone ↦ rw gone (
        Ends-bind (F.create_dir_all dir w) _ (D.creates dir w) (λ _ w' keeps. returns _ refl keeps))
  ]

  pub check_for_archive_dir-Keeps :
      (w : F.World)
      → Ends E (λ _ w'. (other : PathBuf) → Keeps F w w' other) (check_for_archive_dir F w)
  unfolding check_for_archive_dir
  check_for_archive_dir-Keeps w = elim (Bool-cases (F.is_dir w (archive_directory ∷ []))) [
    | inl there ↦ rw there (returns _ refl (λ other. Keeps-refl w other))
    | inr gone ↦ rw gone (
        Ends-bind (create_dir F (archive_directory ∷ []) w) _
          (create_dir-Keeps (archive_directory ∷ []) w) (λ _ w' keeps. returns _ refl keeps))
  ]

  module _ (dir : PathBuf) (name : ℕ → Text) (distinct : (i j : ℕ) → name i ≡ name j → i ≡ j) where
    pub Written-cons :
        (index : ℕ) (chunk : Bytes) (chunks : List Bytes) (u v w : F.World)
        → Holds F v (join dir (name index)) chunk
        → ((other : PathBuf) → other ≢ join dir (name index) → Keeps F u v other)
        → Written F dir name v (index + 1) chunks w
        → Written F dir name u index (chunk ∷ chunks) w
    Written-cons index chunk chunks u v w here frame rest = record {
      holds = holds;
      keeps = λ other apart.
          Keeps-trans (frame other (apart index (omega arith)))
            (rest.keeps other (λ k l. apart k (omega arith)));
    }
      where
        holds :
            (k : ℕ) (c : Bytes)
            → get_elem? (chunk ∷ chunks) k ≡ some c
            → Holds F w (join dir (name (index + k))) c
        holds zero c e =
            let at : index + 0 ≡ index = omega arith in
            let same : chunk ≡ c = cc in
            subst (λ n. Holds F w (join dir (name n)) c) (sym at)
              (subst (Holds F w (join dir (name index))) same (
                Holds-Keeps here (
                  rest.keeps (join dir (name index)) (λ k l e'.
                    let i_eq = distinct index k (join_injective dir (name index) (name k) e') in
                    omega arith))))
        holds (suc k) c e =
            let at : index + 1 + k ≡ index + suc k = omega arith in
            subst (λ n. Holds F w (join dir (name n)) c) at (rest.holds k c e)

    pub write_chunks-Written :
        (index : ℕ) (chunks : List Bytes) (w : F.World)
        → Ends E
            (λ _ w'. Written F dir name w index chunks w')
            (write_chunks F dir name index chunks w)
    unfolding write_chunks
    write_chunks-Written index [] w =
        returns tt refl
          (record { holds = λ k chunk e. absurd (cc); keeps = λ other apart. Keeps-refl w other })
    write_chunks-Written index (chunk ∷ chunks) w =
        Ends-bind (F.write (join dir (name index)) chunk w) _
          (D.writes (join dir (name index)) chunk w)
          (λ _ v (here, frame).
            Ends-weaken (write_chunks-Written (index + 1) chunks v)
              (λ _ w' rest. Written-cons index chunk chunks w v w' here frame rest))
