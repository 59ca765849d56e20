-- ===== src/Chunker/Commit/Blocked/Parts.antt =====
-- The segments of a block, in `commit_blocked` of src/chunker/commit.rs.
use blockframe_rs.Base.{
  ℕ, zero, suc, ◌+◌, ◌-◌, ◌*◌, ◌%◌, ◌≤◌, ◌<◌, ◌≡◌, refl, ap, ◌∙◌, subst, inl, inr, some, List, [],
  ◌∷◌, Bytes, length, length-take, length-drop, get_elem?, piece, piece-eq, drop, min, max, leb,
  arith, Bool-cases, true, false,
}
use blockframe_rs.Chunker.Generate.{max_len}
use blockframe_rs.Chunker.Commit.Blocked.{block_segments}

module _ (file : Bytes) (z : ℕ) where
  block_segments-inside :
      (k rounds : ℕ)
      → k * z < length file
      → block_segments file z k (suc rounds) ≡ piece file z k ∷ block_segments file z (k + 1) rounds
  unfolding block_segments
  block_segments-inside k rounds inside =
      let e : leb (length file) (k * z) ≡ false = ground arith in rw e refl

  block_segments-past : (k rounds : ℕ) → length file ≤ k * z → block_segments file z k rounds ≡ []
  unfolding block_segments
  block_segments-past k zero past = refl
  block_segments-past k (suc rounds) past =
      let e : leb (length file) (k * z) ≡ true = ground arith in rw e refl

  pub length-block_segments : (k rounds : ℕ) → length (block_segments file z k rounds) ≤ rounds
  length-block_segments k zero = unfold block_segments in omega arith
  length-block_segments k (suc rounds) = elim (Bool-cases (leb (length file) (k * z))) [
    | inl past ↦ rw (block_segments-past k (suc rounds) (ground arith)) (omega arith)
    | inr inside ↦
        rw (block_segments-inside k rounds (ground arith))
          (omega (arith, length-block_segments (k + 1) rounds))
  ]

  pub some-block_segments :
      (k rounds : ℕ) → k * z < length file → 0 < length (block_segments file z k (suc rounds))
  some-block_segments k rounds inside = rw (block_segments-inside k rounds inside) (omega arith)

  -- A segment that starts within the file is the piece of the file at its number.
  pub get_elem?-block_segments :
      (k rounds i : ℕ)
      → i < rounds
      → 0 < z
      → (k + i) * z < length file
      → get_elem? (block_segments file z k rounds) i ≡ some (piece file z (k + i))
  get_elem?-block_segments k zero i l cut inside = absurd (omega arith)
  get_elem?-block_segments k (suc rounds) zero l cut inside =
      let start : k + 0 ≡ k = omega arith in
      rw (start, block_segments-inside k rounds (omega arith)) refl
  get_elem?-block_segments k (suc rounds) (suc i) l cut inside =
      let next : k + 1 + i ≡ k + suc i = omega arith in
      rw (block_segments-inside k rounds (omega arith)) (
        subst (λ n. get_elem? (block_segments file z (k + 1) rounds) i ≡ some (piece file z n)) next
          (get_elem?-block_segments (k + 1) rounds i (omega arith) cut (omega arith)))

  length-piece : (k : ℕ) → length (piece file z k) ≡ min z (length file - k * z)
  length-piece k =
      ap length (piece-eq file z k)
      ∙ omega (arith, length-take z (drop (k * z) file), length-drop (k * z) file)

  max_len_alone : (s : Bytes) (rest : List Bytes) → rest ≡ [] → max_len (s ∷ rest) ≡ some (length s)
  unfolding max_len
  max_len_alone s rest e = rw e refl

  max_len_first :
      (s : Bytes) (rest : List Bytes) (m : ℕ)
      → max_len rest ≡ some m
      → m ≤ length s
      → max_len (s ∷ rest) ≡ some (length s)
  unfolding max_len
  max_len_first s rest m e l =
      let same : max (length s) m ≡ length s = omega arith in rw (max_len, e, same) refl

  -- The longest segment is the first.
  max_len-pieces :
      (k rounds : ℕ)
      → k * z < length file
      → max_len (block_segments file z k (suc rounds)) ≡ some (length (piece file z k))
  max_len-pieces k zero inside =
      ap max_len (block_segments-inside k zero inside)
      ∙ max_len_alone (piece file z k) _ (unfold block_segments in refl)
  max_len-pieces k (suc rounds) inside =
      ap max_len (block_segments-inside k (suc rounds) inside)
      ∙ elim (Bool-cases (leb (length file) ((k + 1) * z))) [
        | inl past ↦
            max_len_alone (piece file z k) _
              (block_segments-past (k + 1) (suc rounds) (ground arith))
        | inr more ↦
            max_len_first (piece file z k) _ _ (max_len-pieces (k + 1) rounds (ground arith))
              (omega (arith, length-piece k, length-piece (k + 1)))
      ]

  pub max_len-block_segments :
      (k rounds : ℕ)
      → k * z < length file
      → max_len (block_segments file z k (suc rounds)) ≡ some (min z (length file - k * z))
  max_len-block_segments k rounds inside = max_len-pieces k rounds inside ∙ ap some (length-piece k)

  -- No block begins less than a segment before the end of a file of an odd size: where one does, its
  -- one segment has an odd size, which the encoder refuses.
  abbrev pub HasEvenTail : Type 0
  HasEvenTail =
      (b : ℕ) → b * 30 * z < length file → length file < (b * 30 + 1) * z → length file % 2 ≡ 0

  pub even_blocks :
      (b : ℕ)
      → z % 2 ≡ 0
      → HasEvenTail
      → b * 30 * z < length file
      → min z (length file - b * 30 * z) % 2 ≡ 0
  even_blocks b even tail inside = elim (Bool-cases (leb ((b * 30 + 1) * z) (length file))) [
    | inl full ↦ ground arith
    | inr short ↦
        let e = tail b inside (ground arith) in
        let shorter : min z (length file - b * 30 * z) ≡ length file - b * 30 * z = ground arith in
        rw shorter (omega (arith, e))
  ]
