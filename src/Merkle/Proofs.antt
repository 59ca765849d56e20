-- ===== src/Merkle/Proofs.antt =====
-- `get_proof` gives, for each chunk, a proof that leads to the root that `new` computed.
use mathlib.Core.Option.{some-injective}
use mathlib.Core.List.{append-nil, append_assoc}
use blockframe_rs.Base.{
  ℕ, zero, suc, ◌+◌, ◌/◌, ◌%◌, ◌<◌, ◌≡◌, refl, ap, ◌∙◌, sym, some, List, [], ◌∷◌, ◌++◌, length,
  get_elem?, get_elem?-append, arith, ◌==◌, if◌then◌else◌, Text,
}
use blockframe_rs.Utils.{Hasher}
use blockframe_rs.Merkle.{
  Node, hash_val, parent, combine, pad, build_level, build_tree, Scan, scan, proof_loop, climb,
}
use blockframe_rs.Merkle.Levels.{length-pad, build_level-pad, pad-eq-append}

module _ (H : Hasher) where
  -- Past the index the loop over a level only builds the parents.
  scan_past :
      (i index : ℕ) (level : List Node)
      → index < i
      → length level % 2 ≡ 0
      → scan H i index level
        ≡ some (record { next_level = build_level H level; index = index; pushed = [] })
  unfolding scan build_level
  scan_past i index [] h e = refl
  scan_past i index (l ∷ []) h e = absurd (omega arith)
  scan_past i index (l ∷ r ∷ level) h e =
      ground (arith, scan_past (i + 2) index level (omega arith) (omega arith))

  -- What the loop leaves when it meets the node `n` at the index: one sibling, which combines with
  -- the node to the parent at half the index.
  record Step (index : ℕ) (level : List Node) (k : ℕ) (n : Node) (s : Scan) : Type 0 where
    next : s.next_level ≡ build_level H level
    halved : s.index ≡ index / 2
    sibling : Text
    pushed : s.pushed ≡ sibling ∷ []
    up : Node
    at_half : get_elem? (build_level H level) (k / 2) ≡ some up
    combined : hash_val up ≡ (
        if index % 2 == 0 then combine H (hash_val n) sibling else combine H sibling (hash_val n))

  scan_hit :
      (i j k : ℕ) (level : List Node) (n : Node)
      → j ≡ i + k
      → i % 2 ≡ 0
      → length level % 2 ≡ 0
      → get_elem? level k ≡ some n
      → (s : Scan) × (scan H i j level ≡ some s) × Step j level k n s
  unfolding scan build_level
  scan_hit i j k [] n j_eq p q e = absurd (cc)
  scan_hit i j k (l ∷ []) n j_eq p q e = absurd (omega arith)
  scan_hit i j zero (l ∷ r ∷ level) n j_eq p q e = (
    record {
      next_level = parent H l r ∷ build_level H level;
      index = i / 2;
      pushed = hash_val r ∷ [];
    },
    ground (arith, scan_past (i + 2) (i / 2) level (omega arith) (omega arith)),
    record {
      next = refl;
      halved = omega arith;
      sibling = hash_val r;
      pushed = refl;
      up = parent H l r;
      at_half = refl;
      combined = ground arith;
    },
  )
  scan_hit i j (suc zero) (l ∷ r ∷ level) n j_eq p q e = (
    record {
      next_level = parent H l r ∷ build_level H level;
      index = i / 2;
      pushed = hash_val l ∷ [];
    },
    ground (arith, scan_past (i + 2) (i / 2) level (omega arith) (omega arith)),
    record {
      next = refl;
      halved = omega arith;
      sibling = hash_val l;
      pushed = refl;
      up = parent H l r;
      at_half = refl;
      combined = ground arith;
    },
  )
  scan_hit i j (suc (suc k)) (l ∷ r ∷ level) n j_eq p q e =
      let (s, ran, st) = scan_hit (i + 2) j k level n (omega arith) (omega arith) (omega arith) e in
      (
        record { next_level = parent H l r ∷ s.next_level; index = s.index; pushed = s.pushed },
        ground (arith, ran),
        record {
          next = ap (λ level. parent H l r ∷ level) st.next;
          halved = st.halved;
          sibling = st.sibling;
          pushed = st.pushed;
          up = st.up;
          at_half = let half : suc (suc k) / 2 ≡ suc (k / 2) = omega arith in rw half st.at_half;
          combined = st.combined;
        },
      )

  -- The proof loop, from a level of which the node at the index is known.
  pub record PathTo (index : ℕ) (level : List Node) (n root : Node) (fuel : ℕ) (before : List Text)
      : Type 0 where
    pub proof : List Text
    pub found : proof_loop H fuel index level before ≡ some (before ++ proof)
    pub leads : climb H (hash_val n) index proof ≡ hash_val root

  get_elem?-pad :
      (level : List Node) (k : ℕ) (n : Node)
      → get_elem? level k ≡ some n
      → get_elem? (pad level) k ≡ some n
  get_elem?-pad level k n e =
      let (extra, padded) = pad-eq-append level in rw padded (get_elem?-append level extra k n e)

  proof_loop-step :
      (fuel index : ℕ) (level : List Node) (before : List Text) (s : Scan)
      → 1 < length level
      → scan H 0 index (pad level) ≡ some s
      → proof_loop H (suc fuel) index level before
        ≡ proof_loop H fuel s.index s.next_level (before ++ s.pushed)
  unfolding proof_loop
  proof_loop-step fuel index level before s long ran = ground arith

  PathTo-Step :
      (index : ℕ) (level : List Node) (n root : Node) (fuel : ℕ) (before : List Text) (s : Scan)
      → 1 < length level
      → scan H 0 index (pad level) ≡ some s
      → (st : Step index (pad level) index n s)
      → PathTo (index / 2) (build_level H level) st.up root fuel (before ++ st.sibling ∷ [])
      → PathTo index level n root (suc fuel) before
  unfolding climb
  PathTo-Step index level n root fuel before s long ran st rest = record {
    proof = st.sibling ∷ rest.proof;
    found =
        proof_loop-step fuel index level before s long ran
        ∙ (rw (st.halved, st.next, build_level-pad, st.pushed, rest.found)
            (ap some (append_assoc before _ _)));
    leads = ap (λ h. climb H h (index / 2) rest.proof) (sym st.combined) ∙ rest.leads;
  }

  get_elem?-lt :
      (level : List Node) (k : ℕ) (n : Node) → get_elem? level k ≡ some n → k < length level
  get_elem?-lt [] k n e = absurd (cc)
  get_elem?-lt (x ∷ level) zero n e = omega arith
  get_elem?-lt (x ∷ level) (suc k) n e = omega (arith, get_elem?-lt level k n e)

  pub PathTo-build_tree :
      (fuel index : ℕ) (level : List Node) (n root : Node) (before : List Text)
      → get_elem? level index ≡ some n
      → build_tree H fuel level ≡ some root
      → PathTo index level n root fuel before
  unfolding build_tree
  PathTo-build_tree zero index level n root before e b = absurd (cc)
  PathTo-build_tree (suc fuel) index [] n root before e b = absurd (cc)
  PathTo-build_tree (suc fuel) zero (x ∷ []) n root before e b = record {
    proof = [];
    found = unfold proof_loop in ap some (sym (append-nil before));
    leads = unfold climb in ap hash_val (some-injective n x (sym e) ∙ some-injective x root b);
  }
  PathTo-build_tree (suc fuel) (suc k) (x ∷ []) n root before e b = absurd (cc)
  PathTo-build_tree (suc fuel) index (x ∷ y ∷ level) n root before e b =
      let (s, ran, st) =
        scan_hit 0 index index (pad (x ∷ y ∷ level)) n (omega arith) (omega arith)
          (omega (arith, length-pad (x ∷ y ∷ level))) (get_elem?-pad (x ∷ y ∷ level) index n e) in
      PathTo-Step index (x ∷ y ∷ level) n root fuel before s (omega arith) ran st (
        PathTo-build_tree fuel (index / 2) (build_level H (x ∷ y ∷ level)) st.up root
          (before ++ st.sibling ∷ []) (rw (← build_level-pad H (x ∷ y ∷ level)) st.at_half) b)
