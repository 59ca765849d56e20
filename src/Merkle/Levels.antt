-- ===== src/Merkle/Levels.antt =====
-- One level of the tree, and the recursion of `build_tree` over the levels.
use blockframe_rs.Base.{
  ℕ, zero, suc, ◌+◌, ◌*◌, ◌/◌, ◌≤◌, ◌<◌, ◌≡◌, refl, ap, ◌∙◌, none, some, List, [], ◌∷◌, ◌++◌,
  length, arith,
}
use blockframe_rs.Utils.{Hasher}
use blockframe_rs.Merkle.{Node, pad, build_level, build_tree}

pub pad-cons_cons : (a b : Node) (nodes : List Node) → pad (a ∷ b ∷ nodes) ≡ a ∷ b ∷ pad nodes
unfolding pad
pad-cons_cons a b [] = refl
pad-cons_cons a b (c ∷ nodes) = ground arith

pub pad_nil : pad [] ≡ []
unfolding pad
pad_nil = refl

pub pad_one : (a : Node) → pad (a ∷ []) ≡ a ∷ a ∷ []
unfolding pad
pad_one a = refl

-- A level is padded to an even number of nodes.
pub length-pad : (nodes : List Node) → length (pad nodes) ≡ (length nodes + 1) / 2 * 2
length-pad [] = rw pad_nil
length-pad (a ∷ []) = rw pad_one
length-pad (a ∷ b ∷ nodes) = rw (pad-cons_cons a b nodes) (omega (arith, length-pad nodes))

pub pad-eq-append : (nodes : List Node) → (extra : List Node) × (pad nodes ≡ nodes ++ extra)
pad-eq-append [] = ([], pad_nil)
pad-eq-append (a ∷ []) = (a ∷ [], pad_one a)
pad-eq-append (a ∷ b ∷ nodes) =
    let (extra, e) = pad-eq-append nodes in
    (extra, pad-cons_cons a b nodes ∙ ap (λ rest. a ∷ b ∷ rest) e)

module _ (H : Hasher) where
  pub length-build_level :
      (nodes : List Node) → length (build_level H nodes) ≡ (length nodes + 1) / 2
  unfolding build_level
  length-build_level [] = refl
  length-build_level (a ∷ []) = refl
  length-build_level (a ∷ b ∷ nodes) = omega (arith, length-build_level nodes)

  -- Padding a level by its last node changes none of the parents.
  pub build_level-pad : (nodes : List Node) → build_level H (pad nodes) ≡ build_level H nodes
  unfolding build_level
  build_level-pad [] = rw pad_nil
  build_level-pad (a ∷ []) = rw pad_one
  build_level-pad (a ∷ b ∷ nodes) = rw (pad-cons_cons a b nodes, build_level-pad nodes)

  -- With no nodes `build_tree` calls itself for ever.
  pub build_tree_nil : (fuel : ℕ) → build_tree H fuel [] ≡ none
  unfolding build_tree
  build_tree_nil zero = refl
  build_tree_nil (suc fuel) = build_tree_nil fuel

  -- On at least one node the recursion ends, and the number of nodes is fuel enough.
  pub build_tree_total :
      (fuel : ℕ) (nodes : List Node)
      → 0 < length nodes
      → length nodes ≤ fuel
      → (root : Node) × (build_tree H fuel nodes ≡ some root)
  unfolding build_tree
  build_tree_total zero nodes h l = absurd (omega arith)
  build_tree_total (suc fuel) [] h l = absurd (omega arith)
  build_tree_total (suc fuel) (n ∷ []) h l = (n, refl)
  build_tree_total (suc fuel) (n ∷ m ∷ nodes) h l =
      build_tree_total fuel (build_level H (n ∷ m ∷ nodes))
        (omega (arith, length-build_level (n ∷ m ∷ nodes)))
        (omega (arith, length-build_level (n ∷ m ∷ nodes)))

  -- More fuel gives the same root.
  pub build_tree_mono :
      (fuel more : ℕ) (nodes : List Node) (root : Node)
      → fuel ≤ more
      → build_tree H fuel nodes ≡ some root
      → build_tree H more nodes ≡ some root
  unfolding build_tree
  build_tree_mono zero more nodes root l e = cc
  build_tree_mono (suc fuel) zero nodes root l e = absurd (omega arith)
  build_tree_mono (suc fuel) (suc more) [] root l e =
      build_tree_mono fuel more [] root (omega arith) e
  build_tree_mono (suc fuel) (suc more) (n ∷ []) root l e = e
  build_tree_mono (suc fuel) (suc more) (n ∷ m ∷ nodes) root l e =
      build_tree_mono fuel more (build_level H (n ∷ m ∷ nodes)) root (omega arith) e

  -- Any two amounts of fuel that give a root give the same one.
  pub build_tree_unique :
      (fuel more : ℕ) (nodes : List Node) (r s : Node)
      → fuel ≤ more
      → build_tree H fuel nodes ≡ some r
      → build_tree H more nodes ≡ some s
      → r ≡ s
  build_tree_unique fuel more nodes r s l p q = let p' = build_tree_mono fuel more nodes r l p in cc
