-- ===== src/Mount/Names/Inodes.antt =====
-- The inode tables stay inverse to one another.
use blockframe_rs.Base.{
  ℕ, ◌≤◌, ◌<◌, ◌≡◌, ◌∙◌, sym, inl, inr, none, some, List, [], ◌∷◌, Text, Result, ok, err, lookup,
  lookup-insert, string_key, usize_key, text_eq, text_eq_iff, ◌==◌, if◌then◌else◌, arith,
  Option-cases, Result-cases, subst,
}
use blockframe_rs.Manifest.{ManifestFile}
use blockframe_rs.Mount.Source.{SegmentSource}
use blockframe_rs.Mount.Names.{
  Names, no_names, add_name, keep_manifest, refresh_loop, refresh_files,
}

-- Each name has the inode under which it is filed, and each filed name has that inode; the inodes
-- given lie from 2 up to the next one.
pub record IsInverse (n : Names) : Type 0 where
  pub filed :
      (f : Text) (i : ℕ)
      → lookup f n.filename_to_inode ≡ some i
      → (lookup i n.inode_to_filename ≡ some f) × (2 ≤ i) × (i < n.next_inode)
  pub named :
      (i : ℕ) (f : Text)
      → lookup i n.inode_to_filename ≡ some f
      → (lookup f n.filename_to_inode ≡ some i) × (i < n.next_inode)
  pub above_root : 2 ≤ n.next_inode

pub no_names-IsInverse : IsInverse no_names
unfolding lookup
no_names-IsInverse = record {
  filed = λ f i h. absurd (cc);
  named = λ i f h. absurd (cc);
  above_root = omega arith;
}

add_name-IsInverse :
    (f : Text) (n : Names)
    → lookup f n.filename_to_inode ≡ none
    → IsInverse n
    → IsInverse (add_name f n)
unfolding add_name
add_name-IsInverse f n fresh inv = record {
  filed = λ g i h.
      let h' : (if text_eq g f then some n.next_inode else lookup g n.filename_to_inode) ≡ some i =
        sym (lookup-insert f g n.next_inode n.filename_to_inode) ∙ h in
      ground
        (arith, lookup-insert n.next_inode i f n.inode_to_filename, text_eq_iff g f, inv.filed g i);
  named = λ i g h.
      let h' : (if i == n.next_inode then some f else lookup i n.inode_to_filename) ≡ some g =
        sym (lookup-insert n.next_inode i f n.inode_to_filename) ∙ h in
      ground
        (arith, lookup-insert f g n.next_inode n.filename_to_inode, text_eq_iff g f, inv.named i g);
  above_root = omega (arith, inv.above_root);
}

keep_manifest-IsInverse :
    (f : Text) (m : Result ManifestFile) (n : Names) → IsInverse n → IsInverse (keep_manifest f m n)
unfolding keep_manifest
keep_manifest-IsInverse f (err e) n inv = inv
keep_manifest-IsInverse f (ok m) n inv = record {
  filed = inv.filed;
  named = inv.named;
  above_root = inv.above_root;
}

module _ (S : SegmentSource) where
  refresh_loop-IsInverse :
      (files : List Text) (n : Names) (w : S.World)
      → IsInverse n
      → IsInverse (refresh_loop S files n w).0
  unfolding refresh_loop
  refresh_loop-IsInverse [] n w inv = inv
  refresh_loop-IsInverse (f ∷ files) n w inv = elim (Option-cases (lookup f n.filename_to_inode)) [
    | inr (i, e) ↦ rw (e, refresh_loop) (refresh_loop-IsInverse files n w inv)
    | inl e ↦
        let (m, w') = S.get_manifest f w in
        rw (e, refresh_loop)
          (refresh_loop-IsInverse files (keep_manifest f m (add_name f n)) w'
            (keep_manifest-IsInverse f m (add_name f n) (add_name-IsInverse f n e inv)))
  ]

  -- A refresh that succeeds, whatever the source lists and however often it lists a name, keeps the
  -- tables of inodes and of names inverse to one another, and the inodes above the root's.
  pub refresh_files-IsInverse :
      (n n' : Names) (w : S.World) → IsInverse n → (refresh_files S n w).0 ≡ ok n' → IsInverse n'
  unfolding refresh_files
  refresh_files-IsInverse n n' w inv h = elim (Result-cases (S.list_files w).0) [
    | inr (e, failed) ↦ absurd (ground arith)
    | inl (listed, gave) ↦
        let same : (refresh_loop S listed n (S.list_files w).1).0 ≡ n' = ground arith in
        subst IsInverse same (refresh_loop-IsInverse listed n (S.list_files w).1 inv)
  ]
