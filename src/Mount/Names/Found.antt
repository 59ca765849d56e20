-- ===== src/Mount/Names/Found.antt =====
-- What `refresh_files` of src/mount leaves in the tables for a file that its source lists.
use blockframe_rs.Base.{
  ℕ, ◌≡◌, ◌⊎◌, refl, ap, ◌∙◌, sym, subst, inl, inr, none, some, List, [], ◌∷◌, Text, Result, ok,
  err, lookup, lookup-insert, string_key, usize_key, text_eq, text_eq_iff, text_eq_refl, false,
  Bool-cases, Option-cases,
}
use blockframe_rs.Manifest.{ManifestFile}
use blockframe_rs.Mount.Source.{SegmentSource}
use blockframe_rs.Mount.Names.{
  Names, no_names, add_name, keep_manifest, refresh_loop, refresh_files,
}

-- A name stands in a list.
abbrev pub IsListed : Text → List Text → Type 0
IsListed name [] = ⊥
IsListed name (f ∷ files) = (f ≡ name) ⊎ IsListed name files

-- A name that has an inode has the manifest.
abbrev IsKnown : Text → ManifestFile → Names → Type 0
IsKnown name m n = (lookup name n.filename_to_inode ≡ none) ⊎ (lookup name n.manifests ≡ some m)

named_after :
    (name : Text) (m : ManifestFile) (r : Result ManifestFile) (n : Names)
    → r ≡ ok m
    → lookup name (keep_manifest name r (add_name name n)).manifests ≡ some m
unfolding keep_manifest add_name
named_after name m (err e) n h = absurd (cc)
named_after name m (ok m') n h =
    let same : m' ≡ m = cc in
    lookup-insert name name m' n.manifests ∙ rw (text_eq_refl name) (ap some same)

other_after :
    (name f : Text) (r : Result ManifestFile) (n : Names)
    → text_eq name f ≡ false
    → (lookup name (keep_manifest f r (add_name f n)).filename_to_inode
        ≡ lookup name n.filename_to_inode)
      × (lookup name (keep_manifest f r (add_name f n)).manifests ≡ lookup name n.manifests)
unfolding keep_manifest add_name
other_after name f (err e) n h =
    (lookup-insert f name n.next_inode n.filename_to_inode ∙ rw h refl, refl)
other_after name f (ok m) n h = (
  lookup-insert f name n.next_inode n.filename_to_inode ∙ rw h refl,
  lookup-insert f name m n.manifests ∙ rw h refl,
)

module _ (S : SegmentSource) (w : S.World) (still : (f : Text) → (S.get_manifest f w).1 ≡ w)
    (name : Text) (m : ManifestFile) (gives : (S.get_manifest name w).0 ≡ ok m) where
  -- The tables after the entry of a name.
  abbrev entered : Text → Names → Names
  entered f n = keep_manifest f (S.get_manifest f w).0 (add_name f n)

  entered_name : (f : Text) (n : Names) → f ≡ name → lookup name (entered f n).manifests ≡ some m
  entered_name f n same =
      subst (λ g. lookup name (entered g n).manifests ≡ some m) (sym same)
        (named_after name m _ n gives)

  entered_keeps :
      (f : Text) (n : Names)
      → lookup name n.manifests ≡ some m
      → lookup name (entered f n).manifests ≡ some m
  entered_keeps f n there = elim (Bool-cases (text_eq name f)) [
    | inl same ↦ entered_name f n (sym ((text_eq_iff name f).0 same))
    | inr other ↦
        let (_, manifests) = other_after name f (S.get_manifest f w).0 n other in manifests ∙ there
  ]

  IsKnown-entered : (f : Text) (n : Names) → IsKnown name m n → IsKnown name m (entered f n)
  IsKnown-entered f n (inr there) = inr (entered_keeps f n there)
  IsKnown-entered f n (inl fresh) = elim (Bool-cases (text_eq name f)) [
    | inl same ↦ inr (entered_name f n (sym ((text_eq_iff name f).0 same)))
    | inr other ↦
        let (inodes, _) = other_after name f (S.get_manifest f w).0 n other in inl (inodes ∙ fresh)
  ]

  -- The name has its manifest, or is still to come.
  abbrev IsComing : List Text → Names → Type 0
  IsComing files n = (lookup name n.manifests ≡ some m) ⊎ IsListed name files

  IsComing-filed :
      (f : Text) (files : List Text) (i : ℕ) (n : Names)
      → lookup f n.filename_to_inode ≡ some i
      → IsKnown name m n
      → IsComing (f ∷ files) n
      → IsComing files n
  IsComing-filed f files i n filed known (inl there) = inl there
  IsComing-filed f files i n filed known (inr (inr later)) = inr later
  IsComing-filed f files i n filed (inr there) (inr (inl same)) = inl there
  IsComing-filed f files i n filed (inl fresh) (inr (inl same)) =
      let had = subst (λ g. lookup g n.filename_to_inode ≡ some i) same filed in absurd (cc)

  IsComing-entered :
      (f : Text) (files : List Text) (n : Names)
      → IsComing (f ∷ files) n
      → IsComing files (entered f n)
  IsComing-entered f files n (inl there) = inl (entered_keeps f n there)
  IsComing-entered f files n (inr (inl same)) = inl (entered_name f n same)
  IsComing-entered f files n (inr (inr later)) = inr later

  refresh_loop-found :
      (files : List Text) (n : Names)
      → IsKnown name m n
      → IsComing files n
      → (lookup name (refresh_loop S files n w).0.manifests ≡ some m)
        × ((refresh_loop S files n w).1 ≡ w)
  unfolding refresh_loop
  refresh_loop-found [] n known (inl there) = (there, refl)
  refresh_loop-found [] n known (inr absent) = elim absent [ ]
  refresh_loop-found (f ∷ files) n known coming =
      elim (Option-cases (lookup f n.filename_to_inode)) [
        | inr (i, filed) ↦
            rw (filed, refresh_loop)
              (refresh_loop-found files n known (IsComing-filed f files i n filed known coming))
        | inl fresh ↦
            rw (fresh, refresh_loop)
              (subst
                (λ v.
                  (lookup name (refresh_loop S files (entered f n) v).0.manifests ≡ some m)
                  × ((refresh_loop S files (entered f n) v).1 ≡ w))
                (sym (still f))
                (refresh_loop-found files (entered f n) (IsKnown-entered f n known)
                  (IsComing-entered f files n coming)))
      ]

  -- A refresh of new tables gives a listed name its manifest.
  pub refresh_files-found :
      (files : List Text)
      → (S.list_files w).0 ≡ ok files
      → (S.list_files w).1 ≡ w
      → IsListed name files
      → (n : Names) × ((refresh_files S no_names w).0 ≡ ok n)
        × ((refresh_files S no_names w).1 ≡ w)
        × (lookup name n.manifests ≡ some m)
  unfolding refresh_files lookup
  refresh_files-found files listed kept there =
      let (found, same) = refresh_loop-found files no_names (inl refl) (inr there) in
      (
        (refresh_loop S files no_names w).0,
        rw (listed, kept, refresh_files) refl,
        rw (listed, kept, refresh_files) same,
        found,
      )
