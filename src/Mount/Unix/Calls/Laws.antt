-- ===== src/Mount/Unix/Calls/Laws.antt =====
-- The open files of src/mount/filesystem_unix.rs over any sequence of calls.
use blockframe_rs.Base.{
  ℕ, ◌+◌, ◌≤◌, ◌<◌, ◌≡◌, refl, ap, ◌∙◌, sym, subst, inl, inr, false, none, some, [], Text, lookup,
  insert, remove, lookup-insert, lookup-remove, ==_iff, usize_key, string_key, ◌==◌, if◌then◌else◌,
  ℤ, to_u64, Bool-cases, Option-cases, arith,
}
use blockframe_rs.Utils.{Hasher}
use blockframe_rs.ReedSolomon.{ReedSolomon}
use blockframe_rs.Manifest.{ManifestFile}
use blockframe_rs.Mount.Source.{SegmentSource}
use blockframe_rs.Mount.Cache.{Cache}
use blockframe_rs.Mount.Names.Inodes.{IsInverse}
use blockframe_rs.Mount.Unix.Calls.{
  BlockframeFs, answered, error, ebadf, FileAttr, get_file_attr, getattr, lookup_entry, open_file,
  release, read_file, read_described,
}
use blockframe_rs.Mount.Unix.Calls.Kept.{IsKept, read_file-IsKept}

module _ (H : Hasher) (R : ReedSolomon) (S : SegmentSource) (C : Cache) where
  -- A call that may change the state.
  pub data Call (s : BlockframeFs C S) : BlockframeFs C S → Type 0 where
    opens : (ino : ℕ) → Call s (open_file s ino).1
    reads :
        (fuel fh : ℕ) (offset : ℤ) (size : ℕ) → Call s (read_file H R S C fuel s fh offset size).1
    releases : (fh : ℕ) → Call s (release s fh).1

  -- The states that sequences of calls lead to.
  pub data Calls (s : BlockframeFs C S) : BlockframeFs C S → Type 0 where
    here : Calls s s
    then_call : {t u : BlockframeFs C S} → Calls s t → Call t u → Calls s u

-- An open handle is below the next one, and its file is one that an inode names.
pub record HasHandles {C : Cache} {S : SegmentSource} (s : BlockframeFs C S) : Type 0 where
  pub below :
      (fh : ℕ) (f : Text) (cursor : ℕ) → lookup fh s.open_files ≡ some (f, cursor) → fh < s.next_fh
  pub named :
      (fh : ℕ) (f : Text) (cursor : ℕ)
      → lookup fh s.open_files ≡ some (f, cursor)
      → (ino : ℕ) × (lookup ino s.inner.names.inode_to_filename ≡ some f)

module _ {C : Cache} {S : SegmentSource} where
  -- The state behind the opening of a file.
  abbrev opened : BlockframeFs C S → Text → BlockframeFs C S
  opened s f = record s {
    open_files = insert s.next_fh (f, 0) s.open_files;
    next_fh = s.next_fh + 1;
  }

  pub open_file-known :
      (s : BlockframeFs C S) (ino : ℕ) (f : Text)
      → lookup ino s.inner.names.inode_to_filename ≡ some f
      → open_file s ino ≡ (answered s.next_fh, opened s f)
  unfolding open_file
  open_file-known s ino f known = rw (known, open_file) refl

  open_file-HasHandles :
      (s : BlockframeFs C S) (ino : ℕ) → HasHandles s → HasHandles (open_file s ino).1
  unfolding open_file
  open_file-HasHandles s ino inv =
      elim (Option-cases (lookup ino s.inner.names.inode_to_filename)) [
        | inl unknown ↦ rw (unknown, open_file) inv
        | inr (f, known) ↦
            subst (λ run. HasHandles run.1) (sym (open_file-known s ino f known))
              (record {
                below = λ fh g cursor h.
                    let h' = sym (lookup-insert s.next_fh fh (f, 0) s.open_files) ∙ h in
                    elim (Bool-cases (fh == s.next_fh)) [
                      | inl same ↦ ground arith
                      | inr other ↦
                          let there : lookup fh s.open_files ≡ some (g, cursor) = ground arith in
                          let l = inv.below fh g cursor there in omega arith
                    ];
                named = λ fh g cursor h.
                    let h' = sym (lookup-insert s.next_fh fh (f, 0) s.open_files) ∙ h in
                    elim (Bool-cases (fh == s.next_fh)) [
                      | inl same ↦
                          let name_eq : f ≡ g = ground arith in (ino, known ∙ ap some name_eq)
                      | inr other ↦ inv.named fh g cursor (ground arith)
                    ];
              })
      ]

  release-HasHandles : (s : BlockframeFs C S) (fh : ℕ) → HasHandles s → HasHandles (release s fh).1
  unfolding release
  release-HasHandles s fh inv = record {
    below = λ i f cursor h.
        let h' = sym (lookup-remove fh i s.open_files) ∙ h in inv.below i f cursor (ground arith);
    named = λ i f cursor h.
        let h' = sym (lookup-remove fh i s.open_files) ∙ h in inv.named i f cursor (ground arith);
  }

module _ (H : Hasher) (R : ReedSolomon) (S : SegmentSource) (C : Cache) where
  IsKept-HasHandles : (s t : BlockframeFs C S) → IsKept H R S C s t → HasHandles s → HasHandles t
  IsKept-HasHandles s t kept inv = record {
    below = λ fh f cursor h.
        subst (λ n. fh < n) (sym kept.same_next)
          (inv.below fh f cursor (ap (lookup fh) (sym kept.same_files) ∙ h));
    named = λ fh f cursor h.
        let (ino, e) = inv.named fh f cursor (ap (lookup fh) (sym kept.same_files) ∙ h) in
        (ino, ap (λ n. lookup ino n.inode_to_filename) kept.same_names ∙ e);
  }

  Call-HasHandles : (s t : BlockframeFs C S) → Call H R S C s t → HasHandles s → HasHandles t
  Call-HasHandles s _ (opens ino) inv = open_file-HasHandles s ino inv
  Call-HasHandles s _ (reads fuel fh offset size) inv =
      IsKept-HasHandles s _ (read_file-IsKept H R S C fuel s fh offset size) inv
  Call-HasHandles s _ (releases fh) inv = release-HasHandles s fh inv

  -- After any sequence of calls from a state without open files, each open handle is below the next
  -- one, and its file is one that an inode names.
  pub Calls-HasHandles :
      (s t : BlockframeFs C S) → s.open_files ≡ [] → Calls H R S C s t → HasHandles t
  unfolding lookup
  Calls-HasHandles s _ none_open here = record {
    below = λ fh f cursor h. absurd (let e = ap (lookup fh) none_open in ground arith);
    named = λ fh f cursor h. absurd (let e = ap (lookup fh) none_open in ground arith);
  }
  Calls-HasHandles s u none_open (then_call {t = t} before call) =
      Call-HasHandles t u call (Calls-HasHandles s t none_open before)

  fresh : (s : BlockframeFs C S) → HasHandles s → lookup s.next_fh s.open_files ≡ none
  fresh s inv = elim (Option-cases (lookup s.next_fh s.open_files)) [
    | inl e ↦ e
    | inr ((g, cursor), e) ↦ absurd (let l = inv.below s.next_fh g cursor e in omega arith)
  ]

  read_file-held :
      (t : BlockframeFs C S) (fh : ℕ) (f : Text) (cursor : ℕ) (m : ManifestFile) (fuel size : ℕ)
      (offset : ℤ)
      → lookup fh t.open_files ≡ some (f, cursor)
      → lookup f t.inner.names.manifests ≡ some m
      → read_file H R S C fuel t fh offset size
        ≡ read_described H R S C fuel f m (to_u64 offset) size t
  unfolding read_file
  read_file-held t fh f cursor m fuel size offset held described =
      rw (held, described, read_file) refl

  read_file-gone :
      (t : BlockframeFs C S) (fh fuel size : ℕ) (offset : ℤ)
      → lookup fh (remove fh t.open_files) ≡ none
      → (read_file H R S C fuel (release t fh).1 fh offset size).0 ≡ error ebadf
  unfolding read_file release
  read_file-gone t fh fuel size offset gone = rw (gone, read_file) refl

  -- In a state whose handles are below the next one, a file that an inode names and that has a
  -- manifest is opened with a handle that is not in use; every other handle stays as it was; a read
  -- with the new handle reads that file; and after its release a read with it is refused.
  pub open_file-read_file :
      (s : BlockframeFs C S) (ino : ℕ) (f : Text) (m : ManifestFile) (fuel size other : ℕ)
      (offset : ℤ)
      → HasHandles s
      → lookup ino s.inner.names.inode_to_filename ≡ some f
      → lookup f s.inner.names.manifests ≡ some m
      → ((open_file s ino).0 ≡ answered s.next_fh)
        × (lookup s.next_fh s.open_files ≡ none)
        × (lookup other (open_file s ino).1.open_files
            ≡ (if other == s.next_fh then some (f, 0) else lookup other s.open_files))
        × (read_file H R S C fuel (open_file s ino).1 s.next_fh offset size
            ≡ read_described H R S C fuel f m (to_u64 offset) size (open_file s ino).1)
        × ((read_file H R S C fuel
              (release (open_file s ino).1 s.next_fh).1
              s.next_fh
              offset
              size).0
            ≡ error ebadf)
  open_file-read_file s ino f m fuel size other offset inv known described =
      let fh = s.next_fh in
      let t = opened s f in
      let e = open_file-known s ino f known in
      let itself = (==_iff fh fh).1 refl in
      let held : lookup fh t.open_files ≡ some (f, 0) =
        lookup-insert fh fh (f, 0) s.open_files ∙ rw itself refl in
      let gone : lookup fh (remove fh t.open_files) ≡ none =
        lookup-remove fh fh t.open_files ∙ rw itself refl in
      (
        ap (λ run. run.0) e,
        fresh s inv,
        ap (λ run. lookup other run.1.open_files) e ∙ lookup-insert fh other (f, 0) s.open_files,
        subst
            (λ run.
              read_file H R S C fuel run.1 fh offset size
              ≡ read_described H R S C fuel f m (to_u64 offset) size run.1)
            (sym e) (read_file-held t fh f 0 m fuel size offset held described),
        subst (λ run. (read_file H R S C fuel (release run.1 fh).1 fh offset size).0 ≡ error ebadf)
            (sym e) (read_file-gone t fh fuel size offset gone),
      )

module _ {C : Cache} {S : SegmentSource} where
  attr-ino :
      (s : BlockframeFs C S) (f : Text) (attr : FileAttr)
      → get_file_attr s f ≡ some attr
      → lookup f s.inner.names.filename_to_inode ≡ some attr.ino
  unfolding get_file_attr
  attr-ino s f attr h = elim (Option-cases (lookup f s.inner.names.manifests)) [
    | inl e ↦ absurd (ground arith)
    | inr (m, e) ↦ elim (Option-cases (lookup f s.inner.names.filename_to_inode)) [
      | inl e' ↦ absurd (ground arith)
      | inr (ino, e') ↦ let same : ino ≡ attr.ino = ground arith in e' ∙ ap some same
    ]
  ]

  getattr-named :
      (s : BlockframeFs C S) (f : Text) (attr : FileAttr)
      → get_file_attr s f ≡ some attr
      → lookup attr.ino s.inner.names.inode_to_filename ≡ some f
      → 2 ≤ attr.ino
      → getattr s attr.ino ≡ answered attr
  unfolding getattr
  getattr-named s f attr found named above =
      let not_root : (attr.ino == 1) ≡ false = ground arith in rw (not_root, named, found) refl

  -- With tables that are inverse to one another: what a lookup in the root answers for a name, the
  -- attributes of the inode in the answer are.
  pub getattr-lookup_entry :
      (s : BlockframeFs C S) (f : Text) (attr : FileAttr)
      → IsInverse s.inner.names
      → lookup_entry s 1 f ≡ answered attr
      → getattr s attr.ino ≡ answered attr
  unfolding lookup_entry
  getattr-lookup_entry s f attr inv h = elim (Option-cases (get_file_attr s f)) [
    | inl e ↦ absurd (ground arith)
    | inr (a, e) ↦
        let same : a ≡ attr = ground arith in
        let found = e ∙ ap some same in
        let (named, above, _) = inv.filed f attr.ino (attr-ino s f attr found) in
        getattr-named s f attr found named above
  ]
