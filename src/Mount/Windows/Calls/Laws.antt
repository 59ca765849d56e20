-- ===== src/Mount/Windows/Calls/Laws.antt =====
-- What the calls of src/mount/filesystem_win.rs say of one name.
use blockframe_rs.Base.{
  ℕ, true, false, ◌≡◌, ◌≢◌, refl, ap, inl, inr, Option, none, some, [], ◌∷◌, Text, text_eq, Result,
  ok, err, lookup, string_key, ◌==◌, arith, Bool-cases, Option-cases,
}
use blockframe_rs.Manifest.{ManifestFile}
use blockframe_rs.Mount.Source.{SegmentSource}
use blockframe_rs.Mount.Cache.{Cache}
use blockframe_rs.Mount.Names.{Names}
use blockframe_rs.Mount.Windows.{Inner, panicked, name_not_found}
use blockframe_rs.Mount.Windows.Calls.{
  WinFsp, FileInfo, FileContext, trim_start, backslash, root_name, root_info, root_context,
  file_context, security, file_info_of, get_security_by_name, open_context, get_file_info,
  read_directory,
}

-- No name without its leading backslashes is the root's.
trim_start-root : (filename : Text) → text_eq (trim_start filename) root_name ≡ false
unfolding trim_start text_eq
trim_start-root [] = refl
trim_start-root (c ∷ cs) = elim (Bool-cases (c == backslash)) [
  | inl e ↦ rw e (trim_start-root cs)
  | inr e ↦ rw (e, text_eq, e) refl
]

-- A file with attributes has a manifest, and is marked read-only.
file_info_of-some :
    (W : WinFsp) (names : Names) (f : Text) (info : FileInfo)
    → file_info_of W names f ≡ some info
    → ((m : ManifestFile) × (lookup f names.manifests ≡ some m))
      × (W.file_attribute_readonly ≡ info.file_attributes)
unfolding file_info_of
file_info_of-some W names f info h = elim (Option-cases (lookup f names.manifests)) [
  | inl missing ↦ absurd (ground arith)
  | inr (m, found) ↦ ((m, found), ground arith)
]

module _ (W : WinFsp) {C : Cache} {S : SegmentSource} where
  -- A context on which a listing of the directory does not panic.
  abbrev pub IsListable : Inner C S → FileContext W → Type 0
  IsListable s context =
      (marker : Option Text) (room : ℕ) → (read_directory W s context marker room).0 ≢ panicked

  -- What `open` promises of the context and the attributes that it gives for a name.
  abbrev pub Agrees : Inner C S → Text → FileContext W → FileInfo → Type 0
  Agrees s filename context info =
      (get_security_by_name W s filename ≡ ok (security W info.file_attributes))
      × (get_file_info W s context ≡ ok info)
      × IsListable s context

  -- The same for what `open` returns; where it is an error, the name's security is the same error.
  abbrev pub Answers : Inner C S → Text → Result (FileContext W × FileInfo) → Type 0
  Answers s filename (ok (context, info)) = Agrees s filename context info
  Answers s filename (err e) = get_security_by_name W s filename ≡ err e

  root_context-Agrees :
      (s : Inner C S) (filename : Text)
      → text_eq filename root_name ≡ true
      → Agrees s filename (root_context W) (root_info W)
  unfolding get_security_by_name get_file_info read_directory text_eq
  root_context-Agrees s filename e = (rw e refl, refl, λ marker room h. cc)

  file_context-Agrees :
      (s : Inner C S) (filename : Text) (info : FileInfo)
      → text_eq filename root_name ≡ false
      → file_info_of W s.names (trim_start filename) ≡ some info
      → Agrees s filename (file_context W (trim_start filename)) info
  unfolding get_security_by_name get_file_info read_directory
  file_context-Agrees s filename info e h =
      let ((m, found), marked) = file_info_of-some W s.names (trim_start filename) info h in
      (
        rw (e, found) (ap (λ a. ok (security W a)) marked),
        rw (trim_start-root filename, h) refl,
        λ marker room p. ground (arith, trim_start-root filename),
      )

  file_missing-Answers :
      (s : Inner C S) (filename : Text)
      → text_eq filename root_name ≡ false
      → file_info_of W s.names (trim_start filename) ≡ none
      → get_security_by_name W s filename ≡ err name_not_found
  unfolding get_security_by_name file_info_of
  file_missing-Answers s filename e h =
      elim (Option-cases (lookup (trim_start filename) s.names.manifests)) [
        | inl missing ↦ rw (e, missing) refl
        | inr (m, found) ↦ absurd (ground arith)
      ]

  -- For every name, with the root's among them and whatever the tables hold: where `open` returns a
  -- context and attributes, `get_security_by_name` returns the same attribute flags for the name,
  -- `get_file_info` returns the same attributes for the context, and `read_directory` on the
  -- context does not panic. Where `open` fails, `get_security_by_name` fails with the same error.
  pub open_context-Answers :
      (s : Inner C S) (filename : Text) → Answers s filename (open_context W s filename)
  unfolding open_context
  open_context-Answers s filename = elim (Bool-cases (text_eq filename root_name)) [
    | inl e ↦ rw e (root_context-Agrees s filename e)
    | inr e ↦ elim (Option-cases (file_info_of W s.names (trim_start filename))) [
      | inl missing ↦ rw (e, missing) (file_missing-Answers s filename e missing)
      | inr (i, found) ↦ rw (e, found) (file_context-Agrees s filename i e found)
    ]
  ]
