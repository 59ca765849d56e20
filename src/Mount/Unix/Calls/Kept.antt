-- ===== src/Mount/Unix/Calls/Kept.antt =====
-- The reads of src/mount/filesystem_unix.rs leave the tables of names and of open files alone.
use Prim.Native.Nat.{bit_and}
use blockframe_rs.Base.{
  Bool, [], usize_key, ℕ, zero, suc, ◌-◌, ◌/◌, ◌≡◌, refl, ◌∙◌, inl, inr, true, false, Text, Bytes,
  Result, ok, err, lookup, string_key, i32_key, pos, length, min, ltb, leb, ◌==◌, if◌then◌else◌,
  Bool-cases, Option-cases, Result-cases, ℤ, to_u64,
}
use blockframe_rs.Base.Exec.{Exec, proceed}
use blockframe_rs.Utils.{Hasher}
use blockframe_rs.ReedSolomon.{ReedSolomon}
use blockframe_rs.Manifest.{ManifestFile}
use blockframe_rs.Mount.Source.{SegmentSource}
use blockframe_rs.Mount.Cache.{Cache, get_or_fetch}
use blockframe_rs.Mount.Names.{Names}
use blockframe_rs.Mount.Windows.{Inner, Outcome, returned, panicked, store_segment}
use blockframe_rs.Mount.Unix.{
  cached_or, read_unix_segment, read_bytes_loop, check_tiny, read_tiny, read_bytes,
}
use blockframe_rs.Mount.Unix.Calls.{BlockframeFs, read_described, read_file}

module _ (H : Hasher) (R : ReedSolomon) (S : SegmentSource) (C : Cache) where
  store_segment-names :
      (key : Text) (cache : C.State) (names : Names) (run : Result Bytes × S.World)
      → (store_segment H R S C key cache names run).1.names ≡ names
  unfolding store_segment
  store_segment-names key cache names (ok segment, w) = refl
  store_segment-names key cache names (err e, w) = refl

  cached_or-names :
      (key : Text) (fetch : Exec S.World Bytes) (s : Inner C S)
      → (cached_or H R S C key fetch s).1.names ≡ s.names
  unfolding cached_or
  cached_or-names key fetch s = elim (Option-cases (C.get s.cache key).0) [
    | inl miss ↦
        rw (miss, cached_or)
          (store_segment-names key (C.get s.cache key).1 s.names (fetch s.source))
    | inr (cached, hit) ↦ rw (hit, cached_or) refl
  ]

  read_unix_segment-names :
      (f : Text) (m : ManifestFile) (tier k : ℕ) (s : Inner C S)
      → (read_unix_segment H R S C f m tier k s).1.names ≡ s.names
  unfolding read_unix_segment
  read_unix_segment-names f m tier k s = elim (Bool-cases (tier == 3)) [
    | inl e ↦ rw e (cached_or-names _ _ s)
    | inr e ↦ rw e (cached_or-names _ _ s)
  ]

  check_tiny-names :
      (f : Text) (bytes : Bytes) (s : Inner C S) → (check_tiny H R S C f bytes s).1.names ≡ s.names
  unfolding check_tiny
  check_tiny-names f bytes s = elim (Option-cases (lookup f s.names.manifests)) [
    | inl e ↦ rw (e, check_tiny) refl
    | inr (m, e) ↦ elim (Option-cases (lookup (pos 0) m.merkle_tree.leaves)) [
      | inl e' ↦ rw (e, e', check_tiny) refl
      | inr (h, e') ↦ rw (e, e', check_tiny) refl
    ]
  ]

  read_tiny-names : (f : Text) (s : Inner C S) → (read_tiny H R S C f s).1.names ≡ s.names
  unfolding read_tiny
  read_tiny-names f s =
      let (fetched, cache, w) = get_or_fetch C s.cache f 0 (S.read_data f) s.source in
      checked fetched (record s { source = w; cache = cache })
    where
      checked :
          (r : Result Bytes) (t : Inner C S)
          → (proceed (r, t) (check_tiny H R S C f)).1.names ≡ t.names
      checked (ok bytes) t = check_tiny-names f bytes t
      checked (err e) t = refl

  either-names :
      (b : Bool) (x y : Outcome Bytes × Inner C S) (n : Names)
      → x.1.names ≡ n
      → y.1.names ≡ n
      → (if b then x else y).1.names ≡ n
  either-names true x y n h h' = h
  either-names false x y n h h' = h'

  read_bytes_loop-names :
      (fuel : ℕ) (f : Text) (z tier remaining current : ℕ) (result : Bytes) (s : Inner C S)
      → (read_bytes_loop H R S C fuel f z tier remaining current result s).1.names ≡ s.names
  unfolding read_bytes_loop
  read_bytes_loop-names zero f z tier remaining current result s = refl
  read_bytes_loop-names (suc fuel) f z tier remaining current result s =
      either-names (remaining == 0) (returned result, s) _ s.names refl
        (either-names (z == 0) (panicked, s) _ s.names refl
          (elim (Option-cases (lookup f s.names.manifests)) [
            | inl e ↦ rw e refl
            | inr (m, e) ↦
                let (segment, s') = read_unix_segment H R S C f m tier (current / z) s in
                let kept = read_unix_segment-names f m tier (current / z) s in
                rw e (elim (Result-cases segment) [
                  | inr (x, r) ↦ rw r kept
                  | inl (bytes, r) ↦ rw r (
                      either-names (ltb (length bytes) (bit_and current z)) (panicked, s') _ s.names
                        kept (read_bytes_loop-names fuel f z tier _ _ _ s' ∙ kept))
                ])
          ]))

  read_bytes-names :
      (f : Text) (fuel z tier offset size : ℕ) (s : Inner C S)
      → (read_bytes H R S C f fuel z tier offset size s).1.names ≡ s.names
  unfolding read_bytes
  read_bytes-names f fuel z tier offset size s =
      let kept = read_tiny-names f s in
      either-names (tier == 1) _ _ s.names
        (elim (Result-cases (read_tiny H R S C f s).0) [
          | inr (x, r) ↦ rw r kept
          | inl (bytes, r) ↦ rw r (either-names _ _ _ s.names kept kept)
        ])
        (read_bytes_loop-names fuel f z tier size offset [] s)

  -- What a read leaves as it was.
  pub record IsKept (s t : BlockframeFs C S) : Type 0 where
    pub same_files : t.open_files ≡ s.open_files
    pub same_next : t.next_fh ≡ s.next_fh
    pub same_names : t.inner.names ≡ s.inner.names

  IsKept-refl : (s : BlockframeFs C S) → IsKept s s
  IsKept-refl s = record { same_files = refl; same_next = refl; same_names = refl }

  read_described-IsKept :
      (fuel : ℕ) (f : Text) (m : ManifestFile) (offset size : ℕ) (s : BlockframeFs C S)
      → IsKept s (read_described H R S C fuel f m offset size s).1
  unfolding read_described
  read_described-IsKept fuel f m offset size s = elim (Bool-cases (leb (to_u64 m.size) offset)) [
    | inl past ↦ rw past (IsKept-refl s)
    | inr more ↦ rw more (record {
      same_files = refl;
      same_next = refl;
      same_names =
          read_bytes-names f fuel m.segment_size m.tier offset (min size (to_u64 m.size - offset))
            s.inner;
    })
  ]

  pub read_file-IsKept :
      (fuel : ℕ) (s : BlockframeFs C S) (fh : ℕ) (offset : ℤ) (size : ℕ)
      → IsKept s (read_file H R S C fuel s fh offset size).1
  unfolding read_file
  read_file-IsKept fuel s fh offset size = elim (Option-cases (lookup fh s.open_files)) [
    | inl e ↦ rw (e, read_file) (IsKept-refl s)
    | inr ((f, cursor), e) ↦ elim (Option-cases (lookup f s.inner.names.manifests)) [
      | inl e' ↦ rw (e, e', read_file) (IsKept-refl s)
      | inr (m, e') ↦ rw (e, e', read_file) (read_described-IsKept fuel f m (to_u64 offset) size s)
    ]
  ]
