-- ===== src/Mount/Windows/Segments.antt =====
-- `read_from_source` of src/mount/filesystem_win.rs gives verified segments, cached or not.
use mathlib.Core.Path.{ap₂}
use mathlib.Core.Option.{some-injective}
use blockframe_rs.Base.{
  ℕ, ◌≡◌, refl, ap, ◌∙◌, sym, subst, inl, inr, none, some, Text, Bytes, text_eq, eq_of_text_eq,
  Result, ok, err, lookup, string_key, Bool-cases, Option-cases, arith,
}
use blockframe_rs.Base.Exec.{proceed, proceed-eq-ok}
use blockframe_rs.Utils.{Hasher, blake3_hash_bytes}
use blockframe_rs.ReedSolomon.{ReedSolomon}
use blockframe_rs.Manifest.{ManifestFile}
use blockframe_rs.Mount.Source.{SegmentSource}
use blockframe_rs.Mount.Cache.{Cache, IsCache, cache_key}
use blockframe_rs.Mount.Cache.Keys.{cache_key_injective}
use blockframe_rs.Mount.Hashes.{expected_hash, block_of, IsTier, recovery_hash-expected_hash}
use blockframe_rs.Mount.Recover.Laws.{recover_segment-hash}
use blockframe_rs.Mount.Windows.{Inner, fetch, verified, store_segment, read_from_source}

module _ (H : Hasher) (R : ReedSolomon) (S : SegmentSource) where
  -- What passes the test has the hash that the manifest records, recovered or not.
  verified-hash :
      (f : Text) (k : ℕ) (m : ManifestFile) (data₀ bytes : Bytes) (hash : Text) (w : S.World)
      → IsTier m.tier
      → expected_hash m m.tier k ≡ some hash
      → (verified H R S f k m.tier m data₀ w).0 ≡ ok bytes
      → blake3_hash_bytes H bytes ≡ hash
  unfolding verified
  verified-hash f k m data₀ bytes hash w t e h =
      elim (Bool-cases (text_eq (blake3_hash_bytes H data₀) hash)) [
        | inl same ↦
            let kept : data₀ ≡ bytes = ground arith in
            ap (blake3_hash_bytes H) (sym kept)
            ∙ eq_of_text_eq (blake3_hash_bytes H data₀) hash same
        | inr other ↦
            recover_segment-hash H R S f m k (block_of m.tier k) hash bytes w
              (recovery_hash-expected_hash m k hash t e) (ground arith)
      ]

module _ (H : Hasher) (R : ReedSolomon) (S : SegmentSource) (C : Cache) (L : IsCache C) where
  -- Every segment that the cache may give has the hash that its file's manifest records for it.
  pub record IsClean (s : Inner C S) : Type 0 where
    pub clean :
        (f : Text) (k : ℕ) (bytes : Bytes) (m : ManifestFile) (hash : Text)
        → L.Holds s.cache (cache_key f k) bytes
        → lookup f s.names.manifests ≡ some m
        → expected_hash m m.tier k ≡ some hash
        → blake3_hash_bytes H bytes ≡ hash

  -- A lookup in the cache evicts, and adds nothing.
  IsClean-get :
      (s : Inner C S) (key : Text) (w : S.World)
      → IsClean s
      → IsClean (record { source = w; cache = (C.get s.cache key).1; names = s.names })
  IsClean-get s key w inv = record {
    clean = λ f k bytes m hash held found e.
        inv.clean f k bytes m hash (L.get_keeps s.cache key (cache_key f k) bytes held) found e;
  }

  IsClean-insert :
      (s : Inner C S) (f : Text) (k : ℕ) (m : ManifestFile) (hash : Text) (bytes : Bytes)
      (w : S.World)
      → IsClean s
      → lookup f s.names.manifests ≡ some m
      → expected_hash m m.tier k ≡ some hash
      → blake3_hash_bytes H bytes ≡ hash
      → IsClean
          (record { source = w; cache = C.insert s.cache (cache_key f k) bytes; names = s.names })
  IsClean-insert s f k m hash bytes w inv found e good = record {
    clean = λ g j other m' hash' held found' e'.
        elim (L.insert_keeps s.cache (cache_key f k) (cache_key g j) bytes other held) [
          | inr old ↦ inv.clean g j other m' hash' old found' e'
          | inl (keys, same) ↦
              let (g_eq, j_eq) = cache_key_injective g f j k keys in
              let m_eq : some m' ≡ some m =
                sym found' ∙ (ap (λ n. lookup n s.names.manifests) g_eq ∙ found) in
              let hash_eq : some hash' ≡ some hash =
                sym e'
                ∙ (ap₂ (λ (x : ManifestFile) (i : ℕ). expected_hash x x.tier i)
                      (some-injective m' m m_eq) j_eq
                    ∙ e) in
              ap (blake3_hash_bytes H) same ∙ (good ∙ sym (some-injective hash' hash hash_eq))
        ];
  }

  -- The state that `read_from_source` leaves, and what it says of a segment that it gave.
  pub record Gives (s : Inner C S) (hash : Text) (run : Result Bytes × Inner C S) : Type 0 where
    pub good : (bytes : Bytes) → run.0 ≡ ok bytes → blake3_hash_bytes H bytes ≡ hash
    pub still_clean : IsClean run.1
    pub same_names : run.1.names ≡ s.names

  store_segment-Gives :
      (s : Inner C S) (f : Text) (k : ℕ) (m : ManifestFile) (hash : Text) (r : Result Bytes)
      (w : S.World)
      → IsClean s
      → lookup f s.names.manifests ≡ some m
      → expected_hash m m.tier k ≡ some hash
      → ((bytes : Bytes) → r ≡ ok bytes → blake3_hash_bytes H bytes ≡ hash)
      → Gives s hash
          (store_segment H R S C (cache_key f k) (C.get s.cache (cache_key f k)).1 s.names (r, w))
  unfolding store_segment
  store_segment-Gives s f k m hash (err e) w inv found h good = record {
    good = λ bytes p. absurd (cc);
    still_clean = IsClean-get s (cache_key f k) w inv;
    same_names = refl;
  }
  store_segment-Gives s f k m hash (ok bytes) w inv found h good = record {
    good = good;
    still_clean =
        IsClean-insert
          (record { source = w; cache = (C.get s.cache (cache_key f k)).1; names = s.names }) f k m
          hash bytes w (IsClean-get s (cache_key f k) w inv) found h (good bytes refl);
    same_names = refl;
  }

  pub read_from_source_hit :
      (s : Inner C S) (f : Text) (k : ℕ) (m : ManifestFile) (segment : Bytes)
      → (C.get s.cache (cache_key f k)).0 ≡ some segment
      → read_from_source H R S C f k m.tier m s
        ≡ (ok segment, record s { cache = (C.get s.cache (cache_key f k)).1 })
  unfolding read_from_source
  read_from_source_hit s f k m segment hit = ground arith

  -- The bytes that a miss fetches and tests.
  abbrev pub missed : Inner C S → Text → ℕ → ManifestFile → Result Bytes × S.World
  missed s f k m =
      proceed (fetch H R S f k m.tier s.source) (λ bytes. verified H R S f k m.tier m bytes)

  pub read_from_source_miss :
      (s : Inner C S) (f : Text) (k : ℕ) (m : ManifestFile)
      → (C.get s.cache (cache_key f k)).0 ≡ none
      → read_from_source H R S C f k m.tier m s
        ≡ store_segment H R S C
            (cache_key f k)
            (C.get s.cache (cache_key f k)).1
            s.names
            (missed s f k m)
  unfolding read_from_source
  read_from_source_miss s f k m miss = ground arith

  -- Whatever the source answers and the cache has evicted, from a state whose cache is clean: a
  -- segment that `read_from_source` gives, of a file with a known manifest of tier 1, 2 or 3 that
  -- records a hash for the index, has that hash; the cache stays clean and the names stay.
  pub read_from_source-Gives :
      (s : Inner C S) (f : Text) (k : ℕ) (m : ManifestFile) (hash : Text)
      → IsClean s
      → IsTier m.tier
      → lookup f s.names.manifests ≡ some m
      → expected_hash m m.tier k ≡ some hash
      → Gives s hash (read_from_source H R S C f k m.tier m s)
  read_from_source-Gives s f k m hash inv t found h =
      elim (Option-cases (C.get s.cache (cache_key f k)).0) [
        | inr (segment, hit) ↦
            subst (Gives s hash) (sym (read_from_source_hit s f k m segment hit)) (record {
              good = λ bytes p.
                  let same : segment ≡ bytes = cc in
                  ap (blake3_hash_bytes H) (sym same)
                  ∙ inv.clean f k segment m hash (L.get-Holds s.cache (cache_key f k) segment hit)
                      found h;
              still_clean = IsClean-get s (cache_key f k) s.source inv;
              same_names = refl;
            })
        | inl miss ↦ subst (Gives s hash) (sym (read_from_source_miss s f k m miss)) (
            store_segment-Gives s f k m hash (missed s f k m).0 (missed s f k m).1 inv found h
              (λ bytes p.
                let (fetched, _, q, _) =
                  proceed-eq-ok (fetch H R S f k m.tier s.source)
                    (λ b. verified H R S f k m.tier m b) bytes p in
                verified-hash H R S f k m fetched bytes hash _ t h q))
      ]
