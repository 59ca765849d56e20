-- ===== src/Mount/Cache.antt =====
-- src/mount/cache.rs over `moka::sync::Cache`, which is not part of the repository.
pub mod Keys
use blockframe_rs.Base.{
  ℕ, ◌*◌, ◌+◌, ◌≡◌, ◌⊎◌, Option, none, some, List, ◌++◌, Text, Bytes, text, Result, ok, err,
}
use blockframe_rs.Base.Decimal.{to_string}

pub record Cache : Type 1 where
  pub State : Type 0
  pub empty : State
  pub get : State → Text → Option Bytes × State
  pub insert : State → Text → Bytes → State

-- Documented behaviour of the cache, with `Holds s k v` for "a `get` of `k` may give `v`": it
-- gives what was inserted under the key, or nothing, since any entry may have been evicted.
pub record IsCache (C : Cache) : Type 1 where
  pub Holds : C.State → Text → Bytes → Type 0
  pub empty-Holds : (k : Text) (v : Bytes) → ¬ (Holds C.empty k v)
  pub get-Holds : (s : C.State) (k : Text) (v : Bytes) → (C.get s k).0 ≡ some v → Holds s k v
  pub get_keeps : (s : C.State) (k j : Text) (v : Bytes) → Holds (C.get s k).1 j v → Holds s j v
  pub insert_keeps :
      (s : C.State) (k j : Text) (v w : Bytes)
      → Holds (C.insert s k v) j w
      → ((j ≡ k) × (w ≡ v)) ⊎ Holds s j w

-- `format!("{}:{}", filename, segment_id)`
unfoldable pub cache_key : Text → ℕ → Text
cache_key filename segment_id = filename ++ (text ":" ++ to_string segment_id)

-- `SegmentCache::new`: the limit in bytes for a number of segments.
unfoldable pub max_bytes : ℕ → ℕ
max_bytes capacity = capacity * 32 * 1024 * 1024

module _ (C : Cache) where
  -- The fetched value is given; `fetch` runs only if the cache has no value.
  unfoldable pub get_or_fetch :
      {W : Type 0} → C.State → Text → ℕ → (W → Result Bytes × W) → W → Result Bytes × C.State × W
  get_or_fetch s filename segment_id fetch w =
      let key = cache_key filename segment_id in
      let (hit, s') = C.get s key in
      elim hit [
        | some cached ↦ (ok cached, s', w)
        | none ↦
            let (fetched, w') = fetch w in
            elim fetched [
              | ok bytes ↦ (ok bytes, C.insert s' key bytes, w')
              | err e ↦ (err e, s', w')
            ]
      ]
