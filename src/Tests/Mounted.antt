-- ===== src/Tests/Mounted.antt =====
-- Runs of the theorems on src/mount, with a source that serves a file of three bytes in segments
-- of two.
use blockframe_rs.Base.{
  length, min, slice, ◌≤◌, ◌+◌, text_eq, ℕ, zero, suc, ◌*◌, ◌<◌, ◌≡◌, refl, inl, inr, some, none,
  [], ◌∷◌, true, Text, Bytes, text, ok, err, message, lookup, insert, i32_key, string_key,
  usize_key, pos, take, drop, piece, arith,
}
use blockframe_rs.Utils.{blake3_hash_bytes}
use blockframe_rs.Manifest.{ManifestFile}
use blockframe_rs.Filestore.Recovery.{recover_segment_rs13, recover_from_three, truncate}
use blockframe_rs.Mount.Source.{SegmentSource}
use blockframe_rs.Mount.Cache.{cache_key}
use blockframe_rs.Mount.Hashes.{expected_hash, recovery_hash}
use blockframe_rs.Mount.Names.{
  Names, no_names, refresh_files, refresh_loop, add_name, keep_manifest,
}
use blockframe_rs.Mount.Names.Inodes.{IsInverse, no_names-IsInverse, refresh_files-IsInverse}
use blockframe_rs.Mount.Recover.{recover_segment, accept_recovered}
use blockframe_rs.Mount.Recover.Laws.{recover_segment-hash}
use blockframe_rs.Mount.Windows.{Inner, read, read_from_source}
use blockframe_rs.Mount.Windows.Segments.{IsClean, Gives, read_from_source-Gives}
use blockframe_rs.Mount.Windows.Reads.{Describes, Reads, read-Reads}
use blockframe_rs.Mount.Cache.{get_or_fetch}
use blockframe_rs.Mount.Windows.{returned}
use blockframe_rs.Mount.Unix.{read_bytes, read_tiny, check_tiny, keep_or_recover}
use blockframe_rs.Mount.Unix.Tiny.{read_bytes-hash}
use blockframe_rs.Tests.Crates.{plain, replication, table, table-IsCache}

abbrev file : Bytes
file = 104 ∷ 105 ∷ 33 ∷ []

abbrev pub name : Text
name = text "hi.txt"

-- The hasher of the tests is the identity.
abbrev pub manifest : ManifestFile
manifest = record {
  erasure_coding = record {
    data_shards = pos 6;
    parity_shards = pos 3;
    type = text "reed-solomon";
  };
  merkle_tree = record {
    leaves = [];
    segments =
        (0, record { segment_data = 104 ∷ 105 ∷ []; parity = [] })
        ∷ (1, record { segment_data = 33 ∷ []; parity = [] })
        ∷ [];
    blocks = [];
    root = text "root";
  };
  name = name;
  original_hash = file;
  size = pos 3;
  time_of_creation = text "2025-01-01";
  tier = 2;
  segment_size = 2;
}

-- The state is the file that the source serves; its parity files are copies of the segments.
abbrev server : SegmentSource
server = record {
  World = Bytes;
  list_files = λ w. (ok (name ∷ name ∷ []), w);
  get_manifest = λ f w. (ok manifest, w);
  read_segment = λ f k w. (ok (piece w 2 k), w);
  read_block_segment = λ f b k w. (err (message (text "no blocks")), w);
  read_parity = λ f k i b w. (ok (piece file 2 k), w);
  write_parity = λ f k b bytes w. (ok true, w);
  read_data = λ f w. (ok w, w);
}

abbrev mounted : Inner table server
mounted = record {
  source = 104 ∷ 0 ∷ 33 ∷ [];
  cache = [];
  names = record no_names { manifests = (name, manifest) ∷ [] };
}

mounted-IsClean : IsClean plain replication server table table-IsCache mounted
mounted-IsClean = record {
  clean = λ f k bytes m hash held found e.
      absurd (table-IsCache.empty-Holds (cache_key f k) bytes held);
}

mounted-found : lookup name mounted.names.manifests ≡ some manifest
unfolding lookup text_eq
mounted-found = refl

segment-hash :
    (k : ℕ)
    → k * 2 < 3
    → expected_hash manifest 2 k ≡ some (blake3_hash_bytes plain (piece file 2 k))
unfolding expected_hash lookup blake3_hash_bytes
segment-hash zero h = refl
segment-hash (suc zero) h = refl
segment-hash (suc (suc k)) h = absurd (omega arith)

manifest-Describes : Describes plain manifest file
manifest-Describes = record {
  tier = inr (inl refl);
  size = refl;
  cut = omega arith;
  hashes = segment-hash;
}

-- The source serves a segment with a wrong byte.
read-Reads_example :
    Reads plain replication server table name manifest file mounted
      (take 5 (drop 1 file))
      (read plain replication server table name 5 1 mounted).0
read-Reads_example =
    read-Reads plain replication server table table-IsCache name manifest file 5 1 mounted
      manifest-Describes mounted-IsClean mounted-found

read_from_source-Gives_example :
    Gives plain replication server table table-IsCache mounted
      (blake3_hash_bytes plain (piece file 2 0))
      (read_from_source plain replication server table name 0 2 manifest mounted)
read_from_source-Gives_example =
    read_from_source-Gives plain replication server table table-IsCache mounted name 0 manifest
      (blake3_hash_bytes plain (piece file 2 0)) mounted-IsClean (inr (inl refl)) mounted-found
      (segment-hash 0 (omega arith))

recorded : recovery_hash manifest 1 none ≡ ok (33 ∷ [])
unfolding recovery_hash lookup
recorded = refl

recovers : (recover_segment plain replication server name manifest 1 none file).0 ≡ ok (33 ∷ [])
unfolding recover_segment recover_segment_rs13 recover_from_three truncate recovery_hash lookup
    accept_recovered text_eq blake3_hash_bytes
recovers = refl

recover_segment-hash_example : blake3_hash_bytes plain (33 ∷ []) ≡ 33 ∷ []
recover_segment-hash_example =
    recover_segment-hash plain replication server name manifest 1 none (33 ∷ []) (33 ∷ []) file
      recorded recovers

-- The source lists a name twice.
abbrev refreshed : Names
refreshed = record {
  inode_to_filename = (2, name) ∷ [];
  filename_to_inode = (name, 2) ∷ [];
  next_inode = 3;
  manifests = (name, manifest) ∷ [];
}

refreshes : (refresh_files server no_names file).0 ≡ ok refreshed
unfolding refresh_files refresh_loop add_name keep_manifest lookup insert text_eq
refreshes = refl

refresh_files-IsInverse_example : IsInverse refreshed
refresh_files-IsInverse_example =
    refresh_files-IsInverse server no_names refreshed file no_names-IsInverse refreshes

-- The file of tier 1 whose one leaf is its hash; the source serves it.
abbrev tiny_manifest : ManifestFile
tiny_manifest = record manifest {
  tier = 1;
  merkle_tree = record {
    leaves = (pos 0, file) ∷ [];
    segments = [];
    blocks = [];
    root = text "root";
  };
}

abbrev tiny_mounted : Inner table server
tiny_mounted = record {
  source = file;
  cache = [];
  names = record no_names { manifests = (name, tiny_manifest) ∷ [] };
}

tiny-found : lookup name tiny_mounted.names.manifests ≡ some tiny_manifest
unfolding lookup text_eq
tiny-found = refl

tiny_leaf : lookup (pos 0) tiny_manifest.merkle_tree.leaves ≡ some file
unfolding lookup
tiny_leaf = refl

tiny_read :
    (read_bytes plain replication server table name 0 2 1 1 5 tiny_mounted).0
    ≡ returned (105 ∷ 33 ∷ [])
unfolding read_bytes read_tiny check_tiny keep_or_recover get_or_fetch lookup text_eq
    blake3_hash_bytes
tiny_read = refl

read_bytes-hash_example :
    (contents : Bytes) × (blake3_hash_bytes plain contents ≡ file)
    × (1 ≤ min (1 + 5) (length contents))
    × ((105 ∷ 33 ∷ []) ≡ slice contents 1 (min (1 + 5) (length contents)))
read_bytes-hash_example =
    read_bytes-hash plain replication server table name tiny_manifest file 0 2 1 5 (105 ∷ 33 ∷ [])
      tiny_mounted tiny-found refl tiny_leaf tiny_read
