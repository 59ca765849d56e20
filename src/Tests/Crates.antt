-- ===== src/Tests/Crates.antt =====
-- Stand-ins for the hasher, the code and the cache, which have the behaviour that their crates
-- document.
use mathlib.Core.List.{append-nil, append_assoc}
use blockframe_rs.Base.{
  ℕ, zero, suc, ◌+◌, ◌%◌, ◌<◌, ◌≡◌, ◌==◌, length, All, refl, ap, ◌∙◌, sym, inl, inr, Option, none,
  some, List, [], ◌∷◌, ◌++◌, Bytes, Text, text, Result, ok, err, message, replicate, get_elem?,
  lookup, insert, lookup-insert, string_key, text_eq, text_eq_iff, HashMap, Bool-cases,
  if◌then◌else◌, arith,
}
use blockframe_rs.Utils.{Hasher, IsIncremental, IsHexDigest, is_ascii_hexdigit}
use blockframe_rs.ReedSolomon.{
  ReedSolomon, IsReplicating, IsEncoding, RefusesOdd, add_recovery_shards, add_original_shards,
}
use blockframe_rs.Mount.Cache.{Cache, IsCache}

-- A hasher whose digest is its input.
abbrev pub plain : Hasher
plain = record { State = Bytes; init = []; update = λ s bytes. s ++ bytes; finalize = λ s. s }

pub plain-IsIncremental : IsIncremental plain
plain-IsIncremental = record { update_nil = append-nil; update-append = append_assoc }

abbrev sum : Bytes → ℕ
sum [] = 0
sum (b ∷ bytes) = b + sum bytes

-- A hasher whose digest is a checksum, written in 64 digits.
abbrev pub checksum : Hasher
checksum = record {
  State = Bytes;
  init = [];
  update = λ s bytes. s ++ bytes;
  finalize = λ s. (97 + sum s % 6) ∷ replicate 63 48;
}

pub checksum-IsHexDigest : IsHexDigest checksum
unfolding is_ascii_hexdigit
checksum-IsHexDigest = record { length-finalize = λ s. refl; all-finalize = λ s. ground arith }

abbrev kept : Option Bytes → Bytes → Option Bytes
kept none shard = some shard
kept (some first) shard = some first

abbrev copies : List Bytes → Result (List Bytes)
copies [] = err (message (text "TooFewOriginalShards"))
copies (shard ∷ shards) = ok (shard ∷ shard ∷ shard ∷ [])

-- A new encoder, which refuses an odd size.
abbrev started : ℕ → Result (List Bytes)
started size = if size % 2 == 1 then err (message (text "InvalidShardSize")) else ok []

-- The code whose recovery shards are copies of the shard that was added last.
abbrev pub replication : ReedSolomon
replication = record {
  Encoder = List Bytes;
  encoder_new = λ data_shards parity_shards size. started size;
  add_original = λ encoder shard. ok (shard ∷ encoder);
  encode = copies;
  Decoder = Option Bytes;
  Restored = Option Bytes;
  decoder_new = λ data_shards parity_shards size. ok none;
  add_original_shard = λ decoder index shard. ok decoder;
  add_recovery_shard = λ decoder index shard. ok (kept decoder shard);
  decode = λ decoder. ok decoder;
  restored_original = λ restored index. restored;
}

more_ignored :
    (first : Bytes) (more : List (ℕ × Bytes))
    → add_recovery_shards replication (some first) more ≡ ok (some first)
more_ignored first [] = refl
more_ignored first ((i, shard) ∷ more) = more_ignored first more

a_copy :
    (shard first : Bytes) (i : ℕ)
    → get_elem? (shard ∷ shard ∷ shard ∷ []) i ≡ some first
    → first ≡ shard
a_copy shard first zero h = cc
a_copy shard first (suc zero) h = cc
a_copy shard first (suc (suc zero)) h = cc
a_copy shard first (suc (suc (suc i))) h = absurd (cc)

started_even : (size : ℕ) → size % 2 ≡ 0 → started size ≡ ok []
started_even size even = ground arith

started_empty : (size : ℕ) (e : List Bytes) → started size ≡ ok e → [] ≡ e
started_empty size e h = ground arith

three_copies :
    (shard : Bytes) (e e' parity : List Bytes)
    → started (length shard) ≡ ok e
    → ◌≡◌ {A = Result (List Bytes)} (ok (shard ∷ e)) (ok e')
    → copies e' ≡ ok parity
    → parity ≡ shard ∷ shard ∷ shard ∷ []
three_copies shard e e' parity made added encoded =
    let e_eq = started_empty (length shard) e made in
    let one : e' ≡ shard ∷ [] = cc in
    let whole : copies (shard ∷ []) ≡ ok parity = ap copies (sym one) ∙ encoded in cc

pub replication-IsReplicating : IsReplicating replication
replication-IsReplicating = record {
  encodes = λ shard h h'. (
    [],
    shard ∷ [],
    shard,
    shard,
    shard,
    started_even (length shard) (omega arith),
    refl,
    refl,
    refl,
    refl,
    refl,
  );
  restores = λ shard parity e e' i first more made added encoded (low, at, rest). (
    none,
    some first,
    some first,
    refl,
    more_ignored first more,
    refl,
    ap some (
        a_copy shard first i (
          ap (λ shards. get_elem? shards i)
            (sym (three_copies shard e e' parity made added encoded))
          ∙ at)),
  );
}

-- The shards that were added, behind those that were there.
last_added :
    (shards before : List Bytes) (size : ℕ)
    → 0 < length shards
    → All (λ s. length s ≡ size) shards
    → (last : Bytes) × (others : List Bytes) × (add_original_shards replication before shards
        ≡ ok (last ∷ others))
      × (length last ≡ size)
last_added [] before size h all = absurd (omega arith)
last_added (s ∷ []) before size h (here, _) = (s, before, refl, here)
last_added (s ∷ t ∷ shards) before size h (_, rest) =
    last_added (t ∷ shards) (s ∷ before) size (omega arith) rest

pub replication-IsEncoding : IsEncoding replication
replication-IsEncoding = record {
  encodes = λ shards size some_left few all positive even.
      (let (last, others, added, same) = last_added shards [] size some_left all in
        (
          [],
          last ∷ others,
          last,
          last,
          last,
          started_even size even,
          added,
          refl,
          same,
          same,
          same,
        ));
}

pub replication-RefusesOdd : RefusesOdd replication
replication-RefusesOdd = record { refuses = λ data_shards parity_shards size odd. ground arith }

-- A cache that evicts nothing.
abbrev pub table : Cache
table = record {
  State = HashMap Text Bytes;
  empty = [];
  get = λ s k. (lookup k s, s);
  insert = λ s k v. insert k v s;
}

pub table-IsCache : IsCache table
unfolding lookup
table-IsCache = record {
  Holds = λ s k v. lookup k s ≡ some v;
  empty-Holds = λ k v h. absurd (cc);
  get-Holds = λ s k v h. h;
  get_keeps = λ s k j v h. h;
  insert_keeps = λ s k j v w h.
      let h' : (if text_eq j k then some v else lookup j s) ≡ some w =
        sym (lookup-insert k j v s) ∙ h in
      elim (Bool-cases (text_eq j k)) [
        | inl same ↦ inl ((text_eq_iff j k).0 same, ground arith)
        | inr other ↦ inr (ground arith)
      ];
}
