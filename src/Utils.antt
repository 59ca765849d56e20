-- ===== src/Utils.antt =====
-- src/utils.rs: hashing and the choice of a segment size.
pub mod Hashing
use blockframe_rs.Base.{
  ℕ, ◌*◌, ◌+◌, ◌≡◌, Bool, true, List, [], ◌∷◌, ◌++◌, Bytes, Text, length, ltb, leb, ◌&&◌, ◌||◌, all,
  if◌then◌else◌,
}

-- `blake3::Hasher`, which is not part of the repository. `finalize` and `to_string` are one field.
pub record Hasher : Type 1 where
  pub State : Type 0
  pub init : State
  pub update : State → Bytes → State
  pub finalize : State → Text

-- Documented behaviour of the hasher: updates with parts are an update with the whole.
pub record IsIncremental (H : Hasher) : Type 0 where
  pub update_nil : (s : H.State) → H.update s [] ≡ s
  pub update-append : (s : H.State) (a b : Bytes) → H.update (H.update s a) b ≡ H.update s (a ++ b)

-- `char::is_ascii_hexdigit`
unfoldable pub is_ascii_hexdigit : ℕ → Bool
is_ascii_hexdigit c =
    (leb b'0' c && leb c b'9') || (leb b'a' c && leb c b'f') || (leb b'A' c && leb c b'F')

-- Documented behaviour of the digest's `to_string`: 64 hexadecimal digits.
pub record IsHexDigest (H : Hasher) : Type 0 where
  pub length-finalize : (s : H.State) → length (H.finalize s) ≡ 64
  pub all-finalize : (s : H.State) → all is_ascii_hexdigit (H.finalize s) ≡ true

module _ (H : Hasher) where
  unfoldable pub blake3_hash_bytes : Bytes → Text
  blake3_hash_bytes bytes = H.finalize (H.update H.init bytes)

  -- The loop of `io::copy`: the hasher is given each buffer that a read returns.
  copy_into : H.State → List Bytes → H.State
  copy_into s [] = s
  copy_into s (buffer ∷ buffers) = copy_into (H.update s buffer) buffers

  unfoldable pub hash_file_streaming : List Bytes → Text
  unfolding copy_into
  hash_file_streaming buffers = H.finalize (copy_into H.init buffers)

abbrev pub min_segment : ℕ
min_segment = 512 * 1024

-- The second argument is what `detect_available_memory` reports.
unfoldable pub determine_segment_size : ℕ → ℕ → ℕ
determine_segment_size file_size available_ram =
    if ltb file_size min_segment
    then file_size
    else if ltb available_ram 4_000_000
    then 1024 * 1024
    else if ltb available_ram 16_000_000
    then 8 * 1024 * 1024
    else 32 * 1024 * 1024
