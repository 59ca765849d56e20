-- ===== src/Disk/Names.antt =====
-- The names of the files and directories of an archive, as `format!` writes them.
pub mod Apart
use blockframe_rs.Base.{ℕ, ◌++◌, Text, text}
use blockframe_rs.Base.Decimal.{to_string}

abbrev pub data_file : Text
data_file = text "data.dat"

abbrev pub parity_file : ℕ → Text
parity_file i = text "parity_" ++ (to_string i ++ text ".dat")

abbrev pub segment_file : ℕ → Text
segment_file idx = text "segment_" ++ (to_string idx ++ text ".dat")

abbrev pub segment_parity_file : ℕ → ℕ → Text
segment_parity_file idx i =
    text "segment_" ++ (to_string idx ++ (text "_parity_" ++ (to_string i ++ text ".dat")))

abbrev pub block_parity_file : ℕ → Text
block_parity_file i = text "block_parity_" ++ (to_string i ++ text ".dat")

abbrev pub manifest_file : Text
manifest_file = text "manifest.json"

abbrev pub block_name : ℕ → Text
block_name i = text "block_" ++ to_string i
