-- ===== src/Mount/Remote.antt =====
-- `RemoteSource` of src/mount/source.rs, which asks a server for the parts of an archive.
pub mod Laws
use blockframe_rs.Base.{
  ℕ, Bool, true, Option, none, some, List, map, ◌++◌, Text, Bytes, text, Result, ok, ◌>>=◌,
}
use blockframe_rs.Base.Exec as Exec
use blockframe_rs.Base.Decimal.{to_string}
use blockframe_rs.Manifest.{ManifestFile}
use blockframe_rs.Serve.{FileInfo}
use blockframe_rs.Mount.Source.{SegmentSource}

-- `agent.get(&url).call()?` of the crate `ureq`, with the body as bytes, or read from JSON at a
-- type.
pub record Agent (World : Type 0) : Type 0 where
  pub read_to_vec : Text → Exec.Exec World Bytes
  pub read_files : Text → Exec.Exec World (List FileInfo)
  pub read_manifest : Text → Exec.Exec World ManifestFile

module _ (base_url : Text) where
  abbrev pub files_url : Text
  files_url = base_url ++ text "/api/files"

  abbrev pub file_url : Text → Text
  file_url filename = base_url ++ (text "/api/files/" ++ filename)

  abbrev pub manifest_url : Text → Text
  manifest_url filename = base_url ++ (text "/api/files/" ++ (filename ++ text "/manifest"))

  abbrev pub segment_url : Text → ℕ → Text
  segment_url filename segment_id =
      base_url ++ (text "/api/files/" ++ (filename ++ (text "/segment/" ++ to_string segment_id)))

  abbrev pub block_segment_url : Text → ℕ → ℕ → Text
  block_segment_url filename block_id segment_id =
      base_url
      ++ (text "/api/files/"
          ++ (filename
              ++ (text "/block/"
                  ++ (to_string block_id ++ (text "/segment/" ++ to_string segment_id)))))

  -- The URL of a parity shard, with the block or without it.
  abbrev pub parity_url : Text → ℕ → ℕ → Option ℕ → Text
  parity_url filename segment_id parity_id (some bid) =
      base_url
      ++ (text "/api/files/"
          ++ (filename
              ++ (text "/parity/?block_id="
                  ++ (to_string bid
                      ++ (text "&segment_id="
                          ++ (to_string segment_id
                              ++ (text "&parity_id=" ++ to_string parity_id)))))))
  parity_url filename segment_id parity_id none =
      base_url
      ++ (text "/api/files/"
          ++ (filename
              ++ (text "/parity/?segment_id="
                  ++ (to_string segment_id ++ (text "&parity_id=" ++ to_string parity_id)))))

  -- `block_id.unwrap_or(0)`
  abbrev pub or_zero : Option ℕ → ℕ
  or_zero none = 0
  or_zero (some bid) = bid

  -- The URL that `write_parity` asks for.
  abbrev pub write_url : Text → ℕ → Option ℕ → Text
  write_url filename segment_id block_id =
      base_url
      ++ (text "/api/files/"
          ++ (filename
              ++ (text "/parity/?block_id="
                  ++ (to_string (or_zero block_id)
                      ++ (text "&segment_id=" ++ to_string segment_id)))))

  module _ {World : Type 0} (A : Agent World) where
    abbrev pub remote_source : SegmentSource
    remote_source = record {
      World = World;
      list_files = λ w.
          Exec.proceed (A.read_files files_url w)
            (λ response. Exec.pure (map (λ (f : FileInfo). f.name) response));
      get_manifest = λ filename. A.read_manifest (manifest_url filename);
      read_segment = λ filename segment_id. A.read_to_vec (segment_url filename segment_id);
      read_block_segment = λ filename block_id segment_id.
          A.read_to_vec (block_segment_url filename block_id segment_id);
      read_parity = λ filename segment_id parity_id block_id.
          A.read_to_vec (parity_url filename segment_id parity_id block_id);
      write_parity = λ filename segment_id block_id recovered_bytes w.
          Exec.proceed (A.read_to_vec (write_url filename segment_id block_id) w)
            (λ _. Exec.pure true);
      read_data = λ filename. A.read_to_vec (file_url filename);
    }
