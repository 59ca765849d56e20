-- ===== src/Tests/Server.antt =====
-- A stand-in for the client and the router, which knows the requests for one file, and runs of the
-- theorems on the remote source.
use mathlib.Core.List.{append-nil}
use blockframe_rs.Base.{
  ok_inj, ℕ, ◌+◌, ◌-◌, ◌*◌, ◌≡◌, ◌↔◌, refl, ap, ◌∙◌, sym, subst, inl, Bool, true, false, ◌&&◌,
  Option, none, some, List, [], ◌∷◌, ◌++◌, Text, Bytes, text, Result, ok, err, external, is_ok, All,
  get_elem?, drop, leb, ◌==◌, if◌then◌else◌, arith,
}
use blockframe_rs.Base.Decimal.{to_string, value, value-to_string, to_string-IsDigit, IsDigit}
use blockframe_rs.Disk.{FileSystem}
use blockframe_rs.Filestore.Models.{File}
use blockframe_rs.Filestore.Index.{find, get_all, all_files, load_files, new_file, read_manifest}
use blockframe_rs.Serve.{get_data, get_segment, get_block_segment, get_parity}
use blockframe_rs.Mount.Recover.{recover_segment}
use blockframe_rs.Mount.Hashes.{IsTier}
use blockframe_rs.Mount.Local.{local_source}
use blockframe_rs.Mount.Remote.{Agent, remote_source, parity_url}
use blockframe_rs.Mount.Remote.Laws.{
  answer, IsRouted, remote_source-local_source, recover_segment-remote_source,
}
use blockframe_rs.Tests.Crates.{plain, replication}
use blockframe_rs.Tests.Codec.{json, json-IsSerde}
use blockframe_rs.Tests.Memory.{memory}
use blockframe_rs.Tests.Restored.{
  name, store, listing, after, small_file, small_found, small_archive,
}
use blockframe_rs.Tests.Committed.{small}

abbrev is_digit : ℕ → Bool
is_digit c = leb 48 c && leb c 57

-- The number before each character that is no digit, and at the end; 0 where there are no digits.
abbrev numbers : ℕ → Text → List ℕ
numbers acc [] = acc ∷ []
numbers acc (c ∷ cs) = if is_digit c then numbers (acc * 10 + (c - 48)) cs else acc ∷ numbers 0 cs

numbers-append :
    (acc : ℕ) (ds rest : Text)
    → All IsDigit ds
    → numbers acc (ds ++ rest) ≡ numbers (value acc ds) rest
numbers-append acc [] rest h = refl
numbers-append acc (d ∷ ds) rest ((low, high), h) =
    let digit : is_digit d ≡ true = ground arith in
    rw digit (numbers-append (acc * 10 + (d - 48)) ds rest h)

numbers-to_string : (n : ℕ) (rest : Text) → numbers 0 (to_string n ++ rest) ≡ numbers n rest
numbers-to_string n rest =
    numbers-append 0 (to_string n) rest (to_string-IsDigit n)
    ∙ ap (λ k. numbers k rest) (value-to_string n)

numbers-last : (n : ℕ) → numbers 0 (to_string n) ≡ n ∷ []
numbers-last n = ap (numbers 0) (sym (append-nil (to_string n))) ∙ numbers-to_string n []

abbrev disk : FileSystem
disk = memory (listing small)

abbrev filled : Option ℕ → ℕ
filled none = 0
filled (some n) = n

-- The number at a place of a URL.
abbrev number_at : List ℕ → ℕ → ℕ
number_at ns i = filled (get_elem? ns i)

module _ (F : FileSystem) where
  abbrev parity : Option ℕ → List ℕ → F.World → Result Bytes
  parity kind ns w =
      if filled kind == 98
      then answer (
          get_parity F json store w name (some (number_at ns 18)) (some (number_at ns 30))
            (get_elem? ns 41))
      else answer (get_parity F json store w name none (some (number_at ns 20)) (get_elem? ns 31))

  abbrev route : Option ℕ → Option ℕ → List ℕ → F.World → Result Bytes
  route none kind ns w = answer (get_data F json store w name)
  route (some c) kind ns w =
      if c == 115
      then answer (get_segment F json store w name (number_at ns 9))
      else if c == 98
      then answer (get_block_segment F json store w name (number_at ns 7) (number_at ns 16))
      else parity kind ns w

  -- What follows the file's name in its URL.
  abbrev tail_of : Text → Text
  tail_of url = drop 16 url

  abbrev agent : Agent F.World
  agent = record {
    read_to_vec = λ url w. (
      route (get_elem? (tail_of url) 1) (get_elem? (tail_of url) 9) (numbers 0 (tail_of url)) w,
      w,
    );
    read_files = λ url w. (ok [], w);
    read_manifest = λ url w. (err (external (text "http status: 404")), w);
  }

  parity_is_routed :
      (k i : ℕ) (b : Option ℕ) (w : F.World)
      → agent.read_to_vec (parity_url [] name k i b) w
        ≡ (answer (get_parity F json store w name b (some k) (some i)), w)
  parity_is_routed k i none w =
      rw (numbers-to_string k (text "&parity_id=" ++ to_string i), numbers-last i) refl
  parity_is_routed k i (some b) w =
      rw
        (
          numbers-to_string b
              (text "&segment_id=" ++ (to_string k ++ (text "&parity_id=" ++ to_string i))),
          numbers-to_string k (text "&parity_id=" ++ to_string i),
          numbers-last i,
        )
        refl

  agent-IsRouted : IsRouted F json store [] agent name
  agent-IsRouted = record {
    data_routed = λ w. refl;
    segment_routed = λ k w. rw (numbers-last k) refl;
    block_segment_routed =
        λ b k w. rw (numbers-to_string b (text "/segment/" ++ to_string k), numbers-last k) refl;
    parity_routed = parity_is_routed;
    write_routed =
        λ k b w. rw (numbers-to_string b (text "&segment_id=" ++ to_string k), numbers-last k) refl;
  }

remote_source-local_source_example :
    (((remote_source [] (agent disk)).read_data name (after small)).0 ≡ ok small
      ↔ ((local_source disk json store).read_data name (after small)).0 ≡ ok small)
    × (((remote_source [] (agent disk)).read_segment name 3 (after small)).0 ≡ ok small
        ↔ ((local_source disk json store).read_segment name 3 (after small)).0 ≡ ok small)
    × (((remote_source [] (agent disk)).read_block_segment name 2 3 (after small)).0 ≡ ok small
        ↔ ((local_source disk json store).read_block_segment name 2 3 (after small)).0 ≡ ok small)
remote_source-local_source_example =
    remote_source-local_source disk json store [] (agent disk) name (agent-IsRouted disk)
      (after small) 3 2 small

-- The disk after the commit, which cannot be written any more.
abbrev frozen : FileSystem
frozen = record disk {
  World = Unit {0};
  exists = λ w path. disk.exists (after small) path;
  is_dir = λ w path. false;
  read = λ w path. disk.read (after small) path;
  read_dir = λ w path. ok (listing small);
  write = λ path bytes w. (err (external (text "ReadOnlyFilesystem")), w);
  append = λ path bytes w. (err (external (text "ReadOnlyFilesystem")), w);
  create_dir_all = λ path w. (err (external (text "ReadOnlyFilesystem")), w);
  rename = λ from to w. (err (external (text "ReadOnlyFilesystem")), w);
  now = λ w. [];
}

frozen_found : find frozen json tt store name ≡ ok small_file
unfolding find get_all all_files load_files new_file read_manifest
frozen_found = small_found

frozen-IsTier :
    (v : frozen.World) (obj : File)
    → find frozen json v store name ≡ ok obj
    → IsTier obj.manifest.tier
frozen-IsTier v obj h =
    let same : small_file ≡ obj = ok_inj (sym frozen_found ∙ h) in
    subst (λ (f : File). IsTier f.manifest.tier) same
      (inl ((json-IsSerde.reads small_archive.manifest).2.tier ∙ small_archive.is_tiny))

recover_segment-remote_source_example :
    is_ok
      (recover_segment plain replication
        (remote_source [] (agent frozen))
        name
        small_file.manifest
        0
        none
        tt).0
    ≡ false
recover_segment-remote_source_example =
    recover_segment-remote_source frozen json store [] (agent frozen) plain replication name
      (agent-IsRouted frozen) small_file.manifest 0 none tt frozen-IsTier
