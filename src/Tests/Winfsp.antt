-- ===== src/Tests/Winfsp.antt =====
-- Runs of the theorem on the calls of WinFSP, with a directory buffer that holds names.
use blockframe_rs.Base.{
  ◌≡◌, ◌+◌, ◌*◌, ◌/◌, ◌%◌, ◌^◌, to_u64, refl, subst, ok, none, [], ◌∷◌, ◌++◌, Text, true, take,
  lookup, string_key, text_eq, if◌then◌else◌,
}
use blockframe_rs.Mount.Windows.{returned}
use blockframe_rs.Mount.Windows.Calls.{
  WinFsp, FileInfo, root_context, file_context, file_info_of, backslash, trim_start, open_context,
  list_loop, fill, read_directory,
}
use blockframe_rs.Mount.Windows.Calls.Laws.{Agrees, Answers, open_context-Answers}
use blockframe_rs.Tests.Restored.{name, small_file}
use blockframe_rs.Tests.Remounted.{mounted}

-- A reading gives the names, one after the other.
abbrev winfsp : WinFsp
winfsp = record {
  file_attribute_directory = 16;
  file_attribute_readonly = 1;
  DirBuffer = Text;
  new = [];
  nameable = λ filename. true;
  acquire = λ reset buffer. (true, if reset then [] else buffer);
  write = λ filename info buffer. (true, buffer ++ filename);
  release = λ buffer. buffer;
  read = λ marker room buffer. take room buffer;
}

abbrev attributes : FileInfo
attributes = record {
  file_attributes = 1;
  reparse_tag = 0;
  allocation_size = (to_u64 small_file.manifest.size + 511) / 512 * 512 % 2 ^ 64;
  file_size = to_u64 small_file.manifest.size;
  creation_time = 0;
  last_access_time = 0;
  last_write_time = 0;
  change_time = 0;
  index_number = 2;
  hard_links = 1;
  ea_size = 0;
}

opened_small :
    open_context winfsp mounted (backslash ∷ name) ≡ ok (file_context winfsp name, attributes)
unfolding open_context file_info_of trim_start text_eq lookup
opened_small = refl

open_context-Answers_example :
    Agrees winfsp mounted (backslash ∷ name) (file_context winfsp name) attributes
open_context-Answers_example =
    subst (Answers winfsp mounted (backslash ∷ name)) opened_small
      (open_context-Answers winfsp mounted (backslash ∷ name))

-- The listing of the root holds the one file.
root_listing : (read_directory winfsp mounted (root_context winfsp) none 100).0 ≡ returned name
unfolding read_directory list_loop file_info_of text_eq lookup fill
root_listing = refl
