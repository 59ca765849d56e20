-- ===== src/Tests/Memory.antt =====
-- A disk in memory, on which nothing fails.
use blockframe_rs.Base.{
  ◌≡◌, refl, Bool, true, false, ◌&&◌, Option, none, some, List, [], ◌∷◌, ◌++◌, Text, Bytes, text,
  text_eq, text_eq_refl, eq_of_text_eq, ok, external, ok_or, if◌then◌else◌, arith, Bool-cases, inl,
  inr,
}
use blockframe_rs.Base.Exec.Ends.{returns}
use blockframe_rs.Disk.{PathBuf, FileSystem}
use blockframe_rs.Disk.Laws.{IsFileSystem, IsLocal, Keeps-refl}

abbrev pub path_eq : PathBuf → PathBuf → Bool
path_eq [] [] = true
path_eq [] (q ∷ qs) = false
path_eq (p ∷ ps) [] = false
path_eq (p ∷ ps) (q ∷ qs) = text_eq p q && path_eq ps qs

pub path_eq_refl : (p : PathBuf) → path_eq p p ≡ true
path_eq_refl [] = refl
path_eq_refl (p ∷ ps) = let a = text_eq_refl p in let b = path_eq_refl ps in rw (a, b) refl

pub eq_of_path_eq : (p q : PathBuf) → path_eq p q ≡ true → p ≡ q
eq_of_path_eq [] [] h = refl
eq_of_path_eq [] (q ∷ qs) h = absurd (cc)
eq_of_path_eq (p ∷ ps) [] h = absurd (cc)
eq_of_path_eq (p ∷ ps) (q ∷ qs) h = ground (arith, eq_of_text_eq p q, eq_of_path_eq ps qs)

-- What follows one path in another.
abbrev strip : PathBuf → PathBuf → Option PathBuf
strip [] path = some path
strip (p ∷ ps) [] = none
strip (p ∷ ps) (q ∷ qs) = if text_eq p q then strip ps qs else none

strip-append : (to rest : PathBuf) → strip to (to ++ rest) ≡ some rest
strip-append [] rest = refl
strip-append (p ∷ ps) rest = let a = text_eq_refl p in let b = strip-append ps rest in rw a b

abbrev is_there : Option Bytes → Bool
is_there none = false
is_there (some bytes) = true

abbrev moved : PathBuf → (PathBuf → Option Bytes) → PathBuf → Option PathBuf → Option Bytes
moved from w path none = w path
moved from w path (some rest) = w (from ++ rest)

abbrev contents : Option Bytes → Bytes
contents none = []
contents (some bytes) = bytes

-- A disk whose directories are all listed alike.
abbrev pub memory : List Text → FileSystem
memory listing = record {
  World = PathBuf → Option Bytes;
  debug = λ path. [];
  exists = λ w path. is_there (w path);
  is_dir = λ w path. false;
  read = λ w path. ok_or (w path) (external (text "NotFound"));
  read_dir = λ w path. ok listing;
  write = λ path bytes w. (ok tt, λ other. if path_eq other path then some bytes else w other);
  append = λ path bytes w.
      (ok tt, λ other. if path_eq other path then some (contents (w path) ++ bytes) else w other);
  create_dir_all = λ path w. (ok tt, w);
  rename = λ from to w. (ok tt, λ path. moved from w path (strip to path));
  now = λ w. text "now";
}

pub memory-IsFileSystem : (listing : List Text) → IsFileSystem (memory listing) ⊥
memory-IsFileSystem listing = record {
  writes = λ path bytes w. returns tt refl (
    (let same = path_eq_refl path in record { reads = rw same refl; there = rw same refl }),
    λ other apart. elim (Bool-cases (path_eq other path)) [
      | inl same ↦ absurd (apart (eq_of_path_eq other path same))
      | inr differs ↦ record { same = rw differs refl; stays = λ h. rw differs h }
    ],
  );
  creates = λ path w. returns tt refl (λ other. Keeps-refl w other);
  renames = λ from to w.
      returns tt refl (λ rest. (let e = strip-append to rest in (rw e refl, rw e refl)));
}

pub memory-IsLocal : (listing : List Text) → IsLocal (memory listing)
memory-IsLocal listing = record {
  create-read_dir = λ path other w l. refl;
  create-read = λ path other w l. refl;
  append-read = λ path other bytes w apart. elim (Bool-cases (path_eq other path)) [
    | inl same ↦ absurd (apart (eq_of_path_eq other path same))
    | inr differs ↦ rw differs refl
  ];
}
