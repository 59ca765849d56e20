-- ===== src/Disk/Laws.antt =====
-- Documented behaviour of the operating system's files.
use blockframe_rs.Base.{
  true, ◌<◌, length, Error, err, ◌≡◌, ◌≢◌, refl, ◌∙◌, ◌++◌, [], ◌∷◌, some, Text, Bytes, ok,
}
use blockframe_rs.Base.Exec.Ends.{Ends}
use blockframe_rs.Disk.{PathBuf, join, parent_dir, FileSystem}

-- A file reads as before, and is there if it was.
pub record Keeps (F : FileSystem) (w w' : F.World) (path : PathBuf) : Type 0 where
  pub same : F.read w' path ≡ F.read w path
  pub stays : F.exists w path ≡ true → F.exists w' path ≡ true

-- A file is there and holds the bytes.
pub record Holds (F : FileSystem) (w : F.World) (path : PathBuf) (bytes : Bytes) : Type 0 where
  pub reads : F.read w path ≡ ok bytes
  pub there : F.exists w path ≡ true

-- What the operations do where they succeed. `E` is what is known where one fails: ⊥ for a disk on
-- which none fails.
pub record IsFileSystem (F : FileSystem) (E : Type 0) : Type 0 where
  pub writes :
      (path : PathBuf) (bytes : Bytes) (w : F.World)
      → Ends E
          (λ _ w'. Holds F w' path bytes × ((other : PathBuf) → other ≢ path → Keeps F w w' other))
          (F.write path bytes w)
  pub creates :
      (path : PathBuf) (w : F.World)
      → Ends E (λ _ w'. (other : PathBuf) → Keeps F w w' other) (F.create_dir_all path w)
  -- What was below one directory is below the other.
  pub renames :
      (from to : PathBuf) (w : F.World)
      → Ends E
          (λ _ w'.
            (rest : PathBuf)
            → (F.read w' (to ++ rest) ≡ F.read w (from ++ rest))
              × (F.exists w' (to ++ rest) ≡ F.exists w (from ++ rest)))
          (F.rename from to w)

-- What the creation of directories and an append leave alone, whether they succeed or not: below
-- the created directories nothing changes, and an append changes one file.
pub record IsLocal (F : FileSystem) : Type 0 where
  pub create-read_dir :
      (path other : PathBuf) (w : F.World)
      → length path < length other
      → F.read_dir (F.create_dir_all path w).1 other ≡ F.read_dir w other
  pub create-read :
      (path other : PathBuf) (w : F.World)
      → length path < length other
      → F.read (F.create_dir_all path w).1 other ≡ F.read w other
  pub append-read :
      (path other : PathBuf) (bytes : Bytes) (w : F.World)
      → other ≢ path
      → F.read (F.append path bytes w).1 other ≡ F.read w other

-- In a directory, nothing can be read below what can be read itself: what is read is a file.
abbrev pub HasOnlyFiles : (F : FileSystem) → F.World → PathBuf → Type 0
HasOnlyFiles F w dir =
    (name sub file : Text) (bytes : Bytes)
    → F.read w (join dir name) ≡ ok bytes
    → (e : Error) × (F.read w (join (join (join dir name) sub) file) ≡ err e)

module _ {F : FileSystem} where
  pub Keeps-refl : (w : F.World) (path : PathBuf) → Keeps F w w path
  Keeps-refl w path = record { same = refl; stays = λ h. h }

  pub Keeps-trans :
      {u v w : F.World} {path : PathBuf} → Keeps F u v path → Keeps F v w path → Keeps F u w path
  Keeps-trans a b = record { same = b.same ∙ a.same; stays = λ h. b.stays (a.stays h) }

  pub Holds-Keeps :
      {v w : F.World} {path : PathBuf} {bytes : Bytes}
      → Holds F v path bytes
      → Keeps F v w path
      → Holds F w path bytes
  Holds-Keeps h k = record { reads = k.same ∙ h.reads; there = k.stays h.there }

pub parent_dir-join : (dir : PathBuf) (name : Text) → parent_dir (join dir name) ≡ some dir
unfolding parent_dir
parent_dir-join [] name = refl
parent_dir-join (d ∷ []) name = refl
parent_dir-join (d ∷ e ∷ dir) name = let below = parent_dir-join (e ∷ dir) name in rw below refl
