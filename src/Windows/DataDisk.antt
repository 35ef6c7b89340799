-- ===== src/Windows/DataDisk.antt =====
-- pkg/disk/disk_windows.go: the user data disk of the Windows build.
pub mod Chunks
use finch.Prelude.{
  ℕ, zero, suc, ◌/◌, String, ◌<>◌, ◌==◌, Bool, true, false, Option, none, some, List, [], ◌∷◌,
  length, leb, if◌then◌else◌, Error, is_not_exist, wrapped, Result, ok, err, panicked,
}
use finch.Prelude.Act.{Act, pure, raise, described, ◌>>=◌, ◌>>◌}

-- The bytes that a reader still gives, and what it ends with: an error, or the end of the file.
pub record Source : Type 0 where
  pub bytes : List ℕ
  pub fault : Option Error

-- A file of the archive that is built into the program.
pub record ZipFile : Type 0 where
  pub name : String
  pub open_file : Result Source

pub record DiskHost : Type 1 where
  pub World : Type 0
  -- `UserDataDiskPath`, and `filepath.Dir` of it
  pub disk_path : String
  pub disks_dir : String
  pub stat : String → Act World (Unit {0})
  pub mkdir_all : String → Act World (Unit {0})
  -- `zip.NewReader` on `minWinDisk`
  pub archive : Result (List ZipFile)
  -- `os.OpenFile` of the cleaned path, which empties the file
  pub open_dest : String → Act World (Unit {0})
  pub write_dest : List ℕ → Act World (Unit {0})
  pub close_dest : Act World (Unit {0})
  -- `CombinedOutput` of wsl.exe; the output stands in the error
  pub wsl : List String → Act World (Unit {0})

-- The bytes that one call of `io.CopyN` asks for.
abbrev pub chunk_size : ℕ
chunk_size = 204800

unfoldable pub take : ℕ → List ℕ → List ℕ
take n [] = []
take zero (b ∷ bs) = []
take (suc n) (b ∷ bs) = b ∷ take n bs

unfoldable pub drop : ℕ → List ℕ → List ℕ
drop n [] = []
drop zero (b ∷ bs) = b ∷ bs
drop (suc n) (b ∷ bs) = drop n bs

module _ (h : DiskHost) where
  abbrev pub copy_failed : {A : Type 0} → Act h.World A → Act h.World A
  copy_failed = described "failed copy compressed file to disk"

  -- What `io.CopyN` returns at the end of the source: `io.EOF` ends the loop.
  abbrev pub at_end : Option Error → Act h.World Bool
  at_end none = pure true
  at_end (some e) = copy_failed (raise (err e))

  -- The loop of `createDisk`; `false` where the rounds run out.
  unfoldable pub copy_chunks : ℕ → ℕ → Source → Act h.World Bool
  unfolding take drop
  copy_chunks n zero s = pure false
  copy_chunks n (suc k) s =
      let rest = copy_chunks n k (record s { bytes = drop n s.bytes }) in
      copy_failed (h.write_dest (take n s.bytes))
      >> (if leb n (length s.bytes) then rest else at_end s.fault)

  -- The loop of the source has no bound: a run that has used its rounds up is no success.
  abbrev pub within_rounds : Bool → Act h.World (Unit {0})
  within_rounds true = pure tt
  within_rounds false = raise panicked

  unfoldable pub fill : Source → Act h.World (Unit {0})
  unfolding copy_chunks
  fill s =
      copy_chunks chunk_size (suc (length s.bytes / chunk_size)) s
      >>= within_rounds
      >> described "failed close disk file" h.close_dest

  -- The first file named `disk.vhdx`.
  unfoldable pub unpack : List ZipFile → Act h.World (Unit {0})
  unfolding fill ◌==◌
  unpack [] = pure tt
  unpack (f ∷ fs) =
      let rest = unpack fs in
      if f.name == "disk.vhdx"
      then (described "failed to open file inside zip" (raise f.open_file) >>= λ s.
          described "failed to open persistent disk file" (h.open_dest h.disk_path) >> fill s)
      else rest

  -- `createDisk`
  unfoldable pub create_disk : Act h.World (Unit {0})
  unfolding unpack
  create_disk = described "failed to create zip reader" (raise h.archive) >>= unpack

  -- `attachDisk`
  unfoldable pub attach_disk : Act h.World (Unit {0})
  attach_disk =
      described "failed to attach disk" (h.wsl ("--mount" ∷ "--bare" ∷ "--vhd" ∷ h.disk_path ∷ []))

  -- What is not there is made.
  abbrev pub or_made : Act h.World (Unit {0}) → String → Result (Unit {0}) → Act h.World (Unit {0})
  or_made make label (ok u) = pure tt
  or_made make label (err e) = if is_not_exist e then make else raise (err (wrapped label e))
  or_made make label panicked = raise panicked

  abbrev pub ensure_path : String → Act h.World (Unit {0}) → Act h.World (Unit {0})
  ensure_path path make w =
      let (r, w') = h.stat path w in or_made make ("error stating disksDir " <> path) r w'

  -- `EnsureUserDataDisk`
  unfoldable pub ensure_user_data_disk_windows : Act h.World (Unit {0})
  unfolding create_disk attach_disk
  ensure_user_data_disk_windows =
      ensure_path h.disks_dir
        (described "could not create persistent disk directory" (h.mkdir_all h.disks_dir))
      >> ensure_path h.disk_path (described "could not create persistent disk" create_disk)
      >> described "could not attach persistent disk" attach_disk

  -- `DetachUserDataDisk`
  unfoldable pub detach_user_data_disk_windows : Act h.World (Unit {0})
  detach_user_data_disk_windows =
      described "failed to detach disk" (h.wsl ("--unmount" ∷ ("\\\\?\\" <> h.disk_path) ∷ []))
