-- ===== src/Disk.antt =====
-- pkg/disk/disk_darwin.go: the disk for the user's data, which outlives the machine, behind a
-- symbolic link where Lima looks for it.
pub mod Link
pub mod Data
use finch.Prelude.{
  String, ◌<>◌, Bool, true, false, not, Option, none, some, List, [], ◌∷◌, ◌==◌, if◌then◌else◌,
  Result, ok, err, panicked, message, is_not_exist, context,
}
use finch.Text.FilePath.{join_path, dir}
use finch.Lima.{Reply}

-- What the manager of the disk gets: paths, the configuration, commands, and the file system.
pub record DiskHost : Type 1 where
  pub World : Type 0
  -- `finch.UserDataDiskPath(rootDir)`
  pub disk_path : String
  -- `finch.LimaHomePath()`
  pub lima_home : String
  -- `finch.QEMUBinDir()`
  pub qemu_bin_dir : String
  -- `config.VMType`
  pub vm_type : Option String
  -- `ncc.CreateWithoutStdio(args...)`, run
  pub limactl : List String → World → Reply × World
  -- `ecc.Create(args...)`, run
  pub run_command : List String → World → Reply × World
  -- the name in the JSON of `limaStore.Disk`
  pub name_of : String → Option String
  -- the format in the JSON of `qemuDiskInfo`
  pub format_of : String → Result String
  -- `sizeString()`, which go-units computes from "50GB"
  pub size_string : Result String
  pub stat : String → World → Result (Unit {0})
  pub readlink : String → World → Result String
  pub mkdir_all : String → World → Result (Unit {0}) × World
  pub rename : String → String → World → Result (Unit {0}) × World
  pub remove : String → World → Result (Unit {0}) × World
  -- `SymlinkIfPossible(target, path)`
  pub symlink : String → String → World → Result (Unit {0}) × World

module _ (h : DiskHost) where
  abbrev pub DiskAct : Type 0 → Type 0
  DiskAct A = h.World → Result A × h.World

  abbrev pub pure : {A : Type 0} → A → DiskAct A
  pure a w = (ok a, w)

  abbrev pub raise : {A : Type 0} → Result A → DiskAct A
  raise r w = (r, w)

  abbrev pub continue : {A B : Type 0} → Result A → (A → DiskAct B) → DiskAct B
  continue (ok a) f w = f a w
  continue (err e) f w = (err e, w)
  continue panicked f w = (panicked, w)

  infixl 5 ◌>>=◌ ◌>>◌
  abbrev pub ◌>>=◌ : {A B : Type 0} → DiskAct A → (A → DiskAct B) → DiskAct B
  ◌>>=◌ m f w = let (r, w') = m w in continue r f w'

  abbrev pub ◌>>◌ : {A B : Type 0} → DiskAct A → DiskAct B → DiskAct B
  m >> n = m >>= λ _. n

  -- A step whose error comes back in a context.
  unfoldable pub described : {A : Type 0} → String → DiskAct A → DiskAct A
  described c m w = let (r, w') = m w in (context c r, w')

  replied : Reply → Result String
  replied r = elim r.failed [ none ↦ ok r.out | some e ↦ err e ]

  unfoldable pub reply_of : Reply × h.World → Result String × h.World
  unfolding replied
  reply_of (r, w) = (replied r, w)

  unfoldable pub output : (h.World → Reply × h.World) → DiskAct String
  unfolding reply_of
  output run w = reply_of (run w)

  -- A command whose error is reported by what it printed.
  unfoldable pub checked_reply : String → Reply × h.World → Result (Unit {0}) × h.World
  checked_reply text (r, w) = elim r.failed [
    | none ↦ (ok tt, w)
    | some e ↦ (err (message (text <> r.out)), w)
  ]

  unfoldable pub checked : String → (h.World → Reply × h.World) → DiskAct (Unit {0})
  unfolding checked_reply
  checked text run w = checked_reply text (run w)

  abbrev pub lima_path : String
  lima_path = h.lima_home <> "/_disks/finch/datadisk"

  unfoldable pub is_ok : {A : Type 0} → Result A → Bool
  is_ok (ok a) = true
  is_ok (err e) = false
  is_ok panicked = false

  is_finch : Option String → Bool
  is_finch none = false
  is_finch (some name) = name == "finch"

  unfoldable pub listed : Reply × h.World → Result Bool × h.World
  unfolding is_finch
  listed (r, w) = (ok (elim r.failed [ none ↦ is_finch (h.name_of r.out) | some e ↦ false ]), w)

  unfoldable pub lima_disk_exists : DiskAct Bool
  unfolding listed
  lima_disk_exists w = listed (h.limactl ("disk" ∷ "ls" ∷ "finch" ∷ "--json" ∷ []) w)

  abbrev at_disk_path : String → String
  at_disk_path c = c <> (" for disk at \"" <> (h.disk_path <> "\""))

  unfoldable pub get_disk_format : DiskAct String
  unfolding output described
  get_disk_format = do
    out ← described (at_disk_path "failed to get disk info") (
        output (
          h.run_command (
            join_path (h.qemu_bin_dir ∷ "qemu-img" ∷ [])
            ∷ "info"
            ∷ "--output=json"
            ∷ h.disk_path
            ∷ [])))
    raise (context (at_disk_path "failed to unmarshal disk info JSON") (h.format_of out))

  unfoldable pub convert_to_raw : DiskAct (Unit {0})
  unfolding described output
  convert_to_raw = do
    let qcow = h.disk_path <> ".qcow2"
    described "faied to rename disk" (h.rename h.disk_path qcow)
    _ ← described ("failed to convert disk \"" <> (h.disk_path <> "\" from qcow2 to raw")) (
        output (
          h.run_command (
            join_path (h.qemu_bin_dir ∷ "qemu-img" ∷ [])
            ∷ "convert"
            ∷ "-f"
            ∷ "qcow2"
            ∷ "-O"
            ∷ "raw"
            ∷ qcow
            ∷ h.disk_path
            ∷ [])))
    pure tt

  unfoldable pub create_lima_disk : DiskAct (Unit {0})
  unfolding checked
  create_lima_disk = do
    size ← raise (context "failed to get disk size" h.size_string)
    checked "failed to create disk, debug logs:\n"
        (h.limactl ("disk" ∷ "create" ∷ "finch" ∷ "--size" ∷ size ∷ "--format" ∷ "raw" ∷ []))

  -- `errors.Is(err, fs.ErrNotExist)` of what `Stat` returned
  unfoldable pub missing : Result (Unit {0}) → Bool
  missing (ok u) = false
  missing (err e) = is_not_exist e
  missing panicked = false

  unfoldable pub ensure_disks_dir : DiskAct (Unit {0})
  unfolding missing described
  ensure_disks_dir w =
      if missing (h.stat (dir h.disk_path) w)
      then described "could not create persistent disk directory" (h.mkdir_all (dir h.disk_path)) w
      else (ok tt, w)

  -- The new disk is moved out of Lima's directory.
  unfoldable pub move_to_persistent : DiskAct (Unit {0})
  unfolding ensure_disks_dir described
  move_to_persistent = do
    ensure_disks_dir
    described "could not move data disk to persistent path" (h.rename lima_path h.disk_path)

  unfoldable pub clear_stat : Result (Unit {0}) → DiskAct (Unit {0})
  clear_stat (ok u) w = h.remove lima_path w
  clear_stat (err e) w = if is_not_exist e then (ok tt, w) else (err e, w)
  clear_stat panicked w = (panicked, w)

  -- What is at Lima's path is deleted, for a link does not replace it.
  unfoldable pub clear_lima_path : DiskAct (Unit {0})
  unfolding clear_stat
  clear_lima_path w = clear_stat (h.stat lima_path w) w

  unfoldable pub attach_persistent_disk : DiskAct (Unit {0})
  unfolding is_ok move_to_persistent clear_lima_path
  attach_persistent_disk = do
    λ w. if is_ok (h.stat h.disk_path w) then (ok tt, w) else move_to_persistent w
    clear_lima_path
    h.symlink h.disk_path lima_path

  unfoldable pub convert_from : String → DiskAct (Unit {0})
  unfolding convert_to_raw attach_persistent_disk
  convert_from format =
      if format == "raw" then pure tt else do convert_to_raw; attach_persistent_disk

  -- Lima would convert the disk in its own directory, so finch does it first.
  unfoldable pub ensure_raw : DiskAct (Unit {0})
  unfolding convert_from get_disk_format
  ensure_raw = elim h.vm_type [
    | none ↦ raise panicked
    | some t ↦ if t == "vz" then (do format ← get_disk_format; convert_from format) else pure tt
  ]

  unfoldable pub relink : String → DiskAct (Unit {0})
  unfolding attach_persistent_disk
  relink loc = if loc == h.disk_path then pure tt else attach_persistent_disk

  unfoldable pub ensure_link : DiskAct (Unit {0})
  unfolding relink
  ensure_link w = continue (h.readlink lima_path w) relink w

  unfoldable pub ensure_attached : Bool → DiskAct (Unit {0})
  unfolding ensure_raw ensure_link create_lima_disk attach_persistent_disk
  ensure_attached true = do ensure_raw; ensure_link
  ensure_attached false = do create_lima_disk; attach_persistent_disk

  unfoldable pub lima_disk_is_locked : h.World → Bool
  unfolding is_ok
  lima_disk_is_locked w =
      is_ok (h.stat (join_path (h.lima_home ∷ "_disks" ∷ "finch" ∷ "in_use_by" ∷ [])) w)

  unfoldable pub unlock_lima_disk : DiskAct (Unit {0})
  unfolding checked
  unlock_lima_disk =
      checked "failed to unlock disk, debug logs:\n" (h.limactl ("disk" ∷ "unlock" ∷ "finch" ∷ []))

  unfoldable pub unlock_if_locked : DiskAct (Unit {0})
  unfolding lima_disk_is_locked unlock_lima_disk
  unlock_if_locked w = if lima_disk_is_locked w then unlock_lima_disk w else (ok tt, w)

  -- `EnsureUserDataDisk`
  unfoldable pub ensure_user_data_disk : DiskAct (Unit {0})
  unfolding lima_disk_exists ensure_attached unlock_if_locked
  ensure_user_data_disk = do found ← lima_disk_exists; ensure_attached found; unlock_if_locked
