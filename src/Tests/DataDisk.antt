-- ===== src/Tests/DataDisk.antt =====
-- The disk of the Windows build, in a world that is the content of its file.
use finch.Prelude.{ℕ, ◌==◌, none, List, [], ◌∷◌, ◌++◌, ◌≡◌, refl, ok, err, not_exist}
use finch.Windows.DataDisk.{ZipFile, DiskHost, create_disk, ensure_user_data_disk_windows}
use finch.Windows.DataDisk.Chunks.{IsAppending, create_disk-total}

abbrev disk : ZipFile
disk = record {
  name = "disk.vhdx";
  open_file = ok (record { bytes = 1 ∷ 2 ∷ 3 ∷ []; fault = none });
}

abbrev host : DiskHost
host = record {
  World = List ℕ;
  disk_path = "C:\\Users\\me\\.finch\\.disks\\a.vhdx";
  disks_dir = "C:\\Users\\me\\.finch\\.disks";
  stat = λ path w. (err not_exist, w);
  mkdir_all = λ path w. (ok tt, w);
  archive = ok (disk ∷ []);
  open_dest = λ path w. (ok tt, []);
  write_dest = λ bs w. (ok tt, w ++ bs);
  close_dest = λ w. (ok tt, w);
  wsl = λ args w. (ok tt, w);
}

host-IsAppending : IsAppending host (λ w. w)
host-IsAppending = record {
  write_ok = λ bs w. refl;
  write_adds = λ bs w. refl;
  open_ok = λ w. refl;
  open_empties = λ w. refl;
  close_ok = λ w. refl;
  close_keeps = λ w. refl;
}

first_start : ensure_user_data_disk_windows host [] ≡ (ok tt, 1 ∷ 2 ∷ 3 ∷ [])
unfolding ensure_user_data_disk_windows ◌==◌
first_start = refl

create_disk-total_example :
    let a = create_disk host (9 ∷ []) in (a.0 ≡ ok tt) × (a.1 ≡ 1 ∷ 2 ∷ 3 ∷ [])
unfolding ◌==◌
create_disk-total_example =
    create_disk-total host (λ w. w) host-IsAppending disk [] (1 ∷ 2 ∷ 3 ∷ []) (9 ∷ []) refl refl
      refl
