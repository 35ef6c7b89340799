-- ===== src/Tests/Disk.antt =====
-- The theorems on the user's disk, over a file system of files and links.
use finch.Prelude.{
  String, ◌==◌, ==_self, ◌≡◌, refl, ap, List, [], ◌∷◌, Option, none, some, Result, ok, err,
  not_exist, message, lookup, insert, delete, lookup-insert, lookup-delete,
}
use finch.Disk.{
  DiskHost, ensure_user_data_disk, lima_disk_exists, ensure_attached, ensure_raw, ensure_link,
  relink, attach_persistent_disk, clear_lima_path, clear_stat, is_ok, unlock_if_locked,
  lima_disk_is_locked, listed,
}
use finch.Disk.Link.{IsLinking, IsLinked, ensure_user_data_disk-IsLinked}
use finch.Disk.Data.{IsKeeping, content-ensure_user_data_disk}
use finch.Text.FilePath.{join_path}

data Entry : Type 0 where
  file link : String → Entry

abbrev Files : Type 0
Files = List (String × Entry)

abbrev there : Option Entry → Result (Unit {0})
there none = err not_exist
there (some e) = ok tt

abbrev target : Option Entry → Result String
target none = err not_exist
target (some (file t)) = ok ""
target (some (link t)) = ok t

abbrev text_in : Option Entry → Option String
text_in none = none
text_in (some (file t)) = some t
text_in (some (link t)) = none

abbrev content : String → Files → Option String
content path w = text_in (lookup path w)

abbrev host : DiskHost
host = record {
  World = Files;
  disk_path = "/disk";
  lima_home = "/lima";
  qemu_bin_dir = "/qemu";
  vm_type = some "qemu";
  limactl = λ args w. (record { out = "finch"; failed = none }, w);
  run_command = λ args w. (record { out = ""; failed = none }, w);
  name_of = some;
  format_of = ok;
  size_string = ok "50GiB";
  stat = λ path w. there (lookup path w);
  readlink = λ path w. target (lookup path w);
  mkdir_all = λ path w. (ok tt, w);
  rename = λ from to w. (err (message "read-only"), w);
  remove = λ path w. (ok tt, delete path w);
  symlink = λ to path w. (ok tt, insert path (link to) w);
}

found : (o : Option Entry) (t : String) → text_in o ≡ some t → there o ≡ ok tt
found none t h = cc
found (some e) t h = refl

read :
    (to path : String) (w w' : Files)
    → host.symlink to path w ≡ (ok tt, w')
    → target (lookup path w') ≡ ok to
read to path w w' e = rw (
  ← ap (λ (p : Result (Unit {0}) × Files). p.1) e,
  lookup-insert path path (link to) w,
  ==_self path,
)

host-IsLinking : IsLinking host
host-IsLinking = record {
  readlink-symlink = λ to path w w' e. read to path w w' e;
  unlock_keeps = λ path w. refl;
}

host-IsKeeping : IsKeeping host content
host-IsKeeping = record {
  stat_content = λ path t w h. found (lookup path w) t h;
  limactl_keeps = λ args w k. refl;
  remove_keeps = λ path other w apart. ap text_in (rw (lookup-delete other path w, apart));
  symlink_keeps =
      λ to path other w apart. ap text_in (rw (lookup-insert other path (link to) w, apart));
}

abbrev fresh_link : Files
fresh_link = ("/lima/_disks/finch/datadisk", file "old") ∷ ("/disk", file "data") ∷ []

ensure_user_data_disk-IsLinked_example :
    IsLinked host (("/disk", file "data") ∷ ("/lima/_disks/finch/datadisk", link "/disk") ∷ [])
unfolding ensure_user_data_disk lima_disk_exists listed ensure_attached ensure_raw ensure_link
    relink attach_persistent_disk clear_lima_path clear_stat is_ok unlock_if_locked
    lima_disk_is_locked ◌==◌ lookup insert delete join_path
ensure_user_data_disk-IsLinked_example =
    ensure_user_data_disk-IsLinked host host-IsLinking fresh_link
      (("/disk", file "data") ∷ ("/lima/_disks/finch/datadisk", link "/disk") ∷ []) refl

content-ensure_user_data_disk_example :
    content "/disk" (ensure_user_data_disk host fresh_link).1 ≡ some "data"
unfolding lookup ◌==◌
content-ensure_user_data_disk_example =
    content-ensure_user_data_disk host content host-IsKeeping "data" refl "qemu" refl refl
      fresh_link refl
