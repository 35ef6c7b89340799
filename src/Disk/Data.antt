-- ===== src/Disk/Data.antt =====
-- The user's data is not touched while the disk is attached.
use finch.Prelude.{
  String, ◌==◌, Bool, true, false, ◌≡◌, ap, ◌∙◌, List, [], ◌∷◌, Option, some, Result, ok, err,
  panicked, Bool-cases, inl, inr, if◌then◌else◌, is_not_exist,
}
use finch.Disk.{
  DiskHost, DiskAct, lima_path, ensure_user_data_disk, ensure_attached, ensure_link, relink, raise,
  attach_persistent_disk, clear_lima_path, clear_stat, unlock_if_locked, unlock_lima_disk, checked,
  continue, ◌>>=◌, ensure_raw, create_lima_disk, lima_disk_exists, lima_disk_is_locked,
  move_to_persistent, is_ok, listed,
}
use finch.Disk.Link.{checked_reply-world}

-- The commands of limactl on disks: the list of them, a new disk, and the end of a lock. They work on
-- Lima's own directory of disks.
pub data IsDiskCommand : List String → Type 0 where
  listing : IsDiskCommand ("disk" ∷ "ls" ∷ "finch" ∷ "--json" ∷ [])
  creation :
      (size : String)
      → IsDiskCommand ("disk" ∷ "create" ∷ "finch" ∷ "--size" ∷ size ∷ "--format" ∷ "raw" ∷ [])
  unlocking : IsDiskCommand ("disk" ∷ "unlock" ∷ "finch" ∷ [])

-- `content` is what a file holds. A file that holds something is there; these commands of limactl,
-- and deleting or linking at another path, leave it.
pub record IsKeeping (h : DiskHost) (content : String → h.World → Option String) : Type 0 where
  pub stat_content :
      (path text : String) (w : h.World) → content path w ≡ some text → h.stat path w ≡ ok tt
  pub limactl_keeps :
      (args : List String) (w : h.World)
      → IsDiskCommand args
      → content h.disk_path (h.limactl args w).1 ≡ content h.disk_path w
  pub remove_keeps :
      (path other : String) (w : h.World)
      → (path == other) ≡ false
      → content other (h.remove path w).1 ≡ content other w
  pub symlink_keeps :
      (target path other : String) (w : h.World)
      → (path == other) ≡ false
      → content other (h.symlink target path w).1 ≡ content other w

module _ (h : DiskHost) (content : String → h.World → Option String) (text : String) where
  -- An action that leaves the text in the persistent disk, whether it succeeds or fails.
  record Keeps {A : Type 0} (m : DiskAct h A) : Type 0 where
    at : (w : h.World) → content h.disk_path w ≡ some text → content h.disk_path (m w).1 ≡ some text

  Keeps-continue :
      {A B : Type 0} (r : Result A) (f : A → DiskAct h B)
      → ((a : A) → Keeps (f a))
      → Keeps (continue h r f)
  Keeps-continue (ok a) f kf = record { at = (kf a).at }
  Keeps-continue (err e) f kf = record { at = λ w c. c }
  Keeps-continue panicked f kf = record { at = λ w c. c }

  Keeps-bind :
      {A B : Type 0} (m : DiskAct h A) (f : A → DiskAct h B)
      → Keeps m
      → ((a : A) → Keeps (f a))
      → Keeps (◌>>=◌ h m f)
  Keeps-bind m f km kf = record { at = λ w c. (Keeps-continue (m w).0 f kf).at (m w).1 (km.at w c) }

  Keeps-raise : {A : Type 0} (r : Result A) → Keeps (raise h r)
  Keeps-raise r = record { at = λ w c. c }

module _ (h : DiskHost) (content : String → h.World → Option String) (law : IsKeeping h content)
    (text : String) (apart : (lima_path h == h.disk_path) ≡ false) where
  Keeps-checked :
      (words : String) (args : List String)
      → IsDiskCommand args
      → Keeps h content text (checked h words (h.limactl args))
  unfolding checked
  Keeps-checked words args k = record {
    at = λ w c.
        ap (content h.disk_path) (checked_reply-world h words (h.limactl args w))
        ∙ law.limactl_keeps args w k
        ∙ c;
  }

  Keeps-clear : Keeps h content text (clear_lima_path h)
  unfolding clear_lima_path clear_stat
  Keeps-clear = record { at = λ w c. go (h.stat (lima_path h) w) w c }
    where
      go :
          (r : Result (Unit {0})) (w : h.World)
          → content h.disk_path w ≡ some text
          → content h.disk_path (clear_stat h r w).1 ≡ some text
      go (ok u) w c = law.remove_keeps (lima_path h) h.disk_path w apart ∙ c
      go (err e) w c = elim (Bool-cases (is_not_exist e)) [ inl t ↦ rw t c | inr f ↦ rw f c ]
      go panicked w c = c

  Keeps-attach : Keeps h content text (attach_persistent_disk h)
  unfolding attach_persistent_disk is_ok
  Keeps-attach =
      Keeps-bind h content text
        (λ w. if is_ok h (h.stat h.disk_path w) then (ok tt, w) else move_to_persistent h w) _
        (record { at = λ w c. rw (law.stat_content h.disk_path text w c) c })
        λ _. Keeps-bind h content text (clear_lima_path h) _ Keeps-clear λ _. record {
          at = λ w c. law.symlink_keeps h.disk_path (lima_path h) h.disk_path w apart ∙ c;
        }

  Keeps-relink : (loc : String) → Keeps h content text (relink h loc)
  unfolding relink
  Keeps-relink loc = elim (Bool-cases (loc == h.disk_path)) [
    | inl t ↦ rw t (record { at = λ w c. c })
    | inr f ↦ rw f Keeps-attach
  ]

  Keeps-ensure_link : Keeps h content text (ensure_link h)
  unfolding ensure_link
  Keeps-ensure_link = record {
    at = λ w.
        (Keeps-continue h content text (h.readlink (lima_path h) w) (relink h) Keeps-relink).at w;
  }

  module _ (vm_type : String) (set : h.vm_type ≡ some vm_type)
      (qemu : (vm_type == "vz") ≡ false) where
    Keeps-ensure_raw : Keeps h content text (ensure_raw h)
    unfolding ensure_raw
    Keeps-ensure_raw = rw (set, qemu) (record { at = λ w c. c })

    Keeps-ensure_attached : (found : Bool) → Keeps h content text (ensure_attached h found)
    unfolding ensure_attached create_lima_disk
    Keeps-ensure_attached true =
        Keeps-bind h content text _ _ Keeps-ensure_raw λ _. Keeps-ensure_link
    Keeps-ensure_attached false =
        Keeps-bind h content text (create_lima_disk h) _
          (Keeps-bind h content text (raise h _) _ (Keeps-raise h content text _)
            λ size. Keeps-checked _ _ (creation size))
          λ _. Keeps-attach

    Keeps-unlock : Keeps h content text (unlock_if_locked h)
    unfolding unlock_if_locked unlock_lima_disk
    Keeps-unlock = record {
      at = λ w c. elim (Bool-cases (lima_disk_is_locked h w)) [
        | inl t ↦ rw t ((Keeps-checked _ _ unlocking).at w c)
        | inr f ↦ rw f c
      ];
    }

    -- On a machine that is not of the type `vz`, `EnsureUserDataDisk` leaves what the persistent disk
    -- holds as it is, whether it succeeds or fails, where Lima's path is another one and limactl's
    -- commands on disks leave it.
    pub content-ensure_user_data_disk :
        (w : h.World)
        → content h.disk_path w ≡ some text
        → content h.disk_path (ensure_user_data_disk h w).1 ≡ some text
    unfolding ensure_user_data_disk lima_disk_exists listed
    content-ensure_user_data_disk w c =
        (Keeps-bind h content text (lima_disk_exists h) _
            (record { at = λ w c. law.limactl_keeps _ w listing ∙ c })
            λ found.
              Keeps-bind h content text _ _ (Keeps-ensure_attached found) λ _. Keeps-unlock).at
          w c
