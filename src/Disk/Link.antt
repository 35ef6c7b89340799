-- ===== src/Disk/Link.antt =====
-- Lima finds the persistent disk where it looks for its own.
use finch.Prelude.{
  String, ◌==◌, ==_iff, Bool, true, false, ◌≡◌, refl, ap, ◌∙◌, [], ◌∷◌, Result, ok, err, panicked,
  Bool-cases, Option-cases, inl, inr, if◌then◌else◌,
}
use finch.Lima.{Reply}
use finch.Disk.{
  DiskHost, DiskAct, lima_path, ensure_user_data_disk, ensure_attached, ensure_link, relink,
  attach_persistent_disk, clear_lima_path, unlock_if_locked, unlock_lima_disk, checked, continue,
  ◌>>=◌, ◌>>◌, ensure_raw, create_lima_disk, lima_disk_exists, checked_reply, lima_disk_is_locked,
  move_to_persistent, is_ok,
}

-- A link that was made is there to be read, and `limactl disk unlock` leaves it.
pub record IsLinking (h : DiskHost) : Type 0 where
  pub readlink-symlink :
      (target path : String) (w w' : h.World)
      → h.symlink target path w ≡ (ok tt, w')
      → h.readlink path w' ≡ ok target
  pub unlock_keeps :
      (path : String) (w : h.World)
      → h.readlink path (h.limactl ("disk" ∷ "unlock" ∷ "finch" ∷ []) w).1 ≡ h.readlink path w

module _ (h : DiskHost) where
  -- At Lima's path is a link to the persistent disk.
  abbrev pub IsLinked : h.World → Type 0
  IsLinked w = h.readlink (lima_path h) w ≡ ok h.disk_path

  -- An action that, where it succeeds, leaves the link.
  record Links {A : Type 0} (m : DiskAct h A) : Type 0 where
    at : (w w' : h.World) (a : A) → m w ≡ (ok a, w') → IsLinked w'

  Links-bind :
      {A B : Type 0} (m : DiskAct h A) (f : A → DiskAct h B)
      → ((a : A) → Links (f a))
      → Links (◌>>=◌ h m f)
  Links-bind {A} {B} m f kf = record { at = λ w. go (m w).0 (m w).1 }
    where
      go : (r : Result A) (w w' : h.World) (b : B) → continue h r f w ≡ (ok b, w') → IsLinked w'
      go (ok a) w w' b e = (kf a).at w w' b e
      go (err x) w w' b e = cc
      go panicked w w' b e = cc

  -- What succeeds has parts that succeed.
  bind-inv :
      {A B : Type 0} (m : DiskAct h A) (f : A → DiskAct h B) (w w'' : h.World) (b : B)
      → (◌>>=◌ h m f) w ≡ (ok b, w'')
      → (a : A) × (w' : h.World) × (m w ≡ (ok a, w')) × (f a w' ≡ (ok b, w''))
  bind-inv {A} {B} m f w w'' b e = go (m w).0 (m w).1 refl e
    where
      go :
          (r : Result A) (w' : h.World)
          → m w ≡ (r, w')
          → continue h r f w' ≡ (ok b, w'')
          → (a : A) × (w' : h.World) × (m w ≡ (ok a, w')) × (f a w' ≡ (ok b, w''))
      go (ok a) w' e k = (a, w', e, k)
      go (err x) w' e k = cc
      go panicked w' e k = cc

  pub checked_reply-world : (text : String) (p : Reply × h.World) → (checked_reply h text p).1 ≡ p.1
  unfolding checked_reply
  checked_reply-world text (r, w) = elim (Option-cases r.failed) [
    | inl e ↦ rw e
    | inr (x, e) ↦ rw e
  ]

module _ (h : DiskHost) (law : IsLinking h) where
  Links-attach : Links h (attach_persistent_disk h)
  unfolding attach_persistent_disk
  Links-attach =
      Links-bind h
        (λ w. if is_ok h (h.stat h.disk_path w) then (ok tt, w) else move_to_persistent h w) _
        λ _.
          Links-bind h (clear_lima_path h) _
            λ _. record { at = λ w w' u e. law.readlink-symlink h.disk_path (lima_path h) w w' e }

  Links-ensure_link : Links h (ensure_link h)
  unfolding ensure_link relink
  Links-ensure_link = record { at = λ w w' u e. go w w' u (h.readlink (lima_path h) w) refl e }
    where
      go :
          (w w' : h.World) (u : Unit {0}) (r : Result String)
          → h.readlink (lima_path h) w ≡ r
          → continue h r (relink h) w ≡ (ok u, w')
          → IsLinked h w'
      go w w' u (ok loc) there e = elim (Bool-cases (loc == h.disk_path)) [
        | inl same ↦
            rw (← ap (λ (p : Result (Unit {0}) × h.World). p.1) (rw same at e))
              (there ∙ ap ok (==_iff loc h.disk_path same))
        | inr other ↦ (Links-attach).at w w' u (rw other at e)
      ]
      go w w' u (err x) there e = cc
      go w w' u panicked there e = cc

  Links-ensure_attached : (found : Bool) → Links h (ensure_attached h found)
  unfolding ensure_attached
  Links-ensure_attached true = Links-bind h (ensure_raw h) _ λ _. Links-ensure_link
  Links-ensure_attached false = Links-bind h (create_lima_disk h) _ λ _. Links-attach

  unlock-keeps :
      (w w' : h.World) (u : Unit {0})
      → IsLinked h w
      → unlock_if_locked h w ≡ (ok u, w')
      → IsLinked h w'
  unfolding unlock_if_locked unlock_lima_disk checked checked_reply
  unlock-keeps w w' u l e = elim (Bool-cases (lima_disk_is_locked h w)) [
    | inl locked ↦
        let left = ap (λ (p : Result (Unit {0}) × h.World). p.1) (rw locked at e) in
        rw (← left, checked_reply-world h _ (h.limactl ("disk" ∷ "unlock" ∷ "finch" ∷ []) w))
          (law.unlock_keeps (lima_path h) w ∙ l)
    | inr free ↦ rw (← ap (λ (p : Result (Unit {0}) × h.World). p.1) (rw free at e)) l
  ]

  -- Where `EnsureUserDataDisk` succeeds, Lima finds a link to the persistent disk at the path of its own
  -- disk, whether Lima had a disk before or not.
  pub ensure_user_data_disk-IsLinked :
      (w w' : h.World) → ensure_user_data_disk h w ≡ (ok tt, w') → IsLinked h w'
  unfolding ensure_user_data_disk
  ensure_user_data_disk-IsLinked w w' e =
      let (found, w1, e1, rest) =
        bind-inv h (lima_disk_exists h)
          (λ found. ◌>>◌ h (ensure_attached h found) (unlock_if_locked h)) w w' tt e in
      let (u, w2, e2, last) =
        bind-inv h (ensure_attached h found) (λ _. unlock_if_locked h) w1 w' tt rest in
      unlock-keeps w2 w' tt ((Links-ensure_attached found).at w1 w2 u e2) last
