-- ===== src/Config/LimaYaml/Override.antt =====
-- The override configuration for Lima: the machine, the boot scripts, and the file left behind.
use finch.Prelude.{
  String, ◌<>◌, Bool, false, some, List, [], ◌∷◌, ◌++◌, ◌==◌, if◌then◌else◌, Result, ok, err, Error,
  message, wrapped, context, ◌≡◌, refl, ap, sym, arith, inl, inr, Bool-cases, ◌∙◌, ℕ, ◌+◌, length,
  suc, bind-eq_ok, ok_inj, context-eq_ok,
}
use finch.Config.Types.{Finch}
use finch.Config.System.{System}
use finch.Config.Files.{Store}
use finch.Config.Files.Laws.{IsStore}
use finch.Config.LimaYaml.{
  configure_disk, configure_cpus, configure_memory, configure_default_snapshotter,
  default_snapshotter_env, with_snapshotters, provision_snapshotters, provision_soci_snapshotter,
  override_of, configure_override_lima_yaml, rewrite, mounts_of,
}
use finch.Config.LimaYaml.Yaml.{Mount, empty_yaml, Soci, LimaYaml, add_provision}

-- How many times the snapshotters name soci.
unfoldable pub soci_count : List String → ℕ
soci_count [] = 0
soci_count (s ∷ ss) = (if s == "soci" then 1 else 0) + soci_count ss

length-snoc : {A : Type 0} (xs : List A) (x : A) → length (xs ++ x ∷ []) ≡ suc (length xs)
length-snoc [] x = refl
length-snoc (y ∷ xs) x = ap suc (length-snoc xs x)

length-provision_soci :
    (soci : Soci) (arch vm_type : String) (y : LimaYaml)
    → length (provision_soci_snapshotter soci arch vm_type y).provision ≡ suc (length y.provision)
unfolding provision_soci_snapshotter add_provision
length-provision_soci soci arch vm_type y = length-snoc y.provision _

-- When the snapshotters can be provisioned, each mention of soci adds one script.
length-provision_snapshotters :
    (soci : Soci) (arch vm_type : String) (ss : List String) (y y' : LimaYaml)
    → provision_snapshotters soci arch vm_type ss y ≡ ok y'
    → length y'.provision ≡ soci_count ss + length y.provision
unfolding provision_snapshotters soci_count
length-provision_snapshotters soci arch vm_type [] y y' h = ground arith
length-provision_snapshotters soci arch vm_type (s ∷ ss) y y' h =
    let by_soci =
      length-provision_snapshotters soci arch vm_type ss
        (provision_soci_snapshotter soci arch vm_type y) y' in
    let by_skip = length-provision_snapshotters soci arch vm_type ss y y' in
    let one = length-provision_soci soci arch vm_type y in ground arith

-- A snapshotter that is neither soci nor overlayfs makes the loop fail.
provision_snapshotters-unsupported :
    (soci : Soci) (arch vm_type : String) (before : List String) (s : String) (after : List String)
    (y : LimaYaml)
    → (s == "soci") ≡ false
    → (s == "overlayfs") ≡ false
    → (e : Error) × (provision_snapshotters soci arch vm_type (before ++ s ∷ after) y ≡ err e)
unfolding provision_snapshotters
provision_snapshotters-unsupported soci arch vm_type [] s after y n n' =
    (message ("snapshotter " <> s <> " is not supported"), rw (provision_snapshotters, n, n'))
provision_snapshotters-unsupported soci arch vm_type (b ∷ before) s after y n n' =
    elim (Bool-cases (b == "soci")) [
      | inl t ↦
          let (e, h) =
            provision_snapshotters-unsupported soci arch vm_type before s after
              (provision_soci_snapshotter soci arch vm_type y) n n' in
          (e, rw (provision_snapshotters, t) h)
      | inr f ↦ elim (Bool-cases (b == "overlayfs")) [
        | inl t ↦
            let (e, h) =
              provision_snapshotters-unsupported soci arch vm_type before s after y n n' in
            (e, rw (provision_snapshotters, f, t) h)
        | inr f' ↦ (
          message ("snapshotter " <> b <> " is not supported"),
          rw (provision_snapshotters, f, f'),
        )
      ]
    ]

-- What the scripts leave as it is.
abbrev SameMachine : LimaYaml → LimaYaml → Type 0
SameMachine y y' =
    (y'.cpus ≡ y.cpus) × (y'.memory ≡ y.memory) × (y'.additional_disks ≡ y.additional_disks)

provision_snapshotters-SameMachine :
    (soci : Soci) (arch vm_type : String) (ss : List String) (y y' : LimaYaml)
    → provision_snapshotters soci arch vm_type ss y ≡ ok y'
    → SameMachine y y'
unfolding provision_snapshotters provision_soci_snapshotter add_provision
provision_snapshotters-SameMachine soci arch vm_type [] y y' h =
    let e = sym (ok_inj y y' h) in
    (ap (λ z. z.cpus) e, ap (λ z. z.memory) e, ap (λ z. z.additional_disks) e)
provision_snapshotters-SameMachine soci arch vm_type (s ∷ ss) y y' h =
    let by_soci =
      provision_snapshotters-SameMachine soci arch vm_type ss
        (provision_soci_snapshotter soci arch vm_type y) y' in
    let by_skip = provision_snapshotters-SameMachine soci arch vm_type ss y y' in
    elim (Bool-cases (s == "soci")) [
      | inl t ↦ by_soci (rw (provision_snapshotters, t) at h)
      | inr f ↦ elim (Bool-cases (s == "overlayfs")) [
        | inl t ↦ by_skip (rw (provision_snapshotters, f, t) at h)
        | inr f' ↦ cc
      ]
    ]

-- The configuration before the snapshotters.
machine : String → Finch → List Mount → LimaYaml
unfolding configure_disk configure_memory configure_cpus
machine vm_type cfg ms =
    configure_disk vm_type
      (record (configure_memory cfg (configure_cpus cfg empty_yaml)) { mounts = ms })

override_of-machine :
    (soci : Soci) (arch : String) (cfg : Finch) (ms : List Mount) (vm_type : String)
    → mounts_of cfg.additional_directories ≡ ok ms
    → cfg.vm_type ≡ some vm_type
    → override_of soci arch cfg ≡ with_snapshotters soci arch vm_type cfg (machine vm_type cfg ms)
unfolding override_of machine
override_of-machine soci arch cfg ms vm_type m v = rw (m, v)

machine_lem :
    (vm_type : String) (cfg : Finch) (ms : List Mount)
    → (vm_type == "wsl2") ≡ false
    → machine vm_type cfg ms ≡ record empty_yaml {
      cpus = cfg.cpus;
      memory = cfg.memory;
      mounts = ms;
      additional_disks = "finch" ∷ [];
    }
unfolding machine
machine_lem vm_type cfg ms n = rw n

configure_default_snapshotter-SameMachine :
    (cfg : Finch) (y y' : LimaYaml)
    → configure_default_snapshotter cfg y ≡ ok y'
    → SameMachine y y' × (y'.provision ≡ y.provision)
unfolding configure_default_snapshotter
configure_default_snapshotter-SameMachine cfg y y' h =
    let (env, d, k) = bind-eq_ok (default_snapshotter_env cfg.snapshotters) _ y' h in
    let e = sym (ok_inj _ y' k) in
    (
      (ap (λ z. z.cpus) e, ap (λ z. z.memory) e, ap (λ z. z.additional_disks) e),
      ap (λ z. z.provision) e,
    )

if-false : {A : Type 0} (b : Bool) (x y : A) → b ≡ false → (if b then x else y) ≡ y
if-false b x y h = rw h

with_snapshotters_lem :
    (soci : Soci) (arch : String) (cfg : Finch) (vm_type : String) (y y' : LimaYaml)
    → (vm_type == "wsl2") ≡ false
    → with_snapshotters soci arch vm_type cfg y ≡ ok y'
    → SameMachine y y' × (length y'.provision ≡ soci_count cfg.snapshotters + length y.provision)
unfolding with_snapshotters
with_snapshotters_lem soci arch cfg vm_type y y' n h =
    let (y1, p, h1) =
      bind-eq_ok
        (context "failed to provision snapshotters"
          (provision_snapshotters soci arch vm_type cfg.snapshotters y))
        _ y' h in
    let p' = context-eq_ok _ _ y1 p in
    let (c1, r1, d1) =
      provision_snapshotters-SameMachine soci arch vm_type cfg.snapshotters y y1 p' in
    let count = length-provision_snapshotters soci arch vm_type cfg.snapshotters y y1 p' in
    let (y2, d, h2) =
      bind-eq_ok
        (context "failed to configure default snapshotter" (configure_default_snapshotter cfg y1)) _
        y' h1 in
    let ((c2, r2, d2), q2) =
      configure_default_snapshotter-SameMachine cfg y1 y2 (context-eq_ok _ _ y2 d) in
    let e = sym (ok_inj _ y' h2) ∙ if-false (vm_type == "wsl2") _ y2 n in
    (
      (
        ap (λ z. z.cpus) e ∙ c2 ∙ c1,
        ap (λ z. z.memory) e ∙ r2 ∙ r1,
        ap (λ z. z.additional_disks) e ∙ d2 ∙ d1,
      ),
      ap (λ z. length z.provision) e ∙ ap length q2 ∙ count,
    )

-- Where `ConfigureOverrideLimaYaml` makes a configuration on a machine that is not WSL 2, Lima gets the
-- processors and the memory of finch's configuration, the one disk `finch`, and one boot script for
-- each time that the snapshotters name soci.
pub override_of_lem :
    (soci : Soci) (arch : String) (cfg : Finch) (ms : List Mount) (vm_type : String) (y : LimaYaml)
    → mounts_of cfg.additional_directories ≡ ok ms
    → cfg.vm_type ≡ some vm_type
    → (vm_type == "wsl2") ≡ false
    → override_of soci arch cfg ≡ ok y
    → (y.cpus ≡ cfg.cpus)
      × (y.memory ≡ cfg.memory)
      × (y.additional_disks ≡ "finch" ∷ [])
      × (length y.provision ≡ soci_count cfg.snapshotters)
override_of_lem soci arch cfg ms vm_type y m v n h =
    let m0 = machine_lem vm_type cfg ms n in
    let ((c, r, d), count) =
      with_snapshotters_lem soci arch cfg vm_type (machine vm_type cfg ms) y n
        (sym (override_of-machine soci arch cfg ms vm_type m v) ∙ h) in
    (
      c ∙ ap (λ z. z.cpus) m0,
      r ∙ ap (λ z. z.memory) m0,
      d ∙ ap (λ z. z.additional_disks) m0,
      count ∙ ap (λ z. soci_count cfg.snapshotters + length z.provision) m0 ∙ omega arith,
    )

-- `ConfigureOverrideLimaYaml` for a snapshotter that is neither soci nor overlayfs ends in an error
-- and leaves the file empty.
pub configure_override_lima_yaml-unsupported :
    (st : Store)
    → IsStore st
    → (marshal : LimaYaml → Result String) (soci : Soci) (sys : System) (cfg : Finch)
      (path : String) (ms : List Mount) (vm_type : String) (before : List String) (s : String)
      (after : List String) (w w' : st.World)
    → mounts_of cfg.additional_directories ≡ ok ms
    → cfg.vm_type ≡ some vm_type
    → cfg.snapshotters ≡ before ++ s ∷ after
    → (s == "soci") ≡ false
    → (s == "overlayfs") ≡ false
    → st.write_file path "" w ≡ (ok tt, w')
    → (e : Error) × (configure_override_lima_yaml st marshal soci sys cfg path w ≡ (err e, w'))
      × (st.read_file path w' ≡ ok "")
unfolding configure_override_lima_yaml rewrite with_snapshotters
configure_override_lima_yaml-unsupported st law marshal soci sys cfg path ms vm_type before s after
      w w' m v ss n n' h =
    let start = machine vm_type cfg ms in
    let (e, p) =
      provision_snapshotters-unsupported soci sys.arch vm_type before s after start n n' in
    let made = override_of-machine soci sys.arch cfg ms vm_type m v in
    (
      wrapped "failed to provision snapshotters" e,
      rw (h, made, ap (λ l. provision_snapshotters soci sys.arch vm_type l start) ss ∙ p),
      law.read-write path "" w w' h,
    )
