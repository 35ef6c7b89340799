-- ===== src/Config/LimaYaml/Default.antt =====
-- What kind of machine the default configuration for Lima makes.
use finch.Prelude.{
  String, Bool, true, false, ◌&&◌, some, ◌==◌, ==_iff, Result, ok, err, panicked, ◌≡◌, refl, ap,
  sym, arith, ◌⊎◌, inl, inr, Bool-cases, ◌∙◌, bind-eq_ok, ok_inj, context-eq_ok,
}
use finch.Config.Types.{Finch}
use finch.Config.System.{System, supports_virtualization_framework}
use finch.Config.LimaYaml.Yaml.{LimaYaml, deref}
use finch.Config.LimaYaml.{
  default_of, configure_virtualization_framework, require_support, mount_type_of,
}

require_support-eq_ok : (r : Result Bool) → require_support r ≡ ok tt → r ≡ ok true
unfolding require_support
require_support-eq_ok (ok true) h = refl
require_support-eq_ok (ok false) h = cc
require_support-eq_ok (err e) h = cc
require_support-eq_ok panicked h = cc

mount_type_of-eq_ok :
    (r : Result Bool) (vm_type mount_type : String)
    → mount_type_of r vm_type ≡ ok mount_type
    → ((vm_type ≡ "vz") × (mount_type ≡ "virtiofs") × (r ≡ ok true))
      ⊎ ((vm_type ≡ "qemu") × (mount_type ≡ "reverse-sshfs"))
unfolding mount_type_of
mount_type_of-eq_ok r vm_type mount_type h = elim (Bool-cases (vm_type == "vz")) [
  | inl t ↦
      let (u, e, k) = bind-eq_ok (require_support r) _ mount_type (rw (mount_type_of, t) at h) in
      inl (==_iff vm_type "vz" t, sym (ok_inj _ _ k), require_support-eq_ok r e)
  | inr f ↦ elim (Bool-cases (vm_type == "qemu")) [
    | inl t ↦ inr (==_iff vm_type "qemu" t, sym (ok_inj _ _ (rw (mount_type_of, f, t) at h)))
    | inr f' ↦ ground arith
  ]
]

-- Where the configuration of a new machine is made, it is either a machine of the type `vz`, with
-- virtiofs, on a system that supports the virtualization framework, or one of the type `qemu`, with
-- reverse-sshfs and without Rosetta.
default_of_lem :
    (sys : System) (cfg : Finch) (y : LimaYaml)
    → default_of sys cfg ≡ ok y
    → ((y.vm_type ≡ some "vz")
        × (y.mount_type ≡ some "virtiofs")
        × (supports_virtualization_framework sys.sw_vers ≡ ok true))
      ⊎ ((y.vm_type ≡ some "qemu")
          × (y.mount_type ≡ some "reverse-sshfs")
          × (y.rosetta_enabled ≡ some false))
unfolding default_of configure_virtualization_framework
default_of_lem sys cfg y h =
    let h' = context-eq_ok _ _ y h in
    let (rosetta, r, h'') = bind-eq_ok (deref cfg.rosetta) _ y h' in
    elim (Bool-cases (rosetta && sys.arch == "arm64")) [
      | inl t ↦
          let (u, e, k) = bind-eq_ok (require_support _) _ y (rw t at h'') in
          let made = sym (ok_inj _ _ k) in
          inl (ap (λ z. z.vm_type) made, ap (λ z. z.mount_type) made, require_support-eq_ok _ e)
      | inr f ↦
          let (vm_type, v, k) = bind-eq_ok (deref cfg.vm_type) _ y (rw f at h'') in
          let (mount_type, m, k') = bind-eq_ok (mount_type_of _ vm_type) _ y k in
          let made = sym (ok_inj _ _ k') in
          elim (mount_type_of-eq_ok _ vm_type mount_type m) [
            | inl (t, t', sup) ↦ inl (
              ap (λ z. z.vm_type) made ∙ ap some t,
              ap (λ z. z.mount_type) made ∙ ap some t',
              sup,
            )
            | inr (t, t') ↦ inr (
              ap (λ z. z.vm_type) made ∙ ap some t,
              ap (λ z. z.mount_type) made ∙ ap some t',
              ap (λ z. z.rosetta_enabled) made,
            )
          ]
    ]
