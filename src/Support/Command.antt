-- ===== src/Support/Command.antt =====
-- cmd/finch/support_bundle.go and support_bundle_remote.go: `finch support-bundle generate`.
use finch.Prelude.{
  ℕ, suc, String, ◌<>◌, List, [], ◌≡◌, ◌≢◌, ◌⊎◌, inl, inr, refl, message, Result, ok, err, panicked,
  ◌>>=◌, ◌>>◌, bind-eq_ok,
}
use finch.Prelude.Int.{ℤ, pos, negsuc}
use finch.Text.Decimal.{itoa}
use finch.Lima.{
  Reply, VmStatus, running, stopped, nonexistent, unknown, get_vm_status, lima_instance_name,
}
use finch.Support.{BundleHost, BundleCfg}
use finch.Support.Bundle.{Bundle}
use finch.Support.Generate.{generate_support_bundle}
use finch.Support.Entries.{AllEntries}
use finch.Support.Allowed.{IsAllowed}
use finch.Support.Contents.{generate_support_bundle-IsAllowed}

-- The flags, as cobra reads them.
pub record BundleFlags : Type 0 where
  pub includes : List String
  pub excludes : List String
  pub num_lines : ℤ

abbrev pub int_text : ℤ → String
int_text (pos n) = itoa n
int_text (negsuc n) = "-" <> itoa (suc n)

abbrev pub bundle_cfg : BundleFlags → BundleCfg
bundle_cfg f = record {
  additional_files = f.includes;
  exclude_files = f.excludes;
  log_lines = int_text f.num_lines;
}

abbrev pub check_lines : ℤ → Result (Unit {0})
check_lines (pos n) = ok tt
check_lines (negsuc n) = err (
    message
      ("num-lines cannot be less than zero (provided value: " <> (int_text (negsuc n) <> ")")))

abbrev pub check_exists : VmStatus → Result (Unit {0})
check_exists nonexistent = err (
    message
      "cannot create support bundle for nonexistent VM, run `finch vm init` to create a new instance")
check_exists _ = ok tt

-- `canCreateBundle`, from the reply of limactl
unfoldable pub can_create_bundle : Reply → Result (Unit {0})
unfolding get_vm_status
can_create_bundle reply = get_vm_status lima_instance_name reply >>= check_exists

abbrev pub MayGenerate : BundleFlags → Reply → Type 0
MayGenerate f reply =
    ((n : ℕ) × (f.num_lines ≡ pos n))
    × ((s : VmStatus) × (get_vm_status lima_instance_name reply ≡ ok s) × (s ≢ nonexistent))

check_lines-pos : (z : ℤ) → check_lines z ≡ ok tt → (n : ℕ) × (z ≡ pos n)
check_lines-pos (pos n) e = (n, refl)
check_lines-pos (negsuc n) e = cc

check_exists-ne-nonexistent : (s : VmStatus) → check_exists s ≡ ok tt → s ≢ nonexistent
check_exists-ne-nonexistent running e = cc
check_exists-ne-nonexistent stopped e = cc
check_exists-ne-nonexistent unknown e = cc
check_exists-ne-nonexistent nonexistent e = cc

may_generate :
    (f : BundleFlags) (reply : Reply)
    → (check_lines f.num_lines >> can_create_bundle reply) ≡ ok tt
    → MayGenerate f reply
unfolding can_create_bundle
may_generate f reply e =
    let (u, lines, there) = bind-eq_ok (check_lines f.num_lines) _ tt e in
    let (s, status, exists) = bind-eq_ok (get_vm_status lima_instance_name reply) _ tt there in
    (check_lines-pos f.num_lines lines, (s, status, check_exists-ne-nonexistent s exists))

module _ (h : BundleHost) where
  abbrev pub nothing_made : h.World → Bundle h
  nothing_made w = record { world = w; entries = [] }

  abbrev pub generate_where : Result (Unit {0}) → BundleCfg → h.World → Result String × Bundle h
  generate_where (ok u) cfg w = generate_support_bundle h cfg w
  generate_where (err e) cfg w = (err e, nothing_made w)
  generate_where panicked cfg w = (panicked, nothing_made w)

  -- `runAdapter` and `run`: the name of the bundle, which is logged, or the error.
  unfoldable pub generate_action : BundleFlags → Reply → h.World → Result String × Bundle h
  unfolding can_create_bundle generate_support_bundle
  generate_action f reply =
      generate_where (check_lines f.num_lines >> can_create_bundle reply) (bundle_cfg f)

  -- Whatever fails, each entry that `finch support-bundle generate` has made is one of the three that
  -- each bundle has, or a copy of a collected file that no `--exclude` names by its last component or
  -- by its path: the first lines of what is read for this file, or all of them, each with every
  -- pattern of the redaction replaced in turn. There is no entry unless limactl knows the machine and
  -- the number of lines is not negative.
  pub generate_action-IsAllowed :
      (f : BundleFlags) (reply : Reply) (w : h.World)
      → let b = (generate_action f reply w).1 in
        AllEntries (IsAllowed h (bundle_cfg f)) b.entries × (b.entries ≡ [] ⊎ MayGenerate f reply)
  unfolding generate_action
  generate_action-IsAllowed f reply w = go (check_lines f.num_lines >> can_create_bundle reply) refl
    where
      go :
          (r : Result (Unit {0}))
          → (check_lines f.num_lines >> can_create_bundle reply) ≡ r
          → let b = (generate_where r (bundle_cfg f) w).1 in
            AllEntries (IsAllowed h (bundle_cfg f)) b.entries
            × (b.entries ≡ [] ⊎ MayGenerate f reply)
      go (ok u) e =
          (generate_support_bundle-IsAllowed h (bundle_cfg f) w, inr (may_generate f reply e))
      go (err e') e = (tt, inl refl)
      go panicked e = (tt, inl refl)
