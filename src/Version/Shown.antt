-- ===== src/Version/Shown.antt =====
-- `finch version` always prints something.
use finch.Prelude.{
  String, ◌<>◌, List, [], ◌∷◌, ◌++◌, ◌≡◌, ◌≢◌, ◌⊎◌, inl, inr, refl, ap, ◌∙◌, Error, context,
  context-eq_ok, bind-eq_ok, Result, ok, err, panicked,
}
use finch.Lima.{
  VmStatus, running, stopped, nonexistent, unknown, get_vm_status, status_args, lima_instance_name,
}
use finch.Version.{
  VersionHost, Outcome, shown, failed, check_running, version_text, print_version, print_text,
  version_line, joined, or_version_line, run_version,
}

module _ (h : VersionHost) where
  abbrev pub vm_status : Result VmStatus
  vm_status = get_vm_status lima_instance_name (h.limactl (status_args lima_instance_name))

  -- A standard output that takes everything; `printed` is what it has got.
  pub record IsPrinting (printed : h.World → List String) : Type 0 where
    pub print_ok : (s : String) (w : h.World) → (h.print s w).0 ≡ ok tt
    pub print_adds : (s : String) (w : h.World) → printed (h.print s w).1 ≡ printed w ++ s ∷ []

  check_running-running : (s : VmStatus) → check_running s ≡ ok tt → s ≡ running
  check_running-running running e = refl
  check_running-running stopped e = cc
  check_running-running nonexistent e = cc
  check_running-running unknown e = cc

  version_text-running :
      (format text : String) → version_text h format ≡ ok text → vm_status ≡ ok running
  unfolding version_text
  version_text-running format text e =
      let (s, a, b) = bind-eq_ok (context "failed to get VM status" vm_status) _ text e in
      let (u, c, k) = bind-eq_ok (check_running s) _ text b in
      context-eq_ok "failed to get VM status" vm_status s a
      ∙ ap ok (check_running-running s (c ∙ one u))
    where
      one : (u : Unit {0}) → ok u ≡ ok tt
      one u = refl

  abbrev pub Shows : (h.World → List String) → String → h.World → Outcome × h.World → Type 0
  Shows printed format w a =
      (a.0 ≡ shown)
      × (vm_status ≡ ok running)
      × ((text : String) × (version_text h format ≡ ok text)
          × (printed a.1 ≡ printed w ++ (text <> "\n") ∷ []))

  abbrev pub Fails : (h.World → List String) → String → h.World → Outcome × h.World → Type 0
  Fails printed format w a =
      (e : Error) × (a.0 ≡ failed e)
      × (version_text h format ≡ err e)
      × (printed a.1 ≡ printed w ++ version_line h ∷ [])

  -- `finch version` prints one text: the versions, only while the machine is running and only where
  -- nothing has failed; or, with an error, the line with finch's own version.
  pub run_version_lem :
      (printed : h.World → List String)
      → IsPrinting printed
      → (format : String) (w : h.World) → version_text h format ≢ panicked
      → let a = run_version h format w in Shows printed format w a ⊎ Fails printed format w a
  unfolding run_version print_version
  run_version_lem printed law format w n = go (version_text h format) refl
    where
      go :
          (r : Result String)
          → version_text h format ≡ r
          → let a = or_version_line h (print_text h r w) in
            Shows printed format w a ⊎ Fails printed format w a
      go (ok text) q = inl (
          rw (or_version_line, law.print_ok (text <> "\n") w)
            (refl, version_text-running format text q, (text, q, law.print_adds (text <> "\n") w)))
      go (err e) q = inr (
        e,
        ap (joined h e) (law.print_ok (version_line h) w),
        q,
        law.print_adds (version_line h) w,
      )
      go panicked q = absurd (n q)
