-- ===== src/Support/Contents.antt =====
-- What a support bundle has in it.
use finch.Prelude.{String, ◌<>◌, Bool, true, false, ◌==◌, List, [], ◌∷◌, if◌then◌else◌}
use finch.Prelude.Act.{Act, pure, raise, ◌>>=◌, ◌>>◌}
use finch.Text.FilePath.{join_path}
use finch.Support.{BundleHost, BundleCfg, PlatformData}
use finch.Support.Bundle.{Entry, Bundle, on_host, asked, create_entry, write_entry, copy_files}
use finch.Support.Generate.{
  log_files, config_files, zip_prefix, get_os_version, get_platform_data, get_finch_version,
  write_platform_data, write_version_output, write_header, copy_journals, copy_all,
  generate_support_bundle, bundle_file_name, said,
}
use finch.Support.Entries.{
  AllEntries, Open, Keeps, bind-Keeps, write_entry-Open, create_entry-AllEntries,
}
use finch.Support.Allowed.{
  IsAllowed, top, platform, version, logs, configs, additional, copy_files-IsAllowed,
  copy_journals-IsAllowed,
}

module _ (h : BundleHost) (cfg : BundleCfg) where
  written :
      {A : Type 0} (name : String) (rest : Act (Bundle h) A)
      → ((es : List Entry) → Keeps h (Open (λ c. Unit {0}) name es) rest)
      → ((c : String) → IsAllowed h cfg (record { name = name; content = c }))
      → Keeps h (AllEntries (IsAllowed h cfg)) (create_entry h name >> rest)
  written name rest k p =
      create_entry-AllEntries h (IsAllowed h cfg) (λ c. Unit {0}) name rest
        (λ es b e. k es b ("", e, tt)) (λ c u. p c)

  text_written :
      (name text : String) (es : List Entry)
      → Keeps h (Open (λ c. Unit {0}) name es) (write_entry h text)
  text_written name text es = write_entry-Open h (λ c. Unit {0}) name text es (λ c u. tt)

  get_os_version-Keeps : (I : List Entry → Type 0) → Keeps h I (get_os_version h)
  unfolding get_os_version
  get_os_version-Keeps I b i = go (h.goos == "windows") (h.goos == "darwin") (h.goos == "linux")
    where
      asks : List String → Act (Bundle h) String
      asks args = asked h (h.output args) >>= said h

      keeps : (args : List String) → Keeps h I (asks args)
      keeps args = bind-Keeps h I (asked h (h.output args)) (said h) (λ b i. i) (λ out b i. i)

      go :
          (x y z : Bool)
          → I
              ((if x
                  then asks ("cmd" ∷ "/c" ∷ "ver" ∷ [])
                  else if y
                  then asks ("sw_vers" ∷ "-productVersion" ∷ [])
                  else if z
                  then asks ("uname" ∷ "-r" ∷ [])
                  else pure "unknown")
                b).1.entries
      go true y z = keeps ("cmd" ∷ "/c" ∷ "ver" ∷ []) b i
      go false true z = keeps ("sw_vers" ∷ "-productVersion" ∷ []) b i
      go false false true = keeps ("uname" ∷ "-r" ∷ []) b i
      go false false false = i

  get_platform_data-Keeps : (I : List Entry → Type 0) → Keeps h I (get_platform_data h)
  unfolding get_platform_data
  get_platform_data-Keeps I =
      bind-Keeps h I (get_os_version h)
        (λ os. pure (record { os = os; arch = h.machine_arch; finch = h.version }))
        (get_os_version-Keeps I) (λ os b i. i)

  write_platform_data-IsAllowed :
      (p : PlatformData)
      → Keeps h (AllEntries (IsAllowed h cfg)) (write_platform_data h p (zip_prefix h))
  unfolding write_platform_data
  write_platform_data-IsAllowed p =
      written _ (raise (h.marshal p) >>= write_entry h)
        (λ es.
          bind-Keeps h (Open (λ c. Unit {0}) _ es) (raise (h.marshal p)) (write_entry h) (λ b i. i)
            (λ text. text_written _ text es))
        platform

  write_version_output-IsAllowed :
      (text : String)
      → Keeps h (AllEntries (IsAllowed h cfg)) (write_version_output h text (zip_prefix h))
  unfolding write_version_output
  write_version_output-IsAllowed text =
      written _ (write_entry h text) (λ es. text_written _ text es) version

  write_header-IsAllowed : Keeps h (AllEntries (IsAllowed h cfg)) (write_header h)
  unfolding write_header get_finch_version
  write_header-IsAllowed =
      bind-Keeps h allowed (create_entry h (zip_prefix h <> "/") >> get_platform_data h)
        (λ p. write_platform_data h p (zip_prefix h) >> get_finch_version h >>= λ text.
          write_version_output h text (zip_prefix h))
        (written _ (get_platform_data h) (λ es. get_platform_data-Keeps _) top)
        (λ p.
          bind-Keeps h allowed (write_platform_data h p (zip_prefix h) >> get_finch_version h)
            (λ text. write_version_output h text (zip_prefix h))
            (bind-Keeps h allowed (write_platform_data h p (zip_prefix h))
              (λ u. get_finch_version h) (write_platform_data-IsAllowed p) (λ u b i. i))
            write_version_output-IsAllowed)
    where
      allowed : List Entry → Type 0
      allowed = AllEntries (IsAllowed h cfg)

  copy_all-IsAllowed : Keeps h (AllEntries (IsAllowed h cfg)) (copy_all h cfg)
  unfolding copy_all
  copy_all-IsAllowed =
      bind-Keeps h allowed (logs_copied >> copy_journals h cfg >> configs_copied) (λ u. misc_copied)
        (bind-Keeps h allowed (logs_copied >> copy_journals h cfg) (λ u. configs_copied)
          (bind-Keeps h allowed logs_copied (λ u. copy_journals h cfg)
            (copy_files-IsAllowed h cfg _ (log_files h) (λ f m. logs m))
            (λ u. copy_journals-IsAllowed h cfg))
          (λ u. copy_files-IsAllowed h cfg _ (config_files h) (λ f m. configs m)))
        (λ u. copy_files-IsAllowed h cfg _ cfg.additional_files (λ f m. additional m))
    where
      allowed : List Entry → Type 0
      allowed = AllEntries (IsAllowed h cfg)

      logs_copied : Act (Bundle h) (Unit {0})
      logs_copied = copy_files h (join_path (zip_prefix h ∷ "logs" ∷ [])) cfg (log_files h)

      configs_copied : Act (Bundle h) (Unit {0})
      configs_copied = copy_files h (join_path (zip_prefix h ∷ "configs" ∷ [])) cfg (config_files h)

      misc_copied : Act (Bundle h) (Unit {0})
      misc_copied = copy_files h (join_path (zip_prefix h ∷ "misc" ∷ [])) cfg cfg.additional_files

  -- Every entry that a support bundle gets, whether `GenerateSupportBundle` succeeds or fails, is
  -- one of the three that each bundle has, or the redacted copy of a collected file that is not
  -- excluded.
  pub generate_support_bundle-IsAllowed :
      (w : h.World) → AllEntries (IsAllowed h cfg) (generate_support_bundle h cfg w).1.entries
  unfolding generate_support_bundle
  generate_support_bundle-IsAllowed w =
      bind-Keeps h allowed (made >> write_header h >> copy_all h cfg >> closed)
        (λ u. pure (bundle_file_name h))
        (bind-Keeps h allowed (made >> write_header h >> copy_all h cfg) (λ u. closed)
          (bind-Keeps h allowed (made >> write_header h) (λ u. copy_all h cfg)
            (bind-Keeps h allowed made (λ u. write_header h) (λ b i. i)
              (λ u. write_header-IsAllowed))
            (λ u. copy_all-IsAllowed))
          (λ u b i. i))
        (λ u b i. i) (record { world = w; entries = [] }) tt
    where
      allowed : List Entry → Type 0
      allowed = AllEntries (IsAllowed h cfg)

      made : Act (Bundle h) (Unit {0})
      made = on_host h (h.create_file (bundle_file_name h))

      closed : Act (Bundle h) (Unit {0})
      closed = on_host h h.zip_close
