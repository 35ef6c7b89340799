-- ===== src/Support/Generate.antt =====
-- `GenerateSupportBundle` of pkg/support/support.go, and config_remote.go, which lists its files.
use finch.Prelude.{
  String, ◌<>◌, ◌==◌, List, [], ◌∷◌, contains, if◌then◌else◌, Result, ok, err, panicked,
  ◌>>=◌ as ◌>>=?◌,
}
use finch.Prelude.Act.{Act, pure, raise, ◌>>=◌, ◌>>◌}
use finch.Text.{trim_suffix}
use finch.Text.FilePath.{join_path, ext}
use finch.Support.{BundleHost, BundleCfg, PlatformData}
use finch.Support.Bundle.{Bundle, on_host, asked, create_entry, write_entry, copy_files}

module _ (h : BundleHost) where
  -- `LogFiles`
  abbrev pub log_files : List String
  unfolding ◌==◌
  log_files =
      join_path (h.lima_instance_path ∷ "ha.stderr.log" ∷ [])
      ∷ join_path (h.lima_instance_path ∷ "ha.stdout.log" ∷ [])
      ∷ (if h.goos == "windows"
          then []
          else join_path (h.lima_instance_path ∷ "serial.log" ∷ []) ∷ [])

  -- `ConfigFiles`
  abbrev pub config_files : List String
  config_files = join_path (h.lima_instance_path ∷ "lima.yaml" ∷ []) ∷ h.config_file_path ∷ []

  -- `JournalServices`
  abbrev pub journal_services : List String
  journal_services =
      "service:containerd" ∷ "service:finch" ∷ "service:buildkit" ∷ "service:soci" ∷ []

  abbrev pub said : String → Act (Bundle h) String
  said out = pure (trim_suffix out "\n")

  -- `getOSVersion`
  unfoldable pub get_os_version : Act (Bundle h) String
  unfolding ◌==◌
  get_os_version =
      if h.goos == "windows"
      then asked h (h.output ("cmd" ∷ "/c" ∷ "ver" ∷ [])) >>= said
      else if h.goos == "darwin"
      then asked h (h.output ("sw_vers" ∷ "-productVersion" ∷ [])) >>= said
      else if h.goos == "linux"
      then asked h (h.output ("uname" ∷ "-r" ∷ [])) >>= said
      else pure "unknown"

  -- `getPlatformData`
  unfoldable pub get_platform_data : Act (Bundle h) PlatformData
  unfolding get_os_version
  get_platform_data =
      get_os_version >>= λ os. pure (record { os = os; arch = h.machine_arch; finch = h.version })

  abbrev pub version_text : Result String → Result String
  version_text (ok out) = ok out
  version_text (err e) = ok ""
  version_text panicked = panicked

  -- `getFinchVersion`
  unfoldable pub get_finch_version : Act (Bundle h) String
  get_finch_version =
      asked h (λ w. version_text (h.executable >>=? λ x. h.output (x ∷ "version" ∷ []) w))

  -- `writePlatformData`
  unfoldable pub write_platform_data : PlatformData → String → Act (Bundle h) (Unit {0})
  unfolding create_entry write_entry
  write_platform_data platform prefix =
      create_entry h (join_path (prefix ∷ "platform.yaml" ∷ []))
      >> (raise (h.marshal platform) >>= write_entry h)

  -- `writeVersionOutput`
  unfoldable pub write_version_output : String → String → Act (Bundle h) (Unit {0})
  unfolding create_entry write_entry
  write_version_output text prefix =
      create_entry h (join_path (prefix ∷ "version-output.txt" ∷ [])) >> write_entry h text

  -- `bundleFileName`
  unfoldable pub bundle_file_name : String
  bundle_file_name = "finch-support-" <> h.now <> ".zip"

  -- `zipPrefix`
  unfoldable pub zip_prefix : String
  unfolding bundle_file_name
  zip_prefix = trim_suffix bundle_file_name (ext bundle_file_name)

  unfoldable pub copy_journals : BundleCfg → Act (Bundle h) (Unit {0})
  unfolding contains copy_files zip_prefix
  copy_journals cfg =
      if contains cfg.exclude_files "service:all"
      then pure tt
      else copy_files h (join_path (zip_prefix ∷ "logs/journalctl" ∷ [])) cfg journal_services

  -- What stands in every bundle.
  unfoldable pub write_header : Act (Bundle h) (Unit {0})
  unfolding create_entry get_platform_data write_platform_data get_finch_version
      write_version_output zip_prefix
  write_header = create_entry h (zip_prefix <> "/") >> get_platform_data >>= λ platform.
      write_platform_data platform zip_prefix >> get_finch_version >>= λ text.
      write_version_output text zip_prefix

  unfoldable pub copy_all : BundleCfg → Act (Bundle h) (Unit {0})
  unfolding copy_files copy_journals zip_prefix
  copy_all cfg =
      copy_files h (join_path (zip_prefix ∷ "logs" ∷ [])) cfg log_files
      >> copy_journals cfg
      >> copy_files h (join_path (zip_prefix ∷ "configs" ∷ [])) cfg config_files
      >> copy_files h (join_path (zip_prefix ∷ "misc" ∷ [])) cfg cfg.additional_files

  -- `GenerateSupportBundle`
  unfoldable pub generate_support_bundle : BundleCfg → h.World → Result String × Bundle h
  unfolding write_header copy_all bundle_file_name
  generate_support_bundle cfg w =
      (on_host h (h.create_file bundle_file_name)
          >> write_header
          >> copy_all cfg
          >> on_host h h.zip_close
          >> pure bundle_file_name)
        (record { world = w; entries = [] })
