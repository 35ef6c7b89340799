-- ===== src/Dependency/CredHelper.antt =====
-- pkg/dependency/credhelper: the credential helper's binary, and its entry in config.json.
pub mod Laws
pub mod Configured
pub mod Install
use finch.Prelude.{
  ℕ, String, ◌<>◌, Bool, true, false, ◌&&◌, ◌||◌, not, ◌==◌, Option, none, some, List, [], ◌∷◌,
  if◌then◌else◌, Error, Result, ok, err, panicked,
}
use finch.Prelude.Act.{Act, pure, raise, look, described, ignored, continue, ◌>>=◌, ◌>>◌}
use finch.Text.{remove_all}
use finch.Text.FilePath.{join_path}

-- `helperConfig`
pub record HelperConfig : Type 0 where
  pub binary_name : String
  pub cred_helper_url : String
  pub hash : String
  pub install_folder : String
  pub finch_path : String

-- What `credhelperbin` says of the helper.
pub record CredHelperBin : Type 0 where
  pub helper : String
  pub hcfg : HelperConfig

-- The file system, curl, and Docker's `configfile.ConfigFile` with its JSON.
pub record CredHost : Type 1 where
  pub World : Type 0
  pub dir_exists : String → World → Result Bool
  pub file_exists : String → World → Result Bool
  pub open_file : String → World → Result (Unit {0})
  pub read_file : String → World → Result String
  -- `digest.FromReader(file).String()`
  pub digest_of : String → World → Result String
  pub remove_file : String → Act World (Unit {0})
  pub mkdir_all : String → Act World (Unit {0})
  pub chmod : String → Act World (Unit {0})
  -- `Create(path)`, and `OpenFile(path, O_RDWR|O_CREATE|O_TRUNC)`: the file is empty after it.
  pub truncate : String → Act World (Unit {0})
  pub write : String → String → Act World (Unit {0})
  -- `Create("curl", args...).Output()`
  pub curl : List String → Act World (Unit {0})
  pub ConfigFile : Type 0
  pub credentials_store : ConfigFile → String
  pub set_credentials_store : String → ConfigFile → ConfigFile
  pub unmarshal : String → Result ConfigFile
  pub marshal : ConfigFile → Result String

-- `credHelperConfigName`
abbrev pub cred_helper_config_name : CredHelperBin → String
cred_helper_config_name bin = remove_all bin.hcfg.binary_name "docker-credential-"

-- `fullInstallPath`
abbrev pub full_install_path : CredHelperBin → String
full_install_path bin = join_path (bin.hcfg.install_folder ∷ bin.hcfg.binary_name ∷ [])

abbrev pub cfg_path_of : CredHelperBin → String
cfg_path_of bin = join_path (bin.hcfg.finch_path ∷ "config.json" ∷ [])

module _ (h : CredHost) where
  -- A binary with another hash is removed.
  abbrev pub check_hash : CredHelperBin → String → Act h.World Bool
  check_hash bin digest =
      if digest == bin.hcfg.hash
      then pure true
      else described "failed to remove mismatched cred helper binary"
          (h.remove_file (full_install_path bin))
        >> pure false

  abbrev pub check_binary : CredHelperBin → Act h.World Bool
  check_binary bin =
      described "failed to open cred helper binary" (look (h.open_file (full_install_path bin)))
      >> described "failed to get cred helper binary hash"
          (look (h.digest_of (full_install_path bin)))
      >>= check_hash bin

  -- The rest, where something is there.
  abbrev pub when_there : Act h.World Bool → Bool → Act h.World Bool
  when_there m b = if b then m else pure false

  -- `binaryInstalled`
  unfoldable pub binary_installed : CredHelperBin → Act h.World Bool
  binary_installed bin =
      described "failed to get status of credential helper directory"
        (look (h.dir_exists bin.hcfg.install_folder))
      >>= when_there (
          described "failed to get status of credential helper binary"
            (look (h.file_exists (full_install_path bin)))
          >>= when_there (check_binary bin))

  abbrev pub names_helper : CredHelperBin → String → Act h.World Bool
  names_helper bin text = raise (h.unmarshal text) >>= λ cfg.
      pure (h.credentials_store cfg == cred_helper_config_name bin)

  -- `configFileInstalled`
  unfoldable pub config_file_installed : CredHelperBin → Act h.World Bool
  config_file_installed bin =
      look (h.file_exists (cfg_path_of bin))
      >>= when_there (
          look (h.open_file (cfg_path_of bin))
          >> look (h.read_file (cfg_path_of bin))
          >>= names_helper bin)

  -- The file is emptied before the configuration is encoded.
  abbrev pub rewrite_config : CredHelperBin → h.ConfigFile → Act h.World (Unit {0})
  rewrite_config bin cfg =
      h.truncate (cfg_path_of bin)
      >> raise (h.marshal (h.set_credentials_store (cred_helper_config_name bin) cfg))
      >>= h.write (cfg_path_of bin)

  abbrev pub update_config : CredHelperBin → h.ConfigFile → Act h.World (Unit {0})
  update_config bin cfg =
      if h.credentials_store cfg == cred_helper_config_name bin
      then pure tt
      else rewrite_config bin cfg

  abbrev pub change_config : CredHelperBin → Bool → Act h.World (Unit {0})
  change_config bin true =
      look (h.open_file (cfg_path_of bin)) >> look (h.read_file (cfg_path_of bin)) >>= λ text.
      raise (h.unmarshal text) >>= update_config bin
  change_config bin false =
      h.truncate (cfg_path_of bin)
      >> h.write (cfg_path_of bin) ("{\"credsStore\":\"" <> (cred_helper_config_name bin <> "\"}"))

  -- `updateConfigFile`
  unfoldable pub update_config_file : CredHelperBin → Act h.World (Unit {0})
  update_config_file bin = look (h.file_exists (cfg_path_of bin)) >>= change_config bin

  -- Errors are logged, and count as not installed.
  abbrev pub or_not : Result Bool → Result Bool
  or_not (ok b) = ok b
  or_not (err e) = ok false
  or_not panicked = panicked

  abbrev pub logged : Act h.World Bool → Act h.World Bool
  logged m w = let (r, w') = m w in (or_not r, w')

  -- `Installed`
  unfoldable pub cred_helper_installed : CredHelperBin → Act h.World Bool
  cred_helper_installed bin =
      logged (binary_installed bin) >>= when_there (logged (config_file_installed bin))

  abbrev pub download : CredHelperBin → Act h.World (Unit {0})
  download bin =
      described ("error creating installation directory " <> bin.hcfg.install_folder)
        (h.mkdir_all bin.hcfg.install_folder)
      >> described ("error installing binary " <> bin.hcfg.binary_name) (
          h.curl (
            "--retry"
            ∷ "5"
            ∷ "--retry-max-time"
            ∷ "30"
            ∷ "--url"
            ∷ bin.hcfg.cred_helper_url
            ∷ "--output"
            ∷ full_install_path bin
            ∷ []))
      >> h.chmod (full_install_path bin)

  abbrev pub ensure_config_file : CredHelperBin → Act h.World (Unit {0})
  ensure_config_file bin =
      config_file_installed bin >>= λ b. if b then pure tt else update_config_file bin

  -- What follows the test of the binary. A helper that is not asked for is left alone.
  abbrev pub install_missing : CredHelperBin → Bool → Act h.World (Unit {0})
  install_missing bin true = ensure_config_file bin
  install_missing bin false =
      if bin.helper == "" || not (bin.helper == cred_helper_config_name bin)
      then pure tt
      else download bin >> ensure_config_file bin

  -- `Install`
  unfoldable pub install_cred_helper : CredHelperBin → Act h.World (Unit {0})
  install_cred_helper bin = binary_installed bin >>= install_missing bin

-- `RequiresRoot`
abbrev pub cred_helper_requires_root : CredHelperBin → Bool
cred_helper_requires_root bin = false

-- What the Makefile injects.
pub record Release : Type 0 where
  pub ecr_version : String
  pub ecr_amd64_hash : String
  pub ecr_arm64_hash : String

-- `hcEcr`
unfoldable pub ecr_config : Release → String → String → HelperConfig
unfolding ◌==◌
ecr_config r finch_dir arch = record {
  binary_name = "docker-credential-ecr-login";
  cred_helper_url =
      "https://amazon-ecr-credential-helper-releases.s3.us-east-2.amazonaws.com/"
      <> (r.ecr_version <> ("/linux-" <> (arch <> "/docker-credential-ecr-login")));
  hash = if arch == "arm64" then r.ecr_arm64_hash else r.ecr_amd64_hash;
  install_folder = join_path (finch_dir ∷ "cred-helpers" ∷ []);
  finch_path = finch_dir;
}

-- The loop over the configured helpers; the map has one key.
unfoldable pub known_helpers : HelperConfig → List String → List (Option CredHelperBin)
unfolding ◌==◌
known_helpers ecr [] = []
known_helpers ecr (x ∷ xs) =
    let rest = known_helpers ecr xs in
    if x == "ecr-login" then some (record { helper = x; hcfg = ecr }) ∷ rest else rest

-- `newDeps`, from the helpers of the configuration: none for a nil configuration, `some none` for a
-- nil slice. The dependency that is nil is `none`.
unfoldable pub new_deps :
    Release → String → String → Option (Option (List String)) → List (Option CredHelperBin)
unfolding ecr_config known_helpers
new_deps r finch_dir arch none = none ∷ []
new_deps r finch_dir arch (some none) = none ∷ []
new_deps r finch_dir arch (some (some helpers)) =
    known_helpers (ecr_config r finch_dir arch) helpers
