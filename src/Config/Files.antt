-- ===== src/Config/Files.antt =====
-- `Load`, `writeConfig` and `ensureConfigDir` of config.go, and `ModifyFinchConfig` of
-- config_darwin.go, over a file system and a YAML codec.
pub mod Chains
pub mod Laws
use finch.Prelude.{
  List, [], String, ◌<>◌, Bool, true, false, ◌&&◌, ◌||◌, not, Option, none, some, ◌==◌,
  if◌then◌else◌, Result, ok, err, panicked, Error, message, wrapped, context, is_not_exist, ◌>>=◌,
}
use finch.Prelude.Int.{ℤ, int_eq}
use finch.Text.FilePath.{dir}
use finch.Config.Types.{Finch, VmConfigOpts}
use finch.Config.System.{System}
use finch.Config.Defaults.{apply_defaults}
use finch.Config.Validate.{validate}

-- `afero.Fs` and `yaml.v3`
pub record Store : Type 1 where
  pub World : Type 0
  pub read_file : String → World → Result String
  pub write_file : String → String → World → Result (Unit {0}) × World
  pub dir_exists : String → World → Result Bool
  pub mkdir : String → World → Result (Unit {0}) × World
  pub marshal : Finch → Result String
  pub unmarshal : String → Result Finch

abbrev pub empty_config : Finch
empty_config = record {
  cpus = none;
  memory = none;
  additional_directories = [];
  rosetta = none;
  vm_type = none;
  snapshotters = [];
  creds_helpers = [];
  mount_inotify = false;
  docker_compat = false;
}

-- Whether a flag is given and differs from what the file has. Reading through nil faults.
unfoldable pub changes : {A : Type 0} → (A → A → Bool) → Option A → Option A → Result Bool
changes same none old = ok false
changes same (some new) none = panicked
changes same (some new) (some old) = ok (not (same new old))

unfoldable pub newer : {A : Type 0} → Option A → Option A → Option A
newer none old = old
newer (some a) old = some a

abbrev pub is_none : {A : Type 0} → Option A → Bool
is_none none = true
is_none (some a) = false

-- What the flags make of the configuration.
unfoldable pub updated : VmConfigOpts → Finch → Finch
unfolding newer
updated opts cfg = record cfg {
  cpus = newer opts.cpus cfg.cpus;
  memory = newer opts.memory cfg.memory;
}

module _ (st : Store) where
  -- An action gives its result and the world that it leaves.
  abbrev pub Act : Type 0 → Type 0
  Act A = st.World → Result A × st.World

  abbrev pub and_then : {A B : Type 0} → Result A × st.World → (A → Act B) → Result B × st.World
  and_then (ok a, w) f = f a w
  and_then (err e, w) f = (err e, w)
  and_then (panicked, w) f = (panicked, w)

  unfoldable pub in_context : {A : Type 0} → String → Result A × st.World → Result A × st.World
  in_context c (r, w) = (context c r, w)

  unfoldable pub write_config : Finch → String → Act (Unit {0})
  unfolding in_context
  write_config cfg path w =
      and_then (context "failed to write to marshal config" (st.marshal cfg), w)
        λ text w'. in_context "failed to write to config file" (st.write_file path text w')

  unfoldable pub ensure_config_dir : String → Act (Unit {0})
  unfolding in_context
  ensure_config_dir path w =
      and_then (context "failed to get status of config directory" (st.dir_exists path w), w)
        λ found w'.
          if found
          then (ok tt, w')
          else in_context "failed to create config directory" (st.mkdir path w')

  module _ (sys : System) where
    -- The branch for a missing file. An error of the write is logged.
    unfoldable pub load_missing : String → Act Finch
    unfolding in_context
    load_missing path w =
        let cfg = apply_defaults sys empty_config in
        and_then
          (in_context ("failed to ensure \"" <> (path <> "\" directory"))
            (ensure_config_dir (dir path) w))
          λ _ w'. keep_config cfg (write_config cfg path w')
      where
        keep_config : Finch → Result (Unit {0}) × st.World → Result Finch × st.World
        keep_config c (ok u, v) = (ok c, v)
        keep_config c (err e, v) = (ok c, v)
        keep_config c (panicked, v) = (panicked, v)

    unfoldable pub save_loaded : String → Finch → Act Finch
    save_loaded path cfg w =
        and_then (write_config cfg path w)
          λ _ w'. (context "failed to validate config file" (validate sys cfg >>= λ _. ok cfg), w')

    unfoldable pub load_text : String → String → Act Finch
    unfolding save_loaded
    load_text path text w =
        and_then (context "failed to unmarshal config file" (st.unmarshal text), w)
          λ read w'. save_loaded path (apply_defaults sys read) w'

    unfoldable pub load_read : String → Result String → Act Finch
    unfolding load_missing load_text
    load_read path (ok text) w = load_text path text w
    load_read path (err e) w =
        if is_not_exist e
        then load_missing path w
        else (err (wrapped "failed to read the config file" e), w)
    load_read path panicked w = (panicked, w)

    -- `Load`
    unfoldable pub load : String → Act Finch
    unfolding load_read
    load path w = load_read path (st.read_file path w) w

    -- `loadFinchConfig`
    unfoldable pub load_finch_config : String → st.World → Result Finch
    load_finch_config path w = do
      text ← context "failed to read config file" (st.read_file path w)
      cfg ← context "failed to unmarshal config file" (st.unmarshal text)
      _ ← context "failed to validate config file" (validate sys cfg)
      ok cfg

    unfoldable pub write_updated : String → Finch → Act Bool
    write_updated path cfg w =
        and_then (context "failed to validate config file" (validate sys cfg), w)
          λ _ w'. and_then (write_config cfg path w') λ _ w''. (ok true, w'')

    unfoldable pub write_if : String → Finch → Bool → Act Bool
    unfolding write_updated
    write_if path cfg true w = write_updated path cfg w
    write_if path cfg false w = (ok false, w)

    unfoldable pub compare_memory : String → VmConfigOpts → Finch → Bool → Act Bool
    compare_memory path opts cfg new_cpus w =
        and_then (changes ◌==◌ opts.memory cfg.memory, w)
          λ new_memory w'. write_if path (updated opts cfg) (new_cpus || new_memory) w'

    unfoldable pub modify : String → VmConfigOpts → Finch → Act Bool
    unfolding write_if compare_memory
    modify path opts cfg w =
        if is_none opts.cpus && is_none opts.memory
        then (err (message "specify at least one flag"), w)
        else and_then (changes int_eq opts.cpus cfg.cpus, w) (compare_memory path opts cfg)

    -- `ModifyFinchConfig`: whether the file was changed.
    unfoldable pub modify_finch_config : String → VmConfigOpts → Act Bool
    unfolding modify
    modify_finch_config path opts w =
        and_then (load_finch_config path w, w) λ cfg w'. modify path opts cfg w'
