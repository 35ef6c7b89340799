-- ===== src/Vm/Settings.antt =====
-- `runAdapter` and `run` of `vm settings` in virtual_machine_settings_darwin.go.
use finch.Prelude.{String, Bool, true, false, ◌||◌, none, some, if◌then◌else◌}
use finch.Prelude.Act.{Act, pure, ◌>>=◌}
use finch.Prelude.Int.{ℤ}
use finch.Config.Types.{VmConfigOpts}
use finch.Config.System.{System}
use finch.Config.Files.{Store, modify_finch_config}

-- The flags as cobra reads them: their values, and whether they were given.
pub record SettingsFlags : Type 0 where
  pub cpus : ℤ
  pub memory : String
  pub cpus_changed : Bool
  pub memory_changed : Bool

abbrev pub opts_of : SettingsFlags → VmConfigOpts
opts_of f = record {
  cpus = if f.cpus_changed then some f.cpus else none;
  memory = if f.memory_changed then some f.memory else none;
}

module _ (st : Store) (sys : System) (config_path : String) where
  -- What `settings` writes to the standard output, if anything, and what `cmd.Help()` does.
  module _ (print_line : String → Act st.World (Unit {0})) (help : Act st.World (Unit {0})) where
    abbrev pub report : Bool → Act st.World (Unit {0})
    report true = print_line "Configurations have been successfully updated."
    report false = pure tt

    -- `settingsVMAction.run`
    unfoldable pub settings_run : VmConfigOpts → Act st.World (Unit {0})
    settings_run opts = modify_finch_config st sys config_path opts >>= report

    -- `settingsVMAction.runAdapter`
    unfoldable pub settings_adapter : SettingsFlags → Act st.World (Unit {0})
    unfolding settings_run
    settings_adapter f =
        if f.cpus_changed || f.memory_changed then settings_run (opts_of f) else help
