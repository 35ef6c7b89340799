-- ===== src/Tests/Command.antt =====
-- The theorems on environments, at one with a search path and a home for Lima.
use finch.Prelude.{String, ◌==◌, some, List, [], ◌∷◌, ◌≡◌, refl}
use finch.Text.{has_prefix, has_char, replace_all}
use finch.Command.{unix, RemoteCreator, create, NativeCreator, create_native, replace_bytes}
use finch.Command.Environ.{value_in, IsUnrepeated}
use finch.Command.Create.{value_in-create, value_in-create_native}

abbrev environment : List String
environment = "HOME=/me" ∷ "PATH=/bin" ∷ "LIMA_HOME=/lima" ∷ []

abbrev remote : RemoteCreator
remote = record {
  platform = unix;
  lima_home_path = "/finch/lima";
  limactl_path = "/finch/limactl";
  bin_path = "/finch/bin";
  getenv = λ k. "/bin";
  environ = environment;
}

abbrev native : NativeCreator
native = record {
  nerdctl_config_path = "/etc/finch/nerdctl.toml";
  buildkit_socket_path = "/run/buildkit.sock";
  bin_path = "/finch/bin";
  getenv = λ k. "/bin";
  environ = environment;
}

replaced_help :
    replace_bytes "run nerdctl now" (record { source = "nerdctl"; target = "finch" } ∷ [])
    ≡ "run finch now"
unfolding replace_bytes replace_all
replaced_help = refl

value_in-create_example : value_in (create remote []).env "PATH" ≡ some "/finch/bin:/bin"
unfolding IsUnrepeated value_in has_prefix has_char ◌==◌
value_in-create_example =
    value_in-create remote [] (λ h. cc, (λ h. cc, (λ h. refl, tt)))
      (λ h. cc, (λ h. refl, (λ h. refl, tt))) "PATH" refl

value_in-create_native_example :
    value_in (create_native native []).env "NERDCTL_TOML" ≡ some "/etc/finch/nerdctl.toml"
unfolding IsUnrepeated value_in has_prefix has_char ◌==◌
value_in-create_native_example =
    value_in-create_native native [] (λ h. cc, (λ h. refl, (λ h. refl, tt))) "NERDCTL_TOML" refl
