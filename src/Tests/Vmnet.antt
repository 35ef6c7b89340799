-- ===== src/Tests/Vmnet.antt =====
-- The theorem on the network, over a machine that has none of its parts.
use finch.Prelude.{
  String, Bool, true, false, none, [], ◌∷◌, ◌==◌, ◌≡◌, refl, ap, lookup, if◌then◌else◌, Result, ok,
  err, not_exist,
}
use finch.Dependency.{Progress, install_optional_deps}
use finch.Dependency.Vmnet.{
  NetHost, net_installer, net_group, binaries_installed, sudoers_installed,
  verify_config_has_network_section, install_binaries, install_sudoers, install_network_config,
}
use finch.Dependency.Vmnet.Guarded.{IsGuarded, IsNetHost, install_optional_deps-IsGuarded}

-- Whether /opt/finch is there, the sudoers file, and the network in Lima's configuration.
abbrev Parts : Type 0
Parts = Bool × Bool × Bool

abbrev text_if : Bool → String → Result String
text_if true text = ok text
text_if false text = err not_exist

abbrev read : String → Parts → Result String
read path w =
    if path == "/lima/default.yaml"
    then (if w.2 then ok "networks" else ok "")
    else if path == "/etc/sudoers.d/finch-lima"
    then text_if w.1 "sudoers"
    else text_if w.0 "socket_vmnet"

abbrev ran : Bool → Parts → Parts
ran true w = (true, w.1, w.2)
ran false w = (w.0, true, w.2)

abbrev host : NetHost
host = record {
  World = Parts;
  dir_exists = λ path w. ok w.0;
  read_file = read;
  run_command = λ args input w. (none, ran (input == "") w);
  lima_sudoers = λ w. ok "sudoers";
  append_file = λ path text w. (none, (w.0, w.1, true));
  networks_of = λ text. ok (if text == "" then [] else (("lima", "finch-shared") ∷ []) ∷ []);
  finch = "/finch";
  lima_default_config_path = "/lima/default.yaml";
}

ran-config : (b : Bool) (w : Parts) → (ran b w).2 ≡ w.2
ran-config true w = refl
ran-config false w = refl

host-IsNetHost : IsNetHost host
unfolding ◌==◌ binaries_installed sudoers_installed
host-IsNetHost = record {
  run_command-config = λ args input w part.
      ap (λ b. if b then ok "networks" else ok "") (ran-config (input == "") w);
  append_file-binaries = λ text w e. e;
  append_file-sudoers = λ text w e. e;
}

abbrev bare : Progress (net_installer host)
bare = record { world = (false, false, false); logs = [] }

install_optional_deps-IsGuarded_example :
    IsGuarded host (install_optional_deps (net_installer host) (net_group host ∷ []) bare).1.world
unfolding IsGuarded verify_config_has_network_section ◌==◌ lookup
install_optional_deps-IsGuarded_example =
    install_optional_deps-IsGuarded host host-IsNetHost (net_group host ∷ []) bare (λ e. cc)

-- The group brings all three parts.
network_installed :
    (install_optional_deps (net_installer host) (net_group host ∷ []) bare).1.world
    ≡ (true, true, true)
unfolding install_optional_deps binaries_installed sudoers_installed install_binaries
    verify_config_has_network_section install_sudoers lookup ◌==◌ install_network_config
network_installed = refl
