-- ===== src/Tests/Guest.antt =====
-- The theorems on the configuration inside the machine, over a file system as a map.
use finch.Prelude.{
  String, Bool, true, false, not, List, [], ◌∷◌, ◌≡◌, refl, sym, ap, ◌∙◌, Option, none, some,
  Result, ok, err, not_exist, message, ok_inj, bind-eq_ok, ◌==◌, ==_iff, ==_self, is_empty, lookup,
  insert, lookup-insert, ◌>>◌,
}
use finch.Text.{contains_text}
use finch.Config.Types.{Finch}
use finch.Config.Files.{empty_config}
use finch.Config.Guest.{
  GuestHost, Nerdctl, update_environment, add_lines, add_line_to_bashrc, bashrc_of,
  update_nerdctl_config, nerdctl_path,
}
use finch.Config.Guest.Lines.{env_lines}
use finch.Config.Guest.Bashrc.{
  IsWritable, IsExtension, AllContained, update_environment-AllContained, update_environment_twice,
}
use finch.Config.Guest.Toml.{IsTomlStore, Holds, update_nerdctl_config-Holds}

-- The codec knows the configurations that differ from this one in the address.
abbrev with_address : String → String → Nerdctl
with_address address namespace = record {
  debug = false;
  debug_full = false;
  address = address;
  namespace = namespace;
  snapshotter = "";
  cni_path = "";
  cni_net_conf_path = "";
  data_root = "";
  cgroup_manager = "";
  insecure_registry = false;
  hosts_dir = [];
}

abbrev need : Bool → Result (Unit {0})
need true = ok tt
need false = err (message "strange")

abbrev print : Nerdctl → Result String
print cfg = do
  need (not cfg.debug)
  need (not cfg.debug_full)
  need (cfg.namespace == "finch")
  need (cfg.snapshotter == "")
  need (cfg.cni_path == "")
  need (cfg.cni_net_conf_path == "")
  need (cfg.data_root == "")
  need (cfg.cgroup_manager == "")
  need (not cfg.insecure_registry)
  need (is_empty cfg.hosts_dir)
  ok cfg.address

need-eq_ok : (b : Bool) (u : Unit {0}) → need b ≡ ok u → b ≡ true
need-eq_ok true u h = refl
need-eq_ok false u h = cc

not-eq : (b : Bool) → not b ≡ true → b ≡ false
not-eq true h = cc
not-eq false h = refl

is_empty-eq : {A : Type 0} (xs : List A) → is_empty xs ≡ true → xs ≡ []
is_empty-eq [] h = refl
is_empty-eq (x ∷ xs) h = cc

print-ok : (cfg : Nerdctl) (t : String) → print cfg ≡ ok t → ok (with_address t "finch") ≡ ok cfg
print-ok cfg t h =
    let (u1, e1, h1) = bind-eq_ok (need (not cfg.debug)) _ t h in
    let (u2, e2, h2) = bind-eq_ok (need (not cfg.debug_full)) _ t h1 in
    let (u3, e3, h3) = bind-eq_ok (need (cfg.namespace == "finch")) _ t h2 in
    let (u4, e4, h4) = bind-eq_ok (need (cfg.snapshotter == "")) _ t h3 in
    let (u5, e5, h5) = bind-eq_ok (need (cfg.cni_path == "")) _ t h4 in
    let (u6, e6, h6) = bind-eq_ok (need (cfg.cni_net_conf_path == "")) _ t h5 in
    let (u7, e7, h7) = bind-eq_ok (need (cfg.data_root == "")) _ t h6 in
    let (u8, e8, h8) = bind-eq_ok (need (cfg.cgroup_manager == "")) _ t h7 in
    let (u9, e9, h9) = bind-eq_ok (need (not cfg.insecure_registry)) _ t h8 in
    let (u10, e10, h10) = bind-eq_ok (need (is_empty cfg.hosts_dir)) _ t h9 in
    let debug = not-eq cfg.debug (need-eq_ok _ u1 e1) in
    let debug_full = not-eq cfg.debug_full (need-eq_ok _ u2 e2) in
    let namespace = ==_iff cfg.namespace "finch" (need-eq_ok _ u3 e3) in
    let snapshotter = ==_iff cfg.snapshotter "" (need-eq_ok _ u4 e4) in
    let cni_path = ==_iff cfg.cni_path "" (need-eq_ok _ u5 e5) in
    let cni_net = ==_iff cfg.cni_net_conf_path "" (need-eq_ok _ u6 e6) in
    let data_root = ==_iff cfg.data_root "" (need-eq_ok _ u7 e7) in
    let cgroup = ==_iff cfg.cgroup_manager "" (need-eq_ok _ u8 e8) in
    let registry = not-eq cfg.insecure_registry (need-eq_ok _ u9 e9) in
    let hosts = is_empty-eq cfg.hosts_dir (need-eq_ok _ u10 e10) in
    let address = ok_inj cfg.address t h10 in
    sym (λ i. ok (record {
      debug = debug i;
      debug_full = debug_full i;
      address = address i;
      namespace = namespace i;
      snapshotter = snapshotter i;
      cni_path = cni_path i;
      cni_net_conf_path = cni_net i;
      data_root = data_root i;
      cgroup_manager = cgroup i;
      insecure_registry = registry i;
      hosts_dir = hosts i;
    }))

abbrev Files : Type 0
Files = List (String × String)

abbrev text_of : Option String → Result String
text_of none = err not_exist
text_of (some s) = ok s

abbrev found : Option String → Result (Unit {0})
found none = err not_exist
found (some s) = ok tt

abbrev guest : GuestHost
guest = record {
  World = Files;
  read_file = λ path w. text_of (lookup path w);
  write_file = λ path t w. (ok tt, insert path t w);
  mkdir_all = λ path w. (ok tt, w);
  stat = λ path w. found (lookup path w);
  read_local = λ path w. err not_exist;
  unmarshal = λ t. ok (with_address t "finch");
  marshal = print;
  new_client_config = λ user key w. (ok tt, w);
  dial = λ addr w. (ok tt, w);
  new_sftp_client = λ w. (ok tt, w);
}

lookup-written : (path t : String) (w : Files) → lookup path (insert path t w) ≡ some t
lookup-written path t w = rw (lookup-insert path path t w, ==_self path) refl

read-written :
    (path t : String) (w w' : Files)
    → ◌≡◌ {A = Result (Unit {0}) × Files} (ok tt, insert path t w) (ok tt, w')
    → text_of (lookup path w') ≡ ok t
read-written path t w w' e =
    ap (λ x. text_of (lookup path x.1)) (sym e) ∙ ap text_of (lookup-written path t w)

found-read : (o : Option String) (t : String) → text_of o ≡ ok t → found o ≡ ok tt
found-read none t h = cc
found-read (some s) t h = refl

guest-IsWritable : IsWritable guest
guest-IsWritable = record { write-reads = read-written }

guest-IsTomlStore : IsTomlStore guest
guest-IsTomlStore = record {
  write-reads = read-written;
  mkdir-reads = λ path d w. refl;
  read-stat = λ path t w. found-read (lookup path w) t;
  unmarshal-marshal = λ cfg t h. print-ok cfg t h;
}

abbrev vz : Finch
vz = record empty_config { vm_type = some "vz" }

abbrev fresh : Files
fresh = ("/home/me.linux/.bashrc", "set -o vi") ∷ ("/etc/nerdctl/nerdctl.toml", "/run/c.sock") ∷ []

abbrev configured : Files
configured = (update_environment guest vz "/Users/me/.finch" "/Users/me" "/home/me.linux" fresh).1

update_environment-AllContained_example :
    (t old new : String) × (vz.vm_type ≡ some t)
    × (guest.read_file (bashrc_of guest "/home/me.linux") fresh ≡ ok old)
    × (guest.read_file (bashrc_of guest "/home/me.linux") configured ≡ ok new)
    × IsExtension old new
    × AllContained new (env_lines t [] "/Users/me/.finch" "/Users/me" "/home/me.linux")
unfolding update_environment contains_text lookup insert env_lines ◌==◌ add_lines add_line_to_bashrc
update_environment-AllContained_example =
    update_environment-AllContained guest guest-IsWritable vz "/Users/me/.finch" "/Users/me"
      "/home/me.linux" fresh configured refl

update_environment_twice_example :
    update_environment guest vz "/Users/me/.finch" "/Users/me" "/home/me.linux" configured
    ≡ (ok tt, configured)
unfolding update_environment contains_text lookup insert env_lines ◌==◌ add_lines add_line_to_bashrc
update_environment_twice_example =
    update_environment_twice guest guest-IsWritable vz "/Users/me/.finch" "/Users/me"
      "/home/me.linux" fresh configured refl

update_nerdctl_config-Holds_example :
    Holds guest
      (nerdctl_path guest "/root" false)
      (with_address "/run/c.sock" "finch")
      (update_nerdctl_config guest "/root" false fresh).1
unfolding update_nerdctl_config lookup insert ◌==◌
update_nerdctl_config-Holds_example =
    update_nerdctl_config-Holds guest guest-IsTomlStore "/root" false
      (with_address "/run/c.sock" "finch") fresh (update_nerdctl_config guest "/root" false fresh).1
      ("/run/c.sock", refl, refl) refl
