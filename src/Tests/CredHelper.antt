-- ===== src/Tests/CredHelper.antt =====
-- The theorems on the credential helper, over a machine without it.
use finch.Prelude.{
  String, Bool, true, false, Option, none, some, ◌==◌, ◌≡◌, refl, sym, ap, Result, ok, err,
  not_exist, if◌then◌else◌,
}
use finch.Text.{remove_all}
use finch.Text.FilePath.{join_path}
use finch.Dependency.CredHelper.{
  CredHost, CredHelperBin, cred_helper_installed, install_cred_helper, binary_installed,
  config_file_installed, update_config_file,
}
use finch.Dependency.CredHelper.Laws.{IsBinary}
use finch.Dependency.CredHelper.Configured.{IsCredHost}
use finch.Dependency.CredHelper.Install.{cred_helper_installed-install_cred_helper}

abbrev bin : CredHelperBin
bin = record {
  helper = "ecr-login";
  hcfg = record {
    binary_name = "docker-credential-ecr-login";
    cred_helper_url = "https://example.com/docker-credential-ecr-login";
    hash = "sha256:1";
    install_folder = "/f/cred-helpers";
    finch_path = "/f";
  };
}

-- The digest of the binary, and the text of config.json.
abbrev Disk : Type 0
Disk = Option String × Option String

abbrev there : Option String → Bool
there none = false
there (some s) = true

abbrev text_of : Option String → Result String
text_of none = err not_exist
text_of (some s) = ok s

abbrev opened : Option String → Result (Unit {0})
opened none = err not_exist
opened (some s) = ok tt

abbrev is_config : String → Bool
is_config path = path == "/f/config.json"

abbrev pick : {A : Type 0} → (Option String → A) → String → Disk → A
pick f path (b, c) = if is_config path then f c else f b

abbrev store_of : String → String
store_of text = if text == "{\"credsStore\":\"ecr-login\"}" then "ecr-login" else ""

abbrev host : CredHost
host = record {
  World = Disk;
  dir_exists = λ path w. ok true;
  file_exists = λ path w. ok (pick there path w);
  open_file = λ path w. pick opened path w;
  read_file = λ path w. pick text_of path w;
  digest_of = λ path w. text_of w.0;
  remove_file = λ path w. (ok tt, (none, w.1));
  mkdir_all = λ path w. (ok tt, w);
  chmod = λ path w. (ok tt, w);
  truncate = λ path w. (ok tt, (w.0, some ""));
  write = λ path text w. (ok tt, (w.0, some text));
  curl = λ args w. (ok tt, (some "sha256:1", w.1));
  ConfigFile = String;
  credentials_store = store_of;
  set_credentials_store = λ s cfg. "{\"credsStore\":\"ecr-login\"}";
  unmarshal = ok;
  marshal = ok;
}

host-IsCredHost : IsCredHost host bin
unfolding IsBinary join_path ◌==◌ remove_all
host-IsCredHost = record {
  sent_digest = λ url w. "sha256:1";
  mkdir_all-dir = λ w w' e. refl;
  curl_stores = λ w w' d e.
      let q = ap (λ (x : Result (Unit {0}) × Disk). x.1.0) (sym e) in
      (refl, ap (λ o. ok (there o)) q, ap opened q, ap text_of q);
  chmod-IsBinary = λ w x. x;
  truncate-IsBinary = λ w x. x;
  write-IsBinary = λ text w x. x;
  write-reads = λ text w w1 w2 t e.
      let q = ap (λ (x : Result (Unit {0}) × Disk). x.1.1) (sym e) in
      (ap (λ o. ok (there o)) q, ap opened q, ap text_of q);
  unmarshal-marshal = λ cfg text e. sym e;
  store_set = λ cfg. refl;
  unmarshal_new = ("{\"credsStore\":\"ecr-login\"}", refl, refl);
}

cred_helper_installed-install_cred_helper_example :
    (cred_helper_installed host bin (install_cred_helper host bin (none, none)).1).0 ≡ ok true
unfolding install_cred_helper binary_installed config_file_installed update_config_file join_path
    ◌==◌ remove_all host-IsCredHost
cred_helper_installed-install_cred_helper_example =
    cred_helper_installed-install_cred_helper host bin host-IsCredHost (λ w. refl) (none, none)
      (install_cred_helper host bin (none, none)).1 refl refl refl
