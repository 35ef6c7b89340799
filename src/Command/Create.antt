-- ===== src/Command/Create.antt =====
-- What limactl and nerdctl find in the environment that finch gives them.
use finch.Prelude.{
  String, ◌<>◌, Bool, true, false, Option, none, some, List, [], ◌∷◌, ◌≡◌, refl, ap, ◌∙◌,
  if◌then◌else◌, ◌==◌,
}
use finch.Text.{has_char}
use finch.Command.{
  Platform, unix, windows, path_key, RemoteCreator, lima_home_key, search_path, create,
  NativeCreator, create_native, replace_or_append,
}
use finch.Command.Environ.{
  value_in, IsUnrepeated, or_here, or_here-entry, or_else, value_in-append, entry, kept_here,
  value_in-replace_or_append, replace_or_append-IsUnrepeated,
}

path_key-no_equals : (p : Platform) → has_char (path_key p) b'=' ≡ false
unfolding has_char
path_key-no_equals unix = refl
path_key-no_equals windows = refl

lima_home_key-no_equals : has_char lima_home_key b'=' ≡ false
unfolding has_char
lima_home_key-no_equals = refl

path_key-ne-lima_home_key : (p : Platform) → (path_key p == lima_home_key) ≡ false
unfolding ◌==◌
path_key-ne-lima_home_key unix = refl
path_key-ne-lima_home_key windows = refl

module _ (r : RemoteCreator) (args : List String) where
  -- limactl gets the search path with finch's programs in front, finch's own home for Lima, and
  -- every other variable as finch has it, where the environment has no variable of these two twice.
  pub value_in-create :
      IsUnrepeated r.environ lima_home_key
      → IsUnrepeated r.environ (path_key r.platform)
      → (k : String) → has_char k b'=' ≡ false
      → value_in (create r args).env k ≡ (
          if k == path_key r.platform
          then some (search_path r)
          else if k == lima_home_key
          then some r.lima_home_path
          else value_in r.environ k)
  unfolding create
  value_in-create u t k q =
      value_in-replace_or_append (path_key r.platform) (search_path r)
        (path_key-no_equals r.platform)
        (replace_or_append r.environ lima_home_key (entry lima_home_key r.lima_home_path)) k q
        (replace_or_append-IsUnrepeated lima_home_key r.lima_home_path lima_home_key-no_equals
          r.environ (path_key r.platform) (path_key-no_equals r.platform)
          (path_key-ne-lima_home_key r.platform) u t)
      ∙ ap (λ o. if k == path_key r.platform then some (search_path r) else o)
          (value_in-replace_or_append lima_home_key r.lima_home_path lima_home_key-no_equals
            r.environ k q u)

module _ (n : NativeCreator) (args : List String) where
  abbrev pub native_path : String
  native_path = n.bin_path <> (":" <> n.getenv "PATH")

  appended :
      (k : String)
      → has_char k b'=' ≡ false
      → value_in
          (entry "NERDCTL_TOML" n.nerdctl_config_path
            ∷ (entry "BUILDKIT_HOST" ("unix://" <> n.buildkit_socket_path) ∷ []))
          k
        ≡ (if k == "BUILDKIT_HOST"
            then some ("unix://" <> n.buildkit_socket_path)
            else if k == "NERDCTL_TOML"
            then some n.nerdctl_config_path
            else none)
  unfolding value_in has_char
  appended k q =
      ap (or_here (entry "NERDCTL_TOML" n.nerdctl_config_path) k)
        (or_here-entry "BUILDKIT_HOST" ("unix://" <> n.buildkit_socket_path) refl k q)
      ∙ kept_here "BUILDKIT_HOST" ("unix://" <> n.buildkit_socket_path) refl
          (entry "NERDCTL_TOML" n.nerdctl_config_path) k none
      ∙ ap (λ o. if k == "BUILDKIT_HOST" then some ("unix://" <> n.buildkit_socket_path) else o)
          (or_here-entry "NERDCTL_TOML" n.nerdctl_config_path refl k q)

  or_else-if :
      (a b : Bool) (x y : String) (o : Option String)
      → or_else (if a then some x else if b then some y else none) o
        ≡ (if a then some x else if b then some y else o)
  or_else-if true b x y o = refl
  or_else-if false true x y o = refl
  or_else-if false false x y o = refl

  -- On Linux nerdctl gets its configuration and the socket of BuildKit from finch, whatever the
  -- environment says of them, the search path with finch's programs in front, and every other
  -- variable as finch has it, where the environment has no search path twice.
  pub value_in-create_native :
      IsUnrepeated n.environ "PATH"
      → (k : String) → has_char k b'=' ≡ false
      → value_in (create_native n args).env k ≡ (
          if k == "BUILDKIT_HOST"
          then some ("unix://" <> n.buildkit_socket_path)
          else if k == "NERDCTL_TOML"
          then some n.nerdctl_config_path
          else if k == "PATH"
          then some native_path
          else value_in n.environ k)
  unfolding create_native has_char
  value_in-create_native u k q =
      value_in-append (replace_or_append n.environ "PATH" (entry "PATH" native_path)) _ k
      ∙ ap
          (λ o.
            or_else o (value_in (replace_or_append n.environ "PATH" (entry "PATH" native_path)) k))
          (appended k q)
      ∙ or_else-if (k == "BUILDKIT_HOST") (k == "NERDCTL_TOML")
          ("unix://" <> n.buildkit_socket_path) n.nerdctl_config_path _
      ∙ ap
          (λ o.
            if k == "BUILDKIT_HOST"
            then some ("unix://" <> n.buildkit_socket_path)
            else if k == "NERDCTL_TOML"
            then some n.nerdctl_config_path
            else o)
          (value_in-replace_or_append "PATH" native_path refl n.environ k q u)
