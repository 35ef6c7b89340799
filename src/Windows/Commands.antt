-- ===== src/Windows/Commands.antt =====
-- The handlers of whole commands, the tables of what has a handler, and `resolveIP`.
use finch.Prelude.{
  String, ◌==◌, Bool, ◌||◌, ◌&&◌, Option, none, some, List, [], ◌∷◌, ltb, if◌then◌else◌, contains,
  Result, ok, panicked, ◌>>=◌,
}
use finch.Text.{len, has_prefix, has_char, cut_before}
use finch.Nerdctl.Handlers.{
  ArgHandler, CommandHandler, handle_docker_build_load, handle_buildx, handle_docker_compat_inspect,
}
use finch.Windows.Paths.{WinDeps, convert_to_wsl_path}
use finch.Windows.Handlers.{
  handle_file_path, handle_volume, handle_output_option, handle_secret_option, handle_bind_mounts,
}

-- The flags, the name `cp` itself, and what has a colon behind its second byte.
unfoldable pub is_no_host_path : String → Bool
unfolding has_prefix has_char cut_before len ◌==◌
is_no_host_path arg =
    has_prefix arg "-" || (arg == "cp" || (has_char arg b':' && ltb 1 (len (cut_before arg b':'))))

module _ (w : WinDeps) where
  unfoldable pub cp_argument : String → Result String
  unfolding is_no_host_path convert_to_wsl_path
  cp_argument arg = if is_no_host_path arg then ok arg else convert_to_wsl_path w arg

  unfoldable pub cp_arguments : List String → Result (List String)
  unfolding cp_argument
  cp_arguments [] = ok []
  cp_arguments (arg ∷ args) = do a ← cp_argument arg; as' ← cp_arguments args; ok (a ∷ as')

  unfoldable pub cp_handler : CommandHandler
  unfolding cp_arguments
  cp_handler docker_compat c = do args ← cp_arguments c.args; ok (record c { args = args })

  -- The last argument, or the one before a last `--debug`; there may be none.
  unfoldable pub build_context : List String → Result (List String)
  unfolding convert_to_wsl_path ◌==◌
  build_context [] = panicked
  build_context (a ∷ []) =
      if a == "--debug" then panicked else (do p ← convert_to_wsl_path w a; ok (p ∷ []))
  build_context (a ∷ (b ∷ [])) =
      if b == "--debug"
      then (do p ← convert_to_wsl_path w a; ok (p ∷ (b ∷ [])))
      else (do p ← convert_to_wsl_path w b; ok (a ∷ (p ∷ [])))
  build_context (a ∷ (b ∷ (c ∷ rest))) = do r ← build_context (b ∷ (c ∷ rest)); ok (a ∷ r)

  unfoldable pub image_build_handler : CommandHandler
  unfolding build_context contains
  image_build_handler docker_compat c =
      if contains c.args "--help" || contains c.args "-h"
      then ok c
      else (do args ← build_context c.args; ok (record c { args = args }))

  -- `aggCmdHandlerMap`
  unfoldable pub command_handler_map : List (String × CommandHandler)
  command_handler_map =
      ("buildx", handle_buildx)
      ∷ ("inspect", handle_docker_compat_inspect)
      ∷ ("container cp", cp_handler)
      ∷ ("image build", image_build_handler)
      ∷ []

  -- `aggArgHandlerMap[cmdName]`
  unfoldable pub arg_handler_map :
      (List (String × String) → List (String × String)) → String → List (String × ArgHandler)
  unfolding ◌==◌
  arg_handler_map iterate name =
      if name == "image build"
      then ("--load", handle_docker_build_load)
        ∷ ("-f", handle_file_path w)
        ∷ ("--file", handle_file_path w)
        ∷ ("--iidfile", handle_file_path w)
        ∷ ("-o", handle_output_option w iterate)
        ∷ ("--output", handle_output_option w iterate)
        ∷ ("--secret", handle_secret_option w iterate)
        ∷ []
      else if name == "image save"
      then ("-o", handle_file_path w) ∷ ("--output", handle_file_path w) ∷ []
      else if name == "image load"
      then ("-i", handle_file_path w) ∷ ("--input", handle_file_path w) ∷ []
      else if name == "container run"
      then ("--mount", handle_bind_mounts w iterate)
        ∷ ("--label-file", handle_file_path w)
        ∷ ("--cosign-key", handle_file_path w)
        ∷ ("--cidfile", handle_file_path w)
        ∷ ("-v", handle_volume w)
        ∷ ("--volume", handle_volume w)
        ∷ []
      else if name == "compose"
      then ("--file", handle_file_path w) ∷ []
      else []

-- `aggAliasMap`
abbrev pub alias_map : List (String × String)
alias_map =
    ("build", "image build")
    ∷ ("run", "container run")
    ∷ ("cp", "container cp")
    ∷ ("save", "image save")
    ∷ ("load", "image load")
    ∷ []

-- What `resolveIP` asks: netsh, and a regular expression for the address that netsh prints.
pub record NetDeps : Type 0 where
  pub netsh : Result String
  pub find_address : String → Option String

abbrev pub or_no_address : Option String → String
or_no_address none = ""
or_no_address (some address) = address

-- `extractIPAddress`
abbrev pub extract_ip_address : NetDeps → String → String
extract_ip_address n text = or_no_address (n.find_address text)

-- What `resolveIP` puts in the place of `host-gateway`.
unfoldable pub netsh_gateway : NetDeps → Result String
netsh_gateway n = do out ← n.netsh; ok (extract_ip_address n out)
