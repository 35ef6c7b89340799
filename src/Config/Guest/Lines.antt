-- ===== src/Config/Guest/Lines.antt =====
-- The lines that `updateEnvironment` of pkg/config/nerdctl_config_applier.go puts into .bashrc.
use finch.Prelude.{String, ◌<>◌, ◌==◌, List, [], ◌∷◌, ◌++◌, map, if◌then◌else◌, Bool}
use finch.Text.{trim_right_byte}

-- Where the machine has its configuration for docker.
abbrev pub docker_lines : Bool → List String
docker_lines wsl =
    if wsl
    then "export DOCKER_CONFIG=\"$FINCH_DIR\"" ∷ []
    else "mkdir -p \"$HOME/.finch-vm-config\"" ∷ "export DOCKER_CONFIG=\"$HOME/.finch-vm-config\""
      ∷ "echo '{\"credsStore\": \"finchhost\"}' > \"$DOCKER_CONFIG/config.json\"" ∷ []

-- `configureCredHelperTemplate`
abbrev pub cred_helper_line : String → String
cred_helper_line helper =
    "([ -e \"$FINCH_DIR\"/cred-helpers/docker-credential-"
    <> (helper
        <> (" ] || \\\n\t\t\t(echo \"error: docker-credential-"
            <> (helper
                <> (" not found in $FINCH_DIR/cred-helpers directory.\")) && \\\n\t\t\t([ -L /usr/local/bin/docker-credential-"
                    <> (helper
                        <> (" ] || sudo ln -s \"$FINCH_DIR\"/cred-helpers/docker-credential-"
                            <> (helper <> " /usr/local/bin)")))))))

abbrev pub dir_lines : Bool → String → String → List String
dir_lines wsl finch_dir aws_dir =
    if wsl
    then ("FINCH_DIR=\"$(/usr/bin/wslpath '" <> (finch_dir <> "')\""))
      ∷ ("AWS_DIR=\"$(/usr/bin/wslpath '" <> (aws_dir <> "')\""))
      ∷ []
    else ("FINCH_DIR=" <> finch_dir) ∷ ("AWS_DIR=" <> aws_dir) ∷ []

-- `limaVMFinchDir`
abbrev pub guest_finch_dir : String → String
guest_finch_dir lima_home = trim_right_byte lima_home b'/' <> "/.finch"

abbrev pub link_line : String → String
link_line target = "[ -L " <> (target <> (" ] || ln -s $FINCH_DIR " <> target))

-- `cmdArr`
unfoldable pub env_lines : String → List String → String → String → String → List String
unfolding ◌==◌ trim_right_byte
env_lines vm_type creds_helpers finch_dir home_dir lima_home =
    let wsl = vm_type == "wsl2" in
    dir_lines wsl finch_dir (home_dir <> "/.aws")
    ++ docker_lines wsl
    ++ ("[ -L /root/.aws ] || sudo ln -fs \"$AWS_DIR\" /root/.aws" ∷ [])
    ++ (if wsl then map cred_helper_line creds_helpers else [])
    ++ (link_line (guest_finch_dir lima_home) ∷ [])
