-- ===== src/Nerdctl/Inspect.antt =====
-- cmd/finch/devcontainer_patch.go: what `finch inspect` prints of containers for Dev Containers.
pub mod Lines
use finch.Prelude.{
  String, ◌<>◌, ◌==◌, Option, none, some, List, [], ◌∷◌, if◌then◌else◌, Error, Result, ok, err,
}
use finch.Text.{split}

-- The library for JSON, and the fields that the program leaves as they are.
pub record JsonTypes : Type 1 where
  pub ConfigRest : Type 0
  pub StateRest : Type 0
  pub NetworkSettings : Type 0
  pub ContainerRest : Type 0
  -- `&dockercompat.NetworkSettings{Ports: &nat.PortMap{}}`
  pub no_ports : NetworkSettings

-- `Config`
pub record ContainerConfig (j : JsonTypes) : Type 0 where
  pub image : String
  pub rest : j.ConfigRest

-- `dockercompat.ContainerState`
pub record ContainerState (j : JsonTypes) : Type 0 where
  pub started_at : String
  pub rest : j.StateRest

-- `Container`
pub record Container (j : JsonTypes) : Type 0 where
  pub image : String
  pub config : Option (ContainerConfig j)
  pub state : Option (ContainerState j)
  pub network_settings : Option j.NetworkSettings
  pub rest : j.ContainerRest

-- `json.Unmarshal` and `json.MarshalIndent`; an error is only logged.
pub record Json (j : JsonTypes) : Type 0 where
  pub unmarshal : String → Option (Container j)
  pub marshal_indent : List (Container j) → Option String

abbrev pub printed_line : Option String → String
printed_line none = ""
printed_line (some text) = text <> "\n"

module _ (j : JsonTypes) where
  abbrev pub with_image : String → Option (ContainerConfig j) → Option (ContainerConfig j)
  with_image image none = none
  with_image image (some c) = some (record c { image = image })

  abbrev pub never_started : Option (ContainerState j) → Option (ContainerState j)
  never_started none = none
  never_started (some s) = some (record s { started_at = "0001-01-01T00:00:00Z" })

  abbrev pub or_no_ports : Option j.NetworkSettings → Option j.NetworkSettings
  or_no_ports none = some j.no_ports
  or_no_ports (some n) = some n

  -- What the body of the loop does to a container.
  unfoldable pub patched : Container j → Container j
  patched c = record c {
    config = with_image c.image c.config;
    state = never_started c.state;
    network_settings = or_no_ports c.network_settings;
  }

  abbrev pub add_patched : Option (Container j) → List (Container j) → List (Container j)
  unfolding patched
  add_patched none cs = cs
  add_patched (some c) cs = patched c ∷ cs

  -- The loop: an empty line, and one that is no container, is passed over.
  unfoldable pub merged : Json j → List String → List (Container j)
  unfolding patched ◌==◌
  merged json [] = []
  merged json (l ∷ ls) =
      let rest = merged json ls in if l == "" then rest else add_patched (json.unmarshal l) rest

  -- `prettyPrintJSON`, as what it prints
  unfoldable pub pretty_print_json : Json j → String → String
  unfolding merged split
  pretty_print_json json input =
      printed_line (json.marshal_indent (merged json (split input b'\n')))

  -- `inspectContainerOutputHandler`, from what the command prints and how it ends
  unfoldable pub inspect_container_output_handler :
      Json j → String → Option Error → Result (Unit {0}) × String
  unfolding pretty_print_json
  inspect_container_output_handler json out none = (ok tt, pretty_print_json json out)
  inspect_container_output_handler json out (some e) = (err e, "")
