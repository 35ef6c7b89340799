-- ===== src/Tests/Inspect.antt =====
-- `finch inspect` of a container that is written as its image.
use finch.Prelude.{
  String, ◌==◌, Option, none, some, List, [], ◌∷◌, map, ◌≡◌, refl, ok, if◌then◌else◌,
}
use finch.Text.{split, has_char}
use finch.Nerdctl.Inspect.{
  JsonTypes, Json, Container, patched, merged, printed_line, pretty_print_json,
  inspect_container_output_handler,
}
use finch.Nerdctl.Inspect.Lines.{lines_of, inspect_container_output_handler-lines}

-- The settings of the network are a text, and the rest is nothing.
abbrev types : JsonTypes
types = record {
  ConfigRest = Unit;
  StateRest = Unit;
  NetworkSettings = String;
  ContainerRest = Unit;
  no_ports = "{}";
}

abbrev container : String → Container types
container image = record {
  image = image;
  config = some (record { image = ""; rest = tt });
  state = some (record { started_at = "today"; rest = tt });
  network_settings = none;
  rest = tt;
}

abbrev image_line : List (Container types) → Option String
image_line [] = none
image_line (c ∷ cs) = elim c.config [ none ↦ none | some k ↦ some k.image ]

abbrev json : Json types
json = record {
  unmarshal = λ s. if s == "bad" then none else some (container s);
  marshal_indent = image_line;
}

-- A line that is no container and an empty one are passed over.
inspect_mixed :
    inspect_container_output_handler types json "bad\n\nalpine\n" none ≡ (ok tt, "alpine\n")
unfolding inspect_container_output_handler pretty_print_json merged patched split ◌==◌
inspect_mixed = refl

abbrev two : List (Container types)
two = container "alpine" ∷ container "busybox" ∷ []

inspect_container_output_handler-lines_example :
    inspect_container_output_handler types json (lines_of types json (λ c. c.image) two) none
    ≡ (ok tt, printed_line (json.marshal_indent (map (patched types) two)))
unfolding has_char ◌==◌
inspect_container_output_handler-lines_example =
    inspect_container_output_handler-lines types json (λ c. c.image) two
      (
        record { one_line = refl; not_empty = refl; read_back = refl },
        (record { one_line = refl; not_empty = refl; read_back = refl }, tt),
      )
