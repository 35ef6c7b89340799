-- ===== src/Nerdctl/Inspect/Lines.antt =====
-- What `finch inspect` prints of the containers that nerdctl lists, one on each line.
use Prim.Native.Char.{code}
use text.Mathlib.TextLemmas.{cons-append, nil-append}
use finch.Prelude.{
  String, ◌<>◌, ◌==◌, false, none, some, List, [], ◌∷◌, map, ◌≡◌, refl, ap, ◌∙◌, arith, nat_eq, ok,
}
use finch.Text.{split, has_char}
use finch.Nerdctl.Inspect.{
  JsonTypes, Json, Container, patched, merged, printed_line, pretty_print_json,
  inspect_container_output_handler,
}

newline : (r : String) → split ("\n" <> r) b'\n' ≡ "" ∷ split r b'\n'
unfolding split
newline r =
    ap (λ s. split s b'\n') (cons-append _ "" r) ∙ ap (λ s. "" ∷ split s b'\n') (nil-append r)

split-line :
    (l r : String) → has_char l b'\n' ≡ false → split (l <> ("\n" <> r)) b'\n' ≡ l ∷ split r b'\n'
unfolding split has_char
split-line String.[] r h = rw nil-append (newline r)
split-line (String.◌∷◌ c l) r h = rw (cons-append, split, split-line l r (ground arith), other) refl
  where
    other : nat_eq (code c) b'\n' ≡ false
    other = ground arith

module _ (j : JsonTypes) (json : Json j) where
  -- One container on each line, as nerdctl prints it.
  unfoldable pub lines_of : (Container j → String) → List (Container j) → String
  lines_of encode [] = ""
  lines_of encode (c ∷ cs) = encode c <> ("\n" <> lines_of encode cs)

  -- A container is encoded on one line, which is read back.
  pub record IsLine (encode : Container j → String) (c : Container j) : Type 0 where
    pub one_line : has_char (encode c) b'\n' ≡ false
    pub not_empty : (encode c == "") ≡ false
    pub read_back : json.unmarshal (encode c) ≡ some c

  abbrev pub AllLines : (Container j → String) → List (Container j) → Type 0
  AllLines encode [] = Unit
  AllLines encode (c ∷ cs) = IsLine encode c × AllLines encode cs

  merged-lines_of :
      (encode : Container j → String) (cs : List (Container j))
      → AllLines encode cs
      → merged j json (split (lines_of encode cs) b'\n') ≡ map (patched j) cs
  unfolding merged lines_of split
  merged-lines_of encode [] p = refl
  merged-lines_of encode (c ∷ cs) (p, ps) =
      rw
        (
          split-line (encode c) (lines_of encode cs) p.one_line,
          merged,
          p.not_empty,
          p.read_back,
          merged-lines_of encode cs ps,
        )
        refl

  -- Where nerdctl succeeds and lists containers, each on a line that is read back as it is, the
  -- handler prints these containers in their order, each patched, and reports no error.
  pub inspect_container_output_handler-lines :
      (encode : Container j → String) (cs : List (Container j))
      → AllLines encode cs
      → inspect_container_output_handler j json (lines_of encode cs) none
        ≡ (ok tt, printed_line (json.marshal_indent (map (patched j) cs)))
  unfolding inspect_container_output_handler pretty_print_json
  inspect_container_output_handler-lines encode cs p =
      ap (λ ms. (ok tt, printed_line (json.marshal_indent ms))) (merged-lines_of encode cs p)
