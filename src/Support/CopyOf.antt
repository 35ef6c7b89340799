-- ===== src/Support/CopyOf.antt =====
-- What the redacted copy of a file is.
use finch.Prelude.{String, ◌<>◌, List, [], ◌∷◌, ◌≡◌, ◌++◌, ok, none}
use finch.Text.{cut_after, trim_prefix}
use finch.Text.FilePath.{join_path, base}
use finch.Support.{BundleHost, Reader, Stream}
use finch.Support.Elided.{elisions, Replaced}
use finch.Support.Bundle.{Entry, lines_read}

-- Lines, and the text of what was made of them by the redaction.
pub data Redacted (h : BundleHost) : List String → String → Type 0 where
  nothing : Redacted h [] ""
  line :
      (ls : List String) (s l t : String)
      → Redacted h ls s
      → Replaced h (elisions h) l t
      → Redacted h (ls ++ l ∷ []) (s <> t)

-- The lines of which the first ones were copied, each redacted: all of them, or those before an
-- error.
abbrev pub FirstRedacted : BundleHost → List String → String → Type 0
FirstRedacted h ls content =
    (done rest : List String) × (done ++ rest ≡ ls) × Redacted h done content

-- What is read for file `f`, at some moment: the file itself, a file in the machine, or a journal of
-- the host or of the machine.
pub data IsSourceOf (h : BundleHost) (log_lines f : String) : Reader → Type 0 where
  file : (w : h.World) (r : Reader) → h.open_file f w ≡ ok r → IsSourceOf h log_lines f r
  journal :
      (w : h.World) (out : String)
      → h.output
          ("journalctl" ∷ "-n" ∷ log_lines ∷ "--no-pager" ∷ "-xu" ∷ trim_prefix f "service:" ∷ [])
          w
        ≡ ok out
      → IsSourceOf h log_lines f (record { text = out; failed = none })
  file_in_vm :
      (w : h.World) (s : Stream)
      → h.start_in_vm ("shell" ∷ "finch" ∷ "sudo" ∷ "cat" ∷ cut_after f b':' ∷ []) w ≡ ok s
      → IsSourceOf h log_lines f (record { text = s.out; failed = none })
  journal_in_vm :
      (w : h.World) (s : Stream)
      → h.start_in_vm
          ("shell"
            ∷ "finch"
            ∷ "sudo"
            ∷ "journalctl"
            ∷ "-n"
            ∷ log_lines
            ∷ "--no-pager"
            ∷ "-xu"
            ∷ cut_after f b':'
            ∷ [])
          w
        ≡ ok s
      → IsSourceOf h log_lines f (record { text = s.out; failed = none })

-- The name of the entry for a file: that of its last component, where a service loses its prefix.
pub data IsNameOf (prefix f : String) : String → Type 0 where
  of_file : IsNameOf prefix f (join_path (prefix ∷ base f ∷ []))
  of_journal : IsNameOf prefix f (join_path (prefix ∷ base (trim_prefix f "service:") ∷ []))
  of_service : IsNameOf prefix f (join_path (prefix ∷ base (cut_after f b':') ∷ []))

-- The entry is the redacted copy of file `f` under the prefix.
unfoldable pub IsCopyOf : BundleHost → String → String → String → Entry → Type 0
IsCopyOf h log_lines prefix f e =
    IsNameOf prefix f e.name
    × ((r : Reader) × IsSourceOf h log_lines f r × FirstRedacted h (lines_read r) e.content)
