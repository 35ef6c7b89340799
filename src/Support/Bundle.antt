-- ===== src/Support/Bundle.antt =====
-- `GenerateSupportBundle` of pkg/support/support.go, and config_remote.go, which lists its files.
use finch.Prelude.{
  String, ◌<>◌, true, false, ◌&&◌, ◌||◌, not, Option, none, some, ◌==◌, List, [], ◌∷◌,
  if◌then◌else◌, Error, message, Result, ok, err,
}
use finch.Prelude.Act.{Act, pure, raise, ignored, ◌>>=◌, ◌>>◌}
use finch.Text.{split, cut_after, trim_prefix}
use finch.Text.FilePath.{join_path, base}
use finch.Support.{BundleHost, BundleCfg, Reader, Stream}
use finch.Support.Redact.{redact_line}
use finch.Support.Exclude.{is_file_from_vm, is_service, file_should_be_excluded}

-- A file in the archive.
pub record Entry : Type 0 where
  pub name : String
  pub content : String

-- The pieces that `ReadBytes('\n')` gives, each with its newline; the last one has none, and may be
-- empty.
unfoldable pub with_newlines : List String → List String
with_newlines [] = []
with_newlines (w ∷ []) = w ∷ []
with_newlines (w ∷ (v ∷ ws)) = (w <> "\n") ∷ with_newlines (v ∷ ws)

unfoldable pub but_last : List String → List String
but_last [] = []
but_last (w ∷ []) = []
but_last (w ∷ (v ∷ ws)) = w ∷ but_last (v ∷ ws)

-- The lines that are copied: the last one is dropped where reading it fails.
unfoldable pub lines_read : Reader → List String
unfolding with_newlines but_last
lines_read r = elim r.failed [
  | none ↦ with_newlines (split r.text b'\n')
  | some e ↦ but_last (with_newlines (split r.text b'\n'))
]

module _ (h : BundleHost) where
  -- The world, and the archive so far, the last entry first.
  pub record Bundle : Type 0 where
    pub world : h.World
    pub entries : List Entry

  abbrev pub on_host : {A : Type 0} → Act h.World A → Act Bundle A
  on_host m b = let (a, w) = m b.world in (a, record b { world = w })

  abbrev pub asked : {A : Type 0} → (h.World → Result A) → Act Bundle A
  asked f b = (f b.world, b)

  -- `writer.Create(name)`
  unfoldable pub create_entry : String → Act Bundle (Unit {0})
  create_entry name = on_host h.zip_write >> λ b.
      (ok tt, record b { entries = record { name = name; content = "" } ∷ b.entries })

  abbrev pub appended : String → List Entry → List Entry
  appended text [] = []
  appended text (e ∷ es) = record e { content = e.content <> text } ∷ es

  -- `Write(text)` on what `Create` gave last
  unfoldable pub write_entry : String → Act Bundle (Unit {0})
  write_entry text =
      on_host h.zip_write >> λ b. (ok tt, record b { entries = appended text b.entries })

  -- `copyAndRedactFile`
  unfoldable pub copy_lines : List String → Act Bundle (Unit {0})
  unfolding redact_line write_entry
  copy_lines [] = pure tt
  copy_lines (l ∷ ls) = raise (redact_line h l) >>= λ t. write_entry t >> copy_lines ls

  unfoldable pub copy_and_redact_file : Reader → Act Bundle (Unit {0})
  unfolding copy_lines lines_read
  copy_and_redact_file r = copy_lines (lines_read r)

  abbrev pub error_of : Option Error → Result (Unit {0})
  error_of none = ok tt
  error_of (some e) = err e

  -- What is read as a whole before it is copied.
  abbrev pub read_all : Reader → Act Bundle (Unit {0})
  read_all r = raise (error_of r.failed) >> copy_and_redact_file r

  abbrev pub copy_journal : String → String → String → Act Bundle (Unit {0})
  copy_journal service prefix log_lines =
      asked (h.output ("journalctl" ∷ "-n" ∷ log_lines ∷ "--no-pager" ∷ "-xu" ∷ service ∷ []))
      >>= λ out.
          create_entry (join_path (prefix ∷ base service ∷ []))
          >> read_all (record { text = out; failed = none })

  abbrev pub copy_local : String → String → Act Bundle (Unit {0})
  copy_local filename prefix = asked (h.open_file filename) >>= λ r.
      create_entry (join_path (prefix ∷ base filename ∷ [])) >> read_all r

  -- `copyInFile`
  unfoldable pub copy_in_file : String → String → String → Act Bundle (Unit {0})
  unfolding is_service create_entry copy_and_redact_file
  copy_in_file filename prefix log_lines =
      if is_service filename
      then copy_journal (trim_prefix filename "service:") prefix log_lines
      else copy_local filename prefix

  -- What `Wait` reports, with the command's own message where it has one.
  abbrev pub wait_status : Stream → Result (Unit {0})
  unfolding ◌==◌
  wait_status s = elim s.waited [
    | none ↦ ok tt
    | some e ↦ if s.stderr == "" then err e else err (message s.stderr)
  ]

  -- Runs a command in the machine, and copies what it prints.
  abbrev pub stream : List String → String → String → Act Bundle (Unit {0})
  stream args name prefix = asked (h.start_in_vm ("shell" ∷ "finch" ∷ "sudo" ∷ args)) >>= λ s.
      create_entry (join_path (prefix ∷ base name ∷ []))
      >> copy_and_redact_file (record { text = s.out; failed = none })
      >> raise (wait_status s)

  -- `streamFileFromVM`
  unfoldable pub stream_file_from_vm : String → String → String → Act Bundle (Unit {0})
  unfolding is_service create_entry copy_and_redact_file
  stream_file_from_vm filename prefix log_lines =
      let path_in_vm = cut_after filename b':' in
      if is_service filename
      then stream ("journalctl" ∷ "-n" ∷ log_lines ∷ "--no-pager" ∷ "-xu" ∷ path_in_vm ∷ [])
          path_in_vm prefix
      else stream ("cat" ∷ path_in_vm ∷ []) filename prefix

  -- `copyFileFromVMOrLocal`
  unfoldable pub copy_file_from_vm_or_local : String → String → String → Act Bundle (Unit {0})
  unfolding is_service is_file_from_vm stream_file_from_vm copy_in_file ◌==◌
  copy_file_from_vm_or_local filename prefix log_lines =
      if not (h.goos == "linux") && (is_file_from_vm filename || is_service filename)
      then stream_file_from_vm filename prefix log_lines
      else copy_in_file filename prefix log_lines

  -- The loop over one kind of files; an error is logged, and the loop goes on.
  unfoldable pub copy_files : String → BundleCfg → List String → Act Bundle (Unit {0})
  unfolding copy_file_from_vm_or_local file_should_be_excluded
  copy_files prefix cfg [] = pure tt
  copy_files prefix cfg (f ∷ fs) = elim (file_should_be_excluded h f cfg.exclude_files) [
    | true ↦ copy_files prefix cfg fs
    | false ↦
        ignored (copy_file_from_vm_or_local f prefix cfg.log_lines) >> copy_files prefix cfg fs
  ]
