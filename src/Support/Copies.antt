-- ===== src/Support/Copies.antt =====
-- A file that is copied adds one entry at most, and that is redacted.
use finch.Prelude.{
  String, ◌<>◌, Bool, true, false, List, [], ◌∷◌, ◌≡◌, refl, ap, ◌∙◌, ◌++◌, append_assoc, Result,
  ok, err, panicked, if◌then◌else◌, ◌&&◌, ◌||◌, not, ◌==◌, none,
}
use finch.Prelude.Act.{Act, raise, continue, ◌>>=◌, ◌>>◌}
use finch.Text.{cut_after, trim_prefix}
use finch.Text.FilePath.{join_path, base}
use finch.Support.{BundleHost, Reader, Stream}
use finch.Support.Redact.{redact_line}
use finch.Support.Elided.{redact_line-Replaced}
use finch.Support.Exclude.{is_service, is_file_from_vm}
use finch.Support.Bundle.{
  Entry, Bundle, asked, create_entry, write_entry, copy_lines, copy_and_redact_file, lines_read,
  read_all, copy_journal, copy_local, copy_in_file, stream, stream_file_from_vm, wait_status,
  copy_file_from_vm_or_local, error_of, appended,
}
use finch.Support.Entries.{AllEntries, Open, Keeps, bind-Keeps, create_entry-AllEntries}
use finch.Support.CopyOf.{
  Redacted, nothing, line, FirstRedacted, IsSourceOf, file, journal, file_in_vm, journal_in_vm,
  IsNameOf, of_file, of_journal, of_service, IsCopyOf,
}

module _ (h : BundleHost) where
  -- From an entry with the first lines on, the copy ends with an entry that has first lines.
  copy_lines-Open :
      (name : String) (es : List Entry) (all done ls : List String) (c : String)
      → done ++ ls ≡ all
      → Redacted h done c
      → (b : Bundle h) → b.entries ≡ record { name = name; content = c } ∷ es
      → Open (FirstRedacted h all) name es (copy_lines h ls b).1.entries
  unfolding copy_lines
  copy_lines-Open name es all done [] c q k b e = (c, e, (done, [], q, k))
  copy_lines-Open name es all done (l ∷ ls) c q k b e =
      go (redact_line h l) refl (copy_lines-Open name es all (done ++ l ∷ []) ls)
    where
      Copied : (Act (Bundle h) (Unit {0})) → Type 0
      Copied m = Open (FirstRedacted h all) name es (m b).1.entries

      Rest : Type 0
      Rest =
          (c : String)
          → (done ++ l ∷ []) ++ ls ≡ all
          → Redacted h (done ++ l ∷ []) c
          → (b : Bundle h) → b.entries ≡ record { name = name; content = c } ∷ es
          → Open (FirstRedacted h all) name es (copy_lines h ls b).1.entries

      stopped : Open (FirstRedacted h all) name es b.entries
      stopped = (c, e, (done, l ∷ ls, q, k))

      w : h.World
      w = (h.zip_write b.world).1

      written :
          (t : String) (a : Result (Unit {0}))
          → redact_line h l ≡ ok t
          → Rest
          → Open
              (FirstRedacted h all)
              name
              es
              (continue
                (continue a
                  (λ u b. (ok tt, record b { entries = appended h t b.entries }))
                  (record b { world = w })).0
                (λ u. copy_lines h ls)
                (continue a
                  (λ u b. (ok tt, record b { entries = appended h t b.entries }))
                  (record b { world = w })).1).1.entries
      written t (ok u) x rest =
          rest (c <> t) (append_assoc done (l ∷ []) ls ∙ q)
            (line done c l t k (redact_line-Replaced h l t x))
            (record { world = w; entries = appended h t b.entries }) (ap (appended h t) e)
      written t (err x') x rest = stopped
      written t panicked x rest = stopped

      go :
          (r : Result String)
          → redact_line h l ≡ r
          → Rest
          → Open
              (FirstRedacted h all)
              name
              es
              (continue r (λ t. write_entry h t >> copy_lines h ls) b).1.entries
      go (ok t) x rest = written t (h.zip_write b.world).0 x rest
      go (err x) y rest = stopped
      go panicked y rest = stopped

  module _ (log_lines : String) (P : Entry → Type 0) (prefix f : String)
      (copied : (e : Entry) → IsCopyOf h log_lines prefix f e → P e) where
    copy-AllEntries :
        (name : String) (r : Reader)
        → IsNameOf prefix f name
        → IsSourceOf h log_lines f r
        → Keeps h (AllEntries P) (create_entry h name >> copy_and_redact_file h r)
    unfolding copy_and_redact_file IsCopyOf
    copy-AllEntries name r n o =
        create_entry-AllEntries h P (FirstRedacted h (lines_read r)) name (copy_and_redact_file h r)
          (λ es b e. copy_lines-Open name es (lines_read r) [] (lines_read r) "" refl nothing b e)
          (λ c k. copied _ (n, (r, o, k)))

    read_all-AllEntries :
        (name : String) (r : Reader)
        → IsNameOf prefix f name
        → IsSourceOf h log_lines f r
        → Keeps h (AllEntries P) (create_entry h name >> read_all h r)
    unfolding copy_and_redact_file IsCopyOf
    read_all-AllEntries name r n o =
        create_entry-AllEntries h P (FirstRedacted h (lines_read r)) name (read_all h r)
          (λ es b e. started es b e (error_of h r.failed)) (λ c k. copied _ (n, (r, o, k)))
      where
        started :
            (es : List Entry) (b : Bundle h)
            → b.entries ≡ record { name = name; content = "" } ∷ es
            → (a : Result (Unit {0}))
            → Open
                (FirstRedacted h (lines_read r))
                name
                es
                (continue a (λ u. copy_and_redact_file h r) b).1.entries
        started es b e (ok u) =
            copy_lines-Open name es (lines_read r) [] (lines_read r) "" refl nothing b e
        started es b e (err x) = ("", e, ([], lines_read r, refl, nothing))
        started es b e panicked = ("", e, ([], lines_read r, refl, nothing))

    -- The answer of the host that was asked for goes on with the rest.
    asked-AllEntries :
        {A : Type 0} (g : h.World → Result A) (rest : A → Act (Bundle h) (Unit {0}))
        → ((w : h.World) (a : A) → g w ≡ ok a → Keeps h (AllEntries P) (rest a))
        → Keeps h (AllEntries P) (asked h g >>= rest)
    asked-AllEntries {A} g rest k b i = go (g b.world) refl
      where
        go : (r : Result A) → g b.world ≡ r → AllEntries P (continue r rest b).1.entries
        go (ok a) e = k b.world a e b i
        go (err x) e = i
        go panicked e = i

    copy_in_file-AllEntries : Keeps h (AllEntries P) (copy_in_file h f prefix log_lines)
    unfolding copy_in_file
    copy_in_file-AllEntries = go (is_service f)
      where
        go :
            (b : Bool)
            → Keeps h (AllEntries P) (
                if b
                then copy_journal h (trim_prefix f "service:") prefix log_lines
                else copy_local h f prefix)
        go true = asked-AllEntries _ _ (λ w out e.
            read_all-AllEntries _ (record { text = out; failed = none }) of_journal
              (journal w out e))
        go false = asked-AllEntries _ _ (λ w r e. read_all-AllEntries _ r of_file (file w r e))

    stream-AllEntries :
        (args : List String) (name : String)
        → IsNameOf prefix f (join_path (prefix ∷ base name ∷ []))
        → ((w : h.World) (s : Stream)
            → h.start_in_vm ("shell" ∷ "finch" ∷ "sudo" ∷ args) w ≡ ok s
            → IsSourceOf h log_lines f (record { text = s.out; failed = none }))
        → Keeps h (AllEntries P) (stream h args name prefix)
    stream-AllEntries args name n o =
        asked-AllEntries (h.start_in_vm ("shell" ∷ "finch" ∷ "sudo" ∷ args)) rest (λ w s e.
          bind-Keeps h (AllEntries P)
            (create_entry h (join_path (prefix ∷ base name ∷ []))
              >> copy_and_redact_file h (record { text = s.out; failed = none }))
            (λ u. raise (wait_status h s))
            (copy-AllEntries _ (record { text = s.out; failed = none }) n (o w s e)) (λ u b i. i))
      where
        rest : Stream → Act (Bundle h) (Unit {0})
        rest s =
            create_entry h (join_path (prefix ∷ base name ∷ []))
            >> copy_and_redact_file h (record { text = s.out; failed = none })
            >> raise (wait_status h s)

    stream_file_from_vm-AllEntries :
        Keeps h (AllEntries P) (stream_file_from_vm h f prefix log_lines)
    unfolding stream_file_from_vm
    stream_file_from_vm-AllEntries b i = go (is_service f)
      where
        go :
            (s : Bool)
            → AllEntries P
                ((if s
                    then stream h
                        ("journalctl"
                          ∷ "-n"
                          ∷ log_lines
                          ∷ "--no-pager"
                          ∷ "-xu"
                          ∷ cut_after f b':'
                          ∷ [])
                        (cut_after f b':')
                        prefix
                    else stream h ("cat" ∷ cut_after f b':' ∷ []) f prefix)
                  b).1.entries
        go true = stream-AllEntries _ (cut_after f b':') of_service journal_in_vm b i
        go false = stream-AllEntries _ f of_file file_in_vm b i

    pub copy_file-AllEntries :
        Keeps h (AllEntries P) (copy_file_from_vm_or_local h f prefix log_lines)
    unfolding copy_file_from_vm_or_local
    copy_file-AllEntries b i = go (not (h.goos == "linux") && (is_file_from_vm f || is_service f))
      where
        go :
            (s : Bool)
            → AllEntries P
                ((if s
                    then stream_file_from_vm h f prefix log_lines
                    else copy_in_file h f prefix log_lines)
                  b).1.entries
        go true = stream_file_from_vm-AllEntries b i
        go false = copy_in_file-AllEntries b i
