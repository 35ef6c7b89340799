-- ===== src/Support/Allowed.antt =====
-- What a bundle may have in it, and that the collected files are of that kind.
use mathlib.Core.List.{Memᴰ}
use finch.Prelude.{
  String, ◌<>◌, Bool, true, false, List, [], ◌∷◌, ◌≡◌, refl, contains, ◌==◌, ◌||◌, Result, ok, err,
  panicked, ok_inj, sym, ap, ◌∙◌, if◌then◌else◌,
}
use finch.Prelude.Act.{Act, pure, ignored, ◌>>◌}
use finch.Text.FilePath.{join_path, base}
use finch.Support.{BundleHost, BundleCfg}
use finch.Support.Exclude.{
  file_should_be_excluded, absolute, real_filename_of, excluded_by_any, excluded_by,
}
use finch.Support.Bundle.{Entry, Bundle, copy_file_from_vm_or_local, copy_files}
use finch.Support.Generate.{log_files, config_files, journal_services, zip_prefix, copy_journals}
use finch.Support.Entries.{AllEntries, Keeps, bind-Keeps}
use finch.Support.CopyOf.{IsCopyOf}
use finch.Support.Copies.{copy_file-AllEntries}

-- The files that the bundle collects, each with the directory that it goes to.
pub data Collected (h : BundleHost) (cfg : BundleCfg) : String → String → Type 0 where
  logs :
      {f : String}
      → Memᴰ f (log_files h)
      → Collected h cfg (join_path (zip_prefix h ∷ "logs" ∷ [])) f
  journals :
      {f : String}
      → Memᴰ f (journal_services h)
      → contains cfg.exclude_files "service:all" ≡ false
      → Collected h cfg (join_path (zip_prefix h ∷ "logs/journalctl" ∷ [])) f
  configs :
      {f : String}
      → Memᴰ f (config_files h)
      → Collected h cfg (join_path (zip_prefix h ∷ "configs" ∷ [])) f
  additional :
      {f : String}
      → Memᴰ f cfg.additional_files
      → Collected h cfg (join_path (zip_prefix h ∷ "misc" ∷ [])) f

-- No text of the user excludes the file: none is its last component, and none is its path, where
-- both paths can be made absolute. A file of the machine counts without its `vm:`.
abbrev pub Unexcluded : BundleHost → String → List String → Type 0
Unexcluded h f [] = Unit
Unexcluded h f (x ∷ xs) =
    ((a : String)
      → absolute h x ≡ ok a
      → ((base (real_filename_of h f) == x) ≡ false)
        × ((b : String) → absolute h (real_filename_of h f) ≡ ok b → (b == a) ≡ false))
    × Unexcluded h f xs

-- What an entry may be: one of the three that every bundle has, or the redacted copy of a collected
-- file that is not excluded.
pub data IsAllowed (h : BundleHost) (cfg : BundleCfg) : Entry → Type 0 where
  top : (c : String) → IsAllowed h cfg (record { name = zip_prefix h <> "/"; content = c })
  platform :
      (c : String)
      → IsAllowed h cfg
          (record { name = join_path (zip_prefix h ∷ "platform.yaml" ∷ []); content = c })
  version :
      (c : String)
      → IsAllowed h cfg
          (record { name = join_path (zip_prefix h ∷ "version-output.txt" ∷ []); content = c })
  copy :
      (prefix f : String) (e : Entry)
      → Collected h cfg prefix f
      → Unexcluded h f cfg.exclude_files
      → IsCopyOf h cfg.log_lines prefix f e
      → IsAllowed h cfg e

module _ (h : BundleHost) where
  ignored-Keeps :
      {A : Type 0} (I : List Entry → Type 0) (m : Act (Bundle h) A)
      → Keeps h I m
      → Keeps h I (ignored m)
  ignored-Keeps I m k b i = k b i

  copy_files-AllEntries :
      (P : Entry → Type 0) (prefix : String) (cfg : BundleCfg) (fs : List String)
      → ((f : String)
          → Memᴰ f fs
          → file_should_be_excluded h f cfg.exclude_files ≡ false
          → (e : Entry) → IsCopyOf h cfg.log_lines prefix f e
          → P e)
      → Keeps h (AllEntries P) (copy_files h prefix cfg fs)
  unfolding copy_files
  copy_files-AllEntries P prefix cfg [] k b i = i
  copy_files-AllEntries P prefix cfg (f ∷ fs) k b i =
      go (file_should_be_excluded h f cfg.exclude_files) refl
        (copy_files-AllEntries P prefix cfg fs (λ g m. k g (Memᴰ.tail m)))
    where
      go :
          (x : Bool)
          → file_should_be_excluded h f cfg.exclude_files ≡ x
          → Keeps h (AllEntries P) (copy_files h prefix cfg fs)
          → AllEntries P
              ((elim x as (λ y. Act (Bundle h) (Unit {0})) [
                | true ↦ copy_files h prefix cfg fs
                | false ↦
                    ignored (copy_file_from_vm_or_local h f prefix cfg.log_lines)
                    >> copy_files h prefix cfg fs
              ])
                b).1.entries
      go true e ih = ih b i
      go false e ih =
          bind-Keeps h (AllEntries P)
            (ignored (copy_file_from_vm_or_local h f prefix cfg.log_lines))
            (λ u. copy_files h prefix cfg fs)
            (copy_file-AllEntries h cfg.log_lines P prefix f (k f (Memᴰ.head refl) e)) (λ u. ih) b i

  or-false : (x y : Bool) → (x || y) ≡ false → (x ≡ false) × (y ≡ false)
  or-false false y e = (refl, e)
  or-false true y e = cc

  excluded_by_any-Unexcluded :
      (f b : String) (xs : List String)
      → absolute h (real_filename_of h f) ≡ ok b
      → excluded_by_any h (real_filename_of h f) b xs ≡ false
      → Unexcluded h f xs
  unfolding excluded_by_any excluded_by
  excluded_by_any-Unexcluded f b [] q e = tt
  excluded_by_any-Unexcluded f b (x ∷ xs) q e = (
    λ a r. go (absolute h x) r (or-false (excluded_by h (real_filename_of h f) b x) _ e).0,
    excluded_by_any-Unexcluded f b xs q (or-false (excluded_by h (real_filename_of h f) b x) _ e).1,
  )
    where
      go :
          {a : String} (r : Result String)
          → r ≡ ok a
          → (elim r [
            | ok c ↦ b == c || base (real_filename_of h f) == x
            | err e ↦ false
            | panicked ↦ false
          ])
            ≡ false
          → ((base (real_filename_of h f) == x) ≡ false)
            × ((c : String) → absolute h (real_filename_of h f) ≡ ok c → (c == a) ≡ false)
      go {a} (ok c) r e =
          let (other, named) = or-false (b == c) (base (real_filename_of h f) == x) e in
          (
            named,
            λ d s.
                ap (λ z. z == a) (sym (ok_inj b d (sym q ∙ s)))
                ∙ ap (λ z. b == z) (sym (ok_inj c a r))
                ∙ other,
          )
      go (err y) r e = cc
      go panicked r e = cc

  file_should_be_excluded-Unexcluded :
      (f : String) (xs : List String) → file_should_be_excluded h f xs ≡ false → Unexcluded h f xs
  unfolding file_should_be_excluded
  file_should_be_excluded-Unexcluded f xs e = go (absolute h (real_filename_of h f)) refl e
    where
      go :
          (r : Result String)
          → absolute h (real_filename_of h f) ≡ r
          → (elim r [
            | ok b ↦ excluded_by_any h (real_filename_of h f) b xs
            | err x ↦ true
            | panicked ↦ true
          ])
            ≡ false
          → Unexcluded h f xs
      go (ok b) q e = excluded_by_any-Unexcluded f b xs q e
      go (err x) q e = cc
      go panicked q e = cc

  module _ (cfg : BundleCfg) where
    pub copy_files-IsAllowed :
        (prefix : String) (fs : List String)
        → ((f : String) → Memᴰ f fs → Collected h cfg prefix f)
        → Keeps h (AllEntries (IsAllowed h cfg)) (copy_files h prefix cfg fs)
    copy_files-IsAllowed prefix fs k =
        copy_files-AllEntries (IsAllowed h cfg) prefix cfg fs (λ f m x e c.
          copy prefix f e (k f m) (file_should_be_excluded-Unexcluded f cfg.exclude_files x) c)

    pub copy_journals-IsAllowed : Keeps h (AllEntries (IsAllowed h cfg)) (copy_journals h cfg)
    unfolding copy_journals
    copy_journals-IsAllowed b i = go (contains cfg.exclude_files "service:all") refl
      where
        go :
            (x : Bool)
            → contains cfg.exclude_files "service:all" ≡ x
            → AllEntries
                (IsAllowed h cfg)
                ((if x
                    then pure tt
                    else copy_files h
                        (join_path (zip_prefix h ∷ "logs/journalctl" ∷ []))
                        cfg
                        (journal_services h))
                  b).1.entries
        go true e = i
        go false e = copy_files-IsAllowed _ (journal_services h) (λ f m. journals m e) b i
