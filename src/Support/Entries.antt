-- ===== src/Support/Entries.antt =====
-- What an action on a bundle keeps of the archive, whether it succeeds or fails.
use finch.Prelude.{String, ◌<>◌, List, [], ◌∷◌, ◌≡◌, refl, sym, ap, Result, ok, err, panicked}
use finch.Prelude.Act.{Act, continue, ◌>>=◌, ◌>>◌}
use finch.Support.{BundleHost}
use finch.Support.Bundle.{Entry, Bundle, on_host, create_entry, write_entry, appended}
use mathlib.Core.Path.{subst}

abbrev pub AllEntries : (Entry → Type 0) → List Entry → Type 0
AllEntries P [] = Unit
AllEntries P (e ∷ es) = P e × AllEntries P es

-- The entry that is being written: its name stands, and its content satisfies `R`.
abbrev pub Open : (String → Type 0) → String → List Entry → List Entry → Type 0
Open R name es l = (c : String) × (l ≡ record { name = name; content = c } ∷ es) × R c

module _ (h : BundleHost) where
  abbrev pub Keeps : {A : Type 0} → (List Entry → Type 0) → Act (Bundle h) A → Type 0
  Keeps I m = (b : Bundle h) → I b.entries → I (m b).1.entries

  pub bind-Keeps :
      {A B : Type 0} (I : List Entry → Type 0) (m : Act (Bundle h) A) (f : A → Act (Bundle h) B)
      → Keeps I m
      → ((a : A) → Keeps I (f a))
      → Keeps I (m >>= f)
  bind-Keeps {A} {B} I m f k l b i = go (m b).0 (m b).1 (k b i)
    where
      go : (r : Result A) (b' : Bundle h) → I b'.entries → I (continue r f b').1.entries
      go (ok a) b' j = l a b' j
      go (err e) b' j = j
      go panicked b' j = j

  pub write_entry-Open :
      (R : String → Type 0) (name text : String) (es : List Entry)
      → ((c : String) → R c → R (c <> text))
      → Keeps (Open R name es) (write_entry h text)
  unfolding write_entry
  write_entry-Open R name text es k =
      bind-Keeps (Open R name es) (on_host h h.zip_write)
        (λ u b. (ok tt, record b { entries = appended h text b.entries })) (λ b i. i)
        (λ u b i. let (c, e, r) = i in (c <> text, ap (appended h text) e, k c r))

  -- An entry is made and written to.
  pub create_entry-AllEntries :
      {A : Type 0} (P : Entry → Type 0) (R : String → Type 0) (name : String)
      (rest : Act (Bundle h) A)
      → ((es : List Entry) (b : Bundle h)
          → b.entries ≡ record { name = name; content = "" } ∷ es
          → Open R name es (rest b).1.entries)
      → ((c : String) → R c → P (record { name = name; content = c }))
      → Keeps (AllEntries P) (create_entry h name >> rest)
  unfolding create_entry
  create_entry-AllEntries {A} P R name rest k p b i = go (h.zip_write b.world).0
    where
      w : h.World
      w = (h.zip_write b.world).1

      made : Bundle h
      made = record { world = w; entries = record { name = name; content = "" } ∷ b.entries }

      close : (l : List Entry) → Open R name b.entries l → AllEntries P l
      close l (c, e, r) = subst (AllEntries P) (sym e) (p c r, i)

      go :
          (a : Result (Unit {0}))
          → AllEntries P
              (continue
                (continue a
                  (λ u b. (
                    ok tt,
                    record b { entries = record { name = name; content = "" } ∷ b.entries },
                  ))
                  (record b { world = w })).0
                (λ u. rest)
                (continue a
                  (λ u b. (
                    ok tt,
                    record b { entries = record { name = name; content = "" } ∷ b.entries },
                  ))
                  (record b { world = w })).1).1.entries
      go (ok u) = close _ (k b.entries made refl)
      go (err e) = i
      go panicked = i
