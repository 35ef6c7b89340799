-- ===== src/Support/BaseNames.antt =====
-- A base name that is given for exclusion.
use finch.Prelude.{
  String, Bool, true, false, ◌||◌, List, [], ◌∷◌, ◌≡◌, refl, ap, ok, ◌>>=◌, contains, ◌==◌, ==_iff,
  ==_self, if◌then◌else◌,
}
use finch.Text.{has_prefix}
use finch.Text.FilePath.{base, clean, join_path}
use finch.Support.{BundleHost}
use finch.Support.Exclude.{
  absolute, excluded_by, excluded_by_any, real_filename_of, file_should_be_excluded,
}

or_true : (x : Bool) → (x || true) ≡ true
or_true true = refl
or_true false = refl

module _ (h : BundleHost) (d : String) (k : h.working_dir ≡ ok d) where
  absolute-ok : (path : String) → (a : String) × (absolute h path ≡ ok a)
  unfolding absolute
  absolute-ok path = go (has_prefix path "/")
    where
      go :
          (b : Bool)
          → (a : String) × ((if b
                then ok (clean path)
                else h.working_dir >>= λ d. ok (join_path (d ∷ path ∷ [])))
              ≡ ok a)
      go true = (clean path, refl)
      go false = (join_path (d ∷ path ∷ []), rw k refl)

  excluded_by-base : (f a : String) → excluded_by h f a (base f) ≡ true
  unfolding excluded_by
  excluded_by-base f a =
      let (b, e) = absolute-ok (base f) in rw (excluded_by, e, ==_self (base f)) (or_true (a == b))

  excluded_by_any-base :
      (f a : String) (xs : List String)
      → contains xs (base f) ≡ true
      → excluded_by_any h f a xs ≡ true
  unfolding excluded_by_any contains
  excluded_by_any-base f a [] c = cc
  excluded_by_any-base f a (x ∷ xs) c = go (x == base f) refl (excluded_by_any-base f a xs) c
    where
      go :
          (b : Bool)
          → (x == base f) ≡ b
          → (contains xs (base f) ≡ true → excluded_by_any h f a xs ≡ true)
          → (b || contains xs (base f)) ≡ true
          → (excluded_by h f a x || excluded_by_any h f a xs) ≡ true
      go true e ih c = rw (ap (excluded_by h f a) (==_iff x (base f) e), excluded_by-base f a) refl
      go false e ih c = rw (ih c) (or_true (excluded_by h f a x))

  -- Where the working directory is known, a file is excluded when the base name of its path, in the
  -- machine or on the host, is among the names to exclude.
  file_should_be_excluded-base :
      (f : String) (exclude : List String)
      → contains exclude (base (real_filename_of h f)) ≡ true
      → file_should_be_excluded h f exclude ≡ true
  unfolding file_should_be_excluded
  file_should_be_excluded-base f exclude c =
      let (a, e) = absolute-ok (real_filename_of h f) in
      rw (file_should_be_excluded, e) (excluded_by_any-base (real_filename_of h f) a exclude c)
