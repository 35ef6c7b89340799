-- ===== src/Command/Environ.antt =====
-- What a process finds in an environment, and what `replaceOrAppend` changes of that.
use Prim.Native.Char.{Char, code}
use text.Mathlib.TextEquality.{Char-path}
use text.Mathlib.TextLemmas.{cons-append, nil-append}
use text.Mathlib.TextLemmas
use finch.Prelude.{
  String, ◌<>◌, Bool, true, false, Option, none, some, List, [], ◌∷◌, ◌++◌, ◌≡◌, refl, sym, ap, ◌∙◌,
  arith, nat_eq, Bool-cases, inl, inr, if◌then◌else◌, ◌==◌, ==_iff, ==_self,
}
use finch.Text.{has_prefix, has_char, slice_from, len}
use finch.Text.Laws.{nat_eq→eq}
use finch.Command.{replace_or_append}

-- Of the entries for a variable the last one counts.
abbrev pub or_here : String → String → Option String → Option String
or_here e k (some v) = some v
or_here e k none = if has_prefix e (k <> "=") then some (slice_from (len (k <> "=")) e) else none

unfoldable pub value_in : List String → String → Option String
unfolding has_prefix slice_from len
value_in [] k = none
value_in (e ∷ es) k = or_here e k (value_in es k)

-- No entry for the variable stands before another one.
unfoldable pub IsUnrepeated : List String → String → Type 0
unfolding value_in
IsUnrepeated [] k = Unit
IsUnrepeated (e ∷ es) k =
    (has_prefix e (k <> "=") ≡ true → value_in es k ≡ none) × IsUnrepeated es k

-- The name in front of the first `=` of an entry is one name.
entry_name :
    (e a b : String)
    → has_char a b'=' ≡ false
    → has_char b b'=' ≡ false
    → has_prefix e (a <> "=") ≡ true
    → has_prefix e (b <> "=") ≡ true
    → a ≡ b
unfolding has_prefix has_char
entry_name e String.[] String.[] p q h k = refl
entry_name String.[] String.[] (String.◌∷◌ d b) p q h k = cc (rw (cons-append d b "=") at k)
entry_name (String.◌∷◌ c e) String.[] (String.◌∷◌ d b) p q h k =
    let k' = rw (cons-append d b "=") at k in absurd (ground arith)
entry_name String.[] (String.◌∷◌ d a) b p q h k = cc (rw (cons-append d a "=") at h)
entry_name (String.◌∷◌ c e) (String.◌∷◌ d a) String.[] p q h k =
    let h' = rw (cons-append d a "=") at h in absurd (ground arith)
entry_name (String.◌∷◌ c e) (String.◌∷◌ d a) (String.◌∷◌ f b) p q h k =
    let h' = rw (cons-append d a "=") at h in
    let k' = rw (cons-append f b "=") at k in
    let r =
      entry_name e a b (no_equals d a p) (no_equals f b q) (behind c d e (a <> "=") h')
        (behind c f e (b <> "=") k') in
    ap (λ s. String.◌∷◌ d s) r
    ∙ ap (λ x. String.◌∷◌ x b)
        (sym (Char-path c d (nat_eq→eq _ _ (first c d e (a <> "=") h')))
          ∙ Char-path c f (nat_eq→eq _ _ (first c f e (b <> "=") k')))
  where
    no_equals :
        (d : Char) (a : String) → has_char (String.◌∷◌ d a) b'=' ≡ false → has_char a b'=' ≡ false
    no_equals d a p = ground arith

    behind :
        (c d : Char) (e a : String)
        → has_prefix (String.◌∷◌ c e) (String.◌∷◌ d a) ≡ true
        → has_prefix e a ≡ true
    behind c d e a h = ground arith

    first :
        (c d : Char) (e a : String)
        → has_prefix (String.◌∷◌ c e) (String.◌∷◌ d a) ≡ true
        → nat_eq (code c) (code d) ≡ true
    first c d e a h = ground arith

-- An entry for the variable as the program writes it.
abbrev pub entry : String → String → String
entry k v = k <> ("=" <> v)

has_prefix-append : (s x : String) → has_prefix (s <> x) s ≡ true
unfolding has_prefix
has_prefix-append String.[] x = refl
has_prefix-append (String.◌∷◌ c s) x = rw cons-append (ground (arith, has_prefix-append s x))

slice_from-append : (s x : String) → slice_from (len s) (s <> x) ≡ x
unfolding slice_from len
slice_from-append String.[] x = nil-append x
slice_from-append (String.◌∷◌ c s) x = rw cons-append (slice_from-append s x)

has_prefix-entry : (k v : String) → has_prefix (entry k v) (k <> "=") ≡ true
has_prefix-entry k v =
    ap (λ s. has_prefix s (k <> "=")) (sym (TextLemmas.append_assoc k "=" v))
    ∙ has_prefix-append (k <> "=") v

slice_from-entry : (k v : String) → slice_from (len (k <> "=")) (entry k v) ≡ v
slice_from-entry k v =
    ap (slice_from (len (k <> "="))) (sym (TextLemmas.append_assoc k "=" v))
    ∙ slice_from-append (k <> "=") v

-- Of two lists of entries the second counts first.
abbrev pub or_else : Option String → Option String → Option String
or_else (some v) o = some v
or_else none o = o

pub value_in-append :
    (es fs : List String) (k : String)
    → value_in (es ++ fs) k ≡ or_else (value_in fs k) (value_in es k)
unfolding value_in
value_in-append [] fs k = nothing (value_in fs k)
  where
    nothing : (o : Option String) → o ≡ or_else o none
    nothing (some v) = refl
    nothing none = refl
value_in-append (e ∷ es) fs k = ap (or_here e k) (value_in-append es fs k) ∙ go (value_in fs k)
  where
    go :
        (o : Option String)
        → or_here e k (or_else o (value_in es k)) ≡ or_else o (or_here e k (value_in es k))
    go (some v) = refl
    go none = refl

module _ (name v : String) (p : has_char name b'=' ≡ false) where
  -- Another variable finds nothing in the entry of this one.
  other_entry :
      (e k : String)
      → has_char k b'=' ≡ false
      → (k == name) ≡ false
      → has_prefix e (name <> "=") ≡ true
      → has_prefix e (k <> "=") ≡ false
  other_entry e k q d h = elim (Bool-cases (has_prefix e (k <> "="))) [
    | inr f ↦ f
    | inl t ↦ absurd (cc (d, ==_self name, entry_name e k name q p t h))
  ]

  or_here-other :
      (e k : String) (o : Option String) → has_prefix e (k <> "=") ≡ false → or_here e k o ≡ o
  or_here-other e k (some x) h = refl
  or_here-other e k none h = rw h refl

  pub or_here-entry :
      (k : String)
      → has_char k b'=' ≡ false
      → or_here (entry name v) k none ≡ (if k == name then some v else none)
  or_here-entry k q = elim (Bool-cases (k == name)) [
    | inl t ↦ rw t (
        ap (λ x. or_here (entry name v) x none) (==_iff k name t)
        ∙ rw (has_prefix-entry name v) (ap some (slice_from-entry name v)))
    | inr f ↦ rw (f, other_entry (entry name v) k q f (has_prefix-entry name v)) refl
  ]

  -- The entry takes the place of one for the same variable.
  replaced_here :
      (e k : String) (o : Option String)
      → has_char k b'=' ≡ false
      → has_prefix e (name <> "=") ≡ true
      → ((k == name) ≡ true → o ≡ none)
      → or_here (entry name v) k o ≡ (if k == name then some v else or_here e k o)
  replaced_here e k o q h fresh = elim (Bool-cases (k == name)) [
    | inl t ↦ ap (or_here (entry name v) k) (fresh t) ∙ or_here-entry k q ∙ rw t refl
    | inr f ↦ rw f (
        or_here-other (entry name v) k o
          (other_entry (entry name v) k q f (has_prefix-entry name v))
        ∙ sym (or_here-other e k o (other_entry e k q f h)))
  ]

  pub kept_here :
      (e k : String) (o : Option String)
      → or_here e k (if k == name then some v else o)
        ≡ (if k == name then some v else or_here e k o)
  kept_here e k o = elim (Bool-cases (k == name)) [ inl t ↦ rw t refl | inr f ↦ rw f refl ]

  -- `replaceOrAppend` gives the variable its value, and changes no other variable.
  pub value_in-replace_or_append :
      (es : List String) (k : String)
      → has_char k b'=' ≡ false
      → IsUnrepeated es name
      → value_in (replace_or_append es name (entry name v)) k
        ≡ (if k == name then some v else value_in es k)
  unfolding value_in replace_or_append IsUnrepeated
  value_in-replace_or_append [] k q u = or_here-entry k q
  value_in-replace_or_append (e ∷ es) k q (fresh, u) =
      elim (Bool-cases (has_prefix e (name <> "="))) [
        | inl h ↦ rw h (
            replaced_here e k (value_in es k) q h
              (λ t. ap (value_in es) (==_iff k name t) ∙ fresh h))
        | inr h ↦
            rw h (
              ap (or_here e k) (value_in-replace_or_append es k q u)
              ∙ kept_here e k (value_in es k))
      ]

  -- Another variable that stood once goes on standing once.
  pub replace_or_append-IsUnrepeated :
      (es : List String) (k : String)
      → has_char k b'=' ≡ false
      → (k == name) ≡ false
      → IsUnrepeated es name
      → IsUnrepeated es k
      → IsUnrepeated (replace_or_append es name (entry name v)) k
  unfolding replace_or_append IsUnrepeated value_in
  replace_or_append-IsUnrepeated [] k q d u t = (λ h. refl, tt)
  replace_or_append-IsUnrepeated (e ∷ es) k q d (fresh, u) (once, t) =
      go (has_prefix e (name <> "=")) (replace_or_append-IsUnrepeated es k q d u t)
    where
      after : value_in (replace_or_append es name (entry name v)) k ≡ value_in es k
      after = value_in-replace_or_append es k q u ∙ rw d refl

      go :
          (b : Bool)
          → IsUnrepeated (replace_or_append es name (entry name v)) k
          → IsUnrepeated
              (if b then entry name v ∷ es else e ∷ replace_or_append es name (entry name v))
              k
      go true ih = (λ h. cc (h, other_entry (entry name v) k q d (has_prefix-entry name v)), t)
      go false ih = (λ h. after ∙ once h, ih)
