-- ===== src/Tests/Codec.antt =====
-- A file system of one file, and a codec of configurations, for the tests.
use finch.Prelude.{
  bind-eq_ok, ok_inj, ap, sym, ◌∙◌, is_empty, ==_iff, ◌>>=◌, ◌>>◌, zero, suc, not, ℕ, String, ◌≡◌,
  refl, Bool, true, false, Option, none, some, List, [], ◌∷◌, ◌==◌, Result, ok, err, message,
}
use finch.Text.{len}
use finch.Prelude.Int.{ℤ, pos, negsuc}
use finch.Config.Types.{Finch}
use finch.Config.Files.{Store, empty_config}
use finch.Config.Files.Laws.{IsStore}

-- A file system of one file. The codec knows the configurations that differ from `full` in the number of
-- processors, which is the length of the text.
abbrev pub full : ℕ → Finch
full n = record empty_config {
  cpus = some (pos n);
  memory = some "4GiB";
  rosetta = some false;
  vm_type = some "vz";
  creds_helpers = "osxkeychain" ∷ [];
}

abbrev strange : {A : Type 0} → Result A
strange = err (message "strange")

abbrev need : Bool → Result (Unit {0})
need true = ok tt
need false = strange

abbrev text : Option String → Result String
text none = strange
text (some s) = ok s

abbrev number : Option ℤ → Result ℕ
number none = strange
number (some (pos n)) = ok n
number (some (negsuc n)) = strange

abbrev only : List String → Result String
only [] = strange
only (x ∷ []) = ok x
only (x ∷ (y ∷ l)) = strange

abbrev is_false : Option Bool → Bool
is_false none = false
is_false (some b) = not b

abbrev pub unary : ℕ → String
unary zero = ""
unary (suc n) = String.◌∷◌ "x" (unary n)

abbrev pub print : Finch → Result String
print cfg = do
  m ← text cfg.memory
  need (m == "4GiB")
  need (is_false cfg.rosetta)
  v ← text cfg.vm_type
  need (v == "vz")
  c ← only cfg.creds_helpers
  need (c == "osxkeychain")
  need (is_empty cfg.additional_directories)
  need (is_empty cfg.snapshotters)
  need (not cfg.mount_inotify)
  need (not cfg.docker_compat)
  n ← number cfg.cpus
  ok (unary n)

need-eq_ok : (b : Bool) (u : Unit {0}) → need b ≡ ok u → b ≡ true
need-eq_ok true u h = refl
need-eq_ok false u h = cc

text-eq_ok : (o : Option String) (s : String) → text o ≡ ok s → o ≡ some s
text-eq_ok none s h = cc
text-eq_ok (some t) s h = ap some (ok_inj t s h)

number-eq_ok : (o : Option ℤ) (n : ℕ) → number o ≡ ok n → o ≡ some (pos n)
number-eq_ok none n h = cc
number-eq_ok (some (pos m)) n h = ap (λ k. some (pos k)) (ok_inj m n h)
number-eq_ok (some (negsuc m)) n h = cc

only-eq_ok : (xs : List String) (x : String) → only xs ≡ ok x → xs ≡ x ∷ []
only-eq_ok [] x h = cc
only-eq_ok (y ∷ []) x h = ap (λ z. z ∷ []) (ok_inj y x h)
only-eq_ok (y ∷ (z ∷ l)) x h = cc

is_false-eq : (o : Option Bool) → is_false o ≡ true → o ≡ some false
is_false-eq none h = cc
is_false-eq (some true) h = cc
is_false-eq (some false) h = refl

not-eq : (b : Bool) → not b ≡ true → b ≡ false
not-eq true h = cc
not-eq false h = refl

is_empty-eq : {A : Type 0} (xs : List A) → is_empty xs ≡ true → xs ≡ []
is_empty-eq [] h = refl
is_empty-eq (x ∷ xs) h = cc

len-unary : (n : ℕ) → len (unary n) ≡ n
unfolding len
len-unary zero = refl
len-unary (suc n) = ap suc (len-unary n)

full-print : (cfg : Finch) (t : String) → print cfg ≡ ok t → ok (full (len t)) ≡ ok cfg
full-print cfg t h =
    let (m, m', h1) = bind-eq_ok (text cfg.memory) _ t h in
    let (u1, e1, h2) = bind-eq_ok (need (m == "4GiB")) _ t h1 in
    let (u2, e2, h3) = bind-eq_ok (need (is_false cfg.rosetta)) _ t h2 in
    let (v, v', h4) = bind-eq_ok (text cfg.vm_type) _ t h3 in
    let (u3, e3, h5) = bind-eq_ok (need (v == "vz")) _ t h4 in
    let (c, c', h6) = bind-eq_ok (only cfg.creds_helpers) _ t h5 in
    let (u4, e4, h7) = bind-eq_ok (need (c == "osxkeychain")) _ t h6 in
    let (u5, e5, h8) = bind-eq_ok (need (is_empty cfg.additional_directories)) _ t h7 in
    let (u6, e6, h9) = bind-eq_ok (need (is_empty cfg.snapshotters)) _ t h8 in
    let (u7, e7, h10) = bind-eq_ok (need (not cfg.mount_inotify)) _ t h9 in
    let (u8, e8, h11) = bind-eq_ok (need (not cfg.docker_compat)) _ t h10 in
    let (n, n', h12) = bind-eq_ok (number cfg.cpus) _ t h11 in
    let cpus =
      number-eq_ok cfg.cpus n n'
      ∙ ap (λ k. some (pos k)) (sym (len-unary n) ∙ ap len (ok_inj (unary n) t h12)) in
    let memory = text-eq_ok cfg.memory m m' ∙ ap some (==_iff m "4GiB" (need-eq_ok _ u1 e1)) in
    let vm_type = text-eq_ok cfg.vm_type v v' ∙ ap some (==_iff v "vz" (need-eq_ok _ u3 e3)) in
    let creds =
      only-eq_ok cfg.creds_helpers c c'
      ∙ ap (λ z. z ∷ []) (==_iff c "osxkeychain" (need-eq_ok _ u4 e4)) in
    let rosetta = is_false-eq cfg.rosetta (need-eq_ok _ u2 e2) in
    let directories = is_empty-eq cfg.additional_directories (need-eq_ok _ u5 e5) in
    let snapshotters = is_empty-eq cfg.snapshotters (need-eq_ok _ u6 e6) in
    let inotify = not-eq cfg.mount_inotify (need-eq_ok _ u7 e7) in
    let compat = not-eq cfg.docker_compat (need-eq_ok _ u8 e8) in
    sym (λ i. ok (record {
      cpus = cpus i;
      memory = memory i;
      additional_directories = directories i;
      rosetta = rosetta i;
      vm_type = vm_type i;
      snapshotters = snapshotters i;
      creds_helpers = creds i;
      mount_inotify = inotify i;
      docker_compat = compat i;
    }))

abbrev pub store : Store
store = record {
  World = String;
  read_file = λ path w. ok w;
  write_file = λ path t w. (ok tt, t);
  dir_exists = λ path w. ok true;
  mkdir = λ path w. (ok tt, w);
  marshal = print;
  unmarshal = λ t. ok (full (len t));
}

pub store-IsStore : IsStore store
store-IsStore = record {
  read-write = λ path t w w' h. ap (λ (p : Result (Unit {0}) × String). ok p.1) (sym h);
  unmarshal-marshal = full-print;
}
