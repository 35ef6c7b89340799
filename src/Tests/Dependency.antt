-- ===== src/Tests/Dependency.antt =====
-- The theorems on optional dependencies, with two of them.
use finch.Prelude.{◌≡◌, refl, Bool, true, false, none, some, [], ◌∷◌}
use finch.Dependency.{Installer, Group, Progress}
use finch.Dependency.Laws.{IsInstalling}

data Binary : Type 0 where
  helper network : Binary

-- Which of the two is installed.
record Machine : Type 0 where
  has_helper : Bool
  has_network : Bool

abbrev has : Binary → Machine → Bool
has helper m = m.has_helper
has network m = m.has_network

abbrev put : Binary → Machine → Machine
put helper m = record m { has_helper = true }
put network m = record m { has_network = true }

abbrev root : Binary → Bool
root helper = false
root network = true

abbrev installer : Installer
installer = record {
  World = Machine;
  Dependency = Binary;
  requires_root = λ d m. root d;
  installed = has;
  install = λ d m. (none, put d m);
}

has-put : (d : Binary) (m : Machine) → has d (put d m) ≡ true
has-put helper m = refl
has-put network m = refl

put_keeps : (d e : Binary) (m : Machine) → has d m ≡ true → has d (put e m) ≡ true
put_keeps helper helper m h = refl
put_keeps helper network m h = h
put_keeps network helper m h = h
put_keeps network network m h = refl

installer-IsInstalling : IsInstalling installer
installer-IsInstalling = record {
  installed-install = λ d m e. has-put d m;
  install_keeps = put_keeps;
}

abbrev both : Group installer
both = record {
  deps = some helper ∷ none ∷ some network ∷ [];
  desc = "Requesting root";
  err_msg = "failed";
}

abbrev nothing_yet : Progress installer
nothing_yet = record { world = record { has_helper = false; has_network = false }; logs = [] }
