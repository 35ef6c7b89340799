-- ===== src/Nerdctl/Deps.antt =====
-- What `nerdctlCommand` gets from outside: the environment, the file system, limactl, and the
-- libraries for ordered maps, Docker's options and Lima's networks.
use finch.Prelude.{Bool, String, Option, List, [], ◌≡◌, Result, Error, insert}
use finch.Lima.{Reply}

-- A file that has been opened: its text up to a read error, if there is one.
pub record FileText : Type 0 where
  pub text : String
  pub read_error : Option Error

-- `github.com/wk8/go-ordered-map`, on which `run` relies to keep the order of first insertion.
pub record OrderedMap : Type 1 where
  pub M : Type 0
  pub new : M
  pub set : String → String → M → M
  -- the pairs from `Oldest()` on
  pub pairs : M → List (String × String)

-- The library's documented behaviour: `Set` appends a new key, and gives a known key its new value
-- at its old place.
pub record IsOrdered (o : OrderedMap) : Type 0 where
  pub pairs-new : o.pairs o.new ≡ []
  pub pairs-set : (k v : String) (m : o.M) → o.pairs (o.set k v m) ≡ insert k v (o.pairs m)

pub record Deps : Type 1 where
  pub docker_compat : Bool
  -- `LookupEnv`
  pub lookup_env : String → Option String
  -- `fs.Open`
  pub open_file : String → Result FileText
  -- `ncc.CreateWithoutStdio(args...).Output()`
  pub limactl : List String → Reply
  pub ordered_map : OrderedMap
  -- the order in which `range` visits a Go map
  pub iterate : List (String × String) → List (String × String)
  -- `dockerops.HostGatewayName`
  pub host_gateway_name : String
  -- the address that stands for `host-gateway`: `networks.SlirpGateway` on macOS
  pub gateway : Result String
