-- ===== src/Config/Validate.antt =====
-- pkg/config/validate_darwin.go. What it only logs is left out; a nil pointer faults.
use finch.Prelude.{
  String, ◌<>◌, Option, none, some, if◌then◌else◌, Result, ok, err, message, panicked, context,
  ◌>>=◌, ◌>>◌,
}
use finch.Prelude.Int.{ℤ, is_positive}
use finch.Config.Types.{Finch}
use finch.Config.System.{System}

check_cpus : Option ℤ → Result (Unit {0})
check_cpus none = panicked
check_cpus (some n) =
    if is_positive n then ok tt else err (message "specified number of CPUs must be greater than 0")

check_size : String → ℤ → Result (Unit {0})
check_size memory n =
    if is_positive n
    then ok tt
    else err (message ("specified amount of memory (" <> (memory <> ") must be greater than 0GiB")))

check_memory : System → Option String → Result (Unit {0})
unfolding check_size
check_memory sys none = panicked
check_memory sys (some memory) = do
  n ← context "failed to parse memory to uint" (sys.from_human_size memory)
  check_size memory n

unfoldable pub validate : System → Finch → Result (Unit {0})
unfolding check_cpus check_memory
validate sys cfg = do check_cpus cfg.cpus; check_memory sys cfg.memory
