-- ===== src/Support/Redact.antt =====
-- pkg/support/redact.go: what is taken out of a line.
use finch.Text.{replace_byte}
use finch.Prelude.{String, ◌==◌, if◌then◌else◌, Result, ok, err, panicked, ◌>>=◌}
use finch.Support.{BundleHost}

module _ (h : BundleHost) where
  -- A pattern that does not compile makes `regexp.MustCompile` panic.
  abbrev pub must : Result String → Result String
  must (ok s) = ok s
  must (err e) = panicked
  must panicked = panicked

  -- `regexp.MustCompile(pattern).ReplaceAll(content, replacement)`
  abbrev pub must_replace : String → String → String → Result String
  must_replace pattern replacement content = must (h.replace_all pattern replacement content)

  -- `filepath.ToSlash`, which changes paths on Windows only
  abbrev pub slashed : String → String
  slashed path = if h.goos == "windows" then replace_byte path b'\\' "/" else path

  -- `redactFinchInstall`
  abbrev pub redact_finch_install : String → Result String
  redact_finch_install content =
      h.replace_all (slashed h.finch_path) "<finch-install-location-elided>" content

  abbrev pub redact_username : String → String → Result String
  redact_username username content = h.replace_all username "<username-elided>" content

  abbrev pub redact_network_addresses : String → Result String
  redact_network_addresses content =
      must_replace "(?:[0-9]{1,3}\\.){3}[0-9]{1,3}(:[0-9]{1,5})?" "<ip-address-elided>" content
      >>= must_replace "(?:[A-F0-9]{1,4}:){7}[A-F0-9]{1,4}" "<ip-address-elided>"
      >>= must_replace "([0-9A-Fa-f]{2}[:-]){5}([0-9A-Fa-f]{2})" "<mac-address-elided>"

  abbrev pub redact_ssh_keys : String → Result String
  redact_ssh_keys content =
      must_replace "ecdsa-sha2-nistp256 .* root@lima-finch" "<key-elided>" content
      >>= must_replace "ssh-ed25519 .* root@lima-finch" "<key-elided>"
      >>= must_replace "ssh-rsa .* root@lima-finch" "<key-elided>"

  abbrev pub redact_ports : String → Result String
  redact_ports content =
      must_replace "('\\[' -n )[0-9]{1,5}( ']')" "$1<port-elided>$2" content
      >>= must_replace "('\\[' )[0-9]{1,5}( -ne 0 ']')" "$1<port-elided>$2"
      >>= must_replace "(\\[ssh -F .* -p )[0-9]{1,5}(.*])" "$1<port-elided>$2"
      >>= must_replace "([{,]\"sshLocalPort\":)[0-9]{1,5}(})" "$1<port-elided>$2"
      >>= must_replace "(port )[0-9]{1,5}" "$1<port-elided>"

  -- What the loop of `copyAndRedactFile` does to a line.
  unfoldable pub redact_line : String → Result String
  redact_line content =
      redact_finch_install content
      >>= redact_username h.lima_user
      >>= redact_network_addresses
      >>= redact_ports
      >>= redact_ssh_keys
