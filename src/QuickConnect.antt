-- ===== src/QuickConnect.antt =====
-- The address that is typed into the launcher, `user@host` or `user@host:port`, by `parseQuickConnect` of
-- apps/ui/src/components/Launcher.tsx. The code's last test, that the host is not empty, always passes:
-- what stands before a colon that is not the first unit is not empty.
use tethra.Base.{
  Option, Text, [], all, drop, if◌then◌else◌, is_empty, length, ltb, none, not, some, suc, take,
  trim, zero, ℕ, ◌&&◌, ◌*◌, ◌+◌, ◌-◌, ◌==◌, ◌||◌, ◌∷◌,
}
use tethra.Paths.{last_index_of}
use tethra.Regex.{is_digit}
pub mod RoundTrip
mod Tests

-- The fields of `HostDraft` that the code sets.
pub record HostDraft : Type 0 where
  pub label : Text
  pub hostname : Text
  pub port : ℕ
  pub username : Text

abbrev pub draft : Text → Text → ℕ → HostDraft
draft username host port = record {
  label = host;
  hostname = host;
  port = port;
  username = username;
}

-- `parseInt` on digits, behind the digits read so far.
abbrev pub parse_digits : ℕ → Text → ℕ
parse_digits n [] = n
parse_digits n (c ∷ cs) = parse_digits (n * 10 + (c - 0x30)) cs

abbrev pub checked_port : Text → Text → ℕ → Option HostDraft
checked_port username host parsed =
    if ltb parsed 1 || ltb 65535 parsed then none else some (draft username host parsed)

-- With `before` and `maybe_port` on the two sides of the last colon.
abbrev pub with_port : Text → Text → Text → Text → Option HostDraft
with_port username host_part before maybe_port =
    if not (is_empty maybe_port) && all is_digit maybe_port
    then checked_port username before (parse_digits 0 maybe_port)
    else some (draft username host_part 22)

abbrev pub at_colon : Text → Text → Option ℕ → Option HostDraft
at_colon username host_part none = some (draft username host_part 22)
at_colon username host_part (some zero) = some (draft username host_part 22)
at_colon username host_part (some (suc j)) =
    with_port username host_part (take (suc j) host_part) (drop (suc (suc j)) host_part)

abbrev pub of_parts : Text → Text → Option HostDraft
of_parts username host_part =
    if is_empty username || is_empty host_part
    then none
    else at_colon username host_part (last_index_of b':' host_part)

abbrev pub at_sign : Text → Option ℕ → Option HostDraft
at_sign trimmed none = none
at_sign trimmed (some zero) = none
at_sign trimmed (some (suc i)) =
    if suc i == length trimmed - 1
    then none
    else of_parts (trim (take (suc i) trimmed)) (trim (drop (suc (suc i)) trimmed))

unfoldable pub parse_quick_connect : Text → Option HostDraft
unfolding trim last_index_of
parse_quick_connect input = at_sign (trim input) (last_index_of b'@' (trim input))
