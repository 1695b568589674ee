-- ===== src/HostForm/Submit.antt =====
-- `submit` of apps/ui/src/hosts/HostFormModal.tsx: the checks, the call that saves the host, and its end.
use tethra.Base.{
  List, Option, Text, [], codes, false, if◌then◌else◌, is_empty, ltb, none, not, some, text_eq,
  trim, true, ℕ, ◌||◌, ◌∷◌,
}
use tethra.Blocks.{negsuc, pos, ℤ}
use tethra.HostForm.{
  AuthMode, HostForm, HostMutation, HostSummary, SaveCall, create_host, emptied, is_none_auth,
  is_password_auth, none_auth, password_auth, ssh_key_auth, take_value, update_host,
}
use tethra.Numeral.{parse_int}

pub data Checked : Type 0 where
  refused : Text → Checked
  accepted : HostMutation → Checked

abbrev pub mutation_as : AuthMode → HostForm → ℕ → HostMutation
mutation_as mode f port = record {
  label = trim f.label;
  hostname = trim f.hostname;
  port = port;
  username = trim f.username;
  password = none;
  identity_id = none;
  sync_secret = if is_password_auth mode then f.sync_secret else false;
  color = f.color;
  shell_integration = f.shell_integration;
  tunnels = f.tunnels;
  forward_agent = f.forward_agent;
  use_default_keys = is_none_auth mode;
}

abbrev pub mutation_of : HostForm → ℕ → HostMutation
mutation_of f port = mutation_as f.auth_mode f port

abbrev pub without_password : Option HostSummary → HostMutation → Checked
without_password none m = refused (codes "Error: Password is required for a new host.")
without_password (some h) m =
    if text_eq h.auth_kind (codes "sshKey")
    then refused (codes "Error: Enter a password to switch this host to password auth.")
    else if not h.has_password
    then refused (
        codes
          "Error: This device has no password for the host. Enter one to connect (and enable Sync password if you want other devices to receive it).")
    else accepted m

abbrev pub with_auth : HostForm → AuthMode → Text → HostMutation → Checked
with_auth f ssh_key_auth password m =
    if is_empty f.identity_id
    then refused (codes "Error: Select or import an SSH key.")
    else accepted (record m { identity_id = some f.identity_id })
with_auth f none_auth password m = accepted m
with_auth f password_auth password m =
    if not (is_empty password)
    then accepted (record m { password = some password })
    else without_password f.initial m

abbrev pub bad_port : Checked
bad_port = refused (codes "Error: Port must be between 1 and 65535.")

abbrev pub check_port : HostForm → Text → Option ℤ → Checked
check_port f password none = bad_port
check_port f password (some (negsuc n)) = bad_port
check_port f password (some (pos n)) =
    if ltb n 1 || ltb 65535 n then bad_port else with_auth f f.auth_mode password (mutation_of f n)

abbrev pub check_form : HostForm → Text → Checked
check_form f password =
    if is_empty (trim f.label) || is_empty (trim f.hostname) || is_empty (trim f.username)
    then refused (codes "Error: Label, hostname, and username are required.")
    else check_port f password (parse_int f.port)

abbrev pub save_call : Option HostSummary → HostMutation → SaveCall
save_call none m = create_host m
save_call (some h) m = update_host h.id m

abbrev pub settle_check : HostForm → Checked → HostForm × Option SaveCall
settle_check f (refused reason) = (record f { error = some reason; busy = false }, none)
settle_check f (accepted m) = (f, some (save_call f.initial m))

-- Until the promise of the call.
unfoldable pub submit : HostForm → HostForm × Option SaveCall
unfolding trim parse_int
submit f =
    settle_check (record f { error = none; busy = true; password = emptied f.password })
      (check_form f (take_value f.password))

pub data FormEffect : Type 0 where
  on_saved : HostSummary → FormEffect
  on_close : FormEffect

unfoldable pub save_resolved : HostSummary → HostForm → HostForm × List FormEffect
save_resolved saved f = (record f { busy = false }, on_saved saved ∷ on_close ∷ [])

unfoldable pub save_rejected : Text → HostForm → HostForm
save_rejected reason f = record f { error = some reason; busy = false }
