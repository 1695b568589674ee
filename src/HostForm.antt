-- ===== src/HostForm.antt =====
-- The form that adds and edits a host, apps/ui/src/hosts/HostFormModal.tsx: its state and what it shows
-- at first. The two fields of secrets are not in React's state: they are there only while they are on the
-- screen, and `render` puts them in and takes them away. The checks of the browser on required fields and
-- the rendering are left out. Numbers are exact.
use tethra.Base.{
  Bool, List, Option, Text, [], codes, false, if◌then◌else◌, is_empty, none, not, some, text_eq,
  true, ℕ, ◌&&◌,
}
use tethra.Blocks.{ℤ}
use tethra.QuickConnect.{HostDraft, draft}
use tethra.Numeral.{decimal}
pub mod Submit
pub mod Tunnels
pub mod Keys
pub mod Sends
pub mod Saved
pub mod Ports
pub mod Secrets
pub mod Connect
pub mod Draft
mod Tests

pub record TunnelDefinition : Type 0 where
  pub id : Text
  pub label : Text
  pub direction : Text
  pub bind_port : ℤ
  pub target_host : Text
  pub target_port : ℤ
  pub auto_start : Bool
  pub allow_lan : Bool

-- The fields that the form uses.
pub record HostSummary : Type 0 where
  pub id : Text
  pub label : Text
  pub hostname : Text
  pub port : ℕ
  pub username : Text
  pub has_password : Bool
  pub identity_id : Option Text
  pub auth_kind : Text
  pub sync_secret : Bool
  pub color : Option Text
  pub shell_integration : Bool
  pub tunnels : List TunnelDefinition
  pub forward_agent : Bool
  pub use_default_keys : Bool

pub record IdentitySummary : Type 0 where
  pub id : Text
  pub kind : Text
  pub label : Text
  pub fingerprint : Option Text

pub record HostMutation : Type 0 where
  pub label : Text
  pub hostname : Text
  pub port : ℕ
  pub username : Text
  pub password : Option Text
  pub identity_id : Option Text
  pub sync_secret : Bool
  pub color : Text
  pub shell_integration : Bool
  pub tunnels : List TunnelDefinition
  pub forward_agent : Bool
  pub use_default_keys : Bool

pub data AuthMode : Type 0 where
  password_auth : AuthMode
  ssh_key_auth : AuthMode
  none_auth : AuthMode

pub record HostForm : Type 0 where
  pub initial : Option HostSummary
  pub busy : Bool
  pub error : Option Text
  pub label : Text
  pub hostname : Text
  pub port : Text
  pub username : Text
  pub color : Text
  pub sync_secret : Bool
  pub shell_integration : Bool
  pub forward_agent : Bool
  pub tunnels : List TunnelDefinition
  pub auth_mode : AuthMode
  pub identities : List IdentitySummary
  pub identity_id : Text
  pub import_path : Option Text
  pub import_encrypted : Bool
  pub import_fingerprint : Option Text
  pub remember_passphrase : Bool
  pub import_sync_secret : Bool
  -- What `passwordRef` and `keyPassphraseRef` hold, while the fields are on the screen.
  pub password : Option Text
  pub key_passphrase : Option Text

pub data SaveCall : Type 0 where
  update_host : Text → HostMutation → SaveCall
  create_host : HostMutation → SaveCall

abbrev pub is_password_auth : AuthMode → Bool
is_password_auth password_auth = true
is_password_auth _ = false

abbrev pub is_ssh_key_auth : AuthMode → Bool
is_ssh_key_auth ssh_key_auth = true
is_ssh_key_auth _ = false

abbrev pub is_none_auth : AuthMode → Bool
is_none_auth none_auth = true
is_none_auth _ = false

-- `truthy`: the path of a key is asked for its truth value.
abbrev pub is_truthy : Option Text → Bool
is_truthy none = false
is_truthy (some s) = not (is_empty s)

abbrev pub mounted : Bool → Option Text → Option Text
mounted false field = none
mounted true none = some []
mounted true (some s) = some s

-- The fields of secrets that are on the screen after a change of the state.
unfoldable pub render : HostForm → HostForm
render f = record f {
  password = mounted (is_password_auth f.auth_mode) f.password;
  key_passphrase =
      mounted (is_ssh_key_auth f.auth_mode && is_truthy f.import_path && f.import_encrypted)
        f.key_passphrase;
}

-- `takeValue`: the value of a field, which is emptied.
abbrev pub take_value : Option Text → Text
take_value none = []
take_value (some s) = s

abbrev pub emptied : Option Text → Option Text
emptied none = none
emptied (some s) = some []

abbrev pub first_swatch : Text
first_swatch = codes "#4C8DF6"

abbrev pub or_else {ℓ} : {A : Type ℓ} → Option A → A → A
or_else none a = a
or_else (some b) a = b

abbrev pub auth_mode_of : HostSummary → AuthMode
auth_mode_of h =
    if text_eq h.auth_kind (codes "sshKey")
    then ssh_key_auth
    else if h.use_default_keys && not (is_truthy h.identity_id)
    then none_auth
    else password_auth

abbrev pub empty_draft : HostDraft
empty_draft = record { label = []; hostname = codes "127.0.0.1"; port = 22; username = [] }

abbrev new_form : HostDraft → HostForm
new_form d = record {
  initial = none;
  busy = false;
  error = none;
  label = d.label;
  hostname = d.hostname;
  port = decimal d.port;
  username = d.username;
  color = first_swatch;
  sync_secret = false;
  shell_integration = true;
  forward_agent = false;
  tunnels = [];
  auth_mode = password_auth;
  identities = [];
  identity_id = [];
  import_path = none;
  import_encrypted = false;
  import_fingerprint = none;
  remember_passphrase = false;
  import_sync_secret = false;
  password = none;
  key_passphrase = none;
}

abbrev edit_form : HostSummary → HostForm
edit_form h = record {
  initial = some h;
  busy = false;
  error = none;
  label = h.label;
  hostname = h.hostname;
  port = decimal h.port;
  username = h.username;
  color = or_else h.color first_swatch;
  sync_secret = h.sync_secret;
  shell_integration = h.shell_integration;
  forward_agent = h.forward_agent;
  tunnels = h.tunnels;
  auth_mode = auth_mode_of h;
  identities = [];
  identity_id = or_else h.identity_id [];
  import_path = none;
  import_encrypted = false;
  import_fingerprint = none;
  remember_passphrase = false;
  import_sync_secret = false;
  password = none;
  key_passphrase = none;
}

-- The form at first: of the host that is edited, or of the draft of quick connect, or empty.
unfoldable pub open_form : Option HostSummary → Option HostDraft → HostForm
unfolding render decimal
open_form (some h) draft = render (edit_form h)
open_form none (some d) = render (new_form d)
open_form none none = render (new_form empty_draft)

unfoldable pub set_auth_mode : AuthMode → HostForm → HostForm
unfolding render
set_auth_mode mode f = render (record f { auth_mode = mode })

abbrev pub retyped : Text → Option Text → Option Text
retyped s none = none
retyped s (some _) = some s

-- What is typed in the field of the password, when it is on the screen.
unfoldable pub type_password : Text → HostForm → HostForm
type_password s f = record f { password = retyped s f.password }
