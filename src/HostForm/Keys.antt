-- ===== src/HostForm/Keys.antt =====
-- The import of a key in apps/ui/src/hosts/HostFormModal.tsx: `importKey`, which asks for a file and looks
-- at it, `confirmImport`, and the button that gives it up. Each is split where it waits for the backend.
use tethra.Base.{Bool, List, Option, Text, false, if◌then◌else◌, is_empty, none, some, true}
use tethra.HostForm.{HostForm, IdentitySummary, emptied, render, take_value}

abbrev pub started : HostForm → HostForm
started f = record f { error = none; busy = true }

unfoldable pub import_key : HostForm → HostForm
import_key f = started f

-- What becomes of the choice of a file.
pub data Picked : Type 0 where
  pick_failed : Text → Picked
  pick_cancelled : Picked
  probed : Text → Bool → Option Text → Picked

abbrev probe_form : Text → Bool → Option Text → HostForm → HostForm
probe_form path encrypted fingerprint f = record f {
  import_path = some path;
  import_encrypted = encrypted;
  import_fingerprint = fingerprint;
  key_passphrase = emptied f.key_passphrase;
  remember_passphrase = false;
  import_sync_secret = false;
  busy = false;
}

unfoldable pub picked : Picked → HostForm → HostForm
unfolding render
picked (pick_failed reason) f = record f { error = some reason; busy = false }
picked pick_cancelled f = record f { busy = false }
picked (probed path encrypted fingerprint) f = render (probe_form path encrypted fingerprint f)

-- The arguments of `identityImport`.
pub record ImportCall : Type 0 where
  pub path : Text
  pub passphrase : Option Text
  pub remember_passphrase : Bool
  pub sync_secret : Bool

abbrev pub unless_empty : Text → Option Text
unless_empty s = if is_empty s then none else some s

abbrev pub import_call : Text → HostForm → ImportCall
import_call path f = record {
  path = path;
  passphrase = if f.import_encrypted then unless_empty (take_value f.key_passphrase) else none;
  remember_passphrase = if f.import_encrypted then f.remember_passphrase else false;
  sync_secret = f.import_sync_secret;
}

abbrev pub import_from : Option Text → HostForm → HostForm × Option ImportCall
import_from none f = (f, none)
import_from (some path) f = if is_empty path then (f, none) else (
  started (record f {
    key_passphrase = if f.import_encrypted then emptied f.key_passphrase else f.key_passphrase;
  }),
  some (import_call path f),
)

unfoldable pub confirm_import : HostForm → HostForm × Option ImportCall
confirm_import f = import_from f.import_path f

-- The key that was imported, and the identities that are listed then.
pub data Imported : Type 0 where
  import_failed : Text → Imported
  imported : IdentitySummary → List IdentitySummary → Imported

abbrev imported_form : IdentitySummary → List IdentitySummary → HostForm → HostForm
imported_form key identities f = record f {
  identities = identities;
  identity_id = key.id;
  import_path = none;
  import_encrypted = false;
  import_fingerprint = none;
  remember_passphrase = false;
  import_sync_secret = false;
  busy = false;
}

unfoldable pub import_settled : Imported → HostForm → HostForm
unfolding render
import_settled (import_failed reason) f = record f { error = some reason; busy = false }
import_settled (imported key identities) f = render (imported_form key identities f)

unfoldable pub cancel_import : HostForm → HostForm
unfolding render
cancel_import f = render (record f {
  import_path = none;
  import_encrypted = false;
  import_fingerprint = none;
  import_sync_secret = false;
  key_passphrase = emptied f.key_passphrase;
})
