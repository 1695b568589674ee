-- ===== src/HostForm/Tests.antt =====
-- Tests of the form of a host, and the theorems on concrete forms.
use tethra.Paths.{last_index_of}
use tethra.QuickConnect.{draft, parse_quick_connect}
use tethra.HostForm.Tunnels.{new_tunnel}
use tethra.Blocks.{pos}
use tethra.Base.{
  [], codes, false, is_space, none, refl, some, text_eq, trim, trim_start, true, ◌∷◌, ◌≡◌,
}
use tethra.HostForm.{
  HostForm, HostSummary, create_host, open_form, password_auth, type_password, update_host,
}
use tethra.HostForm.Submit.{submit}
use tethra.HostForm.Sends.{expected, submit-eq-expected}
use tethra.HostForm.Saved.{IsTidy, open_form-submit, resent}
use tethra.HostForm.Draft.{handle_quick_connect-submit, new_host}
use tethra.HostForm.Connect.{connect_host, edit_draft, handle_quick_connect}
use tethra.HostForm.Keys.{confirm_import, picked, probed}
use tethra.HostForm.Secrets.{picked-confirm_import}
use tethra.HostForm.Ports.{binds, binds-cleared, binds-follow}
use tethra.Numeral.{decimal, parse_int}

-- `8080` with a sign and what follows the digits.
parse_int_test : parse_int (codes " +8080/tcp") ≡ some (pos 8080)
unfolding parse_int trim_start is_space
parse_int_test = refl

decimal_test : decimal 65535 ≡ codes "65535"
unfolding decimal
decimal_test = refl

abbrev box : HostSummary
box = record {
  id = codes "h1";
  label = codes "box";
  hostname = codes "box.lan";
  port = 2222;
  username = codes "root";
  has_password = true;
  identity_id = none;
  auth_kind = codes "password";
  sync_secret = true;
  color = none;
  shell_integration = false;
  tunnels = [];
  forward_agent = true;
  use_default_keys = false;
}

abbrev blank_form : HostForm
blank_form = open_form none none

submit-eq-expected_example : (submit blank_form).1 ≡ expected blank_form
submit-eq-expected_example = submit-eq-expected blank_form

IsTidy-box : IsTidy (codes "box")
unfolding trim is_space
IsTidy-box = (refl, refl)

IsTidy-name : IsTidy (codes "box.lan")
unfolding trim is_space
IsTidy-name = (refl, refl)

IsTidy-root : IsTidy (codes "root")
unfolding trim is_space
IsTidy-root = (refl, refl)

open_form-submit_example :
    (submit (open_form (some box) none)).1
    ≡ some (update_host (codes "h1") (resent password_auth box))
unfolding text_eq
open_form-submit_example = open_form-submit box none IsTidy-box IsTidy-name IsTidy-root refl refl

-- An address that no host has.
new_address :
    handle_quick_connect (box ∷ []) (codes "root@10.0.0.1:22")
    ≡ edit_draft (draft (codes "root") (codes "10.0.0.1") 22)
unfolding handle_quick_connect parse_quick_connect trim last_index_of is_space text_eq
new_address = refl

known_address : handle_quick_connect (box ∷ []) (codes "root@box.lan:2222") ≡ connect_host box
unfolding handle_quick_connect parse_quick_connect trim last_index_of is_space text_eq
known_address = refl

handle_quick_connect-submit_example :
    (submit (
      type_password
        (codes "pw")
        (open_form none (some (draft (codes "root") (codes "10.0.0.1") 22))))).1
    ≡ some (create_host (new_host (draft (codes "root") (codes "10.0.0.1") 22) (codes "pw")))
handle_quick_connect-submit_example =
    handle_quick_connect-submit (box ∷ []) (codes "root@10.0.0.1:22")
      (draft (codes "root") (codes "10.0.0.1") 22) (codes "pw") new_address refl

picked-confirm_import_example :
    (confirm_import (picked (probed (codes "/k") true none) blank_form)).1
    ≡ some (record {
      path = codes "/k";
      passphrase = none;
      remember_passphrase = false;
      sync_secret = false;
    })
picked-confirm_import_example = picked-confirm_import blank_form (codes "/k") true none refl

binds-follow_example :
    (binds (codes "80" ∷ codes "8" ∷ codes "89" ∷ []) (new_tunnel (codes "t"))).target_port
    ≡ (binds (codes "80" ∷ codes "8" ∷ codes "89" ∷ []) (new_tunnel (codes "t"))).bind_port
unfolding trim is_space parse_int trim_start
binds-follow_example =
    binds-follow (codes "80" ∷ codes "8" ∷ codes "89" ∷ []) (new_tunnel (codes "t")) refl refl refl

binds-cleared_example :
    (binds ([] ∷ codes "9" ∷ codes "9000" ∷ []) (new_tunnel (codes "t"))).target_port ≡ pos 8000
unfolding parse_int trim_start is_space
binds-cleared_example =
    binds-cleared [] (codes "9" ∷ codes "9000" ∷ []) (new_tunnel (codes "t")) 7999 refl refl refl
