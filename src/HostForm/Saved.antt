-- ===== src/HostForm/Saved.antt =====
-- A host that is opened in the form of apps/ui/src/hosts/HostFormModal.tsx and saved as it is.
use tethra.HostForm.Keys.{unless_empty}
use tethra.Numeral.RoundTrip.{parse_int-decimal}
use tethra.Base.{
  Bool, Option, Text, [], ap, arith, false, if◌then◌else◌, is_empty, none, not, refl, some, trim,
  true, ◌&&◌, ◌||◌, ◌∙◌, ◌≡◌,
}
use tethra.HostForm.{
  AuthMode, HostMutation, HostSummary, auth_mode_of, first_swatch, is_none_auth, is_password_auth,
  is_ssh_key_auth, is_truthy, mounted, none_auth, open_form, or_else, password_auth, render,
  ssh_key_auth, take_value, update_host,
}
use tethra.HostForm.Submit.{submit}
use tethra.HostForm.Sends.{can_authenticate, in_range, keeps_password, request, submit-ready}
use tethra.QuickConnect.{HostDraft, draft}

-- A text that is not blank at either end, nor empty.
abbrev pub IsTidy : Text → Type 0
IsTidy s = (trim s ≡ s) × (is_empty s ≡ false)

-- A way to log in is stored: a key, a password, or the machine's own keys.
abbrev pub has_login : AuthMode → HostSummary → Bool
has_login none_auth h = true
has_login ssh_key_auth h = is_truthy h.identity_id
has_login password_auth h = keeps_password (some h)

-- What is sent of a host that is not changed. The mode decides what of its identity is sent: the option to
-- sync the password in that of passwords, the key in that of keys, and the machine's own keys in the third.
abbrev pub resent : AuthMode → HostSummary → HostMutation
resent mode h = record {
  label = h.label;
  hostname = h.hostname;
  port = h.port;
  username = h.username;
  password = none;
  identity_id = if is_ssh_key_auth mode then some (or_else h.identity_id []) else none;
  sync_secret = is_password_auth mode && h.sync_secret;
  color = or_else h.color first_swatch;
  shell_integration = h.shell_integration;
  tunnels = h.tunnels;
  forward_agent = h.forward_agent;
  use_default_keys = is_none_auth mode;
}

chosen_key : (i : Option Text) → is_truthy i ≡ true → not (is_empty (or_else i [])) ≡ true
chosen_key none h = ground arith
chosen_key (some s) h = h

kept_login : (a b : Bool) → b ≡ true → (a || b) ≡ true
kept_login a b h = ground arith

shown_login :
    (mode : AuthMode) (h : HostSummary) (draft : Option HostDraft)
    → has_login mode h ≡ true
    → can_authenticate mode (open_form (some h) draft) ≡ true
unfolding open_form render
shown_login none_auth h draft l = refl
shown_login ssh_key_auth h draft l = chosen_key h.identity_id l
shown_login password_auth h draft l = kept_login _ (keeps_password (some h)) l

nothing_typed :
    (b c : Bool) → (if b then unless_empty (take_value (mounted c none)) else none) ≡ none
nothing_typed true true = refl
nothing_typed true false = refl
nothing_typed false c = refl

request-resent :
    (mode : AuthMode) (h : HostSummary) (draft : Option HostDraft)
    → trim h.label ≡ h.label
    → trim h.hostname ≡ h.hostname
    → trim h.username ≡ h.username
    → request mode (open_form (some h) draft) h.port ≡ resent mode h
unfolding open_form render
request-resent mode h draft l n u =
    rw (l, n, u, nothing_typed (is_password_auth mode) (is_password_auth (auth_mode_of h))) refl

tidy_texts :
    (a b c : Text)
    → IsTidy a
    → IsTidy b
    → IsTidy c
    → (not (is_empty (trim a)) && not (is_empty (trim b)) && not (is_empty (trim c))) ≡ true
tidy_texts a b c h k l = rw (h.0, k.0, l.0, h.1, k.1, l.1) refl

-- A host whose texts are trimmed, whose port is one and that can log in is accepted when its form is opened
-- and submitted without a change, and sent under its id with the label, the host, the port, the user, the
-- tunnels and the options of the shell and of the forwarded agent that it has, its color, or the first
-- swatch if it had none, and no password. By the mode that the form opens in: with one for passwords, the
-- option to sync it and no key; with one for keys, its key, not synced; with the machine's own keys,
-- neither; and only then the option to use these.
pub open_form-submit :
    (h : HostSummary) (draft : Option HostDraft)
    → IsTidy h.label
    → IsTidy h.hostname
    → IsTidy h.username
    → in_range h.port ≡ true
    → has_login (auth_mode_of h) h ≡ true
    → (submit (open_form (some h) draft)).1 ≡ some (update_host h.id (resent (auth_mode_of h) h))
unfolding open_form render
open_form-submit h draft label host user port login =
    let f = open_form (some h) draft in
    submit-ready f h.port (tidy_texts h.label h.hostname h.username label host user)
      (parse_int-decimal h.port) port (shown_login (auth_mode_of h) h draft login)
    ∙ ap (λ m. some (update_host h.id m))
        (request-resent (auth_mode_of h) h draft label.0 host.0 user.0)
