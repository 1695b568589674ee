-- ===== src/HostForm/Sends.antt =====
-- What `submit` of apps/ui/src/hosts/HostFormModal.tsx sends.
use tethra.HostForm.Keys.{unless_empty}
use tethra.Base.{
  Bool, Option, Text, [], ap, arith, codes, false, if◌then◌else◌, is_empty, is_some, leb, ltb, none,
  not, refl, some, text_eq, trim, true, ℕ, ◌&&◌, ◌||◌, ◌∙◌, ◌∷◌, ◌≡◌,
}
use tethra.Blocks.{negsuc, pos, ℤ}
use tethra.HostForm.{
  AuthMode, HostForm, HostMutation, HostSummary, SaveCall, emptied, is_none_auth, is_password_auth,
  is_ssh_key_auth, none_auth, password_auth, ssh_key_auth, take_value,
}
use tethra.HostForm.Submit.{
  Checked, accepted, check_form, check_port, mutation_as, refused, save_call, settle_check, submit,
  with_auth, without_password,
}
use tethra.Numeral.{parse_int}

-- The texts that must not be empty, the range of the port, and a way to log in.
abbrev pub is_complete : HostForm → Bool
is_complete f =
    not (is_empty (trim f.label))
    && not (is_empty (trim f.hostname))
    && not (is_empty (trim f.username))

abbrev pub port_of : Option ℤ → ℕ
port_of (some (pos n)) = n
port_of _ = 0

abbrev pub in_range : ℕ → Bool
in_range n = leb 1 n && leb n 65535

abbrev pub keeps_password : Option HostSummary → Bool
keeps_password none = false
keeps_password (some h) = h.has_password && not (text_eq h.auth_kind (codes "sshKey"))

abbrev pub can_authenticate : AuthMode → HostForm → Bool
can_authenticate none_auth f = true
can_authenticate ssh_key_auth f = not (is_empty f.identity_id)
can_authenticate password_auth f =
    not (is_empty (take_value f.password)) || keeps_password f.initial

abbrev pub is_ready : HostForm → Bool
is_ready f =
    is_complete f && (in_range (port_of (parse_int f.port)) && can_authenticate f.auth_mode f)

-- What is sent: a password in its mode only, and a key in its own.
abbrev pub request : AuthMode → HostForm → ℕ → HostMutation
request mode f port = record {
  label = trim f.label;
  hostname = trim f.hostname;
  port = port;
  username = trim f.username;
  password = if is_password_auth mode then unless_empty (take_value f.password) else none;
  identity_id = if is_ssh_key_auth mode then some f.identity_id else none;
  sync_secret = is_password_auth mode && f.sync_secret;
  color = f.color;
  shell_integration = f.shell_integration;
  tunnels = f.tunnels;
  forward_agent = f.forward_agent;
  use_default_keys = is_none_auth mode;
}

abbrev pub expected : HostForm → Option SaveCall
expected f =
    if is_ready f
    then some (save_call f.initial (request f.auth_mode f (port_of (parse_int f.port))))
    else none

abbrev call_of : Option HostSummary → Checked → Option SaveCall
call_of i (refused reason) = none
call_of i (accepted m) = some (save_call i m)

abbrev sent_if : Bool → Option HostSummary → HostMutation → Option SaveCall
sent_if b i m = if b then some (save_call i m) else none

settled_call : (f : HostForm) (c : Checked) → (settle_check f c).1 ≡ call_of f.initial c
settled_call f (refused reason) = refl
settled_call f (accepted m) = refl

-- A test that refuses is the negation of one that the request asks for.
refused_unless :
    (r b : Bool) (i : Option HostSummary) (reason : Text) (c : Checked) (d : Bool)
    (m : HostMutation)
    → b ≡ not r
    → call_of i c ≡ sent_if d i m
    → call_of i (if b then refused reason else c) ≡ sent_if (r && d) i m
refused_unless true b i reason c d m e h = rw e h
refused_unless false b i reason c d m e h = rw e refl

refused_test :
    (b : Bool) (i : Option HostSummary) (reason : Text) (m : HostMutation)
    → call_of i (if b then refused reason else accepted m) ≡ sent_if (not b) i m
refused_test true i reason m = refl
refused_test false i reason m = refl

kept_password_call :
    (k p : Bool) (i : Option HostSummary) (r r' : Text) (m : HostMutation)
    → call_of i (if k then refused r else if not p then refused r' else accepted m)
      ≡ sent_if (p && not k) i m
kept_password_call true true i r r' m = refl
kept_password_call true false i r r' m = refl
kept_password_call false true i r r' m = refl
kept_password_call false false i r r' m = refl

without_password_call :
    (i : Option HostSummary) (m : HostMutation)
    → call_of i (without_password i m) ≡ sent_if (keeps_password i) i m
without_password_call none m = refl
without_password_call (some h) m =
    kept_password_call (text_eq h.auth_kind (codes "sshKey")) h.has_password (some h) _ _ m

password_call :
    (p : Text) (i : Option HostSummary) (f : HostForm) (n : ℕ)
    → (let m = mutation_as password_auth f n in
        call_of i (
          if not (is_empty p)
          then accepted (record m { password = some p })
          else without_password i m)
        ≡ sent_if (not (is_empty p) || keeps_password i) i (record m { password = unless_empty p }))
password_call [] i f n = without_password_call i (mutation_as password_auth f n)
password_call (c ∷ cs) i f n = refl

auth_call :
    (mode : AuthMode) (f : HostForm) (n : ℕ)
    → call_of f.initial (with_auth f mode (take_value f.password) (mutation_as mode f n))
      ≡ sent_if (can_authenticate mode f) f.initial (request mode f n)
auth_call none_auth f n = refl
auth_call ssh_key_auth f n =
    refused_test (is_empty f.identity_id) f.initial _ (request ssh_key_auth f n)
auth_call password_auth f n = password_call (take_value f.password) f.initial f n

range_test : (n : ℕ) → (ltb n 1 || ltb 65535 n) ≡ not (in_range n)
range_test n = ground arith

port_call :
    (f : HostForm) (z : Option ℤ)
    → call_of f.initial (check_port f (take_value f.password) z)
      ≡ sent_if
          (in_range (port_of z) && can_authenticate f.auth_mode f)
          f.initial
          (request f.auth_mode f (port_of z))
port_call f none = refl
port_call f (some (negsuc n)) = refl
port_call f (some (pos n)) =
    refused_unless (in_range n) (ltb n 1 || ltb 65535 n) f.initial _ _
      (can_authenticate f.auth_mode f) (request f.auth_mode f n) (range_test n)
      (auth_call f.auth_mode f n)

negated_tests : (a b c : Bool) → (a || b || c) ≡ not (not a && not b && not c)
negated_tests a b c = ground arith

form_call : (f : HostForm) → call_of f.initial (check_form f (take_value f.password)) ≡ expected f
form_call f =
    refused_unless (is_complete f)
      (is_empty (trim f.label) || is_empty (trim f.hostname) || is_empty (trim f.username))
      f.initial _ _ (in_range (port_of (parse_int f.port)) && can_authenticate f.auth_mode f)
      (request f.auth_mode f (port_of (parse_int f.port)))
      (negated_tests (is_empty (trim f.label)) (is_empty (trim f.hostname))
        (is_empty (trim f.username)))
      (port_call f (parse_int f.port))

-- A form is sent just when its label, host and user are not blank, what `parseInt` reads of its port (the
-- digits at its start, so that `22abc` is 22) is from 1 to 65535,
-- and there is a password, old or new, a key, or the machine's own keys; and what is sent is the trimmed
-- fields, a password only in the mode of passwords and a key only in that of keys.
pub submit-eq-expected : (f : HostForm) → (submit f).1 ≡ expected f
unfolding submit
submit-eq-expected f =
    settled_call (record f { error = none; busy = true; password = emptied f.password })
      (check_form f (take_value f.password))
    ∙ form_call f

ready_all : (a b c : Bool) → a ≡ true → b ≡ true → c ≡ true → (a && (b && c)) ≡ true
ready_all a b c h k l = ground arith

-- What a form that can be sent sends.
pub submit-ready :
    (f : HostForm) (n : ℕ)
    → is_complete f ≡ true
    → parse_int f.port ≡ some (pos n)
    → in_range n ≡ true
    → can_authenticate f.auth_mode f ≡ true
    → (submit f).1 ≡ some (save_call f.initial (request f.auth_mode f n))
submit-ready f n c p r a =
    let range : in_range (port_of (parse_int f.port)) ≡ true =
      ap (λ z. in_range (port_of z)) p ∙ r in
    submit-eq-expected f
    ∙ ap (λ b. sent_if b f.initial (request f.auth_mode f (port_of (parse_int f.port))))
        (ready_all (is_complete f) (in_range (port_of (parse_int f.port)))
          (can_authenticate f.auth_mode f) c range a)
    ∙ ap (λ z. some (save_call f.initial (request f.auth_mode f (port_of z)))) p

taken_once : (field : Option Text) → take_value (emptied field) ≡ []
taken_once none = refl
taken_once (some s) = refl

settled :
    (f : HostForm) (c : Checked)
    → let (f', call) = settle_check f c in
      (f.busy ≡ true)
      → (f.error ≡ none)
      → (f'.password ≡ f.password)
        × (f'.busy ≡ is_some call)
        × (is_some f'.error ≡ not (is_some call))
settled f (refused reason) b e = (refl, refl, refl)
settled f (accepted m) b e = (refl, b, ap is_some e)

-- Whatever the form holds, the field of the password is empty afterwards; and either a call is made, the
-- form is busy and shows no error, or none is made, the form is not busy and shows why.
pub submit-settles :
    (f : HostForm)
    → (take_value (submit f).0.password ≡ [])
      × ((submit f).0.busy ≡ is_some (submit f).1)
      × (is_some (submit f).0.error ≡ not (is_some (submit f).1))
unfolding submit
submit-settles f =
    let g = record f { error = none; busy = true; password = emptied f.password } in
    let s = settled g (check_form f (take_value f.password)) refl refl in
    (ap take_value s.0 ∙ taken_once f.password, s.1, s.2)
