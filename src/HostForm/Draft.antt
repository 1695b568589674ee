-- ===== src/HostForm/Draft.antt =====
-- An address of quick connect, opened in the form of a host and saved.
use tethra.Numeral.RoundTrip.{parse_int-decimal}
use tethra.HostForm.Submit.{submit}
use tethra.Regex.{is_digit}
use tethra.HostForm.{
  HostMutation, HostSummary, create_host, first_swatch, open_form, password_auth, render,
  type_password,
}
use tethra.Paths.{last_index_of}
use tethra.Base.{
  Bool, Bool-cases, List, Option, Text, [], all, ap, arith, drop, false, find?, if-intro, inl, inr,
  is_empty, length, ltb, none, not, refl, some, suc, sym, take, trim, true, zero, ℕ, ◌&&◌, ◌-◌,
  ◌==◌, ◌||◌, ◌∙◌, ◌∷◌, ◌≡◌,
}
use tethra.Base.StringLaws.{begins_solid, is_blank, trim-empty, trim-solid}
use tethra.HostForm.Connect.{
  QuickConnect, bad_target, connect_host, edit_draft, handle_quick_connect, has_address,
  match_or_draft, on_draft,
}
use tethra.HostForm.Sends.{in_range, request, submit-ready}
use tethra.QuickConnect.{
  HostDraft, at_colon, at_sign, checked_port, draft, of_parts, parse_digits, parse_quick_connect,
  with_port,
}

-- What the form asks of a draft.
abbrev pub is_sendable : HostDraft → Bool
is_sendable d =
    not (is_blank d.label)
    && not (is_blank d.hostname)
    && not (is_blank d.username)
    && in_range d.port

abbrev sendable_if : Option HostDraft → Bool
sendable_if none = true
sendable_if (some d) = is_sendable d

abbrev is_solid : Text → Bool
is_solid s = not (is_empty s) && begins_solid s

solid-not_blank : (s : Text) → is_solid s ≡ true → is_blank s ≡ false
solid-not_blank [] h = ground arith
solid-not_blank (c ∷ cs) h = ground (arith, h)

solid-take : (s : Text) (j : ℕ) → is_solid s ≡ true → is_blank (take (suc j) s) ≡ false
solid-take [] j h = ground arith
solid-take (c ∷ cs) j h = ground (arith, h)

sendable_draft :
    (u h : Text) (n : ℕ)
    → is_blank u ≡ false
    → is_blank h ≡ false
    → in_range n ≡ true
    → is_sendable (draft u h n) ≡ true
sendable_draft u h n a b c = ground (arith, a, b, c)

checked_port-sendable :
    (u h : Text) (n : ℕ)
    → is_blank u ≡ false
    → is_blank h ≡ false
    → sendable_if (checked_port u h n) ≡ true
checked_port-sendable u h n a b = elim (Bool-cases (ltb n 1 || ltb 65535 n)) [
  | inl p ↦ rw p refl
  | inr p ↦ rw p (sendable_draft u h n a b (ground (arith, p)))
]

with_port-sendable :
    (u h before port : Text)
    → is_blank u ≡ false
    → is_blank h ≡ false
    → is_blank before ≡ false
    → sendable_if (with_port u h before port) ≡ true
with_port-sendable u h before port a b c =
    if-intro (λ r. sendable_if r ≡ true) (not (is_empty port) && all is_digit port)
      (checked_port-sendable u before (parse_digits 0 port) a c) (sendable_draft u h 22 a b refl)

at_colon-sendable :
    (u h : Text) (i : Option ℕ)
    → is_blank u ≡ false
    → is_solid h ≡ true
    → sendable_if (at_colon u h i) ≡ true
at_colon-sendable u h none a b = sendable_draft u h 22 a (solid-not_blank h b) refl
at_colon-sendable u h (some zero) a b = sendable_draft u h 22 a (solid-not_blank h b) refl
at_colon-sendable u h (some (suc j)) a b =
    with_port-sendable u h (take (suc j) h) (drop (suc (suc j)) h) a (solid-not_blank h b)
      (solid-take h j b)

of_parts-sendable :
    (u h : Text) → begins_solid u ≡ true → begins_solid h ≡ true → sendable_if (of_parts u h) ≡ true
of_parts-sendable [] h a b = refl
of_parts-sendable (c ∷ cs) [] a b = refl
of_parts-sendable (c ∷ cs) (d ∷ ds) a b =
    at_colon-sendable (c ∷ cs) (d ∷ ds) (last_index_of b':' (d ∷ ds)) (solid-not_blank (c ∷ cs) a) b

at_sign-sendable : (s : Text) (i : Option ℕ) → sendable_if (at_sign s i) ≡ true
at_sign-sendable s none = refl
at_sign-sendable s (some zero) = refl
at_sign-sendable s (some (suc i)) =
    if-intro (λ r. sendable_if r ≡ true) (suc i == length s - 1) refl
      (of_parts-sendable (trim (take (suc i) s)) (trim (drop (suc (suc i)) s))
        (trim-solid (take (suc i) s)) (trim-solid (drop (suc (suc i)) s)))

parse_quick_connect-sendable : (s : Text) → sendable_if (parse_quick_connect s) ≡ true
unfolding parse_quick_connect
parse_quick_connect-sendable s = at_sign-sendable (trim s) (last_index_of b'@' (trim s))

abbrev sendable_of : QuickConnect → Bool
sendable_of (connect_host h) = true
sendable_of (edit_draft d) = is_sendable d
sendable_of (bad_target reason) = true

match_or_draft-sendable :
    (d : HostDraft) (h : Option HostSummary)
    → is_sendable d ≡ true
    → sendable_of (match_or_draft d h) ≡ true
match_or_draft-sendable d none k = k
match_or_draft-sendable d (some h) k = refl

on_draft-sendable :
    (hosts : List HostSummary) (d : Option HostDraft)
    → sendable_if d ≡ true
    → sendable_of (on_draft hosts d) ≡ true
on_draft-sendable hosts none k = refl
on_draft-sendable hosts (some d) k = match_or_draft-sendable d (find? (has_address d) hosts) k

edit_draft-sendable :
    (hosts : List HostSummary) (target : Text) (d : HostDraft)
    → handle_quick_connect hosts target ≡ edit_draft d
    → is_sendable d ≡ true
unfolding handle_quick_connect
edit_draft-sendable hosts target d h =
    sym (ap sendable_of h)
    ∙ on_draft-sendable hosts (parse_quick_connect target) (parse_quick_connect-sendable target)

-- The host that is made of a draft and a password.
abbrev pub new_host : HostDraft → Text → HostMutation
new_host d password = record {
  label = trim d.label;
  hostname = trim d.hostname;
  port = d.port;
  username = trim d.username;
  password = some password;
  identity_id = none;
  sync_secret = false;
  color = first_swatch;
  shell_integration = true;
  tunnels = [];
  forward_agent = false;
  use_default_keys = false;
}

complete_texts :
    (a b c : Text)
    → is_blank a ≡ false
    → is_blank b ≡ false
    → is_blank c ≡ false
    → (not (is_empty (trim a)) && not (is_empty (trim b)) && not (is_empty (trim c))) ≡ true
complete_texts a b c h k l = rw (trim-empty a, trim-empty b, trim-empty c, h, k, l) refl

request-draft :
    (d : HostDraft) (c : ℕ) (cs : Text)
    → request password_auth (type_password (c ∷ cs) (open_form none (some d))) d.port
      ≡ new_host d (c ∷ cs)
unfolding type_password open_form render
request-draft d c cs = refl

-- An address for which the form of a new host opens is one that the form accepts: with a password, and
-- nothing else typed, submitting it creates the host of that address.
pub handle_quick_connect-submit :
    (hosts : List HostSummary) (target : Text) (d : HostDraft) (password : Text)
    → handle_quick_connect hosts target ≡ edit_draft d
    → is_empty password ≡ false
    → (submit (type_password password (open_form none (some d)))).1
      ≡ some (create_host (new_host d password))
unfolding type_password open_form render
handle_quick_connect-submit hosts target d [] h p = ground arith
handle_quick_connect-submit hosts target d (c ∷ cs) h p =
    let s = edit_draft-sendable hosts target d h in
    submit-ready (type_password (c ∷ cs) (open_form none (some d))) d.port
      (complete_texts d.label d.hostname d.username (ground (arith, s)) (ground (arith, s))
        (ground (arith, s)))
      (parse_int-decimal d.port) (ground (arith, s)) refl
    ∙ ap (λ m. some (create_host m)) (request-draft d c cs)
