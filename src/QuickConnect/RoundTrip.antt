-- ===== src/QuickConnect/RoundTrip.antt =====
-- What an address means that is written in the form that the launcher shows.
use tethra.Base.StringLaws.{trim_fixed}
use tethra.Paths.{last_index_of}
use tethra.Base.{
  Bool, Text, [], all, any, any-append, arith, drop, false, if◌then◌else◌, includes_unit, is_empty,
  is_space, leb, length, length-append, none, not, refl, some, suc, trim, true, ℕ, ◌&&◌, ◌++◌, ◌-◌,
  ◌==◌, ◌∙◌, ◌∷◌, ◌≡◌,
}
use tethra.Paths.RoundTrip.{last_index_of-append, last_index_of-none, take-length_append}
use tethra.Regex.{is_digit}
use tethra.QuickConnect.{
  at_colon, at_sign, checked_port, draft, of_parts, parse_digits, parse_quick_connect,
}

drop-length_append : (p : Text) (d : ℕ) (s : Text) → drop (suc (length p)) (p ++ d ∷ s) ≡ s
drop-length_append [] d s = refl
drop-length_append (c ∷ cs) d s = drop-length_append cs d s

digit-space : (c : ℕ) → is_digit c ≡ true → is_space c ≡ false
unfolding is_space
digit-space c h = ground arith

digits-space : (ds : Text) → all is_digit ds ≡ true → any is_space ds ≡ false
digits-space [] h = refl
digits-space (c ∷ cs) h = ground (arith, digit-space c, digits-space cs)

-- A unit that is no digit.
digits-other :
    (d : ℕ) (ds : Text) → is_digit d ≡ false → all is_digit ds ≡ true → includes_unit ds d ≡ false
digits-other d [] n h = refl
digits-other d (c ∷ cs) n h = ground (arith, digits-other d cs n)

includes_unit-append :
    (s t : Text) (d : ℕ)
    → includes_unit s d ≡ false
    → includes_unit t d ≡ false
    → includes_unit (s ++ t) d ≡ false
includes_unit-append [] t d h k = k
includes_unit-append (c ∷ cs) t d h k = ground (arith, includes_unit-append cs t d)

-- A word of the address: some units, none of them white space.
abbrev pub is_solid : Text → Bool
is_solid s = not (is_empty s) && not (any is_space s)

not_last :
    (cs : Text) (d : ℕ) (ds : Text)
    → (suc (length cs) == suc (length (cs ++ b'@' ∷ d ∷ ds)) - 1) ≡ false
not_last cs d ds = rw (length-append cs (b'@' ∷ d ∷ ds)) (ground arith)

solid-trim : (s : Text) → is_solid s ≡ true → trim s ≡ s
solid-trim s h = trim_fixed s (ground arith)

is_solid-append :
    (s t : Text) (d : ℕ)
    → is_solid s ≡ true
    → is_space d ≡ false
    → any is_space t ≡ false
    → is_solid (s ++ d ∷ t) ≡ true
is_solid-append [] t d h n k = cc
is_solid-append (c ∷ cs) t d h n k = rw (any-append is_space cs (d ∷ t)) (ground arith)

at_sign-append :
    (user rest : Text)
    → is_solid user ≡ true
    → is_solid rest ≡ true
    → at_sign (user ++ b'@' ∷ rest) (some (length user)) ≡ of_parts user rest
at_sign-append [] rest h k = cc
at_sign-append (c ∷ cs) [] h k = cc
at_sign-append (c ∷ cs) (d ∷ ds) h k = rw (
  not_last cs d ds,
  take-length_append cs (b'@' ∷ d ∷ ds),
  drop-length_append cs b'@' (d ∷ ds),
  solid-trim (c ∷ cs) h,
  solid-trim (d ∷ ds) k,
)

at_colon-append :
    (user host ds : Text)
    → is_solid host ≡ true
    → is_empty ds ≡ false
    → all is_digit ds ≡ true
    → at_colon user (host ++ b':' ∷ ds) (some (length host))
      ≡ checked_port user host (parse_digits 0 ds)
at_colon-append user [] ds h e k = cc
at_colon-append user (c ∷ cs) ds h e k =
    rw (take-length_append cs (b':' ∷ ds), drop-length_append cs b':' ds, e, k) refl

of_parts-solid :
    (user host : Text)
    → is_solid user ≡ true
    → is_solid host ≡ true
    → of_parts user host ≡ at_colon user host (last_index_of b':' host)
of_parts-solid user host h k = ground arith

solid-space : (s : Text) → is_solid s ≡ true → any is_space s ≡ false
solid-space s h = ground arith

sign_space : is_space b'@' ≡ false
unfolding is_space
sign_space = refl

colon_space : is_space b':' ≡ false
unfolding is_space
colon_space = refl

-- `user@address` is split at its sign.
parse_quick_connect-split :
    (user rest : Text)
    → is_solid user ≡ true
    → is_solid rest ≡ true
    → includes_unit rest b'@' ≡ false
    → parse_quick_connect (user ++ b'@' ∷ rest) ≡ at_colon user rest (last_index_of b':' rest)
unfolding parse_quick_connect
parse_quick_connect-split user rest h k n =
    rw
      (
        solid-trim (user ++ b'@' ∷ rest)
            (is_solid-append user rest b'@' h sign_space (solid-space rest k)),
        last_index_of-append b'@' user rest n,
      )
      (at_sign-append user rest h k ∙ of_parts-solid user rest h k)

-- An address `user@host:port` gives just this user, host and port, and is refused when the port is not
-- from 1 to 65535. The user and the host are not empty and have no white space, the host has no sign @,
-- and the port is made of digits; the user may hold the sign, and the host colons.
pub parse_quick_connect-address :
    (user host port : Text)
    → is_solid user ≡ true
    → is_solid host ≡ true
    → includes_unit host b'@' ≡ false
    → is_empty port ≡ false
    → all is_digit port ≡ true
    → parse_quick_connect (user ++ b'@' ∷ (host ++ b':' ∷ port)) ≡ (
        if leb 1 (parse_digits 0 port) && leb (parse_digits 0 port) 65535
        then some (draft user host (parse_digits 0 port))
        else none)
parse_quick_connect-address user host port h k n e d =
    parse_quick_connect-split user (host ++ b':' ∷ port) h
      (is_solid-append host port b':' k colon_space (digits-space port d))
      (includes_unit-append host (b':' ∷ port) b'@' n (digits-other b'@' port refl d))
    ∙ rw (last_index_of-append b':' host port (digits-other b':' port refl d))
        (at_colon-append user host port k e d ∙ ground arith)

-- Without a port, the port is 22.
pub parse_quick_connect-host :
    (user host : Text)
    → is_solid user ≡ true
    → is_solid host ≡ true
    → includes_unit host b'@' ≡ false
    → includes_unit host b':' ≡ false
    → parse_quick_connect (user ++ b'@' ∷ host) ≡ some (draft user host 22)
parse_quick_connect-host user host h k n m =
    parse_quick_connect-split user host h k n ∙ rw (last_index_of-none b':' host m) refl
