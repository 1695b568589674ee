-- ===== src/Inject/Redirect.antt =====
-- What the cleaning takes out of an ordinary command.
use tethra.Regex.Replace.{replace_all_plain, replace_from-plain, replace_from-some}
use tethra.Regex.Length.{min_length}
use tethra.Base.{
  Bool, Text, [], all, ap, arith, false, flat_map, leb, length, not, refl, some, true, ℕ, ◌&&◌,
  ◌++◌, ◌-◌, ◌<◌, ◌==◌, ◌∙◌, ◌∷◌, ◌≡◌,
}
use tethra.Inject.{
  bare_da, bare_da_one, bare_osc_rgb, csi_da, csi_da_sec, csi_sequence, escape_pair, is_control,
  newline, osc_rgb, osc_sequence, sanitize_shell_payload, string_sequence, strip_device_reports,
  without_escapes,
}
use tethra.Regex.{
  Regex, first_of, is_digit, lit, one_of, replace_all, replace_from, rest_of, rests, word_of,
}
use tethra.Regex.First.{can_start, rests-many-can_start}

-- No control, no digit, no `?` and no `>`.
abbrev pub is_ordinary : ℕ → Bool
is_ordinary c = leb 32 c && not (c == 127) && not (is_digit c) && not (c == b'?') && not (c == b'>')

-- No step but the one for the bare replies can start a match at such a text with `>` in it.
abbrev is_ordinary_or_redirect : ℕ → Bool
is_ordinary_or_redirect c = leb 32 c && not (c == 127) && not (is_digit c)

keeps :
    (r : Regex) (p : ℕ → Bool) (by s : Text)
    → 0 < min_length r
    → ((c : ℕ) → p c ≡ true → can_start r c ≡ false)
    → all p s ≡ true
    → replace_all r by s ≡ s
keeps r p by s m k h = replace_all_plain r by s m (weaken s h)
  where
    weaken : (t : Text) → all p t ≡ true → all (λ c. not (can_start r c)) t ≡ true
    weaken [] e = refl
    weaken (c ∷ cs) e = ground (arith, k c, weaken cs)

without_escapes-keeps : (s : Text) → all is_ordinary_or_redirect s ≡ true → without_escapes s ≡ s
unfolding without_escapes
without_escapes-keeps s h =
    rw
      (keeps (word_of (13 ∷ 10 ∷ [])) is_ordinary_or_redirect newline s (omega arith)
        (λ c e. ground arith) h)
      (rw (keeps (lit 13) is_ordinary_or_redirect newline s (omega arith) (λ c e. ground arith) h) (
        rw (keeps csi_sequence is_ordinary_or_redirect [] s (omega arith) (λ c e. ground arith) h) (
          rw (keeps osc_sequence is_ordinary_or_redirect [] s (omega arith) (λ c e. ground arith) h)
            (rw
              (keeps string_sequence is_ordinary_or_redirect [] s (omega arith)
                (λ c e. ground arith) h)
              (keeps escape_pair is_ordinary_or_redirect [] s (omega arith) (λ c e. ground arith)
                h)))))

one_reply : (v : Text) → all is_ordinary v ≡ true → rest_of bare_da (b'>' ∷ b'c' ∷ v) ≡ some v
unfolding rests flat_map
one_reply [] h = refl
one_reply (c ∷ cs) h =
    ap (λ ts. first_of (ts ++ [])) (rests-many-can_start bare_da_one c cs (ground arith))

skip_one :
    (v : Text)
    → replace_from bare_da [] (length (b'c' ∷ v) - length v) (b'c' ∷ v)
      ≡ replace_from bare_da [] 0 v
unfolding replace_from
skip_one v = let e : length (b'c' ∷ v) - length v ≡ 1 = omega arith in rw e refl

ordinary_plain :
    (s : Text) → all is_ordinary s ≡ true → all (λ c. not (can_start bare_da c)) s ≡ true
ordinary_plain [] e = refl
ordinary_plain (c ∷ cs) e = ground (arith, ordinary_plain cs)

bare_da-redirect :
    (w v : Text)
    → all is_ordinary w ≡ true
    → all is_ordinary v ≡ true
    → replace_all bare_da [] (w ++ b'>' ∷ b'c' ∷ v) ≡ w ++ v
unfolding replace_all
bare_da-redirect w v h k =
    replace_from-plain bare_da [] w (b'>' ∷ b'c' ∷ v) (omega arith) (ordinary_plain w h)
    ∙ ap (λ t. w ++ t)
        (replace_from-some bare_da [] b'>' (b'c' ∷ v) v (one_reply v k) (ground arith)
          ∙ skip_one v
          ∙ replace_all_plain bare_da [] v (omega arith) (ordinary_plain v k))

or_redirect :
    (w v : Text)
    → all is_ordinary w ≡ true
    → all is_ordinary v ≡ true
    → all is_ordinary_or_redirect (w ++ b'>' ∷ b'c' ∷ v) ≡ true
or_redirect [] [] h k = refl
or_redirect [] (c ∷ cs) h k = ground (arith, or_redirect [] cs)
or_redirect (c ∷ cs) v h k = ground (arith, or_redirect cs v)

joined :
    (w v : Text)
    → all is_ordinary w ≡ true
    → all is_ordinary v ≡ true
    → all is_ordinary_or_redirect (w ++ v) ≡ true
joined [] [] h k = refl
joined [] (c ∷ cs) h k = ground (arith, joined [] cs)
joined (c ∷ cs) v h k = ground (arith, joined cs v)

-- A command of no controls and no digits, in which the one `?` or `>` is a redirection to a file whose
-- name starts with a `c`, loses the `>` and the `c` when it is injected or pasted.
pub sanitize_shell_payload-redirect :
    (w v : Text)
    → all is_ordinary w ≡ true
    → all is_ordinary v ≡ true
    → sanitize_shell_payload (w ++ b'>' ∷ b'c' ∷ v) ≡ w ++ v
unfolding sanitize_shell_payload strip_device_reports
sanitize_shell_payload-redirect w v h k =
    let s = w ++ b'>' ∷ b'c' ∷ v in
    let r = or_redirect w v h k in
    let j = joined w v h k in
    rw (without_escapes-keeps s r) (
      rw
        (keeps (one_of is_control) is_ordinary_or_redirect [] s (omega arith) (λ c e. ground arith)
          r)
        (rw (keeps csi_da is_ordinary_or_redirect [] s (omega arith) (λ c e. ground arith) r) (
          rw (keeps csi_da_sec is_ordinary_or_redirect [] s (omega arith) (λ c e. ground arith) r) (
            rw (keeps osc_rgb is_ordinary_or_redirect [] s (omega arith) (λ c e. ground arith) r) (
              rw (bare_da-redirect w v h k) (
                rw
                  (keeps bare_osc_rgb is_ordinary_or_redirect [] (w ++ v) (omega arith)
                    (λ c e. ground arith) j)
                  (keeps (lit 7) is_ordinary_or_redirect [] (w ++ v) (omega arith)
                    (λ c e. ground arith) j)))))))
