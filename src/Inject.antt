-- ===== src/Inject.antt =====
-- apps/ui/src/terminal/inject.ts: the text that buttons and paste type into a terminal, freed of control
-- sequences and of the replies of the terminal, and the order of the calls that deliver it; and the
-- `onData` handler of apps/ui/src/terminal/registry.ts, which drops such replies.
use tethra.Base.{
  Bool, List, Option, Text, [], any, codes, false, if◌then◌else◌, includes_unit, is_space, leb,
  length, max, min, none, not, some, text_eq, true, ℕ, ◌&&◌, ◌++◌, ◌-◌, ◌==◌, ◌||◌, ◌∷◌,
}
use tethra.Regex.{
  Regex, alt, at_end, is_digit, is_not_newline, lit, many, one_of, opt, replace_all, rests, seq,
  some_of, test_start, up_to, word_of,
}
pub mod Clean
pub mod Keys
pub mod Editor
pub mod Delivery
pub mod Redirect
pub mod Tests

abbrev pub esc : ℕ
esc = 0x1b

abbrev pub one_among : Text → Regex
one_among cs = one_of (λ c. any (λ d. c == d) cs)

abbrev pub digit : Regex
digit = one_of is_digit

-- `[\d;]*c`.
abbrev pub da_body : Regex
da_body = seq (many (one_of (λ c. is_digit c || c == b';'))) (lit b'c')

abbrev hex : Regex
hex = one_of (λ c. is_digit c || (leb 0x41 c && leb c 0x46) || (leb 0x61 c && leb c 0x66))

abbrev hex4 : Regex
hex4 = seq hex (up_to 3 hex)

abbrev rgb : Regex
rgb = seq (word_of (codes "rgb:")) (seq hex4 (seq (lit b'/') (seq hex4 (seq (lit b'/') hex4))))

-- BEL or ESC `\`.
abbrev terminator : Regex
terminator = alt (lit 7) (seq (lit esc) (lit 0x5c))

abbrev pub bare_osc_rgb : Regex
bare_osc_rgb = seq (lit b'1') (seq (one_among (codes "012")) (seq (lit b';') rgb))

abbrev pub osc_rgb : Regex
osc_rgb = seq (lit esc) (seq (lit b']') (seq bare_osc_rgb (opt terminator)))

abbrev pub csi_da : Regex
csi_da = seq (lit esc) (seq (lit b'[') (seq (opt (lit b'?')) da_body))

abbrev pub csi_da_sec : Regex
csi_da_sec = seq (lit esc) (seq (lit b'[') (seq (lit b'>') da_body))

abbrev pub number_semicolon : Regex
number_semicolon = seq (some_of digit) (lit b';')

abbrev pub bare_da_one : Regex
bare_da_one = alt (seq (lit b'?') da_body) (
    alt (seq (lit b'>') da_body)
      (seq (seq number_semicolon (up_to 7 number_semicolon)) (seq (many digit) (lit b'c'))))

abbrev pub bare_da : Regex
bare_da = some_of bare_da_one

unfoldable pub strip_device_reports : Text → Text
unfolding replace_all
strip_device_reports data_text = replace_all (lit 7) [] (
    replace_all bare_osc_rgb [] (
      replace_all bare_da []
        (replace_all osc_rgb [] (replace_all csi_da_sec [] (replace_all csi_da [] data_text)))))

abbrev pub is_blank_or_control : ℕ → Bool
is_blank_or_control c = is_space c || leb c 0x1f || c == 0x7f

abbrev report_residue : Regex
report_residue =
    seq (some_of (one_of (λ c. is_digit c || any (λ d. c == d) (codes ";c?>/")))) at_end

abbrev pub is_residue : Text → Bool
is_residue [] = true
is_residue (c ∷ cs) = leb (length (c ∷ cs)) 8 && test_start report_residue (c ∷ cs)

unfoldable pub looks_like_device_report : Text → Bool
unfolding strip_device_reports replace_all text_eq rests is_space
looks_like_device_report [] = false
looks_like_device_report (c ∷ cs) =
    let stripped = strip_device_reports (c ∷ cs) in
    if text_eq stripped (c ∷ cs)
    then false
    else is_residue (replace_all (one_of is_blank_or_control) [] stripped)

abbrev pub carriage_return : Text
carriage_return = 13 ∷ []

abbrev pub newline : Text
newline = 10 ∷ []

abbrev pub csi_sequence : Regex
csi_sequence = seq (lit esc) (
    seq (lit b'[') (
      seq (many (one_of (λ c. is_digit c || any (λ d. c == d) (codes ";?")))) (
        seq (many (one_of (λ c. leb 0x20 c && leb c 0x2f)))
          (one_of (λ c. leb 0x40 c && leb c 0x7e)))))

abbrev pub osc_sequence : Regex
osc_sequence =
    seq (lit esc)
      (seq (lit b']') (seq (many (one_of (λ c. not (c == 7 || c == esc)))) (opt terminator)))

abbrev pub string_sequence : Regex
string_sequence = seq (lit esc) (
    seq (one_among (codes "PX^_"))
      (seq (many (one_of (λ c. not (c == esc)))) (seq (lit esc) (lit 0x5c))))

abbrev pub escape_pair : Regex
escape_pair = seq (lit esc) (one_of is_not_newline)

-- C0 without TAB, LF and CR, and DEL.
abbrev pub is_control : ℕ → Bool
is_control c = leb c 8 || c == 11 || c == 12 || (leb 14 c && leb c 31) || c == 0x7f

unfoldable pub without_escapes : Text → Text
unfolding replace_all
without_escapes text = replace_all escape_pair [] (
    replace_all string_sequence [] (
      replace_all osc_sequence [] (
        replace_all csi_sequence []
          (replace_all (lit 13) newline (replace_all (word_of (13 ∷ 10 ∷ [])) newline text)))))

unfoldable pub sanitize_shell_payload : Text → Text
unfolding without_escapes strip_device_reports replace_all
sanitize_shell_payload text =
    strip_device_reports (replace_all (one_of is_control) [] (without_escapes text))

abbrev pub paste_start : Text
paste_start = esc ∷ codes "[200~"

abbrev pub paste_end : Text
paste_end = esc ∷ codes "[201~"

unfoldable pub with_bracketed_paste : Text → Text
with_bracketed_paste text =
    if includes_unit text 10 then paste_start ++ (text ++ paste_end) else text

-- `replace(/^\n+|\n+$/g, "")`.
abbrev pub without_leading : Text → Text
without_leading [] = []
without_leading (c ∷ cs) = let rest = without_leading cs in if c == 10 then rest else c ∷ cs

abbrev pub cons_unless_newline : ℕ → Text → Text
cons_unless_newline c [] = if c == 10 then [] else c ∷ []
cons_unless_newline c (d ∷ ds) = c ∷ d ∷ ds

abbrev pub without_trailing : Text → Text
without_trailing [] = []
without_trailing (c ∷ cs) = cons_unless_newline c (without_trailing cs)

pub record InjectShellOptions : Type 0 where
  pub run : Option Bool
  pub clear_line : Option Bool
  pub arm_gates : Option Bool
  pub suppress_ms : Option ℕ

-- The calls, in the order in which they are made; a later one waits for the promise of the one before.
pub data InjectCall : Type 0 where
  arm : ℕ → InjectCall
  animation_frame focus : InjectCall
  wait_ms : ℕ → InjectCall
  force_input : Text → InjectCall

abbrev pub or_else {ℓ} : {A : Type ℓ} → Option A → A → A
or_else none b = b
or_else (some a) b = a

abbrev pub ctrl_u : ℕ
ctrl_u = 0x15

abbrev pub gated_calls : ℕ → Text → List InjectCall
gated_calls suppress_ms body =
    arm suppress_ms
    ∷ animation_frame
    ∷ animation_frame
    ∷ arm suppress_ms
    ∷ force_input (ctrl_u ∷ [])
    ∷ wait_ms 50
    ∷ arm (max 800 (suppress_ms - 300))
    ∷ force_input (ctrl_u ∷ body)
    ∷ arm (max 600 (min suppress_ms 1200))
    ∷ focus
    ∷ []

abbrev pub clean_text : Text → Text
clean_text text = without_trailing (without_leading (sanitize_shell_payload text))

abbrev pub body_of : InjectShellOptions → Text → Text
body_of options clean =
    with_bracketed_paste clean ++ (if or_else options.run false then newline else [])

abbrev pub use_gates : InjectShellOptions → Bool
use_gates options = or_else options.arm_gates (or_else options.clear_line true)

abbrev pub inject_clean : InjectShellOptions → Text → List InjectCall
inject_clean options [] = []
inject_clean options (c ∷ cs) =
    if use_gates options
    then gated_calls (or_else options.suppress_ms 2500) (body_of options (c ∷ cs))
    else force_input (body_of options (c ∷ cs)) ∷ focus ∷ []

unfoldable pub inject_shell_text : Text → InjectShellOptions → List InjectCall
unfolding sanitize_shell_payload with_bracketed_paste
inject_shell_text text options = inject_clean options (clean_text text)

-- `terminal.onData`: what is sent on, if anything.
abbrev pub sent : Text → Option Text
sent [] = none
sent (c ∷ cs) = if looks_like_device_report (c ∷ cs) then none else some (c ∷ cs)

unfoldable pub on_data : Bool → Text → Option Text
unfolding looks_like_device_report strip_device_reports
on_data suppressed data_text =
    if suppressed || looks_like_device_report data_text
    then none
    else sent (strip_device_reports data_text)
