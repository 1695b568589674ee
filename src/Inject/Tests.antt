-- ===== src/Inject/Tests.antt =====
-- A pasted text with an escape in it, and a command with a redirection.
use tethra.Regex.{replace_all, replace_from, rests}
use tethra.Base.{
  Text, [], all, codes, false, flat_map, if◌then◌else◌, is_empty, is_space, none, refl, some,
  text_eq, true, ◌++◌, ◌∷◌, ◌≡◌,
}
use tethra.Inject.{
  InjectShellOptions, clean_text, esc, inject_shell_text, looks_like_device_report, newline,
  on_data, sanitize_shell_payload, strip_device_reports, without_escapes,
}
use tethra.Inject.Clean.{is_clean, sanitize_shell_payload-clean}
use tethra.Inject.Keys.{on_data-one}
use tethra.Inject.Delivery.{after_text, inject_shell_text-feed}
use tethra.Inject.Redirect.{sanitize_shell_payload-redirect}
use tethra.Inject.Editor.{editor, feed_calls}

abbrev pasted : Text
pasted = codes "a" ++ (esc ∷ codes "[201~b") ++ newline

abbrev paste_options : InjectShellOptions
paste_options = record { run = none; clear_line = some false; arm_gates = none; suppress_ms = none }

abbrev run_options : InjectShellOptions
run_options = record { run = some true; clear_line = none; arm_gates = none; suppress_ms = none }

-- The marks of a paste are taken out, the newline stays.
cleaned : sanitize_shell_payload pasted ≡ codes "ab" ++ newline
unfolding sanitize_shell_payload without_escapes strip_device_reports replace_all replace_from rests
    flat_map
cleaned = refl

-- A reply of the terminal is recognised.
reply : looks_like_device_report (codes "1;2c") ≡ true
unfolding looks_like_device_report strip_device_reports replace_all replace_from rests flat_map
    text_eq is_space
reply = refl

sanitize_shell_payload-clean_example : all is_clean (sanitize_shell_payload pasted) ≡ true
sanitize_shell_payload-clean_example = sanitize_shell_payload-clean pasted

on_data-one_example : on_data false (13 ∷ []) ≡ some (13 ∷ [])
on_data-one_example = on_data-one 13

inject_shell_text-feed_example :
    feed_calls (inject_shell_text pasted run_options) (editor (codes "junk") [] false) ≡ (
      if is_empty (clean_text pasted)
      then editor (codes "junk") [] false
      else after_text true ([] ++ clean_text pasted) [])
inject_shell_text-feed_example = inject_shell_text-feed pasted run_options (codes "junk") []

sanitize_shell_payload-redirect_example :
    sanitize_shell_payload (codes "echo hi " ++ b'>' ∷ b'c' ∷ codes "onfig")
    ≡ codes "echo hi " ++ codes "onfig"
sanitize_shell_payload-redirect_example =
    sanitize_shell_payload-redirect (codes "echo hi ") (codes "onfig") refl refl
