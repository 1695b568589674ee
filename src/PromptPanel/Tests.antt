-- ===== src/PromptPanel/Tests.antt =====
-- Runs of the box: an echo that lags, a key of the keyboard, and a command that stays in the box.
use tethra.Base.{Text, [], codes, false, none, refl, some, text_eq, true, ◌++◌, ◌∷◌, ◌≡◌}
use tethra.PromptPanel.{Panel, encode_key_to_pty, on_key_down, refresh_mirror, value}
use tethra.PromptPanel.Echo.{plain, predict_all, refresh_mirror-predict_all}
use tethra.PromptPanel.Local.{on_key_down-local}

abbrev at_prompt_line : Panel
at_prompt_line = record {
  mirror = codes "sudo ";
  mirror_ref = codes "sudo ";
  pending = [];
  pending_base = codes "sudo ";
  pending_mismatches = 0;
  uncover = false;
  local_cmd = none;
  cmd_hint = none;
  mirror_misses = 2;
  forwarded_since_mirror = 3;
  last_forward_was_edit = true;
}

abbrev same : Text → Text
same s = s

ctrl_c : encode_key_to_pty same same (record (plain b'c') { ctrl_key = true }) ≡ some (3 ∷ [])
unfolding encode_key_to_pty
ctrl_c = refl

refresh_mirror-predict_all_example :
    (value (predict_all (codes "ap" ++ codes "t") at_prompt_line) ≡ codes "sudo apt")
    × (value (
          refresh_mirror
            (some (codes "sudo " ++ codes "ap"))
            (predict_all (codes "ap" ++ codes "t") at_prompt_line))
        ≡ codes "sudo apt")
refresh_mirror-predict_all_example =
    refresh_mirror-predict_all (codes "sudo ") (codes "ap") (codes "t") at_prompt_line
      (record {
        line = refl;
        accepted = refl;
        predicted = refl;
        base = refl;
        covered = refl;
        plain_line = refl;
      })
      refl

abbrev composing : Panel
composing = record at_prompt_line { local_cmd = some (codes "/cle") }

on_key_down-local_example : (on_key_down same same false (plain b'a') composing).1 ≡ []
unfolding text_eq
on_key_down-local_example =
    on_key_down-local same same (codes "/cle") (plain b'a') composing refl refl
