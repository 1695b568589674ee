-- ===== src/Inject/Clean.antt =====
-- What the sanitised text cannot contain.
use tethra.Base.{Bool, Text, [], all, arith, leb, not, refl, true, ℕ, ◌&&◌, ◌==◌, ◌||◌, ◌∷◌, ◌≡◌}
use tethra.Inject.{
  bare_da, bare_osc_rgb, csi_da, csi_da_sec, csi_sequence, escape_pair, is_control, newline,
  osc_rgb, osc_sequence, sanitize_shell_payload, string_sequence, strip_device_reports,
  without_escapes,
}
use tethra.Regex.{lit, one_of, replace_all, word_of}
use tethra.Regex.Replace.{all-replace_all, all-replace_all_one_of}

-- TAB, LF, and every unit from 32 on but DEL.
abbrev pub is_clean : ℕ → Bool
is_clean c = c == 9 || c == 10 || (leb 32 c && not (c == 127))

pub strip_device_reports-all :
    (p : ℕ → Bool) (s : Text) → all p s ≡ true → all p (strip_device_reports s) ≡ true
unfolding strip_device_reports
strip_device_reports-all p s h = all-replace_all p (lit 7) [] _ refl (
    all-replace_all p bare_osc_rgb [] _ refl (
      all-replace_all p bare_da [] _ refl (
        all-replace_all p osc_rgb [] _ refl
          (all-replace_all p csi_da_sec [] _ refl (all-replace_all p csi_da [] s refl h)))))

abbrev no_return : ℕ → Bool
no_return c = not (c == 13)

without_escapes-no_return : (s : Text) → all no_return (without_escapes s) ≡ true
unfolding without_escapes
without_escapes-no_return s =
    let t₁ = replace_all (lit 13) newline (replace_all (word_of (13 ∷ 10 ∷ [])) newline s) in
    let t₂ = replace_all csi_sequence [] t₁ in
    let t₃ = replace_all osc_sequence [] t₂ in
    let t₄ = replace_all string_sequence [] t₃ in
    all-replace_all no_return escape_pair [] t₄ refl (
      all-replace_all no_return string_sequence [] t₃ refl (
        all-replace_all no_return osc_sequence [] t₂ refl (
          all-replace_all no_return csi_sequence [] t₁ refl (
            all-replace_all_one_of (λ c. c == 13) newline
              (replace_all (word_of (13 ∷ 10 ∷ [])) newline s) refl))))

both_all :
    (p q r : ℕ → Bool) (s : Text)
    → ((c : ℕ) → p c ≡ true → q c ≡ true → r c ≡ true)
    → all p s ≡ true
    → all q s ≡ true
    → all r s ≡ true
both_all p q r [] k h g = refl
both_all p q r (c ∷ cs) k h g = ground (arith, k c, both_all p q r cs k)

-- Whatever text is injected, what is left of it after the sanitising has no unit below 32 but TAB and LF,
-- and no DEL: no escape, so that no sequence that starts with one and no end of a bracketed paste is in it,
-- no carriage return, and no Ctrl-U. The units from 128 to 159 are not taken out.
pub sanitize_shell_payload-clean : (text : Text) → all is_clean (sanitize_shell_payload text) ≡ true
unfolding sanitize_shell_payload
sanitize_shell_payload-clean text =
    let t = without_escapes text in
    strip_device_reports-all is_clean (replace_all (one_of is_control) [] t) (
      both_all (λ c. not (is_control c)) no_return is_clean (replace_all (one_of is_control) [] t)
        (λ c h g. ground arith) (all-replace_all_one_of is_control [] t refl)
        (all-replace_all no_return (one_of is_control) [] t refl (without_escapes-no_return text)))
