-- ===== src/Inject/Keys.antt =====
-- Single keystrokes.
use tethra.Base.{
  ==_refl, Bool-cases, [], arith, false, if◌then◌else◌, inl, inr, none, refl, some, text_eq, ℕ,
  ◌==◌, ◌∙◌, ◌∷◌, ◌≡◌,
}
use tethra.Inject.{
  bare_da, bare_osc_rgb, csi_da, csi_da_sec, looks_like_device_report, on_data, osc_rgb,
  strip_device_reports,
}
use tethra.Regex.{lit, replace_all, replace_from, rests}
use tethra.Regex.Replace.{replace_all_one, replace_from-none, replace_from-some}

bell_dropped : (c : ℕ) → replace_all (lit 7) [] (c ∷ []) ≡ (if c == 7 then [] else c ∷ [])
unfolding replace_all replace_from rests
bell_dropped c = elim (Bool-cases (c == 7)) [
  | inl e ↦ replace_from-some (lit 7) [] c [] [] (rw e refl) refl ∙ rw e refl
  | inr e ↦ replace_from-none (lit 7) [] c [] (rw e refl) ∙ rw e refl
]

strip_device_reports-one : (c : ℕ) → strip_device_reports (c ∷ []) ≡ (if c == 7 then [] else c ∷ [])
unfolding strip_device_reports
strip_device_reports-one c = rw (replace_all_one csi_da [] c (omega arith)) (
    rw (replace_all_one csi_da_sec [] c (omega arith)) (
      rw (replace_all_one osc_rgb [] c (omega arith)) (
        rw (replace_all_one bare_da [] c (omega arith))
          (rw (replace_all_one bare_osc_rgb [] c (omega arith)) (bell_dropped c)))))

-- Of the texts of one unit, only BEL counts as a reply of the terminal.
looks_like_device_report-one : (c : ℕ) → looks_like_device_report (c ∷ []) ≡ (c == 7)
unfolding looks_like_device_report replace_all replace_from text_eq
looks_like_device_report-one c = elim (Bool-cases (c == 7)) [
  | inl e ↦ rw (strip_device_reports-one c, e) refl
  | inr e ↦ rw (strip_device_reports-one c, e, ==_refl c) refl
]

-- A keystroke of one code unit, typed while the input is not suppressed, is sent on as it is, Enter, Tab
-- and the other control keys among them, with one exception: Ctrl-G, which is BEL, is dropped.
pub on_data-one : (c : ℕ) → on_data false (c ∷ []) ≡ (if c == 7 then none else some (c ∷ []))
unfolding on_data
on_data-one c = elim (Bool-cases (c == 7)) [
  | inl e ↦ rw (looks_like_device_report-one c, e) refl
  | inr e ↦
      rw
        (
          looks_like_device_report-one c,
          strip_device_reports-one c,
          e,
          looks_like_device_report-one c,
          e,
        )
        refl
]
