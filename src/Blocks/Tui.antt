-- ===== src/Blocks/Tui.antt =====
-- The signals that a full-screen program owns the session.
use tethra.Base.{Bool, List, [], any, arith, refl, ℕ, ◌==◌, ◌||◌, ◌∙◌, ◌∷◌, ◌≡◌}
use tethra.Blocks.{TuiState, dec_mode, on_dec_mode}

dec_mode-launch :
    (set : Bool) (mode : ℕ) (t : TuiState)
    → ((dec_mode set mode t).sync ≡ (t.sync || (mode == 2026)))
      × ((dec_mode set mode t).agent_launched ≡ t.agent_launched)
      × ((dec_mode set mode t).launch_wiped ≡ t.launch_wiped)
unfolding dec_mode
dec_mode-launch set mode t = (ground arith, ground arith, ground arith)

-- However many modes a sequence sets or resets: the session counts as one that synchronises its output
-- when it did before or when one of the modes is 2026, begun or ended; and whether an agent was launched
-- and its wipe has run stays as it was.
pub on_dec_mode-launch :
    (set : Bool) (modes : List ℕ) (t : TuiState)
    → ((on_dec_mode set modes t).sync ≡ (t.sync || any (λ m. m == 2026) modes))
      × ((on_dec_mode set modes t).agent_launched ≡ t.agent_launched)
      × ((on_dec_mode set modes t).launch_wiped ≡ t.launch_wiped)
unfolding on_dec_mode
on_dec_mode-launch set [] t = (ground arith, refl, refl)
on_dec_mode-launch set (mode ∷ modes) t =
    let (a, b, c) = dec_mode-launch set mode t in
    let (d, e, f) = on_dec_mode-launch set modes (dec_mode set mode t) in
    (ground arith, e ∙ b, f ∙ c)
