-- ===== src/Blocks/Screen.antt =====
-- apps/ui/src/terminal/blocks.ts: the running command, and the programs that own the screen.
use tethra.Blocks.Phases.{or_default, text_or}
use tethra.Blocks.Finish.{session_has_running_command}
use tethra.Blocks.Rows.{non_space, space, space_or_end}
use tethra.Base.{Bool, List, Text, [], codes, false, if◌then◌else◌, trim, ◌||◌, ◌∷◌}
use tethra.Regex.{Regex, alt, lit, many, one_of, opt, seq, some_of, test_start, word_of}
use tethra.Blocks.Buffer.{Buffer}
use tethra.Blocks.{Session}
use tethra.Blocks.Chrome.{BlockChromeEntry, active_entries}

-- `/^(claude|codex|…)(\s|$)/`.
abbrev words : List Text → Regex
words [] = one_of (λ c. false)
words (w ∷ []) = word_of w
words (w ∷ v ∷ ws) = alt (word_of w) (words (v ∷ ws))

abbrev agent_command : Regex
agent_command =
    seq
      (words (
        codes "claude"
        ∷ codes "codex"
        ∷ codes "gemini"
        ∷ codes "agy"
        ∷ codes "opencode"
        ∷ codes "aider"
        ∷ []))
      space_or_end

abbrev screen_names : List Text
screen_names =
    codes "vi"
    ∷ codes "vim"
    ∷ codes "nvim"
    ∷ codes "vimdiff"
    ∷ codes "nano"
    ∷ codes "pico"
    ∷ codes "emacs"
    ∷ codes "micro"
    ∷ codes "helix"
    ∷ codes "hx"
    ∷ codes "less"
    ∷ codes "more"
    ∷ codes "most"
    ∷ codes "man"
    ∷ codes "htop"
    ∷ codes "btop"
    ∷ codes "top"
    ∷ codes "atop"
    ∷ codes "glances"
    ∷ codes "nmon"
    ∷ codes "iotop"
    ∷ codes "iftop"
    ∷ codes "nethogs"
    ∷ codes "ranger"
    ∷ codes "mc"
    ∷ codes "lazygit"
    ∷ codes "lazydocker"
    ∷ codes "tig"
    ∷ codes "k9s"
    ∷ codes "tmux"
    ∷ codes "screen"
    ∷ codes "zellij"
    ∷ codes "ssh"
    ∷ codes "mosh"
    ∷ codes "watch"
    ∷ codes "journalctl"
    ∷ codes "ncdu"
    ∷ codes "cmus"
    ∷ codes "mutt"
    ∷ codes "neomutt"
    ∷ codes "weechat"
    ∷ codes "irssi"
    ∷ codes "nvtop"
    ∷ []

abbrev sudo : Regex
sudo =
    seq (word_of (codes "sudo"))
      (seq (some_of space) (many (seq (lit b'-') (seq (some_of non_space) (some_of space)))))

abbrev screen_command : Regex
screen_command =
    seq (opt sudo)
      (seq (opt (seq (many non_space) (lit b'/'))) (seq (words screen_names) space_or_end))

-- `currentCommandText`: the entry of the snapshot is looked for only where the tracker has no text.
abbrev active_text : List BlockChromeEntry → Text
active_text [] = []
active_text (e ∷ es) = trim e.command_text

unfoldable pub current_command_text : Buffer → Session → Text
current_command_text b s =
    if session_has_running_command s
    then text_or (trim (or_default s.tracker.opened.command_text []))
        (active_text (active_entries b s.tracker s.tracker.active))
    else []

unfoldable pub session_runs_screen_command : Buffer → Session → Bool
session_runs_screen_command b s =
    test_start agent_command (current_command_text b s)
    || test_start screen_command (current_command_text b s)

unfoldable pub session_runs_agent_command : Buffer → Session → Bool
session_runs_agent_command b s = test_start agent_command (current_command_text b s)

unfoldable pub session_screen_app : Bool → Buffer → Session → Bool
session_screen_app alternate b s =
    alternate
    || (s.tui.agent_launched || s.tui.sync || s.tui.mouse)
    || session_runs_screen_command b s
