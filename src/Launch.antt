-- ===== src/Launch.antt =====
-- The script that is typed into a shell to launch a project (apps/ui/src/projects/launch.ts, with the
-- names of apps/ui/src/projects/tmuxConf.ts). The text of the tmux configuration is a parameter, since
-- nothing depends on it; `sleep` is left out. An optional string that is empty counts as missing.
pub mod Words
pub mod Quote
pub mod Script
mod Tests
use tethra.Base.{
  Bool, List, Option, Text, [], all, codes, false, filter, if◌then◌else◌, join, leb, length, ltb,
  map, none, not, some, take, text_eq, trim, true, ℕ, ◌&&◌, ◌*◌, ◌++◌, ◌==◌, ◌||◌, ◌∷◌,
}
use tethra.Agents.{AgentSpecDto}

abbrev pub single_quote : ℕ
single_quote = 0x27

abbrev pub backslash : ℕ
backslash = 0x5c

-- What `replace(/'/g, …)` puts in the place of one character.
abbrev pub escape_unit : ℕ → Text
escape_unit c =
    if c == single_quote
    then single_quote ∷ backslash ∷ single_quote ∷ single_quote ∷ []
    else c ∷ []

unfoldable pub escape_quotes : Text → Text
escape_quotes [] = []
escape_quotes (c ∷ cs) = escape_unit c ++ escape_quotes cs

unfoldable pub shell_single_quote : Text → Text
shell_single_quote value = single_quote ∷ (escape_quotes value ++ single_quote ∷ [])

abbrev pub is_letter : ℕ → Bool
is_letter c = (leb b'A' c && leb c b'Z') || (leb b'a' c && leb c b'z')

abbrev pub is_digit : ℕ → Bool
is_digit c = leb b'0' c && leb c b'9'

-- The class [A-Za-z0-9_./:=+-].
unfoldable pub is_safe : ℕ → Bool
is_safe c =
    is_letter c
    || is_digit c
    || (c == b'_' || c == b'.' || c == b'/' || c == b':' || c == b'=' || c == b'+' || c == b'-')

abbrev pub is_safe_word : Text → Bool
is_safe_word value = ltb 0 (length value) && all is_safe value

unfoldable pub shell_escape : Text → Text
shell_escape value = if is_safe_word value then value else shell_single_quote value

abbrev pub space : Text
space = b' ' ∷ []

-- The command line of an agent; none without an agent or with a blank command.
unfoldable pub agent_argv : Option AgentSpecDto → Option Text
agent_argv none = none
agent_argv (some a) =
    if ltb 0 (length (trim a.command))
    then some (join space (map shell_escape (a.command ∷ a.args)))
    else none

-- The class [A-Za-z0-9_-].
unfoldable pub is_mux_unit : ℕ → Bool
is_mux_unit c = is_letter c || is_digit c || c == b'_' || c == b'-'

unfoldable pub mux_session_name : Text → Text
mux_session_name project_id = codes "tethra-" ++ take 24 (filter is_mux_unit project_id)

abbrev pub newline : Text
newline = 10 ∷ []

-- `lines.join("\n")` with a newline behind.
abbrev pub script_of : List Text → Text
script_of lines = join newline lines ++ newline

pub record LaunchOptions : Type 0 where
  pub project_id : Text
  pub path : Text
  pub agent : Option AgentSpecDto
  pub remote : Bool
  pub platform : Option Text
  pub mux_available : Option Bool
  pub cwd_already_set : Bool
  pub byok_env_path : Text

abbrev pub is_text : Option Text → Text → Bool
is_text none t = false
is_text (some s) t = text_eq s t

abbrev pub is_persistent : Option AgentSpecDto → Bool
is_persistent none = false
is_persistent (some a) = a.persistent

-- `options.muxAvailable !== false`.
abbrev pub not_false : Option Bool → Bool
not_false none = true
not_false (some b) = b

abbrev pub local_windows : LaunchOptions → Bool
local_windows o = not o.remote && is_text o.platform (codes "windows")

abbrev pub want_mux : LaunchOptions → Bool
want_mux o = is_persistent o.agent && (not (local_windows o) && not_false o.mux_available)

abbrev pub preamble_lines : Text → List Text
preamble_lines env =
    codes "set -a"
    ∷ (codes ". " ++ shell_single_quote env)
    ∷ codes "set +a"
    ∷ (codes "rm -f " ++ shell_single_quote env)
    ∷ []

abbrev pub byok_preamble : LaunchOptions → List Text
byok_preamble o =
    if ltb 0 (length o.byok_env_path) && not (local_windows o)
    then preamble_lines o.byok_env_path
    else []

abbrev pub lines_or_empty : List Text → Text
lines_or_empty [] = []
lines_or_empty (l ∷ ls) = script_of (l ∷ ls)

abbrev pub argv_line : Option Text → List Text
argv_line none = []
argv_line (some argv) = argv ∷ []

abbrev pub cd_line : Text → Option Text → Text
cd_line path none = codes "cd " ++ shell_single_quote path
cd_line path (some argv) = codes "cd " ++ (shell_single_quote path ++ (codes " && " ++ argv))

abbrev pub windows_line : Option Text → Text
windows_line none = []
windows_line (some argv) = argv ++ 13 ∷ 10 ∷ []

-- The branch without a multiplexer.
abbrev pub plain_script : LaunchOptions → Option Text → Text
plain_script o argv =
    if local_windows o
    then windows_line argv
    else if o.cwd_already_set
    then lines_or_empty (byok_preamble o ++ argv_line argv)
    else script_of (byok_preamble o ++ cd_line o.path argv ∷ [])

abbrev pub or_shell : Option Text → Text
or_shell none = codes "$SHELL"
or_shell (some argv) = argv

abbrev pub wipe_screen : Text
wipe_screen = codes "printf '\\033[2J\\033[3J\\033[H'"

abbrev pub path_bootstrap : List Text
path_bootstrap =
    codes
      "for _p in /opt/homebrew/bin /opt/homebrew/sbin /usr/local/bin /usr/local/sbin \"$HOME/.local/bin\"; do"
    ∷ codes "  [ -d \"$_p\" ] || continue"
    ∷ codes "  case \":$PATH:\" in *\":$_p:\"*) ;; *) PATH=\"$_p:$PATH\" ;; esac"
    ∷ codes "done"
    ∷ codes "export PATH"
    ∷ []

abbrev pub ensure_remote : Bool → List Text
ensure_remote false = []
ensure_remote true =
    codes "if ! command -v tmux >/dev/null 2>&1 && ! command -v zellij >/dev/null 2>&1; then"
    ∷ codes "  if command -v brew >/dev/null 2>&1; then"
    ∷ codes "    echo \"tethra: installing tmux via Homebrew on this host…\" >&2"
    ∷ codes "    brew install tmux || true"
    ∷ codes "  fi"
    ∷ codes "fi"
    ∷ []

module _ (tmux_conf : Text) where
  -- The lines behind the preamble, at the quoted session and path.
  abbrev pub mux_lines : Bool → Text → Text → Text → List Text
  mux_lines remote session_q path_q inner =
      path_bootstrap
      ++ (ensure_remote remote
          ++ codes "if command -v tmux >/dev/null 2>&1; then"
            ∷ (codes "  " ++ wipe_screen)
            ∷ codes "  _tethra_tmux_conf=$(mktemp \"${TMPDIR:-/tmp}/tethra-tmux.XXXXXX\") || exit 1"
            ∷ codes "  cat > \"$_tethra_tmux_conf\" <<'TETHRA_TMUX_EOF'"
            ∷ tmux_conf
            ∷ codes "TETHRA_TMUX_EOF"
            ∷ (codes "  tmux -L "
                ++ (shell_single_quote (codes "tethra")
                    ++ (codes " -f \"$_tethra_tmux_conf\" new-session -A -s "
                        ++ (session_q ++ (codes " -c " ++ (path_q ++ (codes " -- " ++ inner)))))))
            ∷ codes "  rm -f \"$_tethra_tmux_conf\""
            ∷ codes "elif command -v zellij >/dev/null 2>&1; then"
            ∷ (codes "  " ++ wipe_screen)
            ∷ (codes "  cd "
                ++ (path_q
                    ++ (codes " && zellij attach -c " ++ (session_q ++ (codes " -- " ++ inner)))))
            ∷ codes "else"
            ∷ (codes "  " ++ wipe_screen)
            ∷ codes
                "  echo \"tethra: no tmux/zellij — session will not persist across disconnects\" >&2"
            ∷ (codes "  cd " ++ (path_q ++ (codes " && " ++ inner)))
            ∷ codes "fi"
            ∷ [])

  unfoldable pub project_launch_script : LaunchOptions → Text
  project_launch_script o =
      if want_mux o
      then script_of (
          byok_preamble o
          ++ mux_lines o.remote (shell_single_quote (mux_session_name o.project_id))
              (shell_single_quote o.path) (or_shell (agent_argv o.agent)))
      else plain_script o (agent_argv o.agent)
