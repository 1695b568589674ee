-- ===== src/Launch/Tests.antt =====
-- A project in a directory with a quote in its name, and an agent with an argument of two words.
use tethra.Agents.{AgentSpecDto}
use tethra.Launch.Words.{shell_words}
use tethra.Base.{
  Text, [], codes, false, is_space, join, none, refl, some, text_eq, trim, true, ◌++◌, ◌∷◌, ◌≡◌,
}
use tethra.Launch.Quote.{shell_words-agent_argv}
use tethra.Launch.Script.{project_launch_script-preamble, read_and_remove, without_env}
use tethra.Launch.{
  LaunchOptions, agent_argv, escape_quotes, escape_unit, is_safe, is_safe_word, local_windows,
  newline, project_launch_script, shell_escape, shell_single_quote,
}

abbrev agent : AgentSpecDto
agent = record {
  id = codes "claude";
  name = codes "Claude";
  command = codes "claude";
  args = codes "it's me" ∷ codes "-x" ∷ [];
  persistent = true;
  docs_url = none;
  status = codes "active";
  successor = none;
  byok_env = [];
  supports_openai_compat = false;
  install_macos = none;
  install_linux = none;
  install_windows = none;
  install_default = none;
}

abbrev line : Text
line = codes "claude 'it'\\''s me' -x"

argv : agent_argv (some agent) ≡ some line
unfolding agent_argv shell_escape is_safe_word is_safe shell_single_quote escape_quotes escape_unit
    trim is_space
argv = refl

shell_words-agent_argv_example :
    shell_words line ≡ some (codes "claude" ∷ codes "it's me" ∷ codes "-x" ∷ [])
shell_words-agent_argv_example = shell_words-agent_argv agent line argv

abbrev options : LaunchOptions
options = record {
  project_id = codes "p1";
  path = codes "/srv/p";
  agent = some agent;
  remote = false;
  platform = some (codes "linux");
  mux_available = none;
  cwd_already_set = true;
  byok_env_path = codes "/tmp/env";
}

on_linux : local_windows options ≡ false
unfolding text_eq
on_linux = refl

project_launch_script-preamble_example :
    project_launch_script (codes "set -g status off") options
    ≡ join newline (read_and_remove (codes "'/tmp/env'"))
      ++ (newline ++ project_launch_script (codes "set -g status off") (without_env options))
unfolding shell_single_quote escape_quotes escape_unit
project_launch_script-preamble_example =
    project_launch_script-preamble (codes "set -g status off") options refl on_linux
