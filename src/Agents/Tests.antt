-- ===== src/Agents/Tests.antt =====
-- A catalogue with a deprecated agent.
use mathlib.Core.Path.{subst}
use mathlib.Core.Option.{some-injective}
use tethra.Base.{List, Option, Text, [], codes, false, none, refl, some, text_eq, true, ◌∷◌, ◌≡◌}
use tethra.Agents.{AgentSpecDto, is_deprecated, resolve_agent_for_launch, successor_of}

abbrev agent_of : Text → Text → Option Text → AgentSpecDto
agent_of i status successor = record {
  id = i;
  name = i;
  command = i;
  args = [];
  persistent = true;
  docs_url = none;
  status = status;
  successor = successor;
  byok_env = [];
  supports_openai_compat = false;
  install_macos = none;
  install_linux = none;
  install_windows = none;
  install_default = none;
}

abbrev shell : AgentSpecDto
shell = agent_of (codes "shell") (codes "active") none

abbrev old : AgentSpecDto
old = agent_of (codes "old") (codes "deprecated") (some (codes "new"))

abbrev new : AgentSpecDto
new = agent_of (codes "new") (codes "active") none

abbrev catalogue : List AgentSpecDto
catalogue = shell ∷ old ∷ new ∷ []

resolves :
    (resolve_agent_for_launch catalogue (codes "old")
      ≡ record { agent = some new; migrated_from = some (codes "old") })
    × ((resolve_agent_for_launch catalogue (codes "gone")).agent ≡ some shell)
unfolding resolve_agent_for_launch text_eq
resolves = (refl, refl)

-- A successor that is deprecated itself is launched all the same: one step is followed.
one_step :
    (resolve_agent_for_launch
      (agent_of (codes "older") (codes "deprecated") (some (codes "old")) ∷ catalogue)
      (codes "older")).agent
    ≡ some old
unfolding resolve_agent_for_launch text_eq
one_step = refl

new_is_active : (s : AgentSpecDto) → successor_of catalogue old ≡ some s → is_deprecated s ≡ false
unfolding text_eq
new_is_active s e = subst (λ t. is_deprecated t ≡ false) (some-injective new s e) refl
