-- ===== src/Agents.antt =====
-- The catalogue of agents (apps/ui/src/projects/agents.ts, and AgentSpecDto of
-- apps/ui/src/lib/generated/AgentSpecDto.ts). An id that is null, undefined or empty is `[]`.
pub mod Resolve
mod Tests
use tethra.Base.{
  Bool, List, Option, Text, [], codes, find?, if◌then◌else◌, none, some, text_eq, ◌∷◌,
}

pub record AgentSpecDto : Type 0 where
  pub id : Text
  pub name : Text
  pub command : Text
  pub args : List Text
  pub persistent : Bool
  pub docs_url : Option Text
  pub status : Text
  pub successor : Option Text
  pub byok_env : List Text
  pub supports_openai_compat : Bool
  pub install_macos : Option Text
  pub install_linux : Option Text
  pub install_windows : Option Text
  pub install_default : Option Text

pub record Resolved : Type 0 where
  pub agent : Option AgentSpecDto
  pub migrated_from : Option Text

abbrev pub find_agent : List AgentSpecDto → Text → Option AgentSpecDto
find_agent agents wanted = find? (λ entry. text_eq entry.id wanted) agents

-- The lookup of an id that may be missing.
abbrev pub find_preferred : List AgentSpecDto → Text → Option AgentSpecDto
find_preferred agents [] = none
find_preferred agents (c ∷ cs) = find_agent agents (c ∷ cs)

abbrev pub is_deprecated : AgentSpecDto → Bool
is_deprecated a = text_eq a.status (codes "deprecated")

-- The successor of a requested agent: one of the catalogue, if the agent is deprecated and names one.
abbrev pub named_successor : List AgentSpecDto → Option Text → Option AgentSpecDto
named_successor agents none = none
named_successor agents (some s) = find_preferred agents s

abbrev pub successor_of : List AgentSpecDto → AgentSpecDto → Option AgentSpecDto
successor_of agents a = if is_deprecated a then named_successor agents a.successor else none

abbrev pub follow : List AgentSpecDto → AgentSpecDto → Resolved
follow agents a = elim (successor_of agents a) [
  | none ↦ record { agent = some a; migrated_from = none }
  | some s ↦ record { agent = some s; migrated_from = some a.name }
]

unfoldable pub resolve_agent_for_launch : List AgentSpecDto → Text → Resolved
resolve_agent_for_launch agents preferred_id = elim (find_preferred agents preferred_id) [
  | none ↦ record { agent = find_agent agents (codes "shell"); migrated_from = none }
  | some requested ↦ follow agents requested
]

abbrev pub or_default {ℓ} : {A : Type ℓ} → Option A → Option A → Option A
or_default none d = d
or_default (some x) d = some x

unfoldable pub install_command_for : AgentSpecDto → Text → Option Text
install_command_for a platform =
    or_default
      (if text_eq platform (codes "macos")
        then a.install_macos
        else if text_eq platform (codes "linux")
        then a.install_linux
        else if text_eq platform (codes "windows")
        then a.install_windows
        else none)
      a.install_default

abbrev pub name_or : Option AgentSpecDto → Text → Text
name_or none d = d
name_or (some a) d = a.name

unfoldable pub agent_display_name : List AgentSpecDto → Text → Text
agent_display_name agents [] = codes "shell"
agent_display_name agents (c ∷ cs) =
    name_or (resolve_agent_for_launch agents (c ∷ cs)).agent (c ∷ cs)

abbrev pub id_of : Option AgentSpecDto → Text
id_of none = []
id_of (some a) = a.id

unfoldable pub resolved_agent_id : List AgentSpecDto → Text → Text
resolved_agent_id agents preferred_id = id_of (resolve_agent_for_launch agents preferred_id).agent
