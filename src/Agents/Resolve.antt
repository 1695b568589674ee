-- ===== src/Agents/Resolve.antt =====
-- Which agent a project launches.
use mathlib.Core.Path.{subst}
use tethra.Base.{
  Bool-cases, List, Option, Option-cases, Text, [], arith, eq_of_text_eq, false, inl, inr, none,
  refl, some, sym, text_eq, ◌∷◌, ◌≡◌,
}
use tethra.Agents.{
  AgentSpecDto, find_agent, find_preferred, follow, is_deprecated, named_successor,
  resolve_agent_for_launch, resolved_agent_id, successor_of,
}

find?-id :
    (agents : List AgentSpecDto) (wanted : Text) (a : AgentSpecDto)
    → find_agent agents wanted ≡ some a
    → a.id ≡ wanted
find?-id [] wanted a h = cc
find?-id (x ∷ xs) wanted a h = elim (Bool-cases (text_eq x.id wanted)) [
  | inl e ↦ ground (arith, eq_of_text_eq x.id wanted)
  | inr e ↦ find?-id xs wanted a (ground arith)
]

find_preferred-id :
    (agents : List AgentSpecDto) (wanted : Text) (a : AgentSpecDto)
    → find_preferred agents wanted ≡ some a
    → find_preferred agents a.id ≡ some a
find_preferred-id agents [] a h = cc
find_preferred-id agents (c ∷ cs) a h =
    subst (λ t. find_preferred agents t ≡ some a) (sym (find?-id agents (c ∷ cs) a h)) h

module _ (agents : List AgentSpecDto) (wanted : Text) (a : AgentSpecDto) where
  resolve_self :
      find_preferred agents wanted ≡ some a
      → successor_of agents a ≡ none
      → (resolve_agent_for_launch agents wanted).agent ≡ some a
  unfolding resolve_agent_for_launch
  resolve_self f n = rw (f, resolve_agent_for_launch) (rw (n, follow) refl)

  resolve_successor :
      (s : AgentSpecDto)
      → find_preferred agents wanted ≡ some a
      → successor_of agents a ≡ some s
      → (resolve_agent_for_launch agents wanted).agent ≡ some s
  unfolding resolve_agent_for_launch
  resolve_successor s f n = rw (f, resolve_agent_for_launch) (rw (n, follow) refl)

-- A launched agent that is found under its own id, and has no successor to follow, stays.
settles :
    (agents : List AgentSpecDto) (wanted : Text) (b : AgentSpecDto)
    → (resolve_agent_for_launch agents wanted).agent ≡ some b
    → find_preferred agents b.id ≡ some b
    → successor_of agents b ≡ none
    → (resolve_agent_for_launch agents (resolved_agent_id agents wanted)).agent
      ≡ (resolve_agent_for_launch agents wanted).agent
unfolding resolved_agent_id
settles agents wanted b r f n = rw r (resolve_self agents b.id b f n)

named_found :
    (agents : List AgentSpecDto) (o : Option Text) (s : AgentSpecDto)
    → named_successor agents o ≡ some s
    → find_preferred agents s.id ≡ some s
named_found agents none s h = cc
named_found agents (some t) s h = find_preferred-id agents t s h

successor_found :
    (agents : List AgentSpecDto) (a s : AgentSpecDto)
    → successor_of agents a ≡ some s
    → find_preferred agents s.id ≡ some s
successor_found agents a s h = elim (Bool-cases (is_deprecated a)) [
  | inl e ↦ named_found agents a.successor s (rw e at h)
  | inr e ↦ cc (rw e at h)
]

-- Storing the id that a project resolves to, and resolving it again, gives the same agent, provided that
-- the project's agent is in the catalogue and that its successor, if it has one, is not deprecated.
pub resolve_twice :
    (agents : List AgentSpecDto) (wanted : Text) (a : AgentSpecDto)
    → find_preferred agents wanted ≡ some a
    → ((s : AgentSpecDto) → successor_of agents a ≡ some s → is_deprecated s ≡ false)
    → (resolve_agent_for_launch agents (resolved_agent_id agents wanted)).agent
      ≡ (resolve_agent_for_launch agents wanted).agent
resolve_twice agents wanted a f active = elim (Option-cases (successor_of agents a)) [
  | inl n ↦
      settles agents wanted a (resolve_self agents wanted a f n)
        (find_preferred-id agents wanted a f) n
  | inr (s, e) ↦
      settles agents wanted s (resolve_successor agents wanted a s f e)
        (successor_found agents a s e) (rw (active s e))
]
