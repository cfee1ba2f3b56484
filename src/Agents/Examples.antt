-- ===== src/Agents/Examples.antt =====
-- The registry of the agents on concrete agents; a provider is a text.
use yodoca.Base.{
  ◌==◌, ◌&&◌, is_before, ◌≡◌, refl, String, true, Option, none, some, if◌then◌else◌, get, put, pop,
}
use yodoca.Agents.{
  AgentRecord, Registry, new_registry, register, begin_invoke, cleanup_expired, clear_dynamic,
  count_or_zero, registers, Reaches, stays, goes,
}
use yodoca.Agents.Validity.{IsValid, Reaches-IsValid}
use yodoca.Agents.Removing.{cleanup_expired-removes}

abbrev helper : AgentRecord
helper = record { id = "helper"; is_dynamic = true; expires_at = some 5 }

abbrev one_agent : Registry String
one_agent = register helper "p" new_registry

one_agent-Reaches : Reaches new_registry one_agent
one_agent-Reaches =
    goes new_registry new_registry one_agent (stays new_registry)
      (registers helper "p" new_registry)

Reaches-IsValid_example : IsValid one_agent
Reaches-IsValid_example = Reaches-IsValid one_agent one_agent-Reaches

-- An agent that is registered again while it runs counts as idle, and a cleanup removes it.
abbrev record_of : Option (String × Registry String) → Option AgentRecord
record_of none = none
record_of (some (p, reg)) = get "helper" (cleanup_expired 9 (register helper p reg)).1.records

removed_while_running : record_of (begin_invoke "helper" one_agent) ≡ none
unfolding begin_invoke cleanup_expired register new_registry get put pop
removed_while_running = refl

one_agent-IsValid : IsValid one_agent
one_agent-IsValid = Reaches-IsValid one_agent one_agent-Reaches

cleanup_expired-removes_example :
    (get "helper" (cleanup_expired 9 one_agent).1.records ≡ elim (get "helper" one_agent.records) [
      | none ↦ none
      | some r ↦
          if r.is_dynamic
            && is_before r.expires_at 9
            && count_or_zero (get r.id one_agent.active) == 0
          then none
          else some r
    ])
    × (get "helper" (clear_dynamic one_agent).records ≡ elim (get "helper" one_agent.records) [
      | none ↦ none
      | some r ↦ if r.is_dynamic then none else some r
    ])
cleanup_expired-removes_example = cleanup_expired-removes 9 "helper" one_agent one_agent-IsValid
