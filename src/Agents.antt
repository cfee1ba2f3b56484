-- ===== src/Agents.antt =====
-- core/agents/registry.py: the registry of the agents.
pub mod Validity
pub mod Removing
pub mod Examples
use yodoca.Base.{
  ℕ, zero, suc, ◌+◌, ◌-◌, ◌≡◌, String, Bool, true, false, ◌&&◌, not, Option, none, some, List, [],
  ◌∷◌, ◌++◌, map, length, ◌==◌, if◌then◌else◌, select, is_some, is_before, get, put, pop,
}

-- The fields of AgentRecord that the registry reads.
pub record AgentRecord : Type 0 where
  pub id : String
  pub is_dynamic : Bool
  pub expires_at : Option ℕ

-- The three dictionaries, and the calls of `on_unregister` so far.
pub record Registry (Provider : Type 0) : Type 0 where
  pub records : List (String × AgentRecord)
  pub providers : List (String × Provider)
  pub active : List (String × ℕ)
  pub notified : List String

abbrev pub values {ℓ} : {A : Type ℓ} → List (String × A) → List A
values [] = []
values ((k, v) ∷ d) = v ∷ values d

abbrev pub count_or_zero : Option ℕ → ℕ
count_or_zero none = 0
count_or_zero (some n) = n

abbrev pub agent_id : AgentRecord → String
agent_id r = r.id

module _ {Provider : Type 0} where
  unfoldable pub new_registry : Registry Provider
  new_registry = record { records = []; providers = []; active = []; notified = [] }

  unfoldable pub register : AgentRecord → Provider → Registry Provider → Registry Provider
  register r p reg = record reg {
    records = put r.id r reg.records;
    providers = put r.id p reg.providers;
    active = put r.id 0 reg.active;
  }

  unfoldable pub unregister : String → Registry Provider → Registry Provider
  unregister id reg = record {
    records = pop id reg.records;
    providers = pop id reg.providers;
    active = pop id reg.active;
    notified = reg.notified ++ id ∷ [];
  }

  -- The loops over `to_remove`.
  unfoldable pub unregister_all : List String → Registry Provider → Registry Provider
  unfolding unregister
  unregister_all [] reg = reg
  unregister_all (id ∷ ids) reg = unregister_all ids (unregister id reg)

  unfoldable pub dynamic_ids : Registry Provider → List String
  dynamic_ids reg = map agent_id (select (λ r. r.is_dynamic) (values reg.records))

  -- clear(source="dynamic")
  unfoldable pub clear_dynamic : Registry Provider → Registry Provider
  unfolding unregister_all dynamic_ids
  clear_dynamic reg = unregister_all (dynamic_ids reg) reg

  -- clear()
  unfoldable pub clear : Registry Provider → Registry Provider
  unfolding dynamic_ids
  clear reg = record {
    records = [];
    providers = [];
    active = [];
    notified = reg.notified ++ dynamic_ids reg;
  }

  unfoldable pub find_agent : String → Registry Provider → Option (AgentRecord × Provider)
  find_agent id reg = elim (get id reg.records) [
    | none ↦ none
    | some r ↦ elim (get id reg.providers) [ none ↦ none | some p ↦ some (r, p) ]
  ]

  unfoldable pub is_idle : String → Registry Provider → Bool
  is_idle id reg = count_or_zero (get id reg.active) == 0

  unfoldable pub is_busy : String → Registry Provider → Bool
  unfolding is_idle
  is_busy id reg = not (is_idle id reg)

  unfoldable pub list_agents : (available_only : Bool) → Registry Provider → List AgentRecord
  unfolding is_idle
  list_agents available_only reg =
      if available_only
      then select (λ r. is_idle r.id reg) (values reg.records)
      else values reg.records

  -- `invoke` up to the call of the provider; `none` is the answer "Unknown agent".
  unfoldable pub begin_invoke : String → Registry Provider → Option (Provider × Registry Provider)
  unfolding find_agent
  begin_invoke id reg = elim (find_agent id reg) [
    | none ↦ none
    | some (r, p) ↦
        some (p, record reg { active = put id (count_or_zero (get id reg.active) + 1) reg.active })
  ]

  -- The `finally` of `invoke`.
  unfoldable pub end_invoke : String → Registry Provider → Registry Provider
  end_invoke id reg = elim (get id reg.active) [
    | none ↦ reg
    | some n ↦ record reg { active = put id (n - 1) reg.active }
  ]

  unfoldable pub is_removable : (now : ℕ) → Registry Provider → AgentRecord → Bool
  unfolding is_idle
  is_removable now reg r = r.is_dynamic && is_before r.expires_at now && is_idle r.id reg

  unfoldable pub expired_ids : (now : ℕ) → Registry Provider → List String
  unfolding is_removable
  expired_ids now reg = map agent_id (select (is_removable now reg) (values reg.records))

  unfoldable pub cleanup_expired : (now : ℕ) → Registry Provider → ℕ × Registry Provider
  unfolding expired_ids unregister_all
  cleanup_expired now reg = (length (expired_ids now reg), unregister_all (expired_ids now reg) reg)

  -- A call of the registry; the two halves of `invoke` may have other calls between them.
  pub data Step : Registry Provider → Registry Provider → Type 0 where
    registers :
        (r : AgentRecord) (p : Provider) (reg : Registry Provider) → Step reg (register r p reg)
    unregisters : (id : String) (reg : Registry Provider) → Step reg (unregister id reg)
    clears : (reg : Registry Provider) → Step reg (clear reg)
    clears_dynamic : (reg : Registry Provider) → Step reg (clear_dynamic reg)
    begins :
        (id : String) (p : Provider) (reg reg' : Registry Provider)
        → begin_invoke id reg ≡ some (p, reg')
        → Step reg reg'
    ends : (id : String) (reg : Registry Provider) → Step reg (end_invoke id reg)
    cleans : (now : ℕ) (reg : Registry Provider) → Step reg (cleanup_expired now reg).1

  pub data Reaches : Registry Provider → Registry Provider → Type 0 where
    stays : (reg : Registry Provider) → Reaches reg reg
    goes : (a b c : Registry Provider) → Reaches a b → Step b c → Reaches a c
