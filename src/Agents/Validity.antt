-- ===== src/Agents/Validity.antt =====
-- The registry of the agents: the three dictionaries hold the same agents, each under its id.
use mathlib.Core.Path.{subst}
use yodoca.Base.{
  ℕ, ◌-◌, ◌+◌, ◌≡◌, refl, sym, ap, ◌∙◌, inl, inr, String, true, Option, none, some, List, [], ◌∷◌,
  arith, eq_iff, same, is_some, All, Bool-cases, get, put, pop, get-put, get-pop, IsDict,
  put-IsDict, pop-IsDict, All-put, All-pop,
}
use yodoca.Agents.{
  AgentRecord, Registry, new_registry, register, unregister, unregister_all, dynamic_ids,
  clear_dynamic, clear, find_agent, begin_invoke, end_invoke, cleanup_expired, expired_ids,
  count_or_zero, Step, registers, unregisters, clears, clears_dynamic, begins, ends, cleans,
  Reaches, stays, goes,
}

set_same :
    {A B : Type 0} (id x : String) (a : A) (b : B) (d : List (String × A)) (e : List (String × B))
    → is_some (get x d) ≡ is_some (get x e)
    → is_some (get x (put id a d)) ≡ is_some (get x (put id b e))
set_same id x a b d e h = elim (Bool-cases (same id x)) [
  | inl c ↦ rw (get-put id x a d, get-put id x b e, c) refl
  | inr c ↦ rw (get-put id x a d, get-put id x b e, c) h
]

drop_same :
    {A B : Type 0} (id x : String) (d : List (String × A)) (e : List (String × B))
    → is_some (get x d) ≡ is_some (get x e)
    → is_some (get x (pop id d)) ≡ is_some (get x (pop id e))
drop_same id x d e h = elim (Bool-cases (same id x)) [
  | inl c ↦ rw (get-pop id x d, get-pop id x e, c) refl
  | inr c ↦ rw (get-pop id x d, get-pop id x e, c) h
]

module _ {Provider : Type 0} where
  pub record IsValid (reg : Registry Provider) : Type 0 where
    pub one_record : IsDict reg.records
    pub keyed : All (λ e. e.1.id ≡ e.0) reg.records
    pub provided : (id : String) → is_some (get id reg.providers) ≡ is_some (get id reg.records)
    pub counted : (id : String) → is_some (get id reg.active) ≡ is_some (get id reg.records)

  register-IsValid :
      (r : AgentRecord) (p : Provider) (reg : Registry Provider)
      → IsValid reg
      → IsValid (register r p reg)
  unfolding register
  register-IsValid r p reg v = record {
    one_record = put-IsDict r.id r reg.records v.one_record;
    keyed =
        All-put (λ e. e.1.id ≡ e.0) r.id r reg.records refl
          (λ j w c h. ground (arith, c, eq_iff j r.id)) v.keyed;
    provided = λ x. set_same r.id x p r reg.providers reg.records (v.provided x);
    counted = λ x. set_same r.id x 0 r reg.active reg.records (v.counted x);
  }

  pub unregister-IsValid :
      (id : String) (reg : Registry Provider) → IsValid reg → IsValid (unregister id reg)
  unfolding unregister
  unregister-IsValid id reg v = record {
    one_record = pop-IsDict id reg.records v.one_record;
    keyed = All-pop (λ e. e.1.id ≡ e.0) id reg.records v.keyed;
    provided = λ x. drop_same id x reg.providers reg.records (v.provided x);
    counted = λ x. drop_same id x reg.active reg.records (v.counted x);
  }

  unregister_all-IsValid :
      (ids : List String) (reg : Registry Provider) → IsValid reg → IsValid (unregister_all ids reg)
  unfolding unregister_all
  unregister_all-IsValid [] reg v = v
  unregister_all-IsValid (id ∷ ids) reg v =
      unregister_all-IsValid ids (unregister id reg) (unregister-IsValid id reg v)

  -- A counter is set for an agent that has one.
  counter-IsValid :
      (id : String) (n m : ℕ) (reg : Registry Provider)
      → get id reg.active ≡ some m
      → IsValid reg
      → IsValid (record reg { active = put id n reg.active })
  counter-IsValid id n m reg e v = record {
    one_record = v.one_record;
    keyed = v.keyed;
    provided = v.provided;
    counted = λ x. elim (Bool-cases (same id x)) [
      | inl c ↦
          rw (get-put id x n reg.active, c)
            (sym (ap is_some (ap (λ y. get y reg.active) (sym (equal x c)) ∙ e)) ∙ v.counted x)
      | inr c ↦ rw (get-put id x n reg.active, c) (v.counted x)
    ];
  }
    where
      equal : (x : String) → same id x ≡ true → id ≡ x
      equal x c = ground (arith, eq_iff id x)

  begin_invoke-IsValid :
      (id : String) (p : Provider) (reg reg' : Registry Provider)
      → begin_invoke id reg ≡ some (p, reg')
      → IsValid reg
      → IsValid reg'
  unfolding begin_invoke find_agent
  begin_invoke-IsValid id p reg reg' e v = go (get id reg.records) (get id reg.providers) refl e
    where
      next : Registry Provider
      next = record reg { active = put id (count_or_zero (get id reg.active) + 1) reg.active }

      kept : (r : AgentRecord) → get id reg.records ≡ some r → IsValid next
      kept r h = by_count (get id reg.active) refl
        where
          by_count : (o : Option ℕ) → get id reg.active ≡ o → IsValid next
          by_count none c = absurd (cc (v.counted id, c, h))
          by_count (some m) c = counter-IsValid id (count_or_zero (get id reg.active) + 1) m reg c v

      second :
          (q : Provider)
          → ◌≡◌ {A = Option (Provider × Registry Provider)} (some (q, next)) (some (p, reg'))
          → next ≡ reg'
      second q h = cc

      go :
          (o : Option AgentRecord) (q : Option Provider)
          → get id reg.records ≡ o
          → ◌≡◌ {A = Option (Provider × Registry Provider)}
              (elim (elim o as (λ x. Option (AgentRecord × Provider)) [
                | none ↦ none
                | some r ↦ elim q as (λ x. Option (AgentRecord × Provider)) [
                  | none ↦ none
                  | some p ↦ some (r, p)
                ]
              ]) [ none ↦ none | some (r, p) ↦ some (p, next) ])
              (some (p, reg'))
          → IsValid reg'
      go none q i h = absurd (cc)
      go (some r) none i h = absurd (cc)
      go (some r) (some q) i h = subst IsValid (second q h) (kept r i)

  end_invoke-IsValid :
      (id : String) (reg : Registry Provider) → IsValid reg → IsValid (end_invoke id reg)
  unfolding end_invoke
  end_invoke-IsValid id reg v = go (get id reg.active) refl
    where
      go : (o : Option ℕ) → get id reg.active ≡ o → IsValid (end_invoke id reg)
      go none e = rw (e, end_invoke) v
      go (some n) e = rw (e, end_invoke) (counter-IsValid id (n - 1) n reg e v)

  clear-IsValid : (reg : Registry Provider) → IsValid (clear reg)
  unfolding clear get
  clear-IsValid reg = record {
    one_record = tt;
    keyed = tt;
    provided = λ id. refl;
    counted = λ id. refl;
  }

  step-IsValid : (a b : Registry Provider) → Step a b → IsValid a → IsValid b
  unfolding clear_dynamic cleanup_expired
  step-IsValid a b (registers r p reg) v = register-IsValid r p reg v
  step-IsValid a b (unregisters id reg) v = unregister-IsValid id reg v
  step-IsValid a b (clears reg) v = clear-IsValid reg
  step-IsValid a b (clears_dynamic reg) v = unregister_all-IsValid (dynamic_ids reg) reg v
  step-IsValid a b (begins id p reg reg' e) v = begin_invoke-IsValid id p reg reg' e v
  step-IsValid a b (ends id reg) v = end_invoke-IsValid id reg v
  step-IsValid a b (cleans now reg) v = unregister_all-IsValid (expired_ids now reg) reg v

  -- Whatever calls are made, and however they interleave with running invocations: from the new
  -- registry on, the records, the providers and the counters are of the same agents, each record once
  -- and under its own id.
  pub Reaches-IsValid : (reg : Registry Provider) → Reaches new_registry reg → IsValid reg
  unfolding new_registry get
  Reaches-IsValid reg r =
      go new_registry reg r
        (record { one_record = tt; keyed = tt; provided = λ id. refl; counted = λ id. refl })
    where
      go : (a b : Registry Provider) → Reaches a b → IsValid a → IsValid b
      go a b (stays c) v = v
      go a b (goes c d e s t) v = step-IsValid d e t (go c d s v)
