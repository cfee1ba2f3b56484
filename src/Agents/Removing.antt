-- ===== src/Agents/Removing.antt =====
-- cleanup_expired and clear of the registry: which agents are removed.
use yodoca.Base.{
  ◌&&◌, ◌==◌, is_before, ℕ, ◌≡◌, refl, sym, ap, ◌∙◌, inl, inr, String, Bool, true, false, Option,
  none, some, List, [], ◌∷◌, map, arith, eq_iff, if◌then◌else◌, same, any, select, All, Bool-cases,
  get, get-pop, IsDict,
}
use yodoca.Agents.{
  AgentRecord, Registry, values, agent_id, unregister, unregister_all, dynamic_ids, clear_dynamic,
  expired_ids, is_removable, count_or_zero, is_idle, cleanup_expired,
}
use yodoca.Agents.Validity.{IsValid}

any_id :
    (p : AgentRecord → Bool) (id : String) (d : List (String × AgentRecord))
    → IsDict d
    → All (λ e. e.1.id ≡ e.0) d
    → any (λ i. same i id) (map agent_id (select p (values d)))
      ≡ elim (get id d) [ none ↦ false | some r ↦ p r ]
unfolding get
any_id p id [] h k = refl
any_id p id ((key, r) ∷ d) h k = elim (Bool-cases (same key id)) [
  | inl e ↦ elim (Bool-cases (p r)) [
    | inl c ↦ rw (e, c, k.0, e) refl
    | inr c ↦ rw (e, c) (any_id p id d h.1 k.1 ∙ rest (ap (λ x. get x d) (sym (equal e)) ∙ h.0))
  ]
  | inr e ↦ elim (Bool-cases (p r)) [
    | inl c ↦ rw (e, c, k.0, e) (any_id p id d h.1 k.1)
    | inr c ↦ rw (e, c) (any_id p id d h.1 k.1)
  ]
]
  where
    equal : same key id ≡ true → key ≡ id
    equal e = ground (arith, eq_iff key id)

    rest : get id d ≡ none → elim (get id d) [ none ↦ false | some r ↦ p r ] ≡ false
    rest e = rw e refl

module _ {Provider : Type 0} where
  get-unregister_all :
      (ids : List String) (id : String) (reg : Registry Provider)
      → get id (unregister_all ids reg).records
        ≡ (if any (λ i. same i id) ids then none else get id reg.records)
  unfolding unregister_all unregister
  get-unregister_all [] id reg = refl
  get-unregister_all (i ∷ ids) id reg = elim (Bool-cases (same i id)) [
    | inl e ↦
        rw (get-unregister_all ids id (unregister i reg), get-pop i id reg.records, e)
          (both (any (λ j. same j id) ids))
    | inr e ↦ rw (get-unregister_all ids id (unregister i reg), get-pop i id reg.records, e) refl
  ]
    where
      both : (b : Bool) → ◌≡◌ {A = Option AgentRecord} (if b then none else none) none
      both true = refl
      both false = refl

  removed :
      (p : AgentRecord → Bool) (id : String) (reg : Registry Provider)
      → IsValid reg
      → get id (unregister_all (map agent_id (select p (values reg.records))) reg).records
        ≡ elim (get id reg.records) [ none ↦ none | some r ↦ if p r then none else some r ]
  removed p id reg v =
      get-unregister_all (map agent_id (select p (values reg.records))) id reg
      ∙ rw (any_id p id reg.records v.one_record v.keyed) (go (get id reg.records))
    where
      go :
          (o : Option AgentRecord)
          → (if elim o [ none ↦ false | some r ↦ p r ] then none else o)
            ≡ elim o [ none ↦ none | some r ↦ if p r then none else some r ]
      go none = refl
      go (some r) = refl

  -- In a registry that holds each record once and under its own id: a cleanup removes exactly the
  -- agents that are dynamic, have expired and whose counter of invocations is 0 or missing, and
  -- clearing the dynamic agents removes exactly the dynamic ones.
  pub cleanup_expired-removes :
      (now : ℕ) (id : String) (reg : Registry Provider)
      → IsValid reg
      → (get id (cleanup_expired now reg).1.records ≡ elim (get id reg.records) [
        | none ↦ none
        | some r ↦
            if r.is_dynamic
              && is_before r.expires_at now
              && count_or_zero (get r.id reg.active) == 0
            then none
            else some r
      ])
        × (get id (clear_dynamic reg).records ≡ elim (get id reg.records) [
          | none ↦ none
          | some r ↦ if r.is_dynamic then none else some r
        ])
  unfolding cleanup_expired expired_ids is_removable is_idle clear_dynamic dynamic_ids
  cleanup_expired-removes now id reg v =
      (removed (is_removable now reg) id reg v, removed (λ r. r.is_dynamic) id reg v)
