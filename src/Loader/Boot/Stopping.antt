-- ===== src/Loader/Boot/Stopping.antt =====
-- shutdown of the loader: the order in which the extensions are stopped.
use mathlib.Core.Path.{subst}
use yodoca.Base.{
  any, head?, ◌≡◌, refl, sym, ap, ◌∙◌, inl, inr, String, Bool, true, false, ◌||◌, some, List, [],
  ◌∷◌, ◌++◌, arith, eq_iff, map, reverse, same, All, All-map, Bool-cases,
}
use yodoca.Loader.Resolver.{
  Manifest, Resolved, ordered, missing, cyclic, unresolved, resolve, by_id, is_member,
}
use yodoca.Loader.Resolver.Visiting.{id_of, IsOrdered, IsDistinct, member-append}
use yodoca.Loader.Resolver.Resolving.{IsUnique, Resolves, resolve-Resolves}
use yodoca.Loader.Boot.{
  Loader, Call, task_stopped, stopped, destroyed, stop_calls, stop_tasks, Shutdown, ended,
  unordered, aborted, stop_extensions, shutdown,
}
use yodoca.Loader.Boot.States.{deps_of}

member-snoc :
    (d : String) (os : List Manifest) (m : Manifest)
    → is_member d (map id_of (os ++ m ∷ [])) ≡ is_member d (map id_of (m ∷ os))
member-snoc d [] m = refl
member-snoc d (o ∷ os) m = ground (arith, member-snoc d os m)

member-reverse :
    (d : String) (os : List Manifest)
    → is_member d (map id_of (reverse os)) ≡ is_member d (map id_of os)
member-reverse d [] = refl
member-reverse d (m ∷ os) =
    member-snoc d (reverse os) m ∙ ap (λ b. same m.id d || b) (member-reverse d os)

-- The extension is stopped by one of the calls.
pub is_stopped : String → List Call → Bool
is_stopped id [] = false
is_stopped id (task_stopped i ∷ calls) = is_stopped id calls
is_stopped id (destroyed i ∷ calls) = is_stopped id calls
is_stopped id (stopped i ∷ calls) = let rest = is_stopped id calls in same i id || rest

is_stopped-tasks :
    (id : String) (ids : List String) (calls : List Call)
    → is_stopped id (map task_stopped ids ++ calls) ≡ is_stopped id calls
unfolding is_stopped
is_stopped-tasks id [] calls = refl
is_stopped-tasks id (i ∷ ids) calls = is_stopped-tasks id ids calls

is_stopped-stop_calls :
    (id : String) (ids : List String) (os : List Manifest)
    → is_member id ids ≡ true
    → is_stopped id (stop_calls ids os) ≡ is_member id (map id_of os)
unfolding is_stopped stop_calls
is_stopped-stop_calls id ids [] h = refl
is_stopped-stop_calls id ids (m ∷ os) h = elim (Bool-cases (is_member m.id ids)) [
  | inl e ↦ rw e (ap (λ b. same m.id id || b) (is_stopped-stop_calls id ids os h))
  | inr e ↦ rw (e, differs e) (is_stopped-stop_calls id ids os h)
]
  where
    differs : is_member m.id ids ≡ false → same m.id id ≡ false
    differs e = elim (Bool-cases (same m.id id)) [
      | inl a ↦ absurd (cc (ap (λ x. is_member x ids) (equal a), e, h))
      | inr a ↦ a
    ]
      where
        equal : same m.id id ≡ true → m.id ≡ id
        equal a = ground (arith, eq_iff m.id id)

module _ (ms : List Manifest) where
  -- No extension is stopped behind one of its dependencies; `gone` are stopped already.
  abbrev pub IsStopOrder : List String → List Call → Type 0
  IsStopOrder gone [] = Unit
  IsStopOrder gone (task_stopped id ∷ calls) = IsStopOrder gone calls
  IsStopOrder gone (destroyed id ∷ calls) = IsStopOrder gone calls
  IsStopOrder gone (stopped id ∷ calls) =
      All (λ d. is_member d gone ≡ false) (deps_of ms id) × IsStopOrder (id ∷ gone) calls

  IsReversed : List String → List Manifest → Type 0
  IsReversed gone [] = Unit
  IsReversed gone (m ∷ os) =
      All (λ d. is_member d gone ≡ false) (deps_of ms m.id) × IsReversed (m.id ∷ gone) os

  IsReversed-snoc :
      (gone : List String) (os : List Manifest) (m : Manifest)
      → IsReversed gone os
      → All (λ d. is_member d gone || is_member d (map id_of os) ≡ false) (deps_of ms m.id)
      → IsReversed gone (os ++ m ∷ [])
  unfolding IsReversed
  IsReversed-snoc gone [] m h k = (
    All-map (λ d. is_member d gone || false ≡ false) (λ d. is_member d gone ≡ false)
        (deps_of ms m.id) (λ d e. ground (arith, e)) k,
    tt,
  )
  IsReversed-snoc gone (o ∷ os) m h k = (
    h.0,
    IsReversed-snoc (o.id ∷ gone) os m h.1 (
        All-map (λ d. is_member d gone || is_member d (map id_of (o ∷ os)) ≡ false)
          (λ d. is_member d (o.id ∷ gone) || is_member d (map id_of os) ≡ false) (deps_of ms m.id)
          (λ d e. ground (arith, e)) k),
  )

  reverse-IsReversed :
      (before : List String) (os : List Manifest)
      → IsOrdered before os
      → IsDistinct (map id_of os)
      → All (λ m. by_id ms m.id ≡ some m) os
      → ((d : String) → is_member d before ≡ true → is_member d (map id_of os) ≡ false)
      → IsReversed [] (reverse os)
  unfolding IsReversed
  reverse-IsReversed before [] o d k apart = tt
  reverse-IsReversed before (m ∷ os) o d k apart =
      IsReversed-snoc [] (reverse os) m
        (reverse-IsReversed (before ++ m.id ∷ []) os o.1 d.1 k.1 apart')
        (rw (k.0, deps_of)
          (All-map (λ x. is_member x before ≡ true)
            (λ x. is_member x (map id_of (reverse os)) ≡ false) m.depends_on
            (λ x e. member-reverse x os ∙ ground (arith, apart x e)) o.0))
    where
      apart' :
          (x : String)
          → is_member x (before ++ m.id ∷ []) ≡ true
          → is_member x (map id_of os) ≡ false
      apart' x e = elim (Bool-cases (is_member x before)) [
        | inl a ↦ ground (arith, apart x a)
        | inr a ↦ own (ground (arith, a, member-append x before (m.id ∷ []), e, eq_iff m.id x))
      ]
        where
          own : m.id ≡ x → is_member x (map id_of os) ≡ false
          own q = ap (λ y. is_member y (map id_of os)) (sym q) ∙ d.0

  stop_calls-IsStopOrder :
      (ids gone left : List String) (os : List Manifest)
      → ((d : String) → is_member d gone ≡ false → is_member d left ≡ false)
      → IsReversed gone os
      → IsStopOrder left (stop_calls ids os)
  unfolding IsReversed stop_calls
  stop_calls-IsStopOrder ids gone left [] f h = tt
  stop_calls-IsStopOrder ids gone left (m ∷ os) f h = elim (Bool-cases (is_member m.id ids)) [
    | inl e ↦ rw e (
        (
          All-map (λ d. is_member d gone ≡ false) (λ d. is_member d left ≡ false) (deps_of ms m.id)
              f h.0,
          stop_calls-IsStopOrder ids (m.id ∷ gone) (m.id ∷ left) os (λ d a. ground (arith, a, f d))
              h.1,
        ))
    | inr e ↦
        rw e (stop_calls-IsStopOrder ids (m.id ∷ gone) left os (λ d a. f d (ground (arith, a))) h.1)
  ]

  tasks-IsStopOrder :
      (ids gone : List String) (calls : List Call)
      → IsStopOrder gone calls
      → IsStopOrder gone (map task_stopped ids ++ calls)
  tasks-IsStopOrder [] gone calls h = h
  tasks-IsStopOrder (id ∷ ids) gone calls h = tasks-IsStopOrder ids gone calls h

  module _ (raises : String → Bool) where
    -- The service tasks are stopped in turn, up to the first that raises.
    StopsTasks : List String → List Call × List String → Type 0
    StopsTasks ids (calls, []) = (any raises ids ≡ false) × (calls ≡ map task_stopped ids)
    StopsTasks ids (calls, id ∷ left) =
        (raises id ≡ true)
        × ((front : List String) × (ids ≡ front ++ id ∷ left)
            × (any raises front ≡ false)
            × (calls ≡ map task_stopped (front ++ id ∷ [])))

    StopsTasks-more :
        (i : String) (ids : List String) (q : List Call × List String)
        → raises i ≡ false
        → StopsTasks ids q
        → StopsTasks (i ∷ ids) (task_stopped i ∷ q.0, q.1)
    unfolding StopsTasks
    StopsTasks-more i ids (calls, []) e h = (rw e (h.0), ap (λ c. task_stopped i ∷ c) h.1)
    StopsTasks-more i ids (calls, id ∷ left) e h =
        let (front, all_of, fine, made) = h.1 in
        (h.0, (i ∷ front, ap (λ l. i ∷ l) all_of, rw e fine, ap (λ c. task_stopped i ∷ c) made))

    stop_tasks-StopsTasks : (ids : List String) → StopsTasks ids (stop_tasks raises ids)
    unfolding stop_tasks StopsTasks
    stop_tasks-StopsTasks [] = (refl, refl)
    stop_tasks-StopsTasks (i ∷ ids) = elim (Bool-cases (raises i)) [
      | inl e ↦ rw e ((e, ([], refl, refl, refl)))
      | inr e ↦ rw e (StopsTasks-more i ids (stop_tasks raises ids) e (stop_tasks-StopsTasks ids))
    ]

    -- What a shutdown does, by its ending.
    abbrev pub ShutsDown : Loader → Shutdown → Type 0
    ShutsDown l (ended calls l') =
        (any raises l.services ≡ false)
        × IsStopOrder [] calls
        × All (λ m. is_member m.id l.extensions ≡ true → is_stopped m.id calls ≡ true) ms
        × (l'.services ≡ [])
    ShutsDown l (aborted id calls l') =
        (raises id ≡ true)
        × ((front : List String) × (l.services ≡ front ++ l'.services)
            × (any raises front ≡ false)
            × (calls ≡ map task_stopped (front ++ id ∷ []))
            × (head? l'.services ≡ some id))
    ShutsDown l (unordered calls l') =
        ((os : List Manifest) → resolve ms ≡ ordered os → ⊥)
        × (any raises l.services ≡ false)
        × (calls ≡ map task_stopped l.services)
        × (l'.services ≡ [])

    ended-ShutsDown :
        (l : Loader) (os : List Manifest) (calls : List Call)
        → Resolves ms (ordered os)
        → any raises l.services ≡ false
        → calls ≡ map task_stopped l.services
        → ShutsDown l
            (ended (calls ++ stop_calls l.extensions (reverse os)) (record l { services = [] }))
    ended-ShutsDown l os calls h fine made = (
      fine,
      subst (λ c. IsStopOrder [] (c ++ stop_calls l.extensions (reverse os))) (sym made)
          (tasks-IsStopOrder l.services [] (stop_calls l.extensions (reverse os)) (
            stop_calls-IsStopOrder l.extensions [] [] (reverse os) (λ d a. a)
              (reverse-IsReversed [] os h.0 h.1 h.2 (λ d a. absurd (cc (a)))))),
      All-map (λ m. is_member m.id (map id_of os) ≡ true)
          (λ m.
            is_member m.id l.extensions ≡ true
            → is_stopped m.id (calls ++ stop_calls l.extensions (reverse os)) ≡ true)
          ms
          (λ m a b.
            ap (λ c. is_stopped m.id (c ++ stop_calls l.extensions (reverse os))) made
            ∙ is_stopped-tasks m.id l.services (stop_calls l.extensions (reverse os))
            ∙ is_stopped-stop_calls m.id l.extensions (reverse os) b
            ∙ member-reverse m.id os
            ∙ a)
          h.3,
      refl,
    )

    -- A shutdown stops the service tasks in turn. Where the await of one raises another exception than
    -- CancelledError, it is aborted there: this task and those behind it stay listed, and no extension
    -- is stopped. Otherwise no service task stays listed; it stops every extension that has been loaded,
    -- none behind one of its dependencies, and it fails only where the resolver finds no order. The ids
    -- of the manifests differ.
    pub shutdown-ShutsDown : (l : Loader) → IsUnique ms → ShutsDown l (shutdown ms raises l)
    unfolding shutdown StopsTasks stop_extensions
    shutdown-ShutsDown l u =
        by_tasks (stop_tasks raises l.services) (stop_tasks-StopsTasks l.services)
      where
        by_tasks :
            (q : List Call × List String)
            → StopsTasks l.services q
            → ShutsDown l (stop_extensions ms l q)
        by_tasks (calls, id ∷ left) h =
            let (front, all_of, fine, made) = h.1 in (h.0, (front, all_of, fine, made, refl))
        by_tasks (calls, []) h = go (resolve ms) refl (resolve-Resolves ms u)
          where
            go :
                (r : Resolved)
                → resolve ms ≡ r
                → Resolves ms r
                → ShutsDown l (stop_extensions ms l (calls, []))
            go (ordered os) e k = rw (e, stop_extensions) (ended-ShutsDown l os calls k h.0 h.1)
            go (missing id dep) e k = rw (e, stop_extensions) ((λ os q. cc (e, q)), h.0, h.1, refl)
            go (cyclic id) e k = rw (e, stop_extensions) ((λ os q. cc (e, q)), h.0, h.1, refl)
            go unresolved e k = absurd k
