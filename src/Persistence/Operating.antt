-- ===== src/Persistence/Operating.antt =====
-- The tables and the thread manager after any operations.
use yodoca.Base.{
  if_case, ◌∙◌, ℕ, String, ◌≡◌, refl, Bool, true, false, ◌&&◌, Option, none, some, List, [], ◌∷◌,
  same, any, Bool-cases, if_both, inl, inr,
}
use Prim.Native.String.{◌++◌ as ◌+++◌}
use text.Mathlib.TextPositions.{eq_refl}
use yodoca.Persistence.{
  merge, archive_thread, Database, ThreadInfo, is_thread, create_thread, update_thread, get_thread,
}
use yodoca.Persistence.Manager.{
  World, or_same, add_key, persist_thread, set_current, set_thread, get_or_create_thread,
  configure_thread, rotate_thread, maybe_rotate, get_background_thread, touch_thread, touched,
  completes, is_idle, orchestrator_id, Operation, creates_thread, updates_thread, archives_thread,
  binds_thread, creates_project, updates_project, deletes_project, sets_thread,
  gets_or_creates_thread, configures_thread, rotates_thread, maybe_rotates, gets_background_thread,
  touches_thread, operate, operate_all,
}
use yodoca.Persistence.Integrity.{
  any-update, any-append_left, IsSound, KeepsThreads, StaysSound, create_thread-StaysSound,
  update_thread-StaysSound,
}
use yodoca.Persistence.Owning.{
  any-append_right, create_project-StaysSound, update_project-StaysSound, archive_thread-StaysSound,
  bind_thread-StaysSound, delete_project-StaysSound,
}
use yodoca.Persistence.Projects.{create_project, update_project, delete_project, bind_thread}

-- The current thread has a row and a session.
abbrev pub is_current : Option String → Database → List String → Bool
is_current none db pool = false
is_current (some i) db pool = any (is_thread i) db.threads && any (same i) pool

-- The tables are sound, and with a repository there is a current thread.
abbrev pub IsValid : World → Type 0
IsValid w =
    IsSound w.db
    × (w.manager.repository ≡ true → is_current w.manager.thread_id w.db w.manager.pool ≡ true)

-- The tables stay sound and keep the threads.
abbrev IsFollowed : Database → Database → Type 0
IsFollowed db db' = IsSound db' × KeepsThreads db db'

or_same-IsFollowed :
    (db : Database) (o : Option Database)
    → IsSound db
    → StaysSound db o
    → IsFollowed db (or_same o db)
unfolding StaysSound
or_same-IsFollowed db none h s = (h, (λ i k. k))
or_same-IsFollowed db (some db') h s = s

still_current :
    (t : Option String) (db db' : Database) (pool : List String)
    → KeepsThreads db db'
    → is_current t db pool ≡ true
    → is_current t db' pool ≡ true
still_current none db db' pool k h = h
still_current (some i) db db' pool k h =
    split (any (is_thread i) db.threads) (any (same i) pool) refl h
  where
    split :
        (a b : Bool)
        → any (is_thread i) db.threads ≡ a
        → (a && b) ≡ true
        → (any (is_thread i) db'.threads && b) ≡ true
    split true true e q = rw (k i e) refl
    split true false e q = absurd (cc (q))
    split false b e q = absurd (cc (q))

-- An operation on the tables alone.
tables-IsValid :
    (w : World) (db : Database) → IsFollowed w.db db → IsValid w → IsValid (record w { db = db })
tables-IsValid w db f h =
    (f.0, (λ r. still_current w.manager.thread_id w.db db w.manager.pool f.1 (h.1 r)))

option-IsValid :
    (w : World) (o : Option Database)
    → StaysSound w.db o
    → IsValid w
    → IsValid (record w { db = or_same o w.db })
option-IsValid w o s h = tables-IsValid w (or_same o w.db) (or_same-IsFollowed w.db o h.0 s) h

persist-IsFollowed :
    (i channel_id : String) (now : ℕ) (w : World)
    → IsSound w.db
    → IsFollowed w.db (persist_thread i channel_id now w).db
unfolding persist_thread
persist-IsFollowed i channel_id now w h =
    if_both {A = World} (λ q. IsFollowed w.db q.db) w.manager.repository
      (or_same-IsFollowed w.db (create_thread i channel_id none none now w.db) h
        (create_thread-StaysSound i channel_id none none now w.db h))
      (h, (λ j k. k))

persist-manager :
    (i channel_id : String) (now : ℕ) (w : World)
    → (persist_thread i channel_id now w).manager ≡ w.manager
unfolding persist_thread
persist-manager i channel_id now w =
    if_both {A = World} (λ q. q.manager ≡ w.manager) w.manager.repository refl refl

create_thread-there :
    (i channel_id : String) (now : ℕ) (db : Database)
    → any (is_thread i) (or_same (create_thread i channel_id none none now db) db).threads ≡ true
unfolding create_thread
create_thread-there i channel_id now db = elim (Bool-cases (any (is_thread i) db.threads)) [
  | inl e ↦ rw e (
      any-update (is_thread i) (is_thread i) (merge channel_id none none now) db.threads (λ t. refl)
      ∙ e)
  | inr e ↦ rw e (any-append_right (is_thread i) db.threads (_ ∷ []) (rw (eq_refl i) refl))
]

persist-there :
    (i channel_id : String) (now : ℕ) (w : World)
    → w.manager.repository ≡ true
    → any (is_thread i) (persist_thread i channel_id now w).db.threads ≡ true
unfolding persist_thread
persist-there i channel_id now w e = rw e (create_thread-there i channel_id now w.db)

add_key-there : (i : String) (pool : List String) → any (same i) (add_key i pool) ≡ true
add_key-there i pool = elim (Bool-cases (any (same i) pool)) [
  | inl e ↦ rw e e
  | inr e ↦ rw e (any-append_right (same i) pool (i ∷ []) (rw (eq_refl i) refl))
]

add_key-keeps :
    (i j : String) (pool : List String)
    → any (same j) pool ≡ true
    → any (same j) (add_key i pool) ≡ true
add_key-keeps i j pool h =
    if_both (λ q. any (same j) q ≡ true) (any (same i) pool) h
      (any-append_left (same j) pool (i ∷ []) h)

set_current-IsValid :
    (i channel_id : String) (now : ℕ) (w : World)
    → IsSound w.db
    → IsValid (persist_thread i channel_id now (set_current i w))
set_current-IsValid i channel_id now w h = (
  (persist-IsFollowed i channel_id now (set_current i w) h).0,
  (λ r. rw (persist-manager i channel_id now (set_current i w)) (
      rw
        (
          persist-there i channel_id now (set_current i w)
              (rw (persist-manager i channel_id now (set_current i w)) at r),
          add_key-there i w.manager.pool,
        )
        refl)),
)

touch-IsFollowed :
    (i channel_id : String) (now : ℕ) (db : Database)
    → IsSound db
    → IsFollowed db (touch_thread i channel_id now db)
unfolding touch_thread
touch-IsFollowed i channel_id now db h = go (get_thread i true db)
  where
    go :
        (o : Option ThreadInfo)
        → IsFollowed db (elim o [
          | none ↦ or_same (create_thread i channel_id none none now db) db
          | some t ↦ or_same (update_thread i (touched channel_id now) db) db
        ])
    go none =
        or_same-IsFollowed db (create_thread i channel_id none none now db) h
          (create_thread-StaysSound i channel_id none none now db h)
    go (some t) =
        or_same-IsFollowed db (update_thread i (touched channel_id now) db) h
          (update_thread-StaysSound i (touched channel_id now) db h)

persist-IsValid :
    (i channel_id : String) (now : ℕ) (w : World)
    → IsValid w
    → IsValid (persist_thread i channel_id now w)
unfolding persist_thread
persist-IsValid i channel_id now w h =
    if_both IsValid w.manager.repository
      (option-IsValid w (create_thread i channel_id none none now w.db)
        (create_thread-StaysSound i channel_id none none now w.db h.0) h)
      h

get_or_create-IsValid :
    (i channel_id : String) (now : ℕ) (w : World)
    → IsValid w
    → IsValid (get_or_create_thread i channel_id now w).1
unfolding get_or_create_thread
get_or_create-IsValid i channel_id now w h =
    if_case {A = Bool × World} (λ q. IsValid q.1) w.manager.repository
      (λ e.
        persist-IsValid i channel_id now
          (record w { manager = record w.manager { pool = add_key i w.manager.pool } })
          (h.0, (λ _. pooled w.manager.thread_id (h.1 e))))
      (λ _. h)
  where
    pooled :
        (t : Option String)
        → is_current t w.db w.manager.pool ≡ true
        → is_current t w.db (add_key i w.manager.pool) ≡ true
    pooled none q = q
    pooled (some j) q = split (any (is_thread j) w.db.threads) (any (same j) w.manager.pool) refl q
      where
        split :
            (a b : Bool)
            → any (same j) w.manager.pool ≡ b
            → (a && b) ≡ true
            → (a && any (same j) (add_key i w.manager.pool)) ≡ true
        split true true e k = add_key-keeps i j w.manager.pool e
        split true false e k = absurd (cc (k))
        split false b e k = absurd (cc (k))

module _ (digits : ℕ → String) where
  completes-IsValid :
      (t : Option String) (w : World)
      → IsValid w
      → IsValid (record w { manager = completes digits t w.manager })
  completes-IsValid none w h = h
  completes-IsValid (some i) w h =
      if_both (λ m. IsValid (record w { manager = m })) w.manager.has_bus h h

  rotate-IsValid : (now : ℕ) (w : World) → IsValid w → IsValid (rotate_thread digits now w).1
  unfolding rotate_thread
  rotate-IsValid now w h =
      if_case {A = Bool × World} (λ q. IsValid q.1) w.manager.repository
        (λ _.
          completes-IsValid w.manager.thread_id
            (persist_thread (orchestrator_id digits now) "unknown" now
              (set_current (orchestrator_id digits now) w))
            (set_current-IsValid (orchestrator_id digits now) "unknown" now w h.0))
        (λ e. (h.0, (λ r. absurd (cc (r, e)))))

  maybe_rotate-IsValid : (now : ℕ) (w : World) → IsValid w → IsValid (maybe_rotate digits now w).1
  unfolding maybe_rotate
  maybe_rotate-IsValid now w h =
      if_both {A = Bool × World} (λ q. IsValid q.1) (is_idle digits w.manager now)
        (if_both {A = Bool × World} (λ q. IsValid q.1) (rotate_thread digits now w).0
          (rotate-IsValid now w h) (rotate-IsValid now w h))
        h

  operate-IsValid : (o : Operation) (w : World) → IsValid w → IsValid (operate digits o w)
  unfolding operate set_thread configure_thread get_background_thread
  operate-IsValid (creates_thread i channel_id project_id title now) w h =
      option-IsValid w (create_thread i channel_id project_id title now w.db)
        (create_thread-StaysSound i channel_id project_id title now w.db h.0) h
  operate-IsValid (updates_thread i c) w h =
      option-IsValid w (update_thread i c w.db) (update_thread-StaysSound i c w.db h.0) h
  operate-IsValid (archives_thread i) w h =
      tables-IsValid w (archive_thread i w.db).1
        (or_same-IsFollowed w.db (some (archive_thread i w.db).1) h.0
          (archive_thread-StaysSound i w.db h.0))
        h
  operate-IsValid (binds_thread i p) w h =
      option-IsValid w (bind_thread i p w.db) (bind_thread-StaysSound i p w.db h.0) h
  operate-IsValid (creates_project p files links now) w h =
      option-IsValid w (create_project p files links now w.db)
        (create_project-StaysSound p files links now w.db h.0) h
  operate-IsValid (updates_project i c now) w h =
      option-IsValid w (update_project i c now w.db) (update_project-StaysSound i c now w.db h.0) h
  operate-IsValid (deletes_project i) w h =
      tables-IsValid w (delete_project i w.db).1
        (or_same-IsFollowed w.db (some (delete_project i w.db).1) h.0
          (delete_project-StaysSound i w.db h.0))
        h
  operate-IsValid (sets_thread i now) w h = set_current-IsValid i "unknown" now w h.0
  operate-IsValid (gets_or_creates_thread i channel_id now) w h =
      get_or_create-IsValid i channel_id now w h
  operate-IsValid (configures_thread timeout has_bus now) w h =
      set_current-IsValid (orchestrator_id digits now) "unknown" now
        (record w {
          manager = record w.manager {
            thread_timeout = timeout;
            has_bus = has_bus;
            repository = true;
          };
        })
        h.0
  operate-IsValid (rotates_thread now) w h = rotate-IsValid now w h
  operate-IsValid (maybe_rotates now) w h = maybe_rotate-IsValid now w h
  operate-IsValid (gets_background_thread now) w h =
      if_both {A = Option String × World} (λ q. IsValid q.1) w.manager.repository
        (persist-IsValid ("background_" +++ digits now) "unknown" now w h) h
  operate-IsValid (touches_thread i channel_id now) w h =
      tables-IsValid w (touch_thread i channel_id now w.db)
        (touch-IsFollowed i channel_id now w.db h.0) h

  -- However the operations of the repositories, the service and the thread manager follow each
  -- other: keys stay unique, no thread, file or link names a project that is not there, and once the
  -- manager is configured, its current thread has a row and a session.
  pub operate_all-IsValid :
      (os : List Operation) (w : World) → IsValid w → IsValid (operate_all digits os w)
  unfolding operate_all
  operate_all-IsValid [] w h = h
  operate_all-IsValid (o ∷ os) w h =
      operate_all-IsValid os (operate digits o w) (operate-IsValid o w h)
