-- ===== src/Persistence/Manager.antt =====
-- core/extensions/persistence/thread_manager.py, on the tables.
use Prim.Native.String.{◌++◌ as ◌+++◌}
use yodoca.Base.{
  ℕ, ◌+◌, String, Bool, true, false, Option, none, some, List, [], ◌∷◌, ◌++◌, ltb, if◌then◌else◌,
  same, any,
}
use yodoca.Persistence.{
  Database, ThreadChanges, ProjectRow, create_thread, get_thread, update_thread, archive_thread,
}
use yodoca.Persistence.Projects.{
  ProjectChanges, create_project, update_project, delete_project, bind_thread,
}

-- A session of the SDK is known by its id: `pool` has the keys of `_thread_pool`. `repository` says
-- that there is one, which is when the path is set. `completed` has the events thread.completed.
pub record Manager : Type 0 where
  pub thread_id : Option String
  pub last_message_at : Option ℕ
  pub thread_timeout : ℕ
  pub repository : Bool
  pub has_bus : Bool
  pub pool : List String
  pub completed : List String

pub record World : Type 0 where
  pub db : Database
  pub manager : Manager

abbrev pub or_same : Option Database → Database → Database
or_same none db = db
or_same (some db') db = db'

-- `self._thread_pool[thread_id] = …`
abbrev pub add_key : String → List String → List String
add_key i pool = if any (same i) pool then pool else pool ++ i ∷ []

-- `_persist_thread`; without a project the foreign key holds.
unfoldable pub persist_thread : String → String → ℕ → World → World
unfolding create_thread
persist_thread i channel_id now w =
    if w.manager.repository
    then record w { db = or_same (create_thread i channel_id none none now w.db) w.db }
    else w

abbrev pub set_current : String → World → World
set_current i w = record w {
  manager = record w.manager { thread_id = some i; pool = add_key i w.manager.pool };
}

unfoldable pub set_thread : String → ℕ → World → World
unfolding persist_thread
set_thread i now w = persist_thread i "unknown" now (set_current i w)

-- `false` is the RuntimeError.
unfoldable pub get_or_create_thread : String → String → ℕ → World → Bool × World
unfolding persist_thread
get_or_create_thread i channel_id now w =
    if w.manager.repository
    then (
      true,
      persist_thread i channel_id now
          (record w { manager = record w.manager { pool = add_key i w.manager.pool } }),
    )
    else (false, w)

-- `digits` prints a number.
module _ (digits : ℕ → String) where
  unfoldable pub orchestrator_id : ℕ → String
  orchestrator_id now = "orchestrator_" +++ digits now

  unfoldable pub configure_thread : ℕ → Bool → ℕ → World → World
  unfolding persist_thread orchestrator_id
  configure_thread timeout has_bus now w =
      let w' = record w {
        manager = record w.manager {
          thread_timeout = timeout;
          has_bus = has_bus;
          repository = true;
        };
      } in
      persist_thread (orchestrator_id now) "unknown" now (set_current (orchestrator_id now) w')

  -- `if self._event_bus and old_id: publish`
  abbrev pub completes : Option String → Manager → Manager
  completes none m = m
  completes (some i) m = if m.has_bus then record m { completed = m.completed ++ i ∷ [] } else m

  -- `false` is the RuntimeError, behind the assignment of the new id.
  unfoldable pub rotate_thread : ℕ → World → Bool × World
  unfolding persist_thread orchestrator_id
  rotate_thread now w =
      let w' =
        persist_thread (orchestrator_id now) "unknown" now (set_current (orchestrator_id now) w) in
      if w.manager.repository
      then (true, record w' { manager = completes w.manager.thread_id w'.manager })
      else (
        false,
        record w { manager = record w.manager { thread_id = some (orchestrator_id now) } },
      )

  -- `now - last > timeout`, over the whole numbers `now > last + timeout`.
  abbrev pub is_idle : Manager → ℕ → Bool
  is_idle m now = elim m.last_message_at [
    | none ↦ false
    | some last ↦ ltb (last + m.thread_timeout) now
  ]

  abbrev pub note_message : ℕ → World → World
  note_message now w = record w { manager = record w.manager { last_message_at = some now } }

  unfoldable pub maybe_rotate : ℕ → World → Bool × World
  unfolding rotate_thread
  maybe_rotate now w =
      let (ok, w') = rotate_thread now w in
      if is_idle w.manager now
      then if ok then (true, note_message now w') else (false, w')
      else (true, note_message now w)

  -- The id of the session, where there is one.
  unfoldable pub get_background_thread : ℕ → World → Option String × World
  unfolding persist_thread
  get_background_thread now w =
      let i = "background_" +++ digits now in
      if w.manager.repository then (some i, persist_thread i "unknown" now w) else (none, w)

-- `touch_thread`, with a repository.
abbrev pub touched : String → ℕ → ThreadChanges
touched channel_id now = record {
  title = none;
  project_id = none;
  is_archived = some false;
  last_active_at = some now;
  channel_id = some channel_id;
}

unfoldable pub touch_thread : String → String → ℕ → Database → Database
unfolding create_thread update_thread get_thread
touch_thread i channel_id now db = elim (get_thread i true db) [
  | none ↦ or_same (create_thread i channel_id none none now db) db
  | some t ↦ or_same (update_thread i (touched channel_id now) db) db
]

-- A call of the repositories, of the service or of the manager, with the time that it reads.
pub data Operation : Type 0 where
  creates_thread : String → String → Option String → Option String → ℕ → Operation
  updates_thread : String → ThreadChanges → Operation
  archives_thread : String → Operation
  binds_thread : String → Option String → Operation
  creates_project : ProjectRow → List String → List String → ℕ → Operation
  updates_project : String → ProjectChanges → ℕ → Operation
  deletes_project : String → Operation
  sets_thread : String → ℕ → Operation
  gets_or_creates_thread : String → String → ℕ → Operation
  configures_thread : ℕ → Bool → ℕ → Operation
  rotates_thread maybe_rotates : ℕ → Operation
  gets_background_thread : ℕ → Operation
  touches_thread : String → String → ℕ → Operation

-- What an operation leaves. An exception of SQLite leaves the tables as they were.
module _ (digits : ℕ → String) where
  unfoldable pub operate : Operation → World → World
  unfolding create_thread update_thread archive_thread bind_thread create_project update_project
      delete_project set_thread get_or_create_thread configure_thread rotate_thread maybe_rotate
      get_background_thread touch_thread
  operate (creates_thread i channel_id project_id title now) w = record w {
    db = or_same (create_thread i channel_id project_id title now w.db) w.db;
  }
  operate (updates_thread i c) w = record w { db = or_same (update_thread i c w.db) w.db }
  operate (archives_thread i) w = record w { db = (archive_thread i w.db).1 }
  operate (binds_thread i p) w = record w { db = or_same (bind_thread i p w.db) w.db }
  operate (creates_project p files links now) w = record w {
    db = or_same (create_project p files links now w.db) w.db;
  }
  operate (updates_project i c now) w = record w { db = or_same (update_project i c now w.db) w.db }
  operate (deletes_project i) w = record w { db = (delete_project i w.db).1 }
  operate (sets_thread i now) w = set_thread i now w
  operate (gets_or_creates_thread i channel_id now) w = (get_or_create_thread i channel_id now w).1
  operate (configures_thread timeout has_bus now) w = configure_thread digits timeout has_bus now w
  operate (rotates_thread now) w = (rotate_thread digits now w).1
  operate (maybe_rotates now) w = (maybe_rotate digits now w).1
  operate (gets_background_thread now) w = (get_background_thread digits now w).1
  operate (touches_thread i channel_id now) w = record w { db = touch_thread i channel_id now w.db }

  unfoldable pub operate_all : List Operation → World → World
  unfolding operate
  operate_all [] w = w
  operate_all (o ∷ os) w = operate_all os (operate o w)
