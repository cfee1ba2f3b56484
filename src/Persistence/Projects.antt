-- ===== src/Persistence/Projects.antt =====
-- core/extensions/persistence: project_repository.py and project_service.py.
use Prim.Native.Char.{Char}
use yodoca.Base.{
  or_old, ℕ, String, Bool, true, false, ◌&&◌, ◌||◌, not, Option, none, some, List, [], ◌∷◌, ◌++◌,
  map, ltb, ◌==◌, if◌then◌else◌, same, is_text, is_empty, is_nil, head?, select, update, delete,
  any, strip,
}
use yodoca.Base.Sort.{sort}
use yodoca.Persistence.{
  Database, ThreadInfo, ThreadChanges, ProjectRow, Attached, is_project, get_thread, update_thread,
}

pub record ProjectInfo : Type 0 where
  pub row : ProjectRow
  pub files : List String
  pub links : List String

-- A row of the two LEFT JOINs.
pub record JoinRow : Type 0 where
  pub project : ProjectRow
  pub file : Option Attached
  pub link : Option Attached

abbrev pub is_attached_to : String → Attached → Bool
is_attached_to i a = same a.project_id i

abbrev pub is_entry : String → String → Attached → Bool
is_entry i v a = is_attached_to i a && same a.value v

-- Without a partner a row is joined with NULL.
abbrev pub or_null : List Attached → List (Option Attached)
or_null [] = none ∷ []
or_null (a ∷ as') = map some (a ∷ as')

abbrev pub with_links : ProjectRow → Option Attached → List (Option Attached) → List JoinRow
with_links p f [] = []
with_links p f (l ∷ ls) = record { project = p; file = f; link = l } ∷ with_links p f ls

abbrev pub with_files : ProjectRow → List (Option Attached) → List (Option Attached) → List JoinRow
with_files p [] ls = []
with_files p (f ∷ fs) ls = with_links p f ls ++ with_files p fs ls

abbrev pub join : List ProjectRow → Database → List JoinRow
join [] db = []
join (p ∷ ps) db =
    with_files p (or_null (select (is_attached_to p.id) db.files))
      (or_null (select (is_attached_to p.id) db.links))
    ++ join ps db

-- `if isinstance(value, str) and value not in values: values.append(value)`
abbrev pub add_new : Option Attached → List String → List String
add_new none values = values
add_new (some a) values = if any (same a.value) values then values else values ++ a.value ∷ []

abbrev pub extend : JoinRow → ProjectInfo → ProjectInfo
extend r p = record p { files = add_new r.file p.files; links = add_new r.link p.links }

abbrev pub add_row : JoinRow → List ProjectInfo → List ProjectInfo
add_row r [] = extend r (record { row = r.project; files = []; links = [] }) ∷ []
add_row r (p ∷ ps) =
    let rest = add_row r ps in if same p.row.id r.project.id then extend r p ∷ ps else p ∷ rest

-- `_rows_to_projects` from the projects that are there on.
abbrev pub rows_to_projects : List JoinRow → List ProjectInfo → List ProjectInfo
rows_to_projects [] ps = ps
rows_to_projects (r ∷ rs) ps = rows_to_projects rs (add_row r ps)

-- `text_before` is the order of texts in SQLite.
module _ (text_before : String → String → Bool) where
  -- COALESCE(added_at, 0) ASC, value ASC, with NULL first.
  abbrev pub comes_before : Option Attached → Option Attached → Bool
  comes_before (some a) (some b) =
      ltb a.added_at b.added_at || a.added_at == b.added_at && text_before a.value b.value
  comes_before none (some b) = true
  comes_before a none = false

  abbrev pub row_before : JoinRow → JoinRow → Bool
  row_before r q =
      comes_before r.file q.file || not (comes_before q.file r.file) && comes_before r.link q.link

  unfoldable pub get_project : String → Database → Option ProjectInfo
  get_project i db =
      head? (rows_to_projects (sort row_before (join (select (is_project i) db.projects) db)) [])

  -- ORDER BY p.updated_at DESC, p.created_at DESC, p.id DESC
  abbrev pub project_before : JoinRow → JoinRow → Bool
  project_before r q =
      ltb q.project.updated_at r.project.updated_at
      || q.project.updated_at == r.project.updated_at
        && (ltb q.project.created_at r.project.created_at
            || q.project.created_at == r.project.created_at
              && text_before q.project.id r.project.id)

  unfoldable pub list_projects : Database → List ProjectInfo
  list_projects db = rows_to_projects (sort project_before (join db.projects db)) []

-- The INSERTs of `_replace_files` and `_replace_links`; `none` is the violation of the primary key.
abbrev pub attach_all : List String → String → ℕ → List Attached → Option (List Attached)
attach_all [] i now t = some t
attach_all (v ∷ vs) i now t =
    let rest =
      attach_all vs i now (t ++ record { project_id = i; value = v; added_at = now } ∷ []) in
    if any (is_entry i v) t then none else rest

unfoldable pub replace : List String → String → ℕ → List Attached → Option (List Attached)
replace vs i now t = attach_all vs i now (delete (is_attached_to i) t)

-- UNSET leaves the table as it is.
abbrev pub replace_given :
    Option (List String) → String → ℕ → List Attached → Option (List Attached)
replace_given none i now t = some t
replace_given (some vs) i now t = replace vs i now t

-- Both tables are written, or the transaction is rolled back.
abbrev pub both : Option (List Attached) → Option (List Attached) → Database → Option Database
both none ls db = none
both (some fs) none db = none
both (some fs) (some ls) db = some (record db { files = fs; links = ls })

-- `none` is the violation of a primary key.
unfoldable pub create_project :
    ProjectRow → List String → List String → ℕ → Database → Option Database
unfolding replace
create_project p files links now db =
    if any (is_project p.id) db.projects
    then none
    else both (replace files p.id now db.files) (replace links p.id now db.links) (record db {
      projects = db.projects ++ record p { created_at = now; updated_at = now } ∷ [];
    })

-- The arguments of `update_project`; `none` is UNSET.
pub record ProjectChanges : Type 0 where
  pub name : Option String
  pub description : Option (Option String)
  pub icon : Option (Option String)
  pub instructions : Option (Option String)
  pub agent_config : Option String
  pub files : Option (List String)
  pub links : Option (List String)

abbrev pub set_project_fields : ProjectChanges → ℕ → ProjectRow → ProjectRow
set_project_fields c now p = record p {
  name = or_old c.name p.name;
  description = or_old c.description p.description;
  icon = or_old c.icon p.icon;
  instructions = or_old c.instructions p.instructions;
  agent_config = or_old c.agent_config p.agent_config;
  updated_at = now;
}

abbrev pub is_unset : ProjectChanges → Bool
is_unset c =
    is_nil c.name
    && is_nil c.description
    && is_nil c.icon
    && is_nil c.instructions
    && is_nil c.agent_config
    && is_nil c.files
    && is_nil c.links

unfoldable pub update_project : String → ProjectChanges → ℕ → Database → Option Database
unfolding replace
update_project i c now db =
    if is_unset c || not (any (is_project i) db.projects)
    then some db
    else both (replace_given c.files i now db.files) (replace_given c.links i now db.links)
        (record db { projects = update (is_project i) (set_project_fields c now) db.projects })

-- ON DELETE SET NULL
abbrev pub unbind : String → ThreadInfo → ThreadInfo
unbind i t = record t { project_id = none }

-- The row count, and the tables. Files and links go by ON DELETE CASCADE.
unfoldable pub delete_project : String → Database → Bool × Database
delete_project i db = (
  any (is_project i) db.projects,
  if any (is_project i) db.projects
      then record {
        threads = update (λ t. is_text t.project_id i) (unbind i) db.threads;
        projects = delete (is_project i) db.projects;
        files = delete (is_attached_to i) db.files;
        links = delete (is_attached_to i) db.links;
      }
      else db,
)

-- The changes of a thread that only bind it.
abbrev pub binding : Option String → ThreadChanges
binding project_id = record {
  title = none;
  project_id = some project_id;
  is_archived = none;
  last_active_at = none;
  channel_id = none;
}

-- `none` is the ValueError, and the violation of the foreign key.
unfoldable pub bind_thread : String → Option String → Database → Option Database
unfolding update_thread
bind_thread thread_id none db = update_thread thread_id (binding none) db
bind_thread thread_id (some p) db =
    if any (is_project p) db.projects then update_thread thread_id (binding (some p)) db else none

-- The instructions of a project, unless they are missing or blank.
abbrev pub unless_blank : (Char → Bool) → Option String → Option String
unless_blank is_space none = none
unless_blank is_space (some t) = if is_empty (strip is_space t) then none else some t

abbrev pub instructions_of : (Char → Bool) → Option ProjectInfo → Option String
instructions_of is_space none = none
instructions_of is_space (some p) = unless_blank is_space p.row.instructions

abbrev pub project_of : Option ThreadInfo → Option String
project_of none = none
project_of (some t) = t.project_id

abbrev pub instructions_for :
    (String → String → Bool) → (Char → Bool) → Option String → Database → Option String
instructions_for text_before is_space none db = none
instructions_for text_before is_space (some p) db =
    if is_empty p then none else instructions_of is_space (get_project text_before p db)

unfoldable pub get_project_instructions :
    (String → String → Bool) → (Char → Bool) → String → Database → Option String
unfolding get_thread get_project
get_project_instructions text_before is_space thread_id db =
    instructions_for text_before is_space (project_of (get_thread thread_id true db)) db
