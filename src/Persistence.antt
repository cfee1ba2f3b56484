-- ===== src/Persistence.antt =====
-- core/extensions/persistence: the tables of schema.py, and thread_repository.py.
pub mod Projects
pub mod Manager
pub mod Integrity
pub mod Owning
pub mod Operating
pub mod Folding
pub mod Joining
pub mod Reading
pub mod Examples
use yodoca.Base.{
  or_old, ℕ, String, Bool, true, false, ◌&&◌, ◌||◌, not, Option, none, some, List, [], ◌∷◌, ◌++◌,
  ltb, ◌==◌, if◌then◌else◌, same, is_text, is_some, is_nil, select, update, find, any,
}
use yodoca.Base.Sort.{sort}

-- A row of `threads`, and what `_row_to_thread` makes of it.
pub record ThreadInfo : Type 0 where
  pub id : String
  pub project_id : Option String
  pub title : Option String
  pub channel_id : String
  pub created_at : ℕ
  pub last_active_at : ℕ
  pub is_archived : Bool

-- A row of `projects`, with the text of the agent's configuration.
pub record ProjectRow : Type 0 where
  pub id : String
  pub name : String
  pub description : Option String
  pub icon : Option String
  pub instructions : Option String
  pub agent_config : String
  pub created_at : ℕ
  pub updated_at : ℕ

-- A row of `project_files` with its path, or of `project_links` with its url.
pub record Attached : Type 0 where
  pub project_id : String
  pub value : String
  pub added_at : ℕ

pub record Database : Type 0 where
  pub threads : List ThreadInfo
  pub projects : List ProjectRow
  pub files : List Attached
  pub links : List Attached

abbrev pub is_thread : String → ThreadInfo → Bool
is_thread i t = same t.id i

abbrev pub is_project : String → ProjectRow → Bool
is_project i p = same p.id i

-- REFERENCES projects(id)
abbrev pub refers : List ProjectRow → Option String → Bool
refers projects none = true
refers projects (some p) = any (is_project p) projects

-- COALESCE(a, b)
abbrev pub coalesce : Option String → Option String → Option String
coalesce none b = b
coalesce (some a) b = some a

abbrev pub later : ℕ → ℕ → ℕ
later a b = if ltb a b then b else a

-- ON CONFLICT(thread_id) DO UPDATE SET …
abbrev pub merge : String → Option String → Option String → ℕ → ThreadInfo → ThreadInfo
merge channel_id project_id title now t = record t {
  project_id = coalesce project_id t.project_id;
  title = coalesce title t.title;
  channel_id = if same t.channel_id "unknown" then channel_id else t.channel_id;
  last_active_at = later t.last_active_at now;
}

unfoldable pub get_thread : String → Bool → Database → Option ThreadInfo
get_thread i include_archived db =
    find (λ t. is_thread i t && (include_archived || not t.is_archived)) db.threads

-- `none` is the violation of the foreign key.
unfoldable pub create_thread :
    String → String → Option String → Option String → ℕ → Database → Option Database
create_thread i channel_id project_id title now db =
    if refers db.projects project_id
    then some (
        if any (is_thread i) db.threads
        then record db {
          threads = update (is_thread i) (merge channel_id project_id title now) db.threads;
        }
        else record db {
          threads =
              db.threads
              ++ record {
                id = i;
                project_id = project_id;
                title = title;
                channel_id = channel_id;
                created_at = now;
                last_active_at = now;
                is_archived = false;
              }
                ∷ [];
        })
    else none

-- ORDER BY last_active_at DESC, created_at DESC, thread_id DESC
abbrev pub lists_before : (String → String → Bool) → ThreadInfo → ThreadInfo → Bool
lists_before text_before t u =
    ltb u.last_active_at t.last_active_at
    || u.last_active_at == t.last_active_at
      && (ltb u.created_at t.created_at || u.created_at == t.created_at && text_before u.id t.id)

abbrev pub none_or : (String → Bool) → Option String → Bool
none_or test none = true
none_or test (some t) = test t

-- `text_before` is the order of texts in SQLite.
unfoldable pub list_threads :
    (String → String → Bool) → Bool → Option String → Option String → Database → List ThreadInfo
list_threads text_before include_archived project_id channel_id db =
    sort (lists_before text_before) (
      select
        (λ t.
          (include_archived || not t.is_archived)
          && none_or (is_text t.project_id) project_id
          && none_or (same t.channel_id) channel_id)
        db.threads)

-- The arguments of `update_thread`; `none` is UNSET.
pub record ThreadChanges : Type 0 where
  pub title : Option (Option String)
  pub project_id : Option (Option String)
  pub is_archived : Option Bool
  pub last_active_at : Option ℕ
  pub channel_id : Option String

abbrev pub set_thread_fields : ThreadChanges → ThreadInfo → ThreadInfo
set_thread_fields c t = record t {
  title = or_old c.title t.title;
  project_id = or_old c.project_id t.project_id;
  is_archived = or_old c.is_archived t.is_archived;
  last_active_at = or_old c.last_active_at t.last_active_at;
  channel_id = or_old c.channel_id t.channel_id;
}

-- The UPDATE of `update_thread`: without an assignment there is none, and the foreign key is only
-- violated where there is a row.
unfoldable pub update_thread : String → ThreadChanges → Database → Option Database
update_thread i c db =
    if any (is_thread i) db.threads
    then if refers db.projects (or_old c.project_id none)
      then some (record db { threads = update (is_thread i) (set_thread_fields c) db.threads })
      else none
    else some db

-- The row count, and the table.
unfoldable pub archive_thread : String → Database → Bool × Database
archive_thread i db = (
  any (is_thread i) db.threads,
  record db { threads = update (is_thread i) (λ t. record t { is_archived = true }) db.threads },
)
