-- ===== src/Persistence/Examples.antt =====
-- The theorems on threads and projects on concrete tables.
use yodoca.Base.{String, ◌≡◌, refl, Bool, true, false, Option, none, some, List, [], ◌∷◌, same}
use yodoca.Persistence.{Database, ProjectRow}
use yodoca.Persistence.Projects.{ProjectInfo, get_project}
use yodoca.Persistence.Manager.{
  World, Operation, creates_project, binds_thread, configures_thread, maybe_rotates,
  deletes_project, touches_thread, operate_all,
}
use yodoca.Persistence.Operating.{IsValid, operate_all-IsValid}
use yodoca.Persistence.Reading.{IsAnswer, get_project-IsAnswer}

abbrev nothing_stored : Database
nothing_stored = record { threads = []; projects = []; files = []; links = [] }

abbrev new_world : World
new_world = record {
  db = nothing_stored;
  manager = record {
    thread_id = none;
    last_message_at = none;
    thread_timeout = 1800;
    repository = false;
    has_bus = false;
    pool = [];
    completed = [];
  };
}

new_world-IsValid : IsValid new_world
new_world-IsValid = (
  record {
    threads_apart = tt;
    projects_apart = tt;
    files_sound = (tt, tt);
    links_sound = (tt, tt);
    threads_bound = tt;
  },
  (λ r. absurd (cc (r))),
)

abbrev garden : ProjectRow
garden = record {
  id = "p";
  name = "garden";
  description = none;
  icon = none;
  instructions = some "be brief";
  agent_config = "{}";
  created_at = 0;
  updated_at = 0;
}

-- A project with a thread, an idle time, and the end of the project.
abbrev days : List Operation
days =
    configures_thread 1800 true 10
    ∷ creates_project garden ("a.md" ∷ "b.md" ∷ []) [] 11
    ∷ touches_thread "t" "cli" 12
    ∷ binds_thread "t" (some "p")
    ∷ maybe_rotates 13
    ∷ maybe_rotates 9999
    ∷ deletes_project "p"
    ∷ []

operate_all-IsValid_example : IsValid (operate_all (λ n. "1") days new_world)
operate_all-IsValid_example = operate_all-IsValid (λ n. "1") days new_world new_world-IsValid

abbrev two_files : Database
two_files = record nothing_stored {
  projects = garden ∷ [];
  files =
      record { project_id = "p"; value = "b.md"; added_at = 2 }
      ∷ record { project_id = "q"; value = "c.md"; added_at = 1 }
      ∷ record { project_id = "p"; value = "a.md"; added_at = 1 }
      ∷ [];
}

abbrev is_named : ProjectRow → Bool
is_named p = same p.name "garden"

get_project-IsAnswer_example :
    IsAnswer "p" is_named two_files (get_project (λ s t. false) "p" two_files)
get_project-IsAnswer_example = get_project-IsAnswer (λ s t. false) "p" is_named two_files (refl, tt)

names_of : Option ProjectInfo → List String
names_of none = []
names_of (some p) = p.files

-- The files come by the time at which they were added.
files_in_order : names_of (get_project (λ s t. false) "p" two_files) ≡ "a.md" ∷ "b.md" ∷ []
unfolding names_of get_project
files_in_order = refl
