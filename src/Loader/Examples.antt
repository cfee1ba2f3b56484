-- ===== src/Loader/Examples.antt =====
-- The loader on concrete manifests.
use yodoca.Base.{
  false, String, List, [], ◌∷◌, ◌≡◌, refl, Option, none, some, if◌then◌else◌, same, put, get,
}
use yodoca.Loader.Resolver.{Manifest, ordered, missing, resolve, by_id}
use yodoca.Loader.Boot.{
  ExtensionState, active, error, World, Loader, boot, load_all, initialize_all, start_all, fail,
  skip, mark_error, mark_active, service_fails, start_loop, initialize_loop, load_loop, add,
  initialize_one, check_deps_healthy, start_one, started, services_fail, record_diagnostic,
}
use yodoca.Loader.Boot.{shutdown}
use yodoca.Loader.Boot.Stopping.{ShutsDown, shutdown-ShutsDown}
use yodoca.Loader.Boot.{
  Diagnostic, starting, start_error, append_diagnostic, latest_diagnostic, history,
}
use yodoca.Loader.Boot.Histories.{IsBounded, append_diagnostic-IsBounded}
use yodoca.Loader.Boot.Booting.{Boots, boot-Boots}
use yodoca.Loader.Resolver.Resolving.{IsUnique, Resolves, resolve-Resolves}

abbrev bot : Manifest
bot = record { id = "bot"; depends_on = "kv" ∷ "memory" ∷ [] }

abbrev memory : Manifest
memory = record { id = "memory"; depends_on = "kv" ∷ [] }

abbrev store : Manifest
store = record { id = "kv"; depends_on = [] }

abbrev three : List Manifest
three = bot ∷ memory ∷ store ∷ []

three_ordered : resolve three ≡ ordered (store ∷ memory ∷ bot ∷ [])
unfolding resolve by_id
three_ordered = refl

no_manifest : resolve (bot ∷ memory ∷ []) ≡ missing "bot" "kv"
unfolding resolve by_id
no_manifest = refl

three-IsUnique : IsUnique three
unfolding by_id
three-IsUnique = (refl, (refl, (refl, tt)))

resolve-Resolves_example : Resolves three (resolve three)
resolve-Resolves_example = resolve-Resolves three three-IsUnique

-- The start of memory fails, and the service task of kv ends while memory starts.
abbrev unlucky : World
unlucky = record {
  create = λ id. none;
  config_error = λ id. none;
  initialize = λ id. none;
  start = λ id. if same id "memory" then some "no database" else none;
  is_service = λ id. same id "kv";
  failures = λ id. if same id "memory" then ("kv", "broken") ∷ [] else [];
}

states_of : Option Loader → List (String × ExtensionState)
states_of none = []
states_of (some l) = l.state

unlucky_states :
    states_of (boot unlucky three) ≡ ("kv", error) ∷ ("memory", error) ∷ ("bot", error) ∷ []
unfolding boot resolve by_id states_of load_all initialize_all start_all put get fail skip
    mark_error mark_active service_fails start_loop initialize_loop load_loop add initialize_one
    check_deps_healthy start_one started services_fail record_diagnostic
unlucky_states = refl

-- Nothing fails but the service task of kv, while memory starts.
abbrev lucky : World
lucky = record unlucky { start = λ id. none }

lucky_states :
    states_of (boot lucky three) ≡ ("kv", error) ∷ ("memory", active) ∷ ("bot", error) ∷ []
unfolding boot resolve by_id states_of load_all initialize_all start_all put get fail skip
    mark_error mark_active service_fails start_loop initialize_loop load_loop add initialize_one
    check_deps_healthy start_one started services_fail record_diagnostic
lucky_states = refl

boot-Boots_example : Boots unlucky three (boot unlucky three)
boot-Boots_example = boot-Boots unlucky three three-IsUnique

-- All three are loaded, and the service task of kv runs.
abbrev running : Loader
running = record {
  extensions = "kv" ∷ "memory" ∷ "bot" ∷ [];
  state = ("kv", active) ∷ ("memory", active) ∷ ("bot", active) ∷ [];
  diagnostics = [];
  services = "kv" ∷ [];
}

-- The task of kv ends by its cancellation; that of a bot would not.
shutdown-ShutsDown_example :
    ShutsDown three (same "bot") running (shutdown three (same "bot") running)
shutdown-ShutsDown_example = shutdown-ShutsDown three (same "bot") running three-IsUnique

abbrev no_database : Diagnostic
no_database = record {
  phase = starting;
  reason = start_error;
  message = "no database";
  dependency_chain = [];
}

append_diagnostic-IsBounded_example :
    IsBounded (append_diagnostic "memory" no_database [])
    × ((latest_diagnostic "memory" (append_diagnostic "memory" no_database []) ≡ some no_database)
        × ((j : String)
            → same "memory" j ≡ false
            → history j (append_diagnostic "memory" no_database []) ≡ history j []))
append_diagnostic-IsBounded_example = append_diagnostic-IsBounded "memory" no_database [] tt
