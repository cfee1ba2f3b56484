-- ===== src/Loader/Boot.antt =====
-- core/extensions/loader: loading, initializing and starting the extensions in the order of their
-- dependencies (loader.py), their states (lifecycle.py) and diagnostics (diagnostics_manager.py).
pub mod States
pub mod Loaded
pub mod Loading
pub mod Initializing
pub mod Failing
pub mod Starting
pub mod Booting
pub mod Histories
pub mod Stopping
use yodoca.Base.{
  ℕ, zero, suc, ◌-◌, String, Bool, true, false, not, Option, none, some, List, [], ◌∷◌, ◌++◌,
  length, drop, reverse, map, if◌then◌else◌, same, any, select, get, put,
}
use yodoca.Loader.Resolver.{
  Manifest, Resolved, ordered, missing, cyclic, unresolved, is_member, remove, by_id, resolve,
}

pub data ExtensionState : Type 0 where
  inactive active error : ExtensionState

pub data Phase : Type 0 where
  loading config_validate initializing starting : Phase

pub data Reason : Type 0 where
  import_error config_invalid init_error start_error dependency_failed : Reason

pub record Diagnostic : Type 0 where
  pub phase : Phase
  pub reason : Reason
  pub message : String
  pub dependency_chain : List String

-- The dictionaries of the Loader: the extensions by their ids, their states, the histories of the
-- diagnostics and the running service tasks.
pub record Loader : Type 0 where
  pub extensions : List String
  pub state : List (String × ExtensionState)
  pub diagnostics : List (String × List Diagnostic)
  pub services : List String

-- The extensions' own code, by id: the messages of the errors of create, of the validation of the
-- configuration, of initialize and of start; and the service tasks that end in an error, with its
-- message, while start is awaited.
pub record World : Type 0 where
  pub create : String → Option String
  pub config_error : String → Option String
  pub initialize : String → Option String
  pub start : String → Option String
  pub is_service : String → Bool
  pub failures : String → List (String × String)

abbrev pub is_error : Option ExtensionState → Bool
is_error none = false
is_error (some inactive) = false
is_error (some active) = false
is_error (some error) = true

abbrev pub is_inactive : Option ExtensionState → Bool
is_inactive none = false
is_inactive (some inactive) = true
is_inactive (some active) = false
is_inactive (some error) = false

unfoldable pub mark_error : String → Loader → Loader
mark_error id l = record l { state = put id error l.state }

-- `none` is the ValueError.
unfoldable pub mark_active : String → Loader → Option Loader
mark_active id l =
    if is_inactive (get id l.state) then some (record l { state = put id active l.state }) else none

abbrev pub max_diagnostics : ℕ
max_diagnostics = 10

unfoldable pub history : String → List (String × List Diagnostic) → List Diagnostic
history id d = elim (get id d) [ some h ↦ h | none ↦ [] ]

-- del history[:-10]
unfoldable pub append_diagnostic :
    String → Diagnostic → List (String × List Diagnostic) → List (String × List Diagnostic)
unfolding history
append_diagnostic id new d =
    put id (drop (length (history id d ++ new ∷ []) - max_diagnostics) (history id d ++ new ∷ [])) d

-- history[-1]
unfoldable pub last_of : List Diagnostic → Option Diagnostic
last_of [] = none
last_of (d ∷ []) = some d
last_of (d ∷ e ∷ ds) = last_of (e ∷ ds)

-- `get_extension_diagnostic` with latest_only.
unfoldable pub latest_diagnostic : String → List (String × List Diagnostic) → Option Diagnostic
unfolding last_of history
latest_diagnostic id d = last_of (history id d)

unfoldable pub record_diagnostic : String → Phase → Reason → String → List String → Loader → Loader
record_diagnostic id phase reason message chain l = record l {
  diagnostics =
      append_diagnostic id
        (record { phase = phase; reason = reason; message = message; dependency_chain = chain })
        l.diagnostics;
}

-- mark_error and record_diagnostic, as every handler of an exception calls them.
unfoldable pub fail : String → Phase → Reason → String → List String → Loader → Loader
fail id phase reason message chain l =
    record_diagnostic id phase reason message chain (mark_error id l)

-- `_skip_due_to_failed_deps` where there are failed dependencies; the message that spells out the phase
-- and the chain is left out.
unfoldable pub skip : String → List String → Phase → Loader → Loader
skip id failed phase l = fail id phase dependency_failed "" failed l

-- extensions[id] = ext
unfoldable pub add : String → List String → List String
add id ids = if is_member id ids then ids else ids ++ id ∷ []

-- The loop of `load_all`; `failed` is `failed_ids`.
unfoldable pub load_loop : World → List Manifest → List String → Loader → Loader
load_loop w [] failed l = l
load_loop w (m ∷ rest) failed l = elim (select (λ d. is_member d failed) m.depends_on) [
  | d ∷ ds ↦ load_loop w rest (m.id ∷ failed) (skip m.id (d ∷ ds) loading l)
  | [] ↦ elim (w.create m.id) [
    | some message ↦ load_loop w rest (m.id ∷ failed) (fail m.id loading import_error message [] l)
    | none ↦
        load_loop w rest failed
          (record l { extensions = add m.id l.extensions; state = put m.id inactive l.state })
  ]
]

-- The three dictionaries are cleared first.
unfoldable pub load_all : World → List Manifest → Loader
load_all w order =
    load_loop w order [] (record { extensions = []; state = []; diagnostics = []; services = [] })

unfoldable pub check_deps_healthy : List Manifest → String → Loader → List String
check_deps_healthy ms id l = elim (by_id ms id) [
  | none ↦ []
  | some m ↦ select (λ d. is_error (get d l.state)) m.depends_on
]

-- One round of the loop of `initialize_all` for an inactive extension.
unfoldable pub initialize_one : World → List Manifest → String → Loader → Loader
initialize_one w ms id l = elim (by_id ms id) [
  | none ↦ l
  | some m ↦ elim (w.config_error id) [
    | some message ↦ fail id config_validate config_invalid message [] l
    | none ↦ elim (check_deps_healthy ms id l) [
      | d ∷ ds ↦ skip id (d ∷ ds) initializing l
      | [] ↦ elim (w.initialize id) [
        | some message ↦ fail id initializing init_error message [] l
        | none ↦ l
      ]
    ]
  ]
]

unfoldable pub initialize_loop : World → List Manifest → List String → Loader → Loader
initialize_loop w ms [] l = l
initialize_loop w ms (id ∷ ids) l =
    initialize_loop w ms ids (if is_inactive (get id l.state) then initialize_one w ms id l else l)

unfoldable pub initialize_all : World → List Manifest → Loader → Loader
initialize_all w ms l = initialize_loop w ms l.extensions l

-- `_on_error` of a service task, if the task runs.
unfoldable pub service_fails : String → String → Loader → Loader
service_fails id message l =
    if is_member id l.services
    then record (fail id starting start_error message [] l) { services = remove id l.services }
    else l

unfoldable pub services_fail : List (String × String) → Loader → Loader
services_fail [] l = l
services_fail ((id, message) ∷ rest) l = services_fail rest (service_fails id message l)

-- What follows the await of `start`.
unfoldable pub started : World → String → Loader → Loader
started w id l = elim (w.start id) [
  | some message ↦ fail id starting start_error message [] l
  | none ↦ elim (mark_active id l) [
    | none ↦ fail id starting start_error "Invalid transition" [] l
    | some l' ↦ if w.is_service id then record l' { services = add id l'.services } else l'
  ]
]

unfoldable pub start_one : World → List Manifest → String → Loader → Loader
start_one w ms id l = elim (check_deps_healthy ms id l) [
  | d ∷ ds ↦ skip id (d ∷ ds) starting l
  | [] ↦ started w id (services_fail (w.failures id) l)
]

unfoldable pub start_loop : World → List Manifest → List String → Loader → Loader
start_loop w ms [] l = l
start_loop w ms (id ∷ ids) l =
    start_loop w ms ids (if is_inactive (get id l.state) then start_one w ms id l else l)

unfoldable pub start_all : World → List Manifest → Loader → Loader
start_all w ms l = start_loop w ms l.extensions l

-- The three stages one after the other; `none` is the ValueError of the resolver.
unfoldable pub boot : World → List Manifest → Option Loader
boot w ms = elim (resolve ms) [
  | ordered order ↦ some (start_all w ms (initialize_all w ms (load_all w order)))
  | missing id dep ↦ none
  | cyclic id ↦ none
  | unresolved ↦ none
]

pub data Call : Type 0 where
  task_stopped stopped destroyed : (id : String) → Call

-- The loop of `shutdown`; what `stop` and `destroy` raise is caught.
unfoldable pub stop_calls : List String → List Manifest → List Call
stop_calls ids [] = []
stop_calls ids (m ∷ ms) =
    let rest = stop_calls ids ms in
    if is_member m.id ids then stopped m.id ∷ destroyed m.id ∷ rest else rest

-- The loop of `shutdown` over the service tasks: the calls, and the services that are left.
-- `raises id`: the task of this service, when it is cancelled and awaited, raises another exception
-- than CancelledError, which `TaskSupervisor.stop` does not catch.
unfoldable pub stop_tasks : (String → Bool) → List String → List Call × List String
stop_tasks raises [] = ([], [])
stop_tasks raises (id ∷ ids) =
    let (calls, left) = stop_tasks raises ids in
    if raises id then (task_stopped id ∷ [], id ∷ ids) else (task_stopped id ∷ calls, left)

-- How a shutdown ends, with its calls: at its end, by the exception of a service's task, or by the
-- ValueError of the resolver.
pub data Shutdown : Type 0 where
  ended unordered : List Call → Loader → Shutdown
  aborted : (id : String) → List Call → Loader → Shutdown

-- The rest of `shutdown` behind the service tasks.
unfoldable pub stop_extensions : List Manifest → Loader → List Call × List String → Shutdown
unfolding stop_calls
stop_extensions ms l (calls, id ∷ left) = aborted id calls (record l { services = id ∷ left })
stop_extensions ms l (calls, []) = elim (resolve ms) [
  | ordered order ↦
      ended (calls ++ stop_calls l.extensions (reverse order)) (record l { services = [] })
  | missing id dep ↦ unordered calls (record l { services = [] })
  | cyclic id ↦ unordered calls (record l { services = [] })
  | unresolved ↦ unordered calls (record l { services = [] })
]

unfoldable pub shutdown : List Manifest → (String → Bool) → Loader → Shutdown
unfolding stop_tasks stop_extensions
shutdown ms raises l = stop_extensions ms l (stop_tasks raises l.services)
