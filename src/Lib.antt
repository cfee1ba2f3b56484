-- ===== src/Lib.antt =====
-- Yodoca: the event journal and bus, the loader of the extensions, the registry of the agents, the
-- task engine, the threads and projects, the scheduler, the key-value store and the inbox.
--
-- The program is an assistant whose extensions talk over a durable event bus. `EventJournal`
-- (core/events/journal.py) keeps every event as a row of a SQLite table until it is delivered.
-- `EventBus` (core/events/bus.py) inserts events, claims the oldest pending ones in batches, calls
-- the handlers of their topics and settles each event as done, pending again or dead letter; its
-- watchdog resets events whose delivery has stalled. The task engine
-- (sandbox/extensions/task_engine) keeps background tasks in a second database: it submits tasks and
-- chains of tasks, a worker claims one task at a time under a lease, runs an agent on it step by
-- step with a checkpoint after each step, and reports its end by an event on the bus, whose handler
-- resumes the parent of the task and unblocks or fails its successors. The loader
-- (core/extensions/loader) sorts the extensions by their dependencies and loads, initializes and
-- starts them; the registry (core/agents/registry.py) holds the agents that they provide. The
-- conversations are threads, which may belong to projects (core/extensions/persistence); the thread
-- manager keeps the current one and replaces it after an idle time. The
-- scheduler (sandbox/extensions/scheduler) keeps one-shot and recurring schedules in a database and
-- publishes their events on the bus when they are due. Two of the extensions keep data for the
-- others: the key-value store (sandbox/extensions/kv) a file of texts, and the inbox
-- (sandbox/extensions/inbox) the versions of items that come from other systems.
--
-- Files and code:
-- - Base: lists as tables (select, update, delete, count, find), stable sorting for ORDER BY, tables
--   compared row by row, keys, dictionaries as lists of entries, texts and str.strip.
-- - Loader/Resolver: core/extensions/loader/dependency_resolver.py, with the sets and the list of
--   a traversal as a record. Visiting, Ordering and Resolving hold the laws.
-- - Loader/Boot: load_all, initialize_all and start_all of core/extensions/loader/loader.py, with
--   lifecycle.py (mark_active, mark_error) and diagnostics_manager.py beside it. `boot` is the three
--   one after the other. States says why each state is as it is; Loaded, Loading, Initializing,
--   Failing and Starting follow the stages, Booting puts them together; Stopping is about shutdown,
--   Histories about the diagnostics.
-- - Agents: core/agents/registry.py. The two halves of invoke are begin_invoke and end_invoke; Step
--   and Reaches let any calls come between them.
-- - Kv: sandbox/extensions/kv/main.py, _FileStore and the tools kv_set and kv_get.
-- - Inbox: sandbox/extensions/inbox/repository.py, one function for each method, on a record with
--   both tables. Finding, Versions and Changing hold the laws of the tables, Upserting those of
--   upsert_item, Reading those of the lists, marks and cursors.
-- - Events/Journal: core/events/journal.py. One function for each statement, on a record with the
--   rows of both tables and the next key. Rows holds the types, Claims, Returned and Recovery the laws
--   of claim_pending and recover_stale, Validity the invariant of the journal.
-- - Events/Bus: core/events/bus.py. A handler is a function of the call number and the event to its
--   outcome and the effects on the bus until it ends, its own and those of other tasks: publishing,
--   a round of the watchdog, purging, the flag of stop and its cancellation of the dispatch task.
--   The outcome `interrupted` is an exception that `except Exception` lets pass, as that of the
--   cancellation. dispatch_loop takes one list of effects for each wait, and a cancellation among
--   them ends it. Settling and Invariant hold the laws.
-- - Persistence: core/extensions/persistence. Persistence has the tables and thread_repository.py,
--   Persistence/Projects project_repository.py and project_service.py, Persistence/Manager
--   thread_manager.py. A function that writes returns the tables, and `none` where the code raises;
--   the row that it answers with is get_thread or get_project of these tables, which is None where
--   the code returns None. Integrity and Owning are about keys and foreign keys, Operating about all
--   operations, Folding, Joining and Reading about get_project.
-- - Scheduler: sandbox/extensions/scheduler/main.py. Scheduler has both tables and the statements of
--   _SchedulerStore, Scheduler/Recurrence those that compute a next time, Scheduler/Tools the tools,
--   Scheduler/Rounds start and run_background as a machine: an Action is a step to the next await, a
--   call of a tool, or a restart of the process with the tables as they are. What is published and
--   purged on the bus is noted as effects of Events/Bus. Changing and Serving have the effect of the
--   statements and tools on the rest, Emissions and Delivery are about how often a schedule is
--   emitted, Usable and Running about why croniter may end the loop, Recovering about
--   recover_recurring, Cancelling and Refusing about the tools.
-- - Tasks/Rows and Tasks/State: models.py, schema.py and state.py of the task engine.
-- - Tasks/Queue, Tasks/Worker, Tasks/Worker/Run and Tasks/Marker: worker.py. Queue has the claims and
--   leases, Worker the steps and loops, Run the end of execute_task, Marker the completion marker.
-- - Tasks/Chains, Tasks/Subtasks, Tasks/Review, Tasks/Cleanup, Tasks/Queries: chains.py, subtasks.py,
--   hitl.py, cleanup.py and task_queries.py.
-- - Tasks/Submission and Tasks/Engine: main.py, the submission of tasks and chains, the handler of
--   task.completed, and one pass of run_background.
--
-- Conventions. A function that awaits the database takes the tables and returns them; an exception
-- is `none` or a value of Raised. The clock is a function of the number of its readings so far, so
-- that nothing is assumed of it, not even that it grows; task times are in microseconds and
-- `int(time.time())` is a division. uuid.uuid4 is a function of the number of ids drawn.
-- json.dumps and json.loads are the record Json, with their round trip as its law; the order of
-- UPDATE … RETURNING is the record Returning, with the law that it gives the same rows. Agents are
-- the record World: an agent may answer anything and change the database in any way, which stands
-- for tools, other tasks and the keepalive of the lease. The code of the extensions is the record
-- World of Loader/Boot: the errors that their creation, configuration, initialize and start end in,
-- and the service tasks that fail while a start is awaited; the code may do nothing else to the
-- loader. Which service tasks raise when they are cancelled is an argument of shutdown. The file values.json is kept by what json.loads makes of it; fnmatch, the white space of
-- str.strip and the hash of a payload are functions that the definitions take. Times of the
-- scheduler are whole numbers, and a tool reads the time once; the record Cron is croniter, which
-- has or has not a next time by the expression and the given time, with the law that the next time
-- lies behind the given one, and the parser and printer of times, which may fail. The
-- emission of an event by the scheduler does not fail, and a failed purge is noted like another.
--
-- Bounds. The cascade of failures and the levels of a cancellation run on fuel, and `none` is that
-- it ran out; more fuel than there are blocked tasks is enough for both. get_subtask_depth
-- follows at most max_subtask_depth + 1 parents, as its loop does. The visit of the resolver has one
-- level of recursion more than there are manifests, and `unresolved` is that this was too little.
-- All other loops are structural: the step loop runs over the steps left.
--
-- Not modelled: a cancellation of the dispatch task while it awaits the database; connections, schema creation and migrations, logging, the text of the prompts, the
-- columns idempotency_key, input_ref and output_ref; the payload, result and checkpoint columns are
-- in parsed form, with the default values of absent keys filled in. A task row that is inserted is
-- taken to have a new id by uuid4. Of the loader, discovery and import, health checks, reports and
-- the wiring of protocols are left out, and so are the texts of messages and the exception of a
-- diagnostic; rows that ORDER BY does not tell apart come by rowid; a limit or an offset of the
-- inbox that is negative is not a number here. The messages of a thread, which are in tables of the
-- SDK, are left out. The other parts of the program (routing, the factory of the agents, models,
-- channels and the other extensions) are outside of this library.
pub mod Base
pub mod Loader
pub mod Kv
pub mod Inbox
pub mod Agents
pub mod Events
pub mod Persistence
pub mod Scheduler
pub mod Tasks
