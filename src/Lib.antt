-- ===== src/Lib.antt =====
-- The orchestrator's API service, and the records that the rest of the system is driven from.
--
-- Users describe a product to a bot; the orchestrator turns it into stories, an architect splits a
-- story into tasks, workers carry the tasks out, and deploys and QA follow as runs. The API service
-- (services/api) owns the database in which all of this is recorded. The scheduler, the workers and
-- the bot only ask it to move a record, so what can happen to a story, a task, a run or a temporary
-- access grant is what the API's endpoints do. This development models those endpoints, and
-- parts of the services that call them.
--
-- Parts, and the code that they stand for:
--
-- * `Contracts` (shared/contracts, shared/models, services/api/src/schemas): statuses as data types,
--   table rows and request bodies as records. `Column` is a text column that holds an enum's value,
--   or a text that is no member; `Patch` is a field of a partial update, which is unset, or set,
--   perhaps to `None`; `Json` is a JSON column, whose texts in ISO format are `moment`s.
-- * `Session` (services/api/src/database.py): one request is one session over the tables `Db`.
--   A handler is a `Handler`: it reads and changes the session's rows, `commit` makes them the
--   database's, and what is not committed is dropped, whether the handler returned or raised. What
--   it publishes is gone at once. `Env` holds what a request meets outside: the clock, the random
--   text of a new id, whether the broker takes a message, and whether the database accepts the
--   foreign keys of a new row. `respond` runs a handler: its answer (a value, or the status of the
--   error), the database, and the messages.
-- * `Actor` (services/api/src/dependencies.py): `resolve_actor` and `require_internal_or_admin`.
-- * `Recipients` (services/api/src/routers/_recipients.py and _ownership.py): the chat of a
--   project's owner, and the run that opened a project.
-- * `Tasks` (services/api/src/routers/_task_actions.py, _task_helpers.py, tasks.py): every endpoint
--   that changes tasks, `Tasks.Requests.handle_task` for a request, `serve_tasks` for a sequence.
--   `Tasks.Steps` is the abstract machine: moves along the transition table, each with its event.
-- * `Stories` (services/api/src/routers/stories.py): every endpoint that changes stories, with
--   `handle_story` and `serve_stories`.
-- * `Runs` (services/api/src/routers/runs.py): creating, updating and starting a run, and the
--   dispatch boundary of a deploy: `claim_run_dispatch`, `withdraw_run_dispatch`,
--   `supersede_run_dispatch`, with `handle_run` and `serve_runs`. `Runs.Steps.Change` says how one
--   request may change a stored run.
-- * `Grants` (services/api/src/routers/temporary_access.py): temporary access grants and the readings
--   of the running service that close them, with `handle_grant` and `serve_grants`.
-- * `Placement` (shared/server_admission.py, services/langgraph/src/allocations.py): whether a server
--   may host an application, and `_find_suitable_server` as `find_suitable_server`, over one snapshot
--   `Fleet` of what it reads through the API. `judge` is the body of its loop.
--
-- * `Dispatch` (services/scheduler/src/tasks/task_dispatcher.py, _recipients.py, worker_liveness.py and
--   services/scheduler/src/clients/api.py): `dispatch_todo_tasks`, which hands tasks to workers. It is
--   a `Client` of the API: a `World` is the database, the queue, and what each coming request will
--   meet: it is answered, it never arrives, or its answer is lost; the same may happen to a message
--   on its way to the queue. `dispatch_task` is the body of its loop. `Dispatch.Hoare` has the rules for claims about the rows and the queue before and after a
--   step of a client.
--
-- * `Owners` (services/scheduler/src/tasks/owner_notifications.py and
--   shared/contracts/dto/owner_notification.py): the messages that the owner of a story is owed, kept as
--   a record in a run's metadata. `Owners.Record.Codec` is what pydantic makes of the record in JSON: a
--   parameter, with the law that a record reads back as it was written. `Owners.Delivery` is
--   `owe_owner_notification` and `deliver_owed_notification`, `Owners.Sweep` the sweep over all runs
--   that owe one. It is a client of the API like `Dispatch`.
-- * `Compose` (services/worker-manager/src/compose_validator.py): `validate_command`, whose two loops
--   are `scan_globals` and `scan_options`; `Compose.Grammar.Invocation` is the grammar of the commands.
-- * `Ports` (services/api/src/routers/servers.py and shared/models/port_allocation.py):
--   `allocate_next_port` over a table `Ports` of its own. `Meanwhile` is what other sessions commit
--   between the reading of an attempt and its commit; `attempts` takes one for each of the ten.
--
-- The parts meet in `Db`: `spawn_worker` of the tasks stores a run, an escalation of a grant ends the
-- grant's QA run, and the messages of `spawn_worker` and `send_to_architect` go to the project's
-- owner.
--
-- Choices. A moment is a number of microseconds. Row locks make concurrent requests take turns, so
-- requests are a list, each served by one session; unlocked reads that race are not modelled. What
-- Python makes of a value that is not a text (`str`), and of an exception (`explain`), are
-- parameters. A table is the list of its rows, found by primary key. `created_at`, `updated_at` and
-- log lines are left out, and an answer is the row, not its JSON. A chat that cannot be resolved is
-- the empty text. In JSON columns numbers are whole and not negative; a run's observability columns
-- are one dictionary. Nothing here runs on fuel, except the digits of a number in `Grants.Observe`,
-- where the number plus one is enough, and `Ports.Allocation.search`, which takes as many steps as
-- ports are allocated. No request waits: every handler is a total function.
--
-- Not modelled: reading and listing endpoints but for those that the clients here ask, the other
-- routers of the API, the services that call it (services/langgraph but for the search for a
-- server, services/scheduler but for `dispatch_todo_tasks` and the owner notifications,
-- services/worker-manager but for `validate_command`, services/telegram_bot, services/scaffolder,
-- services/infra-service, services/worker-broker), packages/worker-wrapper and the web frontends.
-- PostgreSQL, Redis, FastAPI and pydantic are libraries; what the code relies on is stated above.
pub mod Prelude
pub mod Contracts
pub mod Session
pub mod Recipients
pub mod Fixtures
pub mod Tasks
pub mod Stories
pub mod Actor
pub mod Runs
pub mod Grants
pub mod Placement
pub mod Dispatch
pub mod Compose
pub mod Owners
pub mod Ports
