-- ===== src/Lib.antt =====
-- Codex Collaboration Coordinator: agents take part in sessions, messages become jobs, and a job is
-- relayed to a Codex process behind a bridge. This library models the services that move jobs, those that
-- decide who may act and what comes next, and the tables that they share.
--
-- Parts, and the files that model them:
--   Common       tests, lists, text, JSON values and integers.
--   Exec         service methods: they read and write a state and may raise. Each repository call
--                commits on its own, so the state comes back beside the error. Exec.Keeps, Exec.Moves
--                and Exec.Ensures are rules for what actions keep, lead to and leave.
--   Store        the tables of app/repositories/ with the CHECK constraints of app/db/migrations/, and
--                `Env`: the clock, uuid4, the json codec, SHA-256, secrets.token_urlsafe,
--                datetime.fromisoformat, the joins of pathlib and the Codex bridge, each an arbitrary
--                function that may answer every call in its own way.
--   Events       app/services/session_events.py and the job events.
--   Runtimes     app/services/runtime_service.py.
--   Threads      app/services/thread_mapping.py, the dictionary as a list of mappings.
--   LoopGuard    app/services/loop_guard.py.
--   Artifacts    app/services/artifact_manager.py, the artifacts of a turn.
--   Approvals    app/services/approval_manager.py.
--   Rules        app/services/rule_engine.py.
--   Relay        app/services/relay_engine.py: Turn and Publish are the two halves of execute_job, which
--                is in Execute; interrupt_job and compact_job are in Commands.
--   Queue        app/services/offline_queue.py, with a rule engine.
--   Recovery     app/services/recovery.py, its thread mappings and its queued jobs.
--   Participants app/services/participant_policy.py and app/services/permissions.py.
--   Pools        app/services/runtime_pool_service.py: Select is _select_pool, Assign the plan and the
--                assignment of a job, Diagnostics the counts of a pool.
--   WorkContexts app/services/work_context_service.py.
--   Phases       app/services/phase_service.py.
--   Orchestration  app/services/orchestration_engine.py.
--   Policies     app/services/policy_engine_v2.py: Matching tests a policy, Gates decides a gate.
--   Credentials  app/services/integration_credentials.py: Scopes, and Authenticate.
--   Authz        app/services/authz_service.py.
--   AccessBoundary  app/services/access_boundary.py.
--   Coordinator  the requests that reach these services, one after another, as a relation between
--                states.
--   Samples, Tests  a small database, runs of the services and the theorems applied to them.
--
-- The queue and the recovery call the relay engine; the relay engine asks the loop guard, takes a
-- thread, calls the bridge and writes the job, its events, the approval, the artifacts, the message and
-- the relay edge; the queue asks the rules and the runtimes first. The orchestration engine
-- asks the phases; the pools write the work contexts of jobs; the boundary authenticates a secret and
-- leaves the identity that the authorisation then reads. A method has the name it has in the
-- source, without a leading underscore.
--
-- Requests are served one at a time; an await gives no other request a turn. The search along the
-- fallbacks of a pool runs on fuel, one round more than there are pools, which is enough since every
-- round visits a pool that no earlier one did; every other loop is structural over a list. The limit of
-- the loop guard is a parameter of each definition that uses it, as is the decimal text of a number. Ids
-- are taken as distinct. Foreign keys and UNIQUE columns are not modelled: the services look a row up
-- before they create one, or create it under a fresh id or secret. A float is held as its text. Not
-- modelled are the delivery of events, the HTTP layer, the process behind the bridge, and the services
-- around these: messages and their commands, channels, jobs by hand, templates, reviews and the gates
-- between phases, dashboards, the public streams, webhooks and the A2A interface.
pub mod AccessBoundary
pub mod Approvals
pub mod Artifacts
pub mod Authz
pub mod Common
pub mod Coordinator
pub mod Credentials
pub mod Events
pub mod Exec
pub mod LoopGuard
pub mod Orchestration
pub mod Participants
pub mod Phases
pub mod Policies
pub mod Pools
pub mod Queue
pub mod Recovery
pub mod Relay
pub mod Rules
pub mod Runtimes
pub mod Samples
pub mod Store
pub mod Tests
pub mod Threads
pub mod WorkContexts
