-- ===== src/Lib.antt =====
-- Cora OS: the core of the API server and of its background worker (apps/cora-api/app).
--
-- Parts. Prelude holds what the models share: lists measured by native numbers (Prelude/Lists),
-- calls that write to the database and may raise, with transactions (Prelude/Exec), tables as
-- lists of rows under a key (Prelude/Table), and texts as lists of code points (Prelude/Text). A
-- call takes the database to an outcome and a database; `transaction` undoes the writes of a block
-- that raises. The database's NOW() and the identifiers that it generates are arguments.
--
-- Review models apps/cora-api/app/review_workflow.py, the lifecycle of communication drafts and
-- schedule proposals: `perform_action` and `list_events` over the two configurations, the table of
-- items and the table of events. Review/Steps says what one call does, Review/Audit is about the
-- event log, and Review/Laws about single calls and the two lifecycles.
--
-- Planner models apps/cora-api/app/agents/planner.py: plans, steps and their status changes,
-- `create_plan` with the template's steps (Planner/Template), `update_plan`, `update_step`,
-- `complete_step`, `fail_step`, `cancel_plan` and `complete_plan`. Planner/Progress is about
-- `current_step`, Planner/Moves about statuses.
--
-- Jobs models apps/cora-api/app/jobs.py and the job table's side of apps/cora-api/app/worker.py.
-- Jobs/Worker models the worker's run of a claimed job (`run_claimed`) and its pool
-- (`_fill_slots`, `_reap`); a handler is an input, by the way it ends. Jobs/Worker/Pool has the
-- step relation in which API calls, claims, task ends, reaping, heartbeats, shutdown and the death
-- of the process interleave; Jobs/Worker/Limits and Jobs/Worker/Fate have the consequences. What a
-- task writes is one step there, from its first trace to its heartbeat, and the task still counts
-- until it is reaped. Jobs/Worker/Retry claims and runs failing jobs of a table in turn.
-- `fill_slots` takes fuel: one round for each free slot is enough, since a round starts a job or
-- is the last.
--
-- Governance models apps/cora-api/app/tools/governance.py: `check_permission` in its stages, the
-- count of recent executions, `log_execution_attempt` and `enforce_external_action_block`.
-- Governance/Decision is about decisions, Governance/Limits about the hourly limit. Guard models
-- apps/cora-api/app/execution_guard.py on top of it: `evaluate_external_execution`,
-- `assert_external_execution_allowed` and `log_blocked`.
--
-- Delegations models apps/cora-api/app/agents/delegations.py: `create_delegation` with its cap, cut
-- into what it does up to its count (`check_new`) and from its INSERT on (`insert_new`),
-- the end of a delegation (`complete_delegation`, `fail_delegation` over
-- `update_delegation_status`) and the reads. Delegations/Bounds says what a call does to the rows,
-- Delegations/Race interleaves the parts of several creations with ends of delegations, for the
-- cap, and Delegations/Rows says what holds of rows. Other models create a delegation in one step.
--
-- Approval models apps/cora-api/app/execution_approval.py: Approval/Checklist has the credential
-- snapshot (apps/cora-api/app/provider_credential_simulation.py) and the checklist,
-- Approval/Decide the operations `view_intent`, `approve` and `reject`, Approval/Visible who sees
-- an intent, Approval/Outcomes what a decision leaves. Interlock models
-- apps/cora-api/app/final_interlock.py over the same tables, and Interlock/Verdict is about its
-- result. The sources that an intent is made from are the rows of Review. The connector's row and
-- the provider adapter's answers are an argument of each call (`Evidence`), and the digest of a
-- payload is a function that the definitions take.
--
-- Switches models apps/cora-api/app/runtime_switches.py: `effective`, `get_all`, `set_switch` and
-- `clear_override`. Switches/Effect is about the effective values after a change.
--
-- Agent models apps/cora-api/app/agent_runtime.py: the read, act and observe loop of `run_agent`
-- with the calls of a turn (`_execute_calls`, `_dispatch_read_only`, `_handle_staging`,
-- `_handle_delegation`), the row of the run, the pause for approval, and its approval by
-- `resolve_interrupt` and by a spoken yes or no (`resolve_pending_for_session`). It composes
-- Governance's `check_permission` and Delegations' rows. What the model, the tools and the
-- providers answer is a record of functions (`Env`), which read the number of requests made so
-- far; the requests are a log. The request of the evaluator (`evaluate_run`) is in the log, and its
-- verdict is an answer of `Env`. The loop's fuel is the code's own budget. The calls of a turn run
-- in order, where the code runs them side by side. Agent/Frame and Agent/Runs carry a relation
-- through the loop and through a run; Agent/Safe, Agent/Budget, Agent/Closed and Agent/Row apply
-- them, and Agent/Resolved is about approval.
--
-- Oauth models apps/cora-api/app/oauth_flow.py: `start_authorization` (Oauth/Start),
-- `handle_callback` with `_consume_state` and `_upsert_connected` (Oauth/Callback),
-- `refresh_connection` and `_compute_status` (Oauth/Refresh), over the tables of states and of
-- connectors. The registry of providers, the encryption and the token endpoints are a record of
-- functions (`OauthEnv`). A callback returns the row without its tokens, by `mask` of
-- apps/cora-api/app/provider_oauth.py. Traces and logged attempts are Governance's, through
-- connections of their own, so that they outlive a rolled back transaction.
--
-- PlanRun models the two handlers of apps/cora-api/app/worker.py that run plans,
-- `execute_plan_step` and `execute_plan`, over Planner's tables, Delegations' and Governance's.
-- The log of dispatched tools is a part of the state, and what a tool answers is a function of the
-- log. The loop goes over the steps that were read at the start. A job has its plan, and for a
-- step its step: the guards against a job without them are left out. PlanRun/Tame and
-- PlanRun/Opened carry the relations that PlanRun/Orderly puts together.
--
-- Intents models apps/cora-api/app/integration_readiness.py, with the connectors' previews and
-- validation from apps/cora-api/app/provider_connectors.py: intents to send or to create an event
-- are made from an approved source, by one of two workflows on one table (Intents/Build), and are
-- then validated, confirmed, revoked, cancelled and dry-run (Intents/Change). Intents/Calls has
-- the operations as calls, Intents/Effect says what one call does to the table, Intents/Moves how
-- it may alter a row, and Intents/Lifecycle is the abstract lifecycle that Intents/Refines relates
-- the table to. Approval keeps a view of its own of the same rows, with the columns that the
-- execution approval reads. New identifiers, which are random UUIDs, are numbers that were not given
-- before.
--
-- Memory models apps/cora-api/app/memory/chunking.py: `chunk_text` with `_normalize` (Memory), and
-- the rebuilding of the chunks of memory entries (Memory/Rebuild). `chunk_loop` takes the length
-- of the text as its fuel, which is enough since each round goes on by at least one code point:
-- Memory/Exact says so, in that the windows cover the text. Embedding vectors and hashes are
-- numbers that functions of the environment give.
--
-- Flags models apps/cora-api/app/feature_flags.py: the lookup and its verdict, which Approval and
-- Interlock read, and in Flags/Matrix `evaluate`, `create_flag` and `update_flag`. UUIDs are
-- numbers given out in order. Flags/Closed runs any sequence of these calls. Of a denial's event
-- the payload is left out, and an insertion is refused for a second row of the same key only.
--
-- Scheduling models the free/busy computation of apps/cora-api/app/chat_scheduling.py:
-- `_round_up`, `_work_bounds`, `_subtract` and the search over the days, and in Scheduling/Busy
-- `_busy_intervals` and `_free_intervals`, with `_local_dt` of apps/cora-api/app/chat_calendar.py.
-- A time is the number of microseconds on the local wall clock, which is what Python compares and
-- subtracts within one zone, and `datetime.fromisoformat` with `astimezone` is a function that the
-- definitions take. The loop over the days takes the number of days left, so that it has no fuel
-- to run out of; `now` is an argument. The regular expressions over messages, the reads of
-- calendars and the booking are left out.
--
-- Routing models the deterministic routing of apps/cora-api/app/agents/routing.py:
-- `match_keywords`, `_specificity` and `select_subagent`, with the keywords of the four
-- specialists (Routing/Keywords, from apps/cora-api/app/agents/forge.py, pulse.py, signal.py and
-- chronos.py). The search for a word is written out; which code points `re` takes for letters of a
-- word is a function that the definitions take. Routing/Best says which candidate is selected.
-- `diagnose_routing` and the classification by a language model are left out.
--
-- Not modelled: HTTP routing, SQL text and the driver (a table is a list of rows, and a statement
-- a function on it), logging, calls of language models and of external providers, and the user
-- interfaces. Failures of the database other than a missing connection pool are left out.
pub mod Prelude
pub mod Agent
pub mod Approval
pub mod Delegations
pub mod Flags
pub mod Governance
pub mod Guard
pub mod Intents
pub mod Interlock
pub mod Jobs
pub mod Memory
pub mod Oauth
pub mod PlanRun
pub mod Planner
pub mod Review
pub mod Routing
pub mod Scheduling
pub mod Switches
