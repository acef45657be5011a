-- ===== src/Lib.antt =====
-- A verification library for the Cloudflare Agents SDK for Python: the durable state machines under
-- its tasks and its alarms, the continuation, the folding and the compaction of its chats, and the
-- relay of its sub-agents.
--
-- The program. An agent runs in a Durable Object. Its long-running tasks are rows of two SQLite
-- tables, which agents/_task_store.py reads and writes: a run is created pending, claimed under a
-- generation for a time, does named steps whose results are stored once, is parked while it sleeps
-- or waits for a retry, and settles as completed, failed or cancelled. The facade agents/tasks.py
-- accepts runs, executes attempts of them and replays the recorded steps. Its timed work is a table
-- of jobs, agents/lifecycle/jobs.py, each of which belongs to a capability; the job driver asks the
-- queue for the rows that are due, marks them, runs them and applies their outcome, and sets the
-- object's one alarm to the time that the queue computes. A chat agent whose model calls tools on
-- the client continues by itself when the answers are in: agents/chat/continuation.py collects the
-- answers of a short window into one request, waits until the conversation is stable, and fires it.
-- Its turns run one at a time in agents/chat/turn_queue.py, which a reset makes forget the turns
-- that have not started. The chunks of a model's stream are folded into the parts of a message by
-- agents/chat/folding.py. A sub-agent that has no socket works on a virtual connection,
-- agents/core/subagent_relay.py, which records bounded operations; the parent decodes the log and
-- replays it on the real one. A long session is compacted by agents/_session_compaction.py: a
-- summary stands in for a range of its messages.
--
-- The modules.
-- - Prelude: shared names, tests on nullable columns, lists, the order of texts.
-- - Sql: UPDATE, DELETE, SELECT, EXISTS, changes() and ORDER BY on a table as a list of rows; their
--   laws are in Sql/Rows, Sql/Keys (tables with distinct keys), Sql/Query and Sql/Sorting.
-- - Json: JSON values, and the operations of a dict on an object's fields; Json/Laws has their laws.
-- - TaskStore: agents/_task_store.py. TaskStore/Rows has the row types with the source's columns;
--   TaskStore/Runs, Steps, Parking, Queries and Removal have one function for each method, under its
--   name: its WHERE clause is a test, its SET clause a function on a row, and its result and the new
--   tables come back together. A method that returns `_changes(...) > 0` returns a Bool. A rejected
--   fence inside a transaction is `none`, which rolls back. TaskStore/Trace has the statements as one
--   type of operations. TaskStore/Effect factors each operation into single effects on the tables, so
--   that TaskStore/Invariant, Finality and others prove what they state by cases on effects.
-- - Jobs: agents/lifecycle/jobs.py. Jobs/Rows, Validation, Codec, Queue, Execution and Alarm model the
--   class `_LifecycleJobQueue` and the validators; Jobs/Ownership, Pushing, Intents and Waking prove.
-- - Driver: agents/lifecycle/_job_driver.py over the queue of Jobs. Driver/State has the versions, claims
--   and tracked work of `_LifecycleJobDriver`, Driver/Drive one row of `_drive_due_jobs` and the end of
--   `_drive_job`, Driver/Attempts the handler's attempts and the error hook, and Driver/Memory the
--   strikes. What a handler, a hook or the storage answers is an argument. Driver/Events has sequences
--   of calls, as overlapping alarms make them; Driver/Open, Versions, Starts, Claims, Retries and Strikes
--   prove.
-- - Chat/Continuation: agents/chat/continuation.py, the class `AutoContinuationController`, one function
--   for each method. The coroutine `fire_when_stable` is split at its await into `fire_when_stable` and
--   `drained`; what the callbacks answer is an argument of each call, and the request to be fired, the
--   frames to be sent and whether a task is spawned are results. Chat/Continuation/Trace has sequences
--   of calls, in which a `drained` may stand anywhere; Fires and Requests prove.
-- - Chat/TurnQueue: agents/chat/turn_queue.py. `enqueue` is split where it waits for the lock and where
--   it runs its function; which waiter gets the free lock is an argument, so that nothing rests on
--   asyncio's order. Objects that `is` compares carry an identity. Chat/TurnQueue/Stale proves.
-- - Chat/Folding: agents/chat/folding.py. Parts has the functions on parts and chunks, which are dicts,
--   Tools the handlers of chunks about tool calls, Chunks the other handlers and their table, and
--   Accumulator `apply` and `should_suppress`. A part that a handler finds and changes in place is the
--   last that passes its test, in a list that comes back with the effect. Late, Final, Searching, Calls,
--   Ids, KeptTools, KeptParts and Kept prove.
-- - Relay: agents/core/subagent_relay.py over agents/core/connection_state.py. Relay/State has the flags
--   beside a user's state, Relay/Connection the class `BufferedRelayConnection`, where a call that raises
--   is a result, and Relay/Log `decode_operation_log` and `apply_operations`. Relay/Trace has sequences of
--   calls, and Relay/Session `RelaySession` and `relay_round_trip`; how the forwarded call ends is an
--   argument. Applying, Buffered, Calls, RoundTrip, Accepted and Session prove.
-- - Sessions: agents/_session_compaction.py. Sessions/Overlays has `_plan_overlays`, Compaction the
--   boundaries between messages, and Input `_prepare_compaction_input`; Planning and Protected prove.
--   Sessions/History has `_history_values` of agents/sessions.py, which reads a path through the plan;
--   what the store holds is an argument, and a message that is read is its index.
-- - Tasks: agents/tasks.py over the store. Tasks/Policy has the retry delays and the checks on names and
--   deadlines, Tasks/Step and Sleeping the class `TaskStep`, Tasks/Attempt `_execute_run` and the
--   settlements, and Tasks/Callers `_accept`, `cancel` and the snapshots. A coroutine is cut at its awaits: `_do` is
--   `run_step`, `resume_step` and `finish_step`, and `_execute_run` is `examine_run`, `claim_attempt` and
--   `finish_attempt`. How a callback or a definition ends is an argument, values are their JSON text,
--   and each look at the clock is an argument of its own. Tasks/Delays, Replay, Lost, Superseded, Finishing,
--   Actions, Writing and Joining prove.
-- - TaskStore/Schema, one more module of the store: the check of the tables' columns.
--
-- What the models assume. Times are milliseconds since the epoch, as natural numbers; a stored time
-- is one too, so rows that another program has written with negative or non-integer columns are
-- outside the model. SQLite runs one statement at a time, as the Durable Object's storage does, so
-- interleavings are sequences of operations. The order of rows in a table stands for no order that
-- a caller can see: every query that returns several rows orders them. JSON text of the job queue
-- is the parameter `Wire`; the theorems that read a value back from its text take that as a
-- hypothesis, `IsFaithful`. The relay has a `Wire` of its own, on JSON values, and the hypothesis
-- `IsCompact` on the one log that is read back. The log is replayed on any sink; the `recorder` that
-- the last statement of the relay also speaks of is an ideal one, which keeps what it is given, while
-- the connection of agents/lifecycle/websockets.py puts its id before the tags, checks them, and may
-- raise. A start time plus a handler's timeout is at most SQLite's largest integer, above which its
-- sum would be a REAL: `recheck_at` is exact up to there. In folding, `==` on JSON values, `str` on what is
-- no text, `strip` and `json.loads` are the parameter `Builtins`, with the hypothesis `IsEquality`
-- on `==`. A Python number is an integer or an exact binary fraction m / 2^k, or one of the values
-- that the validators reject. All functions are total by structural recursion. The loops that count
-- rounds are `bit_length` in Tasks/Policy, for the number itself, which halving cannot outlast, and
-- those of the overlays and of the history in Sessions, for the messages of the path, as each round
-- moves on by one at least. In a compaction the estimates of tokens, the comparison with the
-- budget, `math.floor(tokens * 0.2)` and the text of a number are the parameter `Estimates`.
--
-- Not modelled: the table definitions beyond the row types and their unique columns, the runtime, the
-- network, and the components that call these. Of agents/tasks.py: the wake-up jobs and the owners they
-- are routed to, the memory policies, durations given as text, the serializers and the events.
-- Of agents/lifecycle/_job_driver.py: the frame of an alarm, the locks around strikes, and the reset.
-- Of agents/core/subagent_relay.py: exceptions of the real connection while a log is replayed.
-- Of agents/_session_compaction.py: the prompt's text and the message of an overlay.
mod Prelude
mod Sql
pub mod Json
pub mod TaskStore
pub mod Tasks
pub mod Jobs
pub mod Driver
pub mod Chat
pub mod Relay
pub mod Sessions
