-- ===== src/Lib.antt =====
-- magent: a verification library for magent2, a multi-agent chat system over a message bus.
--
-- A client posts a message to the gateway, which publishes it on the topics of the conversation and
-- of the addressed agent. The agent's worker reads its topic in passes, claims each message, runs the
-- agent with retries, and publishes what the run streams; the gateway forwards that stream as
-- server-sent events within a size limit. Agents have tools: tasks in Redis, signals to each other,
-- and a registry that says who owns a file.
--
-- The files and the code that they are about:
-- - Prelude (Tests, Lists, Strings, Dicts, Numbers, Exec): shared notation and lemmas. Text is a list
--   of code points with the methods of Python's str, Dict a dict in insertion order, Exec a
--   computation that changes a state and may raise, so what it wrote before a raise stays written.
-- - Json: JSON values and json.dumps with the compact separators.
-- - Observability: Redact is `redact` of magent2/observability/__init__.py, with a proof in Kept; Index is the writes of
--   magent2/observability/index.py, with a proof about the cap on a set in Capped.
-- - Bus: magent2/bus. Topics is utils.py; Redis is the reads without a group of redis_adapter.py
--   (`_read_without_group`, `_scan_for_uuid`, `_collect_after_cursor`), with proofs in Collect, Scan
--   and Read; Group is publishing, the reads through a group and the blocking reads.
-- - Worker: magent2/worker/worker.py. Run is `_run_and_stream` and `_stream_events`; Retry is
--   `_run_and_stream_with_retry`, `_classify_exception` and `_publish_to_dlq`; Claims is
--   `_already_processed`, `_mark_processed`, `_acquire_lock` and `_release_lock`; Drain is
--   `process_available`. Proofs are in Frame, Memory, Locks, Once, Runs, Served, Drained, Pass, Attempts
--   and Poison. A run is a generator that goes on when its event is published.
-- - Team: magent2/team/registry.py. Glob is `_glob_match` with Python's fnmatch, Registry the class,
--   Order and Owner the proofs about `find_owner_for_path`.
-- - Gateway: magent2/gateway/app.py. Sse is `_truncate_payload_for_sse`, Send is POST /send; proofs
--   are in Fits, Sent and Outcome.
-- - Todo: magent2/tools/todo. Store is redis_store.py, Tools is tools.py; Laws says what the client
--   is taken to do, and Crud and Replies hold the proofs.
-- - Signals: magent2/tools/signals/impl.py. Send is `send_signal` and what handles a message, Receive the
--   two reads of one topic, Wait `wait_for_signal`, Many `wait_for_any` and `wait_for_all`; proofs about
--   sending are in Sent and Published, and about the waits and the clock in Later, Found, Ends, Any, Gather and Return.
-- - Runner: magent2/runner/openai_agents_runner.py. Sessions is `_get_session`, with proofs in Recent, Held
--   and Lru; Objects, Fields and Texts read the SDK's objects and dicts; Step, Tools and Responses are
--   the events of tools; Events is `_map_event`; Stream is the queue between a run and its consumer.
--   Queues is the machine of queues that Tools is compared with, in Pairs, Fifo, Matched and Lifecycle;
--   proofs about the stream are in Streamed, Delivery and Stalled.
-- - Mcp: magent2/tools/mcp. Frame is the framing of client.py, with proofs in Decimal and RoundTrip; Config
--   is config.py; Gateway and Calls are gateway.py, with proofs in Exposed.
-- - Terminal: magent2/tools/terminal/tool.py. Policy is the checks on a command, the working directory and
--   `run`, Guarded what every command that it starts satisfies, Capped the size of the output.
-- - Orchestrate: magent2/tools/orchestrate.py, with proofs in Children and, about the
--   done topic that the worker reads, in Done.
-- Each part has a module Checks with concrete runs.
--
-- The parts meet in the code as they do in the model: the gateway and the worker use the topics of
-- Bus.Topics, the worker reads messages of type Bus.BusMessage, and Signals and the gateway share the
-- byte lengths of Gateway.Sse. What stands outside the repository is a parameter: the Redis client,
-- the agents SDK, pydantic, the clock, the interpreter's tables of characters. The conditions on a
-- parameter are records of laws (IsStream, IsRedis, IsFaithful, TakesAll,
-- IsSets, IsUnique, IsClock,
-- IsAscii, IsReadable).
--
-- The runner's queue has the 1024 places of the source; the run and its consumer take turns in a list
-- that any interleaving can be.
--
-- Bounds: the loops over a stream's chunks take fuel and return `none` when it runs out. Every entry
-- is read at most once and the last round finds nothing, so fuel above the stream's length is enough
-- for the search of a uuid, and fuel above the limit for the collection of a page. The waits of Signals
-- take a round of fuel for each millisecond or new message, so the timeout plus the number of topics is
-- enough. Python's integers have no bound, so numbers are natural numbers or, for settings, integers.
--
-- Not modelled: log lines, and the durations and sleeps of the worker; the stream loop and the observer
-- endpoints of the gateway; the reads of the observer index; the call of the SDK and the thread of the
-- runner; the processes and threads of the MCP client; the process of the
-- terminal tool and its function tools; the chat tools; the command line and terminal clients.
pub mod Prelude
pub mod Json
pub mod Observability
pub mod Bus
pub mod Worker
pub mod Team
pub mod Gateway
pub mod Todo
pub mod Signals
pub mod Orchestrate
pub mod Runner
pub mod Mcp
pub mod Terminal
