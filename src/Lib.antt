-- ===== src/Lib.antt =====
-- A verification of the core of deputy-agent: the message bus by which the agents of a task talk, and
-- the stage machine that decides how a task moves from its submission to its delivery.
--
-- The program. A task has a directory with manifest.yaml (its stage), messaging/state.jsonl and
-- messaging/payloads/ (its messages), events.jsonl and conversation.jsonl. The host process runs agent
-- sessions; they send and read messages through `MessagingBusImpl`, and the Meta agent moves the
-- task to another stage through `handleStageAdvance`, which asks the bus whether a reviewer has
-- given the verdict that the transition needs. The user moves it by commands (pause, resume, done,
-- cancel), which go to the manifest directly. Several processes share the files under locks.
--
-- The files.
--   Prelude/     shared names and lemmas: Booleans, lists, texts, integers, dictionaries, Option.
--   Value/       JavaScript values of unknown shape, and `deepEqual` of src/messaging/bus.ts.
--   Messaging/   Kinds, Extras: src/messaging/envelope.ts (channels, kinds, `validateExtras`);
--                Schema: src/messaging/schema.ts (`extrasToJson`, `extrasFromJson`, the key map);
--                State: src/messaging/state.ts (`EnvelopeState`, `compareOrderKey`);
--                Log: the events of state.jsonl and the fold of `refreshLocked`;
--                Bus: the state and the methods of `MessagingBusImpl`, with Bus/Write (`enqueue`,
--                `appendFailedEvent`, `quarantineState`), Bus/Deliver (`pull`, `peekUnread`,
--                `markReadBatch`), Bus/Respond (`markResponded`, `inspectWorkerStatus`), Bus/Query
--                (the methods that only read) and the modules of the proofs beside them;
--                Recovery: src/messaging/recovery.ts, the repair of the directory after a crash.
--   Task/        Stage, Transition, Gate, Advance: src/host/stage_machine.ts; Manifest:
--                src/shared/manifest.ts; Commands: `execPause`, `execResume`, `execDone` and
--                `execCancel` of src/cli/exec.ts; Files: the fail-soft writes beside the manifest.
--   Host/        Retry: src/host/retry.ts; Wake: `WakeCursor` and `dispatchByStage` of
--                src/host/main_loop.ts; Watchdog: the detectors of src/host/watchdog.ts;
--                Criteria: src/host/done_criteria, with Paths, Validate (validate.ts), Checks
--                (checks.ts) and Evaluate (evaluate.ts); Watcher: src/host/watcher, with Offsets
--                (offsetTracker.ts) and Dispatcher (dispatcher.ts, and which
--                events preprocess.ts skips); Events: src/host/events.ts;
--                Sessions: the numbers, exit reasons and state of src/host/agent_sessions.ts;
--                Recovery: src/host/recovery.ts, with Reads (what it folds and reads), the repair, and
--                Start (`runStartupRecovery`); Daemon: the part of a tick of src/host/daemon.ts that
--                starts a worker, with Start (`startWorker`).
--   Shared/      Jsonl: src/shared/jsonl.ts on bytes, with the proofs in Jsonl/.
--   Scenarios/   concrete runs.
--
-- How state is modelled. A method of the bus is an action: a function from a `Bus` to a result or an
-- error and the `Bus` after it, so that what was written before a throw stays written. The `Bus` holds
-- the files, the cache of one process, the clock, and a list that says of each next lock and write
-- whether it succeeds. An append that throws may leave nothing, a part of its line, its line without the
-- line feed, or all of it: a second list says which. A map is an association list in the order of insertion. The operations on the
-- manifest take a `Store`: what `load` would return, and whether the lock and the atomic write of one call succeed.
-- events.jsonl is its lines with a list of outcomes of its own; the recovery of the host works on it and
-- a `Bus` at once. A sequence number that is no integer counts as none.
-- What other processes do between a `load` and the locked section after it is a function argument.
-- Loops are recursions on a list or, for the retries, on those left; only the loop of the watcher that
-- makes up for windows has fuel, the seconds that a tracker is behind, and is proved to end on it.
--
-- Not modelled: the text of JSON and YAML files and of error messages, the random jitter of the retry
-- delays, hashes, timers and processes, the agent SDKs and their wrappers, the web server, the tools of
-- the agents, the rest of the host daemon and of the command line. A file of payloads that cannot be read
-- or parsed is an absent value. What Node and libraries answer about files, YAML and JSON is a
-- parameter of the definitions that ask.
mod Prelude
mod Scenarios
pub mod Value
pub mod Shared
pub mod Messaging
pub mod Task
pub mod Host
