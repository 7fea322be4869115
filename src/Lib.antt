-- ===== src/Lib.antt =====
-- The Windows agent of FairyPam, which lets a remote hub send input to a game window only under the
-- control of a local user. This library models the parts that decide when input may be sent, and that
-- make sure that what is held is released.
--
-- The parts, and how they interact:
-- Core/State (crates/fairypam-agent-core/src/state.rs, platform.rs): the safety state machine. Each
-- method of `Machine` is a function in Core/State/Ops from the machine to its result and the machine
-- after it (`preflight_passed` is `on_preflight_passed`, since the state of that name is a constructor);
-- Core/State/Capability issues and checks the `InputCapability`, the proof that input is permitted.
-- Core/State/Run takes the methods as one alphabet, and runs sequences of calls.
-- Core/Title (`wildcard_match` of state.rs): the patterns for window titles.
-- Core/Target (target.rs): the binding of a window and its snapshot.
-- Core/Profile (profile.rs): the signed profile, its checks and its verification. `External` holds what
-- the code takes from libraries: JSON, SHA-256, the signature's check, Unicode text, versions, paths.
-- Input/Action (crates/fairypam-agent-input/src/action.rs): the map from a verified profile's actions
-- to keys and buttons.
-- Input/Lease (lease.rs): the executor of input leases, the only way from a request to the platform.
-- A method is a function from the executor to a result and the executor after it. The platform and the
-- Guardian client are traits: an `Environment` answers each call by the calls made before it, and the
-- field `calls` of the executor is the log of all calls, newest first. `map_err` with a closure that
-- runs a method is `recover`. A panic (`unreachable!`) is a failure of its own that nothing handles.
-- Guardian/Protocol (crates/fairypam-agent-guardian-protocol/src/lib.rs): the messages.
-- Guardian/Monitor (bins/fairypam-agent-guardian/src/monitor.rs): the monitor in the second process,
-- which releases the keys when the agent falls silent or ends. Its `register_agent`, `register_intent`,
-- `commit_holds`, `heartbeat` and `release_all` are `register`, `intend`, `commit`, `beat` and
-- `release`, since the requests of those names are constructors; `handle` composes them.
-- Core/Supervisor (supervisor.rs): the sessions with the hub and their fail-closed cleanup. The futures
-- of the driver are given by their outcomes, in the order in which the loop sees them.
-- Transport/Backoff (crates/fairypam-agent-transport/src/backoff.rs): the delays between attempts; the
-- random generator, the type `f64` and a duration's product with it are parameters, a `Floats`.
-- Task (bins/fairypam-agent/src/task_attempt.rs, crates/fairypam-agent-protocol/src/task_contract.rs):
-- the attempt at a task, and its journal of the hub's commands. Task/Wire holds the messages,
-- Task/Contract the contract an attempt is claimed under, Task/Data and Task/State the state of one
-- attempt, Task/State/Check what is checked of a reference and of a state read back, and Task/Runtime
-- the runtime: `begin` and `begin_v2` claim, `prepare` asks whether a command may be executed,
-- `complete` and its kin record its outcome, `replay`, `reject` and `inspect` answer, and Load and
-- `persist` read and write the ledger. A method is a function from the runtime to a result and the
-- runtime after it; where the code takes the active attempt and gives it back on an error, so does
-- `or_restore`. The file system and JSON are a `Ledger`, the digest and the time are arguments.
-- Task/Runtime/Calls makes one alphabet of the public methods other than those that begin an attempt.
-- Task/Held is about what they keep of a law of the journal; Task/Once, Task/Grant, Task/Doubt,
-- Task/Claim and Task/Cleanup are about single methods; Task/Grant/Free says in the attempt's fields
-- when nothing stands against a command, and Task/Grant/Written when an attempt is on record;
-- Task/Ledger is about the reading of a ledger.
-- Base: shared types and lemmas; Core/Samples and the modules named Tests: test data, runs and the
-- theorems at concrete inputs.
--
-- Conventions: texts are lists of bytes; instants and durations count nanoseconds and do not overflow;
-- u64 sequences keep their `checked_add`; a `BTreeSet` or `BTreeMap` is a list that ascends by key. The
-- message of an error is for people, and only its code is modelled. A field of a task message that
-- holds the number of an enumeration is its 32-bit pattern. Every loop is recursion over a list or
-- a number of events, so there is no fuel but that of `decimal`, which bounds a number's digits by the
-- number.
--
-- Not modelled: the execution of tasks (bins/fairypam-agent/src/execution.rs), asynchronous tasks,
-- the streams of the transport, telemetry, the realtime lane, the worker and the MAA runtime, the
-- Windows API, the installer and the shell, and the wire format of the Guardian's messages; they
-- are input and output, or orchestration over the parts above.
pub mod Base
pub mod Core
pub mod Guardian
pub mod Input
pub mod Transport
pub mod Task
