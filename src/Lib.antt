-- ===== src/Lib.antt =====
-- A verification library for the Scientific Workflow runtime, a Rust crate that expands parameter
-- documents into tasks, admits the tasks under one thread budget, shares the threads among those
-- that compute, and drives the members of each task to their end while it reports every step.
--
-- Parts and files. Paths are from the repository's root.
--   Resources/Admission.antt    rust/src/runtime/resources/admission.rs: `try_acquire` and the drop
--                               of a lease, over the counters of one budget
--   Resources/Compute.antt      rust/src/runtime/resources/compute.rs: registration, rebalancing by
--                               epochs, the two critical sections of `run`, and the drop of a lease
--   Config/Expansion.antt       rust/src/config/expansion.rs: `expand`, `product_insert`; with
--                               Config/Cases.antt for `$cases` and literals, Config/Spacing.antt for
--                               the numeric axes, Config/Json.antt for serde_json's values and
--                               Config/Errors.antt for rust/src/config/error.rs
--   Config/Manifest.antt        rust/src/config/manifest.rs: the authored and the parsed manifest, with
--                               its checks in Config/Manifest/Tasks.antt (one task),
--                               Config/Manifest/Phases.antt (one phase) and
--                               Config/Manifest/Parse.antt (`parse`)
--   Study.antt                  `validate_acyclic` of rust/src/config/manifest.rs and
--                               `topological_positions` of rust/src/study/plan.rs
--   Task/Execution.antt         rust/src/task/execution.rs: what a unit must keep to, and the checks
--   Task/Driver.antt            the same file: the body of `ExecutionUnitDefinition::execute`
--   Control.antt                rust/src/runtime/control.rs: pauses, the disk gate, cancellation, the
--                               clock of a run and the wait at a checkpoint
--   Observation.antt            rust/src/observation/session.rs and the sampling of
--                               rust/src/observation/stream.rs: which states a stream records,
--                               as labelled by rust/src/observation/encoding.rs
--   Runtime/Phase.antt          rust/src/runtime/execution/phase.rs: the loop of `run_phase_inner`, with
--                               the environment's answers as a parameter
--   Series.antt                 rust/src/state/series.rs: the calls that change a series of states
--   Persistence/Queue.antt      rust/src/persistence/local/queued_state_writer.rs: the queue between the
--                               recorders of states and the writer thread
--   Persistence/Sink.antt       the same file: how the writer gathers records into chunks and
--                               publishes them as files; with Persistence/Records.antt for records
--   Prelude.antt                what the parts share: tests, lists, maps by key, texts, results
--
-- How they interact. A manifest that parses gives phases whose order the compiled study computes.
-- Expansion gives the selections that a study makes tasks of. A task that the loop of a phase admits
-- holds a lease of the budget from before it begins until after its end, and, when it runs in this process,
-- a compute slot for as long. A `checkpoint` of the driver is the wait of run control, and its
-- `compute` calls are the `run` of that slot.
--
-- Correspondence. A method under a mutex is one function from state to state; a wait on a condition
-- variable ends the function, and an interleaving of threads is a sequence of such steps, given by
-- an indexed data type. `none` or a constructor `panicked` stands for a failed `expect` or
-- `debug_assert!`. A `BTreeMap` is a list that is sorted by its keys. What comes from other crates
-- is a parameter: rayon (a pool built with n > 0 threads has at
-- most n), IEEE numbers, serde_json's numbers
-- and serde's reading of a spacing, and the allocator behind `try_reserve`. The application's unit
-- and the host of a task are parameters too; both may answer in any way, also by what happened before.
--
-- Bounds and fuel. `usize` sums and products of expansion are checked against 2 ^ 64 as in the
-- source, and the epoch counter against its maximum. The budget's counters are bounded by its total,
-- so they are plain numbers. `wait_for_epoch` runs on fuel: a call that finds every slot idle needs
-- two rounds, one that rebuilds and one that reads the new epoch. The driver's loop runs on fuel:
-- 2 ^ 64 rounds for each member are enough, since iterations are 64-bit and a round advances one.
-- The searches over phases run on one more round than there are phases, which is their greatest
-- depth. The loop of a phase runs on as many rounds as it is given, since only the environment
-- decides when workers end. The wait at a checkpoint runs on as much fuel as there are wake-ups.
--
-- Not modelled. Texts of errors, provenance documents and reports, which only read the state; the
-- file system, processes, the terminal and Python; observation plans, the compilation of a study,
-- the start of workers and the rest of persistence, which are separate parts; the writer thread's
-- loop over the sinks of several streams at once.
pub mod Config
pub mod Control
pub mod Observation
pub mod Persistence
pub mod Prelude
pub mod Resources
pub mod Runtime
pub mod Series
pub mod Study
pub mod Task
