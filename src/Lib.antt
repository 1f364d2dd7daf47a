-- ===== src/Lib.antt =====
-- Verification of the data agent system: transactions of an agent that tries several branches of
-- work and commits one of them to a versioned key-value store.
--
-- A branch reads the store and buffers writes, each with an intent that says how the write may be
-- rebased. The manager chooses the branch with the highest score, validates what it has read,
-- resolves its writes against the store, and writes them: as one conditional batch, or as
-- conditional writes that are undone where one fails, or with an artifact from which a crash is
-- recovered. Committed transactions leave logs, from which a store can be recovered.
--
-- Prelude: texts as lists of bytes, maps as association lists, lists over the native numbers, and
--   `long long` as integers with their range.
-- Intent (data_agent_system/intent): `resolve_write` is PolicyDispatcher::ResolveWrite.
-- Cache (data_agent_system/cache): the write buffer with its change history, newest change first.
-- Storage (data_agent_system/storage): VersionedKVStore as a record of functions on a state, the
--   contract that its clients use, MemoryKVStore, NonBatchMemoryKVStore and, in Storage.File,
--   FileKVStore with its file, its temporary file and its journal.
-- Branch (data_agent_system/branch, with RollbackManager for one branch): each method
--   of BranchManager is a function on a branch. Branch.Steps runs any sequence of such calls.
-- Txn (data_agent_system/agent_txn): Checks, Plain, CrashSafe and Commit are the parts of
--   CommitManager::CommitWinner; Validation and Manager are the classes of those names.
--   RecoveryManager is the class of that name.
-- Fallback (data_agent_system/agent_txn, fallback_commit_*.h): the artifact, the disk that
--   it is written to, its Parser, the two procedures that resume a commit, the Driver over the
--   artifacts of a Directory.
-- Log (data_agent_system/agent_txn, commit_log_*.h): Lines has the
--   reading of lines and numbers that all the file formats share; the text of a commit log, its
--   parser, and the recovery of a store.
-- Runtime (data_agent_system/runtime): Task, Plan and Session are the data; EventWriter and
--   EventReader are task_event_log_io.h and task_event_log_replay.h; Decision, RecoveryPlan and
--   RecoveredSession are task_recovery.h, Execution is task_recovery_execution.h; Operations,
--   Commit, Maintenance, Startup, Rebuild and Resume are the methods of TaskRuntime; LogDirectory
--   is task_recovery_manager.h; LogMetadata, Decided and Verdict say in the terms of a session what
--   its log holds and what is decided from it; Continuation is task_continuation.h with its registry.
-- Tests: concrete inputs.
--
-- Bounds. Versions are 64-bit and wrap: `next_version`. The sums of delta intents are those of
-- `long long`; an overflow, undefined in C++, wraps in the model, and the results about sums
-- assume that they fit. All loops are structural recursion; printing a number takes as fuel its
-- value and one more, which bounds the count of its digits. A `double` is an abstract type with
-- its zero and its order; the casts between a double and an integer are a parameter too. An
-- exception is `none`, or `threw` with the message where the program makes the message. A file
-- system call that may fail takes the next of a list of outcomes. The store changes only by the
-- calls of the modelled code: the commit theorems are about one client at a time. The in-memory
-- store takes its mutex in every call, so that each call is one step.
--
-- A path is its text. The files of a directory are those whose path is the path of the directory, a
-- slash and a name. Reading a file that exists does not fail; writing, renaming, removing and the
-- creation of a directory may.
--
-- Not modelled: the workloads and the experiments, which are clients of the runtime; the adapters to
-- Redis and RocksDB, the store factory and its configuration, which are glue to other programs.
pub mod Prelude
pub mod Intent
pub mod Cache
pub mod Storage
pub mod Branch
pub mod Log
pub mod Fallback
pub mod Txn
pub mod Runtime
mod Tests
