-- ===== src/Tests/Data.antt =====
-- The data of the tests: a note that a branch has grown, a counter that another has moved, and a
-- transaction with one branch.
use data_agent_system.Prelude.{ℕ, Text, true, [], ◌∷◌, some, codes, ltb}
use data_agent_system.Intent.Types.{WriteIntent, append, delta, cas, value_equals, unconditional}
use data_agent_system.Cache.Entry.{ObjectCacheEntry, generic}
use data_agent_system.Cache.ReadSet as ReadSet
use data_agent_system.Cache.WriteBuffer as WriteBuffer
use data_agent_system.Cache.WriteBuffer.Invariant.{
  IsWellFormed, upsert-IsWellFormed, empty-IsWellFormed,
}
use data_agent_system.Storage.Interface.{WriteOp, VersionCheck}
use data_agent_system.Storage.Memory.{MemoryKvStore}
use data_agent_system.Branch.Context.{BranchContext, Double, created}
use data_agent_system.Branch.Winner.{IsScoreOrder}
use data_agent_system.Fallback.Recovery.{World}
use data_agent_system.Txn.Context.{AgentTxnContext, Failure, no_result, running}
use data_agent_system.Prelude.{arith}

abbrev pub note : Text
note = codes "note"

abbrev pub append_intent : WriteIntent
append_intent = record {
  object_id = note;
  intent_type = append;
  payload = codes "cd";
  condition = record { type = unconditional; expected_value = [] };
}

abbrev pub delta_intent : WriteIntent
delta_intent = record append_intent { intent_type = delta; payload = codes "5" }

abbrev pub cas_intent : WriteIntent
cas_intent = record append_intent {
  intent_type = cas;
  condition = record { type = value_equals; expected_value = codes "ab" };
}

abbrev pub entry_from : Text → Text → ObjectCacheEntry
entry_from base current = record {
  object_id = note;
  object_type = generic;
  base_value = base;
  base_version = 1;
  current_value = current;
  dirty = true;
  intent_type = append;
  undo_record = record { previous_value = base; existed = true };
}

abbrev pub grown : ObjectCacheEntry
grown = entry_from (codes "ab") (codes "abcd")

abbrev pub note_buffer : WriteBuffer.WriteBuffer
note_buffer = WriteBuffer.upsert grown WriteBuffer.empty

pub note_buffer_ok : IsWellFormed note_buffer
note_buffer_ok = upsert-IsWellFormed grown WriteBuffer.empty empty-IsWellFormed

-- The scores of the tests are natural numbers.
abbrev pub score : Double ℕ
score = record { zero = 0; less = ltb }

pub score_IsScoreOrder : IsScoreOrder score
score_IsScoreOrder = record {
  irreflexive = λ a. ground arith;
  transitive = λ a b c h i. ground arith;
}

abbrev pub empty_branch : BranchContext ℕ
empty_branch = record {
  branch_id = codes "b1";
  status = created;
  read_set = ReadSet.empty;
  write_buffer = WriteBuffer.empty;
  intent_log = record { intents = [] };
  candidate_result = record { score = 0; summary = [] };
  savepoints = [];
}

abbrev pub branch : BranchContext ℕ
branch = record empty_branch {
  write_buffer = note_buffer;
  intent_log = record { intents = append_intent ∷ [] };
}

-- A branch that has read the note and another object.
abbrev pub reader : BranchContext ℕ
reader = record branch {
  read_set = record {
    entries =
        record { object_id = note; observed_version = 1 }
        ∷ record { object_id = codes "other"; observed_version = 0 }
        ∷ [];
  };
}

-- The same reads against the store of the tests as it is.
abbrev pub current_reader : BranchContext ℕ
current_reader = record branch {
  read_set = record {
    entries =
        record { object_id = note; observed_version = 2 }
        ∷ record { object_id = codes "other"; observed_version = 0 }
        ∷ [];
  };
}

abbrev pub store : MemoryKvStore
store = (note, record { value = codes "abx"; version = 2 }) ∷ []

abbrev pub world : World MemoryKvStore
world = record { store = store; disk = record { files = []; outcomes = [] } }

abbrev pub txn : AgentTxnContext ℕ
txn = record {
  txn_id = codes "t1";
  task_id = codes "task";
  status = running;
  branches = branch ∷ [];
  winner_branch_id = [];
  commit_log = [];
  validation_result = no_result;
  metrics = record {
    branch_count = 0;
    planned_loser_count = 0;
    winner_commit_count = 0;
    real_abort_count = 0;
    conflict_abort_count = 0;
    validation_fail_count = 0;
    retry_count = 0;
    commit_latency_us = 0;
  };
  fallback_commit = record { artifact_path = []; simulate_crash_after_apply_count = 0 };
}

abbrev pub no_failure : Failure
no_failure = some no_result

abbrev pub check : VersionCheck
check = record { key = note; expected_version = 2 }

abbrev pub absent_check : VersionCheck
absent_check = record { key = codes "other"; expected_version = 0 }

abbrev pub note_write : WriteOp
note_write = record { key = note; value = codes "abcd" }
