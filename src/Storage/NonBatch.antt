-- ===== src/Storage/NonBatch.antt =====
-- storage/non_batch_memory_kv_store.h: the in-memory store without the batch write.
use data_agent_system.Prelude.{Bool, false, List}
use data_agent_system.Storage.Interface.{VersionCheck, WriteOp, VersionedKvStore}
use data_agent_system.Storage.Memory.{
  MemoryKvStore, get, get_version, put, put_if_version, delete_if_version,
}

refuse_batch : List VersionCheck → List WriteOp → MemoryKvStore → MemoryKvStore × Bool
refuse_batch checks writes values = (values, false)

unfoldable pub non_batch_memory_kv_store : VersionedKvStore MemoryKvStore
unfolding refuse_batch
non_batch_memory_kv_store = record {
  supports_atomic_batch_conditional_write = false;
  get = get;
  get_version = get_version;
  put = put;
  put_if_version = put_if_version;
  delete_if_version = delete_if_version;
  batch_put_if_version = refuse_batch;
}
