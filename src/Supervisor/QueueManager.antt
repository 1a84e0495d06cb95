-- ===== src/Supervisor/QueueManager.antt =====
-- src/supervisor/include/ipc_queue_manager.h and src/supervisor/src/ipc_queue_manager.cpp: who makes
-- the queues and puts the poison pills on them. boost's message queues are a parameter.
use file_inspect_key_analyse.Base.{
  ℕ, Bytes, Option, none, some, Result, ok, undefined, ◌>>=◌, Dict, lookup, insert,
}
use file_inspect_key_analyse.Global.FileJob.{IpcMessage, poison_pill}

-- `ipc_queue_manager`
pub record IpcQueueManager : Type 1 where
  pub Queues : Type 0
  pub remove : Queues → Bytes → Queues
  pub create : Queues → Bytes → ℕ → ℕ → Result Queues
  pub send_stop_job : Queues → Bytes → Result Queues

-- What the code uses of `boost::interprocess::message_queue`.
pub record MessageQueueApi : Type 1 where
  pub Ipc : Type 0
  pub MessageQueue : Type 0
  pub remove : Ipc → Bytes → Ipc
  pub create_only : Ipc → Bytes → ℕ → ℕ → Result (Ipc × MessageQueue)
  pub send : Ipc → MessageQueue → IpcMessage → Result Ipc

pub record QueueDescriptor : Type 0 where
  pub name : Bytes
  pub max_messages : ℕ
  pub message_size : ℕ

module _ (A : MessageQueueApi) where
  open A use {Ipc, MessageQueue, create_only, send}

  -- `boost_queue_manager`: a null `shared_ptr` in `queues_` is `none`.
  pub record BoostQueues : Type 0 where
    pub ipc : Ipc
    pub queues : Dict (Option MessageQueue)

  unfoldable pub remove_queue : BoostQueues → Bytes → BoostQueues
  remove_queue m name = record m { ipc = A.remove m.ipc name }

  unfoldable pub create_queue : BoostQueues → Bytes → ℕ → ℕ → Result BoostQueues
  create_queue m name max_messages message_size = do
    r ← create_only m.ipc name max_messages message_size
    ok (record { ipc = r.0; queues = insert name (some r.1) m.queues })

  -- `queues_[name]`: a name that is not there gets a null pointer.
  unfoldable pub at_key : BoostQueues → Bytes → Option MessageQueue
  at_key m name = elim (lookup name m.queues) [ none ↦ none | some q ↦ q ]

  unfoldable pub send_stop_job_to : BoostQueues → Bytes → Result BoostQueues
  unfolding at_key
  send_stop_job_to m name = elim (at_key m name) [
    | none ↦ undefined
    | some q ↦ send m.ipc q poison_pill >>= λ ipc. ok (record m { ipc = ipc })
  ]

  abbrev pub boost_queue_manager : IpcQueueManager
  boost_queue_manager = record {
    Queues = BoostQueues;
    remove = remove_queue;
    create = create_queue;
    send_stop_job = send_stop_job_to;
  }
