-- ===== src/Global/Service.antt =====
-- src/global/include/service.h and src/global/src/service.cpp: the class below every service, and
-- src/global/include/ipc_client.h with src/global/src/icp_client.cpp: what it sends through.
pub mod Loop
use file_inspect_key_analyse.Base.{
  ℕ, ℤ, zero, suc, pos, ◌+◌, ◌-◌, ◌≤◌, ◌<◌, ◌*◌, Bytes, String, codes, eq_bytes, eq_bytes_iff,
  eq_bytes_refl, is_empty, starts_with, starts_with-append, Bool, true, false, not, ◌&&◌, ◌||◌,
  List, [], ◌∷◌, ◌++◌, map, All, All-append, Memᴰ, Option, none, some, if◌then◌else◌, ◌≡◌, refl,
  sym, ap, ◌∙◌, ◌⊎◌, inl, inr, ◌≢◌, ◌↔◌, arith, Bool-cases, Result, ok, thrown, undefined, ◌>>=◌,
  catch, Dict, lookup, insert, lookup-insert, length, take, drop, replicate, ltb, ◌==◌,
  length-append, drop-add, drop-append, take-append,
}
use file_inspect_key_analyse.Global.FileJob.{IpcMessage, job_message, poison_pill}

-- `MsgQueueSender` on the queue of this name, and `null_sender`.
pub data QueueSender : Type 0 where
  msg_queue_sender : Bytes → QueueSender
  null_sender : QueueSender

-- The messages that a call puts on queues, in order, each with its queue's name.
abbrev pub Sent : Type 0
Sent = List (Bytes × IpcMessage)

-- `send`
unfoldable pub send : QueueSender → IpcMessage → Sent
send (msg_queue_sender queue) m = (queue, m) ∷ []
send null_sender m = []

abbrev pub Senders : Type 0
Senders = Dict QueueSender

-- `senders_.find(queue)`; `none` is the null pointer.
unfoldable pub get_sender : Bytes → Senders → Option QueueSender
get_sender queue senders = lookup queue senders

-- `senders_.emplace(queue, sender)`, which keeps a sender that is there.
unfoldable pub add_sender : Bytes → QueueSender → Senders → Senders
add_sender queue sender senders = elim (lookup queue senders) [
  | none ↦ insert queue sender senders
  | some old ↦ senders
]

-- `get_sender(name)`, and `send` where it is there.
unfoldable pub send_to : Senders → Bytes → IpcMessage → Sent
unfolding get_sender send
send_to senders name m = elim (get_sender name senders) [ none ↦ [] | some sender ↦ send sender m ]

-- A class derived from `Service`: the state of its object and its `handle`. A message that is thrown
-- out of `handle` leaves that state as it was.
pub record ServiceClass : Type 1 where
  pub State : Type 0
  pub handle : State → IpcMessage → Result (State × Sent)

-- Where the receiving thread stands: the messages posted to the pool, `running_`, and the queue.
pub record Received : Type 0 where
  pub posted : List IpcMessage
  pub running : Bool
  pub queue : List IpcMessage

abbrev post : IpcMessage → Received → Received
post m r = record r { posted = m ∷ r.posted }

-- `receiveLoop` over what stands in the queue; on an empty queue it waits in `receive`.
unfoldable pub receive_loop : List IpcMessage → Received
receive_loop [] = record { posted = []; running = true; queue = [] }
receive_loop (poison_pill ∷ queue) = record { posted = []; running = false; queue = queue }
receive_loop (job_message j ∷ queue) = post (job_message j) (receive_loop queue)

-- `stop`; the thread that it would join is never started.
unfoldable pub stop : Received → Received
stop r = if not r.running then r else record r { running = false }

module _ (C : ServiceClass) where
  open C use {State, handle}

  -- The task that is posted for a message: both of its `catch` clauses log and go on.
  unfoldable pub task : State → IpcMessage → Result (State × Sent)
  task s m = catch (handle s m) (λ what. ok (s, []))

  -- The pool works through tasks in some order.
  unfoldable pub run_tasks : State → List IpcMessage → Result (State × Sent)
  run_tasks s [] = ok (s, [])
  run_tasks s (m ∷ ms) = do
    first ← task s m
    later ← run_tasks first.0 ms
    ok (later.0, first.1 ++ later.1)

  -- `start`, where the pool takes the messages in order.
  unfoldable pub start : State → List IpcMessage → Result (State × Sent × Received)
  start s queue = do
    let received = receive_loop queue
    result ← run_tasks s received.posted
    ok (result.0, result.1, received)
