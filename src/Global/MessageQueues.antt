-- ===== src/Global/MessageQueues.antt =====
-- src/global/include/message_queues.h and src/global/src/message_queues.cpp: one job at a time over a
-- queue of boost, which is a parameter.
use file_inspect_key_analyse.Base.{ℕ, ◌<◌, Bytes, ◌≡◌, Result, ok, thrown, ◌>>=◌}
use file_inspect_key_analyse.Global.FileJob.{FileJobShm}

-- What the code uses of `message_queue`: `receive` is given the size of the buffer.
pub record JobQueueApi : Type 1 where
  pub Ipc : Type 0
  pub Queue : Type 0
  pub open_only : Ipc → Bytes → Result Queue
  pub send : Ipc → Queue → FileJobShm → ℕ → ℕ → Result Ipc
  pub receive : Ipc → Queue → ℕ → Result (Ipc × FileJobShm)
  pub max_msg_size : Ipc → Queue → ℕ

module _ (A : JobQueueApi) (job_size : ℕ) where
  open A use {Ipc, Queue, open_only, send, receive}

  pub record BoostJobSender : Type 0 where
    pub mq : Queue

  pub record BoostJobReceiver : Type 0 where
    pub mq : Queue

  -- The constructors.
  unfoldable pub boost_job_sender : Ipc → Bytes → Result BoostJobSender
  boost_job_sender ipc queue_name = do mq ← open_only ipc queue_name; ok (record { mq = mq })

  unfoldable pub boost_job_receiver : Ipc → Bytes → Result BoostJobReceiver
  boost_job_receiver ipc queue_name = do mq ← open_only ipc queue_name; ok (record { mq = mq })

  -- `boost_job_sender::send`
  unfoldable pub send_job : Ipc → BoostJobSender → FileJobShm → Result Ipc
  send_job ipc self job = send ipc self.mq job job_size 0

  -- `boost_job_receiver::receive`
  unfoldable pub receive_job : Ipc → BoostJobReceiver → Result (Ipc × FileJobShm)
  receive_job ipc self = receive ipc self.mq job_size

  -- boost refuses a buffer that is smaller than the largest message of the queue, so nothing is received
  -- from a queue that is made for larger messages.
  receive_job-thrown :
      (what : Bytes) (ipc : Ipc) (self : BoostJobReceiver)
      → ((q : Queue) (size : ℕ) → size < A.max_msg_size ipc q → receive ipc q size ≡ thrown what)
      → job_size < A.max_msg_size ipc self.mq
      → receive_job ipc self ≡ thrown what
  unfolding receive_job
  receive_job-thrown what ipc self refuses small = refuses self.mq job_size small
