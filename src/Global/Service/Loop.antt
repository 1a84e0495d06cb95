-- ===== src/Global/Service/Loop.antt =====
-- The receiving loop takes the messages up to the poison pill, each of them and in order, and leaves
-- what stands behind it.
use file_inspect_key_analyse.Base.{
  Bytes, eq_bytes, eq_bytes_iff, true, false, List, [], ◌∷◌, ◌++◌, map, none, some, if◌then◌else◌,
  ◌≡◌, refl, ap, arith, lookup-insert,
}
use file_inspect_key_analyse.Global.FileJob.{FileJobShm, IpcMessage, job_message, poison_pill}
use file_inspect_key_analyse.Global.Service.{
  Received, receive_loop, QueueSender, Senders, get_sender, add_sender,
}

abbrev pub jobs : List FileJobShm → List IpcMessage
jobs = map job_message

-- With a pill in the queue.
receive_loop_pill :
    (js : List FileJobShm) (queue : List IpcMessage)
    → receive_loop (jobs js ++ poison_pill ∷ queue)
      ≡ record { posted = jobs js; running = false; queue = queue }
unfolding receive_loop
receive_loop_pill [] queue = refl
receive_loop_pill (j ∷ js) queue = rw (receive_loop_pill js queue)

-- What the loop has done with a queue, whatever stands in it.
pub record IsReceived (queue : List IpcMessage) (r : Received) : Type 0 where
  pub jobs_posted : (js : List FileJobShm) × (r.posted ≡ jobs js)
  pub kept : (r.running ≡ false) → queue ≡ r.posted ++ poison_pill ∷ r.queue
  pub all_posted : (r.running ≡ true) → (queue ≡ r.posted) × (r.queue ≡ [])

-- Only jobs are posted; the loop has ended exactly behind the first pill, and has otherwise posted
-- the whole queue.
pub receive_loop-IsReceived : (queue : List IpcMessage) → IsReceived queue (receive_loop queue)
unfolding receive_loop
receive_loop-IsReceived [] = record {
  jobs_posted = ([], refl);
  kept = λ h. cc;
  all_posted = λ h. (refl, refl);
}
receive_loop-IsReceived (poison_pill ∷ queue) = record {
  jobs_posted = ([], refl);
  kept = λ h. refl;
  all_posted = λ h. cc;
}
receive_loop-IsReceived (job_message j ∷ queue) =
    let r = receive_loop-IsReceived queue in
    record {
      jobs_posted = (j ∷ r.jobs_posted.0, ap (◌∷◌ (job_message j)) r.jobs_posted.1);
      kept = λ h. ap (◌∷◌ (job_message j)) (r.kept h);
      all_posted = λ h. (ap (◌∷◌ (job_message j)) (r.all_posted h).0, (r.all_posted h).1);
    }

-- The first sender that is added under a name is the one that is found.
get_sender-add_sender :
    (queue name : Bytes) (sender : QueueSender) (senders : Senders)
    → get_sender name (add_sender queue sender senders) ≡ (elim (get_sender name senders) [
      | some old ↦ some old
      | none ↦ if eq_bytes queue name then some sender else none
    ])
unfolding get_sender add_sender
get_sender-add_sender queue name sender senders =
    ground (arith, lookup-insert queue name sender senders, eq_bytes_iff queue name)
