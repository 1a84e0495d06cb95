-- ===== src/Qm/Handler.antt =====
-- src/qm/include/qm_service.h, src/qm/src/qm_service.cpp and the senders of src/qm/src/main.cpp.
use file_inspect_key_analyse.Base.{codes, eq_bytes, [], Result, ok, ◌>>=◌, lookup, insert}
use file_inspect_key_analyse.Global.FileJob.{IpcMessage, job_message, poison_pill}
use file_inspect_key_analyse.Util.Pickup.{FileSystem}
use file_inspect_key_analyse.Global.Service.{
  ServiceClass, msg_queue_sender, null_sender, Senders, Sent, add_sender,
}
use file_inspect_key_analyse.Queues.{detect_queue, parse_queue}
use file_inspect_key_analyse.Global.Service.{send_to}
use file_inspect_key_analyse.Qm.{Qm, process_results}

-- The senders that `main` adds, in its order.
unfoldable pub qm_senders : Senders
unfolding add_sender insert lookup eq_bytes
qm_senders = add_sender (codes "null_sender") null_sender (
    add_sender (codes "detect") (msg_queue_sender detect_queue)
      (add_sender (codes "parse") (msg_queue_sender parse_queue) []))

module _ (F : FileSystem) where
  -- `qm_service::handle`
  unfoldable pub handle_qm : Senders → Qm F → IpcMessage → Result (Qm F × Sent)
  handle_qm senders q (job_message job) = do
    r ← process_results F q job
    ok (r.0, send_to senders r.1.0 (job_message r.1.1))
  handle_qm senders q poison_pill = ok (q, [])

  -- The class with the senders of `main`.
  abbrev pub qm_service : ServiceClass
  qm_service = record { State = Qm F; handle = handle_qm qm_senders }
