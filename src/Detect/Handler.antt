-- ===== src/Detect/Handler.antt =====
-- src/detect/include/detect_service.h and src/detect/src/detect_service.cpp, with the sender that
-- src/detect/src/main.cpp adds.
use file_inspect_key_analyse.Base.{
  Bytes, codes, eq_bytes, not, List, [], if◌then◌else◌, Result, ok, ◌>>=◌, lookup, insert,
}
use file_inspect_key_analyse.Global.FileJob.{
  FileJobShm, detecting, failed, IpcMessage, job_message, poison_pill,
}
use file_inspect_key_analyse.Global.Service.{
  ServiceClass, msg_queue_sender, Senders, Sent, add_sender,
}
use file_inspect_key_analyse.Global.MimeType.{map_type}
use file_inspect_key_analyse.Global.CString.{read_c_string}
use file_inspect_key_analyse.Queues.{qm_queue}
use file_inspect_key_analyse.Global.Service.{send_to}
use file_inspect_key_analyse.Detect.{FileDetector, detect_file, octet_stream}

unfoldable pub detect_senders : Senders
unfolding add_sender insert lookup
detect_senders = add_sender (codes "qm") (msg_queue_sender qm_queue) []

-- The message that the service sends back for a detected name.
unfoldable pub detected_job : FileJobShm → Bytes → FileJobShm
detected_job job mime = record job {
  mime = map_type mime;
  status = if not (eq_bytes mime octet_stream) then detecting else failed;
}

-- `detect_service::handle`; the two texts are read first.
unfoldable pub handle_detect :
    Senders → List FileDetector → IpcMessage → Result (List FileDetector × Sent)
handle_detect senders detectors (job_message job) = do
  id ← read_c_string job.job_id
  path ← read_c_string job.path
  result ← detect_file tt detectors path
  let job_from_msg = detected_job job result.mime_type
  ok (detectors, send_to senders (codes "qm") (job_message job_from_msg))
handle_detect senders detectors poison_pill = ok (detectors, [])

-- The class with the sender of `main`.
abbrev pub detect_service : ServiceClass
detect_service = record { State = List FileDetector; handle = handle_detect detect_senders }
