-- ===== src/Network.antt =====
-- The three services at work on their queues: which messages they may take, in any order, since each
-- posts its messages to a pool of threads, and where the answers go.
pub mod Rank
pub mod Answers
pub mod Termination
pub mod Safety
pub mod Progress
pub mod Fate
pub mod Threads
pub mod Journey
use file_inspect_key_analyse.Base.{
  ℕ, ℤ, zero, suc, pos, ◌+◌, ◌-◌, ◌≤◌, ◌<◌, ◌*◌, Bytes, String, codes, eq_bytes, eq_bytes_iff,
  eq_bytes_refl, is_empty, starts_with, starts_with-append, Bool, true, false, not, ◌&&◌, ◌||◌,
  List, [], ◌∷◌, ◌++◌, map, All, All-append, Memᴰ, Option, none, some, if◌then◌else◌, ◌≡◌, refl,
  sym, ap, ◌∙◌, ◌⊎◌, inl, inr, ◌≢◌, ◌↔◌, arith, Bool-cases, Result, ok, thrown, undefined, ◌>>=◌,
  catch, Dict, lookup, insert, lookup-insert, length, take, drop, replicate, ltb, ◌==◌,
  length-append, drop-add, drop-append, take-append,
}
use file_inspect_key_analyse.Global.FileJob.{
  FileJob, FileJobShm, Status, new, detecting, parsing, done, failed, Event, submit, detection_ok,
  detection_fail, parse_ok, parse_fail, JobType, detector, parser, no_type, empty_job_shm,
  to_file_job, from_file_job, IpcMessage, job_message, poison_pill,
}
use file_inspect_key_analyse.Global.Service.{
  ServiceClass, QueueSender, msg_queue_sender, null_sender, Senders, Sent, send, get_sender,
  add_sender, send_to,
}
use file_inspect_key_analyse.Global.MimeType.{
  MimeType, unknown, ms_office_word, ms_office_excel, ms_office_power_point, pdf, image_jpeg,
  image_png, text_plain, map_type, eq_type,
}
use file_inspect_key_analyse.Global.CString.{read_c_string}
use file_inspect_key_analyse.Global.FileJob.RoundTrip.{
  IsWellFormed, Carries, Fits, as_file_job, to_file_job_ok,
}
use file_inspect_key_analyse.Queues.{qm_queue, detect_queue, parse_queue}
use file_inspect_key_analyse.Qm.Handler.{qm_senders, handle_qm, qm_service}
use file_inspect_key_analyse.Util.Pickup.{FileSystem, remove_file}
use file_inspect_key_analyse.Detect.{FileDetector, DetectionResult, detect_file, octet_stream}
use file_inspect_key_analyse.Detect.Handler.{
  handle_detect, detect_service, detect_senders, detected_job,
}
use file_inspect_key_analyse.Parse.{ParserRegistry, registered, find_parser}
use file_inspect_key_analyse.Parse.Handler.{handle_parse, parse_service, parse_senders, process_job}
use file_inspect_key_analyse.Parse.Outcome.{process_job_lem, process_job_empty}
use file_inspect_key_analyse.Qm.{
  Qm, Routed, queue_of, handle_event, add_job, on_status, process_results,
}
use file_inspect_key_analyse.Qm.Routing.{process_results-Routes, Routes, advanced, destination}
use file_inspect_key_analyse.Global.Service.{task}

module _ (F : FileSystem) (Parser : Type 0) where
  pub record Net : Type 0 where
    pub qm_inbox : List IpcMessage
    pub detect_inbox : List IpcMessage
    pub parse_inbox : List IpcMessage
    pub qm : Qm F
    pub detectors : List FileDetector
    pub registry : ParserRegistry Parser

  -- A message is put on the queue of this name.
  unfoldable pub put : Net → Bytes → IpcMessage → Net
  put n queue m =
      if eq_bytes queue qm_queue
      then record n { qm_inbox = n.qm_inbox ++ m ∷ [] }
      else if eq_bytes queue detect_queue
      then record n { detect_inbox = n.detect_inbox ++ m ∷ [] }
      else if eq_bytes queue parse_queue
      then record n { parse_inbox = n.parse_inbox ++ m ∷ [] }
      else n

  unfoldable pub deliver : Net → Sent → Net
  deliver n [] = n
  deliver n ((queue, m) ∷ sent) = deliver (put n queue m) sent

  -- A service takes a job out of its queue, and its task for it is run to the end. Where a pill stands
  -- in a queue these are more steps than the service has, which stops at the pill: what is shown of
  -- every run holds of its runs too, and what needs a step is shown of queues with no pill.
  pub data Step (n u : Net) : Type 0 where
    qm_takes :
        (before after : List IpcMessage) (job : FileJobShm) (q : Qm F) (sent : Sent)
        → n.qm_inbox ≡ before ++ job_message job ∷ after
        → task (qm_service F) n.qm (job_message job) ≡ ok (q, sent)
        → u ≡ deliver (record n { qm_inbox = before ++ after; qm = q }) sent
        → Step n u
    detect_takes :
        (before after : List IpcMessage) (job : FileJobShm) (ds : List FileDetector) (sent : Sent)
        → n.detect_inbox ≡ before ++ job_message job ∷ after
        → task detect_service n.detectors (job_message job) ≡ ok (ds, sent)
        → u ≡ deliver (record n { detect_inbox = before ++ after; detectors = ds }) sent
        → Step n u
    parse_takes :
        (before after : List IpcMessage) (job : FileJobShm) (ps : ParserRegistry Parser)
        (sent : Sent)
        → n.parse_inbox ≡ before ++ job_message job ∷ after
        → task (parse_service Parser) n.registry (job_message job) ≡ ok (ps, sent)
        → u ≡ deliver (record n { parse_inbox = before ++ after; registry = ps }) sent
        → Step n u

  -- A run of so many steps.
  pub data Run (n : Net) : ℕ → Net → Type 0 where
    here : Run n 0 n
    next : {k : ℕ} {t u : Net} → Run n k t → Step t u → Run n (suc k) u
