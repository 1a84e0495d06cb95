-- ===== src/Tests/Data.antt =====
-- A job, its message, and a network that it has just been submitted to.
use file_inspect_key_analyse.Base.{pos, Bytes, codes, false, [], ◌∷◌, arith, ok, thrown}
use file_inspect_key_analyse.Global.FileJob.{
  FileJob, FileJobShm, new, detector, from_file_job, job_message,
}
use file_inspect_key_analyse.Global.MimeType.{unknown}
use file_inspect_key_analyse.Global.FileJob.RoundTrip.{IsWellFormed, Fits}
use file_inspect_key_analyse.Detect.{FileDetector}
use file_inspect_key_analyse.Qm.{Qm}
use file_inspect_key_analyse.Tests.Disk.{memory}
use file_inspect_key_analyse.Global.FileJob.RoundTrip.{from_file_job-IsWellFormed}
use file_inspect_key_analyse.Network.{Net}
use file_inspect_key_analyse.Network.Safety.{IsSound}

abbrev pub path : Bytes
path = codes "/spool/new/upload_1"

-- The job as `ingestd` submits it.
abbrev pub job : FileJob
job = record {
  job_id = codes "job_17";
  path = path;
  attempts = pos 0;
  status = new;
  type = detector;
  mime = unknown;
  stop = false;
}

pub job-Fits : Fits job
job-Fits = record { id_fits = omega arith; path_fits = omega arith; id_plain = tt; path_plain = tt }

abbrev pub message : FileJobShm
message = from_file_job job

pub message-IsWellFormed : IsWellFormed message
message-IsWellFormed = from_file_job-IsWellFormed job

-- A detector that takes every file for a PDF, and one that fails.
abbrev pub pdf_detector : FileDetector
pdf_detector = record { detect = λ file. ok (codes "application/pdf"); name = codes "libmagic" }

abbrev pub silent_detector : FileDetector
silent_detector = record { detect = λ file. ok []; name = codes "none" }

abbrev pub broken_detector : FileDetector
broken_detector = record { detect = λ file. thrown (codes "magic"); name = codes "broken" }

abbrev pub manager : Qm memory
manager = record { jobs_in_memory = []; disk = path ∷ [] }

abbrev pub net : Net memory Unit
net = record {
  qm_inbox = job_message message ∷ [];
  detect_inbox = [];
  parse_inbox = [];
  qm = manager;
  detectors = pdf_detector ∷ [];
  registry = [];
}

pub net-IsSound : IsSound memory Unit net
net-IsSound = record {
  qm_readable = (message-IsWellFormed, tt);
  detect_readable = tt;
  parse_readable = tt;
  detectors_defined = (λ file e. cc, tt);
}
