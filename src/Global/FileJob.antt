-- ===== src/Global/FileJob.antt =====
-- src/global/include/file_job.h and src/global/src/file_job.cpp: a job, its form in shared memory,
-- and the message that the queues carry.
pub mod RoundTrip
use file_inspect_key_analyse.Base.{Bytes, ℕ, ℤ, pos, Bool, false, Result, ok, ◌>>=◌}
use file_inspect_key_analyse.Global.CString.{zeros, strncpy, read_c_string}
use file_inspect_key_analyse.Global.MimeType.{MimeType, unknown}

abbrev pub max_id_size : ℕ
max_id_size = 64

abbrev pub max_path_size : ℕ
max_path_size = 256

pub data Status : Type 0 where
  new detecting parsing done failed : Status

pub data Event : Type 0 where
  submit detection_ok detection_fail parse_ok parse_fail : Event

pub data JobType : Type 0 where
  detector parser no_type : JobType

pub record FileJob : Type 0 where
  pub job_id : Bytes
  pub path : Bytes
  pub attempts : ℤ
  pub status : Status
  pub type : JobType
  pub mime : MimeType
  pub stop : Bool

pub record FileJobShm : Type 0 where
  pub job_id : Bytes
  pub path : Bytes
  pub attempts : ℤ
  pub status : Status
  pub type : JobType
  pub mime : MimeType

-- `file_job_shm{}`: zero is `NEW`, `DETECTOR` and `Unknown`.
unfoldable pub empty_job_shm : FileJobShm
empty_job_shm = record {
  job_id = zeros max_id_size;
  path = zeros max_path_size;
  attempts = pos 0;
  status = new;
  type = detector;
  mime = unknown;
}

unfoldable pub to_file_job : FileJobShm → Result FileJob
to_file_job job_shm = do
  id ← read_c_string job_shm.job_id
  name ← read_c_string job_shm.path
  ok (record {
    job_id = id;
    path = name;
    attempts = job_shm.attempts;
    status = job_shm.status;
    type = job_shm.type;
    mime = job_shm.mime;
    stop = false;
  })

unfoldable pub from_file_job : FileJob → FileJobShm
from_file_job fjob = record {
  job_id = strncpy 63 fjob.job_id (zeros max_id_size);
  path = strncpy 255 fjob.path (zeros max_path_size);
  attempts = fjob.attempts;
  status = fjob.status;
  type = fjob.type;
  mime = fjob.mime;
}

-- `std::variant<file_job_shm, poison_pill>`
pub data IpcMessage : Type 0 where
  job_message : FileJobShm → IpcMessage
  poison_pill : IpcMessage
