-- ===== src/Global/FileJob/RoundTrip.antt =====
-- A job that is sent through shared memory: what arrives, and when it is what was sent.
use file_inspect_key_analyse.Base.{
  >>=-ok_parts, refl, Bytes, ◌≤◌, ◌≡◌, take, take_all, length, false, ok, arith,
}
use file_inspect_key_analyse.Global.CString.{read_c_string, zeros, c_str, IsTerminated, HasNoNul}
use file_inspect_key_analyse.Global.CString.Laws.{
  read_c_string-strncpy, strncpy-IsTerminated, length-strncpy, read_c_string_ok, c_str_id,
}
use file_inspect_key_analyse.Global.FileJob.{FileJob, FileJobShm, to_file_job, from_file_job}

-- What the arrays have room for.
abbrev pub truncated : FileJob → FileJob
truncated j = record j {
  job_id = take 63 (c_str j.job_id);
  path = take 255 (c_str j.path);
  stop = false;
}

-- The arrays have their sizes and end in NUL, as every job that the code builds does.
pub record IsWellFormed (j : FileJobShm) : Type 0 where
  pub id_size : length j.job_id ≡ 64
  pub path_size : length j.path ≡ 256
  pub id_terminated : IsTerminated j.job_id
  pub path_terminated : IsTerminated j.path

-- The text fits into the arrays.
pub record Fits (j : FileJob) : Type 0 where
  pub id_fits : length j.job_id ≤ 63
  pub path_fits : length j.path ≤ 255
  pub id_plain : HasNoNul j.job_id
  pub path_plain : HasNoNul j.path

pub from_file_job-IsWellFormed : (j : FileJob) → IsWellFormed (from_file_job j)
unfolding from_file_job
from_file_job-IsWellFormed j = record {
  id_size = length-strncpy 63 j.job_id (zeros 64);
  path_size = length-strncpy 255 j.path (zeros 256);
  id_terminated = strncpy-IsTerminated 63 j.job_id;
  path_terminated = strncpy-IsTerminated 255 j.path;
}

-- Sending a job through shared memory never reads past an array; it cuts the id and the path at the
-- size of their arrays and drops `stop`.
pub to_file_job-from_file_job : (j : FileJob) → to_file_job (from_file_job j) ≡ ok (truncated j)
unfolding to_file_job from_file_job
to_file_job-from_file_job j =
    rw (read_c_string-strncpy 63 j.job_id, read_c_string-strncpy 255 j.path)

-- A job whose texts fit, and which is not stopped, arrives unchanged.
pub to_file_job-from_file_job-Fits :
    (j : FileJob) → Fits j → j.stop ≡ false → to_file_job (from_file_job j) ≡ ok j
to_file_job-from_file_job-Fits j f s = rw to_file_job-from_file_job (
    simp
      (
        c_str_id j.job_id f.id_plain,
        c_str_id j.path f.path_plain,
        take_all 63 j.job_id f.id_fits,
        take_all 255 j.path f.path_fits,
      )
      (cc))

-- The job that a message stands for, by the texts in its arrays.
abbrev pub as_file_job : FileJobShm → Bytes → Bytes → FileJob
as_file_job j id path = record {
  job_id = id;
  path = path;
  attempts = j.attempts;
  status = j.status;
  type = j.type;
  mime = j.mime;
  stop = false;
}

-- A message and the job that is read from it.
pub record Carries (m : FileJobShm) (j : FileJob) : Type 0 where
  pub well_formed : IsWellFormed m
  pub read : to_file_job m ≡ ok j
  pub fits : Fits j
  pub not_stopped : j.stop ≡ false

-- A well-formed message can be read: the texts in its arrays are those of the job.
pub to_file_job_ok :
    (m : FileJobShm) → IsWellFormed m → (id path : Bytes) × Carries m (as_file_job m id path)
unfolding to_file_job
to_file_job_ok m w =
    let (id, id_read, short, plain) = read_c_string_ok m.job_id w.id_terminated in
    let (path, path_read, near, clean) = read_c_string_ok m.path w.path_terminated in
    (
      id,
      path,
      record {
        well_formed = w;
        read = rw (id_read, path_read);
        fits = record {
          id_fits = omega arith;
          path_fits = omega arith;
          id_plain = plain;
          path_plain = clean;
        };
        not_stopped = refl;
      },
    )

-- A job that fits is carried by the message that is made of it.
pub from_file_job-Carries : (j : FileJob) → Fits j → j.stop ≡ false → Carries (from_file_job j) j
from_file_job-Carries j f s = record {
  well_formed = from_file_job-IsWellFormed j;
  read = to_file_job-from_file_job-Fits j f s;
  fits = f;
  not_stopped = s;
}

-- What was read from a message is the message's own, but for the texts.
pub to_file_job_inv :
    (m : FileJobShm) (j : FileJob)
    → to_file_job m ≡ ok j
    → (id path : Bytes) × (j ≡ as_file_job m id path)
unfolding to_file_job
to_file_job_inv m j h =
    let (id, id_read, rest) = >>=-ok_parts (read_c_string m.job_id) _ h in
    let (path, path_read, built) = >>=-ok_parts (read_c_string m.path) _ rest in (id, path, cc)
