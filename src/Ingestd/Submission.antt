-- ===== src/Ingestd/Submission.antt =====
-- What becomes of an upload: the file is moved and the queue manager gets a job for it, or neither.
use file_inspect_key_analyse.Base.{
  Result, List, thrown, undefined, ◌≢◌, ℕ, pos, Bytes, false, ◌≡◌, refl, ok, take,
}
use file_inspect_key_analyse.Global.CString.{c_str}
use file_inspect_key_analyse.Global.CString.Laws.{copy_terminated_ok, read-IsTerminated}
use file_inspect_key_analyse.Global.FileJob.{
  IpcMessage, FileJob, FileJobShm, new, detector, empty_job_shm, to_file_job, job_message,
}
use file_inspect_key_analyse.Global.MimeType.{unknown}
use file_inspect_key_analyse.Util.Pickup.{FileSystem, Expected, value, unexpected, move_file}
use file_inspect_key_analyse.Global.FilePath.{join_path}
use file_inspect_key_analyse.Global.FileJob.RoundTrip.{IsWellFormed}
use file_inspect_key_analyse.Ingestd.{MqSend, Ingestd, submitted, handle_file}

-- The job that is to be read.
abbrev pub new_job : Bytes → Bytes → FileJob
new_job uuid dst = record {
  job_id = take 63 (c_str uuid);
  path = take 255 (c_str dst);
  attempts = pos 0;
  status = new;
  type = detector;
  mime = unknown;
  stop = false;
}

-- The message of a job can be read, and the job is new.
abbrev pub IsSubmitted : FileJobShm → Type 0
IsSubmitted m = IsWellFormed m × (m.status ≡ new)

pub submitted_ok :
    (F : FileSystem) (uuid dst : Bytes)
    → (m : FileJobShm) × (submitted F uuid dst ≡ ok m)
      × (to_file_job m ≡ ok (new_job uuid dst))
      × IsSubmitted m
unfolding submitted to_file_job empty_job_shm
submitted_ok F uuid dst =
    let (id, id_made, id_read, id_size) = copy_terminated_ok 63 uuid in
    let (path, path_made, path_read, path_size) = copy_terminated_ok 255 dst in
    (
      record empty_job_shm { job_id = id; path = path },
      rw (id_made, path_made),
      rw (id_read, path_read),
      (
        record {
          id_size = id_size;
          path_size = path_size;
          id_terminated = read-IsTerminated id _ id_read;
          path_terminated = read-IsTerminated path _ path_read;
        },
        refl,
      ),
    )

module _ (F : FileSystem) (uuid tmp_path filename : Bytes) (self : Ingestd F) where
  abbrev pub target : Bytes
  target = join_path self.spool_dir filename

  abbrev pub after_move : Ingestd F
  after_move = record self { disk = (move_file F self.disk tmp_path target).0 }

  -- The three ways in which a file can be handled.
  pub data Handled (mq_send : MqSend) : Type 0 where
    queued :
        (m : FileJobShm) (sent : List IpcMessage)
        → (move_file F self.disk tmp_path target).1 ≡ value
        → to_file_job m ≡ ok (new_job uuid target)
        → mq_send self.sent (job_message m) ≡ ok sent
        → handle_file F mq_send uuid tmp_path filename self ≡ ok (record after_move { sent = sent })
        → Handled mq_send
    lost :
        (m : FileJobShm) (what : Bytes)
        → (move_file F self.disk tmp_path target).1 ≡ value
        → to_file_job m ≡ ok (new_job uuid target)
        → mq_send self.sent (job_message m) ≡ thrown what
        → handle_file F mq_send uuid tmp_path filename self ≡ thrown what
        → Handled mq_send
    kept :
        (ec : ℕ)
        → (move_file F self.disk tmp_path target).1 ≡ unexpected ec
        → handle_file F mq_send uuid tmp_path filename self ≡ ok after_move
        → Handled mq_send

  -- Whatever the texts are, if a send returns or throws, a file is handled in one of three ways. The move
  -- has succeeded, and one more message is sent, which the queue manager reads as a new job for the
  -- detector with the id and the target path, cut at their first NUL and at the arrays' limits; or the
  -- send of this message throws, and so does the handler, after the move; or the move has failed, and
  -- the handler goes on with nothing sent.
  pub handle_file_lem :
      (mq_send : MqSend)
      → ((sent : List IpcMessage) (m : IpcMessage) → mq_send sent m ≢ undefined)
      → Handled mq_send
  unfolding handle_file
  handle_file_lem mq_send defined = go (move_file F self.disk tmp_path target).1 refl
    where
      sending :
          (m : FileJobShm)
          → submitted F uuid target ≡ ok m
          → to_file_job m ≡ ok (new_job uuid target)
          → (move_file F self.disk tmp_path target).1 ≡ value
          → (r : Result (List IpcMessage)) → mq_send self.sent (job_message m) ≡ r
          → Handled mq_send
      sending m made read e (ok sent) went =
          queued m sent e read went (rw (e, handle_file) (rw made (rw went refl)))
      sending m made read e (thrown what) failed =
          lost m what e read failed (rw (e, handle_file) (rw made (rw failed refl)))
      sending m made read e undefined bad = absurd (defined self.sent (job_message m) bad)

      go : (r : Expected) → (move_file F self.disk tmp_path target).1 ≡ r → Handled mq_send
      go value e =
          let (m, made, read, _) = submitted_ok F uuid target in
          sending m made read e (mq_send self.sent (job_message m)) refl
      go (unexpected ec) e = kept ec e (rw (e, handle_file) refl)
