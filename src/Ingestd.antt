-- ===== src/Ingestd.antt =====
-- src/ingestd/src/ingestd.cpp: an upload becomes a file in the spool and a job for the queue manager.
-- The clock, the random numbers, streams and queues are parameters.
pub mod Submission
pub mod Ids
pub mod Uploads
pub mod Main
use file_inspect_key_analyse.Global.FilePath.{join_path}
use file_inspect_key_analyse.Base.{
  ℕ, Bytes, codes, starts_with, Bool, true, List, [], ◌∷◌, ◌++◌, if◌then◌else◌, Result, ok, ◌>>=◌,
  ◌==◌,
}
use file_inspect_key_analyse.Global.CString.{copy_terminated}
use file_inspect_key_analyse.Global.FileJob.{FileJobShm, IpcMessage, job_message, empty_job_shm}
use file_inspect_key_analyse.Util.Pickup.{FileSystem, value, unexpected, move_file}

-- `mq_.send` on the queue of the queue manager: what has been sent then, behind what had been sent
-- before, or an exception.
abbrev pub MqSend : Type 0
MqSend = List IpcMessage → IpcMessage → Result (List IpcMessage)

-- `generate_unique_id`, with the decimal texts of the time and of the random number.
unfoldable pub generate_unique_id : Bytes → Bytes → Bytes
generate_unique_id t rand_hex = codes "job_" ++ (t ++ rand_hex)

-- What `ingestd` works on: the disk, what the queue manager's queue has been sent, and the answers.
pub record Response : Type 0 where
  pub status : ℕ
  pub content : Bytes

module _ (F : FileSystem) where
  pub record Ingestd : Type 0 where
    pub spool_dir : Bytes
    pub disk : F.Disk
    pub sent : List IpcMessage

  -- The job that `handle_file` makes.
  unfoldable pub submitted : Bytes → Bytes → Result FileJobShm
  submitted uuid dst = do
    id ← copy_terminated 63 uuid
    path ← copy_terminated 255 dst
    ok (record empty_job_shm { job_id = id; path = path })

  -- `ingestd::handle_file`
  unfoldable pub handle_file : MqSend → Bytes → Bytes → Bytes → Ingestd → Result Ingestd
  unfolding submitted
  handle_file mq_send uuid tmp_path filename self =
      let dst = join_path self.spool_dir filename in
      let r = move_file F self.disk tmp_path dst in
      let moved = record self { disk = r.0 } in
      elim r.1 [
        | value ↦ submitted uuid dst >>= λ job.
            mq_send moved.sent (job_message job) >>= λ sent. ok (record moved { sent = sent })
        | unexpected ec ↦ ok moved
      ]

  -- The handler of `/upload`. `write_file` is the stream, `incoming` the configured directory,
  -- and `now` the decimal text of the time.
  unfoldable pub upload :
      MqSend
      → (F.Disk → Bytes → Bytes → F.Disk)
      → Bytes
      → Bytes
      → Bytes
      → Bytes
      → Ingestd
      → Result (Ingestd × Response)
  upload mq_send write_file incoming now uuid [] self =
      ok (self, record { status = 400; content = codes "No data in request\n" })
  upload mq_send write_file incoming now uuid (b ∷ body) self = do
    let filename = codes "upload_" ++ now
    let tmp = join_path incoming filename
    self' ←
        handle_file mq_send uuid tmp filename
          (record self { disk = write_file self.disk tmp (b ∷ body) })
    ok (self', record { status = 200; content = codes "Job submitted\n" })
