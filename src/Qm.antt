-- ===== src/Qm.antt =====
-- src/qm: the queue manager, which keeps the jobs and says where each goes next.
pub mod Main
pub mod StateMachine
pub mod Routing
pub mod Handler
pub mod Race
use file_inspect_key_analyse.Base.{
  ℕ, ℤ, zero, suc, pos, ◌+◌, ◌-◌, ◌≤◌, ◌<◌, ◌*◌, Bytes, String, codes, eq_bytes, eq_bytes_iff,
  eq_bytes_refl, is_empty, starts_with, starts_with-append, Bool, true, false, not, ◌&&◌, ◌||◌,
  List, [], ◌∷◌, ◌++◌, map, All, All-append, Memᴰ, Option, none, some, if◌then◌else◌, ◌≡◌, refl,
  sym, ap, ◌∙◌, ◌⊎◌, inl, inr, ◌≢◌, ◌↔◌, arith, Bool-cases, Result, ok, thrown, undefined, ◌>>=◌,
  catch, Dict, lookup, insert, lookup-insert, length, take, drop, replicate, ltb, ◌==◌,
  length-append, drop-add, drop-append, take-append,
}
use file_inspect_key_analyse.Global.FileJob.{
  FileJob, FileJobShm, Status, new, detecting, parsing, done, failed, Event, submit, detection_ok,
  detection_fail, parse_ok, parse_fail, JobType, detector, parser, no_type, empty_job_shm,
  to_file_job, from_file_job, IpcMessage, job_message, poison_pill,
}
use file_inspect_key_analyse.Util.Pickup.{FileSystem, remove_file}
use StateMachine.{apply}

-- Where a job goes, by the name of a sender, and the message for it.
abbrev pub Routed : Type 0
Routed = Bytes × FileJobShm

-- The `switch` on the job's type.
unfoldable pub queue_of : JobType → Bytes
queue_of detector = codes "detect"
queue_of parser = codes "parse"
queue_of no_type = []

-- `qm::handle_event`
unfoldable pub handle_event : FileJob → Event → Routed
unfolding queue_of
handle_event job event =
    let (job', applied) = apply job event in
    let fjob = if applied then from_file_job job' else empty_job_shm in (queue_of job'.type, fjob)

module _ (F : FileSystem) where
  -- The class `qm`, and the disk that its `pickup_service` works on.
  pub record Qm : Type 0 where
    pub jobs_in_memory : Dict FileJob
    pub disk : F.Disk

  -- `qm::add_job`
  unfoldable pub add_job : Qm → FileJob → Qm × Routed
  add_job q job =
      let job' = record job { status = new } in
      (
        record q { jobs_in_memory = insert job.job_id job' q.jobs_in_memory },
        handle_event job' submit,
      )

  -- The `switch` of `process_results`, on the job as it was sent and as it was read.
  unfoldable pub on_status : Status → Qm → FileJobShm → FileJob → Qm × Routed
  on_status new q job extended_job = add_job q extended_job
  on_status detecting q job extended_job = (q, handle_event extended_job detection_ok)
  on_status failed q job extended_job = (q, (codes "fail", job))
  on_status parsing q job extended_job = (q, handle_event extended_job parse_ok)
  on_status done q job extended_job = (
    record q { disk = (remove_file F q.disk extended_job.path).0 },
    (codes "null_sender", empty_job_shm),
  )

  -- `qm::process_results`
  unfoldable pub process_results : Qm → FileJobShm → Result (Qm × Routed)
  unfolding on_status
  process_results q job = do
    extended_job ← to_file_job job
    ok (on_status extended_job.status q job extended_job)
