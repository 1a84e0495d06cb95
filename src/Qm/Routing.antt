-- ===== src/Qm/Routing.antt =====
-- Where the queue manager sends a job: the pipeline's routing, for every status that a message has.
use file_inspect_key_analyse.Base.{Bytes, codes, ◌≡◌, refl, ◌∙◌, ok, insert}
use file_inspect_key_analyse.Global.FileJob.{
  empty_job_shm, FileJob, FileJobShm, Status, new, detecting, parsing, done, failed, JobType,
  detector, parser, from_file_job,
}
use file_inspect_key_analyse.Util.Pickup.{FileSystem, remove_file}
use file_inspect_key_analyse.Global.FileJob.RoundTrip.{IsWellFormed, as_file_job, to_file_job_ok}
use file_inspect_key_analyse.Qm.StateMachine.{apply}
use file_inspect_key_analyse.Qm.{
  Qm, Routed, queue_of, handle_event, add_job, on_status, process_results,
}
use file_inspect_key_analyse.Global.FileJob.RoundTrip.{Carries, from_file_job-Carries, Fits}

-- The status and the type with which a job is sent on; `done` and `failed` jobs go nowhere.
abbrev pub advanced : Status → FileJob → FileJob
advanced new job = record job { status = detecting; type = detector }
advanced detecting job = record job { status = parsing; type = parser }
advanced parsing job = record job { status = done }
advanced done job = job
advanced failed job = job

abbrev pub destination : Status → JobType → Bytes
destination new t = codes "detect"
destination detecting t = codes "parse"
destination parsing t = queue_of t
destination done t = codes "null_sender"
destination failed t = codes "fail"

advanced-Fits : (s : Status) (job : FileJob) → Fits job → Fits (advanced s job)
advanced-Fits new job f = record {
  id_fits = f.id_fits;
  path_fits = f.path_fits;
  id_plain = f.id_plain;
  path_plain = f.path_plain;
}
advanced-Fits detecting job f = record {
  id_fits = f.id_fits;
  path_fits = f.path_fits;
  id_plain = f.id_plain;
  path_plain = f.path_plain;
}
advanced-Fits parsing job f = record {
  id_fits = f.id_fits;
  path_fits = f.path_fits;
  id_plain = f.id_plain;
  path_plain = f.path_plain;
}
advanced-Fits done job f = f
advanced-Fits failed job f = f

advanced-stop : (s : Status) (job : FileJob) → (advanced s job).stop ≡ job.stop
advanced-stop new job = refl
advanced-stop _ job = refl

empty_job_shm-IsWellFormed : IsWellFormed empty_job_shm
unfolding empty_job_shm
empty_job_shm-IsWellFormed = record {
  id_size = refl;
  path_size = refl;
  id_terminated = tt;
  path_terminated = tt;
}

module _ (F : FileSystem) where
  -- What a job's status makes of the manager and its answer.
  abbrev pub Routes : Status → Qm F → FileJob → Qm F × Routed → Type 0
  Routes done q job r =
      (r.0 ≡ record q { disk = (remove_file F q.disk job.path).0 })
      × (r.1.0 ≡ codes "null_sender")
      × IsWellFormed r.1.1
  Routes new q job r =
      (r.0 ≡ record q { jobs_in_memory = insert job.job_id job q.jobs_in_memory })
      × (r.1.0 ≡ codes "detect")
      × Carries r.1.1 (advanced new job)
  Routes s q job r = (r.0 ≡ q) × (r.1.0 ≡ destination s job.type) × Carries r.1.1 (advanced s job)

  sent_on :
      (s : Status) (job : FileJob) {m : FileJobShm}
      → Carries m job
      → Carries (from_file_job (advanced s job)) (advanced s job)
  sent_on s job c =
      from_file_job-Carries (advanced s job) (advanced-Fits s job c.fits)
        (advanced-stop s job ∙ c.not_stopped)

  on_status-Routes :
      (s : Status) (q : Qm F) (m : FileJobShm) (job : FileJob)
      → Carries m (record job { status = s })
      → let job' = record job { status = s } in Routes s q job' (on_status F s q m job')
  unfolding on_status add_job handle_event apply
  on_status-Routes new q m job c = (refl, refl, sent_on new (record job { status = new }) c)
  on_status-Routes detecting q m job c =
      (refl, refl, sent_on detecting (record job { status = detecting }) c)
  on_status-Routes parsing q m job c =
      (refl, refl, sent_on parsing (record job { status = parsing }) c)
  on_status-Routes done q m job c = (refl, refl, empty_job_shm-IsWellFormed)
  on_status-Routes failed q m job c = (refl, refl, c)

  -- On every well-formed message the manager answers, and as its status says: a new job is kept and
  -- goes to detection, a detected one to parsing, a parsed one to where its type says, and the file
  -- of a finished one is removed. The message that goes on carries the same job, with its next
  -- status, and can be read in turn.
  pub process_results-Routes :
      (q : Qm F) (m : FileJobShm)
      → IsWellFormed m
      → (job : FileJob) × (r : Qm F × Routed) × Carries m job
        × (job.status ≡ m.status)
        × (process_results F q m ≡ ok r)
        × Routes m.status q job r
  unfolding process_results
  process_results-Routes q m w =
      let (id, path, c) = to_file_job_ok m w in
      let job : FileJob = as_file_job m id path in
      (job, on_status F m.status q m job, c, refl, rw c.read, on_status-Routes m.status q m job c)

  -- Whatever goes on can be read.
  pub routed-IsWellFormed :
      (s : Status) (q : Qm F) (job : FileJob) (r : Qm F × Routed)
      → Routes s q job r
      → IsWellFormed r.1.1
  routed-IsWellFormed new q job r h = h.2.well_formed
  routed-IsWellFormed detecting q job r h = h.2.well_formed
  routed-IsWellFormed parsing q job r h = h.2.well_formed
  routed-IsWellFormed done q job r h = h.2
  routed-IsWellFormed failed q job r h = h.2.well_formed
