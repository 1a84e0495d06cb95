-- ===== src/Network/Fate.antt =====
-- What becomes of jobs with the program's parts as they are: no parser is registered, so no job is
-- ever done and no file is removed.
use file_inspect_key_analyse.Base.{
  ℕ, Bytes, codes, eq_bytes, true, List, [], ◌∷◌, All, All-append, All-removed, ◌≡◌, refl, ap, ◌∙◌,
  inl, inr, ◌≢◌, arith, Bool-cases, ok, lookup,
}
use file_inspect_key_analyse.Global.FileJob.{
  FileJob, FileJobShm, Status, new, detecting, parsing, done, failed, JobType, detector, parser,
  no_type, from_file_job, IpcMessage, job_message, poison_pill,
}
use file_inspect_key_analyse.Global.Service.{Senders, Sent, send_to}
use file_inspect_key_analyse.Global.FileJob.RoundTrip.{as_file_job}
use file_inspect_key_analyse.Queues.{qm_queue, detect_queue, parse_queue}
use file_inspect_key_analyse.Qm.Handler.{qm_senders, qm_service}
use file_inspect_key_analyse.Util.Pickup.{FileSystem}
use file_inspect_key_analyse.Detect.{FileDetector}
use file_inspect_key_analyse.Detect.Handler.{detect_service, detect_senders, detected_job}
use file_inspect_key_analyse.Parse.{ParserRegistry}
use file_inspect_key_analyse.Parse.Handler.{parse_service, parse_senders}
use file_inspect_key_analyse.Parse.Outcome.{process_job_empty}
use file_inspect_key_analyse.Qm.{Qm, queue_of, handle_event, add_job, on_status}
use file_inspect_key_analyse.Global.Service.{task}
use file_inspect_key_analyse.Queues.{names}
use file_inspect_key_analyse.Qm.StateMachine.{apply}
use file_inspect_key_analyse.Network.Answers.{qm_answers, detect_answers, parse_answers}
use file_inspect_key_analyse.Network.{
  Net, put, deliver, Step, qm_takes, detect_takes, parse_takes, Run, here, next,
}

-- A message that does not tell the manager that its job is done.
abbrev pub IsNotDone : IpcMessage → Type 0
IsNotDone (job_message m) = m.status ≢ done
IsNotDone poison_pill = Unit

-- Nor does it where it is sent.
abbrev IsNotDoneSent : Bytes × IpcMessage → Type 0
IsNotDoneSent (queue, m) = eq_bytes queue qm_queue ≡ true → IsNotDone m

abbrev AllNotDone : Senders → Bytes → FileJobShm → Type 0
AllNotDone senders name m = All IsNotDoneSent (send_to senders name (job_message m))

to_detect : (m : FileJobShm) → AllNotDone qm_senders (codes "detect") m
unfolding send_to qm_senders lookup eq_bytes names
to_detect m = (λ e. cc, tt)

to_parse : (m : FileJobShm) → AllNotDone qm_senders (codes "parse") m
unfolding send_to qm_senders lookup eq_bytes names
to_parse m = (λ e. cc, tt)

to_nobody : (m : FileJobShm) → AllNotDone qm_senders (codes "fail") m × AllNotDone qm_senders [] m
unfolding send_to qm_senders lookup eq_bytes names
to_nobody m = (tt, tt)

to_queue_of : (t : JobType) (m : FileJobShm) → AllNotDone qm_senders (queue_of t) m
unfolding queue_of
to_queue_of detector m = to_detect m
to_queue_of parser m = to_parse m
to_queue_of no_type m = (to_nobody m).1

to_qm :
    (m : FileJobShm)
    → m.status ≢ done
    → AllNotDone detect_senders (codes "qm") m × AllNotDone parse_senders (codes "qm") m
unfolding send_to detect_senders parse_senders lookup eq_bytes names
to_qm m h = ((λ e. h, tt), (λ e. h, tt))

detected_not_done : (m : FileJobShm) (mime : Bytes) → (detected_job m mime).status ≢ done
unfolding detected_job
detected_not_done m mime = ground arith

module _ (F : FileSystem) (Parser : Type 0) where
  on_status_not_done :
      (s : Status) (q : Qm F) (m : FileJobShm) (job : FileJob)
      → s ≢ done
      → let r = on_status F s q m (record job { status = s }) in
        AllNotDone qm_senders r.1.0 r.1.1 × (r.0.disk ≡ q.disk)
  unfolding on_status add_job handle_event apply
  on_status_not_done new q m job h =
      (to_detect (from_file_job (record job { status = detecting; type = detector })), refl)
  on_status_not_done detecting q m job h =
      (to_parse (from_file_job (record job { status = parsing; type = parser })), refl)
  on_status_not_done parsing q m job h =
      (to_queue_of job.type (from_file_job (record job { status = done })), refl)
  on_status_not_done done q m job h = absurd (h refl)
  on_status_not_done failed q m job h = ((to_nobody m).0, refl)

  qm_task_not_done :
      (q q' : Qm F) (m : FileJobShm) (sent : Sent)
      → m.status ≢ done
      → task (qm_service F) q (job_message m) ≡ ok (q', sent)
      → All IsNotDoneSent sent × (q'.disk ≡ q.disk)
  qm_task_not_done q q' m sent pending h = elim (qm_answers F Parser q q' m sent h) [
    | inl (same, nothing) ↦ (rw nothing tt, rw same)
    | inr (id, path, e) ↦
        let (quiet, still) = on_status_not_done m.status q m (as_file_job m id path) pending in
        (rw (ap (λ p. p.1) e) quiet, rw (ap (λ p. p.0) e) still)
  ]

  detect_task_not_done :
      (ds ds' : List FileDetector) (m : FileJobShm) (sent : Sent)
      → task detect_service ds (job_message m) ≡ ok (ds', sent)
      → All IsNotDoneSent sent
  detect_task_not_done ds ds' m sent h = elim (detect_answers ds ds' m sent h) [
    | inl nothing ↦ rw nothing tt
    | inr (mime, e) ↦ rw e (to_qm (detected_job m mime) (detected_not_done m mime)).0
  ]

  parse_task_not_done :
      (ps ps' : ParserRegistry Parser) (m : FileJobShm) (sent : Sent)
      → ps ≡ []
      → task (parse_service Parser) ps (job_message m) ≡ ok (ps', sent)
      → (ps' ≡ ps) × All IsNotDoneSent sent
  parse_task_not_done ps ps' m sent none_registered h =
      let (kept, answer) = parse_answers F Parser ps ps' m sent h in
      (
        kept,
        elim answer [
          | inl nothing ↦ rw nothing tt
          | inr e ↦
              rw (e, none_registered, process_job_empty Parser m)
                (to_qm (record m { status = failed }) (λ e'. cc)).1
        ],
      )

  -- No message on the manager's queue is done, no parser is registered, and the disk is as given.
  pub record IsFruitless (disk : F.Disk) (n : Net F Parser) : Type 0 where
    pub none_done : All IsNotDone n.qm_inbox
    pub no_parser : n.registry ≡ []
    pub same_disk : n.qm.disk ≡ disk

  -- The other two queues may hold anything.
  elsewhere :
      (disk : F.Disk) (n : Net F Parser) {ds ps : List IpcMessage} {det : List FileDetector}
      → IsFruitless disk n
      → IsFruitless disk (record n { detect_inbox = ds; parse_inbox = ps; detectors = det })
  elsewhere disk n s = record {
    none_done = s.none_done;
    no_parser = s.no_parser;
    same_disk = s.same_disk;
  }

  put-IsFruitless :
      (disk : F.Disk) (n : Net F Parser) (queue : Bytes) (m : IpcMessage)
      → IsNotDoneSent (queue, m)
      → IsFruitless disk n
      → IsFruitless disk (put F Parser n queue m)
  unfolding put
  put-IsFruitless disk n queue m w s = elim (Bool-cases (eq_bytes queue qm_queue)) [
    | inl to_manager ↦ rw to_manager (record {
      none_done = All-append IsNotDone n.qm_inbox (m ∷ []) s.none_done (w to_manager, tt);
      no_parser = s.no_parser;
      same_disk = s.same_disk;
    })
    | inr other ↦ rw other (elim (Bool-cases (eq_bytes queue detect_queue)) [
      | inl to_detection ↦ rw to_detection (elsewhere disk n s)
      | inr rest ↦ rw rest (elim (Bool-cases (eq_bytes queue parse_queue)) [
        | inl to_parsing ↦ rw to_parsing (elsewhere disk n s)
        | inr lost ↦ rw lost s
      ])
    ])
  ]

  deliver-IsFruitless :
      (disk : F.Disk) (n : Net F Parser) (sent : Sent)
      → All IsNotDoneSent sent
      → IsFruitless disk n
      → IsFruitless disk (deliver F Parser n sent)
  unfolding deliver
  deliver-IsFruitless disk n [] w s = s
  deliver-IsFruitless disk n ((queue, m) ∷ sent) w s =
      deliver-IsFruitless disk (put F Parser n queue m) sent w.1
        (put-IsFruitless disk n queue m w.0 s)

  Step-IsFruitless :
      {n u : Net F Parser} (disk : F.Disk)
      → IsFruitless disk n
      → Step F Parser n u
      → IsFruitless disk u
  Step-IsFruitless {n} {u} disk s (qm_takes before after job q sent stood did e) =
      let (pending, others) =
        All-removed IsNotDone before after (job_message job) (rw stood at s.none_done) in
      let (quiet, still) = qm_task_not_done n.qm q job sent pending did in
      rw e (
        deliver-IsFruitless disk _ sent quiet
          (record { none_done = others; no_parser = s.no_parser; same_disk = still ∙ s.same_disk }))
  Step-IsFruitless {n} {u} disk s (detect_takes before after job ds sent stood did e) = rw e (
      deliver-IsFruitless disk _ sent (detect_task_not_done n.detectors ds job sent did)
        (elsewhere disk n s))
  Step-IsFruitless {n} {u} disk s (parse_takes before after job ps sent stood did e) =
      let (kept, quiet) = parse_task_not_done n.registry ps job sent s.no_parser did in
      rw e (
        deliver-IsFruitless disk _ sent quiet (record {
          none_done = s.none_done;
          no_parser = kept ∙ s.no_parser;
          same_disk = s.same_disk;
        }))

  -- With the empty registry of the parse service's `main`, and whatever the detectors answer, no
  -- message ever reports to the manager that its job is done, and no file is ever removed.
  pub Run-IsFruitless :
      {n u : Net F Parser} {k : ℕ} (disk : F.Disk)
      → IsFruitless disk n
      → Run F Parser n k u
      → IsFruitless disk u
  Run-IsFruitless disk s here = s
  Run-IsFruitless disk s (next r step) = Step-IsFruitless disk (Run-IsFruitless disk s r) step
