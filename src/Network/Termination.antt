-- ===== src/Network/Termination.antt =====
-- Every step of the services uses up weight, so the work on a job ends, whatever the detectors and
-- the registry answer and in whatever order the messages are taken.
use file_inspect_key_analyse.Base.{
  ℕ, ◌+◌, ◌≤◌, ◌<◌, Bytes, List, ◌∷◌, ◌++◌, ◌≡◌, refl, ap, inl, inr, arith, ok,
}
use file_inspect_key_analyse.Global.FileJob.{FileJobShm, IpcMessage, job_message}
use file_inspect_key_analyse.Global.Service.{Sent}
use file_inspect_key_analyse.Global.FileJob.RoundTrip.{as_file_job}
use file_inspect_key_analyse.Qm.Handler.{qm_service}
use file_inspect_key_analyse.Util.Pickup.{FileSystem}
use file_inspect_key_analyse.Detect.{FileDetector}
use file_inspect_key_analyse.Detect.Handler.{detect_service, detect_senders, detected_job}
use file_inspect_key_analyse.Parse.{ParserRegistry}
use file_inspect_key_analyse.Parse.Handler.{parse_service, parse_senders, process_job}
use file_inspect_key_analyse.Parse.Outcome.{process_job_lem}
use file_inspect_key_analyse.Qm.{Qm}
use file_inspect_key_analyse.Global.Service.{task}
use file_inspect_key_analyse.Network.{
  Net, Step, qm_takes, detect_takes, parse_takes, Run, here, next,
}
use file_inspect_key_analyse.Network.Answers.{qm_answers, detect_answers, parse_answers}
use file_inspect_key_analyse.Network.Rank.{
  qm_rank_pos, qm_rank, total, total-append, sent_rank, weight, weight-deliver, on_status_rank,
  to_qm,
}

same_senders : parse_senders ≡ detect_senders
unfolding parse_senders detect_senders
same_senders = refl

module _ (F : FileSystem) (Parser : Type 0) where
  qm_task_rank :
      (q q' : Qm F) (m : FileJobShm) (sent : Sent)
      → task (qm_service F) q (job_message m) ≡ ok (q', sent)
      → sent_rank sent < qm_rank (job_message m)
  qm_task_rank q q' m sent h = elim (qm_answers F Parser q q' m sent h) [
    | inl (_, nothing) ↦ rw nothing (qm_rank_pos m)
    | inr (id, path, e) ↦
        rw (ap (λ p. sent_rank p.1) e)
          (on_status_rank F Parser m.status q m (as_file_job m id path))
  ]

  -- A job that comes back from detection has a status of rank 4 at most, and one from parsing 1.
  detected_rank : (m : FileJobShm) (mime : Bytes) → qm_rank (job_message (detected_job m mime)) < 5
  unfolding detected_job
  detected_rank m mime = ground arith

  detect_task_rank :
      (ds ds' : List FileDetector) (m : FileJobShm) (sent : Sent)
      → task detect_service ds (job_message m) ≡ ok (ds', sent)
      → sent_rank sent < 5
  detect_task_rank ds ds' m sent h = elim (detect_answers ds ds' m sent h) [
    | inl nothing ↦ rw nothing (omega arith)
    | inr (mime, e) ↦ rw (e, to_qm detect_senders (detected_job m mime) refl) (detected_rank m mime)
  ]

  parsed_rank :
      (m : FileJobShm) (ps : ParserRegistry Parser)
      → qm_rank (job_message (process_job Parser m ps).1) < 3
  parsed_rank m ps = elim (process_job_lem Parser m ps) [
    | inl (p, _, e) ↦ rw e (omega arith)
    | inr (_, e) ↦ rw e (omega arith)
  ]

  parse_task_rank :
      (ps ps' : ParserRegistry Parser) (m : FileJobShm) (sent : Sent)
      → task (parse_service Parser) ps (job_message m) ≡ ok (ps', sent)
      → sent_rank sent < 3
  parse_task_rank ps ps' m sent h = elim (parse_answers F Parser ps ps' m sent h).1 [
    | inl nothing ↦ rw nothing (omega arith)
    | inr e ↦
        rw (e, to_qm parse_senders (process_job Parser m ps).1 same_senders) (parsed_rank m ps)
  ]

  -- One message is taken out and the answers come in.
  taken :
      (rank : IpcMessage → ℕ) (before after : List IpcMessage) (m : IpcMessage)
      → total rank (before ++ m ∷ after) ≡ rank m + total rank (before ++ after)
  taken rank before after m =
      omega (arith, total-append rank before (m ∷ after), total-append rank before after)

  -- Each step makes the weight of the network less.
  pub Step-weight : {n u : Net F Parser} → Step F Parser n u → weight F Parser u < weight F Parser n
  Step-weight {n} {u} (qm_takes before after job q sent stood did e) =
      rw (e, weight-deliver F Parser, stood, taken)
        (omega (arith, qm_task_rank n.qm q job sent did))
  Step-weight {n} {u} (detect_takes before after job ds sent stood did e) =
      rw (e, weight-deliver F Parser, stood, taken)
        (omega (arith, detect_task_rank n.detectors ds job sent did))
  Step-weight {n} {u} (parse_takes before after job ps sent stood did e) =
      rw (e, weight-deliver F Parser, stood, taken)
        (omega (arith, parse_task_rank n.registry ps job sent did))

  -- A run is no longer than the weight at its start: at most six steps for each job.
  pub Run-weight :
      {n u : Net F Parser} {k : ℕ} → Run F Parser n k u → k + weight F Parser u ≤ weight F Parser n
  Run-weight here = omega arith
  Run-weight (next r s) = omega (arith, Run-weight r, Step-weight s)
