-- ===== src/Network/Answers.antt =====
-- What a service has done with a job when its task has ended: it has given up, with no answer, or
-- has answered as its handler says.
use file_inspect_key_analyse.Base.{
  Bytes, codes, List, [], ◌≡◌, refl, sym, ◌∙◌, ◌⊎◌, inl, inr, ok, >>=-ok_parts, catch-eq-ok,
}
use file_inspect_key_analyse.Global.FileJob.{FileJob, FileJobShm, to_file_job, job_message}
use file_inspect_key_analyse.Global.Service.{Sent, send_to}
use file_inspect_key_analyse.Global.CString.{read_c_string}
use file_inspect_key_analyse.Global.FileJob.RoundTrip.{as_file_job}
use file_inspect_key_analyse.Qm.Handler.{qm_senders, handle_qm, qm_service}
use file_inspect_key_analyse.Util.Pickup.{FileSystem}
use file_inspect_key_analyse.Detect.{FileDetector, detect_file}
use file_inspect_key_analyse.Detect.Handler.{
  handle_detect, detect_service, detect_senders, detected_job,
}
use file_inspect_key_analyse.Parse.{ParserRegistry}
use file_inspect_key_analyse.Parse.Handler.{handle_parse, parse_service, parse_senders, process_job}
use file_inspect_key_analyse.Parse.Outcome.{process_job-registry}
use file_inspect_key_analyse.Qm.{Qm, Routed, on_status, process_results}
use file_inspect_key_analyse.Global.Service.{task}
use file_inspect_key_analyse.Global.FileJob.RoundTrip.{to_file_job_inv}

-- The detection service.
pub detect_answers :
    (ds ds' : List FileDetector) (m : FileJobShm) (sent : Sent)
    → task detect_service ds (job_message m) ≡ ok (ds', sent)
    → (sent ≡ [])
      ⊎ ((mime : Bytes) × (sent
            ≡ send_to detect_senders (codes "qm") (job_message (detected_job m mime))))
unfolding task handle_detect
detect_answers ds ds' m sent h =
    elim (catch-eq-ok (handle_detect detect_senders ds (job_message m)) (ds, []) h) [
      | inl handled ↦
          let (id, _, rest) = >>=-ok_parts (read_c_string m.job_id) _ handled in
          let (path, _, asked) = >>=-ok_parts (read_c_string m.path) _ rest in
          let (result, _, answered) = >>=-ok_parts (detect_file tt ds path) _ asked in
          inr (result.mime_type, cc answered)
      | inr nothing ↦ inl (cc nothing)
    ]

module _ (F : FileSystem) (Parser : Type 0) where
  -- What the manager makes of a job with these texts.
  abbrev pub managed : Qm F → FileJobShm → Bytes → Bytes → Qm F × Routed
  managed q m id path = on_status F m.status q m (as_file_job m id path)

  answered_as :
      (q q' : Qm F) (m : FileJobShm) (e : FileJob) (id path : Bytes) (r : Qm F × Routed)
      (sent : Sent)
      → e ≡ as_file_job m id path
      → on_status F e.status q m e ≡ r
      → ◌≡◌ {A = Qm F × Sent} (r.0, send_to qm_senders r.1.0 (job_message r.1.1)) (q', sent)
      → ◌≡◌ {A = Qm F × Sent}
          (q', sent)
          (
            (managed q m id path).0,
            send_to qm_senders (managed q m id path).1.0 (job_message (managed q m id path).1.1),
          )
  answered_as q q' m e id path r sent same decided answered = rw (← answered, ← decided, same) refl

  -- The queue manager.
  pub qm_answers :
      (q q' : Qm F) (m : FileJobShm) (sent : Sent)
      → task (qm_service F) q (job_message m) ≡ ok (q', sent)
      → ((q' ≡ q) × (sent ≡ []))
        ⊎ ((id path : Bytes) × (◌≡◌ {A = Qm F × Sent}
              (q', sent)
              (
                (managed q m id path).0,
                send_to qm_senders
                    (managed q m id path).1.0
                    (job_message (managed q m id path).1.1),
              )))
  unfolding task handle_qm process_results
  qm_answers q q' m sent h =
      elim (catch-eq-ok (handle_qm F qm_senders q (job_message m)) (q, []) h) [
        | inl handled ↦
            let (r, routed, answered) = >>=-ok_parts (process_results F q m) _ handled in
            let (e, read, decided) = >>=-ok_parts (to_file_job m) _ routed in
            let (id, path, same) = to_file_job_inv m e read in
            inr (id, path, answered_as q q' m e id path r sent same (cc decided) (cc answered))
        | inr nothing ↦ inl (cc nothing, cc nothing)
      ]

  -- The parse service.
  pub parse_answers :
      (ps ps' : ParserRegistry Parser) (m : FileJobShm) (sent : Sent)
      → task (parse_service Parser) ps (job_message m) ≡ ok (ps', sent)
      → (ps' ≡ ps)
        × ((sent ≡ [])
            ⊎ (sent ≡ send_to parse_senders (codes "qm") (job_message (process_job Parser m ps).1)))
  unfolding task handle_parse
  parse_answers ps ps' m sent h =
      elim (catch-eq-ok (handle_parse Parser parse_senders ps (job_message m)) (ps, []) h) [
        | inl handled ↦
            let (id, _, answered) = >>=-ok_parts (read_c_string m.job_id) _ handled in
            (sym (cc answered) ∙ process_job-registry Parser m ps, inr (cc answered))
        | inr nothing ↦ (cc nothing, inl (cc nothing))
      ]
