-- ===== src/Tests/Services.antt =====
-- The services and their parts on one job.
use file_inspect_key_analyse.Base.{ℕ, [], ◌∷◌, ◌≡◌, refl, ◌⊎◌, ok}
use file_inspect_key_analyse.Global.FileJob.{
  FileJob, submit, from_file_job, job_message, poison_pill,
}
use file_inspect_key_analyse.Global.CString.{read_c_string}
use file_inspect_key_analyse.Global.FileJob.RoundTrip.{Carries}
use file_inspect_key_analyse.Detect.{detect_file}
use file_inspect_key_analyse.Detect.Handler.{handle_detect, detect_service}
use file_inspect_key_analyse.Qm.{Qm, Routed, process_results}
use file_inspect_key_analyse.Qm.Routing.{process_results-Routes, Routes}
use file_inspect_key_analyse.Global.Service.{task}
use file_inspect_key_analyse.Tests.Disk.{memory}
use file_inspect_key_analyse.Tests.Data.{
  path, job, message, message-IsWellFormed, pdf_detector, silent_detector, broken_detector, manager,
}
use file_inspect_key_analyse.Qm.StateMachine.Graph.{Accepts, Refuses, apply-Edge}
use file_inspect_key_analyse.Global.CString.{strncpy}
use file_inspect_key_analyse.Detect.Choice.{Chooses, detect_file-Chooses}
use file_inspect_key_analyse.Global.Service.{receive_loop}
use file_inspect_key_analyse.Global.Service.Loop.{IsReceived, receive_loop-IsReceived}

process_results-Routes_example :
    (j : FileJob) × (r : Qm memory × Routed) × Carries message j
    × (j.status ≡ message.status)
    × (process_results memory manager message ≡ ok r)
    × Routes memory message.status manager j r
process_results-Routes_example = process_results-Routes memory manager message message-IsWellFormed

apply-Edge_example : Accepts job submit ⊎ Refuses job submit
apply-Edge_example = apply-Edge job submit

abbrev full : ℕ
full = 1

detect_file-Chooses_example :
    Chooses full path
      (silent_detector ∷ pdf_detector ∷ [])
      (detect_file full (silent_detector ∷ pdf_detector ∷ []) path)
detect_file-Chooses_example = detect_file-Chooses full path (silent_detector ∷ pdf_detector ∷ [])

receive_loop-IsReceived_example :
    IsReceived
      (job_message message ∷ poison_pill ∷ job_message message ∷ [])
      (receive_loop (job_message message ∷ poison_pill ∷ job_message message ∷ []))
receive_loop-IsReceived_example =
    receive_loop-IsReceived (job_message message ∷ poison_pill ∷ job_message message ∷ [])

-- A detector that throws ends the job in silence: nothing goes back to the manager.
broken_detector_silent :
    task detect_service (broken_detector ∷ []) (job_message message) ≡ ok (broken_detector ∷ [], [])
unfolding task handle_detect detect_file from_file_job strncpy read_c_string
broken_detector_silent = refl
