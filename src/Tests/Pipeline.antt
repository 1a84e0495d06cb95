-- ===== src/Tests/Pipeline.antt =====
-- The network at work on one new job.
use file_inspect_key_analyse.Base.{ℕ, eq_bytes, [], ◌∷◌, refl, lookup, insert}
use file_inspect_key_analyse.Global.FileJob.{
  detecting, detector, to_file_job, from_file_job, job_message,
}
use file_inspect_key_analyse.Global.Service.{Sent, send_to}
use file_inspect_key_analyse.Global.CString.{read_c_string}
use file_inspect_key_analyse.Queues.{detect_queue}
use file_inspect_key_analyse.Qm.Handler.{qm_senders, handle_qm}
use file_inspect_key_analyse.Qm.{Qm, handle_event, add_job, on_status, process_results}
use file_inspect_key_analyse.Global.Service.{task}
use file_inspect_key_analyse.Tests.Disk.{memory}
use file_inspect_key_analyse.Tests.Data.{path, job, message, manager, net, net-IsSound}
use file_inspect_key_analyse.Network.{Net, deliver, Step, qm_takes, Run, here, next}
use file_inspect_key_analyse.Network.Safety.{IsSound, IsSafe, Run-IsSafe}
use file_inspect_key_analyse.Qm.StateMachine.{apply}
use file_inspect_key_analyse.Global.CString.{strncpy}
use file_inspect_key_analyse.Network.Progress.{IsIdle, Run-drains}
use file_inspect_key_analyse.Network.Fate.{IsFruitless, Run-IsFruitless}

Run-drains_example :
    (k : ℕ) × (u : Net memory Unit) × Run memory Unit net k u × IsIdle memory Unit u
Run-drains_example = (Run-drains memory Unit net net-IsSound).0

-- What the manager sends first, and the network behind that step.
abbrev pub first_sent : Sent
first_sent =
    (detect_queue, job_message (from_file_job (record job { status = detecting; type = detector })))
    ∷ []

abbrev pub next_manager : Qm memory
next_manager = record manager { jobs_in_memory = (job.job_id, job) ∷ [] }

abbrev second_net : Net memory Unit
second_net = deliver memory Unit (record net { qm_inbox = []; qm = next_manager }) first_sent

first-Step : Step memory Unit net second_net
unfolding task handle_qm process_results to_file_job from_file_job read_c_string strncpy on_status
    add_job handle_event apply insert send_to qm_senders lookup eq_bytes
first-Step = qm_takes [] [] message next_manager first_sent refl refl refl

Run-IsSafe_example : IsSound memory Unit second_net × IsSafe memory Unit second_net
Run-IsSafe_example = Run-IsSafe memory Unit net-IsSound (next here first-Step)

net-IsFruitless : IsFruitless memory Unit (path ∷ []) net
unfolding from_file_job
net-IsFruitless = record { none_done = (λ e. cc, tt); no_parser = refl; same_disk = refl }

Run-IsFruitless_example : IsFruitless memory Unit (path ∷ []) second_net
Run-IsFruitless_example =
    Run-IsFruitless memory Unit (path ∷ []) net-IsFruitless (next here first-Step)
