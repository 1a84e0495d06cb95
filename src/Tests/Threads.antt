-- ===== src/Tests/Threads.antt =====
-- The services with one thread each, on queues of one message.
use file_inspect_key_analyse.Base.{
  ℕ, ◌+◌, ◌≤◌, ◌*◌, eq_bytes, [], ◌∷◌, ◌≡◌, refl, arith, lookup, insert,
}
use file_inspect_key_analyse.Network.Threads.{
  started, ServiceId, qm_id, detect_id, parse_id, same, owner, addressed, Outgoing, Node, modify,
  received, handled, freed, enqueued, State, System, task_of, set_state, Turn, receives, handles,
  sends, Turns, begun, turned,
}
use file_inspect_key_analyse.Global.FileJob.{
  detecting, detector, to_file_job, from_file_job, FileJobShm, IpcMessage, job_message, poison_pill,
}
use file_inspect_key_analyse.Global.Service.{send_to, task}
use file_inspect_key_analyse.Global.CString.{read_c_string, strncpy}
use file_inspect_key_analyse.Queues.{names}
use file_inspect_key_analyse.Queues.{names}
use file_inspect_key_analyse.Qm.Handler.{qm_senders, handle_qm}
use file_inspect_key_analyse.Qm.{handle_event, add_job, on_status, process_results}
use file_inspect_key_analyse.Qm.StateMachine.{apply}
use file_inspect_key_analyse.Tests.Disk.{memory}
use file_inspect_key_analyse.Tests.Data.{job, message, manager, pdf_detector, net, net-IsSound}
use file_inspect_key_analyse.Tests.Pipeline.{first_sent, next_manager}
use file_inspect_key_analyse.Network.{Net, Run}
use file_inspect_key_analyse.Network.Threads.Count.{tally}
use file_inspect_key_analyse.Network.Threads.Shows.{Shows, inbox_at, work}
use file_inspect_key_analyse.Network.Threads.Limits.{debt}
use file_inspect_key_analyse.Network.Threads.Simulation.{Turns-Run}
use file_inspect_key_analyse.Network.Threads.Liveness.{IsOpen, IsQuiet}
use file_inspect_key_analyse.Network.Threads.Drained.{Turns-drain}
use file_inspect_key_analyse.Network.Threads.Stopped.{IsStuck, Turns-IsStuck}
use file_inspect_key_analyse.Network.Rank.{weight}
use file_inspect_key_analyse.Qm.Race.Reached.{Races, Races-iff}
use file_inspect_key_analyse.Qm.Race.Reached.{jobs_new}
use file_inspect_key_analyse.Base.{◌↔◌}

abbrev busy_nodes : ServiceId → Node
busy_nodes qm_id = started (job_message message ∷ [])
busy_nodes _ = started []

abbrev initial_states : (x : ServiceId) → State memory Unit x
initial_states qm_id = manager
initial_states detect_id = pdf_detector ∷ []
initial_states parse_id = []

-- The network of one job that has been submitted.
abbrev submitted : System memory Unit
submitted = record { nodes = busy_nodes; states = initial_states }

submitted-Shows : Shows memory Unit submitted net
submitted-Shows = record { same_work = counted; same_state = states }
  where
    counted :
        (y : ServiceId) (job : FileJobShm)
        → tally job (inbox_at memory Unit y net) ≡ work job y busy_nodes
    counted qm_id job = omega arith
    counted detect_id job = omega arith
    counted parse_id job = omega arith

    states :
        (y : ServiceId)
        → initial_states y
          ≡ file_inspect_key_analyse.Network.Threads.Shows.state_at memory Unit y net
    states qm_id = refl
    states detect_id = refl
    states parse_id = refl

submitted-IsOpen : (x : ServiceId) → IsOpen (busy_nodes x)
submitted-IsOpen qm_id = (refl, (tt, tt), tt)
submitted-IsOpen detect_id = (refl, tt, tt)
submitted-IsOpen parse_id = (refl, tt, tt)

-- The manager has received the job.
abbrev received_one : System memory Unit
received_one = record submitted {
  nodes = modify qm_id (received (job_message message) []) busy_nodes;
}

one_turn : Turns memory Unit 1 1 submitted 1 received_one
one_turn = turned begun (receives qm_id (job_message message) [] refl refl refl)

Turns-Run_example :
    (j : ℕ) × (t : Net memory Unit) × Run memory Unit net j t
    × Shows memory Unit received_one t
    × (j ≤ 1)
Turns-Run_example = Turns-Run memory Unit 1 1 net submitted-Shows one_turn

Turns-drain_example :
    (j : ℕ) × (u : System memory Unit) × Turns memory Unit 1 1 received_one j u
    × ((x : ServiceId) → IsQuiet (u.nodes x))
    × (1 + j ≤ 3 * weight memory Unit net + debt busy_nodes)
Turns-drain_example =
    Turns-drain memory Unit 1 1 submitted received_one net 1 (omega arith) (omega arith)
      submitted-Shows net-IsSound submitted-IsOpen one_turn

-- The detect service is told to stop while the manager has three jobs for it.
abbrev halting_nodes : ServiceId → Node
halting_nodes qm_id = record (started []) {
  inbox = job_message message ∷ [];
  posted = message ∷ message ∷ [];
}
halting_nodes detect_id = started (poison_pill ∷ [])
halting_nodes parse_id = started []

abbrev halting : System memory Unit
halting = record { nodes = halting_nodes; states = initial_states }

abbrev answer : IpcMessage
answer = job_message (from_file_job (record job { status = detecting; type = detector }))

-- In four turns the manager is stuck, and it can still receive.
reached :
    (u v : System memory Unit) × Turns memory Unit 1 1 halting 4 u
    × IsStuck 1 1 qm_id detect_id u.nodes
    × Turn memory Unit 1 1 u v
unfolding task handle_qm process_results to_file_job from_file_job read_c_string strncpy on_status
    add_job handle_event apply insert send_to qm_senders lookup eq_bytes addressed owner names
reached = (
  _,
  _,
  turned
      (turned
        (turned (turned begun (receives detect_id poison_pill [] refl refl refl)) (
          handles qm_id [] (message ∷ []) message next_manager first_sent (omega arith) refl refl
            refl))
        (sends qm_id detect_id [] [] answer refl (omega arith) refl))
      (handles qm_id [] [] message next_manager first_sent (omega arith) refl refl refl),
  record { stopped = refl; full = omega arith; busy = omega arith; bound_for = (refl, tt) },
  receives qm_id (job_message message) [] refl refl refl,
)

Turns-IsStuck_example :
    IsStuck 1 1 qm_id detect_id reached.1.nodes
    × ((reached.1.nodes qm_id).sending ≡ (reached.0.nodes qm_id).sending)
Turns-IsStuck_example =
    Turns-IsStuck 1 1 qm_id detect_id memory Unit reached.3 (turned begun reached.4)

Races-iff_example :
    Races 2 (message ∷ message ∷ []) ↔ ((2 ≤ 2) × (2 ≤ jobs_new (message ∷ message ∷ [])))
Races-iff_example = Races-iff 2 (message ∷ message ∷ [])
