-- ===== src/Tests/Supervision.antt =====
-- The supervisor on one process table.
use file_inspect_key_analyse.Base.{
  ℕ, suc, Bytes, codes, eq_bytes, List, [], ◌∷◌, ◌++◌, map, none, some, if◌then◌else◌, ◌≡◌, refl,
  ◌≢◌, arith, ok, thrown, undefined, lookup, insert, ltb,
}
use file_inspect_key_analyse.Queues.{detect_queue, parse_queue, qm_queue}
use file_inspect_key_analyse.Supervisor.QueueManager.{create_queue}
use file_inspect_key_analyse.Global.CString.{c_str}
use file_inspect_key_analyse.Tests.Disk.{has, without}
use file_inspect_key_analyse.Global.Commands.{CommandType, CommandMessage, service}
use file_inspect_key_analyse.Supervisor.Worker.{ProcessApi, ChildProcess}
use file_inspect_key_analyse.Supervisor.Worker
use file_inspect_key_analyse.Supervisor.QueueManager.{
  IpcQueueManager, MessageQueueApi, BoostQueues, boost_queue_manager,
}
use file_inspect_key_analyse.Supervisor.Pills.{main_queues}
use file_inspect_key_analyse.Supervisor.{
  binary_to_queue, running, stopped, System, Supervisor, WorkerEntity, supervisor, stop_command,
  restart_command, start_command, execute, start_workers, stop_workers, monitor_once, run,
  create_all,
}
use file_inspect_key_analyse.Supervisor.Started.{IsReady}
use file_inspect_key_analyse.Supervisor.Rounds.{execute_fresh, AllReady}
use file_inspect_key_analyse.Supervisor.Started.{TakesPills, IsCalm}
use file_inspect_key_analyse.Global.FileJob.{IpcMessage}
use file_inspect_key_analyse.Supervisor.Wanted.{Wanted, replay}
use file_inspect_key_analyse.Supervisor.Wanted.Steps.{Shows, AllShow}
use file_inspect_key_analyse.Supervisor.Wanted.Refinement.{run-replay}
use file_inspect_key_analyse.Supervisor.Main.{WorkerConfig, factory_of, prepare}
use file_inspect_key_analyse.Supervisor.Service.{HoldsAll, main_run_ok}
use file_inspect_key_analyse.Supervisor.Stopping.{
  after_stop, stop_workers-state, monitor_once-stop_workers,
}

-- The world is the number of processes; those with smaller numbers run.
abbrev pub table : ProcessApi
table = record {
  World = ℕ;
  Child = ℕ;
  spawn = λ s path args. ok (suc s, s);
  running = λ s c. ok (ltb c s);
  terminate = λ s c. ok c;
  wait = λ s c. ok c;
  drop = λ s c. s;
  send_response = λ s m. ok s;
}

table-IsCalm : IsCalm table
table-IsCalm = record {
  answers = λ s c. (_, refl);
  terminates = λ s c. (_, refl);
  waits = λ s c. (_, refl);
  responds = λ s m. (_, refl);
}

-- The manager knows the queues by their names.
abbrev pub names : IpcQueueManager
names = record {
  Queues = List Bytes;
  remove = without;
  create = λ qs name n size. ok (name ∷ qs);
  send_stop_job = λ qs name. if has qs name then ok qs else thrown name;
}

-- A pill does no harm to any queue.
takes-TakesPills : TakesPills table names (λ m. Unit)
takes-TakesPills m name queue i found = (λ h. ground arith, λ m' h. tt)

abbrev detect_child : ChildProcess table
detect_child = record { proc = 0; proc_name = codes "detect" }

abbrev make_detect : Worker.Factory table
make_detect s = ok (suc s, record { proc = s; proc_name = codes "detect" })

abbrev detect_worker : WorkerEntity table names
detect_worker = record {
  w = record { process = some detect_child; factory = make_detect };
  state = running;
}

abbrev pub system : System table names
system = record { world = 1; ipc = []; pongs = [] }

abbrev pub started : Supervisor table names
started = record { system = system; workers = detect_worker ∷ []; queues = [] }

started-IsReady : IsReady table names detect_worker
started-IsReady = record { process_there = (detect_child, refl); can_start = λ s. (_, refl) }

execute_fresh_example :
    let sup = supervisor table names (make_detect ∷ []) [] system in
    (execute table names stop_command (codes "qm") sup ≡ undefined)
    × (execute table names restart_command (codes "qm") sup ≡ undefined)
    × (codes "qm" ≢ [] → execute table names start_command (codes "qm") sup ≡ undefined)
execute_fresh_example = execute_fresh table names make_detect [] [] system (codes "qm")

abbrev halted : Supervisor table names
halted = record {
  system = record { world = 0; ipc = []; pongs = [] };
  workers = record detect_worker { state = stopped } ∷ [];
  queues = [];
}

stopped_lem : stop_workers table names [] started ≡ ok halted
unfolding stop_workers file_inspect_key_analyse.Supervisor.on_workers
    file_inspect_key_analyse.Supervisor.for_workers file_inspect_key_analyse.Supervisor.stop_worker
    Worker.name eq_bytes file_inspect_key_analyse.Supervisor.stop_entity lookup binary_to_queue
    file_inspect_key_analyse.Supervisor.send_pill Worker.wait_for
stopped_lem = refl

stop_workers-state_example : halted.workers ≡ map (after_stop table names []) started.workers
stop_workers-state_example = stop_workers-state table names [] started halted stopped_lem

monitor_once-stop_workers_example : monitor_once table names halted ≡ ok halted
unfolding lookup binary_to_queue eq_bytes
monitor_once-stop_workers_example =
    monitor_once-stop_workers table names (λ s c. (_, refl)) started halted
      ((detect_child, _, refl, refl), tt) stopped_lem

abbrev queues : MessageQueueApi
queues = record {
  Ipc = List Bytes;
  MessageQueue = Bytes;
  remove = without;
  create_only = λ ipc name n size. ok (name ∷ ipc, name);
  send = λ ipc q m. ok ipc;
}

abbrev no_queues : BoostQueues queues
no_queues = record { ipc = []; queues = [] }

abbrev made : BoostQueues queues
made = record {
  ipc = qm_queue ∷ parse_queue ∷ detect_queue ∷ [];
  queues =
      insert qm_queue (some qm_queue)
        (insert parse_queue (some parse_queue) (insert detect_queue (some detect_queue) []));
}

made_lem : create_all table (boost_queue_manager queues) (main_queues 344) no_queues ≡ ok made
unfolding create_all main_queues create_queue
made_lem = refl

-- A command to stop the detect service.
abbrev pub stop_detect : CommandMessage
stop_detect = record { cmd = CommandType.stop; service_name = codes "detect" ++ 0 ∷ [] }

stop_detect_heard : service stop_detect ≡ ok (codes "detect")
unfolding service file_inspect_key_analyse.Global.CString.read_c_string
stop_detect_heard = refl

abbrev wanted_up : List Wanted
wanted_up = record { name = codes "detect"; state = running } ∷ []

detect-Shows : Shows table names detect_worker (record { name = codes "detect"; state = running })
detect-Shows = record { named = (detect_child, refl, refl); made = λ s r h. cc h; state = refl }

run-replay_example :
    (sup' : Supervisor table names) × (run table names (none ∷ some stop_detect ∷ []) started
      ≡ ok sup')
    × AllShow table names sup'.workers (replay (none ∷ some stop_detect ∷ []) wanted_up)
run-replay_example =
    run-replay table names (λ m. Unit) takes-TakesPills table-IsCalm (none ∷ some stop_detect ∷ [])
      started wanted_up (tt, ((codes "detect", stop_detect_heard), tt)) tt (started-IsReady, tt)
      (detect-Shows, tt)

stopped_wanted :
    replay (none ∷ some stop_detect ∷ []) wanted_up
    ≡ record { name = codes "detect"; state = stopped } ∷ []
unfolding replay service file_inspect_key_analyse.Global.CString.read_c_string
    file_inspect_key_analyse.Supervisor.Wanted.obey
    file_inspect_key_analyse.Supervisor.Wanted.want_down eq_bytes
stopped_wanted = refl

-- All services, told to start.
abbrev start_all : CommandMessage
start_all = record { cmd = CommandType.start; service_name = 0 ∷ [] }

start_all_heard : service start_all ≡ ok []
unfolding service file_inspect_key_analyse.Global.CString.read_c_string
start_all_heard = refl

never_undefined : (ipc : List Bytes) (q : Bytes) (m : IpcMessage) → queues.send ipc q m ≢ undefined
never_undefined ipc q m h = let bad : ok ipc ≡ undefined = h in cc bad

abbrev configured : List WorkerConfig
configured = record { name = codes "qm"; path = codes "/usr/bin/qm"; args = [] } ∷ []

abbrev bare_system : System table (boost_queue_manager queues)
bare_system = record { world = 0; ipc = no_queues; pongs = [] }

abbrev prepared : Supervisor table (boost_queue_manager queues)
prepared = record {
  system = record { world = 0; ipc = made; pongs = [] };
  workers =
      record {
        w = Worker.worker table (
            factory_of table (boost_queue_manager queues)
              (record { name = codes "qm"; path = codes "/usr/bin/qm"; args = [] }));
        state = stopped;
      }
      ∷ [];
  queues = main_queues 344;
}

prepared_lem : prepare table (boost_queue_manager queues) 344 configured bare_system ≡ ok prepared
unfolding prepare main_queues file_inspect_key_analyse.Supervisor.create_queues create_all
    file_inspect_key_analyse.Supervisor.reset_queues supervisor create_queue
    file_inspect_key_analyse.Supervisor.QueueManager.remove_queue
prepared_lem = refl

main_run_ok_example :
    (sup' : Supervisor table (boost_queue_manager queues)) × (run table
        (boost_queue_manager queues)
        (some start_all ∷ none ∷ [])
        prepared
      ≡ ok sup')
    × HoldsAll table queues never_undefined sup'.system.ipc
    × AllReady table (boost_queue_manager queues) sup'
main_run_ok_example =
    main_run_ok table queues never_undefined 344 configured bare_system prepared start_all
      (none ∷ []) table-IsCalm (λ world path args. (_, refl)) prepared_lem refl start_all_heard
      (tt, tt)
