-- ===== src/Supervisor.antt =====
-- src/supervisor/include/supervisor.h, src/supervisor/src/supervisor.cpp and the commands of
-- src/supervisor/include/cmd_def.h: the processes that it starts, watches and stops.
pub mod Worker
pub mod QueueManager
pub mod Started
pub mod Rounds
pub mod Stopping
pub mod Pills
pub mod Main
pub mod Service
pub mod Wanted
pub mod Unwound
use file_inspect_key_analyse.Base.{
  ℕ, ℤ, zero, suc, pos, ◌+◌, ◌-◌, ◌≤◌, ◌<◌, ◌*◌, Bytes, String, codes, eq_bytes, eq_bytes_iff,
  eq_bytes_refl, is_empty, starts_with, starts_with-append, Bool, true, false, not, ◌&&◌, ◌||◌,
  List, [], ◌∷◌, ◌++◌, map, All, All-append, All-removed, Memᴰ, Option, none, some, if◌then◌else◌,
  ◌≡◌, refl, sym, ap, ◌∙◌, ◌⊎◌, inl, inr, ◌≢◌, ◌↔◌, arith, Bool-cases, Result, ok, thrown,
  undefined, >>=-ok_parts, catch-eq-ok, ◌>>=◌, catch, Dict, lookup, insert, lookup-insert, length,
  take, drop, replicate, ltb, ◌==◌, length-append, drop-add, drop-append, take-append,
}
use file_inspect_key_analyse.Queues.{detect_queue, parse_queue, qm_queue}
use file_inspect_key_analyse.Global.CString.{strncpy, zeros}
use file_inspect_key_analyse.Global.Commands.{CommandType, CommandMessage, CommandResponse, service}
use Worker.{ProcessApi}
use Worker
use QueueManager.{IpcQueueManager, QueueDescriptor}

-- `binary_to_queue`
unfoldable pub binary_to_queue : Dict Bytes
binary_to_queue =
    (codes "detect", detect_queue) ∷ (codes "parse", parse_queue) ∷ (codes "qm", qm_queue) ∷ []

pub data WorkerState : Type 0 where
  running stopped : WorkerState

unfoldable pub is_running : WorkerState → Bool
is_running running = true
is_running stopped = false

-- `commands_`, as `register_commands` fills it: the others are not in the map.
pub data Command : Type 0 where
  start_command stop_command restart_command ping_command : Command

unfoldable pub registered_command : CommandType → Option Command
registered_command CommandType.start = some start_command
registered_command CommandType.stop = some stop_command
registered_command CommandType.restart = some restart_command
registered_command CommandType.ping = some ping_command
registered_command _ = none

-- The answer of `ping_command`.
unfoldable pub pong : CommandResponse
unfolding strncpy
pong = record { success = true; message = strncpy 5 (codes "pong") (zeros 256) }

module _ (P : ProcessApi) (Q : IpcQueueManager) where
  -- `worker_entity`
  pub record WorkerEntity : Type 0 where
    pub w : Worker.Worker P
    pub state : WorkerState

  -- What the supervisor works on: the operating system's processes, the queues of its queue manager,
  -- and the answers that it has sent.
  pub record System : Type 0 where
    pub world : P.World
    pub ipc : Q.Queues
    pub pongs : List CommandResponse

  pub record Supervisor : Type 0 where
    pub system : System
    pub workers : List WorkerEntity
    pub queues : List QueueDescriptor

  -- The loop over `workers_`, which every operation has: a step for each worker in turn.
  unfoldable pub for_workers :
      (System → WorkerEntity → Result (System × WorkerEntity))
      → System
      → List WorkerEntity
      → Result (System × List WorkerEntity)
  for_workers step s [] = ok (s, [])
  for_workers step s (e ∷ es) = do
    first ← step s e
    rest ← for_workers step first.0 es
    ok (rest.0, first.1 ∷ rest.1)

  unfoldable pub on_workers :
      (System → WorkerEntity → Result (System × WorkerEntity)) → Supervisor → Result Supervisor
  on_workers step sup = do
    r ← for_workers step sup.system sup.workers
    ok (record sup { system = r.0; workers = r.1 })

  -- The constructor.
  unfoldable pub supervisor : List (Worker.Factory P) → List QueueDescriptor → System → Supervisor
  supervisor factories queues s = record {
    system = s;
    workers = map (λ f. record { w = Worker.worker P f; state = stopped }) factories;
    queues = queues;
  }

  -- `service_name.empty() || w.w->name() == service_name`; the name is asked for only where needed.
  unfoldable pub is_started_by : Bytes → WorkerEntity → Result Bool
  is_started_by service_name e =
      let asked = Worker.name P e.w >>= λ name. ok (eq_bytes name service_name) in
      if is_empty service_name then ok true else asked

  unfoldable pub start_entity : System → WorkerEntity → Result (System × WorkerEntity)
  start_entity s e = do
    r ← Worker.start P s.world e.w
    ok (record s { world = r.0 }, record e { w = r.1; state = running })

  unfoldable pub start_worker : Bytes → System → WorkerEntity → Result (System × WorkerEntity)
  start_worker service_name s e = do
    chosen ← is_started_by service_name e
    let started = start_entity s e
    if chosen then started else ok (s, e)

  -- `supervisor::start_workers`
  unfoldable pub start_workers : Bytes → Supervisor → Result Supervisor
  start_workers service_name sup = on_workers (start_worker service_name) sup

  unfoldable pub monitor_worker : System → WorkerEntity → Result (System × WorkerEntity)
  monitor_worker s e = do
    alive ← Worker.is_alive P s.world e.w
    let restarted =
        Worker.restart P s.world e.w >>= λ r. ok (record s { world = r.0 }, record e { w = r.1 })
    if not alive && is_running e.state then restarted else ok (s, e)

  -- `supervisor::monitor_once`
  unfoldable pub monitor_once : Supervisor → Result Supervisor
  monitor_once sup = on_workers monitor_worker sup

  -- The pill is put on the queue; an exception is logged.
  unfoldable pub send_pill : System → Bytes → Result System
  send_pill s queue =
      catch (Q.send_stop_job s.ipc queue >>= λ ipc. ok (record s { ipc = ipc })) (λ what. ok s)

  -- With the queue that was found for its name a worker gets a pill and is waited for; a worker with
  -- none is left as it is.
  unfoldable pub stop_entity : Option Bytes → System → WorkerEntity → Result (System × WorkerEntity)
  stop_entity none s e = ok (s, e)
  stop_entity (some queue) s e = do
    s' ← send_pill s queue
    world ← Worker.wait_for P s'.world e.w
    ok (record s' { world = world }, record e { state = stopped })

  unfoldable pub stop_worker : Bytes → System → WorkerEntity → Result (System × WorkerEntity)
  stop_worker service_name s e = do
    name ← Worker.name P e.w
    let stopping = stop_entity (lookup name binary_to_queue) s e
    if eq_bytes name service_name || is_empty service_name then stopping else ok (s, e)

  -- `supervisor::stop_workers`
  unfoldable pub stop_workers : Bytes → Supervisor → Result Supervisor
  stop_workers service_name sup = on_workers (stop_worker service_name) sup

  unfoldable pub remove_all : List QueueDescriptor → Q.Queues → Q.Queues
  remove_all [] ipc = ipc
  remove_all (q ∷ qs) ipc = remove_all qs (Q.remove ipc q.name)

  -- `supervisor::reset_queues`
  unfoldable pub reset_queues : Supervisor → Supervisor
  unfolding remove_all
  reset_queues sup = record sup {
    system = record sup.system { ipc = remove_all sup.queues sup.system.ipc };
  }

  unfoldable pub create_all : List QueueDescriptor → Q.Queues → Result Q.Queues
  create_all [] ipc = ok ipc
  create_all (q ∷ qs) ipc = do
    ipc' ← Q.create ipc q.name q.max_messages q.message_size
    create_all qs ipc'

  -- `supervisor::create_queues`
  unfoldable pub create_queues : Supervisor → Result Supervisor
  create_queues sup = do
    ipc ← create_all sup.queues sup.system.ipc
    ok (record sup { system = record sup.system { ipc = ipc } })

  -- `supervisor::send_pong`
  unfoldable pub send_pong : CommandResponse → Supervisor → Result Supervisor
  send_pong msg sup = do
    world ← P.send_response sup.system.world msg
    ok (record sup {
      system = record sup.system { world = world; pongs = sup.system.pongs ++ msg ∷ [] };
    })

  -- The `execute` of each command.
  unfoldable pub execute : Command → Bytes → Supervisor → Result Supervisor
  execute start_command service_name sup = start_workers service_name sup
  execute stop_command service_name sup = stop_workers service_name sup
  execute restart_command service_name sup =
      stop_workers service_name sup >>= λ stopped_sup. start_workers service_name stopped_sup
  execute ping_command service_name sup = send_pong pong sup

  -- `supervisor::handle_command`
  unfoldable pub handle_command : CommandType → Bytes → Supervisor → Result Supervisor
  handle_command cmd_type service_name sup = elim (registered_command cmd_type) [
    | none ↦ ok sup
    | some c ↦ execute c service_name sup
  ]

  -- One round of `supervisor::run`, with what `try_receive` gave.
  unfoldable pub run_once : Option CommandMessage → Supervisor → Result Supervisor
  run_once none sup = monitor_once sup
  run_once (some msg) sup = do
    name ← service msg
    sup' ← handle_command msg.cmd name sup
    monitor_once sup'

  -- `supervisor::run`, for as many rounds as are given.
  unfoldable pub run : List (Option CommandMessage) → Supervisor → Result Supervisor
  run [] sup = ok sup
  run (received ∷ later) sup = run_once received sup >>= λ sup'. run later sup'
