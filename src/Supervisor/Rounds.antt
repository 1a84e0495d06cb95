-- ===== src/Supervisor/Rounds.antt =====
-- Once every worker has a process no command and no round of the loop fails; before that a command
-- that asks for a worker's name goes through a null pointer.
use file_inspect_key_analyse.Base.{
  ◌++◌, subst, sym, Result, Bytes, List, [], ◌∷◌, All, Option, none, some, ◌≡◌, refl, ◌≢◌, ok,
  undefined,
}
use file_inspect_key_analyse.Global.Commands.{CommandType, CommandMessage, service}
use file_inspect_key_analyse.Supervisor.Worker.{ProcessApi, ChildProcess}
use file_inspect_key_analyse.Supervisor.Worker
use file_inspect_key_analyse.Supervisor.QueueManager.{IpcQueueManager, QueueDescriptor}
use file_inspect_key_analyse.Supervisor.{
  running, Command, start_command, stop_command, restart_command, ping_command, registered_command,
  System, Supervisor, for_workers, on_workers, supervisor, is_started_by, start_worker,
  start_workers, monitor_worker, monitor_once, stop_worker, stop_workers, execute, handle_command,
  run_once, run, send_pong, pong,
}
use file_inspect_key_analyse.Supervisor.Started.{
  IsCalm, CanStart, IsReady, IsUp, on_workers_ok, start_worker_ok, start_all_ok, monitor_worker_ok,
  stop_worker_ok, TakesPills,
}

-- A message whose array ends in NUL, or none.
abbrev pub IsHeard : Option CommandMessage → Type 0
IsHeard none = Unit
IsHeard (some msg) = (name : Bytes) × (service msg ≡ ok name)

module _ (P : ProcessApi) (Q : IpcQueueManager) where
  abbrev pub AllReady : Supervisor P Q → Type 0
  AllReady sup = All (IsReady P Q) sup.workers

  module _ (Good : Q.Queues → Type 0) (pills : TakesPills P Q Good) (calm : IsCalm P) where
    -- The operation succeeds, the queues stay as they are to be and the workers ready.
    abbrev pub Goes : Result (Supervisor P Q) → Type 0
    Goes t = (sup' : Supervisor P Q) × (t ≡ ok sup') × Good sup'.system.ipc × AllReady sup'

    start_ok :
        (name : Bytes) (sup : Supervisor P Q)
        → Good sup.system.ipc
        → AllReady sup
        → Goes (start_workers P Q name sup)
    unfolding start_workers
    start_ok name =
        on_workers_ok P Q Good (IsReady P Q) (IsReady P Q) (start_worker P Q name)
          (start_worker_ok P Q Good name)

    stop_ok :
        (name : Bytes) (sup : Supervisor P Q)
        → Good sup.system.ipc
        → AllReady sup
        → Goes (stop_workers P Q name sup)
    unfolding stop_workers
    stop_ok name =
        on_workers_ok P Q Good (IsReady P Q) (IsReady P Q) (stop_worker P Q name)
          (stop_worker_ok P Q Good pills calm name)

    monitor_ok :
        (sup : Supervisor P Q) → Good sup.system.ipc → AllReady sup → Goes (monitor_once P Q sup)
    unfolding monitor_once
    monitor_ok =
        on_workers_ok P Q Good (IsReady P Q) (IsReady P Q) (monitor_worker P Q)
          (monitor_worker_ok P Q Good calm)

    execute_ok :
        (c : Command) (name : Bytes) (sup : Supervisor P Q)
        → Good sup.system.ipc
        → AllReady sup
        → Goes (execute P Q c name sup)
    unfolding execute send_pong
    execute_ok start_command name sup i h = start_ok name sup i h
    execute_ok stop_command name sup i h = stop_ok name sup i h
    execute_ok restart_command name sup i h =
        let (mid, halted, kept, up) = stop_ok name sup i h in
        let (sup', went, held, there) = start_ok name mid kept up in
        (sup', rw halted went, held, there)
    execute_ok ping_command name sup i h =
        let (world, sent) = calm.responds sup.system.world pong in
        let answered = record sup.system { world = world; pongs = sup.system.pongs ++ pong ∷ [] } in
        (record sup { system = answered }, rw sent refl, i, h)

    handle_command_ok :
        (cmd : CommandType) (name : Bytes) (sup : Supervisor P Q)
        → Good sup.system.ipc
        → AllReady sup
        → Goes (handle_command P Q cmd name sup)
    unfolding handle_command
    handle_command_ok cmd name sup i h = go (registered_command cmd) refl
      where
        go :
            (c : Option Command)
            → registered_command cmd ≡ c
            → Goes (handle_command P Q cmd name sup)
        go none e = (sup, rw (e, handle_command), i, h)
        go (some c) e =
            let (sup', did, kept, up) = execute_ok c name sup i h in
            (sup', rw (e, handle_command) did, kept, up)

    run_once_ok :
        (received : Option CommandMessage) (sup : Supervisor P Q)
        → IsHeard received
        → Good sup.system.ipc
        → AllReady sup
        → Goes (run_once P Q received sup)
    unfolding run_once
    run_once_ok none sup k i h = monitor_ok sup i h
    run_once_ok (some msg) sup (name, read) i h =
        let (mid, did, kept, up) = handle_command_ok msg.cmd name sup i h in
        let (sup', watched, held, there) = monitor_ok mid kept up in
        (sup', rw (read, did) watched, held, there)

    -- Once every worker has a process, the supervisor's loop meets no undefined behaviour and no
    -- exception over any sequence of rounds, whatever commands it receives, and every worker keeps a
    -- process: provided that the factories succeed and that the queues begin in a state in which a
    -- pill for a service does no harm, and pills keep them in such a state, and that every call on a process
    -- and every answer to `fika` returns.
    pub run_ok :
        (received : List (Option CommandMessage)) (sup : Supervisor P Q)
        → All IsHeard received
        → Good sup.system.ipc
        → AllReady sup
        → Goes (run P Q received sup)
    unfolding run
    run_ok [] sup k i h = (sup, refl, i, h)
    run_ok (r ∷ rs) sup k i h =
        let (mid, did, kept, up) = run_once_ok r sup k.0 i h in
        let (sup', went, held, there) = run_ok rs mid k.1 kept up in
        (sup', rw did went, held, there)

  -- A start of all workers gives each of them a process, also where none had one, and leaves each
  -- in the state `running`.
  start_workers_ok :
      (sup : Supervisor P Q)
      → All (CanStart P Q) sup.workers
      → (sup' : Supervisor P Q) × (start_workers P Q [] sup ≡ ok sup')
        × (sup'.system.ipc ≡ sup.system.ipc)
        × All (IsUp P Q) sup'.workers
  unfolding start_workers
  start_workers_ok sup h =
      on_workers_ok P Q (λ ipc. ipc ≡ sup.system.ipc) (CanStart P Q) (IsUp P Q)
        (start_worker P Q []) (start_all_ok P Q (λ ipc. ipc ≡ sup.system.ipc)) sup refl h

  All-fst {ℓ κ ι} :
      {T : Type ℓ} (X : T → Type κ) (Y : T → Type ι) (ts : List T)
      → All (λ t. X t × Y t) ts
      → All X ts
  All-fst X Y [] h = tt
  All-fst X Y (t ∷ ts) h = (h.0.0, All-fst X Y ts h.1)

  -- The same from workers that have no process yet, if the first command is to start them all.
  pub run_from_start_ok :
      (Good : Q.Queues → Type 0) (pills : TakesPills P Q Good) (calm : IsCalm P)
      (msg : CommandMessage) (received : List (Option CommandMessage)) (sup : Supervisor P Q)
      → msg.cmd ≡ CommandType.start
      → service msg ≡ ok []
      → All IsHeard received
      → Good sup.system.ipc
      → All (CanStart P Q) sup.workers
      → Goes Good pills calm (run P Q (some msg ∷ received) sup)
  unfolding run run_once handle_command registered_command execute
  run_from_start_ok Good pills calm msg received sup starts read heard i h =
      let (mid, did, kept, up) = start_workers_ok sup h in
      let good : Good mid.system.ipc = subst Good (sym kept) i in
      let (watched, went, held, ready) =
        monitor_ok Good pills calm mid good
          (All-fst (IsReady P Q) (λ e. e.state ≡ running) mid.workers up) in
      let (sup', ran, holds, there) = run_ok Good pills calm received watched heard held ready in
      (sup', rw (read, starts) (rw did (rw went ran)), holds, there)

  -- Before the workers have been started, a command to stop or to restart, or to start one of them by
  -- its name, goes through the null pointer of the first worker.
  pub execute_fresh :
      (f : Worker.Factory P) (fs : List (Worker.Factory P)) (qs : List QueueDescriptor)
      (s : System P Q) (name : Bytes)
      → let sup = supervisor P Q (f ∷ fs) qs s in
        (execute P Q stop_command name sup ≡ undefined)
        × (execute P Q restart_command name sup ≡ undefined)
        × (name ≢ [] → execute P Q start_command name sup ≡ undefined)
  unfolding execute start_workers stop_workers on_workers for_workers supervisor start_worker
      stop_worker is_started_by Worker.name Worker.worker
  execute_fresh f fs qs s [] = (refl, refl, λ h. absurd (h refl))
  execute_fresh f fs qs s (x ∷ name) = (refl, refl, λ h. refl)
