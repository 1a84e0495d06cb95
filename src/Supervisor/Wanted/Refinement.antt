-- ===== src/Supervisor/Wanted/Refinement.antt =====
-- The supervisor does what is wanted of it, whatever its processes do.
use file_inspect_key_analyse.Base.{
  subst-ok, subst, Bytes, List, [], ◌∷◌, map, All, Option, none, some, ◌≡◌, refl, ap, ok,
  >>=-ok_parts,
}
use file_inspect_key_analyse.Global.Commands.{CommandType, CommandMessage, service}
use file_inspect_key_analyse.Supervisor.Worker.{ProcessApi}
use file_inspect_key_analyse.Supervisor.QueueManager.{IpcQueueManager}
use file_inspect_key_analyse.Supervisor.{
  Supervisor, execute, registered_command, handle_command, start_worker, monitor_worker,
  start_workers, stop_workers, stop_worker, monitor_once, run_once, run, send_pong, pong,
}
use file_inspect_key_analyse.Supervisor.Started.{IsCalm, TakesPills}
use file_inspect_key_analyse.Supervisor.Rounds.{run_ok, AllReady, IsHeard}
use file_inspect_key_analyse.Supervisor.Wanted.{Wanted, want_up, want_down, obey, replay}
use file_inspect_key_analyse.Supervisor.Wanted.Steps.{
  AllShow, on_workers-AllShow, start_worker-Shows, monitor_worker-Shows, stop_worker-Shows,
}

module _ (P : ProcessApi) (Q : IpcQueueManager) where
  map_same : (ws : List Wanted) → map (λ (w : Wanted). w) ws ≡ ws
  map_same [] = refl
  map_same (w ∷ ws) = ap (λ (rest : List Wanted). w ∷ rest) (map_same ws)

  start_workers-AllShow :
      (name : Bytes) (sup sup' : Supervisor P Q) (ws : List Wanted)
      → start_workers P Q name sup ≡ ok sup'
      → AllShow P Q sup.workers ws
      → AllShow P Q sup'.workers (map (want_up name) ws)
  unfolding start_workers
  start_workers-AllShow name =
      on_workers-AllShow P Q (start_worker P Q name) (want_up name) (start_worker-Shows P Q name)

  stop_workers-AllShow :
      (name : Bytes) (sup sup' : Supervisor P Q) (ws : List Wanted)
      → stop_workers P Q name sup ≡ ok sup'
      → AllShow P Q sup.workers ws
      → AllShow P Q sup'.workers (map (want_down name) ws)
  unfolding stop_workers
  stop_workers-AllShow name =
      on_workers-AllShow P Q (stop_worker P Q name) (want_down name) (stop_worker-Shows P Q name)

  monitor_once-AllShow :
      (sup sup' : Supervisor P Q) (ws : List Wanted)
      → monitor_once P Q sup ≡ ok sup'
      → AllShow P Q sup.workers ws
      → AllShow P Q sup'.workers ws
  unfolding monitor_once
  monitor_once-AllShow sup sup' ws h a = subst (AllShow P Q sup'.workers) (map_same ws) (
      on_workers-AllShow P Q (monitor_worker P Q) (λ w. w) (monitor_worker-Shows P Q) sup sup' ws h
        a)

  handle_command-AllShow :
      (cmd : CommandType) (name : Bytes) (sup sup' : Supervisor P Q) (ws : List Wanted)
      → handle_command P Q cmd name sup ≡ ok sup'
      → AllShow P Q sup.workers ws
      → AllShow P Q sup'.workers (obey cmd name ws)
  unfolding handle_command registered_command execute obey send_pong
  handle_command-AllShow CommandType.start name sup sup' ws h a =
      start_workers-AllShow name sup sup' ws h a
  handle_command-AllShow CommandType.stop name sup sup' ws h a =
      stop_workers-AllShow name sup sup' ws h a
  handle_command-AllShow CommandType.restart name sup sup' ws h a =
      let (mid, halted_mid, started) = >>=-ok_parts (stop_workers P Q name sup) _ h in
      start_workers-AllShow name mid sup' (map (want_down name) ws) started
        (stop_workers-AllShow name sup mid ws halted_mid a)
  handle_command-AllShow CommandType.ping name sup sup' ws h a =
      let (world, sent, answered) = >>=-ok_parts (P.send_response sup.system.world pong) _ h in
      subst-ok (λ (t : Supervisor P Q). AllShow P Q t.workers ws) answered a
  handle_command-AllShow _ name sup sup' ws h a =
      subst-ok (λ (t : Supervisor P Q). AllShow P Q t.workers ws) h a

  run-AllShow :
      (received : List (Option CommandMessage)) (sup sup' : Supervisor P Q) (ws : List Wanted)
      → run P Q received sup ≡ ok sup'
      → AllShow P Q sup.workers ws
      → AllShow P Q sup'.workers (replay received ws)
  unfolding run run_once replay
  run-AllShow [] sup sup' ws h a = subst-ok (λ (t : Supervisor P Q). AllShow P Q t.workers ws) h a
  run-AllShow (none ∷ later) sup sup' ws h a =
      let (mid, watched, went) = >>=-ok_parts (monitor_once P Q sup) _ h in
      run-AllShow later mid sup' ws went (monitor_once-AllShow sup mid ws watched a)
  run-AllShow (some msg ∷ later) sup sup' ws h a =
      let (watched, first, went) = >>=-ok_parts (run_once P Q (some msg) sup) _ h in
      let (name, read, handled) = >>=-ok_parts (service msg) _ first in
      let (mid, did, watch) = >>=-ok_parts (handle_command P Q msg.cmd name sup) _ handled in
      let here =
        monitor_once-AllShow mid watched (obey msg.cmd name ws) watch
          (handle_command-AllShow msg.cmd name sup mid ws did a) in
      rw read (run-AllShow later watched sup' (obey msg.cmd name ws) went here)

  -- Over any sequence of rounds, whatever commands come and whichever processes have died, the
  -- supervisor goes on and each worker is in the state that the commands ask for, under its name,
  -- given that the messages can be read, that every worker begins with a process and in the state of
  -- the view, that the factories give processes of its name, that a pill for a service does no
  -- harm, and that every call on a process and every answer to `fika` returns.
  pub run-replay :
      (Good : Q.Queues → Type 0)
      → TakesPills P Q Good
      → IsCalm P
      → (received : List (Option CommandMessage)) (sup : Supervisor P Q) (ws : List Wanted)
      → All IsHeard received
      → Good sup.system.ipc
      → AllReady P Q sup
      → AllShow P Q sup.workers ws
      → (sup' : Supervisor P Q) × (run P Q received sup ≡ ok sup')
        × AllShow P Q sup'.workers (replay received ws)
  run-replay Good pills calm received sup ws heard i ready a =
      let (sup', went, _, _) = run_ok P Q Good pills calm received sup heard i ready in
      (sup', went, run-AllShow received sup sup' ws went a)
