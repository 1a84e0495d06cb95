-- ===== src/Supervisor/Service.antt =====
-- The supervisor of src/supervisor/src/main.cpp, over the queue manager for boost's queues.
use file_inspect_key_analyse.Base.{
  subst, lookup-All, ℕ, Bytes, List, [], ◌∷◌, map, All, Option, some, ◌≡◌, refl, ◌≢◌, Result, ok,
  thrown, undefined, >>=-ok_parts,
}
use file_inspect_key_analyse.Global.Commands.{CommandType, CommandMessage, service}
use file_inspect_key_analyse.Global.FileJob.{IpcMessage, poison_pill}
use file_inspect_key_analyse.Supervisor.Worker.{ProcessApi, ChildProcess}
use file_inspect_key_analyse.Supervisor.Worker
use file_inspect_key_analyse.Global.FilePath.{filename}
use file_inspect_key_analyse.Supervisor.QueueManager.{
  MessageQueueApi, BoostQueues, at_key, send_stop_job_to, boost_queue_manager,
}
use file_inspect_key_analyse.Supervisor.Pills.{main_queues, main_queues-Holds, Holds}
use file_inspect_key_analyse.Supervisor.{
  IpcQueueManager, binary_to_queue, System, Supervisor, supervisor, run, create_all, create_queues,
  reset_queues,
}
use file_inspect_key_analyse.Supervisor.Started.{IsCalm, CanStart, TakesPills}
use file_inspect_key_analyse.Supervisor.Rounds.{AllReady, IsHeard, Goes, run_from_start_ok}
use file_inspect_key_analyse.Supervisor.Main.{WorkerConfig, factory_of, prepare}

module _ (P : ProcessApi) (A : MessageQueueApi)
    -- A call of `message_queue::send` returns or throws.
    (sends : (ipc : A.Ipc) (q : A.MessageQueue) (m : IpcMessage) → A.send ipc q m ≢ undefined) where
  abbrev Q : IpcQueueManager
  Q = boost_queue_manager A

  abbrev pub HoldsAll : BoostQueues A → Type 0
  HoldsAll m = All (λ entry. Holds P A m entry.1) binary_to_queue

  boost-TakesPills : TakesPills P Q HoldsAll
  unfolding send_stop_job_to at_key
  boost-TakesPills m name queue held found = go (A.send m.ipc q poison_pill) refl
    where
      there : Holds P A m queue
      there = lookup-All (Holds P A m) name binary_to_queue queue held found

      q : A.MessageQueue
      q = there.0

      go :
          (r : Result A.Ipc)
          → A.send m.ipc q poison_pill ≡ r
          → (send_stop_job_to A m queue ≢ undefined)
            × ((m' : BoostQueues A) → send_stop_job_to A m queue ≡ ok m' → HoldsAll m')
      go (ok ipc) e =
          let done : send_stop_job_to A m queue ≡ ok (record m { ipc = ipc }) =
            rw (send_stop_job_to, there.1) (rw e refl) in
          (
            λ fault. let bad : undefined ≡ ok (record m { ipc = ipc }) = cc (fault, done) in cc bad,
            λ m' h.
                let same : record m { ipc = ipc } ≡ m' = cc (h, done) in subst HoldsAll same held,
          )
      go (thrown what) e =
          let done : send_stop_job_to A m queue ≡ thrown what =
            rw (send_stop_job_to, there.1) (rw e refl) in
          (λ fault. cc (fault, done), λ m' h. cc (h, done))
      go undefined e = absurd (sends m.ipc q poison_pill e)

  abbrev fresh : ℕ → List WorkerConfig → System P Q → Supervisor P Q
  fresh size configs s =
      reset_queues P Q (supervisor P Q (map (factory_of P Q) configs) (main_queues size) s)

  fresh-CanStart :
      ((world : P.World) (path : Bytes) (args : List Bytes)
        → (r : P.World × P.Child) × (P.spawn world path args ≡ ok r))
      → (size : ℕ) (configs : List WorkerConfig) (s : System P Q)
      → All (CanStart P Q) (fresh size configs s).workers
  unfolding reset_queues supervisor factory_of Worker.boost_child_process Worker.worker
  fresh-CanStart spawns size [] s = tt
  fresh-CanStart spawns size (c ∷ configs) s = (
    λ world.
        let (r, made) = spawns world c.path c.args in
        ((r.0, record { proc = r.1; proc_name = filename c.path }), rw made refl),
    fresh-CanStart spawns size configs s,
  )

  -- The main program: if the queues can be made, every process can be spawned, and every call on a
  -- process and every answer to `fika` returns, then from the first
  -- round on, in which it is told to start all services, no round fails, whatever commands come.
  pub main_run_ok :
      (ipc_message_size : ℕ) (configs : List WorkerConfig) (s : System P Q) (sup : Supervisor P Q)
      (msg : CommandMessage) (received : List (Option CommandMessage))
      → (calm : IsCalm P)
      → ((world : P.World) (path : Bytes) (args : List Bytes)
          → (r : P.World × P.Child) × (P.spawn world path args ≡ ok r))
      → prepare P Q ipc_message_size configs s ≡ ok sup
      → msg.cmd ≡ CommandType.start
      → service msg ≡ ok []
      → All IsHeard received
      → (sup' : Supervisor P Q) × (run P Q (some msg ∷ received) sup ≡ ok sup')
        × HoldsAll sup'.system.ipc
        × AllReady P Q sup'
  unfolding prepare create_queues reset_queues supervisor
  main_run_ok size configs s sup msg received calm spawns made starts read heard =
      let f = fresh size configs s in
      let (ipc, queued, built) = >>=-ok_parts (create_all P Q f.queues f.system.ipc) _ made in
      let held : HoldsAll ipc = main_queues-Holds P A size f.system.ipc ipc queued in
      subst
        (λ (t : Supervisor P Q).
          Goes P Q HoldsAll boost-TakesPills calm (run P Q (some msg ∷ received) t))
        (cc built)
        (run_from_start_ok P Q HoldsAll boost-TakesPills calm msg received
          (record f { system = record f.system { ipc = ipc } }) starts read heard held
          (fresh-CanStart spawns size configs s))
