-- ===== src/Supervisor/Unwound/Laws.antt =====
-- What is left of the services when main destroys the supervisor that an exception leaves behind.
use file_inspect_key_analyse.Base.{
  Bool, Bytes, false, not, ◌&&◌, List, [], ◌∷◌, ◌++◌, All, Option, none, some, ◌≡◌, refl, sym, ap,
  ◌∙◌, ok, thrown,
}
use file_inspect_key_analyse.Global.Commands.{CommandMessage}
use file_inspect_key_analyse.Supervisor.Worker.{ProcessApi, release, ChildProcess}
use file_inspect_key_analyse.Supervisor.Worker
use file_inspect_key_analyse.Supervisor.QueueManager.{IpcQueueManager}
use file_inspect_key_analyse.Supervisor.{
  System, Supervisor, WorkerEntity, running, monitor_worker, is_running,
}
use file_inspect_key_analyse.Supervisor.Unwound.{
  threw, and_then, loop, watch, round, rounds, destroy_workers,
}
use mathlib.Core.List.{append_assoc}

-- What is documented of the destructor of `boost::process::child`: it terminates the process, unless
-- that has been waited for, and it starts none.
pub record Kills (P : ProcessApi) : Type 0 where
  pub kills : (s : P.World) (c : P.Child) → P.running (P.drop s c) c ≡ ok false
  pub starts_none :
      (s : P.World) (c d : P.Child) → P.running s d ≡ ok false → P.running (P.drop s c) d ≡ ok false

module _ (P : ProcessApi) (Q : IpcQueueManager) (laws : Kills P) where
  abbrev pub IsDown : P.World → WorkerEntity P Q → Type 0
  IsDown s e = Worker.is_alive P s e.w ≡ ok false

  release_down :
      (s : P.World) (c p : Option (ChildProcess P)) (f : Worker.Factory P)
      → let w : Worker.Worker P = record { process = p; factory = f } in
        Worker.is_alive P s w ≡ ok false → Worker.is_alive P (release P s c) w ≡ ok false
  unfolding release Worker.is_alive
  release_down s none p f h = h
  release_down s (some c) none f h = refl
  release_down s (some c) (some d) f h = laws.starts_none s c.proc d.proc h

  released :
      (s : P.World) (p : Option (ChildProcess P)) (f : Worker.Factory P)
      → Worker.is_alive P (release P s p) (record { process = p; factory = f }) ≡ ok false
  unfolding release Worker.is_alive
  released s none f = refl
  released s (some c) f = laws.kills s c.proc

  destroy_workers-keeps :
      (es : List (WorkerEntity P Q)) (s : P.World) (e : WorkerEntity P Q)
      → IsDown s e
      → IsDown (destroy_workers P Q s es) e
  unfolding destroy_workers
  destroy_workers-keeps [] s e h = h
  destroy_workers-keeps (x ∷ xs) s e h =
      destroy_workers-keeps xs (release P s x.w.process) e
        (release_down s x.w.process e.w.process e.w.factory h)

  destroy_workers-IsDown :
      (s : P.World) (es : List (WorkerEntity P Q)) → All (IsDown (destroy_workers P Q s es)) es
  unfolding destroy_workers
  destroy_workers-IsDown s [] = tt
  destroy_workers-IsDown s (e ∷ es) = (
    destroy_workers-keeps es (release P s e.w.process) e (released s e.w.process e.w.factory),
    destroy_workers-IsDown (release P s e.w.process) es,
  )

  -- A worker that runs, or is not to run.
  abbrev pub IsFine : P.World → WorkerEntity P Q → Type 0
  IsFine s e =
      (alive : Bool) × (Worker.is_alive P s e.w ≡ ok alive)
      × ((not alive && is_running e.state) ≡ false)

  monitor_worker-IsFine :
      (s : System P Q) (e : WorkerEntity P Q)
      → IsFine s.world e
      → monitor_worker P Q s e ≡ ok (s, e)
  unfolding monitor_worker
  monitor_worker-IsFine s e (alive, asked, idle) = rw asked (rw idle refl)

  monitor_worker_fails :
      (s : System P Q) (e : WorkerEntity P Q) (what : Bytes)
      → IsDown s.world e
      → e.state ≡ running
      → e.w.factory s.world ≡ thrown what
      → monitor_worker P Q s e ≡ thrown what
  unfolding monitor_worker Worker.restart Worker.start is_running
  monitor_worker_fails s e what down runs fails = rw (down, runs, fails) refl

  loop_throws :
      (through later : List (WorkerEntity P Q)) (e : WorkerEntity P Q) (what : Bytes)
      (sup : Supervisor P Q)
      → monitor_worker P Q sup.system e ≡ thrown what
      → loop P Q (monitor_worker P Q) through (e ∷ later) sup
        ≡ threw what (record sup { workers = through ++ e ∷ later })
  unfolding loop
  loop_throws through later e what sup fails = rw (loop, fails) refl

  loop_passes :
      (through later : List (WorkerEntity P Q)) (e : WorkerEntity P Q) (sup : Supervisor P Q)
      → IsFine sup.system.world e
      → loop P Q (monitor_worker P Q) through (e ∷ later) sup
        ≡ loop P Q (monitor_worker P Q) (through ++ e ∷ []) later sup
  unfolding loop
  loop_passes through later e sup h = rw (loop, monitor_worker-IsFine sup.system e h) refl

  loop_fails :
      (through fine : List (WorkerEntity P Q)) (later : List (WorkerEntity P Q))
      (e : WorkerEntity P Q) (what : Bytes) (sup : Supervisor P Q)
      → All (IsFine sup.system.world) fine
      → monitor_worker P Q sup.system e ≡ thrown what
      → loop P Q (monitor_worker P Q) through (fine ++ e ∷ later) sup
        ≡ threw what (record sup { workers = through ++ (fine ++ e ∷ later) })
  loop_fails through [] later e what sup h fails = loop_throws through later e what sup fails
  loop_fails through (x ∷ xs) later e what sup h fails =
      loop_passes through (xs ++ e ∷ later) x sup h.0
      ∙ (loop_fails (through ++ x ∷ []) xs later e what sup h.1 fails
          ∙ ap (λ ws. threw what (record sup { workers = ws }))
              (append_assoc through (x ∷ []) (xs ++ e ∷ later)))

  -- If in a round without a command a worker that is to run has no living process and its factory
  -- throws, and each worker before it lives or is not to run, then the loop of the supervisor ends with
  -- that exception, the supervisor as it was, whatever would have come later; and when main destroys
  -- it, no worker of it is alive any more, given that the destructor of a child process terminates it
  -- and starts none.
  pub rounds-destroy_workers :
      (fine : List (WorkerEntity P Q)) (e : WorkerEntity P Q) (later : List (WorkerEntity P Q))
      (what : Bytes) (sup : Supervisor P Q) (received : List (Option CommandMessage))
      → sup.workers ≡ fine ++ e ∷ later
      → All (IsFine sup.system.world) fine
      → IsDown sup.system.world e
      → e.state ≡ running
      → e.w.factory sup.system.world ≡ thrown what
      → (rounds P Q (none ∷ received) sup ≡ threw what sup)
        × All (IsDown (destroy_workers P Q sup.system.world sup.workers)) sup.workers
  unfolding rounds round watch
  rounds-destroy_workers fine e later what sup received split h down runs fails =
      let ended =
        loop_fails [] fine later e what sup h
          (monitor_worker_fails sup.system e what down runs fails) in
      let back : threw what (record sup { workers = fine ++ e ∷ later }) ≡ threw what sup =
        ap (λ ws. threw what (record sup { workers = ws })) (sym split) in
      (
        ap (λ o. and_then o (rounds P Q received))
            (ap (λ ws. loop P Q (monitor_worker P Q) [] ws sup) split ∙ ended ∙ back),
        destroy_workers-IsDown sup.system.world sup.workers,
      )
