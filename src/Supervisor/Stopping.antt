-- ===== src/Supervisor/Stopping.antt =====
-- What a command to stop does to each worker, and that the watch does not undo it.
use file_inspect_key_analyse.Base.{
  ap, Bytes, eq_bytes, is_empty, Bool, true, false, ◌||◌, List, [], ◌∷◌, map, All, Option, none,
  some, if◌then◌else◌, ◌≡◌, refl, ◌⊎◌, inl, inr, Result, ok, undefined, >>=-ok_parts, lookup,
}
use file_inspect_key_analyse.Supervisor.Worker.{ProcessApi, ChildProcess}
use file_inspect_key_analyse.Supervisor.Worker
use file_inspect_key_analyse.Supervisor.Started.{Answers, is_alive_ok}
use file_inspect_key_analyse.Supervisor.QueueManager.{IpcQueueManager}
use file_inspect_key_analyse.Supervisor.{
  binary_to_queue, stopped, is_running, WorkerEntity, System, Supervisor, for_workers, on_workers,
  monitor_worker, monitor_once, send_pill, stop_entity, stop_worker, stop_workers,
}

or_true : (b : Bool) → (b || true) ≡ true
or_true true = refl
or_true false = refl

module _ (P : ProcessApi) (Q : IpcQueueManager) where
  -- A worker after the command, by the queue found for its name.
  abbrev pub halted : Option Bytes → WorkerEntity P Q → WorkerEntity P Q
  halted none e = e
  halted (some queue) e = record e { state = stopped }

  abbrev pub stop_named : Bytes → WorkerEntity P Q → Option (ChildProcess P) → WorkerEntity P Q
  stop_named service_name e none = e
  stop_named service_name e (some c) =
      if eq_bytes c.proc_name service_name || is_empty service_name
      then halted (lookup c.proc_name binary_to_queue) e
      else e

  -- What becomes of a worker: it is taken for stopped if the command names it, or names none, and its
  -- name has a queue. Any other stays as it is.
  unfoldable pub after_stop : Bytes → WorkerEntity P Q → WorkerEntity P Q
  after_stop service_name e = stop_named service_name e e.w.process

  pub after_stop-process :
      (service_name : Bytes) (e : WorkerEntity P Q) (c : ChildProcess P)
      → e.w.process ≡ some c
      → after_stop service_name e ≡ stop_named service_name e (some c)
  unfolding after_stop
  after_stop-process service_name e c h = ap (stop_named service_name e) h

  stop_entity-state :
      (queue : Option Bytes) (s : System P Q) (e : WorkerEntity P Q)
      (r : System P Q × WorkerEntity P Q)
      → stop_entity P Q queue s e ≡ ok r
      → r.1 ≡ halted queue e
  unfolding stop_entity
  stop_entity-state none s e r h = cc
  stop_entity-state (some queue) s e r h =
      let (s', sent, waiting) = >>=-ok_parts (send_pill P Q s queue) _ h in
      let (world, ended, answered) = >>=-ok_parts (Worker.wait_for P s'.world e.w) _ waiting in
      cc answered

  pub stop_worker-state :
      (name : Bytes) (s : System P Q) (e : WorkerEntity P Q) (r : System P Q × WorkerEntity P Q)
      → stop_worker P Q name s e ≡ ok r
      → r.1 ≡ after_stop name e
  unfolding stop_worker Worker.name after_stop
  stop_worker-state name s e r h =
      let (n, named, stopping) = >>=-ok_parts (Worker.name P e.w) _ h in
      go e.w.process refl n named stopping
    where
      chosen :
          (c : ChildProcess P) (b : Bool)
          → (if b then stop_entity P Q (lookup c.proc_name binary_to_queue) s e else ok (s, e))
            ≡ ok r
          → r.1 ≡ (if b then halted (lookup c.proc_name binary_to_queue) e else e)
      chosen c true k = stop_entity-state (lookup c.proc_name binary_to_queue) s e r k
      chosen c false k = cc

      go :
          (p : Option (ChildProcess P))
          → e.w.process ≡ p
          → (n : Bytes) → Worker.name P e.w ≡ ok n
          → (if eq_bytes n name || is_empty name
              then stop_entity P Q (lookup n binary_to_queue) s e
              else ok (s, e))
            ≡ ok r
          → r.1 ≡ stop_named name e p
      go none k n named stopping =
          let fault : undefined ≡ ok n = rw (k, Worker.name) at named in cc fault
      go (some c) k n named stopping =
          let found : ok c.proc_name ≡ ok n = rw (k, Worker.name) at named in
          let same : n ≡ c.proc_name = cc found in
          chosen c (eq_bytes c.proc_name name || is_empty name) (rw same at stopping)

  for_workers-state :
      (step : System P Q → WorkerEntity P Q → Result (System P Q × WorkerEntity P Q))
      (f : WorkerEntity P Q → WorkerEntity P Q)
      → ((s : System P Q) (e : WorkerEntity P Q) (r : System P Q × WorkerEntity P Q)
          → step s e ≡ ok r
          → r.1 ≡ f e)
      → (s : System P Q) (es : List (WorkerEntity P Q)) (r : System P Q × List (WorkerEntity P Q))
      → for_workers P Q step s es ≡ ok r
      → r.1 ≡ map f es
  unfolding for_workers
  for_workers-state step f good s [] r h = cc
  for_workers-state step f good s (e ∷ es) r h =
      let (first, did, later) = >>=-ok_parts (step s e) _ h in
      let (rest, went, answered) = >>=-ok_parts (for_workers P Q step first.0 es) _ later in
      let head : first.1 ≡ f e = good s e first did in
      let tail : rest.1 ≡ map f es = for_workers-state step f good first.0 es rest went in
      cc (answered, head, tail)

  -- A command to stop that succeeds changes no worker but those it names, or all if it names none; of
  -- these only the state changes, and only if the worker's name has a queue for the poison pill.
  pub stop_workers-state :
      (name : Bytes) (sup sup' : Supervisor P Q)
      → stop_workers P Q name sup ≡ ok sup'
      → sup'.workers ≡ map (after_stop name) sup.workers
  unfolding stop_workers on_workers
  stop_workers-state name sup sup' h =
      let (r, went, answered) =
        >>=-ok_parts (for_workers P Q (stop_worker P Q name) sup.system sup.workers) _ h in
      cc (
        answered,
        for_workers-state (stop_worker P Q name) (after_stop name) (stop_worker-state name)
            sup.system sup.workers r went,
      )

  -- The watch leaves alone what is alive or stopped.
  abbrev pub IsQuiet : P.World → WorkerEntity P Q → Type 0
  IsQuiet world e =
      (alive : Bool) × (Worker.is_alive P world e.w ≡ ok alive)
      × ((alive ≡ true) ⊎ (e.state ≡ stopped))

  monitor_worker_idle :
      (s : System P Q) (e : WorkerEntity P Q)
      → IsQuiet s.world e
      → monitor_worker P Q s e ≡ ok (s, e)
  unfolding monitor_worker is_running
  monitor_worker_idle s e (true, asked, why) = rw asked refl
  monitor_worker_idle s e (false, asked, inl alive) = cc alive
  monitor_worker_idle s e (false, asked, inr asleep) = rw asked (rw asleep refl)

  for_workers_idle :
      (s : System P Q) (es : List (WorkerEntity P Q))
      → All (IsQuiet s.world) es
      → for_workers P Q (monitor_worker P Q) s es ≡ ok (s, es)
  unfolding for_workers
  for_workers_idle s [] h = refl
  for_workers_idle s (e ∷ es) h =
      rw (monitor_worker_idle s e h.0) (rw (for_workers_idle s es h.1) refl)

  monitor_once_idle :
      (sup : Supervisor P Q)
      → All (IsQuiet sup.system.world) sup.workers
      → monitor_once P Q sup ≡ ok sup
  unfolding monitor_once on_workers
  monitor_once_idle sup h = rw (for_workers_idle sup.system sup.workers h)

  -- The worker has a process whose name has a queue.
  abbrev pub IsListed : WorkerEntity P Q → Type 0
  IsListed e =
      (c : ChildProcess P) × (queue : Bytes) × (e.w.process ≡ some c)
      × (lookup c.proc_name binary_to_queue ≡ some queue)

  after_stop_listed :
      (answers : Answers P) (world : P.World) (es : List (WorkerEntity P Q))
      → All IsListed es
      → All (IsQuiet world) (map (after_stop []) es)
  unfolding after_stop
  after_stop_listed answers world [] h = tt
  after_stop_listed answers world (e ∷ es) ((c, queue, there, listed), h) =
      let (alive, asked) = is_alive_ok P answers world (after_stop [] e).w in
      let asleep : (after_stop [] e).state ≡ stopped =
        rw (after_stop, there, or_true (eq_bytes c.proc_name []), listed) refl in
      ((alive, asked, inr asleep), after_stop_listed answers world es h)

  -- If every worker's process has a name with a queue, and to ask whether a process runs is answered, then after a stop of all the watch has nothing
  -- to do, and so starts none of them again.
  pub monitor_once-stop_workers :
      (answers : Answers P) (sup sup' : Supervisor P Q)
      → All IsListed sup.workers
      → stop_workers P Q [] sup ≡ ok sup'
      → monitor_once P Q sup' ≡ ok sup'
  monitor_once-stop_workers answers sup sup' h did = monitor_once_idle sup' (
      rw (stop_workers-state [] sup sup' did)
        (after_stop_listed answers sup'.system.world sup.workers h))
