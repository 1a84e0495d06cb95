-- ===== src/Supervisor/Started.antt =====
-- Which commands the supervisor can carry out: none but a start of all before the processes have been
-- started, since it asks a null pointer for the worker's name, and any of them afterwards.
use file_inspect_key_analyse.Base.{
  Bytes, eq_bytes, is_empty, Bool, true, false, not, ◌&&◌, ◌||◌, List, [], ◌∷◌, All, Option, none,
  some, if◌then◌else◌, ◌≡◌, refl, inl, inr, ◌≢◌, Bool-cases, Result, ok, thrown, undefined, lookup,
}
use file_inspect_key_analyse.Supervisor.Worker.{ProcessApi, ChildProcess}
use file_inspect_key_analyse.Supervisor.Worker
use file_inspect_key_analyse.Global.Commands.{CommandResponse}
use file_inspect_key_analyse.Base.{arith}
use file_inspect_key_analyse.Supervisor.QueueManager.{IpcQueueManager}
use file_inspect_key_analyse.Supervisor.{
  binary_to_queue, running, stopped, is_running, WorkerEntity, System, Supervisor, for_workers,
  on_workers, is_started_by, start_entity, start_worker, monitor_worker, send_pill, stop_entity,
  stop_worker,
}

-- To ask whether a process runs is answered.
abbrev pub Answers : ProcessApi → Type 0
Answers P = (s : P.World) (c : P.Child) → (runs : Bool) × (P.running s c ≡ ok runs)

-- Every call on a process and every answer to `fika` returns.
pub record IsCalm (P : ProcessApi) : Type 0 where
  pub answers : Answers P
  pub terminates : (s : P.World) (c : P.Child) → (s' : P.World) × (P.terminate s c ≡ ok s')
  pub waits : (s : P.World) (c : P.Child) → (s' : P.World) × (P.wait s c ≡ ok s')
  pub responds :
      (s : P.World) (m : CommandResponse) → (s' : P.World) × (P.send_response s m ≡ ok s')

module _ (P : ProcessApi) where
  pub is_alive_ok :
      (answers : Answers P) (s : P.World) (w : Worker.Worker P)
      → (alive : Bool) × (Worker.is_alive P s w ≡ ok alive)
  unfolding Worker.is_alive
  is_alive_ok answers s w = go w.process refl
    where
      go :
          (p : Option (ChildProcess P))
          → w.process ≡ p
          → (alive : Bool) × (Worker.is_alive P s w ≡ ok alive)
      go none e = (false, rw (e, Worker.is_alive) refl)
      go (some c) e = let (runs, asked) = answers s c.proc in (runs, rw (e, Worker.is_alive) asked)

  pub wait_for_ok :
      (calm : IsCalm P) (s : P.World) (w : Worker.Worker P)
      → (s' : P.World) × (Worker.wait_for P s w ≡ ok s')
  unfolding Worker.wait_for
  wait_for_ok calm s w = go w.process refl
    where
      go :
          (p : Option (ChildProcess P))
          → w.process ≡ p
          → (s' : P.World) × (Worker.wait_for P s w ≡ ok s')
      go none e = (s, rw (e, Worker.wait_for) refl)
      go (some c) e = let (s', ended) = calm.waits s c.proc in (s', rw (e, Worker.wait_for) ended)

module _ (P : ProcessApi) (Q : IpcQueueManager) where
  -- The factory gives a process whatever the state of the system is.
  abbrev pub CanStart : WorkerEntity P Q → Type 0
  CanStart e = (s : P.World) → (r : P.World × ChildProcess P) × (e.w.factory s ≡ ok r)

  -- A worker that has a process.
  pub record IsReady (e : WorkerEntity P Q) : Type 0 where
    pub process_there : (c : ChildProcess P) × (e.w.process ≡ some c)
    pub can_start : CanStart e

  abbrev pub Step : Type 0
  Step = System P Q → WorkerEntity P Q → Result (System P Q × WorkerEntity P Q)

  -- A worker that is ready and whose state is `running`.
  abbrev pub IsUp : WorkerEntity P Q → Type 0
  IsUp e = IsReady e × (e.state ≡ running)

  -- The step succeeds on this worker, and keeps what the queues are to be.
  abbrev pub Succeeds :
      (Q.Queues → Type 0)
      → (WorkerEntity P Q → Type 0)
      → Result (System P Q × WorkerEntity P Q)
      → Type 0
  Succeeds Good Post t = (r : System P Q × WorkerEntity P Q) × (t ≡ ok r) × Good r.0.ipc × Post r.1

  -- A step that succeeds on every worker succeeds on them all.
  module _ (Good : Q.Queues → Type 0) (Pre Post : WorkerEntity P Q → Type 0) (step : Step)
      (good : (s : System P Q) (e : WorkerEntity P Q)
        → Good s.ipc
        → Pre e
        → Succeeds Good Post (step s e)) where
    for_workers_ok :
        (s : System P Q) (es : List (WorkerEntity P Q))
        → Good s.ipc
        → All Pre es
        → (r : System P Q × List (WorkerEntity P Q)) × (for_workers P Q step s es ≡ ok r)
          × Good r.0.ipc
          × All Post r.1
    unfolding for_workers
    for_workers_ok s [] i h = ((s, []), refl, i, tt)
    for_workers_ok s (e ∷ es) i h =
        let (first, did, kept, here) = good s e i h.0 in
        let (rest, went, held, there) = for_workers_ok first.0 es kept h.1 in
        ((rest.0, first.1 ∷ rest.1), rw (did, went), held, (here, there))

    pub on_workers_ok :
        (sup : Supervisor P Q)
        → Good sup.system.ipc
        → All Pre sup.workers
        → (sup' : Supervisor P Q) × (on_workers P Q step sup ≡ ok sup')
          × Good sup'.system.ipc
          × All Post sup'.workers
    unfolding on_workers
    on_workers_ok sup i h =
        let (r, went, held, there) = for_workers_ok sup.system sup.workers i h in
        (record sup { system = r.0; workers = r.1 }, rw went, held, there)

  name_ok :
      (e : WorkerEntity P Q) (h : IsReady e) → Worker.name P e.w ≡ ok h.process_there.0.proc_name
  unfolding Worker.name
  name_ok e h = rw h.process_there.1

  module _ (Good : Q.Queues → Type 0) where
    start_entity_ok :
        (s : System P Q) (e : WorkerEntity P Q)
        → Good s.ipc
        → CanStart e
        → Succeeds Good IsUp (start_entity P Q s e)
    unfolding start_entity Worker.start
    start_entity_ok s e i h =
        let (r, made) = h s.world in
        (
          (
            record s { world = Worker.release P r.0 e.w.process },
            record e { w = record e.w { process = some r.1 }; state = running },
          ),
          rw made,
          i,
          (record { process_there = (r.1, refl); can_start = h }, refl),
        )

    -- A worker that is not chosen, and one that is.
    chosen_ok :
        (b : Bool) (s : System P Q) (e : WorkerEntity P Q)
        → Good s.ipc
        → IsReady e
        → Succeeds Good IsReady (if b then start_entity P Q s e else ok (s, e))
    chosen_ok true s e i h =
        let (r, did, kept, up) = start_entity_ok s e i h.can_start in (r, did, kept, up.0)
    chosen_ok false s e i h = ((s, e), refl, i, h)

    pub start_worker_ok :
        (name : Bytes) (s : System P Q) (e : WorkerEntity P Q)
        → Good s.ipc
        → IsReady e
        → Succeeds Good IsReady (start_worker P Q name s e)
    unfolding start_worker is_started_by
    start_worker_ok [] s e i h = chosen_ok true s e i h
    start_worker_ok (x ∷ name) s e i h =
        let c = h.process_there.0.proc_name in
        let (r, did, kept, up) = chosen_ok (eq_bytes c (x ∷ name)) s e i h in
        (r, rw (name_ok e h) did, kept, up)

    -- With no name every worker is started, whether it has a process or not.
    pub start_all_ok :
        (s : System P Q) (e : WorkerEntity P Q)
        → Good s.ipc
        → CanStart e
        → Succeeds Good IsUp (start_worker P Q [] s e)
    unfolding start_worker is_started_by
    start_all_ok s e i h = start_entity_ok s e i h

    pub monitor_worker_ok :
        IsCalm P
        → (s : System P Q) (e : WorkerEntity P Q) → Good s.ipc
        → IsReady e
        → Succeeds Good IsReady (monitor_worker P Q s e)
    unfolding monitor_worker Worker.restart Worker.start
    monitor_worker_ok calm s e i h =
        let (alive, asked) = is_alive_ok P calm.answers s.world e.w in
        elim (Bool-cases (not alive && is_running e.state)) [
          | inr idle ↦ ((s, e), rw asked (rw idle refl), i, h)
          | inl due ↦
              let dead : alive ≡ false = ground arith in
              let (r, made) = h.can_start s.world in
              (
                (
                  record s { world = Worker.release P r.0 e.w.process },
                  record e { w = record e.w { process = some r.1 } },
                ),
                rw asked (rw due (rw dead (rw made refl))),
                i,
                record { process_there = (r.1, refl); can_start = h.can_start },
              )
        ]

  -- A pill for one of the supervisor's queues may raise an exception but does no harm, as long as the
  -- queues are as they are to be, and leaves them so.
  abbrev pub TakesPills : (Q.Queues → Type 0) → Type 0
  TakesPills Good =
      (m : Q.Queues) (name queue : Bytes)
      → Good m
      → lookup name binary_to_queue ≡ some queue
      → (Q.send_stop_job m queue ≢ undefined)
        × ((m' : Q.Queues) → Q.send_stop_job m queue ≡ ok m' → Good m')

  module _ (Good : Q.Queues → Type 0) (pills : TakesPills Good) (calm : IsCalm P) where
    send_pill_ok :
        (s : System P Q) (name queue : Bytes)
        → Good s.ipc
        → lookup name binary_to_queue ≡ some queue
        → (s' : System P Q) × (send_pill P Q s queue ≡ ok s') × Good s'.ipc
    unfolding send_pill
    send_pill_ok s name queue i found = go (Q.send_stop_job s.ipc queue) refl
      where
        go :
            (r : Result Q.Queues)
            → Q.send_stop_job s.ipc queue ≡ r
            → (s' : System P Q) × (send_pill P Q s queue ≡ ok s') × Good s'.ipc
        go (ok ipc) e = (record s { ipc = ipc }, rw e, (pills s.ipc name queue i found).1 ipc e)
        go (thrown what) e = (s, rw e, i)
        go undefined e = absurd ((pills s.ipc name queue i found).0 e)

    stop_entity_ok :
        (name : Bytes) (queue : Option Bytes) (s : System P Q) (e : WorkerEntity P Q)
        → lookup name binary_to_queue ≡ queue
        → Good s.ipc
        → IsReady e
        → Succeeds Good IsReady (stop_entity P Q queue s e)
    unfolding stop_entity
    stop_entity_ok name none s e found i h = ((s, e), refl, i, h)
    stop_entity_ok name (some queue) s e found i h =
        let (s', sent, kept) = send_pill_ok s name queue i found in
        let (world, ended) = wait_for_ok P calm s'.world e.w in
        (
          (record s' { world = world }, record e { state = stopped }),
          rw sent (rw ended refl),
          kept,
          record { process_there = h.process_there; can_start = h.can_start },
        )

    pub stop_worker_ok :
        (name : Bytes) (s : System P Q) (e : WorkerEntity P Q)
        → Good s.ipc
        → IsReady e
        → Succeeds Good IsReady (stop_worker P Q name s e)
    unfolding stop_worker
    stop_worker_ok name s e i h =
        let c = h.process_there.0.proc_name in
        elim (Bool-cases (eq_bytes c name || is_empty name)) [
          | inl chosen ↦
              let (r, did, kept, up) = stop_entity_ok c (lookup c binary_to_queue) s e refl i h in
              (r, rw (name_ok e h) (rw chosen did), kept, up)
          | inr other ↦ ((s, e), rw (name_ok e h) (rw other refl), i, h)
        ]
