-- ===== src/Supervisor/Wanted/Steps.antt =====
-- A worker that is as it is wanted, and what the supervisor's steps make of it.
use file_inspect_key_analyse.Base.{
  subst-ok, Bytes, codes, eq_bytes, is_empty, Bool, true, false, not, ◌&&◌, ◌||◌, List, [], ◌∷◌,
  map, Option, none, some, if◌then◌else◌, ◌≡◌, refl, ap, ◌∙◌, inl, inr, Bool-cases, Result, ok,
  >>=-ok_parts, lookup,
}
use file_inspect_key_analyse.Supervisor.Worker.{ProcessApi, ChildProcess}
use file_inspect_key_analyse.Supervisor.Worker
use file_inspect_key_analyse.Supervisor.QueueManager.{IpcQueueManager}
use file_inspect_key_analyse.Supervisor.{
  running, stopped, is_running, binary_to_queue, System, Supervisor, WorkerEntity, for_workers,
  on_workers, is_started_by, start_entity, start_worker, monitor_worker, stop_worker,
}
use file_inspect_key_analyse.Queues.{detect_queue, parse_queue, qm_queue}
use file_inspect_key_analyse.Supervisor.Stopping.{
  halted, stop_named, after_stop-process, stop_worker-state,
}
use file_inspect_key_analyse.Supervisor.Wanted.{Wanted, is_stoppable, want_up, want_down}

module _ (P : ProcessApi) (Q : IpcQueueManager) where
  -- A worker that has a process of the wanted name, and always gets one of that name, in the wanted
  -- state.
  pub record Shows (e : WorkerEntity P Q) (w : Wanted) : Type 0 where
    pub named : (c : ChildProcess P) × (e.w.process ≡ some c) × (c.proc_name ≡ w.name)
    pub made :
        (s : P.World) (r : P.World × ChildProcess P) → e.w.factory s ≡ ok r → r.1.proc_name ≡ w.name
    pub state : e.state ≡ w.state

  abbrev pub AllShow : List (WorkerEntity P Q) → List Wanted → Type 0
  AllShow [] [] = Unit
  AllShow [] (w ∷ ws) = ⊥
  AllShow (e ∷ es) [] = ⊥
  AllShow (e ∷ es) (w ∷ ws) = Shows e w × AllShow es ws

  module _ (step : System P Q → WorkerEntity P Q → Result (System P Q × WorkerEntity P Q))
      (change : Wanted → Wanted)
      (shown : (s : System P Q) (e : WorkerEntity P Q) (w : Wanted)
          (r : System P Q × WorkerEntity P Q)
        → step s e ≡ ok r
        → Shows e w
        → Shows r.1 (change w)) where
    for_workers-AllShow :
        (s : System P Q) (es : List (WorkerEntity P Q)) (ws : List Wanted)
        (r : System P Q × List (WorkerEntity P Q))
        → for_workers P Q step s es ≡ ok r
        → AllShow es ws
        → AllShow r.1 (map change ws)
    unfolding for_workers
    for_workers-AllShow s [] [] r h a =
        let same : ok (s, []) ≡ ok r = h in
        subst-ok (λ (t : System P Q × List (WorkerEntity P Q)). AllShow t.1 []) same a
    for_workers-AllShow s [] (w ∷ ws) r h a = absurd a
    for_workers-AllShow s (e ∷ es) [] r h a = absurd a
    for_workers-AllShow s (e ∷ es) (w ∷ ws) r h (here, there) =
        let (first, did, later) = >>=-ok_parts (step s e) _ h in
        let (rest, went, answered) = >>=-ok_parts (for_workers P Q step first.0 es) _ later in
        subst-ok (λ (t : System P Q × List (WorkerEntity P Q)). AllShow t.1 (map change (w ∷ ws)))
          answered (shown s e w first did here, for_workers-AllShow first.0 es ws rest went there)

    pub on_workers-AllShow :
        (sup sup' : Supervisor P Q) (ws : List Wanted)
        → on_workers P Q step sup ≡ ok sup'
        → AllShow sup.workers ws
        → AllShow sup'.workers (map change ws)
    unfolding on_workers
    on_workers-AllShow sup sup' ws h a =
        let (r, went, answered) = >>=-ok_parts (for_workers P Q step sup.system sup.workers) _ h in
        subst-ok (λ (t : Supervisor P Q). AllShow t.workers (map change ws)) answered
          (for_workers-AllShow sup.system sup.workers ws r went a)

  start_entity-Shows :
      (s : System P Q) (e : WorkerEntity P Q) (w : Wanted) (r : System P Q × WorkerEntity P Q)
      → start_entity P Q s e ≡ ok r
      → Shows e w
      → Shows r.1 (record w { state = running })
  unfolding start_entity Worker.start
  start_entity-Shows s e w r h shows =
      let (started, did, answered) = >>=-ok_parts (Worker.start P s.world e.w) _ h in
      let (spawned, made, kept) = >>=-ok_parts (e.w.factory s.world) _ did in
      subst-ok (λ (t : System P Q × WorkerEntity P Q). Shows t.1 (record w { state = running }))
        answered
        (subst-ok
          (λ (t : P.World × Worker.Worker P).
            Shows (record e { w = t.1; state = running }) (record w { state = running }))
          kept
          (record {
            named = (spawned.1, refl, shows.made s.world spawned made);
            made = shows.made;
            state = refl;
          }))

  -- A worker that is chosen, and one that is not.
  chosen-Shows :
      (b : Bool) (s : System P Q) (e : WorkerEntity P Q) (w : Wanted)
      (r : System P Q × WorkerEntity P Q)
      → (if b then start_entity P Q s e else ok (s, e)) ≡ ok r
      → Shows e w
      → Shows r.1 (if b then record w { state = running } else w)
  chosen-Shows true s e w r h shows = start_entity-Shows s e w r h shows
  chosen-Shows false s e w r h shows =
      subst-ok (λ (t : System P Q × WorkerEntity P Q). Shows t.1 w) h shows

  name-Shows : (e : WorkerEntity P Q) (w : Wanted) → Shows e w → Worker.name P e.w ≡ ok w.name
  unfolding Worker.name
  name-Shows e w shows = rw shows.named.1 (ap ok shows.named.2)

  pub start_worker-Shows :
      (name : Bytes) (s : System P Q) (e : WorkerEntity P Q) (w : Wanted)
      (r : System P Q × WorkerEntity P Q)
      → start_worker P Q name s e ≡ ok r
      → Shows e w
      → Shows r.1 (want_up name w)
  unfolding start_worker is_started_by want_up
  start_worker-Shows [] s e w r h shows = chosen-Shows true s e w r h shows
  start_worker-Shows (x ∷ name) s e w r h shows =
      chosen-Shows (eq_bytes w.name (x ∷ name)) s e w r (rw (name-Shows e w shows) at h) shows

  pub monitor_worker-Shows :
      (s : System P Q) (e : WorkerEntity P Q) (w : Wanted) (r : System P Q × WorkerEntity P Q)
      → monitor_worker P Q s e ≡ ok r
      → Shows e w
      → Shows r.1 w
  unfolding monitor_worker Worker.restart Worker.start
  monitor_worker-Shows s e w r h shows =
      let (alive, asked, watching) = >>=-ok_parts (Worker.is_alive P s.world e.w) _ h in
      elim (Bool-cases (not alive && is_running e.state)) [
        | inr idle ↦
            let same : ok (s, e) ≡ ok r = rw idle at watching in
            subst-ok (λ (t : System P Q × WorkerEntity P Q). Shows t.1 w) same shows
        | inl due ↦
            let restarted = rw due at watching in
            let (again, did, answered) = >>=-ok_parts (Worker.restart P s.world e.w) _ restarted in
            let (still, asked_again, halting) =
              >>=-ok_parts (Worker.is_alive P s.world e.w) _ did in
            let (world, halted_there, starting) =
              >>=-ok_parts (if still then Worker.stop P s.world e.w else ok s.world) _ halting in
            let (spawned, made, kept) = >>=-ok_parts (e.w.factory world) _ starting in
            subst-ok (λ (t : System P Q × WorkerEntity P Q). Shows t.1 w) answered
              (subst-ok (λ (t : P.World × Worker.Worker P). Shows (record e { w = t.1 }) w) kept
                (record {
                  named = (spawned.1, refl, shows.made world spawned made);
                  made = shows.made;
                  state = shows.state;
                }))
      ]

  -- A service can be told to stop exactly if its name has a queue.
  abbrev Agrees : Bool → Option Bytes → Type 0
  Agrees true (some queue) = Unit
  Agrees true none = ⊥
  Agrees false (some queue) = ⊥
  Agrees false none = Unit

  lookup-Agrees : (w : Wanted) → Agrees (is_stoppable w) (lookup w.name binary_to_queue)
  unfolding is_stoppable binary_to_queue lookup
  lookup-Agrees w =
      go (eq_bytes (codes "detect") w.name) (eq_bytes (codes "parse") w.name)
        (eq_bytes (codes "qm") w.name)
    where
      go :
          (d p q : Bool)
          → Agrees (d || p || q) (
              if d
              then some detect_queue
              else if p
              then some parse_queue
              else if q
              then some qm_queue
              else none)
      go true p q = tt
      go false true q = tt
      go false false true = tt
      go false false false = tt

  down-Shows :
      (named empty stoppable : Bool) (queue : Option Bytes) (e : WorkerEntity P Q) (w : Wanted)
      → Agrees stoppable queue
      → Shows e w
      → Shows
          (if named || empty then halted P Q queue e else e)
          (if (empty || named) && stoppable then record w { state = stopped } else w)
  down-Shows false false k queue e w agrees shows = shows
  down-Shows false true true (some queue) e w agrees shows = record {
    named = shows.named;
    made = shows.made;
    state = refl;
  }
  down-Shows false true false none e w agrees shows = shows
  down-Shows true false true (some queue) e w agrees shows = record {
    named = shows.named;
    made = shows.made;
    state = refl;
  }
  down-Shows true false false none e w agrees shows = shows
  down-Shows true true true (some queue) e w agrees shows = record {
    named = shows.named;
    made = shows.made;
    state = refl;
  }
  down-Shows true true false none e w agrees shows = shows
  down-Shows false true false (some queue) e w agrees shows = elim agrees [ ]
  down-Shows false true true none e w agrees shows = elim agrees [ ]
  down-Shows true false false (some queue) e w agrees shows = elim agrees [ ]
  down-Shows true false true none e w agrees shows = elim agrees [ ]
  down-Shows true true false (some queue) e w agrees shows = elim agrees [ ]
  down-Shows true true true none e w agrees shows = elim agrees [ ]

  pub stop_worker-Shows :
      (name : Bytes) (s : System P Q) (e : WorkerEntity P Q) (w : Wanted)
      (r : System P Q × WorkerEntity P Q)
      → stop_worker P Q name s e ≡ ok r
      → Shows e w
      → Shows r.1 (want_down name w)
  unfolding want_down
  stop_worker-Shows name s e w r h shows =
      let (c, there, called) = shows.named in
      let after : r.1 ≡ stop_named P Q name e (some c) =
        stop_worker-state P Q name s e r h ∙ after_stop-process P Q name e c there in
      let down =
        down-Shows (eq_bytes w.name name) (is_empty name) (is_stoppable w)
          (lookup w.name binary_to_queue) e w (lookup-Agrees w) shows in
      rw (after, called) down
