-- ===== src/Global/Launch/Laws.antt =====
-- When a service's `main` runs its work, and when it ends.
use file_inspect_key_analyse.Base.{
  Bool-cases, ℕ, pos, Bytes, codes, Bool, true, false, List, [], ◌∷◌, ◌++◌, All, some,
  if◌then◌else◌, ◌≡◌, refl, ap, ◌∙◌, ◌⊎◌, inl, inr, ◌≢◌, Result, ok, thrown, undefined, ◌>>=◌,
}
use file_inspect_key_analyse.Global.FileJob.{IpcMessage, job_message, poison_pill}
use file_inspect_key_analyse.Global.Service.{
  Sent, ServiceClass, receive_loop, task, run_tasks, start,
}
use file_inspect_key_analyse.Global.CliParser.{
  VariablesMap, CliParser, cli_parser, initialize, parse, parsed, get_option,
}
use file_inspect_key_analyse.Util.PidFile.{LockApi, create_and_lock}
use file_inspect_key_analyse.Util.PidFile.Exclusion.{Excludes, create_and_lock-Held}
use file_inspect_key_analyse.Global.Launch.{
  returned, receiving, minus_one, CommandLine, Launched, exit_with, locked_body, with_pidfile,
  serve, joining, ending_of, OpenOnly,
}

-- A command line that names this PID file and asks for nothing else.
pub record Names (store : CommandLine) (argv0 : Bytes) (flags : ℕ) (pid_path : Bytes) : Type 0 where
  pub vm : VariablesMap
  pub read : store (initialize Unit argv0 flags (cli_parser Unit)).desc ≡ ok vm
  pub plain : (vm.count (codes "help") ≡ 0) × (vm.count (codes "version") ≡ 0)
  pub given : vm.count (codes "pidfile") ≡ 1
  pub named : vm.as_text (codes "pidfile") ≡ pid_path

parse-plain :
    (store : CommandLine) (cli : CliParser Unit) (vm : VariablesMap)
    → store cli.desc ≡ ok vm
    → vm.count (codes "help") ≡ 0
    → vm.count (codes "version") ≡ 0
    → parse Unit store cli tt ≡ ok (some vm, record cli { vm = vm }, tt)
unfolding parse parsed
parse-plain store cli vm read no_help no_version = rw (parse, read) (rw (no_help, no_version) refl)

module _ (L : LockApi) where
  -- With such a command line all hangs on the lock.
  pub with_pidfile-Names :
      (argv0 : Bytes) (flags : ℕ) (pid_path : Bytes) (store : CommandLine)
      (body : L.World → Result (Launched L)) (s : L.World)
      → Names store argv0 flags pid_path
      → with_pidfile L argv0 flags store body s ≡ (
          create_and_lock L s pid_path >>= λ r.
          if r.1 then body r.0 else ok (exit_with L minus_one r.0))
  unfolding with_pidfile locked_body get_option
  with_pidfile-Names argv0 flags pid_path store body s n =
      let cli = initialize Unit argv0 flags (cli_parser Unit) in
      rw (parse-plain store cli n.vm n.read n.plain.0 n.plain.1) (rw (n.given, n.named) refl)

  -- While another process holds the lock, nothing is done.
  pub with_pidfile-Held :
      (Held : L.World → Bytes → Type 0)
      → Excludes L Held
      → (argv0 : Bytes) (flags : ℕ) (pid_path : Bytes) (store : CommandLine)
        (body : L.World → Result (Launched L)) (s : L.World)
      → Names store argv0 flags pid_path
      → Held s pid_path
      → with_pidfile L argv0 flags store body s ≡ ok (exit_with L minus_one s)
  with_pidfile-Held Held ex argv0 flags pid_path store body s n held =
      with_pidfile-Names argv0 flags pid_path store body s n
      ∙ rw (create_and_lock-Held L Held ex s pid_path held).0 refl

-- A poison pill is among the messages.
abbrev pub HasPill : List IpcMessage → Type 0
HasPill [] = ⊥
HasPill (poison_pill ∷ ms) = Unit
HasPill (job_message j ∷ ms) = HasPill ms

-- The loop has ended if a pill is there, and not otherwise.
receive_loop-HasPill :
    (ms : List IpcMessage)
    → HasPill ms × ((receive_loop ms).running ≡ false)
      ⊎ (¬ HasPill ms) × ((receive_loop ms).running ≡ true)
unfolding receive_loop
receive_loop-HasPill [] = inr (λ h. h, refl)
receive_loop-HasPill (poison_pill ∷ ms) = inl (tt, refl)
receive_loop-HasPill (job_message j ∷ ms) = receive_loop-HasPill ms

-- How the loop of a service ends on messages: with a pill among them `main` returns 0 if all that has
-- been sent finds room, and waits for its threads if not; with none it waits for more messages.
abbrev pub EndsBy : {L : LockApi} → OpenOnly L → List IpcMessage → Launched L → Type 0
EndsBy queues arrivals l =
    HasPill arrivals
      × ((queues.has_room l.sent ≡ true) × (l.ending ≡ returned (pos 0))
          ⊎ (queues.has_room l.sent ≡ false) × (l.ending ≡ joining))
    ⊎ (¬ HasPill arrivals) × (l.ending ≡ receiving)

module _ (C : ServiceClass) (Fine : IpcMessage → Type 0) (Inv : C.State → Type 0)
    (fine : (state : C.State) (m : IpcMessage)
      → Inv state
      → Fine m
      → (C.handle state m ≢ undefined)
        × ((r : C.State × Sent) → C.handle state m ≡ ok r → Inv r.0)) where
  run_tasks_ok :
      (ms : List IpcMessage) (state : C.State)
      → Inv state
      → All Fine ms
      → (r : C.State × Sent) × (run_tasks C state ms ≡ ok r)
  unfolding run_tasks task
  run_tasks_ok [] state i h = ((state, []), refl)
  run_tasks_ok (m ∷ ms) state i h =
      go (λ next j. run_tasks_ok ms next j h.1) (C.handle state m) refl
    where
      go :
          ((next : C.State) → Inv next → (r : C.State × Sent) × (run_tasks C next ms ≡ ok r))
          → (t : Result (C.State × Sent)) → C.handle state m ≡ t
          → (r : C.State × Sent) × (run_tasks C state (m ∷ ms) ≡ ok r)
      go rest undefined e = absurd ((fine state m i h.0).0 e)
      go rest (thrown what) e =
          let (later, ran) = rest state i in
          ((later.0, [] ++ later.1), rw (e, run_tasks) (rw ran refl))
      go rest (ok first) e =
          let (later, ran) = rest first.0 ((fine state m i h.0).1 first e) in
          ((later.0, first.1 ++ later.1), rw (e, run_tasks) (rw ran refl))

  receive_loop-All :
      (arrivals : List IpcMessage) → All Fine arrivals → All Fine (receive_loop arrivals).posted
  unfolding receive_loop
  receive_loop-All [] h = tt
  receive_loop-All (poison_pill ∷ ms) h = tt
  receive_loop-All (job_message j ∷ ms) h = (h.0, receive_loop-All ms h.1)

  -- The loop of a service whose handler meets no undefined behaviour on the messages that arrive: if
  -- one of them is a poison pill, `main` returns 0, or waits for ever where a send finds no room; if
  -- none is, it waits for more.
  pub serve-Ending :
      (L : LockApi) (queues : OpenOnly L) (arrivals : List IpcMessage) (state : C.State)
      (s : L.World)
      → Inv state
      → All Fine arrivals
      → (l : Launched L) × (serve L queues C state arrivals s ≡ ok l) × EndsBy queues arrivals l
  unfolding serve start ending_of
  serve-Ending L queues arrivals state s i h =
      let (r, ran) =
        run_tasks_ok (receive_loop arrivals).posted state i (receive_loop-All arrivals h) in
      let ended = λ (b : Bool). ending_of b (queues.has_room r.1) in
      (
        record { world = s; sent = r.1; ending = ended (receive_loop arrivals).running },
        rw ran refl,
        elim (receive_loop-HasPill arrivals) [
          | inl (pill, over) ↦ elim (Bool-cases (queues.has_room r.1)) [
            | inl room ↦ inl (pill, inl (room, ap ended over ∙ ap (ending_of false) room))
            | inr full ↦ inl (pill, inr (full, ap ended over ∙ ap (ending_of false) full))
          ]
          | inr (none_there, waits) ↦ inr (none_there, ap ended waits)
        ],
      )
