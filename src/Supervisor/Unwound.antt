-- ===== src/Supervisor/Unwound.antt =====
-- src/supervisor/src/supervisor.cpp and src/supervisor/src/main.cpp with what an exception leaves behind:
-- the supervisor as it was when it was thrown, whose workers are then destroyed.
pub mod Laws
use file_inspect_key_analyse.Base.{
  ℕ, ℤ, zero, suc, pos, ◌+◌, ◌-◌, ◌≤◌, ◌<◌, ◌*◌, Bytes, String, codes, eq_bytes, eq_bytes_iff,
  eq_bytes_refl, is_empty, starts_with, starts_with-append, Bool, true, false, not, ◌&&◌, ◌||◌,
  List, [], ◌∷◌, ◌++◌, map, All, All-append, All-removed, Memᴰ, Option, none, some, if◌then◌else◌,
  ◌≡◌, refl, sym, subst, lookup-All, ap, ◌∙◌, ◌⊎◌, inl, inr, ◌≢◌, ◌↔◌, arith, Bool-cases, Result,
  ok, thrown, undefined, >>=-ok_parts, catch-eq-ok, ◌>>=◌, catch, Dict, lookup, insert,
  lookup-insert, length, take, drop, replicate, ltb, ◌==◌, length-append, drop-add, drop-append,
  take-append,
}
use file_inspect_key_analyse.Global.Commands.{CommandType, CommandMessage, service}
use file_inspect_key_analyse.Supervisor.Worker.{ProcessApi, release}
use file_inspect_key_analyse.Supervisor.QueueManager.{IpcQueueManager}
use file_inspect_key_analyse.Supervisor.{
  System, Supervisor, WorkerEntity, Command, start_command, stop_command, restart_command,
  ping_command, registered_command, start_worker, stop_worker, monitor_worker, send_pong, pong,
}

-- The end of a method of an object: with the object as it is then, also where it has thrown.
pub data Outcome (S : Type 0) : Type 0 where
  finished : S → Outcome S
  threw : Bytes → S → Outcome S
  broken : Outcome S

abbrev pub and_then : {S : Type 0} → Outcome S → (S → Outcome S) → Outcome S
and_then (finished s) f = f s
and_then (threw what s) f = threw what s
and_then broken f = broken

-- A call that leaves the object as it was where it throws.
abbrev pub carried : {S : Type 0} → Result S → S → Outcome S
carried (ok s) old = finished s
carried (thrown what) old = threw what old
carried undefined old = broken

module _ (P : ProcessApi) (Q : IpcQueueManager) where
  -- A loop over `workers_`, behind those that it has gone through. A step that
  -- throws leaves its worker as it was; a pill that it has sent before is not kept.
  unfoldable pub loop :
      (System P Q → WorkerEntity P Q → Result (System P Q × WorkerEntity P Q))
      → List (WorkerEntity P Q)
      → List (WorkerEntity P Q)
      → Supervisor P Q
      → Outcome (Supervisor P Q)
  loop step through [] sup = finished (record sup { workers = through })
  loop step through (e ∷ es) sup = elim (step sup.system e) [
    | ok r ↦ loop step (through ++ r.1 ∷ []) es (record sup { system = r.0 })
    | thrown what ↦ threw what (record sup { workers = through ++ e ∷ es })
    | undefined ↦ broken
  ]

  unfoldable pub start_all : Bytes → Supervisor P Q → Outcome (Supervisor P Q)
  unfolding loop
  start_all name sup = loop (start_worker P Q name) [] sup.workers sup

  unfoldable pub stop_all : Bytes → Supervisor P Q → Outcome (Supervisor P Q)
  unfolding loop
  stop_all name sup = loop (stop_worker P Q name) [] sup.workers sup

  unfoldable pub watch : Supervisor P Q → Outcome (Supervisor P Q)
  unfolding loop
  watch sup = loop (monitor_worker P Q) [] sup.workers sup

  unfoldable pub carry_out : Command → Bytes → Supervisor P Q → Outcome (Supervisor P Q)
  unfolding start_all stop_all
  carry_out start_command name sup = start_all name sup
  carry_out stop_command name sup = stop_all name sup
  carry_out restart_command name sup =
      and_then (stop_all name sup) (λ halted. start_all name halted)
  carry_out ping_command name sup = carried (send_pong P Q pong sup) sup

  unfoldable pub obey_command : CommandType → Bytes → Supervisor P Q → Outcome (Supervisor P Q)
  unfolding carry_out
  obey_command cmd_type name sup = elim (registered_command cmd_type) [
    | none ↦ finished sup
    | some c ↦ carry_out c name sup
  ]

  -- The message's name is read before anything is done.
  unfoldable pub round : Option CommandMessage → Supervisor P Q → Outcome (Supervisor P Q)
  unfolding watch obey_command
  round none sup = watch sup
  round (some msg) sup = elim (service msg) [
    | ok name ↦ and_then (obey_command msg.cmd name sup) watch
    | thrown what ↦ threw what sup
    | undefined ↦ broken
  ]

  unfoldable pub rounds : List (Option CommandMessage) → Supervisor P Q → Outcome (Supervisor P Q)
  unfolding round
  rounds [] sup = finished sup
  rounds (received ∷ later) sup = and_then (round received sup) (λ sup'. rounds later sup')

  -- The destructor of `workers_`.
  unfoldable pub destroy_workers : P.World → List (WorkerEntity P Q) → P.World
  unfolding release
  destroy_workers s [] = s
  destroy_workers s (e ∷ es) = destroy_workers (release P s e.w.process) es
