-- ===== src/Global/Launch.antt =====
-- What the `main` of every service does around its own work: the command line, the lock on its PID
-- file, and the service's loop. The queues of boost are a parameter.
pub mod Laws
use file_inspect_key_analyse.Base.{
  Bool, negsuc, Bool, true, false, ℕ, ℤ, pos, Bytes, codes, List, [], Option, none, some,
  if◌then◌else◌, Result, ok, ◌>>=◌, catch,
}
use file_inspect_key_analyse.Global.FileJob.{IpcMessage}
use file_inspect_key_analyse.Global.Service.{Sent, ServiceClass, start, stop}
use file_inspect_key_analyse.Global.CliParser.{
  OptionSpec, VariablesMap, CliParser, cli_parser, initialize, parse, get_option,
}
use file_inspect_key_analyse.Util.PidFile.{LockApi, create_and_lock}

-- What becomes of `main`: it has returned, its service waits for a message, or it waits in
-- `pool_.join()` for threads that wait to send.
pub data Ending : Type 0 where
  returned : ℤ → Ending
  receiving : Ending
  joining : Ending

-- `return -1`
abbrev pub minus_one : ℤ
minus_one = negsuc 0

-- What boost makes of the command line, given the options.
abbrev pub CommandLine : Type 0
CommandLine = List OptionSpec → Result VariablesMap

-- The queues of boost. `opened` is `message_queue(open_only, name)`, an exception if there is no such
-- queue; `has_room` says whether all of these sends find room sooner or later.
pub record OpenOnly (L : LockApi) : Type 0 where
  pub opened : L.World → Bytes → Result (Unit {0})
  pub has_room : Sent → Bool

-- Where `service->start()` and `return 0` behind it have come to, by whether the loop goes on and
-- whether the sends of the pool's threads find room.
unfoldable pub ending_of : Bool → Bool → Ending
ending_of true room = receiving
ending_of false true = returned (pos 0)
ending_of false false = joining

module _ (L : LockApi) where
  pub record Launched : Type 0 where
    pub world : L.World
    pub sent : Sent
    pub ending : Ending

  abbrev pub exit_with : ℤ → L.World → Launched
  exit_with code s = record { world = s; sent = []; ending = returned code }

  -- What follows once `parse` has given what it gives.
  unfoldable pub locked_body :
      (L.World → Result Launched) → Option VariablesMap → CliParser Unit → L.World → Result Launched
  locked_body body none cli s = ok (exit_with minus_one s)
  locked_body body (some vm) cli s = do
    pid_path ← get_option Unit cli (codes "pidfile")
    r ← create_and_lock L s pid_path
    let run = body r.0
    if r.1 then run else ok (exit_with minus_one r.0)

  -- The common part of `main`, with these options: the rest is run under the lock.
  unfoldable pub with_pidfile :
      Bytes → ℕ → CommandLine → (L.World → Result Launched) → L.World → Result Launched
  unfolding locked_body
  with_pidfile argv0 flags store body s = do
    vm ← parse Unit store (initialize Unit argv0 flags (cli_parser Unit)) tt
    locked_body body vm.0 vm.1 s

  -- The `try` of `main`.
  abbrev pub or_one : (L.World → Result Launched) → L.World → Result Launched
  or_one body s = catch (body s) (λ what. ok (exit_with (pos 1) s))

  -- `service->start()` on the messages that arrive, and `return 0` once the loop has ended and the pool
  -- is joined; the `service->stop()` between them finds it stopped.
  unfoldable pub serve :
      OpenOnly L → (C : ServiceClass) → C.State → List IpcMessage → L.World → Result Launched
  unfolding ending_of
  serve queues C state arrivals s = do
    r ← start C state arrivals
    ok (record { world = s; sent = r.1; ending = ending_of r.2.running (queues.has_room r.1) })
