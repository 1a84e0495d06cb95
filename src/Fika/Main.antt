-- ===== src/Fika/Main.antt =====
-- src/fika/src/main.cpp: what the program does with its command line. Queues and processes are a
-- parameter.
use file_inspect_key_analyse.Base.{
  ℕ, Bytes, codes, Bool, true, false, List, [], ◌++◌, Option, none, some, if◌then◌else◌, Result, ok,
  thrown, undefined, ◌>>=◌, catch,
}
use file_inspect_key_analyse.Global.Commands.{
  CommandType, CommandMessage, CommandResponse, command_message,
}
use file_inspect_key_analyse.Global.CliParser.{
  VariablesMap, OptionSpec, cli_parser, initialize, join, help_option, version_option, parse,
  set_options_description,
}
use file_inspect_key_analyse.Global.CliParser.{parsed}
use file_inspect_key_analyse.Base.{List}
use file_inspect_key_analyse.Util.PidFile.{LockApi, is_locked}
use file_inspect_key_analyse.Fika.Cli.{ParsedCommand, parse_command_line, command_description}

-- What the code uses of `message_queue` and `boost::process`, beside the lock on the pid file.
pub record ClientApi : Type 1 where
  pub locks : LockApi
  pub Queue : Type 0
  pub open_only : locks.World → Bytes → Result Queue
  pub open_or_create : locks.World → Bytes → ℕ → Result (locks.World × Queue)
  pub send : locks.World → Queue → CommandMessage → Result locks.World
  pub timed_receive : locks.World → Queue → Result (locks.World × Option CommandResponse)
  pub remove : locks.World → Bytes → locks.World
  pub spawn_detached : locks.World → Bytes → Bytes → Result locks.World

abbrev pub pid_path : Bytes
pid_path = codes "/tmp/fika_supervisor.pid"

abbrev pub supervisor_inbox : Bytes
supervisor_inbox = codes "fika_supervisor_mq"

abbrev pub supervisor_outbox : Bytes
supervisor_outbox = codes "supervisor_fika_mq"

-- What `main` returns.
pub data Exit : Type 0 where
  no_command_line failure success : Exit

module _ (C : ClientApi) where
  open C use {open_only, open_or_create, send, timed_receive, spawn_detached}

  abbrev pub World : Type 0
  World = C.locks.World

  abbrev answered : Option CommandResponse → Bool
  answered none = false
  answered (some response) = true

  -- The exchange of `is_supervisor_running`. An exception after the ping has been sent finds the
  -- world with the ping in it.
  unfoldable pub ping_supervisor : World → Result (World × Bool)
  ping_supervisor s = do
    mq ← open_only s supervisor_inbox
    mq_recv ← open_only s supervisor_outbox
    msg ← command_message CommandType.ping []
    s' ← send s mq msg
    catch (timed_receive s' mq_recv >>= λ r. ok (r.0, answered r.1)) (λ what. ok (s', false))

  unfoldable pub is_supervisor_running : World → Result (World × Bool)
  unfolding ping_supervisor
  is_supervisor_running s = do
    locked ← is_locked C.locks s pid_path
    let asked = catch (ping_supervisor s) (λ what. ok (s, false))
    if locked then asked else ok (s, false)

  -- `binaries` is the configured directory.
  unfoldable pub start_supervisor : Bytes → World → Result World
  start_supervisor binaries s =
      spawn_detached (C.remove (C.remove s supervisor_inbox) supervisor_outbox)
        (binaries ++ codes "/supervisor") (codes "--pidfile=/tmp/fika_supervisor.pid")

  unfoldable pub send_command : CommandMessage → World → Result World
  send_command msg s = do r ← open_or_create s supervisor_inbox 100; send r.0 r.1 msg

  -- `main` on a command that was read.
  unfoldable pub main_command : Bytes → ParsedCommand → World → Result (World × Exit)
  main_command binaries parsed s = do
    r ← is_supervisor_running s
    let started = start_supervisor binaries r.0
    s' ← if r.1 then ok r.0 else started
    msg ← command_message parsed.type parsed.service
    s'' ← send_command msg s'
    ok (s'', success)

  -- `main`, on what the parser of the command line gave.
  unfoldable pub main : Bytes → Option VariablesMap → World → Result (World × Exit)
  main binaries none s = ok (s, no_command_line)
  main binaries (some vm) s = elim (parse_command_line vm) [
    | ok parsed ↦ main_command binaries parsed s
    | thrown what ↦ ok (s, failure)
    | undefined ↦ undefined
  ]

  -- The whole `main`, from the arguments on: the parser has the flags for help and version and the
  -- description of the commands.
  unfoldable pub fika_main :
      Bytes → Bytes → (List OptionSpec → Result VariablesMap) → World → Result (World × Exit)
  unfolding main
  fika_main argv0 binaries store s = do
    let cli = initialize World argv0 (join help_option version_option) (cli_parser World)
    vm ← parse World store (set_options_description World command_description cli) s
    main binaries vm.0 vm.2
