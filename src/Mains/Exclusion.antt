-- ===== src/Mains/Exclusion.antt =====
-- A second process on the same PID file does nothing.
use file_inspect_key_analyse.Base.{ℕ, Bytes, Bool, List, Option, ◌≡◌, Result, ok}
use file_inspect_key_analyse.Global.Commands.{CommandMessage}
use file_inspect_key_analyse.Global.FileJob.{IpcMessage}
use file_inspect_key_analyse.Global.CliParser.{pidfile_option, help_option, join}
use file_inspect_key_analyse.Global.ConfigLoader.{JsonApi}
use file_inspect_key_analyse.Global.Launch.{CommandLine, OpenOnly, Launched, exit_with, minus_one}
use file_inspect_key_analyse.Global.Launch.Laws.{Names, with_pidfile-Held}
use file_inspect_key_analyse.Util.PidFile.{LockApi}
use file_inspect_key_analyse.Util.PidFile.Exclusion.{Excludes}
use file_inspect_key_analyse.Util.Pickup.{FileSystem}
use file_inspect_key_analyse.Detect.Magic.{MagicApi}
use file_inspect_key_analyse.Detect.Main.{detect_main}
use file_inspect_key_analyse.Parse.Main.{parse_main}
use file_inspect_key_analyse.Qm.Main.{qm_main}
use file_inspect_key_analyse.Ingestd.{MqSend}
use file_inspect_key_analyse.Ingestd.Main.{ingestd_main, Request}
use file_inspect_key_analyse.Supervisor.Worker.{ProcessApi}
use file_inspect_key_analyse.Supervisor.QueueManager.{IpcQueueManager}
use file_inspect_key_analyse.Supervisor.{System}
use file_inspect_key_analyse.Supervisor.Main.{supervisor_main}

module _ (L : LockApi) (Held : L.World → Bytes → Type 0) (ex : Excludes L Held)
    (argv0 pid_path : Bytes) (store : CommandLine) (s : L.World) (held : Held s pid_path) where
  -- What a process gives that returns -1 at once.
  abbrev pub refused : Result (Launched L)
  refused = ok (exit_with L minus_one s)

  -- While some process holds the lock on the PID file that its command line names, each of the
  -- services returns -1: it has opened no queue, sent nothing and left the files as they were.
  pub services-Held :
      (open_only : OpenOnly L) (M : MagicApi) (Parser : Type 0) (F : FileSystem)
      (create_directories : F.Disk → Bytes → Result (F.Disk × Bool)) (mq_send : MqSend)
      (write_file : F.Disk → Bytes → Bytes → F.Disk) (root incoming : Bytes) (d : F.Disk)
      (arrivals : List IpcMessage) (requests : List Request)
      → Names store argv0 pidfile_option pid_path
      → (detect_main L open_only M argv0 store arrivals s ≡ refused)
        × (parse_main L open_only Parser argv0 store arrivals s ≡ refused)
        × (qm_main F create_directories L open_only argv0 root d store arrivals s ≡ refused)
        × (ingestd_main F mq_send write_file incoming L open_only argv0 root d store requests s
            ≡ refused)
  unfolding detect_main parse_main qm_main ingestd_main
  services-Held open_only M Parser F create_directories mq_send write_file root incoming d arrivals
        requests n =
      let stays = λ (body : L.World → Result (Launched L)).
        with_pidfile-Held L Held ex argv0 pidfile_option pid_path store body s n held in
      (stays _, stays _, stays _, stays _)

  -- So does a second supervisor, and it has neither removed nor made a queue.
  pub supervisor_main-Held :
      (P : ProcessApi) (Q : IpcQueueManager) (J : JsonApi) (conf : Bytes)
      (read : Bytes → Option (Result J.Json)) (size : ℕ) (received : List (Option CommandMessage))
      (system : System P Q)
      → Names store argv0 (join pidfile_option help_option) pid_path
      → supervisor_main P Q J L argv0 conf read size store received system s ≡ refused
  unfolding supervisor_main
  supervisor_main-Held P Q J conf read size received system n =
      with_pidfile-Held L Held ex argv0 (join pidfile_option help_option) pid_path store _ s n held
