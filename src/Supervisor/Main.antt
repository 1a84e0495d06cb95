-- ===== src/Supervisor/Main.antt =====
-- src/supervisor/include/worker_configs.h and src/supervisor/src/main.cpp: the configuration and the
-- process of the supervisor.
use file_inspect_key_analyse.Base.{
  ℕ, pos, Bytes, codes, List, [], ◌∷◌, map, Option, Result, ok, ◌>>=◌, catch,
}
use file_inspect_key_analyse.Global.Commands.{CommandMessage}
use file_inspect_key_analyse.Global.ConfigLoader.{JsonApi, load}
use file_inspect_key_analyse.Global.CliParser.{pidfile_option, help_option, join}
use file_inspect_key_analyse.Global.Launch.{
  CommandLine, Launched, with_pidfile, exit_with, receiving,
}
use file_inspect_key_analyse.Util.PidFile.{LockApi}
use file_inspect_key_analyse.Supervisor.Worker.{ProcessApi, ChildProcess}
use file_inspect_key_analyse.Supervisor.Worker
use file_inspect_key_analyse.Supervisor.QueueManager.{IpcQueueManager}
use file_inspect_key_analyse.Supervisor.{
  System, Supervisor, supervisor, reset_queues, create_queues, run,
}
use file_inspect_key_analyse.Supervisor.Pills.{main_queues}

pub record WorkerConfig : Type 0 where
  pub name : Bytes
  pub path : Bytes
  pub args : List Bytes

module _ (J : JsonApi) where
  open J use {Json, at, get_text, get_texts, elements}

  -- `worker_config::fromJson`
  unfoldable pub worker_from_json : Json → Result WorkerConfig
  worker_from_json j = do
    name_field ← at j (codes "name")
    name ← get_text name_field
    path_field ← at j (codes "path")
    path ← get_text path_field
    args_field ← at j (codes "args")
    args ← get_texts args_field
    ok (record { name = name; path = path; args = args })

  -- The loop of `worker_configs::fromJson`.
  unfoldable pub workers_from : List Json → Result (List WorkerConfig)
  unfolding worker_from_json
  workers_from [] = ok []
  workers_from (w ∷ later) = do
    first ← worker_from_json w
    rest ← workers_from later
    ok (first ∷ rest)

  -- `worker_configs::fromJson`
  unfoldable pub configs_from_json : Json → Result (List WorkerConfig)
  unfolding workers_from
  configs_from_json j = workers_from (elements j)

module _ (P : ProcessApi) (Q : IpcQueueManager) where
  -- The factory of a worker.
  unfoldable pub factory_of : WorkerConfig → Worker.Factory P
  factory_of cfg s = Worker.boost_child_process P s cfg.path cfg.args

  -- The supervisor before its loop.
  unfoldable pub prepare : ℕ → List WorkerConfig → System P Q → Result (Supervisor P Q)
  prepare ipc_message_size workers s =
      create_queues P Q (
        reset_queues P Q (supervisor P Q (map factory_of workers) (main_queues ipc_message_size) s))

  -- `main`. `conf` is the configured name of the file; the configuration is read outside the `try`.
  -- The loop ends only by an exception, after which 0 is returned.
  unfoldable pub supervisor_main :
      (J : JsonApi) (L : LockApi)
      → Bytes
      → Bytes
      → (Bytes → Option (Result J.Json))
      → ℕ
      → CommandLine
      → List (Option CommandMessage)
      → System P Q
      → L.World
      → Result (Launched L)
  unfolding prepare
  supervisor_main J L argv0 conf read ipc_message_size store received system s =
      with_pidfile L argv0 (join pidfile_option help_option) store
        (λ s'. load J (configs_from_json J) read conf [] >>= λ configs.
          catch
            (prepare ipc_message_size configs system >>= λ sup. run P Q received sup >>= λ sup'.
              ok (record { world = s'; sent = []; ending = receiving }))
            (λ what. ok (exit_with L (pos 0) s')))
        s
