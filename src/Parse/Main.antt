-- ===== src/Parse/Main.antt =====
-- src/parse/src/main.cpp: the process of the parse service.
use file_inspect_key_analyse.Base.{Bytes, List, [], Result, ◌>>=◌}
use file_inspect_key_analyse.Queues.{parse_queue, qm_queue}
use file_inspect_key_analyse.Util.PidFile.{LockApi}
use file_inspect_key_analyse.Global.FileJob.{IpcMessage}
use file_inspect_key_analyse.Global.CliParser.{pidfile_option}
use file_inspect_key_analyse.Global.Launch.{
  CommandLine, OpenOnly, Launched, with_pidfile, or_one, serve,
}
use file_inspect_key_analyse.Parse.Handler.{parse_service}

module _ (L : LockApi) (open_only : OpenOnly L) (Parser : Type 0) where
  -- The `try` block: a registry with nothing in it, the receiver, its sender, and the loop.
  unfoldable pub parse_body : List IpcMessage → L.World → Result (Launched L)
  parse_body arrivals s = do
    receiver ← open_only.opened s parse_queue
    sender ← open_only.opened s qm_queue
    serve L open_only (parse_service Parser) [] arrivals s

  -- `main`
  unfoldable pub parse_main : Bytes → CommandLine → List IpcMessage → L.World → Result (Launched L)
  parse_main argv0 store arrivals s =
      with_pidfile L argv0 pidfile_option store (or_one L (parse_body arrivals)) s
