-- ===== src/Detect/Main.antt =====
-- src/detect/src/main.cpp: the process of the detect service.
use file_inspect_key_analyse.Base.{ℤ, pos, Bytes, List, [], ◌∷◌, Result, ◌>>=◌}
use file_inspect_key_analyse.Queues.{detect_queue, qm_queue}
use file_inspect_key_analyse.Util.PidFile.{LockApi}
use file_inspect_key_analyse.Global.FileJob.{IpcMessage}
use file_inspect_key_analyse.Global.CliParser.{pidfile_option}
use file_inspect_key_analyse.Global.Launch.{
  CommandLine, OpenOnly, Launched, with_pidfile, or_one, serve,
}
use file_inspect_key_analyse.Detect.Magic.{MagicApi, magic_handle, magic_detector}
use file_inspect_key_analyse.Detect.Handler.{detect_service}

-- `MAGIC_MIME_TYPE`
abbrev pub magic_mime_type : ℤ
magic_mime_type = pos 16

module _ (L : LockApi) (open_only : OpenOnly L) (M : MagicApi) where
  -- The `try` block: one detector, the receiver, its sender, and the loop.
  unfoldable pub detect_body : List IpcMessage → L.World → Result (Launched L)
  detect_body arrivals s = do
    handle ← magic_handle M magic_mime_type
    receiver ← open_only.opened s detect_queue
    sender ← open_only.opened s qm_queue
    serve L open_only detect_service (magic_detector M handle ∷ []) arrivals s

  -- `main`
  unfoldable pub detect_main : Bytes → CommandLine → List IpcMessage → L.World → Result (Launched L)
  detect_main argv0 store arrivals s =
      with_pidfile L argv0 pidfile_option store (or_one L (detect_body arrivals)) s
