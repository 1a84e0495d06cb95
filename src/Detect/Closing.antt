-- ===== src/Detect/Closing.antt =====
-- src/detect/src/main.cpp and the handle of libmagic: what the process has opened and closed.
use file_inspect_key_analyse.Base.{List, [], ◌∷◌, Result, ◌>>=◌}
use file_inspect_key_analyse.Util.PidFile.{LockApi}
use file_inspect_key_analyse.Global.FileJob.{IpcMessage}
use file_inspect_key_analyse.Global.Launch.{OpenOnly, Launched, serve}
use file_inspect_key_analyse.Queues.{detect_queue, qm_queue}
use file_inspect_key_analyse.Detect.Magic.{MagicApi, magic_detector}
use file_inspect_key_analyse.Detect.Magic.Handles.{Call, owning}
use file_inspect_key_analyse.Detect.Handler.{detect_service}
use file_inspect_key_analyse.Detect.Main.{magic_mime_type}

module _ (L : LockApi) (open_only : OpenOnly L) (M : MagicApi) where
  -- The `try` block once more, with the calls on handles that it makes.
  unfoldable pub detect_block : List IpcMessage → L.World → Result (Launched L) × List (Call M)
  unfolding owning
  detect_block arrivals s = owning M magic_mime_type (λ handle. do
    receiver ← open_only.opened s detect_queue
    sender ← open_only.opened s qm_queue
    serve L open_only detect_service (magic_detector M handle ∷ []) arrivals s)
