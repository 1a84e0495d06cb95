-- ===== src/Qm/Main.antt =====
-- src/qm/src/main.cpp: the process of the queue manager, which makes the folders of the spool first.
use file_inspect_key_analyse.Base.{Bytes, codes, Bool, List, [], ◌∷◌, Result, ok, ◌>>=◌}
use file_inspect_key_analyse.Queues.{detect_queue, parse_queue, qm_queue}
use file_inspect_key_analyse.Util.PidFile.{LockApi}
use file_inspect_key_analyse.Global.FileJob.{IpcMessage}
use file_inspect_key_analyse.Global.CliParser.{pidfile_option}
use file_inspect_key_analyse.Global.Launch.{
  CommandLine, OpenOnly, Launched, with_pidfile, or_one, serve,
}
use file_inspect_key_analyse.Global.FilePath.{join_path}
use file_inspect_key_analyse.Util.Pickup.{FileSystem}
use file_inspect_key_analyse.Qm.Handler.{qm_service}

-- The folders of the spool.
abbrev pub subdirs : List Bytes
subdirs = codes "incomming" ∷ codes "new" ∷ codes "processing" ∷ codes "done" ∷ codes "failed" ∷ []

module _ (F : FileSystem)
    -- `create_directories`: whether a folder was made, or an exception.
    (create_directories : F.Disk → Bytes → Result (F.Disk × Bool)) where
  -- The loop of `setup`.
  unfoldable pub make_dirs : Bytes → List Bytes → F.Disk → Result F.Disk
  make_dirs root [] d = ok d
  make_dirs root (subdir ∷ later) d = do
    made ← create_directories d (join_path root subdir)
    make_dirs root later made.0

  -- `setup`, with the configured folder of the spool.
  unfoldable pub setup : Bytes → F.Disk → Result F.Disk
  unfolding make_dirs
  setup root d = make_dirs root subdirs d

  module _ (L : LockApi) (open_only : OpenOnly L) where
    -- The `try` block: the folders, the receiver, the senders, and the loop.
    unfoldable pub qm_body : Bytes → F.Disk → List IpcMessage → L.World → Result (Launched L)
    qm_body root d arrivals s = do
      d' ← setup root d
      receiver ← open_only.opened s qm_queue
      parse_sender ← open_only.opened s parse_queue
      detect_sender ← open_only.opened s detect_queue
      serve L open_only (qm_service F) (record { jobs_in_memory = []; disk = d' }) arrivals s

    -- `main`
    unfoldable pub qm_main :
        Bytes → Bytes → F.Disk → CommandLine → List IpcMessage → L.World → Result (Launched L)
    qm_main argv0 root d store arrivals s =
        with_pidfile L argv0 pidfile_option store (or_one L (qm_body root d arrivals)) s
