-- ===== src/Ingestd/Main.antt =====
-- src/ingestd/src/main.cpp and the server of `ingestd::run`: the process that accepts uploads.
use file_inspect_key_analyse.Base.{Bytes, List, [], ◌∷◌, map, Result, ok, ◌>>=◌}
use file_inspect_key_analyse.Queues.{qm_queue}
use file_inspect_key_analyse.Util.PidFile.{LockApi}
use file_inspect_key_analyse.Util.Pickup.{FileSystem}
use file_inspect_key_analyse.Global.CliParser.{pidfile_option}
use file_inspect_key_analyse.Global.Launch.{
  CommandLine, OpenOnly, Launched, with_pidfile, receiving,
}
use file_inspect_key_analyse.Ingestd.{MqSend, Ingestd, Response, upload}

-- A request: its body, with the decimal texts of the time and the id that are drawn for it.
pub record Request : Type 0 where
  pub body : Bytes
  pub now : Bytes
  pub uuid : Bytes

module _ (F : FileSystem) (mq_send : MqSend) (write_file : F.Disk → Bytes → Bytes → F.Disk)
    (incoming : Bytes) where
  -- The server takes one request after another. What it answers to a request whose handler throws is
  -- its own.
  unfoldable pub uploads : List Request → Ingestd F → Result (Ingestd F × List Response)
  uploads [] self = ok (self, [])
  uploads (r ∷ later) self = do
    first ← upload F mq_send write_file incoming r.now r.uuid r.body self
    rest ← uploads later first.0
    ok (rest.0, first.1 ∷ rest.1)

  module _ (L : LockApi) (open_only : OpenOnly L) where
    -- `main`: the constructor opens the queue outside any `try`, and the server goes on listening.
    unfoldable pub ingestd_main :
        Bytes → Bytes → F.Disk → CommandLine → List Request → L.World → Result (Launched L)
    unfolding uploads
    ingestd_main argv0 spool_dir disk store requests s =
        with_pidfile L argv0 pidfile_option store
          (λ s'. do
            mq ← open_only.opened s' qm_queue
            r ← uploads requests (record { spool_dir = spool_dir; disk = disk; sent = [] })
            ok (record {
              world = s';
              sent = map (λ m. (qm_queue, m)) r.0.sent;
              ending = receiving;
            }))
          s
