-- ===== src/Network/Journey.antt =====
-- From an upload to the end of its job: src/ingestd and the three services on one disk.
use file_inspect_key_analyse.Base.{
  ℕ, Bytes, List, [], ◌∷◌, ◌++◌, All, All-append, ◌≡◌, refl, sym, ◌∙◌, ok,
}
use file_inspect_key_analyse.Global.FileJob.{IpcMessage, job_message, poison_pill}
use file_inspect_key_analyse.Util.Pickup.{FileSystem}
use file_inspect_key_analyse.Ingestd.{MqSend, Ingestd, Response}
use file_inspect_key_analyse.Ingestd.Main.{Request, uploads}
use file_inspect_key_analyse.Ingestd.Uploads.{Returns, IsFresh, uploads-IsFresh}
use file_inspect_key_analyse.Network.{Net, Run}
use file_inspect_key_analyse.Network.Safety.{IsSound, IsReadable}
use file_inspect_key_analyse.Network.Progress.{IsIdle, Run-drains}
use file_inspect_key_analyse.Network.Fate.{IsNotDone, IsFruitless, Run-IsFruitless}

fresh-IsReadable : (ms : List IpcMessage) → All IsFresh ms → All IsReadable ms
fresh-IsReadable [] h = tt
fresh-IsReadable (job_message m ∷ ms) h = (h.0.0, fresh-IsReadable ms h.1)
fresh-IsReadable (poison_pill ∷ ms) h = absurd h.0

fresh-IsNotDone : (ms : List IpcMessage) → All IsFresh ms → All IsNotDone ms
fresh-IsNotDone [] h = tt
fresh-IsNotDone (job_message m ∷ ms) h =
    ((λ e. let bad = sym h.0.1 ∙ e in cc bad), fresh-IsNotDone ms h.1)
fresh-IsNotDone (poison_pill ∷ ms) h = absurd h.0

module _ (F : FileSystem) (Parser : Type 0) where
  -- The services when ingestd has put its messages on the manager's queue and left this disk.
  abbrev pub fed : Net F Parser → Ingestd F → Net F Parser
  fed n self = record n {
    qm_inbox = n.qm_inbox ++ self.sent;
    qm = record n.qm { disk = self.disk };
  }

  -- Any uploads whose sends return are handled without an exception, and the services, with no pill on
  -- their queues, then reach a state with empty queues; with no parser registered and no job reported as done before, the disk is still as the
  -- uploads have left it, so every file that was accepted stays in the spool.
  pub uploads-drain :
      (mq_send : MqSend) (returns : Returns mq_send) (write_file : F.Disk → Bytes → Bytes → F.Disk)
      (incoming spool_dir : Bytes) (requests : List Request) (n : Net F Parser)
      → IsSound F Parser n
      → n.registry ≡ []
      → All IsNotDone n.qm_inbox
      → (r : Ingestd F × List Response) × (k : ℕ) × (u : Net F Parser) × (uploads F mq_send
            write_file incoming requests
            (record { spool_dir = spool_dir; disk = n.qm.disk; sent = [] })
          ≡ ok r)
        × Run F Parser (fed n r.0) k u
        × IsIdle F Parser u
        × (u.qm.disk ≡ r.0.disk)
  uploads-drain mq_send returns write_file incoming spool_dir requests n sound no_parser none_done =
      let (r, added, went, sent, fresh) =
        uploads-IsFresh F mq_send returns write_file incoming requests
          (record { spool_dir = spool_dir; disk = n.qm.disk; sent = [] }) in
      let sent_fresh : All IsFresh r.0.sent = rw sent fresh in
      let start : IsSound F Parser (fed n r.0) = record {
        qm_readable =
            All-append IsReadable n.qm_inbox r.0.sent sound.qm_readable
              (fresh-IsReadable r.0.sent sent_fresh);
        detect_readable = sound.detect_readable;
        parse_readable = sound.parse_readable;
        detectors_defined = sound.detectors_defined;
      } in
      let fruitless : IsFruitless F Parser r.0.disk (fed n r.0) = record {
        none_done =
            All-append IsNotDone n.qm_inbox r.0.sent none_done
              (fresh-IsNotDone r.0.sent sent_fresh);
        no_parser = no_parser;
        same_disk = refl;
      } in
      let (k, u, run, idle) = (Run-drains F Parser (fed n r.0) start).0 in
      (r, k, u, went, run, idle, (Run-IsFruitless F Parser r.0.disk fruitless run).same_disk)
