-- ===== src/Ingestd/Uploads.antt =====
-- What a sequence of uploads leaves: messages that can be read, of new jobs; and two uploads within one
-- second.
use file_inspect_key_analyse.Base.{
  ℕ, Bytes, codes, List, [], ◌∷◌, ◌++◌, All, All-append, ◌≡◌, refl, sym, ap, ◌∙◌, ok,
}
use file_inspect_key_analyse.Global.FileJob.{
  FileJobShm, to_file_job, IpcMessage, job_message, poison_pill,
}
use file_inspect_key_analyse.Global.FilePath.{join_path}
use file_inspect_key_analyse.Util.Pickup.{FileSystem, Expected, value, unexpected, move_file}
use file_inspect_key_analyse.Ingestd.{MqSend, Ingestd, Response, handle_file, upload}
use file_inspect_key_analyse.Ingestd.Main.{Request, uploads}
use file_inspect_key_analyse.Ingestd.Submission.{IsSubmitted, submitted_ok, new_job, after_move}
use mathlib.Core.List.{append_assoc, append-nil}

abbrev pub IsFresh : IpcMessage → Type 0
IsFresh (job_message m) = IsSubmitted m
IsFresh poison_pill = ⊥

abbrev pub accepted : Response
accepted = record { status = 200; content = codes "Job submitted\n" }

-- A send that returns, with the message behind those before it.
abbrev pub Returns : MqSend → Type 0
Returns mq_send = (sent : List IpcMessage) (m : IpcMessage) → mq_send sent m ≡ ok (sent ++ m ∷ [])

module _ (F : FileSystem) (mq_send : MqSend) (returns : Returns mq_send) where
  handle_file-IsFresh :
      (uuid tmp_path filename : Bytes) (self : Ingestd F)
      → (after : Ingestd F) × (added : List IpcMessage) × (handle_file F mq_send uuid tmp_path
            filename self
          ≡ ok after)
        × (after.sent ≡ self.sent ++ added)
        × All IsFresh added
  unfolding handle_file
  handle_file-IsFresh uuid tmp_path filename self =
      go (move_file F self.disk tmp_path (join_path self.spool_dir filename)).1 refl
    where
      go :
          (r : Expected)
          → (move_file F self.disk tmp_path (join_path self.spool_dir filename)).1 ≡ r
          → (after : Ingestd F) × (added : List IpcMessage) × (handle_file F mq_send uuid tmp_path
                filename self
              ≡ ok after)
            × (after.sent ≡ self.sent ++ added)
            × All IsFresh added
      go value e =
          let (m, made, _, fresh) = submitted_ok F uuid (join_path self.spool_dir filename) in
          let moved = after_move F uuid tmp_path filename self in
          (
            record moved { sent = self.sent ++ job_message m ∷ [] },
            job_message m ∷ [],
            rw (e, handle_file) (rw made (rw (returns self.sent (job_message m)) refl)),
            refl,
            (fresh, tt),
          )
      go (unexpected ec) e = (
        after_move F uuid tmp_path filename self,
        [],
        rw (e, handle_file) refl,
        sym (append-nil self.sent),
        tt,
      )

  module _ (write_file : F.Disk → Bytes → Bytes → F.Disk) (incoming : Bytes) where
    upload-IsFresh :
        (now uuid body : Bytes) (self : Ingestd F)
        → (r : Ingestd F × Response) × (added : List IpcMessage) × (upload F mq_send write_file
              incoming now uuid body self
            ≡ ok r)
          × (r.0.sent ≡ self.sent ++ added)
          × All IsFresh added
    unfolding upload
    upload-IsFresh now uuid [] self = (
      (self, record { status = 400; content = codes "No data in request\n" }),
      [],
      refl,
      sym (append-nil self.sent),
      tt,
    )
    upload-IsFresh now uuid (b ∷ body) self =
        let filename = codes "upload_" ++ now in
        let tmp = join_path incoming filename in
        let (after, added, went, kept, fresh) =
          handle_file-IsFresh uuid tmp filename
            (record self { disk = write_file self.disk tmp (b ∷ body) }) in
        ((after, accepted), added, rw went refl, kept, fresh)

    -- Every sequence of uploads whose sends return is handled without an exception, whatever the bodies, the
    -- texts and the moves are, and what has been sent for them can be read and is of new jobs.
    pub uploads-IsFresh :
        (requests : List Request) (self : Ingestd F)
        → (r : Ingestd F × List Response) × (added : List IpcMessage) × (uploads F mq_send
              write_file incoming requests self
            ≡ ok r)
          × (r.0.sent ≡ self.sent ++ added)
          × All IsFresh added
    unfolding uploads
    uploads-IsFresh [] self = ((self, []), [], refl, sym (append-nil self.sent), tt)
    uploads-IsFresh (request ∷ later) self =
        let (first, added, went, kept, fresh) =
          upload-IsFresh request.now request.uuid request.body self in
        let (rest, more, went_on, kept_on, fresh_on) = uploads-IsFresh later first.0 in
        (
          (rest.0, first.1 ∷ rest.1),
          added ++ more,
          rw went (rw went_on refl),
          kept_on ∙ ap (λ sent. sent ++ more) kept ∙ append_assoc self.sent added more,
          All-append IsFresh added more fresh fresh_on,
        )

    -- The file of an upload, before and after its move, and the move of one with this body.
    abbrev pub incoming_file : Bytes → Bytes
    incoming_file now = join_path incoming (codes "upload_" ++ now)

    abbrev pub spooled_file : Bytes → Ingestd F → Bytes
    spooled_file now self = join_path self.spool_dir (codes "upload_" ++ now)

    abbrev pub moved_in : Bytes → Bytes → Ingestd F → F.Disk → F.Disk × Expected
    moved_in now body self disk =
        move_file F (write_file disk (incoming_file now) body) (incoming_file now)
          (spooled_file now self)

    -- Two uploads of the same second, with any two bodies, whose moves succeed and whose sends return,
    -- are both accepted, and become two jobs, with the ids that were drawn, that name one file.
    pub upload_twice :
        (now uuid uuid' : Bytes) (b b' : ℕ) (body body' : Bytes) (self : Ingestd F)
        → (moved_in now (b ∷ body) self self.disk).1 ≡ value
        → (moved_in now (b' ∷ body') self (moved_in now (b ∷ body) self self.disk).0).1 ≡ value
        → (m m' : FileJobShm) × (uploads F mq_send write_file incoming
              (record { body = b ∷ body; now = now; uuid = uuid }
                ∷ record { body = b' ∷ body'; now = now; uuid = uuid' }
                ∷ [])
              self
            ≡ ok (
              record {
                spool_dir = self.spool_dir;
                disk =
                    (moved_in now (b' ∷ body') self (moved_in now (b ∷ body) self self.disk).0).0;
                sent = (self.sent ++ job_message m ∷ []) ++ job_message m' ∷ [];
              },
              accepted ∷ accepted ∷ [],
            ))
          × (to_file_job m ≡ ok (new_job uuid (spooled_file now self)))
          × (to_file_job m' ≡ ok (new_job uuid' (spooled_file now self)))
    unfolding uploads upload handle_file
    upload_twice now uuid uuid' b b' body body' self moved moved' =
        let dst = spooled_file now self in
        let (m, made, read, _) = submitted_ok F uuid dst in
        let (m', made', read', _) = submitted_ok F uuid' dst in
        (
          m,
          m',
          rw (moved, handle_file)
              (rw made (
                rw (returns self.sent (job_message m)) (
                  rw (moved', handle_file)
                    (rw made'
                      (rw (returns (self.sent ++ job_message m ∷ []) (job_message m')) refl))))),
          read,
          read',
        )
