-- ===== src/Parse/Outcome.antt =====
-- What becomes of a job in the parse service.
use file_inspect_key_analyse.Base.{[], Option, none, some, ◌≡◌, refl, ◌⊎◌, inl, inr, arith}
use file_inspect_key_analyse.Global.FileJob.{FileJobShm, done, failed}
use file_inspect_key_analyse.Global.MimeType.{MimeType, unknown}
use file_inspect_key_analyse.Parse.{ParserRegistry, registered, create_parser}
use file_inspect_key_analyse.Parse.Handler.{process_job}

module _ (Parser : Type 0) where
  create_parser-none : (t : MimeType) → create_parser Parser t ≡ none
  unfolding create_parser
  create_parser-none unknown = refl
  create_parser-none _ = refl

  process_registered :
      (job : FileJobShm) (parsers : ParserRegistry Parser) (p : Parser)
      → registered Parser job.mime parsers ≡ some p
      → process_job Parser job parsers ≡ (parsers, record job { status = done })
  unfolding process_job
  process_registered job parsers p e = ground arith

  process_unregistered :
      (job : FileJobShm) (parsers : ParserRegistry Parser)
      → registered Parser job.mime parsers ≡ none
      → process_job Parser job parsers ≡ (parsers, record job { status = failed })
  unfolding process_job
  process_unregistered job parsers e = ground (arith, create_parser-none job.mime)

  -- The service leaves its registry alone and changes nothing of a job but its status, which is
  -- `done` exactly if the registry has a parser for the job's type, and `failed` otherwise.
  pub process_job_lem :
      (job : FileJobShm) (parsers : ParserRegistry Parser)
      → ((p : Parser) × (registered Parser job.mime parsers ≡ some p)
          × (process_job Parser job parsers ≡ (parsers, record job { status = done })))
        ⊎ ((registered Parser job.mime parsers ≡ none)
            × (process_job Parser job parsers ≡ (parsers, record job { status = failed })))
  process_job_lem job parsers = go (registered Parser job.mime parsers) refl
    where
      go :
          (o : Option Parser)
          → registered Parser job.mime parsers ≡ o
          → ((p : Parser) × (registered Parser job.mime parsers ≡ some p)
              × (process_job Parser job parsers ≡ (parsers, record job { status = done })))
            ⊎ ((registered Parser job.mime parsers ≡ none)
                × (process_job Parser job parsers ≡ (parsers, record job { status = failed })))
      go none e = inr (e, process_unregistered job parsers e)
      go (some p) e = inl (p, e, process_registered job parsers p e)

  -- With the empty registry of `main` every job fails, whatever its type.
  pub process_job_empty :
      (job : FileJobShm) → process_job Parser job [] ≡ ([], record job { status = failed })
  unfolding registered
  process_job_empty job = process_unregistered job [] refl

  pub process_job-registry :
      (job : FileJobShm) (parsers : ParserRegistry Parser)
      → (process_job Parser job parsers).0 ≡ parsers
  process_job-registry job parsers = elim (process_job_lem job parsers) [
    | inl (p, _, e) ↦ rw e
    | inr (_, e) ↦ rw e
  ]
