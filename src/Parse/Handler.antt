-- ===== src/Parse/Handler.antt =====
-- src/parse/include/parse_service.h and src/parse/src/parse_service.cpp, with the sender that
-- src/parse/src/main.cpp adds.
use file_inspect_key_analyse.Base.{codes, [], none, some, Result, ok, ◌>>=◌, lookup, insert}
use file_inspect_key_analyse.Global.FileJob.{
  FileJobShm, done, failed, IpcMessage, job_message, poison_pill,
}
use file_inspect_key_analyse.Global.Service.{
  ServiceClass, msg_queue_sender, Senders, Sent, add_sender, send_to,
}
use file_inspect_key_analyse.Global.CString.{read_c_string}
use file_inspect_key_analyse.Queues.{qm_queue}
use file_inspect_key_analyse.Parse.{ParserRegistry, find_parser}

unfoldable pub parse_senders : Senders
unfolding add_sender insert lookup
parse_senders = add_sender (codes "qm") (msg_queue_sender qm_queue) []

module _ (Parser : Type 0) where
  -- `process_job`
  unfoldable pub process_job :
      FileJobShm → ParserRegistry Parser → ParserRegistry Parser × FileJobShm
  unfolding find_parser
  process_job job parsers =
      let (parsers', found) = find_parser Parser parsers job.mime in
      elim found [
        | some p ↦ (parsers', record job { status = done })
        | none ↦ (parsers', record job { status = failed })
      ]

  -- `parse_service::handle`
  unfoldable pub handle_parse :
      Senders → ParserRegistry Parser → IpcMessage → Result (ParserRegistry Parser × Sent)
  handle_parse senders parsers (job_message job) = do
    id ← read_c_string job.job_id
    let r = process_job job parsers
    ok (r.0, send_to senders (codes "qm") (job_message r.1))
  handle_parse senders parsers poison_pill = ok (parsers, [])

  -- The class with the sender of `main`.
  abbrev pub parse_service : ServiceClass
  parse_service = record { State = ParserRegistry Parser; handle = handle_parse parse_senders }
