-- ===== src/Tests/Processes.antt =====
-- A PID file, a command for the supervisor, and the ingest on a queue that is soon full.
use file_inspect_key_analyse.Base.{codes, true, false, List, [], ◌∷◌, ◌≡◌, ◌⊎◌, ok, undefined, take}
use file_inspect_key_analyse.Global.CString.{c_str}
use file_inspect_key_analyse.Global.Commands.Laws.{service-command_message}
use file_inspect_key_analyse.Util.PidFile.{is_locked_lem}
use file_inspect_key_analyse.Ingestd.{MqSend}
use file_inspect_key_analyse.Global.FileJob.{IpcMessage}
use file_inspect_key_analyse.Base.{◌≢◌, thrown, undefined}
use file_inspect_key_analyse.Ingestd.Submission.{Handled, handle_file_lem, after_move}
use file_inspect_key_analyse.Tests.Disk.{memory}
use file_inspect_key_analyse.Tests.Data.{path}
use file_inspect_key_analyse.Global.Commands.{CommandType, CommandMessage, command_message, service}
use file_inspect_key_analyse.Ingestd.{Ingestd}
use file_inspect_key_analyse.Util.PidFile.{LockApi, is_locked}

service-command_message_example :
    (m : CommandMessage) × (command_message CommandType.stop (codes "detect") ≡ ok m)
    × (m.cmd ≡ CommandType.stop)
    × (service m ≡ ok (take 63 (c_str (codes "detect"))))
service-command_message_example = service-command_message CommandType.stop (codes "detect")

-- One pid file, which nobody holds, and the messages that were sent.
abbrev unlocked : LockApi
unlocked = record {
  World = List CommandMessage;
  Lock = Unit;
  exists = λ s path. true;
  write_pid = λ s path. s;
  file_lock = λ s path. ok tt;
  try_lock = λ s lock. ok (s, true);
  unlock = λ s lock. s;
  open_truncated = λ s path. (s, true);
}

is_locked_lem_example :
    (is_locked unlocked [] path ≡ ok true)
    ⊎ ((is_locked unlocked [] path ≡ ok false) ⊎ (is_locked unlocked [] path ≡ undefined))
is_locked_lem_example = is_locked_lem unlocked [] path

abbrev ingest : Ingestd memory
ingest = record { spool_dir = codes "/spool/new"; disk = codes "/in/a" ∷ []; sent = [] }

abbrev moved : Ingestd memory
moved = after_move memory (codes "job_17") (codes "/in/a") (codes "a") ingest

-- A queue that has no room for more than one message.
abbrev bounded : MqSend
bounded [] m = ok (m ∷ [])
bounded (x ∷ xs) m = thrown (codes "full")

bounded_defined : (sent : List IpcMessage) (m : IpcMessage) → bounded sent m ≢ undefined
bounded_defined [] m h = cc h
bounded_defined (x ∷ xs) m h = cc h

handle_file_lem_example : Handled memory (codes "job_17") (codes "/in/a") (codes "a") ingest bounded
handle_file_lem_example =
    handle_file_lem memory (codes "job_17") (codes "/in/a") (codes "a") ingest bounded
      bounded_defined
