-- ===== src/Tests/Reading.antt =====
-- Documents, paths, a command line, PID files and handles of libmagic.
use file_inspect_key_analyse.Util.PidFile.Pid.{pid_text, read_pid, read_pid-pid_text}
use file_inspect_key_analyse.Base.{
  ◌⊎◌, undefined, ℕ, zero, suc, pos, Bytes, codes, eq_bytes, is_empty, Bool, true, false, [], ◌∷◌,
  ◌++◌, Option, none, some, if◌then◌else◌, ◌≡◌, refl, arith, ok, ◌>>=◌, lookup,
}
use file_inspect_key_analyse.Global.FileJob.RoundTrip.{to_file_job-from_file_job-Fits}
use file_inspect_key_analyse.Pdf.{PopplerApi, parse}
use file_inspect_key_analyse.Pdf.Contents.{CanReadAll, Contents, parse-Contents}
use file_inspect_key_analyse.Pdf.Main.{fresh_parser}
use file_inspect_key_analyse.Global.Commands.{CommandType, CommandMessage, command_message}
use file_inspect_key_analyse.Global.CliParser.{VariablesMap}
use file_inspect_key_analyse.Fika.Cli.{ParsedCommand, parse_command_line}
use file_inspect_key_analyse.Fika.Journey.{run_once-asked, asked}
use file_inspect_key_analyse.Supervisor.{run_once, monitor_once}
use file_inspect_key_analyse.Tests.Mains.{magic}
use file_inspect_key_analyse.Base.{negsuc}
use file_inspect_key_analyse.Detect.Magic.{MagicApi}
use file_inspect_key_analyse.Tests.Supervision.{table, names, started}
use file_inspect_key_analyse.Tests.Data.{path, job, job-Fits, message}
use file_inspect_key_analyse.Detect.{FileDetector}

-- A document with a title and two pages, of which the second cannot be had.
abbrev title : Bool → Bytes
title true = codes "Report" ++ 0 ∷ []
title false = []

abbrev first_page : ℕ → Option Bytes
first_page zero = some (codes "one" ++ 0 ∷ [])
first_page (suc i) = none

abbrev poppler : PopplerApi
poppler = record {
  Document = Unit;
  Page = Bytes;
  UString = Bytes;
  load_from_file = λ file. some tt;
  info_key = λ doc key. title (eq_bytes key (codes "Title"));
  empty = is_empty;
  to_utf8 = λ s. s;
  pages = λ doc. 2;
  create_page = λ doc i. first_page i;
  text = λ page. page;
}

parse-Contents_example :
    (CanReadAll poppler tt × Contents poppler tt message fresh_parser)
    ⊎ ((¬ CanReadAll poppler tt) × (parse poppler message fresh_parser ≡ undefined))
parse-Contents_example =
    parse-Contents poppler tt message job fresh_parser
      (to_file_job-from_file_job-Fits job job-Fits refl) refl

-- `fika restart detect`
abbrev restart_detect : VariablesMap
restart_detect = record {
  count = λ name. 1;
  as_text = λ name. if eq_bytes name (codes "command") then codes "restart" else codes "detect";
  as_bool = λ name. false;
}

abbrev restart_parsed : ParsedCommand
restart_parsed = record { type = CommandType.restart; service = codes "detect" }

restart_lem : parse_command_line restart_detect ≡ ok restart_parsed
unfolding parse_command_line lookup eq_bytes file_inspect_key_analyse.Fika.Cli.command_text
    file_inspect_key_analyse.Fika.Cli.service_text file_inspect_key_analyse.Fika.Cli.command_map
restart_lem = refl

run_once-asked_example :
    (msg : CommandMessage) × (command_message CommandType.restart (codes "detect") ≡ ok msg)
    × (run_once table names (some msg) started ≡ (
        asked table names (codes "restart") (codes "detect") started >>= monitor_once table names))
unfolding eq_bytes file_inspect_key_analyse.Fika.Cli.service_text
run_once-asked_example =
    run_once-asked table names restart_detect restart_parsed started restart_lem (omega arith) tt

-- A libmagic that opens but finds no database: the handle stays open.
abbrev no_database : MagicApi
no_database = record magic { load = λ h db. negsuc 0; error = λ h. some (codes "no database") }

read_pid-pid_text_example : read_pid (λ p. some (pid_text 4711)) path ≡ ok (pos 4711)
read_pid-pid_text_example =
    read_pid-pid_text (λ p. some (pid_text 4711)) path 4711 (omega arith) refl
