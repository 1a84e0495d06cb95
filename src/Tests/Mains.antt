-- ===== src/Tests/Mains.antt =====
-- The processes on one table of locks.
use file_inspect_key_analyse.Base.{
  thrown, ℕ, pos, Bytes, codes, eq_bytes, eq_bytes_refl, Bool, true, false, List, [], ◌∷◌, none,
  some, if◌then◌else◌, ◌≡◌, refl, inl, inr, Bool-cases, Result, ok, undefined,
}
use file_inspect_key_analyse.Tests.Disk.{memory, has, without}
use file_inspect_key_analyse.Tests.Data.{message, message-IsWellFormed, path}
use file_inspect_key_analyse.Tests.Supervision.{table, names, system}
use file_inspect_key_analyse.Global.FileJob.{IpcMessage, job_message, poison_pill}
use file_inspect_key_analyse.Global.CliParser.{VariablesMap, pidfile_option, help_option, join}
use file_inspect_key_analyse.Global.ConfigLoader.{JsonApi}
use file_inspect_key_analyse.Global.Launch.{CommandLine, OpenOnly, Launched}
use file_inspect_key_analyse.Global.Launch.Laws.{Names}
use file_inspect_key_analyse.Util.PidFile.{LockApi, create_and_lock, is_locked}
use file_inspect_key_analyse.Util.PidFile.Exclusion.{Excludes, create_and_lock_once}
use file_inspect_key_analyse.Detect.Magic.{MagicApi}
use file_inspect_key_analyse.Detect.Main.{detect_main}
use file_inspect_key_analyse.Parse.Main.{parse_main}
use file_inspect_key_analyse.Qm.Main.{qm_main}
use file_inspect_key_analyse.Ingestd.{MqSend}
use file_inspect_key_analyse.Base.{thrown}
use file_inspect_key_analyse.Ingestd.Main.{ingestd_main}
use file_inspect_key_analyse.Supervisor.Main.{supervisor_main}
use file_inspect_key_analyse.Mains.Exclusion.{services-Held, supervisor_main-Held}
use file_inspect_key_analyse.Base.{subst-ok}
use file_inspect_key_analyse.Global.Launch.{exit_with, minus_one}
use file_inspect_key_analyse.Detect.Magic.{magic_handle, magic_detector}
use file_inspect_key_analyse.Detect.Main.{magic_mime_type}
use file_inspect_key_analyse.Network.Safety.{IsDefined}
use file_inspect_key_analyse.Qm.Main.{setup}
use file_inspect_key_analyse.Mains.Endings.{services-EndsBy, Ends}

-- The world is the list of the files that are locked.
abbrev pub locks : LockApi
locks = record {
  World = List Bytes;
  Lock = Bytes;
  exists = λ s p. true;
  write_pid = λ s p. s;
  file_lock = λ s p. ok p;
  try_lock = λ s p. if has s p then ok (s, false) else ok (p ∷ s, true);
  unlock = without;
  open_truncated = λ s p. (s, true);
}

abbrev IsLocked : List Bytes → Bytes → Type 0
IsLocked s p = has s p ≡ true

got :
    (s s' : List Bytes) (p lock : Bytes)
    → locks.file_lock s p ≡ ok lock
    → locks.try_lock s lock ≡ ok (s', true)
    → has s' p ≡ true
got s s' p lock opened locked = elim (Bool-cases (has s lock)) [
  | inl there ↦ let bad : ok (s, false) ≡ ok (s', true) = rw there at locked in cc bad
  | inr free ↦
      let won : ok (lock ∷ s, true) ≡ ok (s', true) = rw free at locked in
      let same : ok p ≡ ok lock = opened in
      subst-ok (λ (t : List Bytes × Bool). has t.0 p ≡ true) won
        (subst-ok (λ (q : Bytes). has (q ∷ s) p ≡ true) same (rw (eq_bytes_refl p) refl))
]

locked_out :
    (s : List Bytes) (p lock : Bytes)
    → has s p ≡ true
    → locks.file_lock s p ≡ ok lock
    → locks.try_lock s lock ≡ ok (s, false)
locked_out s p lock h opened =
    let same : ok p ≡ ok lock = opened in
    subst-ok (λ (q : Bytes). locks.try_lock s q ≡ ok (s, false)) same (rw h refl)

locks-Excludes : Excludes locks IsLocked
locks-Excludes = record {
  got = got;
  refused = locked_out;
  file_there = λ s p h. refl;
  lockable = λ s p h. (p, refl);
  open_kept = λ s p h. h;
  write_kept = λ s p h. h;
}

abbrev pid_path : Bytes
pid_path = codes "/run/detect.pid"

first_lem : create_and_lock locks [] pid_path ≡ ok (pid_path ∷ [], true)
unfolding create_and_lock
first_lem = refl

second_lem : has (pid_path ∷ []) pid_path ≡ true
unfolding eq_bytes
second_lem = refl

create_and_lock_once_example :
    (create_and_lock locks (pid_path ∷ []) pid_path ≡ ok (pid_path ∷ [], false))
    × (is_locked locks (pid_path ∷ []) pid_path ≡ ok true)
create_and_lock_once_example =
    create_and_lock_once locks IsLocked locks-Excludes [] (pid_path ∷ []) pid_path first_lem

abbrev variables : VariablesMap
variables = record {
  count = λ name. if eq_bytes name (codes "pidfile") then 1 else 0;
  as_text = λ name. pid_path;
  as_bool = λ name. false;
}

abbrev command_line : CommandLine
command_line options = ok variables

Names-pid : (flags : ℕ) → Names command_line (codes "/usr/bin/detect") flags pid_path
unfolding eq_bytes
Names-pid flags = record {
  vm = variables;
  read = refl;
  plain = (refl, refl);
  given = refl;
  named = refl;
}

abbrev full_queue : MqSend
full_queue sent m = thrown (codes "full")

abbrev pub all_open : OpenOnly locks
all_open = record { opened = λ s name. ok tt; has_room = λ sent. true }

abbrev pub magic : MagicApi
magic = record {
  Handle = Unit;
  open_with = λ flags. some tt;
  load = λ h db. pos 0;
  file = λ h path. some (codes "application/pdf");
  error = λ h. none;
}

abbrev nothing_made : List Bytes → Bytes → Result (List Bytes × Bool)
nothing_made d dir = ok (d, false)

abbrev json : JsonApi
json = record {
  Json = Unit;
  at = λ j key. ok tt;
  get_text = λ j. ok [];
  get_texts = λ j. ok [];
  elements = λ j. [];
}

abbrev arrivals : List IpcMessage
arrivals = job_message message ∷ poison_pill ∷ []

-- What a process gives that finds its PID file locked.
abbrev turned_away : Result (Launched locks)
turned_away = ok (exit_with locks minus_one (pid_path ∷ []))

services-Held_example :
    (detect_main locks all_open magic
        (codes "/usr/bin/detect")
        command_line
        arrivals
        (pid_path ∷ [])
      ≡ turned_away)
    × (parse_main locks all_open Unit
          (codes "/usr/bin/detect")
          command_line
          arrivals
          (pid_path ∷ [])
        ≡ turned_away)
    × (qm_main memory nothing_made locks all_open
          (codes "/usr/bin/detect")
          path
          []
          command_line
          arrivals
          (pid_path ∷ [])
        ≡ turned_away)
    × (ingestd_main memory full_queue
          (λ d p b. d)
          path
          locks
          all_open
          (codes "/usr/bin/detect")
          path
          []
          command_line
          []
          (pid_path ∷ [])
        ≡ turned_away)
services-Held_example =
    services-Held locks IsLocked locks-Excludes (codes "/usr/bin/detect") pid_path command_line
      (pid_path ∷ []) second_lem all_open magic Unit memory nothing_made full_queue (λ d p b. d)
      path path [] arrivals [] (Names-pid pidfile_option)

supervisor_main-Held_example :
    supervisor_main table names json locks
      (codes "/usr/bin/detect")
      path
      (λ file. none)
      344
      command_line
      []
      system
      (pid_path ∷ [])
    ≡ turned_away
supervisor_main-Held_example =
    supervisor_main-Held locks IsLocked locks-Excludes (codes "/usr/bin/detect") pid_path
      command_line (pid_path ∷ []) second_lem table names json path (λ file. none) 344 [] system
      (Names-pid (join pidfile_option help_option))

opened_lem : magic_handle magic magic_mime_type ≡ ok tt
unfolding magic_handle
opened_lem = refl

always_pdf : IsDefined (magic_detector magic tt)
unfolding magic_detector file_inspect_key_analyse.Detect.Magic.detect
always_pdf file h = let bad : ok (codes "application/pdf") ≡ undefined = h in cc bad

setup_lem : setup memory nothing_made path [] ≡ ok []
unfolding setup
setup_lem = refl

services-EndsBy_example :
    Ends all_open arrivals
      (detect_main locks all_open magic (codes "/usr/bin/detect") command_line arrivals [])
    × Ends all_open arrivals
        (parse_main locks all_open Unit (codes "/usr/bin/detect") command_line arrivals [])
    × Ends all_open arrivals (
        qm_main memory nothing_made locks all_open
          (codes "/usr/bin/detect")
          path
          []
          command_line
          arrivals
          [])
services-EndsBy_example =
    services-EndsBy locks all_open (λ s name. refl) (codes "/usr/bin/detect") pid_path command_line
      [] (pid_path ∷ []) (Names-pid pidfile_option) first_lem magic tt Unit memory nothing_made path
      [] [] arrivals (message-IsWellFormed, (tt, tt)) opened_lem always_pdf setup_lem
