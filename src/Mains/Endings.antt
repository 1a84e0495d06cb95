-- ===== src/Mains/Endings.antt =====
-- How the services end on the messages that arrive, with a poison pill among them or none.
use file_inspect_key_analyse.Base.{
  Bytes, codes, Bool, true, List, [], ◌∷◌, All, ◌≡◌, refl, sym, ◌∙◌, ◌≢◌, Result, ok, thrown,
  undefined,
}
use file_inspect_key_analyse.Global.CString.Laws.{read_c_string_ok}
use file_inspect_key_analyse.Global.CString.{read_c_string}
use file_inspect_key_analyse.Global.FileJob.{IpcMessage, job_message, poison_pill}
use file_inspect_key_analyse.Global.CliParser.{pidfile_option}
use file_inspect_key_analyse.Global.Service.{ServiceClass}
use file_inspect_key_analyse.Global.Launch.{CommandLine, OpenOnly, Launched, serve, or_one}
use file_inspect_key_analyse.Global.Launch.Laws.{Names, with_pidfile-Names, EndsBy, serve-Ending}
use file_inspect_key_analyse.Util.PidFile.{LockApi, create_and_lock}
use file_inspect_key_analyse.Util.Pickup.{FileSystem}
use file_inspect_key_analyse.Parse.Main.{parse_main, parse_body}
use file_inspect_key_analyse.Parse.Handler.{handle_parse, parse_service}
use file_inspect_key_analyse.Qm.Routing.{process_results-Routes}
use file_inspect_key_analyse.Qm.Handler.{handle_qm, qm_service}
use file_inspect_key_analyse.Qm.Main.{qm_main, qm_body, setup}
use file_inspect_key_analyse.Base.{subst-ok}
use file_inspect_key_analyse.Global.Service.{Sent}
use file_inspect_key_analyse.Global.Launch.{with_pidfile}
use file_inspect_key_analyse.Detect.{FileDetector, DetectionResult, detect_file}
use file_inspect_key_analyse.Global.Service.{send_to}
use file_inspect_key_analyse.Queues.{detect_queue, parse_queue, qm_queue}
use file_inspect_key_analyse.Detect.Magic.{MagicApi, magic_handle, magic_detector}
use file_inspect_key_analyse.Detect.Main.{detect_main, detect_body, magic_mime_type}
use file_inspect_key_analyse.Detect.Handler.{
  handle_detect, detected_job, detect_service, detect_senders,
}
use file_inspect_key_analyse.Global.FileJob.RoundTrip.{IsWellFormed}
use file_inspect_key_analyse.Network.Safety.{IsDefined, detect_file_defined}

-- A pill, or a job whose arrays have their sizes and end in NUL.
abbrev pub MayArrive : IpcMessage → Type 0
MayArrive (job_message m) = IsWellFormed m
MayArrive poison_pill = Unit

-- A handler that meets no undefined behaviour on such a message, and leaves its state as it is to be.
abbrev Copes : (C : ServiceClass) → (C.State → Type 0) → Type 0
Copes C Inv =
    (state : C.State) (m : IpcMessage)
    → Inv state
    → MayArrive m
    → (C.handle state m ≢ undefined) × ((r : C.State × Sent) → C.handle state m ≡ ok r → Inv r.0)

parse-Copes : (Parser : Type 0) → Copes (parse_service Parser) (λ ps. Unit)
unfolding handle_parse
parse-Copes Parser ps (job_message j) i w =
    let (id, read, _, _) = read_c_string_ok j.job_id w.id_terminated in
    (λ h. let bad = rw read at h in cc bad, λ r h. tt)
parse-Copes Parser ps poison_pill i w =
    (λ h. let bad : ok (ps, []) ≡ undefined = h in cc bad, λ r h. tt)

qm-Copes : (F : FileSystem) → Copes (qm_service F) (λ q. Unit)
unfolding handle_qm
qm-Copes F q (job_message j) i w =
    let (fj, r, _, _, done, _) = process_results-Routes F q j w in
    (λ h. let bad = rw done at h in cc bad, λ r h. tt)
qm-Copes F q poison_pill i w = (λ h. let bad : ok (q, []) ≡ undefined = h in cc bad, λ r h. tt)

detect-Copes : Copes detect_service (All IsDefined)
unfolding handle_detect
detect-Copes ds (job_message j) i w = go (detect_file tt ds path) refl
  where
    id_read : (id : Bytes) × (read_c_string j.job_id ≡ ok id)
    id_read = let (id, read, _, _) = read_c_string_ok j.job_id w.id_terminated in (id, read)

    path_read : (path : Bytes) × (read_c_string j.path ≡ ok path)
    path_read = let (path, read, _, _) = read_c_string_ok j.path w.path_terminated in (path, read)

    path : Bytes
    path = path_read.0

    go :
        (t : Result (DetectionResult Unit))
        → detect_file tt ds path ≡ t
        → (handle_detect detect_senders ds (job_message j) ≢ undefined)
          × ((r : List FileDetector × Sent)
              → handle_detect detect_senders ds (job_message j) ≡ ok r
              → All IsDefined r.0)
    go undefined e = absurd (detect_file_defined ds path i e)
    go (thrown what) e =
        let raised : handle_detect detect_senders ds (job_message j) ≡ thrown what =
          rw (handle_detect, id_read.1, path_read.1) (rw e refl) in
        (λ h. cc (raised, h), λ r h. cc (raised, h))
    go (ok result) e =
        let did : handle_detect detect_senders ds (job_message j)
            ≡ ok (
              ds,
              send_to detect_senders (codes "qm") (job_message (detected_job j result.mime_type)),
            ) =
          rw (handle_detect, id_read.1, path_read.1) (rw e refl) in
        (
          λ h. cc (did, h),
          λ r h. subst-ok (λ (t : List FileDetector × Sent). All IsDefined t.0) (sym did ∙ h) i,
        )
detect-Copes ds poison_pill i w = (
  λ h. let bad : ok (ds, []) ≡ undefined = h in cc bad,
  λ r h. subst-ok (λ (t : List FileDetector × Sent). All IsDefined t.0) h i,
)

-- A process that gives no exception and ends so.
abbrev pub Ends : {L : LockApi} → OpenOnly L → List IpcMessage → Result (Launched L) → Type 0
Ends {L} queues arrivals t = (l : Launched L) × (t ≡ ok l) × EndsBy queues arrivals l

module _ (L : LockApi) (open_only : OpenOnly L)
    (opens : (s : L.World) (name : Bytes) → open_only.opened s name ≡ ok tt)
    (argv0 pid_path : Bytes) (store : CommandLine) (s s' : L.World)
    (n : Names store argv0 pidfile_option pid_path)
    (locked : create_and_lock L s pid_path ≡ ok (s', true)) where
  -- A service that gets the lock and whose `try` block comes to its loop.
  served_lem :
      (C : ServiceClass) (Inv : C.State → Type 0) (copes : Copes C Inv) (state : C.State)
      (arrivals : List IpcMessage) (body : L.World → Result (Launched L))
      → Inv state
      → All MayArrive arrivals
      → body s' ≡ serve L open_only C state arrivals s'
      → Ends open_only arrivals (with_pidfile L argv0 pidfile_option store (or_one L body) s)
  served_lem C Inv copes state arrivals body i fine comes =
      let (l, done, ends) =
        serve-Ending C MayArrive Inv copes L open_only arrivals state s' i fine in
      (
        l,
        with_pidfile-Names L argv0 pidfile_option pid_path store (or_one L body) s n
            ∙ rw locked (rw (comes ∙ done) refl),
        ends,
      )

  -- A service that gets the lock on its PID file and finds its queues ends as it should, on messages
  -- whose arrays end in NUL: without a poison pill it waits for more; with one it returns 0 if all that
  -- its threads send finds room, and otherwise waits for these threads.
  -- The detect service needs libmagic to open and to meet no undefined behaviour, and the queue
  -- manager the folders of the spool to be made.
  pub services-EndsBy :
      (M : MagicApi) (handle : M.Handle) (Parser : Type 0) (F : FileSystem)
      (create_directories : F.Disk → Bytes → Result (F.Disk × Bool)) (root : Bytes) (d d' : F.Disk)
      (arrivals : List IpcMessage)
      → All MayArrive arrivals
      → magic_handle M magic_mime_type ≡ ok handle
      → IsDefined (magic_detector M handle)
      → setup F create_directories root d ≡ ok d'
      → Ends open_only arrivals (detect_main L open_only M argv0 store arrivals s)
        × Ends open_only arrivals (parse_main L open_only Parser argv0 store arrivals s)
        × Ends open_only arrivals
            (qm_main F create_directories L open_only argv0 root d store arrivals s)
  unfolding detect_main detect_body parse_main parse_body qm_main qm_body
  services-EndsBy M handle Parser F create_directories root d d' arrivals fine opened defined made =
      (
        served_lem detect_service (All IsDefined) detect-Copes (magic_detector M handle ∷ [])
            arrivals (detect_body L open_only M arrivals) (defined, tt) fine
            (rw (opened, opens s' detect_queue, opens s' qm_queue) refl),
        served_lem (parse_service Parser) (λ ps. Unit) (parse-Copes Parser) [] arrivals
            (parse_body L open_only Parser arrivals) tt fine
            (rw (opens s' parse_queue, opens s' qm_queue) refl),
        served_lem (qm_service F) (λ q. Unit) (qm-Copes F)
            (record { jobs_in_memory = []; disk = d' }) arrivals
            (qm_body F create_directories L open_only root d arrivals) tt fine
            (rw (made, opens s' qm_queue, opens s' parse_queue, opens s' detect_queue) refl),
      )
