-- ===== src/Network/Safety.antt =====
-- The services never meet undefined behaviour on jobs that can be read, and the messages that they send
-- can be read in turn.
use file_inspect_key_analyse.Base.{
  ℕ, Bytes, codes, eq_bytes, List, [], ◌∷◌, ◌++◌, All, All-append, All-removed, Option, none, some,
  ◌≡◌, refl, inl, inr, ◌≢◌, arith, Bool-cases, Result, ok, thrown, undefined,
}
use file_inspect_key_analyse.Global.FileJob.{
  FileJobShm, Status, done, failed, IpcMessage, job_message, poison_pill,
}
use file_inspect_key_analyse.Global.Service.{
  QueueSender, msg_queue_sender, null_sender, Senders, Sent, send, get_sender, send_to,
}
use file_inspect_key_analyse.Global.CString.{read_c_string}
use file_inspect_key_analyse.Global.FileJob.RoundTrip.{IsWellFormed}
use file_inspect_key_analyse.Queues.{qm_queue, detect_queue, parse_queue}
use file_inspect_key_analyse.Qm.Handler.{qm_senders, handle_qm, qm_service}
use file_inspect_key_analyse.Util.Pickup.{FileSystem}
use file_inspect_key_analyse.Detect.{FileDetector, DetectionResult, detect_file}
use file_inspect_key_analyse.Detect.Handler.{
  handle_detect, detect_service, detect_senders, detected_job,
}
use file_inspect_key_analyse.Parse.{ParserRegistry}
use file_inspect_key_analyse.Parse.Handler.{handle_parse, parse_service, parse_senders}
use file_inspect_key_analyse.Parse.Outcome.{process_job_lem}
use file_inspect_key_analyse.Qm.{Qm}
use file_inspect_key_analyse.Qm.Routing.{process_results-Routes}
use file_inspect_key_analyse.Global.Service.{task}
use file_inspect_key_analyse.Global.CString.Laws.{read_c_string_ok}
use file_inspect_key_analyse.Qm.Routing.{routed-IsWellFormed}
use file_inspect_key_analyse.Network.{
  Run, here, next, Net, put, deliver, Step, qm_takes, detect_takes, parse_takes,
}
use file_inspect_key_analyse.Network.Rank.{to_qm}

-- A job whose arrays have their sizes and end in NUL, not a pill.
abbrev pub IsReadable : IpcMessage → Type 0
IsReadable (job_message m) = IsWellFormed m
IsReadable poison_pill = ⊥

abbrev pub IsReadableSent : Bytes × IpcMessage → Type 0
IsReadableSent (queue, m) = IsReadable m

-- A detector that answers or throws.
abbrev pub IsDefined : FileDetector → Type 0
IsDefined det = (file : Bytes) → det.detect file ≢ undefined

send_to_readable :
    (senders : Senders) (name : Bytes) (m : FileJobShm)
    → IsWellFormed m
    → All IsReadableSent (send_to senders name (job_message m))
unfolding send_to
send_to_readable senders name m w = go (get_sender name senders)
  where
    go :
        (s : Option QueueSender)
        → All IsReadableSent (elim s [ none ↦ [] | some sender ↦ send sender (job_message m) ])
    go none = tt
    go (some (msg_queue_sender queue)) = (w, tt)
    go (some null_sender) = tt

pub detect_file_defined :
    (ds : List FileDetector) (file : Bytes) → All IsDefined ds → detect_file tt ds file ≢ undefined
unfolding detect_file
detect_file_defined [] file h = λ e. cc
detect_file_defined (d ∷ ds) file h = ground (arith, h.0 file, detect_file_defined ds file h.1)

restated : (m : FileJobShm) (s : Status) → IsWellFormed m → IsWellFormed (record m { status = s })
restated m s w = record {
  id_size = w.id_size;
  path_size = w.path_size;
  id_terminated = w.id_terminated;
  path_terminated = w.path_terminated;
}

detected : (m : FileJobShm) (mime : Bytes) → IsWellFormed m → IsWellFormed (detected_job m mime)
unfolding detected_job
detected m mime w = record {
  id_size = w.id_size;
  path_size = w.path_size;
  id_terminated = w.id_terminated;
  path_terminated = w.path_terminated;
}

module _ (F : FileSystem) (Parser : Type 0) where
  pub record IsSound (n : Net F Parser) : Type 0 where
    pub qm_readable : All IsReadable n.qm_inbox
    pub detect_readable : All IsReadable n.detect_inbox
    pub parse_readable : All IsReadable n.parse_inbox
    pub detectors_defined : All IsDefined n.detectors

  pub qm_ready :
      (q : Qm F) (m : FileJobShm)
      → IsWellFormed m
      → (q' : Qm F) × (sent : Sent) × (task (qm_service F) q (job_message m) ≡ ok (q', sent))
        × All IsReadableSent sent
  unfolding task handle_qm
  qm_ready q m w =
      let (job, r, c, _, handled, routes) = process_results-Routes F q m w in
      (
        r.0,
        send_to qm_senders r.1.0 (job_message r.1.1),
        rw handled,
        send_to_readable qm_senders r.1.0 r.1.1 (routed-IsWellFormed F m.status q job r routes),
      )

  pub parse_ready :
      (ps : ParserRegistry Parser) (m : FileJobShm)
      → IsWellFormed m
      → (sent : Sent) × (task (parse_service Parser) ps (job_message m) ≡ ok (ps, sent))
        × All IsReadableSent sent
  unfolding task handle_parse
  parse_ready ps m w =
      let (id, read, _, _) = read_c_string_ok m.job_id w.id_terminated in
      elim (process_job_lem Parser m ps) [
        | inl (p, _, e) ↦ (
          send_to parse_senders (codes "qm") (job_message (record m { status = done })),
          rw (read, e),
          send_to_readable parse_senders (codes "qm") (record m { status = done })
              (restated m done w),
        )
        | inr (_, e) ↦ (
          send_to parse_senders (codes "qm") (job_message (record m { status = failed })),
          rw (read, e),
          send_to_readable parse_senders (codes "qm") (record m { status = failed })
              (restated m failed w),
        )
      ]

  pub detect_ready :
      (ds : List FileDetector) (m : FileJobShm)
      → IsWellFormed m
      → All IsDefined ds
      → (sent : Sent) × (task detect_service ds (job_message m) ≡ ok (ds, sent))
        × All IsReadableSent sent
  unfolding task handle_detect
  detect_ready ds m w h =
      let (id, id_read, _, _) = read_c_string_ok m.job_id w.id_terminated in
      let (path, path_read, _, _) = read_c_string_ok m.path w.path_terminated in
      go id path id_read path_read (detect_file tt ds path) refl
    where
      go :
          (id path : Bytes)
          → read_c_string m.job_id ≡ ok id
          → read_c_string m.path ≡ ok path
          → (r : Result (DetectionResult Unit)) → detect_file tt ds path ≡ r
          → (sent : Sent) × (task detect_service ds (job_message m) ≡ ok (ds, sent))
            × All IsReadableSent sent
      go id path id_read path_read (ok r) e = (
        send_to detect_senders (codes "qm") (job_message (detected_job m r.mime_type)),
        rw (id_read, path_read, e),
        send_to_readable detect_senders (codes "qm") (detected_job m r.mime_type)
            (detected m r.mime_type w),
      )
      go id path id_read path_read (thrown what) e = ([], rw (id_read, path_read, e), tt)
      go id path id_read path_read undefined e = absurd (detect_file_defined ds path h e)

  put-IsSound :
      (n : Net F Parser) (queue : Bytes) (m : IpcMessage)
      → IsReadable m
      → IsSound n
      → IsSound (put F Parser n queue m)
  unfolding put
  put-IsSound n queue m w s = elim (Bool-cases (eq_bytes queue qm_queue)) [
    | inl to_qm ↦ rw to_qm (record {
      qm_readable = All-append IsReadable n.qm_inbox (m ∷ []) s.qm_readable (w, tt);
      detect_readable = s.detect_readable;
      parse_readable = s.parse_readable;
      detectors_defined = s.detectors_defined;
    })
    | inr other ↦ rw other (elim (Bool-cases (eq_bytes queue detect_queue)) [
      | inl to_detect ↦ rw to_detect (record {
        qm_readable = s.qm_readable;
        detect_readable = All-append IsReadable n.detect_inbox (m ∷ []) s.detect_readable (w, tt);
        parse_readable = s.parse_readable;
        detectors_defined = s.detectors_defined;
      })
      | inr rest ↦ rw rest (elim (Bool-cases (eq_bytes queue parse_queue)) [
        | inl to_parse ↦ rw to_parse (record {
          qm_readable = s.qm_readable;
          detect_readable = s.detect_readable;
          parse_readable = All-append IsReadable n.parse_inbox (m ∷ []) s.parse_readable (w, tt);
          detectors_defined = s.detectors_defined;
        })
        | inr lost ↦ rw lost s
      ])
    ])
  ]

  deliver-IsSound :
      (n : Net F Parser) (sent : Sent)
      → All IsReadableSent sent
      → IsSound n
      → IsSound (deliver F Parser n sent)
  unfolding deliver
  deliver-IsSound n [] w s = s
  deliver-IsSound n ((queue, m) ∷ sent) w s =
      deliver-IsSound (put F Parser n queue m) sent w.1 (put-IsSound n queue m w.0 s)

  -- The message that stands in a queue, and the others.
  pub picked :
      (queue before after : List IpcMessage) (m : IpcMessage)
      → queue ≡ before ++ m ∷ after
      → All IsReadable queue
      → IsReadable m × All IsReadable (before ++ after)
  picked queue before after m stood h = All-removed IsReadable before after m (rw stood at h)

  pub Step-IsSound : {n u : Net F Parser} → IsSound n → Step F Parser n u → IsSound u
  Step-IsSound {n} {u} s (qm_takes before after job q sent stood did e) =
      let (readable, others) =
        picked n.qm_inbox before after (job_message job) stood s.qm_readable in
      let (q', out, handled, sent_ok) = qm_ready n.qm job readable in
      let same : out ≡ sent = cc handled in
      rw e (
        deliver-IsSound (record n { qm_inbox = before ++ after; qm = q }) sent (rw (← same) sent_ok)
          (record {
            qm_readable = others;
            detect_readable = s.detect_readable;
            parse_readable = s.parse_readable;
            detectors_defined = s.detectors_defined;
          }))
  Step-IsSound {n} {u} s (detect_takes before after job ds sent stood did e) =
      let (readable, others) =
        picked n.detect_inbox before after (job_message job) stood s.detect_readable in
      let (out, handled, sent_ok) = detect_ready n.detectors job readable s.detectors_defined in
      let same : out ≡ sent = cc handled in
      let kept : n.detectors ≡ ds = cc handled in
      rw e (
        deliver-IsSound (record n { detect_inbox = before ++ after; detectors = ds }) sent
          (rw (← same) sent_ok)
          (record {
            qm_readable = s.qm_readable;
            detect_readable = others;
            parse_readable = s.parse_readable;
            detectors_defined = rw (← kept) s.detectors_defined;
          }))
  Step-IsSound {n} {u} s (parse_takes before after job ps sent stood did e) =
      let (readable, others) =
        picked n.parse_inbox before after (job_message job) stood s.parse_readable in
      let (out, handled, sent_ok) = parse_ready n.registry job readable in
      let same : out ≡ sent = cc handled in
      rw e (
        deliver-IsSound (record n { parse_inbox = before ++ after; registry = ps }) sent
          (rw (← same) sent_ok)
          (record {
            qm_readable = s.qm_readable;
            detect_readable = s.detect_readable;
            parse_readable = others;
            detectors_defined = s.detectors_defined;
          }))

  -- A handler that comes to an end on this message: it reads within the arrays.
  abbrev pub Comes : {S : Type 0} → (IpcMessage → Result (S × Sent)) → IpcMessage → Type 0
  Comes {S} f m = (r : S × Sent) × (f m ≡ ok r)

  -- So does every service on every message of its queue.
  pub record IsSafe (n : Net F Parser) : Type 0 where
    pub qm_safe : All (Comes (task (qm_service F) n.qm)) n.qm_inbox
    pub detect_safe : All (Comes (task detect_service n.detectors)) n.detect_inbox
    pub parse_safe : All (Comes (task (parse_service Parser) n.registry)) n.parse_inbox

  All-Comes :
      {S : Type 0} (f : IpcMessage → Result (S × Sent))
      → ((m : FileJobShm) → IsWellFormed m → Comes f (job_message m))
      → (ms : List IpcMessage) → All IsReadable ms
      → All (Comes f) ms
  All-Comes f comes [] h = tt
  All-Comes f comes (job_message m ∷ ms) h = (comes m h.0, All-Comes f comes ms h.1)
  All-Comes f comes (poison_pill ∷ ms) h = absurd h.0

  IsSound-IsSafe : (n : Net F Parser) → IsSound n → IsSafe n
  IsSound-IsSafe n s = record {
    qm_safe =
        All-Comes (task (qm_service F) n.qm)
          (λ m w. let (q, sent, did, _) = qm_ready n.qm m w in ((q, sent), did)) n.qm_inbox
          s.qm_readable;
    detect_safe =
        All-Comes (task detect_service n.detectors)
          (λ m w.
            let (sent, did, _) = detect_ready n.detectors m w s.detectors_defined in
            ((n.detectors, sent), did))
          n.detect_inbox s.detect_readable;
    parse_safe =
        All-Comes (task (parse_service Parser) n.registry)
          (λ m w. let (sent, did, _) = parse_ready n.registry m w in ((n.registry, sent), did))
          n.parse_inbox s.parse_readable;
  }

  Run-IsSound :
      {n : Net F Parser} {k : ℕ} {u : Net F Parser} → IsSound n → Run F Parser n k u → IsSound u
  Run-IsSound s here = s
  Run-IsSound s (next r step) = Step-IsSound (Run-IsSound s r) step

  -- From a network with jobs whose arrays end in NUL and no pill on its queues, and with detectors that
  -- answer or throw, every network that a run comes to is so again, and whatever message of whatever
  -- queue a service takes there, its handler comes to an end without undefined behaviour, so it never
  -- reads past an array.
  pub Run-IsSafe :
      {n : Net F Parser} {k : ℕ} {u : Net F Parser}
      → IsSound n
      → Run F Parser n k u
      → IsSound u × IsSafe u
  Run-IsSafe s r = let t = Run-IsSound s r in (t, IsSound-IsSafe _ t)
