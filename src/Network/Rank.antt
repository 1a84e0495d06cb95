-- ===== src/Network/Rank.antt =====
-- How many steps a message has still before it at most, by the queue that it stands on, and that a
-- service answers a message with less.
use native.Mathlib.Nat.{add-zero}
use file_inspect_key_analyse.Base.{
  ℕ, ◌+◌, ◌≤◌, ◌<◌, Bytes, codes, eq_bytes, List, [], ◌∷◌, ◌++◌, if◌then◌else◌, ◌≡◌, refl, arith,
  lookup,
}
use file_inspect_key_analyse.Global.FileJob.{
  FileJob, FileJobShm, Status, new, detecting, parsing, done, failed, JobType, detector, parser,
  no_type, empty_job_shm, from_file_job, IpcMessage, job_message, poison_pill,
}
use file_inspect_key_analyse.Global.Service.{Senders, Sent, send_to}
use file_inspect_key_analyse.Queues.{qm_queue, detect_queue, parse_queue}
use file_inspect_key_analyse.Qm.Handler.{qm_senders}
use file_inspect_key_analyse.Util.Pickup.{FileSystem}
use file_inspect_key_analyse.Detect.Handler.{detect_senders}
use file_inspect_key_analyse.Qm.{Qm, queue_of, handle_event, add_job, on_status}
use file_inspect_key_analyse.Qm.StateMachine.{apply}
use file_inspect_key_analyse.Queues.{names}
use file_inspect_key_analyse.Network.{Net, put, deliver}

abbrev pub qm_rank : IpcMessage → ℕ
qm_rank poison_pill = 0
qm_rank (job_message job) = elim job.status [
  | new ↦ 6
  | detecting ↦ 4
  | parsing ↦ 6
  | done ↦ 1
  | failed ↦ 1
]

abbrev pub detect_rank : IpcMessage → ℕ
detect_rank poison_pill = 0
detect_rank (job_message job) = 5

abbrev pub parse_rank : IpcMessage → ℕ
parse_rank poison_pill = 0
parse_rank (job_message job) = 3

abbrev pub total : (IpcMessage → ℕ) → List IpcMessage → ℕ
total rank [] = 0
total rank (m ∷ ms) = rank m + total rank ms

pub total-append :
    (rank : IpcMessage → ℕ) (xs ys : List IpcMessage)
    → total rank (xs ++ ys) ≡ total rank xs + total rank ys
total-append rank [] ys = omega arith
total-append rank (x ∷ xs) ys = omega (arith, total-append rank xs ys)

-- The rank of a message by the name of its queue.
unfoldable pub placed_rank : Bytes → IpcMessage → ℕ
placed_rank queue m =
    if eq_bytes queue qm_queue
    then qm_rank m
    else if eq_bytes queue detect_queue
    then detect_rank m
    else if eq_bytes queue parse_queue
    then parse_rank m
    else 0

abbrev pub sent_rank : Sent → ℕ
sent_rank [] = 0
sent_rank ((queue, m) ∷ sent) = placed_rank queue m + sent_rank sent

to_detect : (m : FileJobShm) → sent_rank (send_to qm_senders (codes "detect") (job_message m)) ≡ 5
unfolding send_to qm_senders lookup eq_bytes placed_rank names
to_detect m = refl

to_parse : (m : FileJobShm) → sent_rank (send_to qm_senders (codes "parse") (job_message m)) ≡ 3
unfolding send_to qm_senders lookup eq_bytes placed_rank names
to_parse m = refl

-- Every job has a step before it.
pub qm_rank_pos : (m : FileJobShm) → 0 < qm_rank (job_message m)
qm_rank_pos m = ground arith

pub to_qm :
    (senders : Senders) (m : FileJobShm)
    → senders ≡ detect_senders
    → sent_rank (send_to senders (codes "qm") (job_message m)) ≡ qm_rank (job_message m)
unfolding send_to detect_senders lookup eq_bytes placed_rank names
to_qm senders m e = rw e (add-zero (qm_rank (job_message m)))

to_nobody :
    (m : FileJobShm)
    → (sent_rank (send_to qm_senders (codes "fail") (job_message m)) ≡ 0)
      × (sent_rank (send_to qm_senders (codes "null_sender") (job_message m)) ≡ 0)
      × (sent_rank (send_to qm_senders [] (job_message m)) ≡ 0)
unfolding send_to qm_senders lookup eq_bytes placed_rank names
to_nobody m = (refl, refl, refl)

queue_of_rank :
    (t : JobType) (m : FileJobShm) → sent_rank (send_to qm_senders (queue_of t) (job_message m)) ≤ 5
unfolding queue_of
queue_of_rank detector m = omega (arith, to_detect m)
queue_of_rank parser m = omega (arith, to_parse m)
queue_of_rank no_type m = omega (arith, to_nobody m)

module _ (F : FileSystem) (Parser : Type 0) where
  abbrev pub weight : Net F Parser → ℕ
  weight n =
      total qm_rank n.qm_inbox + total detect_rank n.detect_inbox + total parse_rank n.parse_inbox

  weight-put :
      (n : Net F Parser) (queue : Bytes) (m : IpcMessage)
      → weight (put F Parser n queue m) ≡ weight n + placed_rank queue m
  unfolding put placed_rank
  weight-put n queue m = ground (
    arith,
    total-append qm_rank n.qm_inbox (m ∷ []),
    total-append detect_rank n.detect_inbox (m ∷ []),
    total-append parse_rank n.parse_inbox (m ∷ []),
  )

  pub weight-deliver :
      (n : Net F Parser) (sent : Sent)
      → weight (deliver F Parser n sent) ≡ weight n + sent_rank sent
  unfolding deliver
  weight-deliver n [] = omega arith
  weight-deliver n ((queue, m) ∷ sent) =
      omega (arith, weight-deliver (put F Parser n queue m) sent, weight-put n queue m)

  pub on_status_rank :
      (s : Status) (q : Qm F) (m : FileJobShm) (job : FileJob)
      → let r = on_status F s q m (record job { status = s }) in
        sent_rank (send_to qm_senders r.1.0 (job_message r.1.1))
        < qm_rank (job_message (record m { status = s }))
  unfolding on_status add_job handle_event apply
  on_status_rank new q m job = rw to_detect (omega arith)
  on_status_rank detecting q m job = rw to_parse (omega arith)
  on_status_rank parsing q m job =
      omega (arith, queue_of_rank job.type (from_file_job (record job { status = done })))
  on_status_rank done q m job = omega (arith, to_nobody empty_job_shm)
  on_status_rank failed q m job = omega (arith, to_nobody m)
