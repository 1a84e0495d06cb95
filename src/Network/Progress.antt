-- ===== src/Network/Progress.antt =====
-- While a job is left, and no pill, some service can take it, so the network works until none is left.
use file_inspect_key_analyse.Base.{
  ℕ, zero, suc, ◌≤◌, ◌<◌, List, [], ◌∷◌, ◌++◌, All, ◌≡◌, refl, ap, ◌⊎◌, inl, inr, arith,
}
use file_inspect_key_analyse.Global.FileJob.{FileJobShm, IpcMessage, job_message, poison_pill}
use file_inspect_key_analyse.Util.Pickup.{FileSystem}
use file_inspect_key_analyse.Network.{
  Net, Step, qm_takes, detect_takes, parse_takes, Run, here, next,
}
use file_inspect_key_analyse.Network.Rank.{
  qm_rank, detect_rank, parse_rank, total, qm_rank_pos, weight,
}
use file_inspect_key_analyse.Network.Termination.{Step-weight, Run-weight}
use file_inspect_key_analyse.Network.Safety.{
  IsSound, Step-IsSound, IsReadable, picked, qm_ready, detect_ready, parse_ready,
}

pub zero_or_pos : (k : ℕ) → (k ≡ 0) ⊎ (0 < k)
zero_or_pos zero = inl refl
zero_or_pos (suc k) = inr (omega arith)

module _ (rank : IpcMessage → ℕ) (pill : rank poison_pill ≡ 0) where
  -- A queue of some rank holds a job.
  find_job :
      (queue : List IpcMessage)
      → 0 < total rank queue
      → (before after : List IpcMessage) × (job : FileJobShm) × (queue
          ≡ before ++ job_message job ∷ after)
  find_job [] h = absurd (omega arith)
  find_job (job_message job ∷ queue) h = ([], queue, job, refl)
  find_job (poison_pill ∷ queue) h =
      let (before, after, job, stood) = find_job queue (omega (arith, pill)) in
      (poison_pill ∷ before, after, job, ap (◌∷◌ poison_pill) stood)

module _ (rank : IpcMessage → ℕ) (pos : (m : FileJobShm) → 0 < rank (job_message m)) where
  nothing_left :
      (queue : List IpcMessage) → All IsReadable queue → total rank queue ≡ 0 → queue ≡ []
  nothing_left [] r h = refl
  nothing_left (job_message m ∷ queue) r h = absurd (omega (arith, pos m))
  nothing_left (poison_pill ∷ queue) r h = absurd r.0

module _ (F : FileSystem) (Parser : Type 0) where
  -- No job is left on any queue.
  pub record IsIdle (n : Net F Parser) : Type 0 where
    qm_idle : n.qm_inbox ≡ []
    detect_idle : n.detect_inbox ≡ []
    parse_idle : n.parse_inbox ≡ []

  weight-IsIdle : (n : Net F Parser) → IsSound F Parser n → weight F Parser n ≡ 0 → IsIdle n
  weight-IsIdle n s h = record {
    qm_idle = nothing_left qm_rank qm_rank_pos n.qm_inbox s.qm_readable (omega arith);
    detect_idle =
        nothing_left detect_rank (λ m. omega arith) n.detect_inbox s.detect_readable (omega arith);
    parse_idle =
        nothing_left parse_rank (λ m. omega arith) n.parse_inbox s.parse_readable (omega arith);
  }

  qm-Step :
      (n : Net F Parser)
      → IsSound F Parser n
      → 0 < total qm_rank n.qm_inbox
      → (u : Net F Parser) × Step F Parser n u
  qm-Step n s h =
      let (before, after, job, stood) = find_job qm_rank refl n.qm_inbox h in
      let (readable, _) =
        picked F Parser n.qm_inbox before after (job_message job) stood s.qm_readable in
      let (q, sent, did, _) = qm_ready F Parser n.qm job readable in
      (_, qm_takes before after job q sent stood did refl)

  detect-Step :
      (n : Net F Parser)
      → IsSound F Parser n
      → 0 < total detect_rank n.detect_inbox
      → (u : Net F Parser) × Step F Parser n u
  detect-Step n s h =
      let (before, after, job, stood) = find_job detect_rank refl n.detect_inbox h in
      let (readable, _) =
        picked F Parser n.detect_inbox before after (job_message job) stood s.detect_readable in
      let (sent, did, _) = detect_ready F Parser n.detectors job readable s.detectors_defined in
      (_, detect_takes before after job n.detectors sent stood did refl)

  parse-Step :
      (n : Net F Parser)
      → IsSound F Parser n
      → 0 < total parse_rank n.parse_inbox
      → (u : Net F Parser) × Step F Parser n u
  parse-Step n s h =
      let (before, after, job, stood) = find_job parse_rank refl n.parse_inbox h in
      let (readable, _) =
        picked F Parser n.parse_inbox before after (job_message job) stood s.parse_readable in
      let (sent, did, _) = parse_ready F Parser n.registry job readable in
      (_, parse_takes before after job n.registry sent stood did refl)

  -- Where a job is left, some service can take a step.
  Step-progress :
      (n : Net F Parser) → IsSound F Parser n → IsIdle n ⊎ ((u : Net F Parser) × Step F Parser n u)
  Step-progress n s = elim (zero_or_pos (total qm_rank n.qm_inbox)) [
    | inr busy ↦ inr (qm-Step n s busy)
    | inl a ↦ elim (zero_or_pos (total detect_rank n.detect_inbox)) [
      | inr busy ↦ inr (detect-Step n s busy)
      | inl b ↦ elim (zero_or_pos (total parse_rank n.parse_inbox)) [
        | inr busy ↦ inr (parse-Step n s busy)
        | inl c ↦ inl (weight-IsIdle n s (omega arith))
      ]
    ]
  ]

  drain :
      (fuel : ℕ) {n : Net F Parser} (t : Net F Parser) {k : ℕ}
      → Run F Parser n k t
      → IsSound F Parser t
      → weight F Parser t < fuel
      → (k : ℕ) × (u : Net F Parser) × Run F Parser n k u × IsIdle u
  drain zero t r s h = absurd (omega arith)
  drain (suc fuel) t {k} r s h = elim (Step-progress t s) [
    | inl idle ↦ (k, t, r, idle)
    | inr (u, step) ↦
        drain fuel u (next r step) (Step-IsSound F Parser s step)
          (omega (arith, Step-weight F Parser step))
  ]

  -- From any network with jobs that can be read and no pill on its queues, and with detectors that
  -- answer or throw, the services reach one whose queues are empty; every run there is, in whatever
  -- order, is at most as long as the weight at its start, which is six for each new job.
  pub Run-drains :
      (n : Net F Parser)
      → IsSound F Parser n
      → ((k : ℕ) × (u : Net F Parser) × Run F Parser n k u × IsIdle u)
        × ((k : ℕ) (u : Net F Parser) → Run F Parser n k u → k ≤ weight F Parser n)
  Run-drains n s = (
    drain (suc (weight F Parser n)) n here s (omega arith),
    λ k u r. omega (arith, Run-weight F Parser r),
  )
