-- ===== src/Network/Threads/Simulation.antt =====
-- The services with threads and bounded queues do nothing that the services which take any message of a
-- queue do not: a turn that handles a job is a step of those, and the other turns change nothing there.
use file_inspect_key_analyse.Base.{
  ℕ, suc, ◌+◌, ◌≤◌, ◌<◌, List, ◌∷◌, ◌++◌, if◌then◌else◌, ◌≡◌, refl, sym, ap, ◌∙◌, ◌⊎◌, inl, inr,
  arith, ok,
}
use file_inspect_key_analyse.Network.Threads.{
  ServiceId, qm_id, detect_id, parse_id, same, addressed, Outgoing, modify, received, handled,
  freed, enqueued, State, System, task_of, set_state, Turn, receives, handles, sends, Turns, begun,
  turned,
}
use file_inspect_key_analyse.Global.FileJob.{FileJobShm, IpcMessage, job_message}
use file_inspect_key_analyse.Global.Service.{Sent}
use file_inspect_key_analyse.Util.Pickup.{FileSystem}
use file_inspect_key_analyse.Network.{
  Net, deliver, Step, qm_takes, detect_takes, parse_takes, Run, here, next,
}
use file_inspect_key_analyse.Network.Threads.Count.{
  one, one_refl, count, tally, count-append, tally-append, tally-split,
}
use file_inspect_key_analyse.Network.Threads.Shows.{
  work-modify, own-received, own-handled, own-freed, own-enqueued, inbox_at, state_at, Shows,
  deliver-addressed,
}
use file_inspect_key_analyse.Network.Threads.Limits.{
  debt, debt-received, debt-sent, debt-handled, length_of_brief, task_of-IsBrief,
}

module _ (F : FileSystem) (Parser : Type 0) where
  -- The network whose service has taken a message out.
  abbrev taken_at :
      (x : ServiceId) → List IpcMessage → State F Parser x → Net F Parser → Net F Parser
  taken_at qm_id rest state n = record n { qm_inbox = rest; qm = state }
  taken_at detect_id rest state n = record n { detect_inbox = rest; detectors = state }
  taken_at parse_id rest state n = record n { parse_inbox = rest; registry = state }

  step_at :
      (x : ServiceId) (n : Net F Parser) (before after : List IpcMessage) (job : FileJobShm)
      (state : State F Parser x) (sent : Sent)
      → inbox_at F Parser x n ≡ before ++ job_message job ∷ after
      → task_of F Parser x (state_at F Parser x n) job ≡ ok (state, sent)
      → Step F Parser n (deliver F Parser (taken_at x (before ++ after) state n) sent)
  step_at qm_id n before after job state sent stood did =
      qm_takes before after job state sent stood did refl
  step_at detect_id n before after job state sent stood did =
      detect_takes before after job state sent stood did refl
  step_at parse_id n before after job state sent stood did =
      parse_takes before after job state sent stood did refl

  removed :
      (before after : List IpcMessage) (job other : FileJobShm) (queue : List IpcMessage)
      → queue ≡ before ++ job_message job ∷ after
      → tally other (before ++ after) + one other job ≡ tally other queue
  removed before after job other queue e = rw e (
      omega (
        arith,
        tally-append other before (job_message job ∷ after),
        tally-append other before after,
      ))

  tally-taken_at :
      (x y : ServiceId) (n : Net F Parser) (before after : List IpcMessage) (job other : FileJobShm)
      (state : State F Parser x)
      → inbox_at F Parser x n ≡ before ++ job_message job ∷ after
      → tally other (inbox_at F Parser y (taken_at x (before ++ after) state n))
          + (if same x y then one other job else 0)
        ≡ tally other (inbox_at F Parser y n)
  tally-taken_at qm_id qm_id n before after job other state e =
      removed before after job other n.qm_inbox e
  tally-taken_at detect_id detect_id n before after job other state e =
      removed before after job other n.detect_inbox e
  tally-taken_at parse_id parse_id n before after job other state e =
      removed before after job other n.parse_inbox e
  tally-taken_at _ _ n before after job other state e = omega arith

  state_at-taken_at :
      (x y : ServiceId) (n : Net F Parser) (rest : List IpcMessage) (state : State F Parser x)
      (states : (z : ServiceId) → State F Parser z)
      → ((z : ServiceId) → states z ≡ state_at F Parser z n)
      → set_state F Parser x state states y ≡ state_at F Parser y (taken_at x rest state n)
  state_at-taken_at qm_id qm_id n rest state states h = refl
  state_at-taken_at detect_id detect_id n rest state states h = refl
  state_at-taken_at parse_id parse_id n rest state states h = refl
  state_at-taken_at _ qm_id n rest state states h = h qm_id
  state_at-taken_at _ detect_id n rest state states h = h detect_id
  state_at-taken_at _ parse_id n rest state states h = h parse_id

  -- The work for a service whose node has just been changed, against what the node had of it.
  Shows-received :
      (s : System F Parser) (n : Net F Parser) (x : ServiceId) (m : IpcMessage)
      (later : List IpcMessage)
      → (s.nodes x).inbox ≡ m ∷ later
      → Shows F Parser s n
      → Shows F Parser (record s { nodes = modify x (received m later) s.nodes }) n
  Shows-received s n x m later stood h = record {
    same_work = λ y job. omega (
      arith,
      h.same_work y job,
      work-modify x y job (received m later) s.nodes,
      own-received x y job m later (s.nodes x) stood,
    );
    same_state = h.same_state;
  }

  Shows-sent :
      (s : System F Parser) (n : Net F Parser) (x y : ServiceId) (before after : List Outgoing)
      (m : IpcMessage)
      → (s.nodes x).sending ≡ before ++ (y, m) ∷ after
      → Shows F Parser s n
      → Shows F Parser
          (record s { nodes = modify y (enqueued m) (modify x (freed (before ++ after)) s.nodes) })
          n
  Shows-sent s n x y before after m stood h = record {
    same_work = λ z job.
        let between = modify x (freed (before ++ after)) s.nodes in
        omega (
          arith,
          h.same_work z job,
          work-modify x z job (freed (before ++ after)) s.nodes,
          own-freed x z y job before after m (s.nodes x) stood,
          work-modify y z job (enqueued m) between,
          own-enqueued y z job m (between y),
        );
    same_state = h.same_state;
  }

  Shows-handled :
      (s : System F Parser) (n : Net F Parser) (x : ServiceId) (before after : List FileJobShm)
      (job : FileJobShm) (state : State F Parser x) (sent : Sent) (b a : List IpcMessage)
      → (s.nodes x).posted ≡ before ++ job ∷ after
      → inbox_at F Parser x n ≡ b ++ job_message job ∷ a
      → Shows F Parser s n
      → Shows F Parser
          (record {
            nodes = modify x (handled (before ++ after) sent) s.nodes;
            states = set_state F Parser x state s.states;
          })
          (deliver F Parser (taken_at x (b ++ a) state n) sent)
  Shows-handled s n x before after job state sent b a posted stood h = record {
    same_work = λ y other. omega (
      arith,
      h.same_work y other,
      work-modify x y other (handled (before ++ after) sent) s.nodes,
      own-handled x y other job before after sent (s.nodes x) posted,
      tally-taken_at x y n b a job other state stood,
      (deliver-addressed F Parser y other sent (taken_at x (b ++ a) state n)).0,
    );
    same_state = λ y.
        state_at-taken_at x y n (b ++ a) state s.states h.same_state
        ∙ sym ((deliver-addressed F Parser y job sent (taken_at x (b ++ a) state n)).1);
  }

  -- A job that is posted stands in the queue of the network that is shown.
  pub posted_stands :
      (s : System F Parser) (n : Net F Parser) (x : ServiceId) (before after : List FileJobShm)
      (job : FileJobShm)
      → (s.nodes x).posted ≡ before ++ job ∷ after
      → Shows F Parser s n
      → (b a : List IpcMessage) × (inbox_at F Parser x n ≡ b ++ job_message job ∷ a)
  posted_stands s n x before after job posted h = tally-split job (inbox_at F Parser x n) (
      omega (
        arith,
        h.same_work x job,
        one_refl job,
        count-append job before (job ∷ after),
        ap (count job) posted,
      ))

  module _ (threads capacity : ℕ) where
    -- A turn that handles a job is a step; any other lessens the debt.
    pub Turn-simulates :
        (s u : System F Parser) (n : Net F Parser)
        → Turn F Parser threads capacity s u
        → Shows F Parser s n
        → (t : Net F Parser) × Shows F Parser u t
          × (((t ≡ n) × (debt u.nodes < debt s.nodes))
              ⊎ (Step F Parser n t × (debt u.nodes ≤ debt s.nodes + 2)))
    Turn-simulates s u n (receives x m later up stood e) h = (
      n,
      rw e (Shows-received s n x m later stood h),
      inl (refl, rw e (debt-received x m later s.nodes stood)),
    )
    Turn-simulates s u n (sends x y before after m stood room e) h = (
      n,
      rw e (Shows-sent s n x y before after m stood h),
      inl (refl, rw e (debt-sent x y before after m s.nodes stood)),
    )
    Turn-simulates s u n (handles x before after job state sent free posted did e) h =
        let (b, a, stood) = posted_stands s n x before after job posted h in
        (
          deliver F Parser (taken_at x (b ++ a) state n) sent,
          rw e (Shows-handled s n x before after job state sent b a posted stood h),
          inr (
            step_at x n b a job state sent stood (rw (h.same_state x) at did),
            rw e (
                debt-handled x (before ++ after) sent s.nodes (
                  length_of_brief (addressed sent)
                    (task_of-IsBrief F Parser x (s.states x) state job sent did))),
          ),
        )

    -- Whatever the services with threads do from a system that shows a network, in any interleaving and
    -- whatever their queues hold, the services that take any message do too, in as many steps at most,
    -- and what they reach is shown.
    pub Turns-Run :
        {s u : System F Parser} {k : ℕ} (n : Net F Parser)
        → Shows F Parser s n
        → Turns F Parser threads capacity s k u
        → (j : ℕ) × (t : Net F Parser) × Run F Parser n j t × Shows F Parser u t × (j ≤ k)
    Turns-Run n h begun = (0, n, here, h, omega arith)
    Turns-Run {s} {u} n h (turned {k} {t = mid} turns turn) =
        let (j, t, r, shown, few) = Turns-Run n h turns in
        let (t', shown', moved) = Turn-simulates mid u t turn shown in
        elim moved [
          | inl (equal, _) ↦ (j, t, r, rw equal at shown', omega arith)
          | inr (step, _) ↦ (suc j, t', next r step, shown', omega arith)
        ]
