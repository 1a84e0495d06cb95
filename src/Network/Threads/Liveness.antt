-- ===== src/Network/Threads/Liveness.antt =====
-- The services never wait for one another in a circle: while a job is left some thread can take a turn,
-- although queues are bounded and threads wait to send, because a receiving thread never sends.
use file_inspect_key_analyse.Base.{
  ℕ, ◌+◌, ◌≤◌, ◌<◌, ◌*◌, true, List, [], ◌∷◌, ◌++◌, All, All-append, All-removed, ◌≡◌, ◌⊎◌, inl,
  inr, arith, ok,
}
use file_inspect_key_analyse.Network.Threads.{
  ServiceId, qm_id, detect_id, parse_id, addressed, Outgoing, Node, modify, received, handled,
  freed, enqueued, State, System, task_of, Turn, receives, handles, sends, Turns, begun, turned,
}
use file_inspect_key_analyse.Global.FileJob.{FileJobShm, IpcMessage, job_message, poison_pill}
use file_inspect_key_analyse.Global.Service.{Sent}
use file_inspect_key_analyse.Global.FileJob.RoundTrip.{IsWellFormed}
use file_inspect_key_analyse.Util.Pickup.{FileSystem}
use file_inspect_key_analyse.Network.{Net}
use file_inspect_key_analyse.Network.Rank.{weight}
use file_inspect_key_analyse.Network.Termination.{Step-weight}
use file_inspect_key_analyse.Network.Safety.{
  IsSound, Step-IsSound, IsReadable, qm_ready, detect_ready, parse_ready,
}
use file_inspect_key_analyse.Network.Threads.Limits.{IsBrief, task_of-IsBrief, modify-keeps, debt}
use file_inspect_key_analyse.Network.Threads.Shows.{Shows, inbox_at, state_at}
use file_inspect_key_analyse.Network.Threads.Simulation.{Turn-simulates}

abbrev pub IsJob : IpcMessage → Type 0
IsJob (job_message job) = Unit
IsJob poison_pill = ⊥

abbrev pub IsJobOut : Outgoing → Type 0
IsJobOut (y, m) = IsJob m

-- The service runs, and no pill is on its way to it or from it.
abbrev pub IsOpen : Node → Type 0
IsOpen n = (n.running ≡ true) × All IsJob n.inbox × All IsJobOut n.sending

-- Nothing is left to be done.
abbrev pub IsQuiet : Node → Type 0
IsQuiet n = (n.inbox ≡ []) × (n.posted ≡ []) × (n.sending ≡ [])

brief_jobs : (outs : List Outgoing) → IsBrief outs → All IsJobOut outs
brief_jobs [] h = tt
brief_jobs ((y, job_message job) ∷ []) h = (tt, tt)
brief_jobs ((y, poison_pill) ∷ []) h = absurd h
brief_jobs ((y, job_message job) ∷ o ∷ os) h = absurd h
brief_jobs ((y, poison_pill) ∷ o ∷ os) h = absurd h

received-IsOpen :
    (m : IpcMessage) (later : List IpcMessage) (n : Node)
    → n.inbox ≡ m ∷ later
    → IsOpen n
    → IsOpen (received m later n)
received-IsOpen (job_message job) later n e (up, jobs, out) = (up, (rw e at jobs).1, out)
received-IsOpen poison_pill later n e (up, jobs, out) = absurd ((rw e at jobs).0)

-- What holds of every service, or something else of one.
pub first_of :
    (P : ServiceId → Type 0) {Q : Type 0}
    → ((x : ServiceId) → P x ⊎ Q)
    → ((x : ServiceId) → P x) ⊎ Q
first_of P decide = elim (decide qm_id) [
  | inr q ↦ inr q
  | inl a ↦ elim (decide detect_id) [
    | inr q ↦ inr q
    | inl b ↦ elim (decide parse_id) [ inr q ↦ inr q | inl c ↦ inl (each a b c) ]
  ]
]
  where
    each : P qm_id → P detect_id → P parse_id → (x : ServiceId) → P x
    each a b c qm_id = a
    each a b c detect_id = b
    each a b c parse_id = c

module _ (F : FileSystem) (Parser : Type 0) where
  pub ready :
      (x : ServiceId) (n : Net F Parser) (job : FileJobShm)
      → IsSound F Parser n
      → IsWellFormed job
      → (r : State F Parser x × Sent) × (task_of F Parser x (state_at F Parser x n) job ≡ ok r)
  ready qm_id n job s w = let (q, sent, did, _) = qm_ready F Parser n.qm job w in ((q, sent), did)
  ready detect_id n job s w =
      let (sent, did, _) = detect_ready F Parser n.detectors job w s.detectors_defined in
      ((n.detectors, sent), did)
  ready parse_id n job s w =
      let (sent, did, _) = parse_ready F Parser n.registry job w in ((n.registry, sent), did)

  pub IsReadable-inbox_at :
      (x : ServiceId) (n : Net F Parser)
      → IsSound F Parser n
      → All IsReadable (inbox_at F Parser x n)
  IsReadable-inbox_at qm_id n s = s.qm_readable
  IsReadable-inbox_at detect_id n s = s.detect_readable
  IsReadable-inbox_at parse_id n s = s.parse_readable

  module _ (threads capacity : ℕ) where
    pub Turn-IsOpen :
        {s u : System F Parser}
        → ((x : ServiceId) → IsOpen (s.nodes x))
        → Turn F Parser threads capacity s u
        → (x : ServiceId) → IsOpen (u.nodes x)
    Turn-IsOpen {s} open_all (receives x m later up stood e) = rw e (
        modify-keeps IsOpen x (received m later) s.nodes
          (received-IsOpen m later (s.nodes x) stood (open_all x)) open_all)
    Turn-IsOpen {s} open_all (handles x before after job state sent free posted did e) =
        let (up, jobs, out) = open_all x in
        let new =
          brief_jobs (addressed sent)
            (task_of-IsBrief F Parser x (s.states x) state job sent did) in
        rw e (
          modify-keeps IsOpen x (handled (before ++ after) sent) s.nodes
            (up, jobs, All-append IsJobOut (s.nodes x).sending (addressed sent) out new) open_all)
    Turn-IsOpen {s} open_all (sends x y before after m stood room e) =
        let (up, jobs, out) = open_all x in
        let (job, others) = All-removed IsJobOut before after (y, m) (rw stood at out) in
        let nodes = modify x (freed (before ++ after)) s.nodes in
        let between =
          modify-keeps IsOpen x (freed (before ++ after)) s.nodes (up, jobs, others) open_all in
        let (up', jobs', out') = between y in
        rw e (
          modify-keeps IsOpen y (enqueued m) nodes
            (up', All-append IsJob (nodes y).inbox (m ∷ []) jobs' (job, tt), out') between)

    -- One turn costs something, also of the network that is shown.
    pub Turn-cost :
        (s u : System F Parser) (n : Net F Parser)
        → Turn F Parser threads capacity s u
        → Shows F Parser s n
        → (t : Net F Parser) × Shows F Parser u t
          × (IsSound F Parser n → IsSound F Parser t)
          × (3 * weight F Parser t + debt u.nodes < 3 * weight F Parser n + debt s.nodes)
    Turn-cost s u n turn h =
        let (t, shown, moved) = Turn-simulates F Parser threads capacity s u n turn h in
        elim moved [
          | inl (same_net, less) ↦
              (t, shown, (λ sound. rw same_net sound), rw same_net (omega arith))
          | inr (step, more) ↦ (
            t,
            shown,
            (λ sound. Step-IsSound F Parser sound step),
            omega (arith, Step-weight F Parser step),
          )
        ]

    -- However the threads take turns, there are no more turns than this, and what is shown stays sound.
    pub Turns-cost :
        {s u : System F Parser} {k : ℕ} (n : Net F Parser)
        → Shows F Parser s n
        → IsSound F Parser n
        → Turns F Parser threads capacity s k u
        → (t : Net F Parser) × Shows F Parser u t
          × IsSound F Parser t
          × (k + (3 * weight F Parser t + debt u.nodes) ≤ 3 * weight F Parser n + debt s.nodes)
    Turns-cost n h sound begun = (n, h, sound, omega arith)
    Turns-cost {s} {u} n h sound (turned {t = mid} turns turn) =
        let (t, shown, still_sound, used) = Turns-cost n h sound turns in
        let (t', shown', keeps, less) = Turn-cost mid u t turn shown in
        (t', shown', keeps still_sound, omega arith)

    pub Turns-IsOpen :
        {s u : System F Parser} {k : ℕ}
        → ((x : ServiceId) → IsOpen (s.nodes x))
        → Turns F Parser threads capacity s k u
        → (x : ServiceId) → IsOpen (u.nodes x)
    Turns-IsOpen open_all begun = open_all
    Turns-IsOpen open_all (turned turns turn) = Turn-IsOpen (Turns-IsOpen open_all turns) turn
