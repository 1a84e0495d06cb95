-- ===== src/Network/Threads/Shows.antt =====
-- What a network of services with threads shows of the network whose services take any message of a
-- queue: the jobs that it has for each service, wherever they stand, and the states.
use file_inspect_key_analyse.Base.{
  ℕ, ◌+◌, Bytes, List, [], ◌∷◌, ◌++◌, Option, none, some, if◌then◌else◌, ◌≡◌, refl, ◌∙◌, arith,
}
use file_inspect_key_analyse.Global.FileJob.{FileJobShm, IpcMessage, job_message, poison_pill}
use file_inspect_key_analyse.Global.Service.{Sent}
use file_inspect_key_analyse.Util.Pickup.{FileSystem}
use file_inspect_key_analyse.Network.{Net, put, deliver}
use file_inspect_key_analyse.Network.Threads.{
  ServiceId, qm_id, detect_id, parse_id, same, owner, addressed, Outgoing, Node, modify, received,
  handled, freed, enqueued, State, System,
}
use file_inspect_key_analyse.Network.Threads.Count.{
  one, count, tally, weigh_for, pending, count-append, tally-append, pending-append,
}

-- The jobs that a service has before it, and those on their way to it.
abbrev pub held : FileJobShm → Node → ℕ
held job n = count job n.posted + tally job n.inbox

abbrev pub work : FileJobShm → ServiceId → (ServiceId → Node) → ℕ
work job y nodes =
    held job (nodes y)
    + (pending job y (nodes qm_id).sending
        + pending job y (nodes detect_id).sending
        + pending job y (nodes parse_id).sending)

-- What one service has of the work for `y`.
abbrev pub own : ServiceId → ServiceId → FileJobShm → Node → ℕ
own x y job n = (if same x y then held job n else 0) + pending job y n.sending

pub work-modify :
    (x y : ServiceId) (job : FileJobShm) (change : Node → Node) (nodes : ServiceId → Node)
    → work job y (modify x change nodes) + own x y job (nodes x)
      ≡ work job y nodes + own x y job (change (nodes x))
work-modify qm_id qm_id job change nodes = omega arith
work-modify detect_id detect_id job change nodes = omega arith
work-modify parse_id parse_id job change nodes = omega arith
work-modify _ _ job change nodes = omega arith

pub own-received :
    (x y : ServiceId) (job : FileJobShm) (m : IpcMessage) (later : List IpcMessage) (n : Node)
    → n.inbox ≡ m ∷ later
    → own x y job (received m later n) ≡ own x y job n
own-received x y job (job_message other) later n e =
    rw e (ground (arith, count-append job n.posted (other ∷ [])))
own-received x y job poison_pill later n e = rw e (ground arith)

pub own-handled :
    (x y : ServiceId) (job other : FileJobShm) (before after : List FileJobShm) (sent : Sent)
    (n : Node)
    → n.posted ≡ before ++ other ∷ after
    → own x y job (handled (before ++ after) sent n) + (if same x y then one job other else 0)
      ≡ own x y job n + pending job y (addressed sent)
own-handled x y job other before after sent n e =
    rw
      (
        e,
        count-append job before (other ∷ after),
        count-append job before after,
        pending-append job y n.sending (addressed sent),
      )
      (ground arith)

pub own-freed :
    (x z y : ServiceId) (job : FileJobShm) (before after : List Outgoing) (m : IpcMessage)
    (n : Node)
    → n.sending ≡ before ++ (y, m) ∷ after
    → own x z job (freed (before ++ after) n) + weigh_for job z (y, m) ≡ own x z job n
own-freed x z y job before after m n e =
    rw (e, pending-append job z before ((y, m) ∷ after), pending-append job z before after)
      (omega arith)

pub own-enqueued :
    (y z : ServiceId) (job : FileJobShm) (m : IpcMessage) (n : Node)
    → own y z job (enqueued m n) ≡ own y z job n + weigh_for job z (y, m)
own-enqueued y z job m n = ground (arith, tally-append job n.inbox (m ∷ []))

module _ (F : FileSystem) (Parser : Type 0) where
  abbrev pub inbox_at : ServiceId → Net F Parser → List IpcMessage
  inbox_at qm_id n = n.qm_inbox
  inbox_at detect_id n = n.detect_inbox
  inbox_at parse_id n = n.parse_inbox

  abbrev pub state_at : (y : ServiceId) → Net F Parser → State F Parser y
  state_at qm_id n = n.qm
  state_at detect_id n = n.detectors
  state_at parse_id n = n.registry

  pub record Shows (s : System F Parser) (n : Net F Parser) : Type 0 where
    pub same_work :
        (y : ServiceId) (job : FileJobShm) → tally job (inbox_at y n) ≡ work job y s.nodes
    pub same_state : (y : ServiceId) → s.states y ≡ state_at y n

  -- The network behind a message to this service.
  abbrev given_to : ServiceId → IpcMessage → Net F Parser → Net F Parser
  given_to qm_id m n = record n { qm_inbox = n.qm_inbox ++ m ∷ [] }
  given_to detect_id m n = record n { detect_inbox = n.detect_inbox ++ m ∷ [] }
  given_to parse_id m n = record n { parse_inbox = n.parse_inbox ++ m ∷ [] }

  tally-given_to :
      (x y : ServiceId) (job : FileJobShm) (m : IpcMessage) (n : Net F Parser)
      → tally job (inbox_at y (given_to x m n)) ≡ tally job (inbox_at y n) + weigh_for job y (x, m)
  tally-given_to qm_id qm_id job m n = omega (arith, tally-append job n.qm_inbox (m ∷ []))
  tally-given_to detect_id detect_id job m n =
      omega (arith, tally-append job n.detect_inbox (m ∷ []))
  tally-given_to parse_id parse_id job m n = omega (arith, tally-append job n.parse_inbox (m ∷ []))
  tally-given_to _ _ job m n = omega arith

  state_at-given_to :
      (x y : ServiceId) (m : IpcMessage) (n : Net F Parser)
      → state_at y (given_to x m n) ≡ state_at y n
  state_at-given_to qm_id qm_id m n = refl
  state_at-given_to detect_id detect_id m n = refl
  state_at-given_to parse_id parse_id m n = refl
  state_at-given_to _ _ m n = refl

  put-owner :
      (queue : Bytes) (m : IpcMessage) (n : Net F Parser)
      → put F Parser n queue m ≡ (elim (owner queue) [ none ↦ n | some x ↦ given_to x m n ])
  unfolding put owner
  put-owner queue m n = ground arith

  pub deliver-addressed :
      (y : ServiceId) (job : FileJobShm) (sent : Sent) (n : Net F Parser)
      → (tally job (inbox_at y (deliver F Parser n sent))
          ≡ tally job (inbox_at y n) + pending job y (addressed sent))
        × (state_at y (deliver F Parser n sent) ≡ state_at y n)
  unfolding deliver addressed
  deliver-addressed y job [] n = (omega arith, refl)
  deliver-addressed y job ((queue, m) ∷ sent) n =
      go (owner queue) refl (λ n'. deliver-addressed y job sent n')
    where
      go :
          (o : Option ServiceId)
          → owner queue ≡ o
          → ((n' : Net F Parser)
              → (tally job (inbox_at y (deliver F Parser n' sent))
                  ≡ tally job (inbox_at y n') + pending job y (addressed sent))
                × (state_at y (deliver F Parser n' sent) ≡ state_at y n'))
          → (tally job (inbox_at y (deliver F Parser n ((queue, m) ∷ sent)))
              ≡ tally job (inbox_at y n) + pending job y (addressed ((queue, m) ∷ sent)))
            × (state_at y (deliver F Parser n ((queue, m) ∷ sent)) ≡ state_at y n)
      go none e later = rw (put-owner queue m n, addressed, e) (later n)
      go (some x) e later =
          let (counted, kept) = later (given_to x m n) in
          rw (put-owner queue m n, addressed, e)
            (omega (arith, counted, tally-given_to x y job m n), kept ∙ state_at-given_to x y m n)
