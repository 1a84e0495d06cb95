-- ===== src/Network/Threads.antt =====
-- The services with their threads: src/global/src/service.cpp and src/global/src/icp_client.cpp. Each has
-- a receiving thread, which posts the jobs of its queue to a pool of `threads` threads, and queues hold
-- `capacity` messages at most: a thread of the pool whose answer finds its queue full waits in `send`.
pub mod Count
pub mod Shows
pub mod Simulation
pub mod Limits
pub mod Liveness
pub mod Drained
pub mod Stopped
use file_inspect_key_analyse.Base.{
  ℕ, suc, ◌<◌, Bytes, eq_bytes, Bool, true, false, List, [], ◌∷◌, ◌++◌, Option, none, some,
  if◌then◌else◌, ◌≡◌, Result, ok, length,
}
use file_inspect_key_analyse.Global.FileJob.{FileJobShm, IpcMessage, job_message, poison_pill}
use file_inspect_key_analyse.Global.Service.{ServiceClass, Sent, task}
use file_inspect_key_analyse.Queues.{qm_queue, detect_queue, parse_queue}
use file_inspect_key_analyse.Util.Pickup.{FileSystem}
use file_inspect_key_analyse.Qm.{Qm}
use file_inspect_key_analyse.Qm.Handler.{qm_service}
use file_inspect_key_analyse.Detect.{FileDetector}
use file_inspect_key_analyse.Detect.Handler.{detect_service}
use file_inspect_key_analyse.Parse.{ParserRegistry}
use file_inspect_key_analyse.Parse.Handler.{parse_service}

pub data ServiceId : Type 0 where
  qm_id detect_id parse_id : ServiceId

abbrev pub same : ServiceId → ServiceId → Bool
same qm_id qm_id = true
same detect_id detect_id = true
same parse_id parse_id = true
same _ _ = false

-- The service that receives from the queue of this name.
unfoldable pub owner : Bytes → Option ServiceId
owner queue =
    if eq_bytes queue qm_queue
    then some qm_id
    else if eq_bytes queue detect_queue
    then some detect_id
    else if eq_bytes queue parse_queue
    then some parse_id
    else none

-- What a thread of a pool holds that is in `send`: the queue's service, and the message.
abbrev pub Outgoing : Type 0
Outgoing = ServiceId × IpcMessage

-- The messages that a handler sends, by the service that they are for.
unfoldable pub addressed : Sent → List Outgoing
addressed [] = []
addressed ((queue, m) ∷ sent) =
    let rest = addressed sent in elim (owner queue) [ none ↦ rest | some y ↦ (y, m) ∷ rest ]

-- A service: its queue, the jobs that are posted to its pool and not yet begun, the messages that its
-- threads wait to send, and `running_`.
pub record Node : Type 0 where
  pub inbox : List IpcMessage
  pub posted : List FileJobShm
  pub sending : List Outgoing
  pub running : Bool

-- The constructor and `start`, on a queue with these messages.
abbrev pub started : List IpcMessage → Node
started inbox = record { inbox = inbox; posted = []; sending = []; running = true }

abbrev pub modify : ServiceId → (Node → Node) → (ServiceId → Node) → ServiceId → Node
modify x change nodes y = if same x y then change (nodes y) else nodes y

-- One round of `receiveLoop` with this message, which the queue is left without.
abbrev pub received : IpcMessage → List IpcMessage → Node → Node
received (job_message job) later n = record n { inbox = later; posted = n.posted ++ job ∷ [] }
received poison_pill later n = record n { inbox = later; running = false }

-- A thread has handled a job, and now sends what the handler answers.
abbrev pub handled : List FileJobShm → Sent → Node → Node
handled others sent n = record n { posted = others; sending = n.sending ++ addressed sent }

-- It has sent it and is free again.
abbrev pub freed : List Outgoing → Node → Node
freed others n = record n { sending = others }

abbrev pub enqueued : IpcMessage → Node → Node
enqueued m n = record n { inbox = n.inbox ++ m ∷ [] }

module _ (F : FileSystem) (Parser : Type 0) where
  abbrev pub class_of : ServiceId → ServiceClass
  class_of qm_id = qm_service F
  class_of detect_id = detect_service
  class_of parse_id = parse_service Parser

  abbrev pub State : ServiceId → Type 0
  State qm_id = Qm F
  State detect_id = List FileDetector
  State parse_id = ParserRegistry Parser

  abbrev pub task_of : (x : ServiceId) → State x → FileJobShm → Result (State x × Sent)
  task_of qm_id s job = task (qm_service F) s (job_message job)
  task_of detect_id s job = task detect_service s (job_message job)
  task_of parse_id s job = task (parse_service Parser) s (job_message job)

  abbrev pub set_state :
      (x : ServiceId) → State x → ((y : ServiceId) → State y) → (y : ServiceId) → State y
  set_state qm_id s states qm_id = s
  set_state detect_id s states detect_id = s
  set_state parse_id s states parse_id = s
  set_state _ s states y = states y

  pub record System : Type 0 where
    pub nodes : ServiceId → Node
    pub states : (x : ServiceId) → State x

  module _ (threads capacity : ℕ) where
    -- A turn of one thread of one service.
    pub data Turn (s u : System) : Type 0 where
      receives :
          (x : ServiceId) (m : IpcMessage) (later : List IpcMessage)
          → (s.nodes x).running ≡ true
          → (s.nodes x).inbox ≡ m ∷ later
          → u ≡ record s { nodes = modify x (received m later) s.nodes }
          → Turn s u
      handles :
          (x : ServiceId) (before after : List FileJobShm) (job : FileJobShm) (state : State x)
          (sent : Sent)
          → length (s.nodes x).sending < threads
          → (s.nodes x).posted ≡ before ++ job ∷ after
          → task_of x (s.states x) job ≡ ok (state, sent)
          → u ≡ record {
            nodes = modify x (handled (before ++ after) sent) s.nodes;
            states = set_state x state s.states;
          }
          → Turn s u
      sends :
          (x y : ServiceId) (before after : List Outgoing) (m : IpcMessage)
          → (s.nodes x).sending ≡ before ++ (y, m) ∷ after
          → length (s.nodes y).inbox < capacity
          → u ≡ record s {
            nodes = modify y (enqueued m) (modify x (freed (before ++ after)) s.nodes);
          }
          → Turn s u

    -- So many turns.
    pub data Turns (s : System) : ℕ → System → Type 0 where
      begun : Turns s 0 s
      turned : {k : ℕ} {t u : System} → Turns s k t → Turn t u → Turns s (suc k) u
