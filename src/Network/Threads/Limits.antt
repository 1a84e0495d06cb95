-- ===== src/Network/Threads/Limits.antt =====
-- What a handler sends at most, and what turns use up.
use file_inspect_key_analyse.Base.{
  ℕ, ◌+◌, ◌≤◌, ◌<◌, Bytes, List, [], ◌∷◌, ◌++◌, Option, none, some, ◌≡◌, ap, inl, inr, arith, ok,
  length, length-append,
}
use file_inspect_key_analyse.Network.Threads.{
  ServiceId, qm_id, detect_id, parse_id, owner, addressed, Outgoing, Node, modify, received,
  handled, freed, enqueued, State, task_of,
}
use file_inspect_key_analyse.Global.FileJob.{FileJobShm, IpcMessage, job_message, poison_pill}
use file_inspect_key_analyse.Global.Service.{
  Sent, Senders, QueueSender, msg_queue_sender, null_sender, send, get_sender, send_to,
}
use file_inspect_key_analyse.Util.Pickup.{FileSystem}
use file_inspect_key_analyse.Network.Answers.{qm_answers, detect_answers, parse_answers}

-- No message, or one that is a job.
abbrev pub IsBrief : List Outgoing → Type 0
IsBrief [] = Unit
IsBrief ((y, job_message job) ∷ []) = Unit
IsBrief _ = ⊥

addressed-IsBrief :
    (senders : Senders) (name : Bytes) (job : FileJobShm)
    → IsBrief (addressed (send_to senders name (job_message job)))
unfolding send_to addressed
addressed-IsBrief senders name job = go (get_sender name senders)
  where
    placed :
        (o : Option ServiceId) → IsBrief (elim o [ none ↦ [] | some y ↦ (y, job_message job) ∷ [] ])
    placed none = tt
    placed (some y) = tt

    go :
        (s : Option QueueSender)
        → IsBrief (addressed (elim s [ none ↦ [] | some sender ↦ send sender (job_message job) ]))
    go none = tt
    go (some (msg_queue_sender queue)) = placed (owner queue)
    go (some null_sender) = tt

module _ (F : FileSystem) (Parser : Type 0) where
  -- A handler sends one message at most, and never a pill.
  pub task_of-IsBrief :
      (x : ServiceId) (state after : State F Parser x) (job : FileJobShm) (sent : Sent)
      → task_of F Parser x state job ≡ ok (after, sent)
      → IsBrief (addressed sent)
  unfolding addressed
  task_of-IsBrief qm_id q q' job sent h = elim (qm_answers F Parser q q' job sent h) [
    | inl (_, nothing) ↦ rw nothing tt
    | inr (id, path, e) ↦ rw (ap (λ p. p.1) e) (addressed-IsBrief _ _ _)
  ]
  task_of-IsBrief detect_id ds ds' job sent h = elim (detect_answers ds ds' job sent h) [
    | inl nothing ↦ rw nothing tt
    | inr (mime, e) ↦ rw e (addressed-IsBrief _ _ _)
  ]
  task_of-IsBrief parse_id ps ps' job sent h = elim (parse_answers F Parser ps ps' job sent h).1 [
    | inl nothing ↦ rw nothing tt
    | inr e ↦ rw e (addressed-IsBrief _ _ _)
  ]

pub length_of_brief : (outs : List Outgoing) → IsBrief outs → length outs ≤ 1
length_of_brief [] h = omega arith
length_of_brief ((y, job_message job) ∷ []) h = omega arith
length_of_brief ((y, poison_pill) ∷ []) h = absurd h
length_of_brief ((y, job_message job) ∷ o ∷ os) h = absurd h
length_of_brief ((y, poison_pill) ∷ o ∷ os) h = absurd h

-- What a service has still to do for messages that are handled already: to send them, and to receive.
abbrev pub owes : Node → ℕ
owes n = length n.sending + length n.sending + length n.inbox

abbrev pub debt : (ServiceId → Node) → ℕ
debt nodes = owes (nodes qm_id) + owes (nodes detect_id) + owes (nodes parse_id)

debt-modify :
    (x : ServiceId) (change : Node → Node) (nodes : ServiceId → Node)
    → debt (modify x change nodes) + owes (nodes x) ≡ debt nodes + owes (change (nodes x))
debt-modify qm_id change nodes = omega arith
debt-modify detect_id change nodes = omega arith
debt-modify parse_id change nodes = omega arith

owes-received :
    (m : IpcMessage) (later : List IpcMessage) (n : Node)
    → n.inbox ≡ m ∷ later
    → owes (received m later n) + 1 ≡ owes n
owes-received (job_message job) later n e = rw e (omega arith)
owes-received poison_pill later n e = rw e (omega arith)

-- To receive lessens the debt.
pub debt-received :
    (x : ServiceId) (m : IpcMessage) (later : List IpcMessage) (nodes : ServiceId → Node)
    → (nodes x).inbox ≡ m ∷ later
    → debt (modify x (received m later) nodes) < debt nodes
debt-received x m later nodes e =
    omega (arith, debt-modify x (received m later) nodes, owes-received m later (nodes x) e)

-- To send does, too.
pub debt-sent :
    (x y : ServiceId) (before after : List Outgoing) (m : IpcMessage) (nodes : ServiceId → Node)
    → (nodes x).sending ≡ before ++ (y, m) ∷ after
    → debt (modify y (enqueued m) (modify x (freed (before ++ after)) nodes)) < debt nodes
debt-sent x y before after m nodes e =
    let between = modify x (freed (before ++ after)) nodes in
    omega (
      arith,
      debt-modify x (freed (before ++ after)) nodes,
      debt-modify y (enqueued m) between,
      length-append {0} before ((y, m) ∷ after),
      length-append {0} before after,
      length-append {0} (between y).inbox (m ∷ []),
      ap length e,
    )

-- To handle a job adds the message that is sent.
pub debt-handled :
    (x : ServiceId) (others : List FileJobShm) (sent : Sent) (nodes : ServiceId → Node)
    → length (addressed sent) ≤ 1
    → debt (modify x (handled others sent) nodes) ≤ debt nodes + 2
debt-handled x others sent nodes h = omega (
  arith,
  debt-modify x (handled others sent) nodes,
  length-append {0} (nodes x).sending (addressed sent),
)

pub modify-keeps :
    (Keeps : Node → Type 0) (x : ServiceId) (change : Node → Node) (nodes : ServiceId → Node)
    → Keeps (change (nodes x))
    → ((y : ServiceId) → Keeps (nodes y))
    → (y : ServiceId) → Keeps (modify x change nodes y)
modify-keeps Keeps qm_id change nodes new old qm_id = new
modify-keeps Keeps detect_id change nodes new old detect_id = new
modify-keeps Keeps parse_id change nodes new old parse_id = new
modify-keeps Keeps _ change nodes new old y = old y
