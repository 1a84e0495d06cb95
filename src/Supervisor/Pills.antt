-- ===== src/Supervisor/Pills.antt =====
-- The queues of the program: those that the supervisor makes are the ones that its poison pills and
-- the services' mains ask for.
use file_inspect_key_analyse.Base.{
  ℕ, Bytes, eq_bytes, eq_bytes_refl, true, List, [], ◌∷◌, All, some, if◌then◌else◌, ◌≡◌, refl, sym,
  ap, ◌∙◌, ◌⊎◌, inl, inr, arith, Bool-cases, ok, >>=-ok_parts, insert, lookup-insert,
}
use file_inspect_key_analyse.Supervisor.Worker.{ProcessApi}
use file_inspect_key_analyse.Supervisor.QueueManager.{QueueDescriptor}
use file_inspect_key_analyse.Supervisor.{binary_to_queue}
use file_inspect_key_analyse.Queues.{detect_queue, parse_queue, qm_queue}
use file_inspect_key_analyse.Supervisor.{create_all}
use file_inspect_key_analyse.Supervisor.QueueManager.{
  MessageQueueApi, BoostQueues, at_key, create_queue, boost_queue_manager,
}

-- The `queues` of src/supervisor/src/main.cpp; the size of an `ipc_message` is the compiler's.
unfoldable pub main_queues : ℕ → List QueueDescriptor
main_queues ipc_message_size =
    record { name = detect_queue; max_messages = 100; message_size = ipc_message_size }
    ∷ record { name = parse_queue; max_messages = 100; message_size = ipc_message_size }
    ∷ record { name = qm_queue; max_messages = 100; message_size = ipc_message_size }
    ∷ []

module _ (P : ProcessApi) (A : MessageQueueApi) where
  -- The manager holds a queue of this name.
  abbrev pub Holds : BoostQueues A → Bytes → Type 0
  Holds m name = (q : A.MessageQueue) × (at_key A m name ≡ some q)

  at_key-insert :
      (m : BoostQueues A) (name other : Bytes) (q : A.MessageQueue) (ipc : A.Ipc)
      → at_key A (record { ipc = ipc; queues = insert name (some q) m.queues }) other
        ≡ (if eq_bytes name other then some q else at_key A m other)
  unfolding at_key
  at_key-insert m name other q ipc = ground (arith, lookup-insert name other (some q) m.queues)

  create_queue-Holds :
      (m m' : BoostQueues A) (name other : Bytes) (n size : ℕ)
      → create_queue A m name n size ≡ ok m'
      → (eq_bytes name other ≡ true) ⊎ Holds m other
      → Holds m' other
  unfolding create_queue
  create_queue-Holds m m' name other n size h held =
      let (r, made, built) = >>=-ok_parts (A.create_only m.ipc name n size) _ h in
      let now : at_key A m' other ≡ (if eq_bytes name other then some r.1 else at_key A m other) =
        ap (λ x. at_key A x other) (sym (cc built)) ∙ at_key-insert m name other r.1 r.0 in
      elim (Bool-cases (eq_bytes name other)) [
        | inl same ↦ (r.1, now ∙ rw same refl)
        | inr differ ↦ elim held [
          | inl same ↦ absurd (ground arith)
          | inr (q, there) ↦ (q, now ∙ rw differ there)
        ]
      ]

  create_all-kept :
      (qs : List QueueDescriptor) (m m' : BoostQueues A) (name : Bytes)
      → create_all P (boost_queue_manager A) qs m ≡ ok m'
      → Holds m name
      → Holds m' name
  unfolding create_all
  create_all-kept [] m m' name h (q, there) = (q, ap (λ x. at_key A x name) (sym (cc h)) ∙ there)
  create_all-kept (d ∷ ds) m m' name h held =
      let (mid, made, later) =
        >>=-ok_parts (create_queue A m d.name d.max_messages d.message_size) _ h in
      create_all-kept ds mid m' name later
        (create_queue-Holds m mid d.name name d.max_messages d.message_size made (inr held))

  create_all-Holds :
      (qs : List QueueDescriptor) (m m' : BoostQueues A)
      → create_all P (boost_queue_manager A) qs m ≡ ok m'
      → All (λ q. Holds m' q.name) qs
  unfolding create_all
  create_all-Holds [] m m' h = tt
  create_all-Holds (d ∷ ds) m m' h =
      let (mid, made, later) =
        >>=-ok_parts (create_queue A m d.name d.max_messages d.message_size) _ h in
      (
        create_all-kept ds mid m' d.name later (
            create_queue-Holds m mid d.name d.name d.max_messages d.message_size made
              (inl (eq_bytes_refl d.name))),
        create_all-Holds ds mid m' later,
      )

  -- When the queues of `main` have been made, each queue on which the supervisor puts a poison pill
  -- is there, so none of its pills goes through a null pointer.
  pub main_queues-Holds :
      (size : ℕ) (m m' : BoostQueues A)
      → create_all P (boost_queue_manager A) (main_queues size) m ≡ ok m'
      → All (λ entry. Holds m' entry.1) binary_to_queue
  unfolding main_queues binary_to_queue
  main_queues-Holds size m m' h = let held = create_all-Holds (main_queues size) m m' h in held
