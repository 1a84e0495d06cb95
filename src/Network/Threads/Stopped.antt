-- ===== src/Network/Threads/Stopped.antt =====
-- What a service that has stopped does to one whose threads send to it: `send` waits for room on a queue
-- that nobody empties any more, and `pool_.join` for the thread.
use file_inspect_key_analyse.Base.{
  ℕ, ◌≤◌, ◌<◌, true, false, List, ◌∷◌, ◌++◌, All, All-removed, ◌≡◌, refl, sym, subst, ap, ◌∙◌, inl,
  inr, arith, Bool-cases, length,
}
use file_inspect_key_analyse.Network.Threads.{
  ServiceId, qm_id, detect_id, parse_id, same, Outgoing, Node, modify, received, handled, freed,
  enqueued, System, Turn, receives, handles, sends, Turns, begun, turned,
}
use file_inspect_key_analyse.Global.FileJob.{IpcMessage, job_message, poison_pill}
use file_inspect_key_analyse.Util.Pickup.{FileSystem}

same-eq : (x y : ServiceId) → same x y ≡ true → x ≡ y
same-eq qm_id qm_id h = refl
same-eq detect_id detect_id h = refl
same-eq parse_id parse_id h = refl
same-eq qm_id _ h = cc h
same-eq detect_id _ h = cc h
same-eq parse_id _ h = cc h

-- Two services of which only one has this are not the same.
differ : (P : ServiceId → Type 0) (x y : ServiceId) → P x → (P y → ⊥) → same x y ≡ false
differ P x y here absent = elim (Bool-cases (same x y)) [
  | inr other ↦ other
  | inl equal ↦ absurd (absent (subst P (same-eq x y equal) here))
]

-- The service `z` has stopped and its queue is full; all the threads of `x` wait to send to it.
pub record IsStuck (threads capacity : ℕ) (x z : ServiceId) (nodes : ServiceId → Node)
    : Type 0 where
  pub stopped : (nodes z).running ≡ false
  pub full : capacity ≤ length (nodes z).inbox
  pub busy : threads ≤ length (nodes x).sending
  pub bound_for : All (λ (out : Outgoing). out.0 ≡ z) (nodes x).sending

module _ (threads capacity : ℕ) (x z : ServiceId) where
  -- It stays so where a change leaves these parts alone.
  stuck_still :
      (nodes nodes' : ServiceId → Node)
      → (nodes' z).running ≡ (nodes z).running
      → (nodes' z).inbox ≡ (nodes z).inbox
      → (nodes' x).sending ≡ (nodes x).sending
      → IsStuck threads capacity x z nodes
      → IsStuck threads capacity x z nodes'
  stuck_still nodes nodes' a b c s = record {
    stopped = a ∙ s.stopped;
    full = rw b s.full;
    busy = rw c s.busy;
    bound_for = rw c s.bound_for;
  }

  received-sending :
      (w : ServiceId) (m : IpcMessage) (later : List IpcMessage) (nodes : ServiceId → Node)
      → (modify w (received m later) nodes x).sending ≡ (nodes x).sending
  received-sending w (job_message job) later nodes = ground arith
  received-sending w poison_pill later nodes = ground arith

  module _ (F : FileSystem) (Parser : Type 0) where
    Turn-IsStuck :
        {s u : System F Parser}
        → IsStuck threads capacity x z s.nodes
        → Turn F Parser threads capacity s u
        → IsStuck threads capacity x z u.nodes × ((u.nodes x).sending ≡ (s.nodes x).sending)
    Turn-IsStuck {s} {u} k (receives w m later up stood e) =
        let other =
          differ (λ y. (s.nodes y).running ≡ true) w z up
            (λ h. let bad : true ≡ false = sym h ∙ k.stopped in cc bad) in
        let nodes = modify w (received m later) s.nodes in
        let untouched : nodes z ≡ s.nodes z = rw other refl in
        let kept = received-sending w m later s.nodes in
        rw e (
          stuck_still s.nodes nodes (ap (λ n. n.running) untouched) (ap (λ n. n.inbox) untouched)
              kept k,
          kept,
        )
    Turn-IsStuck {s} {u} k (handles w before after job state sent free posted did e) =
        let other =
          differ (λ y. length (s.nodes y).sending < threads) w x free
            (λ h. absurd (omega (arith, k.busy))) in
        let nodes = modify w (handled (before ++ after) sent) s.nodes in
        let untouched : nodes x ≡ s.nodes x = rw other refl in
        let kept = ap (λ n. n.sending) untouched in
        rw e (stuck_still s.nodes nodes (ground arith) (ground arith) kept k, kept)
    Turn-IsStuck {s} {u} k (sends w y before after m stood room e) =
        let elsewhere =
          differ (λ v. length (s.nodes v).inbox < capacity) y z room
            (λ h. absurd (omega (arith, k.full))) in
        let other =
          differ (λ v. (s.nodes v).sending ≡ before ++ (y, m) ∷ after) w x stood
            (λ h.
              let (to_z, _) =
                All-removed (λ (out : Outgoing). out.0 ≡ z) before after (y, m)
                  (rw h at k.bound_for) in
              let bad : length (s.nodes z).inbox < capacity = rw to_z at room in
              absurd (omega (arith, k.full))) in
        let between = modify w (freed (before ++ after)) s.nodes in
        let nodes = modify y (enqueued m) between in
        let untouched : between x ≡ s.nodes x = rw other refl in
        let still : nodes z ≡ between z = rw elsewhere refl in
        let kept : (nodes x).sending ≡ (s.nodes x).sending = ground arith in
        rw e (stuck_still s.nodes nodes (ground arith) (ground arith) kept k, kept)

    -- If a service has stopped while its queue is full and all the threads of another wait to send to it,
    -- then whatever turns are taken, those threads go on waiting with the same messages: the other service
    -- never ends, since it joins its threads.
    pub Turns-IsStuck :
        {s u : System F Parser} {k : ℕ}
        → IsStuck threads capacity x z s.nodes
        → Turns F Parser threads capacity s k u
        → IsStuck threads capacity x z u.nodes × ((u.nodes x).sending ≡ (s.nodes x).sending)
    Turns-IsStuck h begun = (h, refl)
    Turns-IsStuck h (turned turns turn) =
        let (between, kept) = Turns-IsStuck h turns in
        let (after, still) = Turn-IsStuck between turn in (after, still ∙ kept)
