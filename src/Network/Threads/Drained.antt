-- ===== src/Network/Threads/Drained.antt =====
-- The services with threads come to rest, and only when no job is left anywhere.
use file_inspect_key_analyse.Base.{
  ℕ, zero, suc, ◌+◌, ◌≤◌, ◌<◌, ◌*◌, true, List, [], ◌∷◌, ◌≡◌, refl, ap, ◌⊎◌, inl, inr, arith,
  length,
}
use file_inspect_key_analyse.Network.Threads.{
  ServiceId, Outgoing, System, Turn, receives, handles, sends, Turns, begun, turned,
}
use file_inspect_key_analyse.Global.FileJob.{FileJobShm, IpcMessage, job_message}
use file_inspect_key_analyse.Util.Pickup.{FileSystem}
use file_inspect_key_analyse.Network.{Net}
use file_inspect_key_analyse.Network.Rank.{weight}
use file_inspect_key_analyse.Network.Safety.{IsSound, picked}
use file_inspect_key_analyse.Network.Threads.Limits.{debt}
use file_inspect_key_analyse.Network.Threads.Shows.{Shows, inbox_at}
use file_inspect_key_analyse.Network.Threads.Simulation.{posted_stands}
use file_inspect_key_analyse.Network.Threads.Liveness.{
  Turns-IsOpen, IsOpen, IsQuiet, Turn-IsOpen, Turn-cost, Turns-cost, first_of, ready,
  IsReadable-inbox_at,
}

module _ (F : FileSystem) (Parser : Type 0) (threads capacity : ℕ) where
  -- Some thread can take a turn.
  abbrev pub CanTurn : System F Parser → Type 0
  CanTurn s = (u : System F Parser) × Turn F Parser threads capacity s u

  may_receive :
      (s : System F Parser) (x : ServiceId)
      → (s.nodes x).running ≡ true
      → ((s.nodes x).inbox ≡ []) ⊎ CanTurn s
  may_receive s x up = go (s.nodes x).inbox refl
    where
      go : (ms : List IpcMessage) → (s.nodes x).inbox ≡ ms → ((s.nodes x).inbox ≡ []) ⊎ CanTurn s
      go [] e = inl e
      go (m ∷ later) e = inr (_, receives x m later up e refl)

  may_send :
      (s : System F Parser) (x : ServiceId)
      → 0 < capacity
      → ((y : ServiceId) → (s.nodes y).inbox ≡ [])
      → ((s.nodes x).sending ≡ []) ⊎ CanTurn s
  may_send s x room empty = go (s.nodes x).sending refl
    where
      go :
          (outs : List Outgoing)
          → (s.nodes x).sending ≡ outs
          → ((s.nodes x).sending ≡ []) ⊎ CanTurn s
      go [] e = inl e
      go ((y, m) ∷ others) e =
          inr (_, sends x y [] others m e (omega (arith, ap length (empty y))) refl)

  may_handle :
      (s : System F Parser) (n : Net F Parser) (x : ServiceId)
      → 0 < threads
      → Shows F Parser s n
      → IsSound F Parser n
      → (s.nodes x).sending ≡ []
      → ((s.nodes x).posted ≡ []) ⊎ CanTurn s
  may_handle s n x some_thread h sound free = go (s.nodes x).posted refl
    where
      go :
          (jobs : List FileJobShm)
          → (s.nodes x).posted ≡ jobs
          → ((s.nodes x).posted ≡ []) ⊎ CanTurn s
      go [] e = inl e
      go (job ∷ others) e =
          let (b, a, stood) = posted_stands F Parser s n x [] others job e h in
          let (readable, _) =
            picked F Parser (inbox_at F Parser x n) b a (job_message job) stood
              (IsReadable-inbox_at F Parser x n sound) in
          let (r, did) = ready F Parser x n job sound readable in
          inr (
            _,
            handles x [] others job r.0 r.1 (omega (arith, ap length free)) e
                (rw (h.same_state x) did) refl,
          )

  -- No deadlock: where no service has been told to stop, either nothing is left to be done or some
  -- thread can take a turn.
  Turn-progress :
      (s : System F Parser) (n : Net F Parser)
      → 0 < threads
      → 0 < capacity
      → Shows F Parser s n
      → IsSound F Parser n
      → ((x : ServiceId) → IsOpen (s.nodes x))
      → ((x : ServiceId) → IsQuiet (s.nodes x)) ⊎ CanTurn s
  Turn-progress s n some_thread room h sound open_all =
      elim (first_of (λ x. (s.nodes x).inbox ≡ []) (λ x. may_receive s x (open_all x).0)) [
        | inr turn ↦ inr turn
        | inl received_all ↦
            elim (first_of (λ x. (s.nodes x).sending ≡ []) (λ x. may_send s x room received_all)) [
              | inr turn ↦ inr turn
              | inl sent_all ↦
                  elim (first_of (λ x. (s.nodes x).posted ≡ [])
                    (λ x. may_handle s n x some_thread h sound (sent_all x))) [
                      | inr turn ↦ inr turn
                      | inl handled_all ↦ inl (λ x. (received_all x, handled_all x, sent_all x))
                    ]
            ]
      ]

  drain :
      (fuel : ℕ) (s : System F Parser) (n : Net F Parser)
      → 0 < threads
      → 0 < capacity
      → Shows F Parser s n
      → IsSound F Parser n
      → ((x : ServiceId) → IsOpen (s.nodes x))
      → 3 * weight F Parser n + debt s.nodes < fuel
      → (k : ℕ) × (u : System F Parser) × Turns F Parser threads capacity s k u
        × ((x : ServiceId) → IsQuiet (u.nodes x))
  drain fuel s n some_thread room h sound open_all enough =
      go fuel s n begun h sound open_all enough
    where
      go :
          (fuel : ℕ) (t : System F Parser) (n : Net F Parser) {k : ℕ}
          → Turns F Parser threads capacity s k t
          → Shows F Parser t n
          → IsSound F Parser n
          → ((x : ServiceId) → IsOpen (t.nodes x))
          → 3 * weight F Parser n + debt t.nodes < fuel
          → (k : ℕ) × (u : System F Parser) × Turns F Parser threads capacity s k u
            × ((x : ServiceId) → IsQuiet (u.nodes x))
      go zero t n turns h sound open_all enough = absurd (omega arith)
      go (suc fuel) t n {k} turns h sound open_all enough =
          elim (Turn-progress t n some_thread room h sound open_all) [
            | inl quiet ↦ (k, t, turns, quiet)
            | inr (u, turn) ↦
                let (n', shown, keeps, less) = Turn-cost F Parser threads capacity t u n turn h in
                go fuel u n' (turned turns turn) shown (keeps sound)
                  (Turn-IsOpen F Parser threads capacity open_all turn) (omega arith)
          ]

  -- Whatever turns the threads of the services have taken, with queues that are bounded and none told to
  -- stop, they can go on until nothing is left to be done; and all these turns are no more than three for
  -- each step of the jobs at the start, two for each message that was being sent and one for each that
  -- was in a queue.
  pub Turns-drain :
      (s t : System F Parser) (n : Net F Parser) (k : ℕ)
      → 0 < threads
      → 0 < capacity
      → Shows F Parser s n
      → IsSound F Parser n
      → ((x : ServiceId) → IsOpen (s.nodes x))
      → Turns F Parser threads capacity s k t
      → (j : ℕ) × (u : System F Parser) × Turns F Parser threads capacity t j u
        × ((x : ServiceId) → IsQuiet (u.nodes x))
        × (k + j ≤ 3 * weight F Parser n + debt s.nodes)
  Turns-drain s t n k some_thread room h sound open_all turns =
      let (n', shown, still_sound, used) = Turns-cost F Parser threads capacity n h sound turns in
      let still_open = Turns-IsOpen F Parser threads capacity open_all turns in
      let (j, u, more, quiet) =
        drain (suc (3 * weight F Parser n' + debt t.nodes)) t n' some_thread room shown still_sound
          still_open (omega arith) in
      let (_, _, _, used_more) = Turns-cost F Parser threads capacity n' shown still_sound more in
      (j, u, more, quiet, omega arith)
