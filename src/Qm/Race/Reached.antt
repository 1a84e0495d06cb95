-- ===== src/Qm/Race/Reached.antt =====
-- When two threads can be in the store at once.
use file_inspect_key_analyse.Base.{
  ℕ, ◌+◌, ◌≤◌, ◌<◌, true, List, [], ◌∷◌, ◌≡◌, refl, ap, inl, inr, ◌↔◌, arith, Bool-cases, length,
}
use file_inspect_key_analyse.Global.FileJob.{
  FileJobShm, Status, new, detecting, parsing, done, failed,
}
use file_inspect_key_analyse.Qm.Race.{
  inside, Handler, Pool, stores, begins, enters, skips, leaves, ends, Acts, begun, acted, new_count,
  unit_if, total, inside_weight, inside_total, inside_length, Acts-stock,
}

-- The jobs whose status is NEW.
abbrev pub one_if_new : Status → ℕ
one_if_new new = 1
one_if_new _ = 0

abbrev pub jobs_new : List FileJobShm → ℕ
jobs_new [] = 0
jobs_new (job ∷ jobs) = one_if_new job.status + jobs_new jobs

stores_new : (s : Status) → unit_if (stores s) ≡ one_if_new s
unfolding stores
stores_new new = refl
stores_new detecting = refl
stores_new parsing = refl
stores_new done = refl
stores_new failed = refl

new_count_lem : (jobs : List FileJobShm) → new_count jobs ≡ jobs_new jobs
new_count_lem [] = refl
new_count_lem (job ∷ jobs) = omega (arith, stores_new job.status, new_count_lem jobs)

module _ (threads : ℕ) where
  abbrev pool : List FileJobShm → List Handler → Pool
  pool posted handlers = record { posted = posted; handlers = handlers }

  enter_first :
      (job : FileJobShm) (later : List FileJobShm) (hs : List Handler) (s : Pool)
      → length hs < threads
      → stores job.status ≡ true
      → Acts threads s (pool (job ∷ later) hs)
      → Acts threads s (pool later ((job, inside) ∷ hs))
  enter_first job later hs s room is_new acts =
      acted (acted acts (begins job later refl room refl)) (enters [] hs job refl is_new refl)

  -- The handler of the first job runs to its end.
  clear_first :
      (job : FileJobShm) (later : List FileJobShm) (hs : List Handler) (s : Pool)
      → length hs < threads
      → Acts threads s (pool (job ∷ later) hs)
      → Acts threads s (pool later hs)
  clear_first job later hs s room acts = elim (Bool-cases (stores job.status)) [
    | inl is_new ↦
        acted (acted (enter_first job later hs s room is_new acts) (leaves [] hs job refl refl))
          (ends [] hs job refl refl)
    | inr is_old ↦
        acted
          (acted (acted acts (begins job later refl room refl)) (skips [] hs job refl is_old refl))
          (ends [] hs job refl refl)
  ]

  -- A pool with a job to be stored comes to the store, whatever its other threads are in.
  reach_inside :
      (posted : List FileJobShm) (hs : List Handler) (s : Pool)
      → length hs < threads
      → 0 < new_count posted
      → Acts threads s (pool posted hs)
      → (later : List FileJobShm) × (job : FileJobShm) × Acts threads s
          (pool later ((job, inside) ∷ hs))
        × (new_count later + 1 ≡ new_count posted)
  reach_inside [] hs s room h acts = absurd (omega arith)
  reach_inside (job ∷ later) hs s room h acts = elim (Bool-cases (stores job.status)) [
    | inl is_new ↦
        (later, job, enter_first job later hs s room is_new acts, omega (arith, ap unit_if is_new))
    | inr is_old ↦
        let none_here = ap unit_if is_old in
        let (rest, j, more, counted) =
          reach_inside later hs s room (omega arith) (clear_first job later hs s room acts) in
        (rest, j, more, omega arith)
  ]

  -- From a pool with these jobs, two threads can be in the store at once.
  abbrev pub Races : List FileJobShm → Type 0
  Races posted = (u : Pool) × Acts threads (pool posted []) u × (2 ≤ total inside_weight u.handlers)

  -- Two handlers of the queue manager can be in the unguarded store into `jobs_in_memory` at once exactly
  -- if its pool has two threads or more and two new jobs or more are posted to it.
  pub Races-iff :
      (posted : List FileJobShm) → Races posted ↔ ((2 ≤ threads) × (2 ≤ jobs_new posted))
  Races-iff posted = (
    λ r.
        let (u, acts, two) = r in
        let (less, few) = Acts-stock threads (pool posted []) u acts (omega arith) in
        (
          omega (arith, inside_length u.handlers),
          omega (arith, inside_total u.handlers, new_count_lem posted),
        ),
    λ h.
        let counted = new_count_lem posted in
        let (later, job, acts, left) =
          reach_inside posted [] (pool posted []) (omega arith) (omega arith) begun in
        let (rest, other, more, _) =
          reach_inside later ((job, inside) ∷ []) (pool posted []) (omega arith) (omega arith)
            acts in
        (_, more, omega arith),
  )
