-- ===== src/Network/Threads/Count.antt =====
-- How often a job stands among messages, and what of it is left when one is taken out.
use file_inspect_key_analyse.Base.{
  ℕ, ◌+◌, ◌<◌, List, [], ◌∷◌, ◌++◌, if◌then◌else◌, ◌≡◌, ap, inl, inr, arith,
}
use mathlib.Core.Logic.{ite}
use native.Mathlib.Decide.{ℕ_discrete}
use file_inspect_key_analyse.Global.FileJob.{FileJobShm, IpcMessage, job_message, poison_pill}
use file_inspect_key_analyse.Network.Progress.{zero_or_pos}
use file_inspect_key_analyse.Network.Threads.{ServiceId, same, Outgoing}

FileJobShm-discrete : Discrete FileJobShm
FileJobShm-discrete = hlevel ℕ_discrete

-- 1 if the two are the same job, and 0 if not.
pub one : FileJobShm → FileJobShm → ℕ
one job other = ite (FileJobShm-discrete other job) 1 0

pub one_refl : (job : FileJobShm) → one job job ≡ 1
unfolding one
one_refl job = ground arith

one_pos : (job other : FileJobShm) → 0 < one job other → other ≡ job
unfolding one
one_pos job other h = ground arith

-- Among the jobs of a pool.
abbrev pub count : FileJobShm → List FileJobShm → ℕ
count job [] = 0
count job (other ∷ others) = one job other + count job others

-- Among the messages of a queue.
abbrev pub weigh : FileJobShm → IpcMessage → ℕ
weigh job (job_message other) = one job other
weigh job poison_pill = 0

abbrev pub tally : FileJobShm → List IpcMessage → ℕ
tally job [] = 0
tally job (m ∷ ms) = weigh job m + tally job ms

-- Among the messages for this service that threads wait to send.
abbrev pub weigh_for : FileJobShm → ServiceId → Outgoing → ℕ
weigh_for job y (z, m) = if same z y then weigh job m else 0

abbrev pub pending : FileJobShm → ServiceId → List Outgoing → ℕ
pending job y [] = 0
pending job y (out ∷ outs) = weigh_for job y out + pending job y outs

pub count-append :
    (job : FileJobShm) (xs ys : List FileJobShm)
    → count job (xs ++ ys) ≡ count job xs + count job ys
count-append job [] ys = omega arith
count-append job (x ∷ xs) ys = omega (arith, count-append job xs ys)

pub tally-append :
    (job : FileJobShm) (xs ys : List IpcMessage)
    → tally job (xs ++ ys) ≡ tally job xs + tally job ys
tally-append job [] ys = omega arith
tally-append job (x ∷ xs) ys = omega (arith, tally-append job xs ys)

pub pending-append :
    (job : FileJobShm) (y : ServiceId) (xs ys : List Outgoing)
    → pending job y (xs ++ ys) ≡ pending job y xs + pending job y ys
pending-append job y [] ys = omega arith
pending-append job y (x ∷ xs) ys = omega (arith, pending-append job y xs ys)

-- A job that is counted stands somewhere.
pub tally-split :
    (job : FileJobShm) (ms : List IpcMessage)
    → 0 < tally job ms
    → (before after : List IpcMessage) × (ms ≡ before ++ job_message job ∷ after)
tally-split job [] h = absurd (omega arith)
tally-split job (poison_pill ∷ ms) h =
    let (before, after, stood) = tally-split job ms (omega arith) in
    (poison_pill ∷ before, after, ap (◌∷◌ poison_pill) stood)
tally-split job (job_message other ∷ ms) h = elim (zero_or_pos (one job other)) [
  | inr here ↦ ([], ms, ap (λ j. job_message j ∷ ms) (one_pos job other here))
  | inl elsewhere ↦
      let (before, after, stood) = tally-split job ms (omega arith) in
      (job_message other ∷ before, after, ap (◌∷◌ (job_message other)) stood)
]
