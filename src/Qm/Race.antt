-- ===== src/Qm/Race.antt =====
-- The object of `qm` under the threads of its service's pool: `jobs_in_memory[key] = job` in
-- src/qm/src/qm.cpp, which no lock guards. Two threads in it at once are a data race.
pub mod Reached
use file_inspect_key_analyse.Base.{
  ℕ, ◌+◌, ◌≤◌, ◌<◌, Bool, true, false, List, [], ◌∷◌, ◌++◌, ◌≡◌, refl, ap, arith, length,
  length-append,
}
use file_inspect_key_analyse.Global.FileJob.{
  FileJob, FileJobShm, Status, new, detecting, parsing, done, failed,
}
use file_inspect_key_analyse.Util.Pickup.{FileSystem}
use file_inspect_key_analyse.Qm.{Qm, on_status}

-- Where a handler stands: before the store, in it, or behind it.
pub data Place : Type 0 where
  before inside after : Place

abbrev pub Handler : Type 0
Handler = FileJobShm × Place

-- The jobs that are posted to the pool, in their order, and the handlers that its threads are in.
pub record Pool : Type 0 where
  pub posted : List FileJobShm
  pub handlers : List Handler

-- Whether `process_results` stores the job: only a new one.
unfoldable pub stores : Status → Bool
stores new = true
stores _ = false

-- A job that is not stored leaves the map alone.
on_status-stores :
    (F : FileSystem) (s : Status) (q : Qm F) (m : FileJobShm) (job : FileJob)
    → stores s ≡ false
    → (on_status F s q m job).0.jobs_in_memory ≡ q.jobs_in_memory
unfolding stores on_status
on_status-stores F new q m job h = cc h
on_status-stores F detecting q m job h = refl
on_status-stores F parsing q m job h = refl
on_status-stores F done q m job h = refl
on_status-stores F failed q m job h = refl

module _ (threads : ℕ) where
  -- What one thread does next.
  pub data Act (s u : Pool) : Type 0 where
    begins :
        (job : FileJobShm) (later : List FileJobShm)
        → s.posted ≡ job ∷ later
        → length s.handlers < threads
        → u ≡ record { posted = later; handlers = (job, before) ∷ s.handlers }
        → Act s u
    enters :
        (xs ys : List Handler) (job : FileJobShm)
        → s.handlers ≡ xs ++ (job, before) ∷ ys
        → stores job.status ≡ true
        → u ≡ record s { handlers = xs ++ (job, inside) ∷ ys }
        → Act s u
    skips :
        (xs ys : List Handler) (job : FileJobShm)
        → s.handlers ≡ xs ++ (job, before) ∷ ys
        → stores job.status ≡ false
        → u ≡ record s { handlers = xs ++ (job, after) ∷ ys }
        → Act s u
    leaves :
        (xs ys : List Handler) (job : FileJobShm)
        → s.handlers ≡ xs ++ (job, inside) ∷ ys
        → u ≡ record s { handlers = xs ++ (job, after) ∷ ys }
        → Act s u
    ends :
        (xs ys : List Handler) (job : FileJobShm)
        → s.handlers ≡ xs ++ (job, after) ∷ ys
        → u ≡ record s { handlers = xs ++ ys }
        → Act s u

  pub data Acts (s : Pool) : Pool → Type 0 where
    begun : Acts s s
    acted : {t u : Pool} → Acts s t → Act t u → Acts s u

-- How many jobs are to be stored, how many handlers have it before them or are in it, and how many are
-- in it.
abbrev pub unit_if : Bool → ℕ
unit_if true = 1
unit_if false = 0

abbrev pub new_count : List FileJobShm → ℕ
new_count [] = 0
new_count (job ∷ jobs) = unit_if (stores job.status) + new_count jobs

abbrev pub open_weight : Handler → ℕ
open_weight (job, before) = unit_if (stores job.status)
open_weight (job, inside) = 1
open_weight (job, after) = 0

abbrev pub inside_weight : Handler → ℕ
inside_weight (job, inside) = 1
inside_weight (job, _) = 0

abbrev pub total : (Handler → ℕ) → List Handler → ℕ
total weight [] = 0
total weight (h ∷ hs) = weight h + total weight hs

total-append :
    (weight : Handler → ℕ) (xs ys : List Handler)
    → total weight (xs ++ ys) ≡ total weight xs + total weight ys
total-append weight [] ys = omega arith
total-append weight (x ∷ xs) ys = omega (arith, total-append weight xs ys)

pub inside_total : (hs : List Handler) → total inside_weight hs ≤ total open_weight hs
inside_total [] = omega arith
inside_total ((job, before) ∷ hs) = omega (arith, inside_total hs)
inside_total ((job, inside) ∷ hs) = omega (arith, inside_total hs)
inside_total ((job, after) ∷ hs) = omega (arith, inside_total hs)

pub inside_length : (hs : List Handler) → total inside_weight hs ≤ length hs
inside_length [] = omega arith
inside_length ((job, before) ∷ hs) = omega (arith, inside_length hs)
inside_length ((job, inside) ∷ hs) = omega (arith, inside_length hs)
inside_length ((job, after) ∷ hs) = omega (arith, inside_length hs)

-- What a pool has to store at most.
abbrev pub stock : Pool → ℕ
stock s = new_count s.posted + total open_weight s.handlers

module _ (threads : ℕ) where
  swapped :
      (s : Pool) (xs ys : List Handler) (old now : Handler)
      → s.handlers ≡ xs ++ old ∷ ys
      → (total open_weight (xs ++ now ∷ ys) + open_weight old
          ≡ total open_weight s.handlers + open_weight now)
        × (length (xs ++ now ∷ ys) ≡ length s.handlers)
  swapped s xs ys old now e = (
    omega (
      arith,
      total-append open_weight xs (old ∷ ys),
      total-append open_weight xs (now ∷ ys),
      ap (total open_weight) e,
    ),
    omega (arith, length-append {0} xs (old ∷ ys), length-append {0} xs (now ∷ ys), ap length e),
  )

  Act-stock :
      (s u : Pool)
      → Act threads s u
      → length s.handlers ≤ threads
      → (stock u ≤ stock s) × (length u.handlers ≤ threads)
  Act-stock s u (begins job later e free up) h = rw up (omega (arith, ap new_count e), omega arith)
  Act-stock s u (enters xs ys job e is_new up) h = rw up (
    omega (arith, (swapped s xs ys (job, before) (job, inside) e).0, ap unit_if is_new),
    omega (arith, (swapped s xs ys (job, before) (job, inside) e).1),
  )
  Act-stock s u (skips xs ys job e is_old up) h = rw up (
    omega (arith, (swapped s xs ys (job, before) (job, after) e).0),
    omega (arith, (swapped s xs ys (job, before) (job, after) e).1),
  )
  Act-stock s u (leaves xs ys job e up) h = rw up (
    omega (arith, (swapped s xs ys (job, inside) (job, after) e).0),
    omega (arith, (swapped s xs ys (job, inside) (job, after) e).1),
  )
  Act-stock s u (ends xs ys job e up) h = rw up (
    omega (
      arith,
      total-append open_weight xs ((job, after) ∷ ys),
      total-append open_weight xs ys,
      ap (total open_weight) e,
    ),
    omega (arith, length-append {0} xs ((job, after) ∷ ys), length-append {0} xs ys, ap length e),
  )

  pub Acts-stock :
      (s u : Pool)
      → Acts threads s u
      → length s.handlers ≤ threads
      → (stock u ≤ stock s) × (length u.handlers ≤ threads)
  Acts-stock s u begun h = (omega arith, h)
  Acts-stock s u (acted {t} acts act) h =
      let (less, few) = Acts-stock s t acts h in
      let (less', few') = Act-stock t u act few in (omega arith, few')
