-- ===== src/Qm/StateMachine/Graph.antt =====
-- The transition diagram of a job, and what the state machine has to do with it.
use file_inspect_key_analyse.Base.{ℕ, ◌<◌, true, false, ◌≡◌, refl, ◌⊎◌, inl, inr, arith}
use file_inspect_key_analyse.Global.FileJob.{
  FileJob, Status, new, detecting, parsing, done, failed, Event, submit, detection_ok,
  detection_fail, parse_ok, parse_fail,
}
use file_inspect_key_analyse.Qm.StateMachine.{apply}

-- An edge of the diagram.
pub data Edge : Status → Event → Status → Type 0 where
  submitted : Edge new submit detecting
  detected : Edge detecting detection_ok parsing
  not_detected : Edge detecting detection_fail failed
  parsed : Edge parsing parse_ok done
  not_parsed : Edge parsing parse_fail failed

-- The number of steps that a job has still before it at most.
abbrev pub steps_left : Status → ℕ
steps_left new = 3
steps_left detecting = 2
steps_left parsing = 1
steps_left done = 0
steps_left failed = 0

abbrev pub Accepts : FileJob → Event → Type 0
Accepts job ev = ((apply job ev).1 ≡ true) × Edge job.status ev (apply job ev).0.status

abbrev pub Refuses : FileJob → Event → Type 0
Refuses job ev =
    ((apply job ev).1 ≡ false)
    × ((apply job ev).0 ≡ job)
    × ((s : Status) → Edge job.status ev s → ⊥)

apply-Edge_at :
    (job : FileJob) (s : Status) (ev : Event)
    → Accepts (record job { status = s }) ev ⊎ Refuses (record job { status = s }) ev
unfolding apply
apply-Edge_at job new submit = inl (refl, submitted)
apply-Edge_at job detecting detection_ok = inl (refl, detected)
apply-Edge_at job detecting detection_fail = inl (refl, not_detected)
apply-Edge_at job parsing parse_ok = inl (refl, parsed)
apply-Edge_at job parsing parse_fail = inl (refl, not_parsed)
apply-Edge_at job _ _ = inr (refl, refl, λ s e. elim e [ ])

-- An event is accepted exactly where the diagram has an edge, and then the job takes it; a refused
-- event changes nothing.
pub apply-Edge : (job : FileJob) (ev : Event) → Accepts job ev ⊎ Refuses job ev
apply-Edge job ev = apply-Edge_at job job.status ev

-- An accepted event brings the job nearer to its end and leaves its other fields alone.
apply_progress :
    (job : FileJob) (ev : Event)
    → (apply job ev).1 ≡ true
    → (steps_left (apply job ev).0.status < steps_left job.status)
      × ((apply job ev).0
          ≡ record job { type = (apply job ev).0.type; status = (apply job ev).0.status })
unfolding apply
apply_progress job ev h = ground arith
