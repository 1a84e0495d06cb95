-- ===== src/Qm/StateMachine.antt =====
-- src/qm/include/state_machine.h and src/qm/src/state_machine.cpp: the states of a job.
pub mod Graph
use file_inspect_key_analyse.Base.{
  ℕ, ℤ, zero, suc, pos, ◌+◌, ◌-◌, ◌≤◌, ◌<◌, ◌*◌, Bytes, String, codes, eq_bytes, eq_bytes_iff,
  eq_bytes_refl, is_empty, starts_with, starts_with-append, Bool, true, false, not, ◌&&◌, ◌||◌,
  List, [], ◌∷◌, ◌++◌, map, All, All-append, Memᴰ, Option, none, some, if◌then◌else◌, ◌≡◌, refl,
  sym, ap, ◌∙◌, ◌⊎◌, inl, inr, ◌≢◌, ◌↔◌, arith, Bool-cases, Result, ok, thrown, undefined, ◌>>=◌,
  catch, Dict, lookup, insert, lookup-insert, length, take, drop, replicate, ltb, ◌==◌,
  length-append, drop-add, drop-append, take-append,
}
use file_inspect_key_analyse.Global.FileJob.{
  FileJob, Status, new, detecting, parsing, done, failed, Event, submit, detection_ok,
  detection_fail, parse_ok, parse_fail, JobType, detector, parser, no_type,
}

unfoldable pub eq_status : Status → Status → Bool
eq_status new new = true
eq_status detecting detecting = true
eq_status parsing parsing = true
eq_status done done = true
eq_status failed failed = true
eq_status _ _ = false

unfoldable pub eq_event : Event → Event → Bool
eq_event submit submit = true
eq_event detection_ok detection_ok = true
eq_event detection_fail detection_fail = true
eq_event parse_ok parse_ok = true
eq_event parse_fail parse_fail = true
eq_event _ _ = false

-- An action changes the job and returns its new status.
abbrev pub Action : Type 0
Action = FileJob → FileJob × Status

abbrev pub Transitions : Type 0
Transitions = List (Status × Event × Action)

-- What the constructor of `state_machine` fills in.
unfoldable pub transitions : Transitions
transitions =
    (new, submit, λ job. (record job { type = detector }, detecting))
    ∷ (detecting, detection_ok, λ job. (record job { type = parser }, parsing))
    ∷ (detecting, detection_fail, λ job. (job, failed))
    ∷ (parsing, parse_ok, λ job. (job, done))
    ∷ (parsing, parse_fail, λ job. (job, failed))
    ∷ []

unfoldable pub find_transition : Status → Event → Transitions → Option Action
find_transition s e [] = none
find_transition s e ((s', e', action) ∷ ts) =
    if eq_status s' s && eq_event e' e then some action else find_transition s e ts

unfoldable pub apply : FileJob → Event → FileJob × Bool
unfolding find_transition transitions eq_status eq_event
apply job ev = elim (find_transition job.status ev transitions) [
  | none ↦ (job, false)
  | some action ↦ let (job', status) = action job in (record job' { status = status }, true)
]
