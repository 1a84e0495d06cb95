-- ===== src/Supervisor/Wanted.antt =====
-- What the operator of src/supervisor sees of it: for each worker its name and whether it is wanted
-- up, which commands change and processes that die do not.
pub mod Steps
pub mod Refinement
use file_inspect_key_analyse.Base.{
  ℕ, ℤ, zero, suc, pos, ◌+◌, ◌-◌, ◌≤◌, ◌<◌, ◌*◌, Bytes, String, codes, eq_bytes, eq_bytes_iff,
  eq_bytes_refl, is_empty, starts_with, starts_with-append, Bool, true, false, not, ◌&&◌, ◌||◌,
  List, [], ◌∷◌, ◌++◌, map, All, All-append, All-removed, Memᴰ, Option, none, some, if◌then◌else◌,
  ◌≡◌, refl, sym, ap, ◌∙◌, ◌⊎◌, inl, inr, ◌≢◌, ◌↔◌, arith, Bool-cases, Result, ok, thrown,
  undefined, >>=-ok_parts, catch-eq-ok, ◌>>=◌, catch, Dict, lookup, insert, lookup-insert, length,
  take, drop, replicate, ltb, ◌==◌, length-append, drop-add, drop-append, take-append,
}
use file_inspect_key_analyse.Global.Commands.{CommandType, CommandMessage, service}
use file_inspect_key_analyse.Supervisor.{WorkerState, running, stopped}

pub record Wanted : Type 0 where
  pub name : Bytes
  pub state : WorkerState

-- A command with no name is for all.
unfoldable pub is_for : Bytes → Wanted → Bool
is_for service_name w = is_empty service_name || eq_bytes w.name service_name

-- The services that can be told to stop.
unfoldable pub is_stoppable : Wanted → Bool
is_stoppable w =
    eq_bytes (codes "detect") w.name
    || eq_bytes (codes "parse") w.name
    || eq_bytes (codes "qm") w.name

unfoldable pub want_up : Bytes → Wanted → Wanted
unfolding is_for
want_up service_name w = if is_for service_name w then record w { state = running } else w

unfoldable pub want_down : Bytes → Wanted → Wanted
unfolding is_for is_stoppable
want_down service_name w =
    if is_for service_name w && is_stoppable w then record w { state = stopped } else w

unfoldable pub obey : CommandType → Bytes → List Wanted → List Wanted
obey CommandType.start name ws = map (want_up name) ws
obey CommandType.stop name ws = map (want_down name) ws
obey CommandType.restart name ws = map (want_up name) (map (want_down name) ws)
obey _ name ws = ws

-- A round in which nothing was received changes nothing.
unfoldable pub replay : List (Option CommandMessage) → List Wanted → List Wanted
replay [] ws = ws
replay (none ∷ later) ws = replay later ws
replay (some msg ∷ later) ws =
    replay later (elim (service msg) [ ok name ↦ obey msg.cmd name ws | _ ↦ ws ])
