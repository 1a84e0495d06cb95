-- ===== src/Tests/Unwound.antt =====
-- The supervisor with one worker whose program is gone.
use file_inspect_key_analyse.Base.{
  ok, Bytes, codes, Bool, true, false, not, ◌&&◌, [], ◌∷◌, none, some, All, ◌≡◌, refl, thrown,
}
use file_inspect_key_analyse.Supervisor.Worker.{ProcessApi, ChildProcess}
use file_inspect_key_analyse.Supervisor.Worker
use file_inspect_key_analyse.Supervisor.{Supervisor, WorkerEntity, running}
use file_inspect_key_analyse.Supervisor.Unwound.{threw, rounds, destroy_workers}
use file_inspect_key_analyse.Supervisor.Unwound.Laws.{Kills, IsDown, rounds-destroy_workers}
use file_inspect_key_analyse.Tests.Supervision.{names}

-- Two processes, and no program to start a third from.
abbrev is_same : Bool → Bool → Bool
is_same true d = d
is_same false d = not d

abbrev pair : ProcessApi
pair = record {
  World = Bool → Bool;
  Child = Bool;
  spawn = λ s path args. thrown (codes "No such file or directory");
  running = λ s c. ok (s c);
  terminate = λ s c. ok (λ d. not (is_same c d) && s d);
  wait = λ s c. ok (λ d. not (is_same c d) && s d);
  drop = λ s c d. not (is_same c d) && s d;
  send_response = λ s m. thrown (codes "full");
}

kills_lem : (s : Bool → Bool) (c : Bool) → ok (not (is_same c c) && s c) ≡ ok false
kills_lem s true = refl
kills_lem s false = refl

starts_none_lem :
    (s : Bool → Bool) (c d : Bool) → ok (s d) ≡ ok false → ok (not (is_same c d) && s d) ≡ ok false
starts_none_lem s true true h = refl
starts_none_lem s true false h = h
starts_none_lem s false true h = h
starts_none_lem s false false h = refl

pair-Kills : Kills pair
pair-Kills = record { kills = kills_lem; starts_none = starts_none_lem }

abbrev member : Bool → Bytes → WorkerEntity pair names
member c name = record {
  w = record {
    process = some (record { proc = c; proc_name = name });
    factory = λ s. thrown (codes "No such file or directory");
  };
  state = running;
}

abbrev crashed : Supervisor pair names
crashed = record {
  system = record { world = λ c. c; ipc = []; pongs = [] };
  workers = member true (codes "detect") ∷ member false (codes "parse") ∷ [];
  queues = [];
}

rounds-destroy_workers_example :
    (rounds pair names (none ∷ none ∷ []) crashed
      ≡ threw (codes "No such file or directory") crashed)
    × All
        (IsDown pair names pair-Kills
          (destroy_workers pair names crashed.system.world crashed.workers))
        crashed.workers
unfolding Worker.is_alive
rounds-destroy_workers_example =
    rounds-destroy_workers pair names pair-Kills (member true (codes "detect") ∷ [])
      (member false (codes "parse")) [] (codes "No such file or directory") crashed (none ∷ []) refl
      ((true, refl, refl), tt) refl refl refl
