-- ===== src/Supervisor/Worker.antt =====
-- src/supervisor/include/worker.h and src/supervisor/src/worker.cpp: one process under the
-- supervisor. `boost::process` is a parameter.
use file_inspect_key_analyse.Global.FilePath.{filename}
use file_inspect_key_analyse.Global.Commands.{CommandResponse}
use file_inspect_key_analyse.Base.{
  Bytes, Bool, false, List, Option, none, some, if◌then◌else◌, Result, ok, undefined, ◌>>=◌,
}

-- What the code uses of `boost::process::child`, where `drop` is its destructor, and of the queue for
-- the answers to `fika`. Every call but the destructor may throw.
pub record ProcessApi : Type 1 where
  pub World : Type 0
  pub Child : Type 0
  pub spawn : World → Bytes → List Bytes → Result (World × Child)
  pub running : World → Child → Result Bool
  pub terminate : World → Child → Result World
  pub wait : World → Child → Result World
  pub drop : World → Child → World
  pub send_response : World → CommandResponse → Result World

module _ (P : ProcessApi) where
  open P use {World, Child, spawn, running, terminate, wait, drop}

  -- `boost_child_process`
  pub record ChildProcess : Type 0 where
    pub proc : Child
    pub proc_name : Bytes

  unfoldable pub boost_child_process : World → Bytes → List Bytes → Result (World × ChildProcess)
  boost_child_process s path args = do
    r ← spawn s path args
    ok (r.0, record { proc = r.1; proc_name = filename path })

  -- `boost_child_process::terminate`
  unfoldable pub terminate_child : World → ChildProcess → Result World
  terminate_child s c = do
    runs ← running s c.proc
    let terminated = terminate s c.proc
    if runs then terminated else ok s

  abbrev pub Factory : Type 0
  Factory = World → Result (World × ChildProcess)

  -- The time of the last heartbeat, which nothing reads, is left out.
  pub record Worker : Type 0 where
    pub process : Option ChildProcess
    pub factory : Factory

  -- The constructor.
  unfoldable pub worker : Factory → Worker
  worker factory = record { process = none; factory = factory }

  -- The old object of a `unique_ptr` that is assigned to.
  unfoldable pub release : World → Option ChildProcess → World
  release s none = s
  release s (some c) = drop s c.proc

  -- `worker::start`
  unfoldable pub start : World → Worker → Result (World × Worker)
  unfolding release
  start s w = do r ← w.factory s; ok (release r.0 w.process, record w { process = some r.1 })

  -- `worker::stop`
  unfoldable pub stop : World → Worker → Result World
  unfolding terminate_child
  stop s w = elim w.process [ none ↦ ok s | some c ↦ terminate_child s c ]

  -- `worker::wait`
  unfoldable pub wait_for : World → Worker → Result World
  wait_for s w = elim w.process [ none ↦ ok s | some c ↦ wait s c.proc ]

  -- `worker::is_alive`
  unfoldable pub is_alive : World → Worker → Result Bool
  is_alive s w = elim w.process [ none ↦ ok false | some c ↦ running s c.proc ]

  -- `worker::restart`
  unfoldable pub restart : World → Worker → Result (World × Worker)
  unfolding stop is_alive
  restart s w = do
    alive ← is_alive s w
    let terminated = stop s w
    s' ← if alive then terminated else ok s
    start s' w

  -- `worker::name`, through a pointer that may be null.
  unfoldable pub name : Worker → Result Bytes
  name w = elim w.process [ none ↦ undefined | some c ↦ ok c.proc_name ]
