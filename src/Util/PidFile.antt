-- ===== src/Util/PidFile.antt =====
-- src/util/src/pid_file.cpp: the lock on a process's pid file. The files and their locks are a
-- parameter.
pub mod Exclusion
pub mod Pid
use file_inspect_key_analyse.Base.{
  Bytes, Bool, true, false, not, if◌then◌else◌, ◌≡◌, refl, ◌⊎◌, inl, inr, Bool-cases, Result, ok,
  thrown, undefined, ◌>>=◌, catch,
}

-- What the code uses of files and of `file_lock`. `lock` gives whether the lock was got.
pub record LockApi : Type 1 where
  pub World : Type 0
  pub Lock : Type 0
  pub exists : World → Bytes → Bool
  pub write_pid : World → Bytes → World
  pub file_lock : World → Bytes → Result Lock
  pub try_lock : World → Lock → Result (World × Bool)
  pub unlock : World → Lock → World
  pub open_truncated : World → Bytes → World × Bool

-- A test whose exceptions count as `false`.
caught :
    (r : Result Bool)
    → (catch r (λ what. ok false) ≡ ok true)
      ⊎ ((catch r (λ what. ok false) ≡ ok false) ⊎ (catch r (λ what. ok false) ≡ undefined))
caught (ok true) = inl refl
caught (ok false) = inr (inl refl)
caught (thrown what) = inr (inl refl)
caught undefined = inr (inr refl)

module _ (L : LockApi) where
  open L use {World, exists, write_pid, file_lock, try_lock, unlock, open_truncated}

  -- `pidfile_lock::create_and_lock`, once the lock was asked for.
  unfoldable pub hold : World → L.Lock → Bool → Bytes → World × Bool
  hold s lock false pid_path = (s, false)
  hold s lock true pid_path =
      let (s', opened) = open_truncated s pid_path in
      if opened then (write_pid s' pid_path, true) else (unlock s' lock, false)

  -- `pidfile_lock::create_and_lock`
  unfoldable pub create_and_lock : World → Bytes → Result (World × Bool)
  unfolding hold
  create_and_lock s pid_path = do
    let there = if exists s pid_path then s else write_pid s pid_path
    lock ← file_lock there pid_path
    r ← try_lock there lock
    ok (hold r.0 lock r.1 pid_path)

  -- `pidfile_lock::is_locked`: the lock that is got for the test is released at once.
  unfoldable pub is_locked : World → Bytes → Result Bool
  is_locked s pid_path =
      let tried = do lock ← file_lock s pid_path; r ← try_lock s lock; ok (not r.1)
      in if not (exists s pid_path) then ok false else catch tried (λ what. ok false)

  -- Asking whether a file is locked ends in an answer or in undefined behaviour of the lock itself:
  -- an exception counts as not locked, and so does a file that is not there.
  pub is_locked_lem :
      (s : World) (pid_path : Bytes)
      → (is_locked s pid_path ≡ ok true)
        ⊎ ((is_locked s pid_path ≡ ok false) ⊎ (is_locked s pid_path ≡ undefined))
  unfolding is_locked
  is_locked_lem s pid_path = elim (Bool-cases (exists s pid_path)) [
    | inl there ↦
        rw there (caught (file_lock s pid_path >>= λ lock. try_lock s lock >>= λ r. ok (not r.1)))
    | inr missing ↦ inr (inl (rw missing refl))
  ]
