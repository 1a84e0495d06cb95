-- ===== src/Util/PidFile/Exclusion.antt =====
-- Two processes never hold the lock on one PID file.
use file_inspect_key_analyse.Base.{
  Bytes, Bool, true, false, if◌then◌else◌, ◌≡◌, refl, subst, ap, ◌∙◌, inl, inr, Bool-cases, ok,
  >>=-ok_parts,
}
use file_inspect_key_analyse.Util.PidFile.{LockApi, hold, create_and_lock, is_locked}

-- What POSIX and boost say of locks on files: `Held` is that some process holds the lock.
pub record Excludes (L : LockApi) (Held : L.World → Bytes → Type 0) : Type 0 where
  -- To get the lock is to hold it, and who asks in vain changes nothing.
  pub got :
      (s s' : L.World) (p : Bytes) (lock : L.Lock)
      → L.file_lock s p ≡ ok lock
      → L.try_lock s lock ≡ ok (s', true)
      → Held s' p
  pub refused :
      (s : L.World) (p : Bytes) (lock : L.Lock)
      → Held s p
      → L.file_lock s p ≡ ok lock
      → L.try_lock s lock ≡ ok (s, false)
  -- The file of a held lock is there and can be opened for locking.
  pub file_there : (s : L.World) (p : Bytes) → Held s p → L.exists s p ≡ true
  pub lockable :
      (s : L.World) (p : Bytes) → Held s p → (lock : L.Lock) × (L.file_lock s p ≡ ok lock)
  -- To write to the file leaves it locked.
  pub open_kept : (s : L.World) (p : Bytes) → Held s p → Held (L.open_truncated s p).0 p
  pub write_kept : (s : L.World) (p : Bytes) → Held s p → Held (L.write_pid s p) p

module _ (L : LockApi) (Held : L.World → Bytes → Type 0) (ex : Excludes L Held) where
  -- Who asks for a lock that is held does not get it.
  pub create_and_lock-Held :
      (s : L.World) (p : Bytes)
      → Held s p
      → (create_and_lock L s p ≡ ok (s, false)) × (is_locked L s p ≡ ok true)
  unfolding create_and_lock is_locked hold
  create_and_lock-Held s p held =
      let there = ex.file_there s p held in
      let (lock, opened) = ex.lockable s p held in
      let no_luck = ex.refused s p lock held opened in
      (rw (there, opened) (rw no_luck refl), rw (there, opened) (rw no_luck refl))

  hold-Held :
      (s s' : L.World) (lock : L.Lock) (got : Bool) (p : Bytes)
      → (got ≡ true → Held s p)
      → hold L s lock got p ≡ (s', true)
      → Held s' p
  unfolding hold
  hold-Held s s' lock false p held h = let bad : (s, false) ≡ (s', true) = h in cc bad
  hold-Held s s' lock true p held h = elim (Bool-cases (L.open_truncated s p).1) [
    | inl opened ↦
        let same : (L.write_pid (L.open_truncated s p).0 p, true) ≡ (s', true) = rw opened at h in
        subst (λ (t : L.World × Bool). Held t.0 p) same
          (ex.write_kept (L.open_truncated s p).0 p (ex.open_kept s p (held refl)))
    | inr closed ↦
        let bad : (L.unlock (L.open_truncated s p).0 lock, false) ≡ (s', true) = rw closed at h in
        cc bad
  ]

  create_and_lock-got :
      (s s' : L.World) (p : Bytes) → create_and_lock L s p ≡ ok (s', true) → Held s' p
  unfolding create_and_lock
  create_and_lock-got s s' p h =
      let there = if L.exists s p then s else L.write_pid s p in
      let (lock, opened, locked) = >>=-ok_parts (L.file_lock there p) _ h in
      let (r, tried, held) = >>=-ok_parts (L.try_lock there lock) _ locked in
      hold-Held r.0 s' lock r.1 p
        (λ won. ex.got there r.0 p lock opened (tried ∙ ap (λ b. ok (r.0, b)) won)) (cc held)

  -- After a process has got the lock on its PID file, any other that asks for it is refused and
  -- changes nothing, and the file is seen to be locked.
  pub create_and_lock_once :
      (s s' : L.World) (p : Bytes)
      → create_and_lock L s p ≡ ok (s', true)
      → (create_and_lock L s' p ≡ ok (s', false)) × (is_locked L s' p ≡ ok true)
  create_and_lock_once s s' p h = create_and_lock-Held s' p (create_and_lock-got s s' p h)
