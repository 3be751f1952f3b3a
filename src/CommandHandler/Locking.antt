-- ===== src/CommandHandler/Locking.antt =====
-- The lock middleware lets one command at a time through to an aggregate.
use eventhorizon.Prelude.{
  ℕ, ℕ_discrete, ◌≡◌, refl, ap, ◌∙◌, fun_ext, true, false, Bool-cases, inl, inr, Option, some,
  arith,
}
use eventhorizon.Errors.{Err, Result, ok, err, sentinel, lock_exists}
use eventhorizon.Command.{Command}
use eventhorizon.CommandHandler.{Handler, Locks, lock, unlock, unlocked, with_lock, lock_middleware}

unlock-lock : (id : ℕ) (locks : Locks) → locks id ≡ false → (unlock id (lock id locks).1).1 ≡ locks
unfolding lock unlock
unlock-lock id locks free =
    fun_ext λ j. elim (ℕ_discrete id j) [ yes p ↦ ground arith | no n ↦ ground arith ]

lock_free : (id : ℕ) (locks : Locks) → locks id ≡ false → lock id locks ≡ (ok tt, (lock id locks).1)
unfolding lock
lock_free id locks free = ground arith

lock_held : (id : ℕ) (locks : Locks) → locks id ≡ false → (lock id locks).1 id ≡ true
unfolding lock
lock_held id locks free = ground arith

module _ {S : Type 0} (h : Handler (Locks × S)) (ctx : Option Err) (cmd : Command) where
  -- The command of an aggregate that is locked is refused, and not handled.
  busy :
      (locks : Locks) (s : S)
      → locks cmd.aggregate_id ≡ true
      → lock_middleware h ctx (some cmd) (locks, s) ≡ (err (sentinel lock_exists), (locks, s))
  unfolding lock_middleware lock with_lock
  busy locks s held = ground arith

  -- Else it is handled with the lock, and the lock is taken off whatever comes of it.
  lets_in :
      (locks : Locks) (s : S)
      → locks cmd.aggregate_id ≡ false
      → lock_middleware h ctx (some cmd) (locks, s)
        ≡ unlocked cmd.aggregate_id (h ctx (some cmd) ((lock cmd.aggregate_id locks).1, s))
  unfolding lock_middleware with_lock
  lets_in locks s free = rw (lock_free cmd.aggregate_id locks free, with_lock) refl

  -- If the aggregate is locked, its command is refused and changes nothing. Else the handler gets the
  -- command with the aggregate locked, and, if it leaves the locks alone, the locks are afterwards
  -- what they were, whether it returned, failed or panicked.
  pub lock_middleware_lem :
      (locks : Locks) (s t : S) (r : Result (Unit {0}))
      → h ctx (some cmd) ((lock cmd.aggregate_id locks).1, s)
        ≡ (r, ((lock cmd.aggregate_id locks).1, t))
      → (locks cmd.aggregate_id ≡ true
          → lock_middleware h ctx (some cmd) (locks, s) ≡ (err (sentinel lock_exists), (locks, s)))
        × (locks cmd.aggregate_id ≡ false
            → ((lock cmd.aggregate_id locks).1 cmd.aggregate_id ≡ true)
              × (lock_middleware h ctx (some cmd) (locks, s) ≡ (r, (locks, t))))
  unfolding unlocked
  lock_middleware_lem locks s t r handled = (
    busy locks s,
    λ free. (
      lock_held cmd.aggregate_id locks free,
      lets_in locks s free
          ∙ rw (handled, unlocked)
              (ap (λ l. (r, (l, t))) (unlock-lock cmd.aggregate_id locks free)),
    ),
  )

-- A command that is sent through the lock while a command for the same aggregate is handled is
-- refused, and the locks are afterwards what they were.
pub lock_middleware_twice :
    {S : Type 0} (h : Handler (Locks × S)) (ctx : Option Err) (cmd : Command) (locks : Locks)
    (s : S)
    → lock_middleware (lock_middleware h) ctx (some cmd) (locks, s)
      ≡ (err (sentinel lock_exists), (locks, s))
lock_middleware_twice h ctx cmd locks s = elim (Bool-cases (locks cmd.aggregate_id)) [
  | inl held ↦ busy (lock_middleware h) ctx cmd locks s held
  | inr free ↦
      let held = lock_held cmd.aggregate_id locks free in
      ((lock_middleware_lem (lock_middleware h) ctx cmd locks s s (err (sentinel lock_exists))
          (busy h ctx cmd (lock cmd.aggregate_id locks).1 s held)).1
        free).1
]
