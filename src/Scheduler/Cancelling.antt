-- ===== src/Scheduler/Cancelling.antt =====
-- middleware/commandhandler/scheduler: what CancelCommand does.
use eventhorizon.Prelude.{ℕ, ◌≡◌, arith}
use eventhorizon.Errors.{ok, panic}
use eventhorizon.Scheduler.{Scheduler, cancel_command}

module _ {C S : Type 0} where
  -- A command that is cancelled stays in the map of channels, and a second CancelCommand closes its
  -- channel again, which panics.
  pub cancel_command_twice :
      (id : ℕ) (s : Scheduler C S)
      → (cancel_command id s).0 ≡ ok tt
      → (cancel_command id (cancel_command id s).1).0 ≡ panic
  unfolding cancel_command
  cancel_command_twice id s h = ground arith
