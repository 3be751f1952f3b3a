-- ===== src/Scheduler/Steps.antt =====
-- middleware/commandhandler/scheduler: the loop of `run`, its goroutines and the calls of clients, as
-- steps.
use eventhorizon.Prelude.{ℕ, suc, ℕ_discrete, ◌≡◌, ◌≤◌, true, false, List, [], ◌∷◌, ◌++◌}
use eventhorizon.Prelude.Maps
use eventhorizon.Errors.{Err, Result, ok, err, panic, Action, message, errorf, wrap_err}
use eventhorizon.Context.{Uuid}
use eventhorizon.Repo.{Repo}
use eventhorizon.Scheduler.{
  Scheduler, ScheduledCommand, Task, PersistedCommand, CommandCodec, schedule_command,
  cancel_command, start_scheduler, stop, load,
}

-- An error that a goroutine sends, if there is one. A panic there ends the program.
unfoldable pub sent : Result (Unit {0}) → List Err
sent (ok _) = []
sent (err x) = x ∷ []
sent panic = []

module _ {C S : Type 0} where
  -- `sc := <-s.cmdCh`: a new cancel channel, in the place of one under the same ID, and a task.
  unfoldable pub receive :
      ScheduledCommand C → List (ScheduledCommand C) → Scheduler C S → Scheduler C S
  receive sc rest s = record s {
    cmd_ch = rest;
    cancel_scheduling = Maps.insert ℕ_discrete sc.id s.channels s.cancel_scheduling;
    channels = suc s.channels;
    tasks = s.tasks ++ record { scheduled = sc; channel = s.channels } ∷ [];
  }

  module _ (repo : Repo PersistedCommand S) (handle : C → Action S (Unit {0})) where
    -- The timer's case of a task: the command is handled, then removed, whether it failed or not.
    unfoldable pub execute : Task C → List (Task C) → List (Task C) → Scheduler C S → Scheduler C S
    unfolding sent
    execute t before after s =
        let (r, w) = handle t.scheduled.cmd s.world in
        let (q, v) = repo.remove t.scheduled.id w in
        record s {
          world = v;
          tasks = before ++ after;
          errors =
              s.errors ++ sent r ++ sent (wrap_err (errorf "could not remove persisted command") q);
        }

    -- The cancel channel's case.
    unfoldable pub drop : Task C → List (Task C) → List (Task C) → Scheduler C S → Scheduler C S
    unfolding sent
    drop t before after s =
        let (q, v) = repo.remove t.scheduled.id s.world in
        record s {
          world = v;
          tasks = before ++ after;
          errors =
              s.errors
              ++ sent (wrap_err (errorf "could not remove persisted command") q)
              ++ message "canceled" ∷ [];
        }

    module _ (codec : CommandCodec C) (u : Uuid) where
      pub data Step (s : Scheduler C S) : Scheduler C S → Type 0 where
        scheduling :
            (cmd : C) (fresh execute_at : ℕ)
            → Step s (schedule_command repo codec u cmd fresh execute_at s).1
        loading : Step s (load repo codec u s).1
        cancelling : (id : ℕ) → Step s (cancel_command id s).1
        starting : Step s (start_scheduler s).1
        stopping : Step s (stop s).1
        receiving :
            (sc : ScheduledCommand C) (rest : List (ScheduledCommand C))
            → s.running ≡ true
            → s.cmd_ch ≡ sc ∷ rest
            → Step s (receive sc rest s)
        executing :
            (now : ℕ) (t : Task C) (before after : List (Task C))
            → t.scheduled.execute_at ≤ now
            → s.tasks ≡ before ++ t ∷ after
            → Step s (execute t before after s)
        dropping :
            (t : Task C) (before after : List (Task C))
            → s.closed t.channel ≡ true
            → s.tasks ≡ before ++ t ∷ after
            → Step s (drop t before after s)
        -- The scheduler has stopped: the task ends and the command stays persisted.
        leaving :
            (t : Task C) (before after : List (Task C))
            → s.running ≡ false
            → s.tasks ≡ before ++ t ∷ after
            → Step s (record s { tasks = before ++ after })
