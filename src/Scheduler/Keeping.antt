-- ===== src/Scheduler/Keeping.antt =====
-- middleware/commandhandler/scheduler: the steps of the scheduler and the commands that wait.
use eventhorizon.Prelude.{
  ℕ, ◌≡◌, ◌≢◌, refl, ap, sym, subst, ◌∙◌, Bool, true, false, Option, none, some, List, [], ◌∷◌,
  ◌++◌, arith, All, All-append, if◌then◌else◌,
}
use eventhorizon.Errors.{Result, ok, err, panic, message, Action}
use eventhorizon.Context.{Uuid}
use eventhorizon.Repo.{Repo, RepoLaws}
use eventhorizon.Scheduler.{
  Scheduler, ScheduledCommand, Task, PersistedCommand, CommandCodec, command_id_or, close_channel,
  cancel_found, cancel_command, schedule_command, schedule, persisted, enqueued, stop,
  start_scheduler,
}
use eventhorizon.Scheduler.Steps.{
  Step, loading, scheduling, cancelling, starting, stopping, receiving, executing, dropping,
  leaving, receive, execute, drop,
}
use eventhorizon.Scheduler.Loading.{LoadsNew, load-Keeps}
use eventhorizon.Scheduler.Persisting.{
  command_entity, occurs, scheduled_of, occurs-moved, map-append, IsPersisted, waiting, Keeps,
  set_world-Keeps, enqueue-Keeps, without-Keeps,
}

either-state :
    {A S : Type 0} (P : S → Type 0) (b : Bool) (p q : A × S)
    → P p.1
    → P q.1
    → P (if b then p else q).1
either-state P true p q h k = h
either-state P false p q h k = k

module _ {C S : Type 0} (repo : Repo PersistedCommand S) (l : RepoLaws command_entity repo)
    (codec : CommandCodec C) (u : Uuid) where
  abbrev pub RoundTrips : Type 0
  RoundTrips =
      (cmd : C) (raw : List ℕ)
      → codec.marshal_command cmd ≡ ok raw
      → codec.unmarshal_command raw ≡ ok cmd

  enqueued-Keeps :
      (id : ℕ) (p : Result (Unit {0}) × Scheduler C S)
      → Keeps repo l codec p.1
      → Keeps repo l codec (enqueued repo codec u id p).1
  unfolding enqueued
  enqueued-Keeps id (ok _, s) k = k
  enqueued-Keeps id (err x, s) k = k
  enqueued-Keeps id (panic, s) k = k

  persisted-Keeps :
      (pc : PersistedCommand) (sc : ScheduledCommand C) (s : Scheduler C S)
      (p : Result (Unit {0}) × S)
      → repo.save pc s.world ≡ p
      → pc.id ≡ sc.id
      → codec.unmarshal_command pc.raw_command ≡ ok sc.cmd
      → pc.execute_at ≡ sc.execute_at
      → Keeps repo l codec s
      → occurs sc.id (waiting repo l codec s) ≡ 0
      → Keeps repo l codec (persisted repo codec u sc s p).1
  unfolding persisted
  persisted-Keeps pc sc s (ok _, w) e own read at k free = enqueued-Keeps sc.id _ (
      enqueue-Keeps repo l codec _ sc (record s { world = w })
        (set_world-Keeps repo l codec sc.id w s k holds same free)
        (pc, subst (λ i. l.view w i ≡ ok pc) own self, read, at) free)
    where
      holds : l.Holds w
      holds = subst (λ q. l.Holds q.1) e (l.save_holds pc s.world k.holds)

      same : (j : ℕ) → sc.id ≢ j → l.view w j ≡ l.view s.world j
      same j ne = ap (λ q. l.view q.1 j) (sym e) ∙ l.save_other pc s.world j (λ h. ne (sym own ∙ h))

      self : l.view w pc.id ≡ ok pc
      self = ap (λ q. l.view q.1 pc.id) (sym e) ∙ l.save_self pc s.world (ap (λ q. q.0) e)
  persisted-Keeps pc sc s (err x, w) e own read at k free =
      set_world-Keeps repo l codec sc.id w s k
        (subst (λ q. l.Holds q.1) e (l.save_holds pc s.world k.holds))
        (λ j ne. ap (λ q. l.view q.1 j) (sym e) ∙ l.save_other pc s.world j (λ h. ne (sym own ∙ h)))
        free
  persisted-Keeps pc sc s (panic, w) e own read at k free =
      set_world-Keeps repo l codec sc.id w s k
        (subst (λ q. l.Holds q.1) e (l.save_holds pc s.world k.holds))
        (λ j ne. ap (λ q. l.view q.1 j) (sym e) ∙ l.save_other pc s.world j (λ h. ne (sym own ∙ h)))
        free

  schedule-Keeps :
      (sc : ScheduledCommand C) (r : Result (List ℕ)) (s : Scheduler C S)
      → RoundTrips
      → codec.marshal_command sc.cmd ≡ r
      → Keeps repo l codec s
      → occurs sc.id (waiting repo l codec s) ≡ 0
      → Keeps repo l codec (schedule repo codec u sc r s).1
  unfolding schedule
  schedule-Keeps sc (ok raw) s trip e k free =
      persisted-Keeps _ sc s _ refl refl (trip sc.cmd raw e) refl k free
  schedule-Keeps sc (err x) s trip e k free = k
  schedule-Keeps sc panic s trip e k free = k

  receive-Keeps :
      (sc : ScheduledCommand C) (rest : List (ScheduledCommand C)) (s : Scheduler C S)
      → s.cmd_ch ≡ sc ∷ rest
      → Keeps repo l codec s
      → Keeps repo l codec (receive sc rest s)
  unfolding receive
  receive-Keeps sc rest s queued k = record {
    holds = k.holds;
    queued = all.1;
    pending = subst (All (IsPersisted repo l codec s.world)) (sym (map-append s.tasks (_ ∷ []))) (
        All-append (IsPersisted repo l codec s.world) (scheduled_of s.tasks) (sc ∷ []) k.pending
          (all.0, tt));
    distinct = λ id. omega (arith, moved id, k.distinct id);
  }
    where
      all : All (IsPersisted repo l codec s.world) (sc ∷ rest)
      all = subst (All (IsPersisted repo l codec s.world)) queued k.queued

      moved :
          (id : ℕ)
          → occurs id (
              rest
              ++ scheduled_of (s.tasks ++ record { scheduled = sc; channel = s.channels } ∷ []))
            ≡ occurs id (waiting repo l codec s)
      moved id =
          ap (λ ts. occurs id (rest ++ ts)) (map-append s.tasks (_ ∷ []))
          ∙ occurs-moved id rest sc (scheduled_of s.tasks)
          ∙ ap (λ q. occurs id (q ++ scheduled_of s.tasks)) (sym queued)

  -- A change of the world that only takes the command `id`, which does not wait, away.
  removed-Keeps :
      (id : ℕ) (w : S) (s : Scheduler C S)
      → Keeps repo l codec s
      → l.Holds w
      → ((j : ℕ) → l.view w j ≡ l.view s.world j)
      → occurs id (waiting repo l codec s) ≡ 0
      → Keeps repo l codec (record s { world = (repo.remove id w).1 })
  removed-Keeps id w s k holds same free =
      set_world-Keeps repo l codec id (repo.remove id w).1 s k (l.remove_holds id w holds)
        (λ j ne. l.remove_other id w j holds ne ∙ same j) free

  module _ (handle : C → Action S (Unit {0}))
      (apart : (cmd : C) (w : S)
        → l.Holds w
        → l.Holds (handle cmd w).1 × ((j : ℕ) → l.view (handle cmd w).1 j ≡ l.view w j)) where
    execute-Keeps :
        (t : Task C) (before after : List (Task C)) (s : Scheduler C S)
        → Keeps repo l codec s
        → s.tasks ≡ before ++ t ∷ after
        → Keeps repo l codec (execute repo handle t before after s)
    unfolding execute
    execute-Keeps t before after s k there =
        let (rest, free) = without-Keeps repo l codec t before after s k there in
        let (holds, same) = apart t.scheduled.cmd s.world k.holds in
        let done =
          removed-Keeps t.scheduled.id (handle t.scheduled.cmd s.world).1
            (record s { tasks = before ++ after }) rest holds same free in
        record {
          holds = done.holds;
          queued = done.queued;
          pending = done.pending;
          distinct = done.distinct;
        }

    drop-Keeps :
        (t : Task C) (before after : List (Task C)) (s : Scheduler C S)
        → Keeps repo l codec s
        → s.tasks ≡ before ++ t ∷ after
        → Keeps repo l codec (drop repo handle t before after s)
    unfolding drop
    drop-Keeps t before after s k there =
        let (rest, free) = without-Keeps repo l codec t before after s k there in
        let done =
          removed-Keeps t.scheduled.id s.world (record s { tasks = before ++ after }) rest k.holds
            (λ j. refl) free in
        record {
          holds = done.holds;
          queued = done.queued;
          pending = done.pending;
          distinct = done.distinct;
        }

    close_channel-Keeps :
        (b : Bool) (ch : ℕ) (s : Scheduler C S)
        → Keeps repo l codec s
        → Keeps repo l codec (close_channel b ch s).1
    unfolding close_channel
    close_channel-Keeps true ch s k = k
    close_channel-Keeps false ch s k = record {
      holds = k.holds;
      queued = k.queued;
      pending = k.pending;
      distinct = k.distinct;
    }

    cancel_found-Keeps :
        (o : Option ℕ) (s : Scheduler C S)
        → Keeps repo l codec s
        → Keeps repo l codec (cancel_found o s).1
    unfolding cancel_found
    cancel_found-Keeps none s k = k
    cancel_found-Keeps (some ch) s k = close_channel-Keeps (s.closed ch) ch s k

    -- Keeps does not read `started` and `running`.
    switched-Keeps :
        (a b : Bool) (s : Scheduler C S)
        → Keeps repo l codec s
        → Keeps repo l codec (record s { started = a; running = b })
    switched-Keeps a b s k = record {
      holds = k.holds;
      queued = k.queued;
      pending = k.pending;
      distinct = k.distinct;
    }

    start_scheduler-Keeps :
        (s : Scheduler C S) → Keeps repo l codec s → Keeps repo l codec (start_scheduler s).1
    unfolding start_scheduler
    start_scheduler-Keeps s k =
        either-state (Keeps repo l codec) s.handler_set
          (ok tt, record s { started = true; running = true })
          (err (message "command handler not set"), s) (switched-Keeps true true s k) k

    stop-Keeps : (s : Scheduler C S) → Keeps repo l codec s → Keeps repo l codec (stop s).1
    unfolding stop
    stop-Keeps s k =
        either-state (Keeps repo l codec) s.started (ok tt, record s { running = false }) (panic, s)
          (switched-Keeps s.started false s k) k

    -- A new command has an ID that no waiting command has; Load reads commands that are new.
    abbrev pub IsNew : {s t : Scheduler C S} → Step repo handle codec u s t → Type 0
    IsNew {s} (scheduling cmd fresh execute_at) =
        occurs (command_id_or repo codec u cmd fresh) (waiting repo l codec s) ≡ 0
    IsNew {s} loading = LoadsNew repo l codec u s
    IsNew (cancelling id) = Unit
    IsNew starting = Unit
    IsNew stopping = Unit
    IsNew (receiving sc rest running queued) = Unit
    IsNew (executing now t before after due there) = Unit
    IsNew (dropping t before after gone there) = Unit
    IsNew (leaving t before after stopped there) = Unit

    -- For a repository that keeps its laws, a codec that reads back what it writes, and an inner
    -- handler that leaves the persisted commands alone: each step, Load included, keeps every command
    -- that waits persisted as it is, and each ID waiting at most once, if a new command is scheduled
    -- under an ID that does not wait, and Load reads commands under IDs that differ and do not wait.
    pub Step-Keeps :
        RoundTrips
        → (s t : Scheduler C S) (step : Step repo handle codec u s t) → IsNew step
        → Keeps repo l codec s
        → Keeps repo l codec t
    unfolding schedule_command command_id_or cancel_command
    Step-Keeps trip s _ (scheduling cmd fresh execute_at) new k =
        schedule-Keeps
          (record { id = command_id_or repo codec u cmd fresh; cmd = cmd; execute_at = execute_at })
          (codec.marshal_command cmd) s trip refl k new
    Step-Keeps trip s _ loading new k = load-Keeps repo l codec u s new k
    Step-Keeps trip s _ (cancelling id) new k = cancel_found-Keeps (s.cancel_scheduling id) s k
    Step-Keeps trip s _ starting new k = start_scheduler-Keeps s k
    Step-Keeps trip s _ stopping new k = stop-Keeps s k
    Step-Keeps trip s _ (receiving sc rest running queued) new k = receive-Keeps sc rest s queued k
    Step-Keeps trip s _ (executing now t before after due there) new k =
        execute-Keeps t before after s k there
    Step-Keeps trip s _ (dropping t before after gone there) new k =
        drop-Keeps t before after s k there
    Step-Keeps trip s _ (leaving t before after stopped there) new k =
        (without-Keeps repo l codec t before after s k there).0
