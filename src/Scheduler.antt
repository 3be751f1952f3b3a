-- ===== src/Scheduler.antt =====
-- middleware/commandhandler/scheduler: commands that run at a given time, persisted until they are
-- done. `C` is the type of commands and `S` all that the repository and the inner handler act on. A
-- context travels with its command and is left out; an ID that uuid.New makes is an argument. The
-- goroutines of `run` are the tasks; what a select picks is a step of Scheduler.Steps. An error that
-- is sent to errCh, which blocks until there is room, is in `errors` from then on. The struct Error
-- around an error serves printing and is left out.
pub mod Steps
pub mod Persisting
pub mod Loading
pub mod Keeping
pub mod Cancelling
mod Tests
use eventhorizon.Prelude.{
  ℕ, ◌+◌, suc, String, String-discrete, ℕ_discrete, ◌≡◌, Bool, true, false, Option, none, some,
  List, [], ◌∷◌, ◌++◌, length, ltb, ite, if◌then◌else◌,
}
use eventhorizon.Prelude.Maps
use eventhorizon.Prelude.Maps.{Map}
use eventhorizon.Errors.{
  Err, Result, ok, err, panic, Action, message, wrap, errorf, ◌>>=◌, wrap_err,
}
use eventhorizon.Context.{Uuid}
use eventhorizon.Repo.{Repo}

-- ScheduledCommandsQueueSize
abbrev pub scheduled_commands_queue_size : ℕ
scheduled_commands_queue_size = 100

pub record PersistedCommand : Type 0 where
  pub id : ℕ
  pub id_str : String
  pub raw_command : List ℕ
  pub execute_at : ℕ

pub record ScheduledCommand (C : Type 0) : Type 0 where
  pub id : ℕ
  pub cmd : C
  pub execute_at : ℕ

-- A goroutine that waits, with its cancel channel.
pub record Task (C : Type 0) : Type 0 where
  pub scheduled : ScheduledCommand C
  pub channel : ℕ

pub record CommandCodec (C : Type 0) : Type 0 where
  pub marshal_command : C → Result (List ℕ)
  pub unmarshal_command : List ℕ → Result C
  pub command_id : C → Option ℕ  -- CommandID, for a command that has one

pub record Scheduler (C S : Type 0) : Type 0 where
  pub world : S
  pub handler_set : Bool
  pub cmd_ch : List (ScheduledCommand C)
  pub cancel_scheduling : Map ℕ ℕ
  pub closed : ℕ → Bool  -- of the cancel channels
  pub channels : ℕ  -- how many were made
  pub tasks : List (Task C)
  pub errors : List Err
  pub started : Bool  -- `cancel` is set
  pub running : Bool  -- `cctx` is not done

module _ {C S : Type 0} where
  -- setHandler, which a second call of the middleware reaches.
  unfoldable pub set_handler : Action (Scheduler C S) (Unit {0})
  set_handler s = if s.handler_set then (panic, s) else (ok tt, record s { handler_set = true })

  unfoldable pub start_scheduler : Action (Scheduler C S) (Unit {0})
  start_scheduler s =
      if s.handler_set
      then (ok tt, record s { started = true; running = true })
      else (err (message "command handler not set"), s)

  -- Stop cancels the context, and calls a nil function before a Start; the tasks end by themselves.
  unfoldable pub stop : Action (Scheduler C S) (Unit {0})
  stop s = if s.started then (ok tt, record s { running = false }) else (panic, s)

  enqueue_if : Bool → Err → ScheduledCommand C → Action (Scheduler C S) (Unit {0})
  enqueue_if true full sc s = (ok tt, record s { cmd_ch = s.cmd_ch ++ sc ∷ [] })
  enqueue_if false full sc s = (err full, s)

  -- `select { case s.cmdCh <- sc: default: }`
  unfoldable pub enqueue : Err → ScheduledCommand C → Action (Scheduler C S) (Unit {0})
  unfolding enqueue_if
  enqueue full sc s = enqueue_if (ltb (length s.cmd_ch) scheduled_commands_queue_size) full sc s

  -- close(cancel), on a channel that may be closed
  close_channel : Bool → ℕ → Action (Scheduler C S) (Unit {0})
  close_channel true ch s = (panic, s)
  close_channel false ch s =
      (ok tt, record s { closed = λ j. ite (ℕ_discrete ch j) true (s.closed j) })

  cancel_found : Option ℕ → Action (Scheduler C S) (Unit {0})
  unfolding close_channel
  cancel_found none s = (err (message "command not scheduled"), s)
  cancel_found (some ch) s = close_channel (s.closed ch) ch s

  unfoldable pub cancel_command : ℕ → Action (Scheduler C S) (Unit {0})
  unfolding cancel_found
  cancel_command id s = cancel_found (s.cancel_scheduling id) s

  module _ (repo : Repo PersistedCommand S) (codec : CommandCodec C) (u : Uuid) where
    enqueued : ℕ → Result (Unit {0}) × Scheduler C S → Result ℕ × Scheduler C S
    enqueued id (ok _, s) = (ok id, s)
    enqueued id (err x, s) = (err x, s)
    enqueued id (panic, s) = (panic, s)

    -- What follows the Save of the persisted command.
    persisted :
        ScheduledCommand C → Scheduler C S → Result (Unit {0}) × S → Result ℕ × Scheduler C S
    unfolding enqueued enqueue
    persisted sc s (ok _, w) =
        enqueued sc.id (enqueue (message "command queue full") sc (record s { world = w }))
    persisted sc s (err x, w) =
        (err (wrap (errorf "could not persist command") x), record s { world = w })
    persisted sc s (panic, w) = (panic, record s { world = w })

    schedule : ScheduledCommand C → Result (List ℕ) → Action (Scheduler C S) ℕ
    unfolding persisted
    schedule sc (ok raw) s = persisted sc s (
        repo.save
          (record {
            id = sc.id;
            id_str = u.print sc.id;
            raw_command = raw;
            execute_at = sc.execute_at;
          })
          s.world)
    schedule sc (err x) s = (err (wrap (errorf "could not marshal command") x), s)
    schedule sc panic s = (panic, s)

    -- The command's own ID, or the new one.
    unfoldable pub command_id_or : C → ℕ → ℕ
    command_id_or cmd fresh = elim (codec.command_id cmd) [ some id ↦ id | none ↦ fresh ]

    unfoldable pub schedule_command : C → ℕ → ℕ → Action (Scheduler C S) ℕ
    unfolding schedule command_id_or
    schedule_command cmd fresh execute_at =
        schedule (record { id = command_id_or cmd fresh; cmd = cmd; execute_at = execute_at })
          (codec.marshal_command cmd)

    pub parse_id : PersistedCommand → Result ℕ
    parse_id pc = ite (String-discrete pc.id_str "") (ok pc.id) (elim (u.parse pc.id_str) [
      | some id ↦ ok id
      | none ↦ err (wrap (errorf "could not parse command ID") (message "invalid UUID"))
    ])

    read_command : PersistedCommand → Result (ScheduledCommand C)
    unfolding parse_id
    read_command pc =
        wrap_err (errorf "could not unmarshal command") (codec.unmarshal_command pc.raw_command)
        >>= λ cmd.
            (parse_id pc >>= λ id. ok (record { id = id; cmd = cmd; execute_at = pc.execute_at }))

    -- The loop of Commands.
    read_commands : List PersistedCommand → Result (List (ScheduledCommand C))
    unfolding read_command
    read_commands [] = ok []
    read_commands (pc ∷ pcs) =
        let rest = read_commands pcs in read_command pc >>= λ sc. rest >>= λ scs. ok (sc ∷ scs)

    unfoldable pub commands : Action (Scheduler C S) (List (ScheduledCommand C))
    unfolding read_commands
    commands s =
        let (r, w) = repo.find_all s.world in
        (
          wrap_err (errorf "could not load scheduled commands") r >>= read_commands,
          record s { world = w },
        )

    -- The loop of Load; what is in the queue by then stays there.
    load_each : List (ScheduledCommand C) → Action (Scheduler C S) (Unit {0})
    unfolding enqueue
    load_each [] s = (ok tt, s)
    load_each (sc ∷ scs) s =
        let (r, t) = enqueue (message "could not schedule command, command queue full") sc s in
        elim r [ ok _ ↦ load_each scs t | err x ↦ (err x, t) | panic ↦ (panic, t) ]

    load_found :
        Result (List (ScheduledCommand C)) × Scheduler C S → Result (Unit {0}) × Scheduler C S
    unfolding load_each
    load_found (ok scs, s) = load_each scs s
    load_found (err x, s) = (err (wrap (errorf "could not load scheduled commands") x), s)
    load_found (panic, s) = (panic, s)

    unfoldable pub load : Action (Scheduler C S) (Unit {0})
    unfolding commands load_found
    load s = load_found (commands s)

    -- The handler that the middleware makes: a command with an execution time, which is `some` unless
    -- it is the zero time, is scheduled.
    unfoldable pub handle_command :
        (C → Action S (Unit {0})) → C → Option ℕ → ℕ → Action (Scheduler C S) (Unit {0})
    unfolding schedule_command
    handle_command inner cmd none fresh s =
        let (r, w) = inner cmd s.world in (r, record s { world = w })
    handle_command inner cmd (some t) fresh s =
        let (r, v) = schedule_command cmd fresh t s in
        (elim r [ ok id ↦ ok tt | err x ↦ err x | panic ↦ panic ], v)
