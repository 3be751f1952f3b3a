-- ===== src/Scheduler/Tests.antt =====
-- middleware/commandhandler/scheduler over a memory repository, with numbers as commands.
use eventhorizon.Prelude.{ℕ, ℕ_discrete, ◌≡◌, refl, true, false, none, some, List, [], ◌∷◌, arith}
use eventhorizon.Prelude.Maps
use eventhorizon.Errors.{Result, ok, err, foreign, Action}
use eventhorizon.Context.{Uuid}
use eventhorizon.Repo.{Repo, RepoLaws}
use eventhorizon.Repo.Memory.{MemoryRepo, Json, memory_repo, save}
use eventhorizon.Repo.Memory.Order.{IsIndexed}
use eventhorizon.Repo.Memory.Finding.{RoundTrips}
use eventhorizon.Repo.Memory.Contract.{memory_repo_laws, memory_repo-Holds}
use eventhorizon.Scheduler.{
  Scheduler, PersistedCommand, CommandCodec, ScheduledCommand, schedule_command,
}
use eventhorizon.Scheduler.Steps.{scheduling}
use eventhorizon.Scheduler.Persisting.{command_entity, Keeps, occurs}
use eventhorizon.Scheduler.Keeping.{Step-Keeps}
use eventhorizon.Scheduler.Keeping

abbrev json : Json PersistedCommand PersistedCommand
json = record { marshal = ok; unmarshal = ok }

abbrev json_trip : RoundTrips json
json_trip = record { encode = λ e. e; encoded = λ e. refl; decoded = λ e. refl }

abbrev repo : Repo PersistedCommand (MemoryRepo PersistedCommand)
repo = memory_repo json command_entity

abbrev laws : RepoLaws command_entity repo
laws = memory_repo_laws json command_entity json_trip

abbrev read_number : List ℕ → Result ℕ
read_number [] = err (foreign 1)
read_number (n ∷ ns) = ok n

abbrev numbers : CommandCodec ℕ
numbers = record {
  marshal_command = λ n. ok (n ∷ []);
  unmarshal_command = read_number;
  command_id = λ n. none;
}

abbrev seven : Uuid
seven = record { print = λ id. "seven"; parse = λ text. some 7 }

abbrev ignore : ℕ → Action (MemoryRepo PersistedCommand) (Unit {0})
ignore cmd w = (ok tt, w)

abbrev fresh : Scheduler ℕ (MemoryRepo PersistedCommand)
fresh = record {
  world = record { db = Maps.empty; ids = []; factory_set = true };
  handler_set = true;
  cmd_ch = [];
  cancel_scheduling = Maps.empty;
  closed = λ ch. false;
  channels = 0;
  tasks = [];
  errors = [];
  started = true;
  running = true;
}

-- The command 5 under the ID 7, for the time 100.
abbrev one_scheduled : Scheduler ℕ (MemoryRepo PersistedCommand)
one_scheduled = (schedule_command repo numbers seven 5 7 100 fresh).1

abbrev five : ScheduledCommand ℕ
five = record { id = 7; cmd = 5; execute_at = 100 }

one_scheduled_runs : schedule_command repo numbers seven 5 7 100 fresh ≡ (ok 7, one_scheduled)
unfolding schedule_command memory_repo save ℕ_discrete
one_scheduled_runs = refl

fresh-IsIndexed : IsIndexed fresh.world
fresh-IsIndexed = record {
  present = λ id m. elim m [ ];
  listed = λ id h. absurd (h refl);
  distinct = tt;
}

fresh-Keeps : Keeps repo laws numbers fresh
unfolding occurs
fresh-Keeps = record {
  holds =
      memory_repo-Holds json command_entity json_trip fresh.world fresh-IsIndexed
        (λ id b d at un. absurd cc);
  queued = tt;
  pending = tt;
  distinct = λ id. omega arith;
}

numbers_trip : Keeping.RoundTrips repo laws numbers seven
numbers_trip cmd raw h = let bytes : cmd ∷ [] ≡ raw = cc in rw (← bytes) refl

Step-Keeps_example : Keeps repo laws numbers one_scheduled
unfolding occurs
Step-Keeps_example =
    Step-Keeps repo laws numbers seven ignore (λ cmd w h. (h, λ j. refl)) numbers_trip fresh
      one_scheduled (scheduling 5 7 100) refl fresh-Keeps
