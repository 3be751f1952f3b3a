-- ===== src/Scheduler/Persisting.antt =====
-- middleware/commandhandler/scheduler: what it means that the commands that wait are persisted, and
-- the changes that keep it so.
use eventhorizon.Prelude.{
  ℕ, ◌+◌, suc, ℕ_discrete, ◌≡◌, ◌≢◌, ◌≤◌, refl, ap, sym, subst, ◌∙◌, Bool, true, false, none, List,
  [], ◌∷◌, ◌++◌, map, length, ltb, arith, ite, All, All-append,
}
use eventhorizon.Errors.{Err, ok}
use eventhorizon.Repo.{Repo, RepoLaws, Entity}
use eventhorizon.Scheduler.{
  Scheduler, ScheduledCommand, Task, PersistedCommand, CommandCodec, scheduled_commands_queue_size,
  enqueue, enqueue_if,
}

abbrev pub command_entity : Entity PersistedCommand
command_entity = record { entity_id = λ pc. pc.id; aggregate_version = λ pc. none }

module _ {C : Type 0} where
  -- How often an ID is among the commands.
  unfoldable pub occurs : ℕ → List (ScheduledCommand C) → ℕ
  occurs id [] = 0
  occurs id (sc ∷ scs) = let rest = occurs id scs in ite (ℕ_discrete sc.id id) (suc rest) rest

  abbrev pub scheduled_of : List (Task C) → List (ScheduledCommand C)
  scheduled_of ts = map (λ (t : Task C). t.scheduled) ts

  pub occurs-append :
      (id : ℕ) (xs ys : List (ScheduledCommand C))
      → occurs id (xs ++ ys) ≡ occurs id xs + occurs id ys
  unfolding occurs
  occurs-append id [] ys = omega arith
  occurs-append id (x ∷ xs) ys = ground (arith, occurs-append id xs ys)

  pub map-append :
      (xs ys : List (Task C)) → scheduled_of (xs ++ ys) ≡ scheduled_of xs ++ scheduled_of ys
  map-append [] ys = refl
  map-append (x ∷ xs) ys = ap (λ l. x.scheduled ∷ l) (map-append xs ys)

  All-change :
      (P Q : ScheduledCommand C → Type 0) (id : ℕ)
      → ((sc : ScheduledCommand C) → sc.id ≢ id → P sc → Q sc)
      → (xs : List (ScheduledCommand C)) → occurs id xs ≡ 0
      → All P xs
      → All Q xs
  unfolding occurs
  All-change P Q id f [] none_there h = tt
  All-change P Q id f (x ∷ xs) none_there h =
      let later = All-change P Q id f xs in
      elim (ℕ_discrete x.id id) [
        | yes same ↦ absurd (ground arith)
        | no other ↦ (f x other h.0, later (ground arith) h.1)
      ]

  All-without :
      (P : ScheduledCommand C → Type 0) (xs : List (Task C)) (t : Task C) (ys : List (Task C))
      → All P (scheduled_of (xs ++ t ∷ ys))
      → All P (scheduled_of (xs ++ ys))
  All-without P [] t ys h = h.1
  All-without P (x ∷ xs) t ys h = (h.0, All-without P xs t ys h.1)

  occurs-without :
      (id : ℕ) (xs : List (Task C)) (t : Task C) (ys : List (Task C))
      → occurs id (scheduled_of (xs ++ t ∷ ys)) ≡ occurs id (t.scheduled ∷ scheduled_of (xs ++ ys))
  unfolding occurs
  occurs-without id [] t ys = refl
  occurs-without id (x ∷ xs) t ys = ground (arith, occurs-without id xs t ys)

  occurs_self :
      (sc : ScheduledCommand C) (scs : List (ScheduledCommand C))
      → occurs sc.id (sc ∷ scs) ≡ suc (occurs sc.id scs)
  unfolding occurs
  occurs_self sc scs = ground arith

  occurs-cons :
      (id : ℕ) (sc : ScheduledCommand C) (scs : List (ScheduledCommand C))
      → occurs id scs ≤ occurs id (sc ∷ scs)
  unfolding occurs
  occurs-cons id sc scs = ground arith

  occurs-other :
      (id : ℕ) (sc : ScheduledCommand C) (scs : List (ScheduledCommand C))
      → sc.id ≢ id
      → occurs id (sc ∷ scs) ≡ occurs id scs
  unfolding occurs
  occurs-other id sc scs ne = ground arith

  -- A command at the end of the queue.
  pub occurs-added :
      (id : ℕ) (q : List (ScheduledCommand C)) (sc : ScheduledCommand C)
      (ts : List (ScheduledCommand C))
      → occurs id ((q ++ sc ∷ []) ++ ts) ≡ occurs id (sc ∷ (q ++ ts))
  unfolding occurs
  occurs-added id [] sc ts = refl
  occurs-added id (x ∷ q) sc ts = ground (arith, occurs-added id q sc ts)

  -- A command that goes from the queue to the end of the tasks.
  pub occurs-moved :
      (id : ℕ) (q : List (ScheduledCommand C)) (sc : ScheduledCommand C)
      (ts : List (ScheduledCommand C))
      → occurs id (q ++ (ts ++ sc ∷ [])) ≡ occurs id ((sc ∷ q) ++ ts)
  occurs-moved id q sc ts = omega (
    arith,
    occurs-append id q (ts ++ sc ∷ []),
    occurs-append id ts (sc ∷ []),
    occurs-append id (sc ∷ []) (q ++ ts),
    occurs-append id q ts,
  )

  occurs-new :
      (id : ℕ) (sc : ScheduledCommand C) (scs : List (ScheduledCommand C))
      → occurs sc.id scs ≡ 0
      → occurs id scs ≤ 1
      → occurs id (sc ∷ scs) ≤ 1
  unfolding occurs
  occurs-new id sc scs free le = elim (ℕ_discrete sc.id id) [
    | yes same ↦ ground (arith, ap (λ i. occurs i scs) same)
    | no other ↦ ground arith
  ]

module _ {C S : Type 0} (repo : Repo PersistedCommand S) (l : RepoLaws command_entity repo)
    (codec : CommandCodec C) where
  -- The repository has the command, and the codec reads it back.
  abbrev pub IsPersisted : S → ScheduledCommand C → Type 0
  IsPersisted w sc =
      (pc : PersistedCommand) × (l.view w sc.id ≡ ok pc)
      × (codec.unmarshal_command pc.raw_command ≡ ok sc.cmd)
      × (pc.execute_at ≡ sc.execute_at)

  abbrev pub waiting : Scheduler C S → List (ScheduledCommand C)
  waiting s = s.cmd_ch ++ scheduled_of s.tasks

  -- Every command that waits, in the queue or for its time, is persisted; their IDs differ.
  pub record Keeps (s : Scheduler C S) : Type 0 where
    pub holds : l.Holds s.world
    pub queued : All (IsPersisted s.world) s.cmd_ch
    pub pending : All (IsPersisted s.world) (scheduled_of s.tasks)
    pub distinct : (id : ℕ) → occurs id (waiting s) ≤ 1

  -- A world in which only the command `id`, which does not wait, may have changed.
  pub set_world-Keeps :
      (id : ℕ) (w : S) (s : Scheduler C S)
      → Keeps s
      → l.Holds w
      → ((j : ℕ) → id ≢ j → l.view w j ≡ l.view s.world j)
      → occurs id (waiting s) ≡ 0
      → Keeps (record s { world = w })
  set_world-Keeps id w s k holds same free = record {
    holds = holds;
    queued =
        All-change (IsPersisted s.world) (IsPersisted w) id carry s.cmd_ch (omega (arith, split))
          k.queued;
    pending =
        All-change (IsPersisted s.world) (IsPersisted w) id carry (scheduled_of s.tasks)
          (omega (arith, split)) k.pending;
    distinct = k.distinct;
  }
    where
      split : occurs id s.cmd_ch + occurs id (scheduled_of s.tasks) ≡ 0
      split = sym (occurs-append id s.cmd_ch (scheduled_of s.tasks)) ∙ free

      carry : (sc : ScheduledCommand C) → sc.id ≢ id → IsPersisted s.world sc → IsPersisted w sc
      carry sc other (pc, there, read, at) = (pc, same sc.id (λ e. other (sym e)) ∙ there, read, at)

  enqueue_if-Keeps :
      (room : Bool) (full : Err) (sc : ScheduledCommand C) (s : Scheduler C S)
      → Keeps s
      → IsPersisted s.world sc
      → occurs sc.id (waiting s) ≡ 0
      → Keeps (enqueue_if room full sc s).1
  unfolding enqueue_if
  enqueue_if-Keeps true full sc s k there free = record {
    holds = k.holds;
    queued = All-append (IsPersisted s.world) s.cmd_ch (sc ∷ []) k.queued (there, tt);
    pending = k.pending;
    distinct = λ id. omega (
      arith,
      occurs-added id s.cmd_ch sc (scheduled_of s.tasks),
      occurs-new id sc (waiting s) free (k.distinct id),
    );
  }
  enqueue_if-Keeps false full sc s k there free = k

  pub enqueue-Keeps :
      (full : Err) (sc : ScheduledCommand C) (s : Scheduler C S)
      → Keeps s
      → IsPersisted s.world sc
      → occurs sc.id (waiting s) ≡ 0
      → Keeps (enqueue full sc s).1
  unfolding enqueue
  enqueue-Keeps full sc s k there free =
      enqueue_if-Keeps (ltb (length s.cmd_ch) scheduled_commands_queue_size) full sc s k there free

  pub without-Keeps :
      (t : Task C) (before after : List (Task C)) (s : Scheduler C S)
      → Keeps s
      → s.tasks ≡ before ++ t ∷ after
      → Keeps (record s { tasks = before ++ after })
        × (occurs t.scheduled.id (s.cmd_ch ++ scheduled_of (before ++ after)) ≡ 0)
  without-Keeps t before after s k there = (
    record {
      holds = k.holds;
      queued = k.queued;
      pending =
          All-without (IsPersisted s.world) before t after
            (subst (λ ts. All (IsPersisted s.world) (scheduled_of ts)) there k.pending);
      distinct = λ id. omega (
        arith,
        total id,
        count id,
        occurs-cons id t.scheduled (scheduled_of (before ++ after)),
        occurs-append id s.cmd_ch (scheduled_of (before ++ after)),
        k.distinct id,
      );
    },
    omega (
      arith,
      total t.scheduled.id,
      count t.scheduled.id,
      occurs_self t.scheduled (scheduled_of (before ++ after)),
      occurs-append t.scheduled.id s.cmd_ch (scheduled_of (before ++ after)),
      k.distinct t.scheduled.id,
    ),
  )
    where
      count :
          (id : ℕ)
          → occurs id (scheduled_of s.tasks)
            ≡ occurs id (t.scheduled ∷ scheduled_of (before ++ after))
      count id = ap (λ ts. occurs id (scheduled_of ts)) there ∙ occurs-without id before t after

      total :
          (id : ℕ) → occurs id (waiting s) ≡ occurs id s.cmd_ch + occurs id (scheduled_of s.tasks)
      total id = occurs-append id s.cmd_ch (scheduled_of s.tasks)
