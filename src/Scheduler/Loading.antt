-- ===== src/Scheduler/Loading.antt =====
-- middleware/commandhandler/scheduler: Load puts the persisted commands in the queue.
use eventhorizon.Prelude.{
  ℕ, ◌+◌, ◌≡◌, ◌≤◌, refl, ap, sym, subst, ◌∙◌, inl, inr, List, [], ◌∷◌, ◌++◌, All, All-append, true,
  false, Bool-cases, length, ltb, arith,
}
use eventhorizon.Errors.{Err, Result, Result-cases, ok, err, panic}
use eventhorizon.Context.{Uuid}
use eventhorizon.Repo.{Repo, RepoLaws}
use eventhorizon.Scheduler.{
  Scheduler, ScheduledCommand, PersistedCommand, CommandCodec, scheduled_commands_queue_size,
  enqueue, enqueue_if, parse_id, read_command, read_commands, commands, load_each, load_found, load,
}
use eventhorizon.Scheduler.Persisting.{
  command_entity, occurs, occurs-added, scheduled_of, IsPersisted, waiting, Keeps, occurs-append,
}

module _ {C S : Type 0} where
  enqueue-room :
      (x : Err) (sc : ScheduledCommand C) (s : Scheduler C S)
      → ltb (length s.cmd_ch) scheduled_commands_queue_size ≡ true
      → enqueue x sc s ≡ (ok tt, record s { cmd_ch = s.cmd_ch ++ sc ∷ [] })
  unfolding enqueue enqueue_if
  enqueue-room x sc s room = ap (λ b. enqueue_if b x sc s) room

  enqueue-full :
      (x : Err) (sc : ScheduledCommand C) (s : Scheduler C S)
      → ltb (length s.cmd_ch) scheduled_commands_queue_size ≡ false
      → enqueue x sc s ≡ (err x, s)
  unfolding enqueue enqueue_if
  enqueue-full x sc s full = ap (λ b. enqueue_if b x sc s) full

module _ {C S : Type 0} (repo : Repo PersistedCommand S) (l : RepoLaws command_entity repo)
    (codec : CommandCodec C) (u : Uuid) where
  -- What Load reads is under IDs that differ and do not wait, and the text of each ID is that ID's.
  abbrev pub LoadsNew : Scheduler C S → Type 0
  LoadsNew s =
      ((pcs : List PersistedCommand)
        → (repo.find_all s.world).0 ≡ ok pcs
        → All (λ pc. parse_id repo codec u pc ≡ ok pc.id) pcs)
      × ((scs : List (ScheduledCommand C))
          → (commands repo codec u s).0 ≡ ok scs
          → (id : ℕ) → occurs id (waiting repo l codec s) + occurs id scs ≤ 1)

  read_command-IsPersisted :
      (w : S) (pc : PersistedCommand) (sc : ScheduledCommand C)
      → l.view w pc.id ≡ ok pc
      → parse_id repo codec u pc ≡ ok pc.id
      → read_command repo codec u pc ≡ ok sc
      → IsPersisted repo l codec w sc
  unfolding read_command
  read_command-IsPersisted w pc sc there own read =
      elim (Result-cases (codec.unmarshal_command pc.raw_command)) [
        | inl (cmd, p) ↦
            let same : record { id = pc.id; cmd = cmd; execute_at = pc.execute_at } ≡ sc =
              ground arith in
            subst (IsPersisted repo l codec w) same (pc, there, p, refl)
        | inr (inl (x, p)) ↦ absurd (ground arith)
        | inr (inr p) ↦ absurd (ground arith)
      ]

  read_commands-All :
      (w : S) (pcs : List PersistedCommand) (scs : List (ScheduledCommand C))
      → All (λ pc. l.view w pc.id ≡ ok pc) pcs
      → All (λ pc. parse_id repo codec u pc ≡ ok pc.id) pcs
      → read_commands repo codec u pcs ≡ ok scs
      → All (IsPersisted repo l codec w) scs
  unfolding read_commands
  read_commands-All w [] scs there own read =
      let empty : [] ≡ scs = ground arith in subst (All (IsPersisted repo l codec w)) empty tt
  read_commands-All w (pc ∷ pcs) scs there own read =
      let later = read_commands-All w pcs in
      elim (Result-cases (read_command repo codec u pc)) [
        | inl (sc, p) ↦ elim (Result-cases (read_commands repo codec u pcs)) [
          | inl (rest, q) ↦
              let same : sc ∷ rest ≡ scs = ground arith in
              subst (All (IsPersisted repo l codec w)) same
                (read_command-IsPersisted w pc sc there.0 own.0 p, later rest there.1 own.1 q)
          | inr (inl (x, q)) ↦ absurd (ground arith)
          | inr (inr q) ↦ absurd (ground arith)
        ]
        | inr (inl (x, p)) ↦ absurd (ground arith)
        | inr (inr p) ↦ absurd (ground arith)
      ]

  -- One turn of the loop of Load, after its send.
  then_load :
      List (ScheduledCommand C)
      → Result (Unit {0}) × Scheduler C S
      → Result (Unit {0}) × Scheduler C S
  then_load scs p = elim p.0 [
    | ok _ ↦ load_each repo codec u scs p.1
    | err x ↦ (err x, p.1)
    | panic ↦ (panic, p.1)
  ]

  load_each-Keeps :
      (scs : List (ScheduledCommand C)) (s : Scheduler C S)
      → Keeps repo l codec s
      → All (IsPersisted repo l codec s.world) scs
      → ((id : ℕ) → occurs id (waiting repo l codec s) + occurs id scs ≤ 1)
      → Keeps repo l codec (load_each repo codec u scs s).1
  unfolding load_each then_load
  load_each-Keeps [] s k there free = k
  load_each-Keeps (sc ∷ scs) s k there free =
      elim (Bool-cases (ltb (length s.cmd_ch) scheduled_commands_queue_size)) [
        | inr full ↦
            subst (λ p. Keeps repo l codec (then_load scs p).1) (sym (enqueue-full _ sc s full)) k
        | inl room ↦
            subst (λ p. Keeps repo l codec (then_load scs p).1) (sym (enqueue-room _ sc s room))
              (load_each-Keeps scs (record s { cmd_ch = s.cmd_ch ++ sc ∷ [] })
                (record {
                  holds = k.holds;
                  queued =
                      All-append (IsPersisted repo l codec s.world) s.cmd_ch (sc ∷ []) k.queued
                        (there.0, tt);
                  pending = k.pending;
                  distinct = λ id. omega (arith, queued id, joins id, free id);
                })
                there.1 (λ id. omega (arith, queued id, joins id, free id)))
      ]
    where
      queued :
          (id : ℕ)
          → occurs id ((s.cmd_ch ++ sc ∷ []) ++ scheduled_of s.tasks)
            ≡ occurs id (sc ∷ []) + occurs id (waiting repo l codec s)
      queued id =
          occurs-added id s.cmd_ch sc (scheduled_of s.tasks)
          ∙ occurs-append id (sc ∷ []) (waiting repo l codec s)

      joins : (id : ℕ) → occurs id (sc ∷ scs) ≡ occurs id (sc ∷ []) + occurs id scs
      joins id = occurs-append id (sc ∷ []) scs

  load_found-Keeps :
      (q : Result (List (ScheduledCommand C))) (s : Scheduler C S)
      → Keeps repo l codec s
      → ((scs : List (ScheduledCommand C))
          → q ≡ ok scs
          → All (IsPersisted repo l codec s.world) scs)
      → ((scs : List (ScheduledCommand C))
          → q ≡ ok scs
          → (id : ℕ) → occurs id (waiting repo l codec s) + occurs id scs ≤ 1)
      → Keeps repo l codec (load_found repo codec u (q, s)).1
  unfolding load_found
  load_found-Keeps (ok scs) s k there free =
      load_each-Keeps scs s k (there scs refl) (free scs refl)
  load_found-Keeps (err x) s k there free = k
  load_found-Keeps panic s k there free = k

  -- What Load reads is persisted.
  commands-All :
      (s : Scheduler C S) (scs : List (ScheduledCommand C))
      → l.Holds s.world
      → LoadsNew s
      → (commands repo codec u s).0 ≡ ok scs
      → All (IsPersisted repo l codec s.world) scs
  unfolding commands
  commands-All s scs holds new read = elim (Result-cases (repo.find_all s.world).0) [
    | inl (pcs, p) ↦
        read_commands-All s.world pcs scs (l.lists s.world pcs holds p) (new.0 pcs p) (ground arith)
    | inr (inl (x, p)) ↦ absurd (ground arith)
    | inr (inr p) ↦ absurd (ground arith)
  ]

  commands_state : (s : Scheduler C S) → (commands repo codec u s).1 ≡ s
  unfolding commands
  commands_state s = ap (λ w. record s { world = w }) (l.lists_state s.world)

  pub load-Keeps :
      (s : Scheduler C S)
      → LoadsNew s
      → Keeps repo l codec s
      → Keeps repo l codec (load repo codec u s).1
  unfolding load
  load-Keeps s new k =
      subst (λ t. Keeps repo l codec (load_found repo codec u ((commands repo codec u s).0, t)).1)
        (sym (commands_state s))
        (load_found-Keeps (commands repo codec u s).0 s k
          (λ scs read. commands-All s scs k.holds new read) new.1)
