-- ===== src/Namespace/Methods.antt =====
-- namespace/repo.go and namespace/eventstore.go: the methods, which look the instance of the
-- context's namespace up and call it; and the way two callers of Repo.repo can go wrong.
use eventhorizon.Prelude.{
  ℕ, String, String-discrete, ℕ_discrete, ◌≡◌, ◌≢◌, refl, ap, ◌∙◌, Option, none, some, List, arith,
}
use eventhorizon.Prelude.Maps
use eventhorizon.Prelude.Maps.{Map}
use eventhorizon.Errors.{Result, ok, err, panic, Action}
use eventhorizon.Event.{Event}
use eventhorizon.EventStore.{EventStore}
use eventhorizon.Repo.{Repo, FindContext}
use eventhorizon.Context.{Context, background, with_namespace, from_context}
use eventhorizon.Namespace.{Instances, event_store, repo, repo_locked, install}
use eventhorizon.Namespace.Lookups.{Callers, Step, lock, missed, got, update}

module _ {H W A : Type 0} where
  -- A call on the instance; on nil it panics.
  unfoldable pub call_on :
      (H → Action W A) → Result (Option H) × (Instances H × W) → Result A × (Instances H × W)
  call_on op (ok (some h), (m, w)) = let (r, v) = op h w in (r, (m, v))
  call_on op (ok none, s) = (panic, s)
  call_on op (err x, s) = (err x, s)
  call_on op (panic, s) = (panic, s)

module _ {E W : Type 0} (factory : String → Action W (Repo E W)) where
  unfoldable pub find : Context → FindContext → ℕ → Action (Instances (Repo E W) × W) E
  unfolding call_on repo from_context
  find ctx fctx id s =
      call_on (λ (r : Repo E W). r.find fctx id) (repo factory (from_context ctx) s)

  unfoldable pub find_all : Context → Action (Instances (Repo E W) × W) (List E)
  unfolding call_on repo from_context
  find_all ctx s = call_on (λ (r : Repo E W). r.find_all) (repo factory (from_context ctx) s)

  unfoldable pub save : Context → E → Action (Instances (Repo E W) × W) (Unit {0})
  unfolding call_on repo from_context
  save ctx e s = call_on (λ (r : Repo E W). r.save e) (repo factory (from_context ctx) s)

  unfoldable pub remove : Context → ℕ → Action (Instances (Repo E W) × W) (Unit {0})
  unfolding call_on repo from_context
  remove ctx id s = call_on (λ (r : Repo E W). r.remove id) (repo factory (from_context ctx) s)

  -- The methods under one context.
  abbrev pub namespaced : Context → Repo E (Instances (Repo E W) × W)
  namespaced ctx = record {
    find = find ctx;
    find_all = find_all ctx;
    save = save ctx;
    remove = remove ctx;
  }

module _ {Any W : Type 0} (factory : String → Action W (EventStore Any W)) where
  unfoldable pub save_events :
      Context → List (Event Any) → ℕ → Action (Instances (EventStore Any W) × W) (Unit {0})
  unfolding call_on event_store from_context
  save_events ctx es original s =
      call_on (λ (r : EventStore Any W). r.save es original)
        (event_store factory (from_context ctx) s)

  unfoldable pub load_events_from :
      Context → ℕ → ℕ → Action (Instances (EventStore Any W) × W) (List (Option (Event Any)))
  unfolding call_on event_store from_context
  load_events_from ctx id version s =
      call_on (λ (r : EventStore Any W). r.load_from id version)
        (event_store factory (from_context ctx) s)

  unfoldable pub pre_register_namespace :
      String → Action (Instances (EventStore Any W) × W) (Unit {0})
  unfolding call_on event_store from_context with_namespace
  pre_register_namespace ns s =
      call_on (λ h w. (ok tt, w))
        (event_store factory (from_context (with_namespace background ns)) s)

-- A client: the calls that it makes, each chosen by the results before it.
pub data Client (E : Type 0) : Type 0 where
  done : Client E
  find_then : FindContext → ℕ → (Result E → Client E) → Client E
  find_all_then : (Result (List E) → Client E) → Client E
  save_then : E → (Result (Unit {0}) → Client E) → Client E
  remove_then : ℕ → (Result (Unit {0}) → Client E) → Client E

module _ {E S : Type 0} (r : Repo E S) where
  unfoldable pub run_client : Client E → S → S
  run_client done s = s
  run_client (find_then ctx id k) s = let (a, t) = r.find ctx id s in run_client (k a) t
  run_client (find_all_then k) s = let (a, t) = r.find_all s in run_client (k a) t
  run_client (save_then e k) s = let (a, t) = r.save e s in run_client (k a) t
  run_client (remove_then id k) s = let (a, t) = r.remove id s in run_client (k a) t

module _ {E W : Type 0} (factory : String → Action W (Repo E W)) (ctx : Context) (r : Repo E W)
    (m : Instances (Repo E W)) (stored : m (from_context ctx) ≡ some r) where
  looked_up : (w : W) → repo factory (from_context ctx) (m, w) ≡ (ok (some r), (m, w))
  unfolding repo
  looked_up w = ground arith

  called :
      {A : Type 0} (op : Repo E W → Action W A) (w : W)
      → call_on op (repo factory (from_context ctx) (m, w)) ≡ ((op r w).0, (m, (op r w).1))
  unfolding call_on
  called op w = ap (call_on op) (looked_up w)

  -- Under one context, whatever a client does to the repository of namespaces, it does to the instance
  -- of its namespace, and the other instances stay what they are.
  pub run_client-namespaced :
      (k : Client E) (w : W) → run_client (namespaced factory ctx) k (m, w) ≡ (m, run_client r k w)
  unfolding run_client find find_all save remove call_on
  run_client-namespaced done w = refl
  run_client-namespaced (find_then fctx id k) w =
      let later = run_client-namespaced (k (r.find fctx id w).0) (r.find fctx id w).1 in
      ap (λ p. run_client (namespaced factory ctx) (k p.0) p.1)
        (called (λ (h : Repo E W). h.find fctx id) w)
      ∙ later
  run_client-namespaced (find_all_then k) w =
      let later = run_client-namespaced (k (r.find_all w).0) (r.find_all w).1 in
      ap (λ p. run_client (namespaced factory ctx) (k p.0) p.1)
        (called (λ (h : Repo E W). h.find_all) w)
      ∙ later
  run_client-namespaced (save_then e k) w =
      let later = run_client-namespaced (k (r.save e w).0) (r.save e w).1 in
      ap (λ p. run_client (namespaced factory ctx) (k p.0) p.1)
        (called (λ (h : Repo E W). h.save e) w)
      ∙ later
  run_client-namespaced (remove_then id k) w =
      let later = run_client-namespaced (k (r.remove id w).0) (r.remove id w).1 in
      ap (λ p. run_client (namespaced factory ctx) (k p.0) p.1)
        (called (λ (h : Repo E W). h.remove id) w)
      ∙ later

updated : {A : Type 0} (f : ℕ → A) (k : ℕ) (p : A) → update f k p k ≡ p
unfolding ℕ_discrete
updated f k p = ground arith

module _ {H W : Type 0} (factory : String → Action W H) where
  -- A caller of Repo.repo that found nothing under the read lock has taken the write lock.
  abbrev pub locked_by : ℕ → String → Callers H W → Callers H W
  locked_by i ns s = record {
    shared = (repo_locked factory ns s.shared).1;
    pc = update s.pc i (got ns (repo_locked factory ns s.shared).0);
  }

  repo_locked-some :
      (ns : String) (s : Instances H × W) (h : H)
      → s.0 ns ≡ some h
      → repo_locked factory ns s ≡ (ok none, s)
  unfolding repo_locked
  repo_locked-some ns (m, w) h there = ground arith

  repo_locked-none :
      (ns : String) (s : Instances H × W) (h : H) (v : W)
      → s.0 ns ≡ none
      → factory ns s.1 ≡ (ok h, v)
      → repo_locked factory ns s ≡ (ok (some h), (Maps.insert String-discrete ns h s.0, v))
  unfolding repo_locked install
  repo_locked-none ns (m, w) h v absent makes = rw (absent, makes) refl

  -- Two callers of Repo.repo that have both found no repo of a namespace, and a factory that makes it:
  -- whichever of them takes the write lock first gets the repo, which is stored; the other one, though
  -- it finds it there under the write lock, then gets nil, without an error.
  pub repo_lookup_nil :
      (ns : String) (i j : ℕ) (s : Callers H W) (h : H) (v : W)
      → i ≢ j
      → s.pc i ≡ missed ns
      → s.pc j ≡ missed ns
      → s.shared.0 ns ≡ none
      → factory ns s.shared.1 ≡ (ok h, v)
      → Step (repo_locked factory) s (locked_by i ns s)
        × ((locked_by i ns s).pc i ≡ got ns (ok (some h)))
        × Step (repo_locked factory) (locked_by i ns s) (locked_by j ns (locked_by i ns s))
        × ((locked_by j ns (locked_by i ns s)).pc j ≡ got ns (ok none))
        × ((locked_by j ns (locked_by i ns s)).shared.0 ns ≡ some h)
  unfolding ℕ_discrete
  repo_lookup_nil ns i j s h v n first second absent makes =
      let made = repo_locked-none ns s.shared h v absent makes in
      let stored : (locked_by i ns s).shared.0 ns ≡ some h =
        ap (λ p. p.1.0 ns) made ∙ Maps.get-insert_self String-discrete ns h s.shared.0 in
      let seen = repo_locked-some ns (locked_by i ns s).shared h stored in
      (
        lock i ns first,
        updated s.pc i (got ns (repo_locked factory ns s.shared).0) ∙ ap (λ p. got ns p.0) made,
        lock j ns (ground arith),
        updated (locked_by i ns s).pc j _ ∙ ap (λ p. got ns p.0) seen,
        ap (λ p. p.1.0 ns) seen ∙ stored,
      )
