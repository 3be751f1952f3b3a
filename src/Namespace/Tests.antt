-- ===== src/Namespace/Tests.antt =====
-- namespace on one namespace, "tenant", whose instances are memory repositories of items.
use eventhorizon.Prelude.{
  ℕ, suc, ◌+◌, String, String-discrete, ℕ_discrete, ◌≡◌, ◌≢◌, arith, refl, true, Option, none, some,
  [], ◌∷◌,
}
use eventhorizon.Prelude.Maps
use eventhorizon.Errors.{ok, err, Action, message}
use eventhorizon.Repo.{Repo, background}
use eventhorizon.Repo.Memory.{MemoryRepo, memory_repo}
use eventhorizon.Samples.{Item, item, entity, json}
use eventhorizon.Context.{Context, from_context}
use eventhorizon.Context
use eventhorizon.Namespace.{Instances, event_store_locked, repo_locked, close}
use eventhorizon.Namespace.Lookups.{
  Callers, Step, Reach, start, next, look, lock, got, first_look, idle, update, Reach-Agreed,
}
use eventhorizon.Namespace.Methods.{
  namespaced, run_client, Client, save_then, find_then, done, run_client-namespaced,
  repo_lookup_nil, locked_by,
}

-- A factory that numbers its instances.
abbrev counting : String → Action ℕ ℕ
counting ns n = (ok n, suc n)

-- Two callers that both find nothing, then the first and the second under the write lock.
abbrev begun : Callers ℕ ℕ
begun = record {
  shared = (Maps.empty, 0);
  pc =
      update (update (λ i. idle) 0 (first_look "tenant" Maps.empty)) 1
        (first_look "tenant" Maps.empty);
}

abbrev served : ℕ → Callers ℕ ℕ → Callers ℕ ℕ
served i s = record {
  shared = (event_store_locked counting "tenant" s.shared).1;
  pc = update s.pc i (got "tenant" (event_store_locked counting "tenant" s.shared).0);
}

both-Reach : Reach (event_store_locked counting) 0 (served 1 (served 0 begun))
unfolding first_look ℕ_discrete
both-Reach =
    next
      (next (next (next start (look 0 "tenant" refl)) (look 1 "tenant" refl))
        (lock 0 "tenant" refl))
      (lock 1 "tenant" refl)

close_all :
    close (λ (h : ℕ) (w : ℕ). (err (message "closed"), w + h)) (1 ∷ 2 ∷ []) 0
    ≡ (err (message "multiple errors"), 3)
unfolding close
close_all = refl

Reach-Agreed_example :
    ◌≢◌ {A = Option ℕ} (some 0) none × ((served 1 (served 0 begun)).shared.0 "tenant" ≡ some 0)
unfolding event_store_locked String-discrete ℕ_discrete
Reach-Agreed_example = Reach-Agreed counting both-Reach 1 "tenant" (some 0) refl

both-missed : Reach (repo_locked counting) 0 begun
unfolding first_look ℕ_discrete
both-missed = next (next start (look 0 "tenant" refl)) (look 1 "tenant" refl)

repo_lookup_nil_example :
    Step (repo_locked counting) begun (locked_by counting 1 "tenant" begun)
    × ((locked_by counting 1 "tenant" begun).pc 1 ≡ got "tenant" (ok (some 0)))
    × Step
        (repo_locked counting)
        (locked_by counting 1 "tenant" begun)
        (locked_by counting 0 "tenant" (locked_by counting 1 "tenant" begun))
    × ((locked_by counting 0 "tenant" (locked_by counting 1 "tenant" begun)).pc 0
        ≡ got "tenant" (ok none))
    × ((locked_by counting 0 "tenant" (locked_by counting 1 "tenant" begun)).shared.0 "tenant"
        ≡ some 0)
unfolding first_look ℕ_discrete
repo_lookup_nil_example =
    repo_lookup_nil counting "tenant" 1 0 begun 0 1 (omega arith) refl refl refl refl

abbrev items : Repo Item (MemoryRepo Item)
items = memory_repo json entity

-- Every namespace has the same database.
abbrev shared : String → Action (MemoryRepo Item) (Repo Item (MemoryRepo Item))
shared ns w = (ok items, w)

abbrev tenant : Context
tenant = record Context.background { namespace = some "tenant" }

abbrev tenants : Instances (Repo Item (MemoryRepo Item))
tenants = Maps.insert String-discrete "tenant" items Maps.empty

abbrev empty_repo : MemoryRepo Item
empty_repo = record { db = Maps.empty; ids = []; factory_set = true }

abbrev saver : Client Item
saver = save_then (item 7 1) λ r. find_then background 7 λ found. done

run_client-namespaced_example :
    run_client (namespaced shared tenant) saver (tenants, empty_repo)
    ≡ (tenants, run_client items saver empty_repo)
unfolding from_context String-discrete
run_client-namespaced_example =
    run_client-namespaced shared tenant items tenants refl saver empty_repo
