-- ===== src/Repo/Cache/Coherence.antt =====
-- The cache of repo/cache/repo.go never says anything else than the repository behind it.
use eventhorizon.Prelude.{
  ℕ, ℕ_discrete, ◌≡◌, refl, sym, ap, ◌∙◌, ◌≢◌, some, Option-cases, List, [], ◌∷◌, arith, All, inl,
  inr,
}
use eventhorizon.Prelude.Maps
use eventhorizon.Prelude.Maps.{Map}
use eventhorizon.Errors.{Result, ok, err, panic}
use eventhorizon.Event.{Event}
use eventhorizon.Repo.{Entity, FindContext, Repo, RepoLaws}
use eventhorizon.Repo.Cache.{
  Cached, bust, handle_event, fetched, find, cache_all, fetched_all, find_all, save, remove,
}

-- The calls that a client can make, and the answers.
pub data Call (E : Type 0) : Type 0 where
  call_find : FindContext → ℕ → Call E
  call_find_all : Call E
  call_save : E → Call E
  call_remove : ℕ → Call E

pub data Answer (E : Type 0) : Type 0 where
  one : Result E → Answer E
  several : Result (List E) → Answer E
  done : Result (Unit {0}) → Answer E

abbrev pub direct_step : {E S : Type 0} → Repo E S → Call E → S → Answer E × S
direct_step repo (call_find ctx id) s = let (r, t) = repo.find ctx id s in (one r, t)
direct_step repo call_find_all s = let (r, t) = repo.find_all s in (several r, t)
direct_step repo (call_save e) s = let (r, t) = repo.save e s in (done r, t)
direct_step repo (call_remove id) s = let (r, t) = repo.remove id s in (done r, t)

abbrev pub cached_step :
    {E S : Type 0} → Entity E → Repo E S → Call E → Cached E S → Answer E × Cached E S
cached_step ent repo (call_find ctx id) c = let (r, d) = find repo ctx id c in (one r, d)
cached_step ent repo call_find_all c = let (r, d) = find_all ent repo c in (several r, d)
cached_step ent repo (call_save e) c = let (r, d) = save ent repo e c in (done r, d)
cached_step ent repo (call_remove id) c = let (r, d) = remove repo id c in (done r, d)

-- The answers to one call after another.
abbrev pub answers :
    {E T : Type 0} → (Call E → T → Answer E × T) → List (Call E) → T → List (Answer E)
answers step [] t = []
answers step (call ∷ calls) t = let (a, u) = step call t in a ∷ answers step calls u

module _ {E S : Type 0} (ent : Entity E) (repo : Repo E S) (laws : RepoLaws ent repo) where
  -- What the cache has under an ID is what the repository behind returns for it.
  abbrev pub Agrees : Map ℕ E → S → Type 0
  Agrees cache s = (id : ℕ) (e : E) → cache id ≡ some e → laws.view s id ≡ ok e

  -- The cache agrees, and the repository behind is in a state that its contract allows.
  abbrev pub IsCoherent : Cached E S → Type 0
  IsCoherent c = Agrees c.cache c.inner × laws.Holds c.inner

  -- Dropping an ID makes up for any change at that ID behind the cache.
  bust-Agrees :
      (id : ℕ) (cache : Map ℕ E) (s t : S)
      → Agrees cache s
      → ((j : ℕ) → id ≢ j → laws.view t j ≡ laws.view s j)
      → Agrees (Maps.delete ℕ_discrete id cache) t
  bust-Agrees id cache s t a same j e h = elim (ℕ_discrete id j) [
    | yes p ↦ absurd (ground arith)
    | no n ↦ same j n ∙ a j e (ground arith)
  ]

  insert-Agrees :
      (id : ℕ) (e : E) (cache : Map ℕ E) (s : S)
      → Agrees cache s
      → laws.view s id ≡ ok e
      → Agrees (Maps.insert ℕ_discrete id e cache) s
  insert-Agrees id e cache s a v j d h = elim (ℕ_discrete id j) [
    | yes p ↦ let same : e ≡ d = ground arith in rw (← p, ← same) v
    | no n ↦ a j d (ground arith)
  ]

  fetched_lem :
      (id : ℕ) (c : Cached E S) (r : Result E)
      → IsCoherent c
      → laws.view c.inner id ≡ r
      → ((fetched id c r c.inner).0 ≡ r)
        × IsCoherent (fetched id c r c.inner).1
        × ((fetched id c r c.inner).1.inner ≡ c.inner)
  unfolding fetched
  fetched_lem id c (ok e) w v = (refl, (insert-Agrees id e c.cache c.inner w.0 v, w.1), refl)
  fetched_lem id c (err x) w v = (refl, w, refl)
  fetched_lem id c panic w v = (refl, w, refl)

  -- In front of a repository that keeps the contract, Find of the cache returns what the repository
  -- behind it returns, cached or not, leaves that repository alone and stays coherent.
  pub find-IsCoherent :
      (ctx : FindContext) (id : ℕ) (c : Cached E S)
      → IsCoherent c
      → ((find repo ctx id c).0 ≡ (repo.find ctx id c.inner).0)
        × IsCoherent (find repo ctx id c).1
        × ((find repo ctx id c).1.inner ≡ c.inner)
  unfolding find
  find-IsCoherent ctx id c w = elim (Option-cases (c.cache id)) [
    | inl gone ↦
        rw (gone, find, laws.finds ctx id c.inner) (fetched_lem id c (laws.view c.inner id) w refl)
    | inr (e, there) ↦ rw (there, find, laws.finds ctx id c.inner) (sym (w.0 id e there), w, refl)
  ]

  cache_all-Agrees :
      (es : List E) (cache : Map ℕ E) (s : S)
      → All (λ e. laws.view s (ent.entity_id e) ≡ ok e) es
      → Agrees cache s
      → Agrees (cache_all ent es cache) s
  unfolding cache_all
  cache_all-Agrees [] cache s v a = a
  cache_all-Agrees (e ∷ es) cache s v a =
      cache_all-Agrees es (Maps.insert ℕ_discrete (ent.entity_id e) e cache) s v.1
        (insert-Agrees (ent.entity_id e) e cache s a v.0)

  fetched_all_lem :
      (c : Cached E S) (r : Result (List E))
      → IsCoherent c
      → ((es : List E) → r ≡ ok es → All (λ e. laws.view c.inner (ent.entity_id e) ≡ ok e) es)
      → ((fetched_all ent c r c.inner).0 ≡ r)
        × IsCoherent (fetched_all ent c r c.inner).1
        × ((fetched_all ent c r c.inner).1.inner ≡ c.inner)
  unfolding fetched_all
  fetched_all_lem c (ok es) w v =
      (refl, (cache_all-Agrees es c.cache c.inner (v es refl) w.0, w.1), refl)
  fetched_all_lem c (err x) w v = (refl, w, refl)
  fetched_all_lem c panic w v = (refl, w, refl)

  -- FindAll of the cache returns what the repository behind it returns, leaves that repository alone
  -- and stays coherent.
  pub find_all-IsCoherent :
      (c : Cached E S)
      → IsCoherent c
      → ((find_all ent repo c).0 ≡ (repo.find_all c.inner).0)
        × IsCoherent (find_all ent repo c).1
        × ((find_all ent repo c).1.inner ≡ c.inner)
  unfolding find_all
  find_all-IsCoherent c w =
      rw (laws.lists_state c.inner)
        (fetched_all_lem c (repo.find_all c.inner).0 w (λ es h. laws.lists c.inner es w.1 h))

  -- Save and Remove of the cache do to the repository behind what that repository does by itself,
  -- return the same and stay coherent, also where they fail.
  pub save-IsCoherent :
      (e : E) (c : Cached E S)
      → IsCoherent c
      → ((save ent repo e c).0 ≡ (repo.save e c.inner).0)
        × IsCoherent (save ent repo e c).1
        × ((save ent repo e c).1.inner ≡ (repo.save e c.inner).1)
  unfolding save bust
  save-IsCoherent e c w = (
    refl,
    (
      bust-Agrees (ent.entity_id e) c.cache c.inner (repo.save e c.inner).1 w.0
          (laws.save_other e c.inner),
      laws.save_holds e c.inner w.1,
    ),
    refl,
  )

  pub remove-IsCoherent :
      (id : ℕ) (c : Cached E S)
      → IsCoherent c
      → ((remove repo id c).0 ≡ (repo.remove id c.inner).0)
        × IsCoherent (remove repo id c).1
        × ((remove repo id c).1.inner ≡ (repo.remove id c.inner).1)
  unfolding remove bust
  remove-IsCoherent id c w = (
    refl,
    (
      bust-Agrees id c.cache c.inner (repo.remove id c.inner).1 w.0
          (λ j n. laws.remove_other id c.inner j w.1 n),
      laws.remove_holds id c.inner w.1,
    ),
    refl,
  )

  -- Where something else has changed the repository behind the cache at one entity, handling an event
  -- of that entity makes the cache coherent again.
  pub handle_event-IsCoherent :
      {Any : Type 0} (e : Event Any) (c : Cached E S) (s : S)
      → IsCoherent c
      → laws.Holds s
      → ((j : ℕ) → e.aggregate_id ≢ j → laws.view s j ≡ laws.view c.inner j)
      → IsCoherent (handle_event e (record c { inner = s })).1
  unfolding handle_event bust
  handle_event-IsCoherent e c s w holds same =
      (bust-Agrees e.aggregate_id c.cache c.inner s w.0 same, holds)

  step_same :
      (call : Call E) (c : Cached E S)
      → IsCoherent c
      → ((cached_step ent repo call c).0 ≡ (direct_step repo call c.inner).0)
        × IsCoherent (cached_step ent repo call c).1
        × ((cached_step ent repo call c).1.inner ≡ (direct_step repo call c.inner).1)
  step_same (call_find ctx id) c w =
      let (r, k, s) = find-IsCoherent ctx id c w in
      (ap one r, k, s ∙ sym (ap (λ x. x.1) (laws.finds ctx id c.inner)))
  step_same call_find_all c w =
      let (r, k, s) = find_all-IsCoherent c w in
      (ap several r, k, s ∙ sym (laws.lists_state c.inner))
  step_same (call_save e) c w = let (r, k, s) = save-IsCoherent e c w in (ap done r, k, s)
  step_same (call_remove id) c w = let (r, k, s) = remove-IsCoherent id c w in (ap done r, k, s)

  -- A client that only calls the cache gets the answers that the repository behind it would give to
  -- the same calls, in any order and number.
  pub answers_same :
      (calls : List (Call E)) (c : Cached E S)
      → IsCoherent c
      → answers (cached_step ent repo) calls c ≡ answers (direct_step repo) calls c.inner
  answers_same [] c w = refl
  answers_same (call ∷ calls) c w =
      let (said, coherent, state) = step_same call c w in
      ap (λ a. a ∷ answers (cached_step ent repo) calls (cached_step ent repo call c).1) said
      ∙ ap (λ rest. (direct_step repo call c.inner).0 ∷ rest)
          (answers_same calls (cached_step ent repo call c).1 coherent
            ∙ ap (answers (direct_step repo) calls) state)
