-- ===== src/Repo/Version/Waiting.antt =====
-- What the waiting Find of repo/version/repo.go returns, and when.
use eventhorizon.Prelude.{
  ℕ, ◌≤◌, ◌≡◌, refl, sym, ◌∙◌, ◌↔◌, ◌⊎◌, inl, inr, true, false, ◌&&◌, Option, none, some, List, [],
  ◌∷◌, ◌++◌, arith, dec_le, Option-cases, Bool-cases,
}
use eventhorizon.Errors.{Result, Err, ok, err, panic}
use eventhorizon.Repo.{Entity, FindContext, Repo}
use eventhorizon.Repo.Version.{
  Wait, retry, context_done, find_min_version, retries, after_try, find_loop, find,
}
use eventhorizon.Repo.Version.Tries.{
  IsFresh, IsTooEarly, find_min_version-found, find_min_version-IsFresh, find_min_version-waits,
  find_min_version-IsTooEarly,
}

module _ {E S : Type 0} (ent : Entity E) (inner : Repo E S) where
  -- The tries of a Find that waits: each but the last is too early, and the last one finds an entity
  -- whose version is not below the one asked for.
  pub data Reaches (ctx : FindContext) (id m : ℕ) : List (Wait S) → S → E → S → Type 0 where
    now :
        (waits : List (Wait S)) (s : S) (e : E) (t : S)
        → inner.find ctx id s ≡ (ok e, t)
        → IsFresh ent m e
        → Reaches ctx id m waits s e t
    later :
        (others : S → S) (waits : List (Wait S)) (s : S) (found : Result E) (s' : S) (e : E) (t : S)
        → inner.find ctx id s ≡ (found, s')
        → IsTooEarly ent m found
        → Reaches ctx id m waits (others s') e t
        → Reaches ctx id m (retry others ∷ waits) s e t

  Reaches-IsFresh :
      (ctx : FindContext) (id m : ℕ) (waits : List (Wait S)) (s : S) (e : E) (t : S)
      → Reaches ctx id m waits s e t
      → IsFresh ent m e
  Reaches-IsFresh ctx id m waits s e t (Reaches.now _ _ _ _ h f) = f
  Reaches-IsFresh ctx id m _ s e t (Reaches.later others waits _ _ s' _ _ h r n) =
      Reaches-IsFresh ctx id m waits (others s') e t n

  find_loop-Reaches :
      (ctx : FindContext) (id m : ℕ) (waits : List (Wait S)) (s : S) (e : E) (t : S)
      → ctx.has_deadline ≡ true
      → Reaches ctx id m waits s e t
      → find_loop ent inner ctx id m waits s ≡ some (ok e, t)
  unfolding find_loop after_try
  find_loop-Reaches ctx id m [] s e t w (Reaches.now _ _ _ _ p f) =
      rw (find_min_version-found ent inner ctx id m s e t p f, after_try) refl
  find_loop-Reaches ctx id m (retry o ∷ waits) s e t w (Reaches.now _ _ _ _ p f) =
      rw (find_min_version-found ent inner ctx id m s e t p f, after_try) refl
  find_loop-Reaches ctx id m (context_done x ∷ waits) s e t w (Reaches.now _ _ _ _ p f) =
      rw (find_min_version-found ent inner ctx id m s e t p f, after_try) refl
  find_loop-Reaches ctx id m _ s e t w (Reaches.later others waits _ found s' _ _ p early n) =
      let (x, h, r) = find_min_version-waits ent inner ctx id m s found s' p early in
      rw (h, after_try, r, w) (find_loop-Reaches ctx id m waits (others s') e t w n)

  -- A try that led to an entity found it, or failed with an error to wait for and the wait led to it.
  after_try-found :
      (ctx : FindContext) (r : Result E × S) (wait : S → Option (Result E × S)) (e : E) (t : S)
      → after_try ctx r wait ≡ some (ok e, t)
      → (r ≡ (ok e, t))
        ⊎ ((x : Err) × (s : S) × (r ≡ (err x, s)) × (retries x ≡ true) × (wait s ≡ some (ok e, t)))
  unfolding after_try
  after_try-found ctx (ok d, s) wait e t h = inl (cc)
  after_try-found ctx (panic, s) wait e t h = absurd (cc)
  after_try-found ctx (err x, s) wait e t h = elim (Bool-cases (retries x)) [
    | inl r ↦ elim (Bool-cases ctx.has_deadline) [
      | inl w ↦ inr (x, s, refl, r, ground arith)
      | inr u ↦ absurd (ground arith)
    ]
    | inr u ↦ absurd (ground arith)
  ]

  find_loop-only :
      (ctx : FindContext) (id m : ℕ) (waits : List (Wait S)) (s : S) (e : E) (t : S)
      → find_loop ent inner ctx id m waits s ≡ some (ok e, t)
      → Reaches ctx id m waits s e t
  unfolding find_loop
  find_loop-only ctx id m [] s e t h =
      elim (after_try-found ctx (find_min_version ent inner ctx id m s) (λ s'. none) e t h) [
        | inl p ↦
            let (there, fresh) = find_min_version-IsFresh ent inner ctx id m s e t p in
            Reaches.now [] s e t there fresh
        | inr (x, s', p, r, n) ↦ absurd (cc)
      ]
  find_loop-only ctx id m (retry others ∷ waits) s e t h =
      let next = λ (s' : S). find_loop ent inner ctx id m waits (others s') in
      let again = find_loop-only ctx id m waits in
      elim (after_try-found ctx (find_min_version ent inner ctx id m s) next e t h) [
        | inl p ↦
            let (there, fresh) = find_min_version-IsFresh ent inner ctx id m s e t p in
            Reaches.now (retry others ∷ waits) s e t there fresh
        | inr (x, s', p, r, n) ↦
            let (there, early) = find_min_version-IsTooEarly ent inner ctx id m s x s' p r in
            Reaches.later others waits s (inner.find ctx id s).0 s' e t there early
              (again (others s') e t n)
      ]
  find_loop-only ctx id m (context_done cause ∷ waits) s e t h =
      let stop : S → Option (Result E × S) = λ s'. some (err cause, s') in
      elim (after_try-found ctx (find_min_version ent inner ctx id m s) stop e t h) [
        | inl p ↦
            let (there, fresh) = find_min_version-IsFresh ent inner ctx id m s e t p in
            Reaches.now (context_done cause ∷ waits) s e t there fresh
        | inr (x, s', p, r, n) ↦ absurd (cc)
      ]

  -- The Find of a context with a min version.
  find_waiting :
      (waits : List (Wait S)) (ctx : FindContext) (id m : ℕ) (s : S)
      → ctx.min_version ≡ some m
      → 1 ≤ m
      → find ent inner waits ctx id s ≡ find_loop ent inner ctx id m waits s
  unfolding find
  find_waiting waits ctx id m s p q = ground arith

  -- With a min version of 1 or more, an entity that Find returns has a version, not below the min
  -- version, however the waits go.
  pub find-IsFresh :
      (waits : List (Wait S)) (ctx : FindContext) (id m : ℕ) (s : S) (e : E) (t : S)
      → ctx.min_version ≡ some m
      → 1 ≤ m
      → find ent inner waits ctx id s ≡ some (ok e, t)
      → IsFresh ent m e
  find-IsFresh waits ctx id m s e t p q h =
      Reaches-IsFresh ctx id m waits s e t
        (find_loop-only ctx id m waits s e t (sym (find_waiting waits ctx id m s p q) ∙ h))

  -- With a deadline and a min version of 1 or more, Find returns an entity exactly if, in one of its
  -- tries, the inner repository finds it at a version that is not below the min version, and in every
  -- try before found no entity, reported an incorrect version, or found one of a lower version.
  pub find_iff :
      (waits : List (Wait S)) (ctx : FindContext) (id m : ℕ) (s : S) (e : E) (t : S)
      → ctx.min_version ≡ some m
      → 1 ≤ m
      → ctx.has_deadline ≡ true
      → (find ent inner waits ctx id s ≡ some (ok e, t)) ↔ Reaches ctx id m waits s e t
  find_iff waits ctx id m s e t p q w =
      rw (find_waiting waits ctx id m s p q)
        (find_loop-only ctx id m waits s e t, find_loop-Reaches ctx id m waits s e t w)

  after_try-once :
      (ctx : FindContext) (r : Result E × S) (wait : S → Option (Result E × S))
      → ctx.has_deadline ≡ false
      → after_try ctx r wait ≡ some r
  unfolding after_try
  after_try-once ctx (ok e, s) wait u = refl
  after_try-once ctx (err x, s) wait u = ground arith
  after_try-once ctx (panic, s) wait u = refl

  find_loop-once :
      (ctx : FindContext) (id m : ℕ) (waits : List (Wait S)) (s : S)
      → ctx.has_deadline ≡ false
      → find_loop ent inner ctx id m waits s ≡ some (find_min_version ent inner ctx id m s)
  unfolding find_loop
  find_loop-once ctx id m [] s u =
      after_try-once ctx (find_min_version ent inner ctx id m s) (λ s'. none) u
  find_loop-once ctx id m (retry others ∷ waits) s u =
      after_try-once ctx (find_min_version ent inner ctx id m s)
        (λ s'. find_loop ent inner ctx id m waits (others s')) u
  find_loop-once ctx id m (context_done cause ∷ waits) s u =
      after_try-once ctx (find_min_version ent inner ctx id m s) (λ s'. some (err cause, s')) u

  -- Without a deadline Find tries once, whatever the schedule.
  pub find_once :
      (waits : List (Wait S)) (ctx : FindContext) (id m : ℕ) (s : S)
      → ctx.min_version ≡ some m
      → 1 ≤ m
      → ctx.has_deadline ≡ false
      → find ent inner waits ctx id s ≡ some (find_min_version ent inner ctx id m s)
  find_once waits ctx id m s p q u =
      find_waiting waits ctx id m s p q ∙ find_loop-once ctx id m waits s u

  abbrev Returns : Option (Result E × S) → Type 0
  Returns r = (x : Result E × S) × (r ≡ some x)

  after_try-Returns :
      (ctx : FindContext) (r : Result E × S) (wait : S → Option (Result E × S))
      → ((s : S) → Returns (wait s))
      → Returns (after_try ctx r wait)
  unfolding after_try
  after_try-Returns ctx (ok e, s) wait f = ((ok e, s), refl)
  after_try-Returns ctx (panic, s) wait f = ((panic, s), refl)
  after_try-Returns ctx (err x, s) wait f = elim (Bool-cases (retries x && ctx.has_deadline)) [
    | inl w ↦ rw w (f s)
    | inr u ↦ ((err x, s), rw u refl)
  ]

  find_loop-Returns :
      (before : List (Wait S)) (cause : Err) (after : List (Wait S)) (ctx : FindContext) (id m : ℕ)
      (s : S)
      → Returns (find_loop ent inner ctx id m (before ++ context_done cause ∷ after) s)
  unfolding find_loop
  find_loop-Returns [] cause after ctx id m s =
      after_try-Returns ctx (find_min_version ent inner ctx id m s) (λ s'. some (err cause, s'))
        (λ s'. ((err cause, s'), refl))
  find_loop-Returns (context_done other ∷ before) cause after ctx id m s =
      after_try-Returns ctx (find_min_version ent inner ctx id m s) (λ s'. some (err other, s'))
        (λ s'. ((err other, s'), refl))
  find_loop-Returns (retry others ∷ before) cause after ctx id m s =
      let later = find_loop-Returns before cause after ctx id m in
      after_try-Returns ctx (find_min_version ent inner ctx id m s)
        (λ s'. find_loop ent inner ctx id m (before ++ context_done cause ∷ after) (others s'))
        (λ s'. later (others s'))

  -- A Find whose context ends returns: no later than that end, whatever came before.
  pub find-Returns :
      (before : List (Wait S)) (cause : Err) (after : List (Wait S)) (ctx : FindContext) (id : ℕ)
      (s : S)
      → (x : Result E × S) × (find ent inner (before ++ context_done cause ∷ after) ctx id s
          ≡ some x)
  unfolding find
  find-Returns before cause after ctx id s = elim (Option-cases ctx.min_version) [
    | inl p ↦ (inner.find ctx id s, ground arith)
    | inr (m, p) ↦ elim (dec_le 1 m) [
      | yes q ↦
          let (x, e) = find_loop-Returns before cause after ctx id m s in
          (x, find_waiting (before ++ context_done cause ∷ after) ctx id m s p q ∙ e)
      | no q ↦ (inner.find ctx id s, ground arith)
    ]
  ]
