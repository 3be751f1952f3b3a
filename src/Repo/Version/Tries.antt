-- ===== src/Repo/Version/Tries.antt =====
-- One try of the waiting Find of repo/version/repo.go.
use eventhorizon.Prelude.{
  ℕ, ◌≤◌, ◌<◌, ap, ◌≡◌, refl, sym, ◌∙◌, subst, ◌⊎◌, inl, inr, true, some, arith, dec_le,
  Option-cases, Bool-cases,
}
use eventhorizon.Errors.{
  Result, Result-cases, Err, ok, err, errors_is, wrap, sentinel, incorrect_entity_version,
  entity_not_found, entity_has_no_version,
}
use eventhorizon.Repo.{Entity, FindContext, Repo}
use eventhorizon.Repo.Version.{no_id, check_version, find_min_version, retries}

-- What the code waits for.
waited :
    (x : Err)
    → retries x ≡ true
    → (errors_is x entity_not_found ≡ true) ⊎ (errors_is x incorrect_entity_version ≡ true)
unfolding retries
waited x r = elim (Bool-cases (errors_is x incorrect_entity_version)) [
  | inl p ↦ inr p
  | inr u ↦ inl (ground arith)
]

not_waited : retries (wrap no_id (sentinel entity_has_no_version)) ≡ true → ⊥
unfolding retries errors_is
not_waited h = absurd cc

module _ {E : Type 0} (ent : Entity E) where
  -- The version of the entity is known and is not below the one asked for.
  abbrev pub IsFresh : ℕ → E → Type 0
  IsFresh min_version entity = (v : ℕ) × (ent.aggregate_version entity ≡ some v) × (min_version ≤ v)

  -- What makes Find wait: the inner repository does not find the entity, or reports another version
  -- than asked for, or finds an entity of a lower version.
  abbrev pub IsTooEarly : ℕ → Result E → Type 0
  IsTooEarly m found =
      ((x : Err) × (found ≡ err x)
        × ((errors_is x entity_not_found ≡ true) ⊎ (errors_is x incorrect_entity_version ≡ true)))
      ⊎ ((d : E) × (v : ℕ) × (found ≡ ok d) × (ent.aggregate_version d ≡ some v) × (v < m))

module _ {E S : Type 0} (ent : Entity E) (inner : Repo E S) where
  -- A try gives an entity exactly if the inner repository finds it and it is fresh.
  pub find_min_version-found :
      (ctx : FindContext) (id m : ℕ) (s : S) (e : E) (t : S)
      → inner.find ctx id s ≡ (ok e, t)
      → IsFresh ent m e
      → find_min_version ent inner ctx id m s ≡ (ok e, t)
  unfolding find_min_version check_version
  find_min_version-found ctx id m s e t h (v, p, q) = ground arith

  pub find_min_version-IsFresh :
      (ctx : FindContext) (id m : ℕ) (s : S) (e : E) (t : S)
      → find_min_version ent inner ctx id m s ≡ (ok e, t)
      → (inner.find ctx id s ≡ (ok e, t)) × IsFresh ent m e
  unfolding find_min_version check_version
  find_min_version-IsFresh ctx id m s e t h = elim (Result-cases (inner.find ctx id s).0) [
    | inl (d, p) ↦ elim (Option-cases (ent.aggregate_version d)) [
      | inl gone ↦ absurd (ground arith)
      | inr (v, q) ↦ elim (dec_le m v) [
        | yes n ↦
            let own : d ≡ e = ground arith in
            (ground arith, (v, ap ent.aggregate_version (sym own) ∙ q, n))
        | no n ↦ absurd (ground arith)
      ]
    ]
    | inr (inl (x, p)) ↦ absurd (ground arith)
    | inr (inr p) ↦ absurd (ground arith)
  ]

  -- A try fails with an error to wait for exactly if it is too early.
  pub find_min_version-waits :
      (ctx : FindContext) (id m : ℕ) (s : S) (found : Result E) (s' : S)
      → inner.find ctx id s ≡ (found, s')
      → IsTooEarly ent m found
      → (x : Err) × (find_min_version ent inner ctx id m s ≡ (err x, s')) × (retries x ≡ true)
  unfolding find_min_version check_version retries errors_is
  find_min_version-waits ctx id m s found s' h (inl (x, p, inl q)) = (x, ground arith, ground arith)
  find_min_version-waits ctx id m s found s' h (inl (x, p, inr q)) = (x, ground arith, ground arith)
  find_min_version-waits ctx id m s found s' h (inr (d, v, p, q, n)) =
      (wrap no_id (sentinel incorrect_entity_version), ground arith, refl)

  pub find_min_version-IsTooEarly :
      (ctx : FindContext) (id m : ℕ) (s : S) (x : Err) (s' : S)
      → find_min_version ent inner ctx id m s ≡ (err x, s')
      → retries x ≡ true
      → (inner.find ctx id s ≡ ((inner.find ctx id s).0, s'))
        × IsTooEarly ent m (inner.find ctx id s).0
  unfolding find_min_version check_version
  find_min_version-IsTooEarly ctx id m s x s' h r = elim (Result-cases (inner.find ctx id s).0) [
    | inl (d, p) ↦ elim (Option-cases (ent.aggregate_version d)) [
      | inl gone ↦ absurd (
          let own : x ≡ wrap no_id (sentinel entity_has_no_version) = ground arith in
          not_waited (subst (λ y. retries y ≡ true) own r))
      | inr (v, q) ↦ elim (dec_le m v) [
        | yes n ↦ absurd (ground arith)
        | no n ↦ (ground arith, inr (d, v, p, q, omega (arith, n)))
      ]
    ]
    | inr (inl (y, p)) ↦
        let own : y ≡ x = ground arith in (ground arith, inl (x, p ∙ ap err own, waited x r))
    | inr (inr p) ↦ absurd (ground arith)
  ]
