-- ===== src/Repo/Memory/Order.antt =====
-- The list of IDs goes with the map: it holds each key once, in the order of insertion.
use mathlib.Core.List.{Memᴰ}
use eventhorizon.Prelude.{
  ℕ, ℕ_discrete, ◌≡◌, refl, sym, ◌∙◌, ◌≢◌, ◌⊎◌, inl, inr, Bool, true, false, Option, none, some,
  Option-cases, List, [], ◌∷◌, ◌++◌, arith, if_pos, if_neg, ite, if◌then◌else◌, subst,
}
use eventhorizon.Prelude.Maps
use eventhorizon.Prelude.Maps.{Map}
use eventhorizon.Errors.{
  Result, Operation, ok, err, panic, wrap, sentinel, message, repo_error, model_not_set,
  entity_not_found,
}
use eventhorizon.Event.{nil_uuid}
use eventhorizon.Repo.{Entity}
use eventhorizon.Repo.Memory.{
  Json, MemoryRepo, remove_id, without_id, remove, store, save_marshalled, save,
}

abbrev pub Distinct : List ℕ → Type 0
Distinct [] = Unit
Distinct (id ∷ ids) = (¬ Memᴰ id ids) × Distinct ids

pub record IsIndexed {Bytes : Type 0} (r : MemoryRepo Bytes) : Type 0 where
  pub present : (id : ℕ) → Memᴰ id r.ids → r.db id ≢ none
  pub listed : (id : ℕ) → r.db id ≢ none → Memᴰ id r.ids
  pub distinct : Distinct r.ids

-- What is at the end of a list that had not the ID is the ID, and nothing else is new.
mem-snoc : (ids : List ℕ) (id j : ℕ) → Memᴰ j (ids ++ id ∷ []) → Memᴰ j ids ⊎ (j ≡ id)
mem-snoc [] id j (Memᴰ.head p) = inr p
mem-snoc [] id j (Memᴰ.tail m) = elim m [ ]
mem-snoc (x ∷ ids) id j (Memᴰ.head p) = inl (Memᴰ.head p)
mem-snoc (x ∷ ids) id j (Memᴰ.tail m) = elim (mem-snoc ids id j m) [
  | inl k ↦ inl (Memᴰ.tail k)
  | inr p ↦ inr p
]

mem-snoc_old : (ids : List ℕ) (id j : ℕ) → Memᴰ j ids → Memᴰ j (ids ++ id ∷ [])
mem-snoc_old [] id j m = elim m [ ]
mem-snoc_old (x ∷ ids) id j (Memᴰ.head p) = Memᴰ.head p
mem-snoc_old (x ∷ ids) id j (Memᴰ.tail m) = Memᴰ.tail (mem-snoc_old ids id j m)

mem-snoc_new : (ids : List ℕ) (id : ℕ) → Memᴰ id (ids ++ id ∷ [])
mem-snoc_new [] id = Memᴰ.head refl
mem-snoc_new (x ∷ ids) id = Memᴰ.tail (mem-snoc_new ids id)

Distinct-snoc : (ids : List ℕ) (id : ℕ) → Distinct ids → ¬ Memᴰ id ids → Distinct (ids ++ id ∷ [])
Distinct-snoc [] id d n = ((λ m. elim m [ ]), tt)
Distinct-snoc (x ∷ ids) id d n = (
  λ m. elim (mem-snoc ids id x m) [ inl k ↦ d.0 k | inr p ↦ n (Memᴰ.head (sym p)) ],
  Distinct-snoc ids id d.1 (λ m. n (Memᴰ.tail m)),
)

-- Removing an ID that the list has takes out that ID alone.
pub record Removes (id : ℕ) (ids rest : List ℕ) : Type 0 where
  pub kept : (j : ℕ) → Memᴰ j rest → Memᴰ j ids × (j ≢ id)
  pub others : (j : ℕ) → Memᴰ j ids → j ≢ id → Memᴰ j rest
  pub distinct : Distinct rest

tail_of : (x j : ℕ) (ids : List ℕ) → Memᴰ j (x ∷ ids) → j ≢ x → Memᴰ j ids
tail_of x j ids (Memᴰ.head p) n = absurd (n p)
tail_of x j ids (Memᴰ.tail m) n = m

Removes-here : (id x : ℕ) (ids : List ℕ) → id ≡ x → Distinct (x ∷ ids) → Removes id (x ∷ ids) ids
Removes-here id x ids p d = record {
  kept = λ j k. (Memᴰ.tail k, λ e. d.0 (subst (λ y. Memᴰ y ids) (e ∙ p) k));
  others = λ j k n. tail_of x j ids k (λ e. n (e ∙ sym p));
  distinct = d.1;
}

Removes-there :
    (id x : ℕ) (ids rest : List ℕ)
    → id ≢ x
    → Distinct (x ∷ ids)
    → Removes id ids rest
    → Removes id (x ∷ ids) (x ∷ rest)
Removes-there id x ids rest n d r = record {
  kept = kept_there;
  others = others_there;
  distinct = ((λ m. d.0 (r.kept x m).0), r.distinct);
}
  where
    kept_there : (j : ℕ) → Memᴰ j (x ∷ rest) → Memᴰ j (x ∷ ids) × (j ≢ id)
    kept_there j (Memᴰ.head p) = (Memᴰ.head p, λ e. n (sym e ∙ p))
    kept_there j (Memᴰ.tail m) = (Memᴰ.tail (r.kept j m).0, (r.kept j m).1)

    others_there : (j : ℕ) → Memᴰ j (x ∷ ids) → j ≢ id → Memᴰ j (x ∷ rest)
    others_there j (Memᴰ.head p) k = Memᴰ.head p
    others_there j (Memᴰ.tail m) k = Memᴰ.tail (r.others j m k)

remove_id-Removes :
    (id : ℕ) (ids : List ℕ)
    → Memᴰ id ids
    → Distinct ids
    → (rest : List ℕ) × (remove_id id ids ≡ ok rest) × Removes id ids rest
unfolding remove_id
remove_id-Removes id [] m d = elim m [ ]
remove_id-Removes id (x ∷ ids) m d =
    let later = remove_id-Removes id ids in
    elim (ℕ_discrete id x) [
      | yes p ↦ (ids, ground arith, Removes-here id x ids p d)
      | no p ↦
          let (rest, e, r) = later (tail_of x id ids m p) d.1 in
          (x ∷ rest, ground arith, Removes-there id x ids rest p d r)
    ]

module _ {Bytes : Type 0} where
  -- Remove of an entity that is there succeeds, never panics on the ID list, and takes out that entity
  -- alone; of one that is not there it is refused and changes nothing.
  pub remove_lem :
      (id : ℕ) (r : MemoryRepo Bytes)
      → IsIndexed r
      → (r.db id ≢ none
          → (rest : List ℕ) × Removes id r.ids rest
            × (remove id r ≡ (ok tt, record r { db = Maps.delete ℕ_discrete id r.db; ids = rest })))
        × (r.db id ≡ none
            → remove id r
              ≡ (err (wrap (repo_error Operation.remove id) (sentinel entity_not_found)), r))
  unfolding remove without_id
  remove_lem id r w = (
    λ there.
        let (rest, e, out) = remove_id-Removes id r.ids (w.listed id there) w.distinct in
        (rest, out, ground arith),
    λ gone. ground arith,
  )

  -- Removing, refused or not, keeps the list of IDs in step with the map.
  pub remove-IsIndexed : (id : ℕ) (r : MemoryRepo Bytes) → IsIndexed r → IsIndexed (remove id r).1
  remove-IsIndexed id r w = elim (Option-cases (r.db id)) [
    | inl gone ↦ rw ((remove_lem id r w).1 gone) w
    | inr (b, found) ↦
        let (rest, out, e) = (remove_lem id r w).0 (λ h. cc) in
        rw e (record {
          present = λ j m gone. let (old, other) = out.kept j m in w.present j old (ground arith);
          listed = λ j there.
              out.others j (w.listed j (λ h. there (ground arith))) (λ h. there (ground arith));
          distinct = out.distinct;
        })
  ]

  stored-IsIndexed :
      (id : ℕ) (b : Bytes) (r : MemoryRepo Bytes)
      → IsIndexed r
      → (old : Option Bytes) → r.db id ≡ old
      → IsIndexed (store id b r)
  unfolding store
  stored-IsIndexed id b r w none e = rw e (record {
    present = λ j m. elim (mem-snoc r.ids id j m) [
      | inl k ↦ (λ gone. w.present j k (ground arith))
      | inr p ↦ (λ gone. absurd (ground arith))
    ];
    listed = λ j there. elim (ℕ_discrete id j) [
      | yes p ↦ subst (λ y. Memᴰ y (r.ids ++ id ∷ [])) p (mem-snoc_new r.ids id)
      | no p ↦ mem-snoc_old r.ids id j (w.listed j (λ h. there (ground arith)))
    ];
    distinct = Distinct-snoc r.ids id w.distinct (λ m. w.present id m e);
  })
  stored-IsIndexed id b r w (some old) e = rw e (record {
    present = λ j m gone. w.present j m (ground arith);
    listed = λ j there. elim (ℕ_discrete id j) [
      | yes p ↦ subst (λ y. Memᴰ y r.ids) p (w.listed id (λ h. cc))
      | no p ↦ w.listed j (λ h. there (ground arith))
    ];
    distinct = w.distinct;
  })

  save_marshalled-IsIndexed :
      (id : ℕ) (b : Result Bytes) (r : MemoryRepo Bytes)
      → IsIndexed r
      → IsIndexed (save_marshalled id b r).1
  unfolding save_marshalled
  save_marshalled-IsIndexed id (ok b) r w = stored-IsIndexed id b r w (r.db id) refl
  save_marshalled-IsIndexed id (err x) r w = w
  save_marshalled-IsIndexed id panic r w = w

-- A guard keeps what both of its branches keep.
guarded :
    {A S : Type 0} (P : S → Type 0) (b : Bool) (x y : Result A × S)
    → P x.1
    → P y.1
    → P (if b then x else y).1
guarded P true x y p q = p
guarded P false x y p q = q

module _ {E Bytes : Type 0} (json : Json E Bytes) (ent : Entity E) where
  -- Saving, refused or not, keeps the list of IDs in step with the map.
  pub save-IsIndexed :
      (entity : E) (r : MemoryRepo Bytes) → IsIndexed r → IsIndexed (save json ent entity r).1
  unfolding save
  save-IsIndexed entity r w =
      let id = ent.entity_id entity in
      let refused : Result (Unit {0}) × MemoryRepo Bytes =
        (err (wrap (repo_error Operation.save nil_uuid) (message "missing entity ID")), r) in
      let saved = save_marshalled id (json.marshal entity) r in
      let saved-w = save_marshalled-IsIndexed id (json.marshal entity) r w in
      guarded IsIndexed r.factory_set (ite (ℕ_discrete id nil_uuid) refused saved)
        (err (wrap (repo_error Operation.save nil_uuid) (sentinel model_not_set)), r)
        (elim (ℕ_discrete id nil_uuid) [
          | yes p ↦ rw (if_pos (ℕ_discrete id nil_uuid) p refused saved) w
          | no p ↦ rw (if_neg (ℕ_discrete id nil_uuid) p refused saved) saved-w
        ])
        w
