-- ===== src/Compare/Counting.antt =====
-- compare.go: the fields that count, once the options are applied, are those that must be the same.
use mathlib.Core.List.{Memᴰ}
use eventhorizon.Prelude.{
  ℕ, String, String-discrete, ◌≡◌, ◌≢◌, ◌⊎◌, ◌↔◌, inl, inr, refl, sym, ◌∙◌, ap, Bool, true, false,
  Option, none, some, List, [], ◌∷◌, map, if◌then◌else◌, fun_ext, arith,
}
use eventhorizon.Prelude.Maps
use eventhorizon.Prelude.Maps.{Map}
use eventhorizon.Event.{Event}
use eventhorizon.Compare.{
  CompareConfig, ignore_timestamp, ignore_version, ignore_position_metadata, configure, zero_config,
  without_position, compared_metadata,
}
use eventhorizon.Compare.Same.{
  Ignoring, the_timestamp, the_version, the_position, option, options, Ignores, entry, IsSame,
  AllSame,
}

abbrev flag : Ignoring → CompareConfig → Bool
flag the_timestamp opts = opts.ignore_timestamp
flag the_version opts = opts.ignore_version
flag the_position opts = opts.ignore_position

option-flag :
    (i j : Ignoring) (c : CompareConfig)
    → (flag i (option j c) ≡ true) ↔ ((flag i c ≡ true) ⊎ (i ≡ j))
unfolding ignore_timestamp ignore_version ignore_position_metadata
option-flag the_timestamp the_timestamp c = (λ h. inr refl, λ h. refl)
option-flag the_timestamp the_version c =
    (λ h. inl h, λ h. elim h [ inl p ↦ p | inr q ↦ absurd cc ])
option-flag the_timestamp the_position c =
    (λ h. inl h, λ h. elim h [ inl p ↦ p | inr q ↦ absurd cc ])
option-flag the_version the_timestamp c =
    (λ h. inl h, λ h. elim h [ inl p ↦ p | inr q ↦ absurd cc ])
option-flag the_version the_version c = (λ h. inr refl, λ h. refl)
option-flag the_version the_position c = (λ h. inl h, λ h. elim h [ inl p ↦ p | inr q ↦ absurd cc ])
option-flag the_position the_timestamp c =
    (λ h. inl h, λ h. elim h [ inl p ↦ p | inr q ↦ absurd cc ])
option-flag the_position the_version c = (λ h. inl h, λ h. elim h [ inl p ↦ p | inr q ↦ absurd cc ])
option-flag the_position the_position c = (λ h. inr refl, λ h. refl)

-- The loop over the options sets the flags of those that are given.
configure-flag :
    (i : Ignoring) (is : List (Option Ignoring)) (c : CompareConfig)
    → (flag i (configure (options is) c) ≡ true) ↔ ((flag i c ≡ true) ⊎ Ignores is i)
unfolding configure options
configure-flag i [] c = (λ h. inl h, λ h. elim h [ inl p ↦ p | inr m ↦ elim m [ ] ])
configure-flag i (none ∷ is) c =
    let (to, from) = configure-flag i is c in
    (
      λ h. elim (to h) [ inl p ↦ inl p | inr m ↦ inr (Memᴰ.tail m) ],
      λ h. elim h [
        | inl p ↦ from (inl p)
        | inr m ↦ elim m [ Memᴰ.head q ↦ absurd cc | Memᴰ.tail n ↦ from (inr n) ]
      ],
    )
configure-flag i (some j ∷ is) c =
    let (to, from) = configure-flag i is (option j c) in
    let (set, sets) = option-flag i j c in
    (
      λ h. elim (to h) [
        | inl p ↦ elim (set p) [ inl q ↦ inl q | inr q ↦ inr (Memᴰ.head (ap some q)) ]
        | inr m ↦ inr (Memᴰ.tail m)
      ],
      λ h. elim h [
        | inl p ↦ from (inl (sets (inl p)))
        | inr m ↦ elim m [ Memᴰ.head q ↦ from (inl (sets (inr cc))) | Memᴰ.tail n ↦ from (inr n) ]
      ],
    )

abbrev pub config : List (Option Ignoring) → CompareConfig
config is = configure (options is) zero_config

ignored : (i : Ignoring) (is : List (Option Ignoring)) → (flag i (config is) ≡ true) ↔ Ignores is i
ignored i is =
    let (to, from) = configure-flag i is zero_config in
    (λ h. elim (to h) [ inl p ↦ absurd (unset i p) | inr m ↦ m ], λ m. from (inr m))
  where
    unset : (i : Ignoring) → flag i zero_config ≡ true → ⊥
    unset the_timestamp p = absurd cc
    unset the_version p = absurd cc
    unset the_position p = absurd cc

pub head_eq : {A : Type 0} {x y : A} {xs ys : List A} → x ∷ xs ≡ y ∷ ys → x ≡ y
head_eq q = cc

pub tail_eq : {A : Type 0} {x y : A} {xs ys : List A} → x ∷ xs ≡ y ∷ ys → xs ≡ ys
tail_eq q = cc

the_map : {A : Type 0} {x y : A} → some x ≡ some y → x ≡ y
the_map h = cc

-- A field that is set to a fixed value if it is ignored.
number_iff :
    {M : Type 0} (b : Bool) (x y : ℕ)
    → (b ≡ true) ↔ M
    → ((if b then 0 else x) ≡ (if b then 0 else y)) ↔ (¬ M → x ≡ y)
number_iff true x y (to, from) = (λ h n. absurd (n (to refl)), λ h. refl)
number_iff false x y (to, from) = (λ h n. h, λ h. h (λ m. absurd (let p = from m in cc)))

module _ {Any : Type 0} where
  without_position-entry :
      (a : Option (Map String Any)) (key : String)
      → "position" ≢ key
      → without_position a key ≡ entry a key
  unfolding without_position
  without_position-entry none key n = refl
  without_position-entry (some md) key n = ground arith

  without_position-position : (a : Option (Map String Any)) → without_position a "position" ≡ none
  unfolding without_position
  without_position-position none = refl
  without_position-position (some md) = Maps.get-delete_self String-discrete "position" md

  without_position_iff :
      (a b : Option (Map String Any))
      → (some (without_position a) ≡ some (without_position b))
        ↔ ((key : String) → "position" ≢ key → entry a key ≡ entry b key)
  without_position_iff a b = (
    λ h key n.
        let same = ap (λ m. m key) (the_map h) in
        sym (without_position-entry a key n) ∙ same ∙ without_position-entry b key n,
    λ h. ap some (
        fun_ext λ key. elim (String-discrete "position" key) [
          | yes p ↦
              ap (without_position a) (sym p)
              ∙ without_position-position a
              ∙ sym (without_position-position b)
              ∙ ap (without_position b) p
          | no n ↦ without_position-entry a key n ∙ h key n ∙ sym (without_position-entry b key n)
        ]),
  )

  metadata_iff :
      {M : Type 0} (ignore : Bool) (a b : Option (Map String Any))
      → (ignore ≡ true) ↔ M
      → (compared_metadata ignore a ≡ compared_metadata ignore b)
        ↔ ((¬ M → a ≡ b) × ((key : String) → "position" ≢ key → entry a key ≡ entry b key))
  unfolding compared_metadata
  metadata_iff true a b (to, from) =
      let (same, sames) = without_position_iff a b in
      (λ h. (λ n. absurd (n (to refl)), same h), λ h. sames h.1)
  metadata_iff false a b (to, from) = (
    λ h. (λ n. h, λ key n. ap (λ m. entry m key) h),
    λ h. h.0 (λ m. absurd (let p = from m in cc)),
  )

  -- An event with the fields that do not count set to fixed values.
  abbrev pub counted : CompareConfig → Event Any → Event Any
  counted opts e = record e {
    timestamp = if opts.ignore_timestamp then 0 else e.timestamp;
    version = if opts.ignore_version then 0 else e.version;
    metadata = compared_metadata opts.ignore_position e.metadata;
  }

  pub counted_iff :
      (is : List (Option Ignoring)) (e1 e2 : Event Any)
      → (counted (config is) e1 ≡ counted (config is) e2) ↔ IsSame is e1 e2
  counted_iff is e1 e2 =
      let opts = config is in
      let (timestamp, timestamps) =
        number_iff opts.ignore_timestamp e1.timestamp e2.timestamp (ignored the_timestamp is) in
      let (version, versions) =
        number_iff opts.ignore_version e1.version e2.version (ignored the_version is) in
      let (noted, notes) =
        metadata_iff opts.ignore_position e1.metadata e2.metadata (ignored the_position is) in
      (
        λ h. (
          ap (λ e. e.event_type) h,
          ap (λ e. e.payload) h,
          timestamp (ap (λ e. e.timestamp) h),
          ap (λ e. e.aggregate_type) h,
          ap (λ e. e.aggregate_id) h,
          version (ap (λ e. e.version) h),
          (noted (ap (λ e. e.metadata) h)).0,
          (noted (ap (λ e. e.metadata) h)).1,
        ),
        λ (same_type, payload, t, kind, id, v, m, ks).
            let ts = timestamps t in let vs = versions v in let ms = notes (m, ks) in cc,
      )

  pub map-counted_iff :
      (is : List (Option Ignoring)) (es1 es2 : List (Event Any))
      → (map (counted (config is)) es1 ≡ map (counted (config is)) es2) ↔ AllSame is es1 es2
  map-counted_iff is [] [] = (λ h. tt, λ h. refl)
  map-counted_iff is [] (e2 ∷ es2) = (λ h. absurd cc, λ h. absurd h)
  map-counted_iff is (e1 ∷ es1) [] = (λ h. absurd cc, λ h. absurd h)
  map-counted_iff is (e1 ∷ es1) (e2 ∷ es2) =
      let (all, alls) = map-counted_iff is es1 es2 in
      let (one, ones) = counted_iff is e1 e2 in
      (λ h. (one (head_eq h), all (tail_eq h)), λ (p, ps). let q = ones p in let qs = alls ps in cc)
