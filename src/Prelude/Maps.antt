-- ===== src/Prelude/Maps.antt =====
-- Go's maps, read pointwise: a map is what a lookup of each key returns. Where the source ranges
-- over a map, the model ranges over a list of keys that the runtime chooses.
use mathlib.Core.Path.{◌≡◌, fun_ext}
use mathlib.Core.Logic.{◌≢◌, ite}
use mathlib.Core.Option.{Option, none, some}
use native.Mathlib.Omega.{arith}

abbrev pub Map : Type 0 → Type 0 → Type 0
Map K V = K → Option V

abbrev pub empty : {K V : Type 0} → Map K V
empty k = none

module _ {K V : Type 0} (dec : Discrete K) where
  -- `m[k] = v`
  abbrev pub insert : K → V → Map K V → Map K V
  insert k v m j = ite (dec k j) (some v) (m j)

  -- `delete(m, k)`
  abbrev pub delete : K → Map K V → Map K V
  delete k m j = ite (dec k j) none (m j)

  pub get-insert_self : (k : K) (v : V) (m : Map K V) → insert k v m k ≡ some v
  get-insert_self k v m = ground arith

  pub get-insert_ne : (k j : K) (v : V) (m : Map K V) → k ≢ j → insert k v m j ≡ m j
  get-insert_ne k j v m h = ground arith

  pub get-delete_self : (k : K) (m : Map K V) → delete k m k ≡ none
  get-delete_self k m = ground arith

  pub delete-insert : (k : K) (v : V) (m : Map K V) → m k ≡ none → delete k (insert k v m) ≡ m
  delete-insert k v m h = fun_ext λ j. ground arith
