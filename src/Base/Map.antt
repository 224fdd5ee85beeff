-- ===== src/Base/Map.antt =====
-- A JavaScript `Map` with string keys: its entries in the order of insertion, each key once.
use mathlib.Core.Path.{◌≡◌, refl}
use mathlib.Core.Bool.{Bool, true, false, ◌||◌}
use mathlib.Core.List.{List, [], ◌∷◌}
use mathlib.Core.Option.{Option, none, some}
use native.Mathlib.Omega.{arith}
use mc_gantry.Base.Tests.{if◌then◌else◌}
use mc_gantry.Base.Strings.{Text, text_eq, text_eq_iff}

module _ {ℓ} {V : Type ℓ} where
  -- `m.get(k)`
  unfoldable pub get : Text → List (Text × V) → Option V
  get k [] = none
  get k ((j, v) ∷ m) = if text_eq j k then some v else get k m

  -- `m.set(k, v)`: a key that is there keeps its place.
  unfoldable pub set : Text → V → List (Text × V) → List (Text × V)
  set k v [] = (k, v) ∷ []
  set k v ((j, w) ∷ m) = if text_eq j k then (j, v) ∷ m else (j, w) ∷ set k v m

  -- `m.has(k)`
  abbrev pub has : Text → List (Text × V) → Bool
  has k m = elim (get k m) [ none ↦ false | some v ↦ true ]

  -- `new Map(pairs)`, over the entries that are already there.
  unfoldable pub set_all : List (Text × V) → List (Text × V) → List (Text × V)
  unfolding set
  set_all m [] = m
  set_all m ((k, v) ∷ pairs) = set_all (set k v m) pairs

  pub get-set :
      (k j : Text) (v : V) (m : List (Text × V))
      → get j (set k v m) ≡ (if text_eq k j then some v else get j m)
  unfolding get set
  get-set k j v [] = refl
  get-set k j v ((i, w) ∷ m) =
      ground (arith, text_eq_iff k j, text_eq_iff i k, text_eq_iff i j, get-set k j v m)

-- `new Set(list)` and its `has`: only membership is used.
unfoldable pub mem : Text → List Text → Bool
mem k [] = false
mem k (j ∷ s) = text_eq j k || mem k s
