-- ===== src/Base/Assoc.antt =====
-- A JavaScript object used as a dictionary: an association list with string keys.
use mathlib.Core.Path.{◌≡◌, refl}
use mathlib.Core.Option.{Option, none, some}
use mathlib.Core.List.{List, [], ◌∷◌}
use native.Mathlib.Omega.{arith}
use go_resolver.Base.Core.{if◌then◌else◌}
use go_resolver.Base.Strings.{Text, ◌===◌, ===_iff}

module _ {ℓ} {V : Type ℓ} where
  -- `map[key]`
  unfoldable pub lookup : Text → List (Text × V) → Option V
  lookup k [] = none
  lookup k ((j, v) ∷ m) = if j === k then some v else lookup k m

  -- `{ ...map, [key]: value }`
  unfoldable pub insert : Text → V → List (Text × V) → List (Text × V)
  insert k v [] = (k, v) ∷ []
  insert k v ((j, w) ∷ m) = if j === k then (k, v) ∷ m else (j, w) ∷ insert k v m

  -- `delete map[key]`
  unfoldable pub erase : Text → List (Text × V) → List (Text × V)
  erase k [] = []
  erase k ((j, w) ∷ m) = if j === k then erase k m else (j, w) ∷ erase k m

  pub lookup-insert :
      (k j : Text) (v : V) (m : List (Text × V))
      → lookup j (insert k v m) ≡ (if k === j then some v else lookup j m)
  unfolding lookup insert
  lookup-insert k j v [] = refl
  lookup-insert k j v ((i, w) ∷ m) =
      ground (arith, ===_iff k j, ===_iff i k, ===_iff i j, lookup-insert k j v m)

  pub lookup-erase :
      (k j : Text) (m : List (Text × V))
      → lookup j (erase k m) ≡ (if k === j then none else lookup j m)
  unfolding lookup erase
  lookup-erase k j [] = ground arith
  lookup-erase k j ((i, w) ∷ m) =
      ground (arith, ===_iff k j, ===_iff i k, ===_iff i j, lookup-erase k j m)

module _ {ℓ κ} {V : Type ℓ} (P : Text → V → Type κ) where
  -- Every binding of the dictionary satisfies the predicate.
  abbrev pub Bindings : List (Text × V) → Type κ
  Bindings [] = Unit
  Bindings ((k, v) ∷ m) = P k v × Bindings m

  pub Bindings-insert :
      (k : Text) (v : V) (m : List (Text × V)) → Bindings m → P k v → Bindings (insert k v m)
  unfolding insert
  Bindings-insert k v [] h p = (p, tt)
  Bindings-insert k v ((j, w) ∷ m) h p = ground (arith, Bindings-insert k v m h.1 p)

  pub Bindings-erase : (k : Text) (m : List (Text × V)) → Bindings m → Bindings (erase k m)
  unfolding erase
  Bindings-erase k [] h = tt
  Bindings-erase k ((j, w) ∷ m) h = ground (arith, Bindings-erase k m h.1)

  pub Bindings-lookup :
      (k : Text) (m : List (Text × V)) {v : V} → Bindings m → lookup k m ≡ some v → P k v
  unfolding lookup
  Bindings-lookup k [] h e = cc
  Bindings-lookup k ((j, w) ∷ m) {v} h e =
      ground (arith, ===_iff j k, Bindings-lookup k m {v = v} h.1)
