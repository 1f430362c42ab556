-- ===== src/Base/Maps.antt =====
-- A Go map as an association list. The order of the list is the order in which `range` goes.
use mathlib.Core.Path.{◌≡◌, refl}
use mathlib.Core.Bool.{Bool, true, false}
use mathlib.Core.Option.{Option, none, some}
use mathlib.Core.List.{List, [], ◌∷◌}
use native.Mathlib.Omega.{arith}
use update_manager.Base.Tests.{Eq, ◌==◌, if◌then◌else◌}

module _ {ℓ κ} {K : Type ℓ} {V : Type κ} ⦃e : Eq K⦄ where
  abbrev pub lookup : K → List (K × V) → Option V
  lookup k [] = none
  lookup k ((j, v) ∷ m) = if j == k then some v else lookup k m

  -- `m[k] = v`
  unfoldable pub insert : K → V → List (K × V) → List (K × V)
  insert k v [] = (k, v) ∷ []
  insert k v ((j, w) ∷ m) = if j == k then (k, v) ∷ m else (j, w) ∷ insert k v m

  -- `delete(m, k)`
  unfoldable pub erase : K → List (K × V) → List (K × V)
  erase k [] = []
  erase k ((j, w) ∷ m) = if j == k then erase k m else (j, w) ∷ erase k m

  abbrev pub keys : List (K × V) → List K
  keys [] = []
  keys ((j, w) ∷ m) = j ∷ keys m

  abbrev pub has_key : K → List (K × V) → Bool
  has_key k m = elim (lookup k m) [ none ↦ false | some v ↦ true ]

  pub lookup-insert :
      (k j : K) (v : V) (m : List (K × V))
      → lookup j (insert k v m) ≡ (if k == j then some v else lookup j m)
  unfolding insert
  lookup-insert k j v [] = refl
  lookup-insert k j v ((i, w) ∷ m) =
      ground (arith, e.agrees k j, e.agrees i k, e.agrees i j, lookup-insert k j v m)

  pub lookup-erase :
      (k j : K) (m : List (K × V)) → lookup j (erase k m) ≡ (if k == j then none else lookup j m)
  unfolding erase
  lookup-erase k j [] = ground arith
  lookup-erase k j ((i, w) ∷ m) =
      ground (arith, e.agrees k j, e.agrees i k, e.agrees i j, lookup-erase k j m)

  -- A write to a present key keeps the keys.
  pub keys-insert :
      (k : K) (v : V) (m : List (K × V)) → has_key k m ≡ true → keys (insert k v m) ≡ keys m
  unfolding insert
  keys-insert k v [] h = cc
  keys-insert k v ((i, w) ∷ m) h = ground (arith, e.agrees i k, keys-insert k v m)
