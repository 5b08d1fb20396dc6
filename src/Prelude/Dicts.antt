-- ===== src/Prelude/Dicts.antt =====
-- Python's `dict`: an association list in which a key that is set again keeps its place.
use shortfire.Prelude.Tests.{if◌then◌else◌}
use shortfire.Prelude.Keys.{Equality, ◌==◌}
use mathlib.Core.Path.{◌≡◌, refl}
use mathlib.Core.Option.{Option, none, some}
use mathlib.Core.List.{List, [], ◌∷◌}
use native.Mathlib.Omega.{arith}

abbrev pub Dict {ℓ κ} : Type ℓ → Type κ → Type (ℓ ⊔ κ)
Dict K V = List (K × V)

module _ {ℓ κ} {K : Type ℓ} {V : Type κ} ⦃e : Equality K⦄ where
  -- d.get(key)
  unfoldable pub lookup : K → Dict K V → Option V
  lookup key [] = none
  lookup key (entry ∷ entries) = if entry.0 == key then some entry.1 else lookup key entries

  -- d[key] = value
  unfoldable pub insert : K → V → Dict K V → Dict K V
  insert key value [] = (key, value) ∷ []
  insert key value (entry ∷ entries) =
      if entry.0 == key then (key, value) ∷ entries else entry ∷ insert key value entries

  pub lookup-insert :
      (key other : K) (value : V) (entries : Dict K V)
      → lookup other (insert key value entries)
        ≡ (if key == other then some value else lookup other entries)
  unfolding lookup insert
  lookup-insert key other value [] = refl
  lookup-insert key other value (entry ∷ entries) = ground (
    arith,
    e.eq_test_iff key other,
    e.eq_test_iff entry.0 key,
    e.eq_test_iff entry.0 other,
    lookup-insert key other value entries,
  )
