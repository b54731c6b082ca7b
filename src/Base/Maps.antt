-- ===== src/Base/Maps.antt =====
-- Association lists with text keys, which stand for Go's maps.
use Prim.Native.String.{String}
use text.Mathlib.Text.{◌==◌}
use text.Mathlib.TextEquality.{eq_iff}
use text.Mathlib.TextPositions.{eq_refl}
use mathlib.Core.Path.{◌≡◌, refl}
use mathlib.Core.List.{List, [], ◌∷◌}
use mathlib.Core.Option.{Option, none, some}
use native.Mathlib.Omega.{arith}
use bdsmail.Base.Tests.{if◌then◌else◌}

-- A Go map with text keys, as an association list.
abbrev pub Assoc {ℓ} : Type ℓ → Type ℓ
Assoc V = List (String × V)

module _ {ℓ} {V : Type ℓ} where
  unfoldable pub lookup : String → Assoc V → Option V
  lookup key [] = none
  lookup key ((name, value) ∷ rest) = if name == key then some value else lookup key rest

  unfoldable pub insert : String → V → Assoc V → Assoc V
  insert key new [] = (key, new) ∷ []
  insert key new ((name, old) ∷ rest) =
      if name == key then (key, new) ∷ rest else (name, old) ∷ insert key new rest

  unfoldable pub remove : String → Assoc V → Assoc V
  remove k [] = []
  remove k ((j, v) ∷ m) = let rest = remove k m in if j == k then rest else (j, v) ∷ rest

  pub lookup-insert :
      (key other : String) (new : V) (m : Assoc V)
      → lookup other (insert key new m) ≡ (if key == other then some new else lookup other m)
  unfolding lookup insert
  lookup-insert key other new [] = refl
  lookup-insert key other new ((name, old) ∷ rest) = ground (
    arith,
    eq_iff key other,
    eq_iff name key,
    eq_iff name other,
    lookup-insert key other new rest,
  )

  pub lookup-remove :
      (k j : String) (m : Assoc V) → lookup j (remove k m) ≡ (if k == j then none else lookup j m)
  unfolding lookup remove
  lookup-remove k j [] = ground arith
  lookup-remove k j ((i, v) ∷ m) =
      ground (arith, lookup-remove k j m, eq_iff i k, eq_iff i j, eq_iff k j)

module _ {ℓ} {V : Type ℓ} where
  pub lookup-insert_self : (k : String) (v : V) (m : Assoc V) → lookup k (insert k v m) ≡ some v
  lookup-insert_self k v m = simp (lookup-insert, eq_refl)

pub ruleset map_laws = (lookup-insert, lookup-remove)
