-- ===== src/Prelude/Dict.antt =====
-- A Go map with string keys, as an association list: a read is of the first entry.
use Prim.Native.String.{String}
use mathlib.Core.Path.{◌≡◌}
use mathlib.Core.Option.{Option, none, some}
use mathlib.Core.List.{List, [], ◌∷◌}
use native.Mathlib.Omega.{arith}
use text.Mathlib.Text.{◌==◌}
use text.Mathlib.TextEquality.{eq_iff}
use flux_externalsource_cont.Prelude.Tests.{if◌then◌else◌}

abbrev pub Dict {ℓ} : Type ℓ → Type ℓ
Dict V = List (String × V)

module _ {ℓ} {V : Type ℓ} where
  unfoldable pub lookup : String → Dict V → Option V
  lookup key [] = none
  lookup key ((first, value) ∷ rest) = if key == first then some value else lookup key rest

  unfoldable pub insert : String → V → Dict V → Dict V
  insert key value [] = (key, value) ∷ []
  insert key value ((first, old) ∷ rest) =
      let below = insert key value rest in
      if key == first then (first, value) ∷ rest else (first, old) ∷ below

  unfoldable pub remove : String → Dict V → Dict V
  remove key [] = []
  remove key ((first, old) ∷ rest) =
      let below = remove key rest in if key == first then below else (first, old) ∷ below

  pub lookup-insert :
      (key read : String) (value : V) (d : Dict V)
      → lookup read (insert key value d) ≡ (if key == read then some value else lookup read d)
  unfolding lookup insert
  lookup-insert key read value [] = ground (arith, eq_iff key read, eq_iff read key)
  lookup-insert key read value ((first, old) ∷ rest) =
      let below = lookup-insert key read value rest in
      ground (arith, below, eq_iff key first, eq_iff read first, eq_iff key read)

  pub lookup-remove :
      (key read : String) (d : Dict V)
      → lookup read (remove key d) ≡ (if key == read then none else lookup read d)
  unfolding lookup remove
  lookup-remove key read [] = ground arith
  lookup-remove key read ((first, old) ∷ rest) =
      let below = lookup-remove key read rest in
      ground (arith, below, eq_iff key first, eq_iff read first, eq_iff key read)

pub ruleset dict_laws = (lookup-insert, lookup-remove)
