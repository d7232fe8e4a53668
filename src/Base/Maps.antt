-- ===== src/Base/Maps.antt =====
-- A Go map with text keys, as an association list: the first entry of a key is its value. A loop
-- over the map visits the entries in the order of the list, which stands for any order.
use Prim.Native.String.{String}
use mathlib.Core.Option.{Option, none, some}
use mathlib.Core.List.{List, [], ◌∷◌}
use run_cd.Base.Tests.{if◌then◌else◌}
use run_cd.Base.Texts.{◌==◌}

module _ {ℓ} {V : Type ℓ} where
  unfoldable pub lookup : String → List (String × V) → Option V
  lookup k [] = none
  lookup k ((j, v) ∷ m) = if j == k then some v else lookup k m
