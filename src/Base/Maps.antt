-- ===== src/Base/Maps.antt =====
-- A `Map` with text keys, as a list of entries without order.
use Prim.Native.String.{String}
use mathlib.Core.Path.{◌≡◌}
use mathlib.Core.Option.{Option, none, some}
use mathlib.Core.List.{List, [], ◌∷◌}
use native.Mathlib.Omega.{arith}
use text.Mathlib.Text.{◌==◌ as str_eq}
use text.Mathlib.TextEquality.{eq_iff}
use stellar_batch_pay.Base.Tests.{if◌then◌else◌}

module _ {ℓ} {V : Type ℓ} where
  unfoldable pub entry : String → List (String × V) → Option V
  entry k [] = none
  entry k ((j, v) ∷ m) = if str_eq j k then some v else entry k m

  unfoldable pub delete_entry : String → List (String × V) → List (String × V)
  delete_entry k [] = []
  delete_entry k ((j, v) ∷ m) = if str_eq j k then delete_entry k m else (j, v) ∷ delete_entry k m

  unfoldable pub set_entry : String → V → List (String × V) → List (String × V)
  unfolding delete_entry
  set_entry k v m = (k, v) ∷ delete_entry k m

  pub entry-delete_entry :
      (k j : String) (m : List (String × V))
      → entry j (delete_entry k m) ≡ (if str_eq k j then none else entry j m)
  unfolding entry delete_entry
  entry-delete_entry k j [] = ground arith
  entry-delete_entry k j ((i, w) ∷ m) =
      ground (arith, eq_iff k j, eq_iff i k, eq_iff i j, entry-delete_entry k j m)

  pub entry-set_entry :
      (k j : String) (v : V) (m : List (String × V))
      → entry j (set_entry k v m) ≡ (if str_eq k j then some v else entry j m)
  unfolding entry set_entry
  entry-set_entry k j v m = ground (arith, entry-delete_entry k j m)
