-- ===== src/Prelude/Dict.antt =====
-- A map with text keys, as HashMap and DashMap are used: the order of entries is never read.
use mathlib.Core.Path.{◌≡◌}
use mathlib.Core.Option.{Option, none, some}
use mathlib.Core.List.{List, [], ◌∷◌}
use native.Mathlib.Omega.{arith}
use text.Mathlib.Text.{◌==◌}
use text.Mathlib.TextEquality.{eq_iff}
use sovereign_engine.Prelude.Tests.{if◌then◌else◌}
use Prim.Native.String.{String}

abbrev pub Dict {ℓ} : Type ℓ → Type ℓ
Dict V = List (String × V)

module _ {ℓ} {V : Type ℓ} where
  unfoldable pub get : String → Dict V → Option V
  get k [] = none
  get k ((j, v) ∷ d) = if j == k then some v else get k d

  unfoldable pub remove : String → Dict V → Dict V
  remove k [] = []
  remove k ((j, v) ∷ d) = let rest = remove k d in if j == k then rest else (j, v) ∷ rest

  unfoldable pub insert : String → V → Dict V → Dict V
  unfolding remove
  insert k v d = (k, v) ∷ remove k d

  pub get-remove :
      (k j : String) (d : Dict V) → get j (remove k d) ≡ (if k == j then none else get j d)
  unfolding get remove
  get-remove k j [] = ground arith
  get-remove k j ((i, v) ∷ d) = ground (arith, get-remove k j d, eq_iff i k, eq_iff i j, eq_iff k j)

  pub get-insert :
      (k j : String) (v : V) (d : Dict V)
      → get j (insert k v d) ≡ (if k == j then some v else get j d)
  unfolding get insert
  get-insert k j v d = ground (arith, get-remove k j d)

pub ruleset dict_laws = (get-remove, get-insert)
