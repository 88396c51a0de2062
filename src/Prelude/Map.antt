-- ===== src/Prelude/Map.antt =====
-- Go's maps, as association lists with at most one entry for a key.
use mathlib.Core.Path.{◌≡◌}
use mathlib.Core.Option.{Option, none, some}
use mathlib.Core.List.{List, [], ◌∷◌}
use native.Mathlib.Omega.{arith}
use arandu_whatsapp.Prelude.Equality.{Eq, ◌==◌}
use arandu_whatsapp.Prelude.Tests.{if◌then◌else◌}

abbrev pub Map {ℓ κ} : Type ℓ → Type κ → Type (ℓ ⊔ κ)
Map K V = List (K × V)

module _ {ℓ κ} {K : Type ℓ} {V : Type κ} ⦃e : Eq K⦄ where
  -- v, ok := m[k]
  unfoldable pub get : Map K V → K → Option V
  get [] k = none
  get ((j, v) ∷ m) k = if j == k then some v else get m k

  -- delete(m, k)
  unfoldable pub delete : Map K V → K → Map K V
  delete [] k = []
  delete ((j, v) ∷ m) k = let rest = delete m k in if j == k then rest else (j, v) ∷ rest

  -- m[k] = v
  unfoldable pub put : Map K V → K → V → Map K V
  unfolding delete
  put m k v = (k, v) ∷ delete m k

  pub get-delete : (m : Map K V) (k j : K) → get (delete m k) j ≡ (if k == j then none else get m j)
  unfolding get delete
  get-delete [] k j = ground arith
  get-delete ((i, v) ∷ m) k j =
      ground (arith, get-delete m k j, e.test_iff i k, e.test_iff i j, e.test_iff k j)

  pub get-put :
      (m : Map K V) (k : K) (v : V) (j : K)
      → get (put m k v) j ≡ (if k == j then some v else get m j)
  unfolding get put
  get-put m k v j = ground (arith, get-delete m k j)

pub ruleset map_laws = (get-delete, get-put)
