-- ===== src/Dict.antt =====
-- Python's `dict`, in the order of insertion: `d.get(k)`, `d[k] = v`, and a comprehension over
-- `d.items()` that changes the values alone.
pub mod Laws
use event_pipeline_extension.Prelude.{
  Option, none, some, List, [], ◌∷◌, map, Bool, true, Eq, ◌==◌, if◌then◌else◌,
}

abbrev pub Dict {ℓ} : Type ℓ → Type ℓ → Type ℓ
Dict K V = List (K × V)

module _ {ℓ} {K V : Type ℓ} ⦃e : Eq K⦄ where
  unfoldable pub get : K → Dict K V → Option V
  get k [] = none
  get k ((j, v) ∷ d) = if j == k then some v else get k d

  -- A key that is there keeps its place.
  unfoldable pub put : K → V → Dict K V → Dict K V
  put k v [] = (k, v) ∷ []
  put k v ((j, w) ∷ d) = if j == k then (j, v) ∷ d else (j, w) ∷ put k v d

module _ {ℓ} {K V W : Type ℓ} where
  unfoldable pub map_values : (V → W) → Dict K V → Dict K W
  map_values f [] = []
  map_values f ((k, v) ∷ d) = (k, f v) ∷ map_values f d
