-- ===== src/Dict/Laws.antt =====
-- What `get` reads after each operation, and that no key stands twice.
use mathlib.Core.Option
use event_pipeline_extension.Prelude.{
  none, some, [], ◌∷◌, ◌≡◌, refl, Eq, ◌==◌, eq_law, eq_self, arith, if◌then◌else◌,
}
use event_pipeline_extension.Dict.{Dict, get, put, map_values}

module _ {ℓ} {K V : Type ℓ} ⦃e : Eq K⦄ where
  pub get-put :
      (k j : K) (v : V) (d : Dict K V) → get j (put k v d) ≡ (if k == j then some v else get j d)
  unfolding get put
  get-put k j v [] = refl
  get-put k j v ((i, w) ∷ d) = ground (arith, eq_law k j, eq_law i k, eq_law i j, get-put k j v d)

  pub get-put_self : (k : K) (v : V) (d : Dict K V) → get k (put k v d) ≡ some v
  get-put_self k v d = ground (arith, get-put k k v d, eq_self k)

  -- No key stands twice.
  abbrev pub IsUnique : Dict K V → Type ℓ
  IsUnique [] = Unit
  IsUnique ((k, v) ∷ d) = (get k d ≡ none) × IsUnique d

  pub put-IsUnique : (k : K) (v : V) (d : Dict K V) → IsUnique d → IsUnique (put k v d)
  unfolding get put
  put-IsUnique k v [] u = (refl, tt)
  put-IsUnique k v ((j, w) ∷ d) u =
      ground (arith, eq_law j k, eq_law k j, get-put k j v d, put-IsUnique k v d u.1)

module _ {ℓ} {K V W : Type ℓ} ⦃e : Eq K⦄ where
  pub get-map_values :
      (f : V → W) (k : K) (d : Dict K V) → get k (map_values f d) ≡ Option.map f (get k d)
  unfolding get map_values
  get-map_values f k [] = refl
  get-map_values f k ((j, v) ∷ d) = ground (arith, get-map_values f k d)

  pub map_values-IsUnique : (f : V → W) (d : Dict K V) → IsUnique d → IsUnique (map_values f d)
  unfolding map_values
  map_values-IsUnique f [] u = tt
  map_values-IsUnique f ((k, v) ∷ d) u =
      ground (arith, get-map_values f k d, map_values-IsUnique f d u.1)
