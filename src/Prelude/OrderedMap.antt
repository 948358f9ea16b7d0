-- ===== src/Prelude/OrderedMap.antt =====
-- JavaScript's `Map` with text keys: entries in insertion order, where a write to a key that is
-- present keeps its place.
use Prim.Native.Nat.{◌+◌, ◌≤◌}
use mathlib.Core.Path.{◌≡◌, refl}
use mathlib.Core.Bool.{Bool}
use mathlib.Core.List.{List, [], ◌∷◌}
use mathlib.Core.Option.{Option, none, some}
use native.Mathlib.Omega.{arith}
use app_tu_phuc_vu.Prelude.Tests.{if◌then◌else◌}
use app_tu_phuc_vu.Prelude.Lists.{length, is_some}
use app_tu_phuc_vu.Prelude.Text.{Text, text_eq, text_eq_iff, text_eq_refl}

abbrev pub OrderedMap {ℓ} : Type ℓ → Type ℓ
OrderedMap V = List (Text × V)

module _ {ℓ} {V : Type ℓ} where
  -- m.get(k)
  unfoldable pub get : OrderedMap V → Text → Option V
  get [] k = none
  get ((j, v) ∷ m) k = if text_eq j k then some v else get m k

  -- m.has(k)
  unfoldable pub has : OrderedMap V → Text → Bool
  unfolding get
  has m k = is_some (get m k)

  -- m.set(k, v)
  unfoldable pub put : OrderedMap V → Text → V → OrderedMap V
  put [] k v = (k, v) ∷ []
  put ((j, w) ∷ m) k v = let rest = put m k v in if text_eq j k then (j, v) ∷ m else (j, w) ∷ rest

  -- m.delete(k)
  unfoldable pub delete : OrderedMap V → Text → OrderedMap V
  delete [] k = []
  delete ((j, w) ∷ m) k = let rest = delete m k in if text_eq j k then rest else (j, w) ∷ rest

  pub get-put :
      (m : OrderedMap V) (k j : Text) (v : V)
      → get (put m k v) j ≡ (if text_eq k j then some v else get m j)
  unfolding get put
  get-put [] k j v = refl
  get-put ((i, w) ∷ m) k j v =
      ground (arith, text_eq_iff k j, text_eq_iff i k, text_eq_iff i j, get-put m k j v)

  pub get-delete :
      (m : OrderedMap V) (k j : Text) → get (delete m k) j ≡ (if text_eq k j then none else get m j)
  unfolding get delete
  get-delete [] k j = ground arith
  get-delete ((i, w) ∷ m) k j =
      ground (arith, text_eq_iff k j, text_eq_iff i k, text_eq_iff i j, get-delete m k j)

  pub length-put :
      (m : OrderedMap V) (k : Text) (v : V)
      → length (put m k v) ≡ (if has m k then 0 else 1) + length m
  unfolding put has
  length-put [] k v = omega arith
  length-put ((i, w) ∷ m) k v = ground (arith, length-put m k v)

  pub length-delete_le : (m : OrderedMap V) (k : Text) → length (delete m k) ≤ length m
  unfolding delete
  length-delete_le [] k = omega arith
  length-delete_le ((i, w) ∷ m) k = ground (arith, length-delete_le m k)

  -- Deleting the first key makes room.
  pub length-delete_first :
      (j : Text) (w : V) (m : OrderedMap V) → length (delete ((j, w) ∷ m) j) ≤ length m
  unfolding delete
  length-delete_first j w m = ground (arith, text_eq_refl j, length-delete_le m j)
