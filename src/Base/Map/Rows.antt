-- ===== src/Base/Map/Rows.antt =====
-- A table of SQL as a map from its primary key: `UPDATE .. WHERE`, `DELETE .. WHERE` with the number
-- of rows. The order of the rows stands for the order in which the database keeps them.
use mathlib.Core.Path.{◌≡◌, refl, sym, ◌∙◌}
use mathlib.Core.Bool.{Bool}
use mathlib.Core.Option.{Option, none, some}
use mathlib.Core.List.{[], ◌∷◌}
use Prim.Native.Nat.{ℕ, ◌+◌}
use native.Mathlib.Omega.{arith}
use proximity_internet_mesh.Base.Tests.{Eq, if◌then◌else◌}
use proximity_internet_mesh.Base.Map.{Map, lookup, IsDistinct}

module _ {ℓ κ} {K : Type ℓ} {V : Type κ} where
  unfoldable pub update_where : (K → V → Bool) → (V → V) → Map K V → Map K V
  update_where p f [] = []
  update_where p f ((k, v) ∷ m) = (k, if p k v then f v else v) ∷ update_where p f m

  unfoldable pub count_where : (K → V → Bool) → Map K V → ℕ
  count_where p [] = 0
  count_where p ((k, v) ∷ m) = (if p k v then 1 else 0) + count_where p m

  -- The value of a key after an update.
  abbrev pub updated : (K → V → Bool) → (V → V) → K → Option V → Option V
  updated p f k none = none
  updated p f k (some v) = some (if p k v then f v else v)

  updated_from :
      (p : K → V → Bool) (f : V → V) (k : K) (o : Option V) (w : V)
      → updated p f k o ≡ some w
      → (v : V) × (o ≡ some v) × (w ≡ (if p k v then f v else v))
  updated_from p f k none w h = absurd cc
  updated_from p f k (some v) w h = (v, refl, cc)

module _ {ℓ κ} {K : Type ℓ} {V : Type κ} ⦃e : Eq K⦄ where
  pub lookup-update_where :
      (p : K → V → Bool) (f : V → V) (k : K) (m : Map K V)
      → lookup k (update_where p f m) ≡ updated p f k (lookup k m)
  unfolding lookup update_where
  lookup-update_where p f k [] = refl
  lookup-update_where p f k ((j, v) ∷ m) =
      ground (arith, e.equals_iff j k, lookup-update_where p f k m)

  pub update_where-IsDistinct :
      (p : K → V → Bool) (f : V → V) (m : Map K V) → IsDistinct m → IsDistinct (update_where p f m)
  unfolding update_where
  update_where-IsDistinct p f [] d = tt
  update_where-IsDistinct p f ((j, v) ∷ m) (fresh, d) =
      (ground (arith, lookup-update_where p f j m), update_where-IsDistinct p f m d)

  -- Where a value that is found after an update comes from.
  pub lookup_updated :
      (p : K → V → Bool) (f : V → V) (k : K) (m : Map K V) (w : V)
      → lookup k (update_where p f m) ≡ some w
      → (v : V) × (lookup k m ≡ some v) × (w ≡ (if p k v then f v else v))
  lookup_updated p f k m w h =
      updated_from p f k (lookup k m) w (sym (lookup-update_where p f k m) ∙ h)
