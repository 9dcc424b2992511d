-- ===== src/Base/Map.antt =====
-- `HashMap` and `BTreeMap` as association lists. The order of the list stands for the order in
-- which the map iterates, which no theorem relies on. `insert` replaces the value of a key in
-- place, so that keys stay distinct.
pub mod Least
pub mod Rows
use mathlib.Core.Path.{◌≡◌, refl, ap}
use mathlib.Core.Logic.{◌≢◌, ◌⊎◌, inl, inr}
use mathlib.Core.Bool.{Bool, true, false, not, ◌&&◌, ◌||◌}
use mathlib.Core.Option.{Option, none, some}
use mathlib.Core.List.{List, [], ◌∷◌}
use native.Mathlib.Omega.{arith}
use proximity_internet_mesh.Base.Tests.{
  Eq, ◌==◌, if◌then◌else◌, ne→==, ==→ne, ==→eq, ==_refl, Bool-cases,
}

abbrev pub Map {ℓ κ} : Type ℓ → Type κ → Type (ℓ ⊔ κ)
Map K V = List (K × V)

module _ {ℓ κ} {K : Type ℓ} {V : Type κ} ⦃e : Eq K⦄ where
  unfoldable pub lookup : K → Map K V → Option V
  lookup k [] = none
  lookup k ((j, v) ∷ m) = if j == k then some v else lookup k m

  unfoldable pub insert : K → V → Map K V → Map K V
  insert k v [] = (k, v) ∷ []
  insert k v ((j, w) ∷ m) = if j == k then (j, v) ∷ m else (j, w) ∷ insert k v m

  unfoldable pub remove : K → Map K V → Map K V
  remove k [] = []
  remove k ((j, w) ∷ m) = if j == k then remove k m else (j, w) ∷ remove k m

  pub contains_key : K → Map K V → Bool
  unfolding lookup
  contains_key k m = elim (lookup k m) [ none ↦ false | some v ↦ true ]

  -- `retain`, which keeps the entries that pass the test.
  unfoldable pub retain : (K → V → Bool) → Map K V → Map K V
  retain p [] = []
  retain p ((j, w) ∷ m) = if p j w then (j, w) ∷ retain p m else retain p m

  -- `iter().filter(..).map(|(k, _)| *k).collect()`
  unfoldable pub keys_where : (K → V → Bool) → Map K V → List K
  keys_where p [] = []
  keys_where p ((j, w) ∷ m) = if p j w then j ∷ keys_where p m else keys_where p m

  -- No key twice.
  abbrev pub IsDistinct : Map K V → Type κ
  IsDistinct [] = Unit {κ}
  IsDistinct ((j, w) ∷ m) = (lookup j m ≡ none) × IsDistinct m

  -- The value of a key after a test: `get(k).filter(..)`.
  abbrev pub passing : (K → V → Bool) → K → Option V → Option V
  passing p k none = none
  passing p k (some v) = if p k v then some v else none

  abbrev pub passes : (K → V → Bool) → K → Option V → Bool
  passes p k none = false
  passes p k (some v) = p k v

  pub lookup-insert :
      (k j : K) (v : V) (m : Map K V)
      → lookup j (insert k v m) ≡ (if k == j then some v else lookup j m)
  unfolding lookup insert
  lookup-insert k j v [] = refl
  lookup-insert k j v ((i, u) ∷ m) =
      ground (arith, e.equals_iff i k, e.equals_iff k j, e.equals_iff i j, lookup-insert k j v m)

  pub lookup-remove :
      (k j : K) (m : Map K V) → lookup j (remove k m) ≡ (if k == j then none else lookup j m)
  unfolding lookup remove
  lookup-remove k j [] = ground arith
  lookup-remove k j ((i, w) ∷ m) =
      ground (arith, e.equals_iff i k, e.equals_iff k j, e.equals_iff i j, lookup-remove k j m)

  pub lookup-insert_self : (k : K) (v : V) (m : Map K V) → lookup k (insert k v m) ≡ some v
  lookup-insert_self k v m = rw (lookup-insert, ==_refl k)

  pub lookup-insert_ne :
      (k j : K) (v : V) (m : Map K V) → k ≢ j → lookup j (insert k v m) ≡ lookup j m
  lookup-insert_ne k j v m h = rw (lookup-insert, ne→== k j h)

  pub lookup-remove_self : (k : K) (m : Map K V) → lookup k (remove k m) ≡ none
  lookup-remove_self k m = rw (lookup-remove, ==_refl k)

  pub lookup-remove_ne : (k j : K) (m : Map K V) → k ≢ j → lookup j (remove k m) ≡ lookup j m
  lookup-remove_ne k j m h = rw (lookup-remove, ne→== k j h)

  -- Where a value that is found after an insertion or a removal comes from.
  pub lookup_inserted :
      (k j : K) (v w : V) (m : Map K V)
      → lookup j (insert k v m) ≡ some w
      → (k ≡ j) × (v ≡ w) ⊎ (k ≢ j) × (lookup j m ≡ some w)
  lookup_inserted k j v w m h = elim (Bool-cases (k == j)) [
    | inl hit ↦ let same = lookup-insert k j v m in inl (==→eq k j hit, ground (arith, same))
    | inr miss ↦ let same = lookup-insert k j v m in inr (==→ne k j miss, ground (arith, same))
  ]

  pub lookup_removed :
      (k j : K) (w : V) (m : Map K V)
      → lookup j (remove k m) ≡ some w
      → (k ≢ j) × (lookup j m ≡ some w)
  lookup_removed k j w m h = elim (Bool-cases (k == j)) [
    | inl hit ↦ let same = lookup-remove k j m in absurd (ground (arith, same))
    | inr miss ↦ let same = lookup-remove k j m in (==→ne k j miss, ground (arith, same))
  ]

  pub insert-IsDistinct : (k : K) (v : V) (m : Map K V) → IsDistinct m → IsDistinct (insert k v m)
  unfolding insert
  insert-IsDistinct k v [] d = (unfold lookup in refl, tt)
  insert-IsDistinct k v ((j, w) ∷ m) (fresh, d) =
      ground (
        arith,
        e.equals_iff j k,
        e.equals_iff k j,
        lookup-insert k j v m,
        insert-IsDistinct k v m d,
      )

  pub remove-IsDistinct : (k : K) (m : Map K V) → IsDistinct m → IsDistinct (remove k m)
  unfolding remove
  remove-IsDistinct k [] d = tt
  remove-IsDistinct k ((j, w) ∷ m) (fresh, d) =
      ground (arith, e.equals_iff k j, lookup-remove k j m, remove-IsDistinct k m d)

  pub lookup-retain :
      (p : K → V → Bool) (k : K) (m : Map K V)
      → IsDistinct m
      → lookup k (retain p m) ≡ passing p k (lookup k m)
  unfolding lookup retain
  lookup-retain p k [] d = refl
  lookup-retain p k ((j, w) ∷ m) (fresh, d) =
      ground (arith, e.equals_iff j k, ap (λ (i : K). lookup i m), lookup-retain p k m d)

  pub retain-IsDistinct : (p : K → V → Bool) (m : Map K V) → IsDistinct m → IsDistinct (retain p m)
  unfolding retain
  retain-IsDistinct p [] d = tt
  retain-IsDistinct p ((j, w) ∷ m) (fresh, d) =
      ground (arith, lookup-retain p j m d, retain-IsDistinct p m d)

-- `HashSet` as a list without repetition; and the keys that a list of removals takes out.
module _ {ℓ} {K : Type ℓ} ⦃e : Eq K⦄ where
  unfoldable pub contains : K → List K → Bool
  contains k [] = false
  contains k (j ∷ s) = j == k || contains k s

  unfoldable pub set_insert : K → List K → List K
  unfolding contains
  set_insert k s = if contains k s then s else k ∷ s

  unfoldable pub set_remove : K → List K → List K
  set_remove k [] = []
  set_remove k (j ∷ s) = if j == k then set_remove k s else j ∷ set_remove k s

  pub contains-set_insert :
      (k j : K) (s : List K) → contains j (set_insert k s) ≡ (k == j || contains j s)
  unfolding set_insert
  contains-set_insert k j s = ground (arith, e.equals_iff k j)

  pub contains-set_remove :
      (k j : K) (s : List K) → contains j (set_remove k s) ≡ (not (k == j) && contains j s)
  unfolding contains set_remove
  contains-set_remove k j [] = ground arith
  contains-set_remove k j (i ∷ s) =
      ground
        (arith, e.equals_iff i k, e.equals_iff k j, e.equals_iff i j, contains-set_remove k j s)

module _ {ℓ κ} {K : Type ℓ} {V : Type κ} ⦃e : Eq K⦄ where
  -- A key is collected exactly if its value passes.
  pub contains-keys_where :
      (p : K → V → Bool) (k : K) (m : Map K V)
      → IsDistinct m
      → contains k (keys_where p m) ≡ passes p k (lookup k m)
  unfolding contains keys_where lookup
  contains-keys_where p k [] d = refl
  contains-keys_where p k ((j, w) ∷ m) (fresh, d) =
      ground (arith, e.equals_iff j k, contains-keys_where p k m d)
