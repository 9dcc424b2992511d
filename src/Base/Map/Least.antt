-- ===== src/Base/Map/Least.antt =====
-- `iter().min_by_key(..)` on a map: the first of the entries with the least key.
use proximity_internet_mesh.Base.Tests.{
  Eq, ◌==◌, if◌then◌else◌, Bool-cases, ltb, ltb→lt, ltb→ge, ==_refl,
}
use Prim.Native.Nat.{ℕ, ◌≤◌}
use mathlib.Core.Path.{◌≡◌, refl, sym, ap, subst}
use mathlib.Core.Logic.{inl, inr}
use mathlib.Core.Option.{Option, none, some}
use mathlib.Core.List.{[], ◌∷◌}
use native.Mathlib.Omega.{arith}
use proximity_internet_mesh.Base.Map.{Map, lookup, IsDistinct}

module _ {ℓ κ} {K : Type ℓ} {V : Type κ} (key : V → ℕ) where
  abbrev better : K × V → K × V → K × V
  better a best = if ltb (key a.1) (key best.1) then a else best

  unfoldable pub least : K × V → Map K V → K × V
  least best [] = best
  least best (a ∷ m) = least (better a best) m

  unfoldable pub min_by_key : Map K V → Option (K × V)
  unfolding least
  min_by_key [] = none
  min_by_key (a ∷ m) = some (least a m)

  better-least : (a b : K × V) → (key (better a b).1 ≤ key a.1) × (key (better a b).1 ≤ key b.1)
  better-least a b = elim (Bool-cases (ltb (key a.1) (key b.1))) [
    | inl less ↦ rw less (omega arith, let p = ltb→lt (key a.1) (key b.1) less in omega arith)
    | inr more ↦ rw more (ltb→ge (key a.1) (key b.1) more, omega arith)
  ]

  least-start : (b : K × V) (m : Map K V) → key (least b m).1 ≤ key b.1
  unfolding least
  least-start b [] = omega arith
  least-start b (a ∷ m) =
      let h = least-start (better a b) m in let (p, q) = better-least a b in omega arith

  module _ ⦃e : Eq K⦄ where
    least-rest :
        (b : K × V) (m : Map K V) (j : K) (w : V) → lookup j m ≡ some w → key (least b m).1 ≤ key w
    unfolding least lookup
    least-rest b [] j w at = cc
    least-rest b ((i, u) ∷ m) j w at =
        let h = least-start (better (i, u) b) m in
        let (p, q) = better-least (i, u) b in
        elim (Bool-cases (i == j)) [
          | inl hit ↦ let same : u ≡ w = ground arith in rw (sym same) (omega arith)
          | inr miss ↦ least-rest (better (i, u) b) m j w (ground arith)
        ]

    least-all :
        (a : K × V) (m : Map K V) (j : K) (w : V)
        → lookup j (a ∷ m) ≡ some w
        → key (least a m).1 ≤ key w
    unfolding lookup
    least-all (i, u) m j w at = elim (Bool-cases (i == j)) [
      | inl hit ↦ let same : u ≡ w = ground arith in rw (sym same) (least-start (i, u) m)
      | inr miss ↦ least-rest (i, u) m j w (ground arith)
    ]

    past :
        (b r : K × V) (m : Map K V)
        → lookup b.0 m ≡ none
        → lookup r.0 m ≡ some r.1
        → lookup r.0 (b ∷ m) ≡ some r.1
    unfolding lookup
    past (k, v) (j, w) m new at = elim (Bool-cases (k == j)) [
      | inl hit ↦ ground (arith, ap (λ (i : K). lookup i m), e.equals_iff k j)
      | inr miss ↦ rw miss at
    ]

    better-fresh :
        (a b : K × V) (m : Map K V)
        → lookup b.0 (a ∷ m) ≡ none
        → lookup a.0 m ≡ none
        → lookup (better a b).0 m ≡ none
    unfolding lookup
    better-fresh a b m new fresh = elim (Bool-cases (ltb (key a.1) (key b.1))) [
      | inl less ↦ rw less fresh
      | inr more ↦ rw more (ground arith)
    ]

    -- One step of the search keeps the result an entry of the map.
    kept :
        (b c a r : K × V) (m : Map K V)
        → lookup b.0 (a ∷ m) ≡ none
        → lookup a.0 m ≡ none
        → lookup r.0 (c ∷ m) ≡ some r.1
        → better a b ≡ c
        → lookup r.0 (b ∷ a ∷ m) ≡ some r.1
    unfolding lookup
    kept b c a r m new fresh h step = elim (Bool-cases (ltb (key a.1) (key b.1))) [
      | inl less ↦
          let p : a ≡ c = rw (sym step, less) refl in
          past b r (a ∷ m) new (subst (λ (x : K × V). lookup r.0 (x ∷ m) ≡ some r.1) (sym p) h)
      | inr more ↦
          let p : b ≡ c = rw (sym step, more) refl in
          let q : lookup r.0 (b ∷ m) ≡ some r.1 =
            subst (λ (x : K × V). lookup r.0 (x ∷ m) ≡ some r.1) (sym p) h in
          ground (
            arith,
            ap (λ (j : K). lookup j m),
            e.equals_iff b.0 a.0,
            e.equals_iff a.0 r.0,
            e.equals_iff b.0 r.0,
          )
    ]

    least-lookup :
        (b : K × V) (m : Map K V)
        → IsDistinct (b ∷ m)
        → lookup (least b m).0 (b ∷ m) ≡ some (least b m).1
    unfolding least lookup
    least-lookup (k, v) [] d = rw (==_refl k) refl
    least-lookup b (a ∷ m) (new, (fresh, d)) =
        kept b (better a b) a (least (better a b) m) m new fresh
          (least-lookup (better a b) m (better-fresh a b m new fresh, d)) refl

    -- What is found is an entry of the map, of the least key.
    pub min_by_key-some :
        (m : Map K V) (k : K) (v : V)
        → IsDistinct m
        → min_by_key m ≡ some (k, v)
        → (lookup k m ≡ some v) × ((j : K) (w : V) → lookup j m ≡ some w → key v ≤ key w)
    unfolding min_by_key
    min_by_key-some [] k v d found = cc
    min_by_key-some (a ∷ m) k v d found =
        let p : least a m ≡ (k, v) = cc in
        (
          subst (λ (r : K × V). lookup r.0 (a ∷ m) ≡ some r.1) p (least-lookup a m d),
          λ j w at. subst (λ (r : K × V). key r.1 ≤ key w) p (least-all a m j w at),
        )

    pub min_by_key-none : (m : Map K V) → min_by_key m ≡ none → (j : K) → lookup j m ≡ none
    unfolding min_by_key lookup
    min_by_key-none [] none_found j = refl
    min_by_key-none (a ∷ m) none_found j = cc
