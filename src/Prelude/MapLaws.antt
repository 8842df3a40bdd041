-- ===== src/Prelude/MapLaws.antt =====
-- What the operations of a map leave under each key.
use mathlib.Core.Path.{◌≡◌, refl}
use mathlib.Core.Option.{Option, none, some}
use mathlib.Core.List.{[], ◌∷◌}
use native.Mathlib.Omega.{arith}
use beautiful_aerc.Prelude.Tests.{if◌then◌else◌}
use beautiful_aerc.Prelude.Equality.{Eq, ◌==◌}
use beautiful_aerc.Prelude.Maps.{Map, lookup, lookup_or, assign, erase}

or_default {ℓ} : {V : Type ℓ} → V → Option V → V
or_default d none = d
or_default d (some v) = v

module _ {ℓ} {K V : Type ℓ} ⦃e : Eq K⦄ where
  pub lookup-assign :
      (k i : K) (v : V) (m : Map K V)
      → lookup i (assign k v m) ≡ (if k == i then some v else lookup i m)
  lookup-assign k i v [] = refl
  lookup-assign k i v ((j, w) ∷ m) =
      ground (arith, e.same_iff j k, e.same_iff k i, e.same_iff j i, lookup-assign k i v m)

  pub lookup-erase :
      (k i : K) (m : Map K V) → lookup i (erase k m) ≡ (if k == i then none else lookup i m)
  lookup-erase k i [] = ground arith
  lookup-erase k i ((j, w) ∷ m) =
      ground (arith, e.same_iff j k, e.same_iff k i, e.same_iff j i, lookup-erase k i m)

  lookup_or-eq : (d : V) (i : K) (m : Map K V) → lookup_or d i m ≡ or_default d (lookup i m)
  unfolding or_default
  lookup_or-eq d i [] = refl
  lookup_or-eq d i ((j, w) ∷ m) = ground (arith, lookup_or-eq d i m)

  pub lookup_or-assign :
      (d : V) (k i : K) (v : V) (m : Map K V)
      → lookup_or d i (assign k v m) ≡ (if k == i then v else lookup_or d i m)
  unfolding or_default
  lookup_or-assign d k i v m =
      rw (lookup_or-eq d i (assign k v m), lookup_or-eq d i m, lookup-assign k i v m) (ground arith)

  pub lookup_or-erase :
      (d : V) (k i : K) (m : Map K V)
      → lookup_or d i (erase k m) ≡ (if k == i then d else lookup_or d i m)
  unfolding or_default
  lookup_or-erase d k i m =
      rw (lookup_or-eq d i (erase k m), lookup_or-eq d i m, lookup-erase k i m) (ground arith)
