-- ===== src/Prelude/Listed.antt =====
-- Whether a number is on a list, as a test.
use Prim.Native.Nat.{ℕ}
use mathlib.Core.Path.{◌≡◌, refl}
use mathlib.Core.Bool.{Bool, true, false, ◌||◌}
use mathlib.Core.List.{List, [], ◌∷◌, ◌++◌}
use native.Mathlib.Omega.{arith}
use beautiful_aerc.Prelude.Equality.{◌==◌, nat_eq}

abbrev pub listed : ℕ → List ℕ → Bool
listed i [] = false
listed i (j ∷ js) = j == i || listed i js

pub listed-append : (i : ℕ) (js ks : List ℕ) → listed i (js ++ ks) ≡ (listed i js || listed i ks)
listed-append i [] ks = refl
listed-append i (j ∷ js) ks = ground (arith, listed-append i js ks)

pub listed-middle : (i : ℕ) (js ks : List ℕ) → listed i (js ++ i ∷ ks) ≡ true
listed-middle i [] ks = ground arith
listed-middle i (j ∷ js) ks = ground (arith, listed-middle i js ks)
