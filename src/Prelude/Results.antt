-- ===== src/Prelude/Results.antt =====
-- Results of fallible code, and state passing with an early return.
use mathlib.Core.Path.{◌≡◌, refl}
use mathlib.Core.Logic.{◌⊎◌, inl, inr}

pub data Result {ℓ} (E A : Type ℓ) : Type ℓ where
  ok : A → Result E A
  err : E → Result E A

pub Result-cases {ℓ} :
    {E A : Type ℓ} (r : Result E A) → ((a : A) × (r ≡ ok a)) ⊎ ((e : E) × (r ≡ err e))
Result-cases (ok a) = inl (a, refl)
Result-cases (err e) = inr (e, refl)

-- What was written before an early return stays written.
abbrev pub Exec {ℓ} : Type ℓ → Type ℓ → Type ℓ → Type ℓ
Exec S E A = S → Result E A × S

-- `if err != nil { return … }` after a pure call
unfoldable pub check {ℓ} : {S E X A : Type ℓ} → (X → E) → Result X A → Exec S E A
check f (ok a) s = (ok a, s)
check f (err x) s = (err (f x), s)

-- A call whose error the caller looks at, and one whose error becomes the caller's.
unfoldable pub attempt {ℓ} : {S E X A : Type ℓ} → Exec S X A → Exec S E (Result X A)
attempt m s = let (r, s') = m s in (ok r, s')

unfoldable pub with_err {ℓ} : {S E X A : Type ℓ} → (X → E) → Exec S X A → Exec S E A
unfolding check
with_err f m s = let (r, s') = m s in check f r s'

module _ {ℓ} {S E : Type ℓ} where
  module _ {A : Type ℓ} where
    unfoldable pub pure : A → Exec S E A
    pure a s = (ok a, s)

    unfoldable pub stop : E → Exec S E A
    stop e s = (err e, s)

    -- an action that depends on the state, and one that only changes it
    unfoldable pub reading : (S → Exec S E A) → Exec S E A
    reading f s = f s s

  unfoldable pub modify : (S → S) → Exec S E (Unit {ℓ})
  modify f s = (ok tt, f s)

  module _ {A B : Type ℓ} where
    abbrev pub continue : Result E A → (A → Exec S E B) → Exec S E B
    continue (ok a) f s = f a s
    continue (err e) f s = (err e, s)

    infixl 5 ◌>>=◌ ◌>>◌
    -- opening this opens the actions above too
    unfoldable pub ◌>>=◌ : Exec S E A → (A → Exec S E B) → Exec S E B
    unfolding pure stop check attempt with_err reading modify
    ◌>>=◌ m f s = let (r, s') = m s in continue r f s'

    abbrev pub ◌>>◌ : Exec S E A → Exec S E B → Exec S E B
    ◌>>◌ m k = m >>= λ _. k

-- The value that a body returns, early or at its end.
abbrev pub returned {ℓ} : {E : Type ℓ} → Result E E → E
returned (ok e) = e
returned (err e) = e

abbrev pub returning {ℓ} : {S E : Type ℓ} → Exec S E E → S → E × S
returning m s = let (r, s') = m s in (returned r, s')

abbrev pub and_then {ℓ} : {E A B : Type ℓ} → Result E A → (A → Result E B) → Result E B
and_then (ok a) f = f a
and_then (err e) f = err e

-- Inversion of a chain that came to its end.
pub and_then-eq-ok {ℓ} :
    {E A B : Type ℓ} (r : Result E A) (f : A → Result E B) {b : B}
    → and_then r f ≡ ok b
    → (a : A) × (r ≡ ok a) × (f a ≡ ok b)
and_then-eq-ok (ok a) f h = (a, refl, h)
and_then-eq-ok (err e) f h = cc
