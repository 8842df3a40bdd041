-- ===== src/Prelude/Exits.antt =====
-- Postconditions of a body with early returns: `P` of what it returns early, `Q` of what it gives
-- to the statements after it.
use mathlib.Core.Bool.{Bool, true, false}
use mathlib.Core.Path.{◌≡◌, refl}
use beautiful_aerc.Prelude.Tests.{if◌then◌else◌}
use beautiful_aerc.Prelude.Results.{
  Result, ok, err, Exec, pure, stop, check, continue, ◌>>=◌, attempt, with_err, reading, modify,
  returned, returning,
}

abbrev pub Ends {ℓ} : {E A : Type ℓ} → (E → Type ℓ) → (A → Type ℓ) → Result E A → Type ℓ
Ends P Q (ok a) = Q a
Ends P Q (err e) = P e

pub record Exits {ℓ} {S E A : Type ℓ} (P : E → Type ℓ) (Q : A → Type ℓ) (m : Exec S E A)
    : Type ℓ where
  pub at : (s : S) → Ends P Q (m s).0

module _ {ℓ} {S E : Type ℓ} {P : E → Type ℓ} where
  module _ {A : Type ℓ} {Q : A → Type ℓ} where
    pub Exits-pure : (a : A) → Q a → Exits {S = S} P Q (pure a)
    unfolding pure
    Exits-pure a q = record { at = λ s. q }

    pub Exits-stop : (e : E) → P e → Exits {S = S} P Q (stop e)
    unfolding stop
    Exits-stop e p = record { at = λ s. p }

    pub Exits-reading : (f : S → Exec S E A) → ((s : S) → Exits P Q (f s)) → Exits P Q (reading f)
    unfolding reading
    Exits-reading f h = record { at = λ s. (h s).at s }

    pub Exits-if :
        (b : Bool) (m n : Exec S E A) → Exits P Q m → Exits P Q n → Exits P Q (if b then m else n)
    Exits-if true m n hm hn = hm
    Exits-if false m n hm hn = hn

  pub Exits-modify : {Q : Unit {ℓ} → Type ℓ} (f : S → S) → Q tt → Exits P Q (modify f)
  unfolding modify
  Exits-modify f q = record { at = λ s. q }

  module _ {A B : Type ℓ} {Q : A → Type ℓ} {R : B → Type ℓ} where
    Ends-bind :
        (r : Result E A) (f : A → Exec S E B) (s : S)
        → Ends P Q r
        → ((a : A) → Q a → Exits P R (f a))
        → Ends P R (continue r f s).0
    Ends-bind (ok a) f s h hf = (hf a h).at s
    Ends-bind (err e) f s h hf = h

    pub Exits-bind :
        (m : Exec S E A) (f : A → Exec S E B)
        → Exits P Q m
        → ((a : A) → Q a → Exits P R (f a))
        → Exits P R (m >>= f)
    unfolding ◌>>=◌
    Exits-bind m f hm hf = record { at = λ s. Ends-bind (m s).0 f (m s).1 (hm.at s) hf }

Ends-check {ℓ} :
    {S E X A : Type ℓ} (P : E → Type ℓ) (Q : A → Type ℓ) (f : X → E) (r : Result X A) (s : S)
    → ((x : X) → r ≡ err x → P (f x))
    → ((a : A) → r ≡ ok a → Q a)
    → Ends P Q (check f r s).0
unfolding check
Ends-check P Q f (ok a) s hp hq = hq a refl
Ends-check P Q f (err x) s hp hq = hp x refl

module _ {ℓ} {S E X A : Type ℓ} {P : E → Type ℓ} {Q : A → Type ℓ} where
  pub Exits-check :
      (f : X → E) (r : Result X A)
      → ((x : X) → r ≡ err x → P (f x))
      → ((a : A) → r ≡ ok a → Q a)
      → Exits {S = S} P Q (check f r)
  unfolding check
  Exits-check f r hp hq = record { at = λ s. Ends-check P Q f r s hp hq }

  pub Exits-with_err :
      (f : X → E) (m : Exec S X A)
      → ((x : X) → P (f x))
      → ((a : A) → Q a)
      → Exits P Q (with_err f m)
  unfolding with_err check
  Exits-with_err f m hp hq = record {
    at = λ s. Ends-check P Q f (m s).0 (m s).1 (λ x _. hp x) (λ a _. hq a);
  }

pub Exits-attempt {ℓ} :
    {S E X A : Type ℓ} {P : E → Type ℓ} {Q : Result X A → Type ℓ} (m : Exec S X A)
    → ((r : Result X A) → Q r)
    → Exits P Q (attempt m)
unfolding attempt
Exits-attempt m hq = record { at = λ s. hq (m s).0 }

ends_returned {ℓ} : {E : Type ℓ} (P : E → Type ℓ) (r : Result E E) → Ends P P r → P (returned r)
ends_returned P (ok e) q = q
ends_returned P (err e) q = q

-- What the body returns, early or at its end.
pub Exits-returning {ℓ} :
    {S E : Type ℓ} (P : E → Type ℓ) (m : Exec S E E) → Exits P P m → (s : S) → P (returning m s).0
Exits-returning P m h s = ends_returned P (m s).0 (h.at s)
