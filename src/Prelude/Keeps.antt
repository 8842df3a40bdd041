-- ===== src/Prelude/Keeps.antt =====
-- What a body with early returns keeps of the state, however it ends.
use mathlib.Core.Bool.{Bool, true, false}
use beautiful_aerc.Prelude.Tests.{if◌then◌else◌}
use beautiful_aerc.Prelude.Results.{
  Result, ok, err, Exec, pure, stop, check, continue, ◌>>=◌, attempt, with_err, reading, modify,
}

pub record Keeps {ℓ} {S E A : Type ℓ} (I : S → Type ℓ) (m : Exec S E A) : Type ℓ where
  pub at : (s : S) → I s → I (m s).1

module _ {ℓ} {S E : Type ℓ} {I : S → Type ℓ} where
  pub Keeps-modify : (f : S → S) → ((s : S) → I s → I (f s)) → Keeps {E = E} I (modify f)
  unfolding modify
  Keeps-modify f h = record { at = h }

  module _ {A : Type ℓ} where
    pub Keeps-pure : (a : A) → Keeps {E = E} I (pure a)
    unfolding pure
    Keeps-pure a = record { at = λ s i. i }

    pub Keeps-stop : (e : E) → Keeps {A = A} I (stop e)
    unfolding stop
    Keeps-stop e = record { at = λ s i. i }

    pub Keeps-reading : (f : S → Exec S E A) → ((s : S) → Keeps I (f s)) → Keeps I (reading f)
    unfolding reading
    Keeps-reading f h = record { at = λ s. (h s).at s }

    pub Keeps-if :
        (b : Bool) (m n : Exec S E A) → Keeps I m → Keeps I n → Keeps I (if b then m else n)
    Keeps-if true m n hm hn = hm
    Keeps-if false m n hm hn = hn

  module _ {A B : Type ℓ} where
    keeps_continue :
        (r : Result E A) (f : A → Exec S E B) (s : S)
        → ((a : A) → Keeps I (f a))
        → I s
        → I (continue r f s).1
    keeps_continue (ok a) f s h i = (h a).at s i
    keeps_continue (err e) f s h i = i

    pub Keeps-bind :
        (m : Exec S E A) (f : A → Exec S E B)
        → Keeps I m
        → ((a : A) → Keeps I (f a))
        → Keeps I (m >>= f)
    unfolding ◌>>=◌
    Keeps-bind m f hm hf = record { at = λ s i. keeps_continue (m s).0 f (m s).1 hf (hm.at s i) }

keeps_check {ℓ} :
    {S E X A : Type ℓ} (I : S → Type ℓ) (f : X → E) (r : Result X A) (s : S)
    → I s
    → I (check f r s).1
unfolding check
keeps_check I f (ok a) s i = i
keeps_check I f (err x) s i = i

module _ {ℓ} {S E X A : Type ℓ} {I : S → Type ℓ} where
  pub Keeps-check : (f : X → E) (r : Result X A) → Keeps I (check f r)
  Keeps-check f r = record { at = keeps_check I f r }

  pub Keeps-with_err : (f : X → E) (m : Exec S X A) → Keeps I m → Keeps I (with_err f m)
  unfolding with_err
  Keeps-with_err f m h = record { at = λ s i. keeps_check I f (m s).0 (m s).1 (h.at s i) }

  pub Keeps-attempt : (m : Exec S X A) → Keeps I m → Keeps {E = E} I (attempt m)
  unfolding attempt
  Keeps-attempt m h = record { at = h.at }
