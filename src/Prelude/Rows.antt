-- ===== src/Prelude/Rows.antt =====
-- Tests and lookups over the rows of a table, each with an id.
use Prim.Native.Nat.{ℕ, ◌<◌, max}
use mathlib.Core.Path.{◌≡◌, refl, sym, ap, subst}
use mathlib.Core.Logic.{inl, inr}
use mathlib.Core.Bool.{Bool, true, false, not, ◌&&◌, ◌||◌}
use mathlib.Core.Option.{Option, none, some}
use mathlib.Core.List.{List, [], ◌∷◌, ◌++◌}
use native.Mathlib.Omega.{arith}
use beautiful_aerc.Prelude.Tests.{if◌then◌else◌, Bool-cases}
use beautiful_aerc.Prelude.Equality.{◌==◌, nat_eq, ==→≡}
use beautiful_aerc.Prelude.Lists.{All, filter}

module _ {ℓ} {R : Type ℓ} where
  abbrev pub any : (R → Bool) → List R → Bool
  any p [] = false
  any p (r ∷ rs) = p r || any p rs

  -- the first row that passes
  abbrev pub find : (R → Bool) → List R → Option R
  find p [] = none
  find p (r ∷ rs) = let later = find p rs in if p r then some r else later

  abbrev pub map_where : (R → Bool) → (R → R) → List R → List R
  map_where p f [] = []
  map_where p f (r ∷ rs) = (if p r then f r else r) ∷ map_where p f rs

  pub any-append : (p : R → Bool) (rs ss : List R) → any p (rs ++ ss) ≡ (any p rs || any p ss)
  any-append p [] ss = refl
  any-append p (r ∷ rs) ss = ground (arith, any-append p rs ss)

  pub any-cong : (p q : R → Bool) (rs : List R) → All (λ r. p r ≡ q r) rs → any p rs ≡ any q rs
  any-cong p q [] h = refl
  any-cong p q (r ∷ rs) h = ground (arith, any-cong p q rs h.1)

  pub any-eq-false : (p : R → Bool) (rs : List R) → ((r : R) → p r ≡ false) → any p rs ≡ false
  any-eq-false p [] h = refl
  any-eq-false p (r ∷ rs) h = ground (arith, h r, any-eq-false p rs h)

  pub any-filter : (p q : R → Bool) (rs : List R) → any p (filter q rs) ≡ any (λ r. q r && p r) rs
  any-filter p q [] = refl
  any-filter p q (r ∷ rs) = ground (arith, any-filter p q rs)

  pub any-filter-eq-false :
      (p q : R → Bool) (rs : List R) → any p rs ≡ false → any p (filter q rs) ≡ false
  any-filter-eq-false p q [] h = h
  any-filter-eq-false p q (r ∷ rs) h = ground (arith, any-filter-eq-false p q rs)

  pub All-filter {κ} :
      (P : R → Type κ) (q : R → Bool) (rs : List R) → All P rs → All P (filter q rs)
  All-filter P q [] h = h
  All-filter P q (r ∷ rs) h = ground (arith, All-filter P q rs h.1)

  pub All-filter-true {κ} :
      (P : R → Type κ) (q : R → Bool) (rs : List R)
      → All P rs
      → All (λ r. P r × (q r ≡ true)) (filter q rs)
  All-filter-true P q [] h = tt
  All-filter-true P q (r ∷ rs) h =
      elim (q r)
          as (λ b.
            q r ≡ b → All (λ s. P s × (q s ≡ true)) (if b then r ∷ filter q rs else filter q rs)) [
              | true ↦ λ e. ((h.0, e), All-filter-true P q rs h.1)
              | false ↦ λ e. All-filter-true P q rs h.1
            ]
        refl

  pub All-imp {κ} : (P S : R → Type κ) (rs : List R) → ((r : R) → P r → S r) → All P rs → All S rs
  All-imp P S [] f p = tt
  All-imp P S (r ∷ rs) f p = (f r p.0, All-imp P S rs f p.1)

  pub All-both {κ} :
      (P Q S : R → Type κ) (rs : List R)
      → ((r : R) → P r → Q r → S r)
      → All P rs
      → All Q rs
      → All S rs
  All-both P Q S [] f p q = tt
  All-both P Q S (r ∷ rs) f p q = (f r p.0 q.0, All-both P Q S rs f p.1 q.1)

  pub All-every {κ} : (P : R → Type κ) (rs : List R) → ((r : R) → P r) → All P rs
  All-every P [] h = tt
  All-every P (r ∷ rs) h = (h r, All-every P rs h)

  pub All-find {κ} :
      (P : R → Type κ) (p : R → Bool) (rs : List R) (r : R) → All P rs → find p rs ≡ some r → P r
  All-find P p [] r h e = ground arith
  All-find P p (s ∷ rs) r h e = elim (Bool-cases (p s)) [
    | inl here ↦ subst P (ap (λ o. elim o [ none ↦ s | some x ↦ x ]) (rw here at e)) h.0
    | inr later ↦ All-find P p rs r h.1 (rw later at e)
  ]

-- an id one past the greatest, which is SQLite's choice for a row that names none
module _ {ℓ} {R : Type ℓ} (id : R → ℕ) where
  abbrev pub top_id : List R → ℕ
  top_id [] = 0
  top_id (r ∷ rs) = max (id r) (top_id rs)

  abbrev pub has_id : ℕ → List R → Bool
  has_id i rs = any (λ r. id r == i) rs

  -- no two rows have one id
  abbrev pub Distinct : List R → Type 0
  Distinct [] = Unit
  Distinct (r ∷ rs) = (has_id (id r) rs ≡ false) × Distinct rs

  pub has_id-above : (i : ℕ) (rs : List R) → top_id rs < i → has_id i rs ≡ false
  has_id-above i [] h = refl
  has_id-above i (r ∷ rs) h = ground (arith, has_id-above i rs)

  pub Distinct-insert :
      (rs : List R) (r : R) → has_id (id r) rs ≡ false → Distinct rs → Distinct (rs ++ r ∷ [])
  Distinct-insert [] r h d = (refl, d)
  Distinct-insert (s ∷ rs) r h d =
      ground (arith, any-append (λ q. id q == id s) rs (r ∷ []), Distinct-insert rs r)

  pub Distinct-filter : (q : R → Bool) (rs : List R) → Distinct rs → Distinct (filter q rs)
  Distinct-filter q [] d = d
  Distinct-filter q (r ∷ rs) d =
      ground (arith, any-filter-eq-false (λ s. id s == id r) q rs, Distinct-filter q rs d.1)

  -- what an update that keeps the ids keeps
  pub has_id-map_where :
      (p : R → Bool) (f : R → R) (i : ℕ) (rs : List R)
      → ((r : R) → id (f r) ≡ id r)
      → has_id i (map_where p f rs) ≡ has_id i rs
  has_id-map_where p f i [] h = refl
  has_id-map_where p f i (r ∷ rs) h = ground (arith, h r, has_id-map_where p f i rs h)

  pub Distinct-map_where :
      (p : R → Bool) (f : R → R) (rs : List R)
      → ((r : R) → id (f r) ≡ id r)
      → Distinct rs
      → Distinct (map_where p f rs)
  Distinct-map_where p f [] h d = d
  Distinct-map_where p f (r ∷ rs) h d =
      ground (arith, h r, has_id-map_where p f (id r) rs h, Distinct-map_where p f rs h d.1)

  unlike :
      (p : R → Bool) (i : ℕ) (rs : List R)
      → has_id i rs ≡ false
      → All (λ t. (not (id t == i) || p t) ≡ true) rs
  unlike p i [] h = tt
  unlike p i (r ∷ rs) h = (ground arith, unlike p i rs (ground arith))

  -- the row that a test finds is the only one of its id
  pub find-Distinct :
      (p : R → Bool) (rs : List R) (r : R)
      → Distinct rs
      → find p rs ≡ some r
      → All (λ t. (not (id t == id r) || p t) ≡ true) rs × (has_id (id r) rs ≡ true)
  find-Distinct p [] r d e = ground arith
  find-Distinct p (s ∷ rs) r d e = elim (Bool-cases (p s)) [
    | inl here ↦
        let same : s ≡ r = ap (λ o. elim o [ none ↦ s | some x ↦ x ]) (rw here at e) in
        (
          (ground arith, unlike p (id r) rs (subst (λ t. has_id (id t) rs ≡ false) same d.0)),
          rw (← same) (ground arith),
        )
    | inr later ↦
        let (all, there) = find-Distinct p rs r d.1 (rw later at e) in
        let apart : (id s == id r) ≡ false = elim (Bool-cases (id s == id r)) [
          | inl equal ↦
              let also = subst (λ j. has_id j rs ≡ true) (sym (==→≡ (id s) (id r) equal)) there in
              ground arith
          | inr unequal ↦ unequal
        ] in
        ((ground arith, all), ground arith)
  ]

  pub any-absent :
      (g : R → Bool) (i : ℕ) (rs : List R)
      → has_id i rs ≡ false
      → any (λ r. (id r == i) && g r) rs ≡ false
  any-absent g i [] h = refl
  any-absent g i (r ∷ rs) h = ground (arith, any-absent g i rs)

  -- a test of the row of one id, after a deletion
  pub any-kept :
      (p g : R → Bool) (i : ℕ) (rs : List R)
      → Distinct rs
      → any (λ r. (id r == i) && g r) (filter (λ r. not (p r)) rs)
        ≡ (not (has_id i (filter p rs)) && any (λ r. (id r == i) && g r) rs)
  any-kept p g i [] d = refl
  any-kept p g i (r ∷ rs) d = elim (Bool-cases (id r == i)) [
    | inl same ↦
        let absent : has_id i rs ≡ false =
          subst (λ j. has_id j rs ≡ false) (==→≡ (id r) i same) d.0 in
        let gone = any-filter-eq-false (λ s. id s == i) p rs absent in
        let also = any-filter-eq-false (λ s. id s == i) (λ s. not (p s)) rs absent in
        ground (
          arith,
          same,
          any-absent g i rs absent,
          any-absent g i (filter (λ s. not (p s)) rs) also,
          gone,
        )
    | inr other ↦ ground (arith, other, any-kept p g i rs d.1)
  ]
