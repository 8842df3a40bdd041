-- ===== src/Sync/Resync/Sweep.antt =====
-- The pages of a scan by id, as internal/sync/resync.go reads them, and what is deleted behind each.
use beautiful_aerc.Prelude.{
  ℕ, zero, suc, ◌≤◌, ◌<◌, List, [], ◌∷◌, ◌++◌, map, Bool, true, false, not, ◌≡◌, refl, ap, ◌∙◌,
  arith, nat_eq, ltb, All, filter, take, drop, if◌then◌else◌,
}
use beautiful_aerc.Prelude.Rows.{All-both}
use beautiful_aerc.Prelude.Listed.{listed}
use beautiful_aerc.Store.Mail.Stale.{page_after, cursor_of}

module _ {ℓ} {R : Type ℓ} (id : R → ℕ) where
  -- the ids rise, from above the first number on
  abbrev pub Rising : ℕ → List R → Type 0
  Rising lo [] = Unit
  Rising lo (r ∷ rs) = (lo < id r) × Rising (id r) rs

  abbrev pub Below : ℕ → List R → Type 0
  Below hi rs = All (λ r. id r ≤ hi) rs

  pub filter-append :
      (p : R → Bool) (rs ss : List R) → filter p (rs ++ ss) ≡ filter p rs ++ filter p ss
  filter-append p [] ss = refl
  filter-append p (r ∷ rs) ss =
      elim (p r)
        as (λ b.
          (if b then r ∷ filter p (rs ++ ss) else filter p (rs ++ ss))
          ≡ (if b then r ∷ filter p rs else filter p rs) ++ filter p ss) [
            | true ↦ ap (λ t. r ∷ t) (filter-append p rs ss)
            | false ↦ filter-append p rs ss
          ]

  pub filter_all : (p : R → Bool) (rs : List R) → All (λ r. p r ≡ true) rs → filter p rs ≡ rs
  filter_all p [] h = refl
  filter_all p (r ∷ rs) h = rw (h.0, filter_all p rs h.1)

  filter_none : (p : R → Bool) (rs : List R) → All (λ r. p r ≡ false) rs → filter p rs ≡ []
  filter_none p [] h = refl
  filter_none p (r ∷ rs) h = rw (h.0, filter_none p rs h.1)

  pub filter-cong :
      (p q : R → Bool) (rs : List R) → All (λ r. p r ≡ q r) rs → filter p rs ≡ filter q rs
  filter-cong p q [] h = refl
  filter-cong p q (r ∷ rs) h = rw (h.0, filter-cong p q rs h.1)

  pub above :
      (lo after : ℕ) (rs : List R)
      → after ≤ lo
      → Rising lo rs
      → All (λ r. ltb after (id r) ≡ true) rs
  above lo after [] h a = tt
  above lo after (r ∷ rs) h a =
      (ground (arith, a.0), above (id r) after rs (omega (arith, a.0)) a.1)

  not_above : (after : ℕ) (rs : List R) → Below after rs → All (λ r. ltb after (id r) ≡ false) rs
  not_above after [] h = tt
  not_above after (r ∷ rs) h = (ground (arith, h.0), not_above after rs h.1)

  -- what a page reads is what is not behind the cursor
  pub page_after-split :
      (after limit : ℕ) (behind ahead : List R)
      → Below after behind
      → Rising after ahead
      → page_after id after limit (behind ++ ahead) ≡ take limit ahead
  page_after-split after limit behind ahead b a = ap (take limit) (
      filter-append (λ r. ltb after (id r)) behind ahead
      ∙ ap (λ t. t ++ filter (λ r. ltb after (id r)) ahead)
          (filter_none (λ r. ltb after (id r)) behind (not_above after behind b))
      ∙ filter_all (λ r. ltb after (id r)) ahead (above after after ahead (omega arith) a))

  -- a page and what is ahead of it
  pub take-drop : (n : ℕ) (rs : List R) → take n rs ++ drop n rs ≡ rs
  take-drop zero rs = refl
  take-drop (suc n) [] = refl
  take-drop (suc n) (r ∷ rs) = ap (λ t. r ∷ t) (take-drop n rs)

  pub Below-page :
      (n lo : ℕ) (r : R) (rs : List R)
      → Rising lo (r ∷ rs)
      → Below (cursor_of id (r ∷ take n rs)) (r ∷ take n rs)
  Below-page zero lo r rs a = (omega arith, tt)
  Below-page (suc n) lo r [] a = (omega arith, tt)
  Below-page (suc n) lo r (s ∷ rs) a =
      let (here, rest) = Below-page n (id r) s rs a.1 in (omega (arith, here, a.1.0), (here, rest))

  pub Rising-ahead :
      (n lo : ℕ) (r : R) (rs : List R)
      → Rising lo (r ∷ rs)
      → Rising (cursor_of id (r ∷ take n rs)) (drop n rs)
  Rising-ahead zero lo r rs a = a.1
  Rising-ahead (suc n) lo r [] a = tt
  Rising-ahead (suc n) lo r (s ∷ rs) a = Rising-ahead n (id r) s rs a.1

  pub Rising-page : (n lo : ℕ) (rs : List R) → Rising lo rs → Rising lo (take n rs)
  Rising-page zero lo rs a = tt
  Rising-page (suc n) lo [] a = tt
  Rising-page (suc n) lo (r ∷ rs) a = (a.0, Rising-page n (id r) rs a.1)

  module _ (stale : R → Bool) where
    abbrev pub stale_ids : List R → List ℕ
    stale_ids page = map id (filter stale page)

    -- an id outside a page is not deleted
    unlisted_low :
        (i lo : ℕ) (page : List R) → i ≤ lo → Rising lo page → listed i (stale_ids page) ≡ false
    unlisted_low i lo [] h a = refl
    unlisted_low i lo (r ∷ rs) h a =
        ground (arith, a.0, unlisted_low i (id r) rs (omega (arith, a.0)) a.1)

    unlisted_high :
        (i hi : ℕ) (page : List R) → hi < i → Below hi page → listed i (stale_ids page) ≡ false
    unlisted_high i hi [] h a = refl
    unlisted_high i hi (r ∷ rs) h a = ground (arith, a.0, unlisted_high i hi rs h a.1)

    abbrev kept : List R → R → Bool
    kept page r = not (listed (id r) (stale_ids page))

    all_kept-behind :
        (after : ℕ) (behind page : List R)
        → Below after behind
        → Rising after page
        → All (λ r. kept page r ≡ true) behind
    all_kept-behind after [] page b a = tt
    all_kept-behind after (r ∷ rs) page b a =
        (ground (arith, unlisted_low (id r) after page b.0 a), all_kept-behind after rs page b.1 a)

    all_kept-ahead :
        (hi lo : ℕ) (ahead page : List R)
        → hi ≤ lo
        → Rising lo ahead
        → Below hi page
        → All (λ r. kept page r ≡ true) ahead
    all_kept-ahead hi lo [] page h a b = tt
    all_kept-ahead hi lo (r ∷ rs) page h a b = (
      ground (arith, unlisted_high (id r) hi page (omega (arith, h, a.0)) b),
      all_kept-ahead hi (id r) rs page (omega (arith, h, a.0)) a.1 b,
    )

    kept-page :
        (lo : ℕ) (page : List R) → Rising lo page → All (λ r. kept page r ≡ not (stale r)) page
    kept-page lo [] a = tt
    kept-page lo (r ∷ rs) a = (
      ground (arith, unlisted_low (id r) (id r) rs (omega arith) a.1),
      All-both (λ s. kept rs s ≡ not (stale s)) (λ s. ltb (id r) (id s) ≡ true)
          (λ s. kept (r ∷ rs) s ≡ not (stale s)) rs (λ s h later. ground arith)
          (kept-page (id r) rs a.1) (above (id r) (id r) rs (omega arith) a.1),
    )

    -- what the deletions of one page leave
    pub filter-kept :
        (after : ℕ) (behind page ahead : List R)
        → Below after behind
        → Rising after page
        → Below (cursor_of id page) page
        → Rising (cursor_of id page) ahead
        → filter (λ r. not (listed (id r) (stale_ids page))) (behind ++ (page ++ ahead))
          ≡ behind ++ (filter (λ r. not (stale r)) page ++ ahead)
    filter-kept after behind page ahead b a c d =
        filter-append (kept page) behind (page ++ ahead)
        ∙ ap (λ t. t ++ filter (kept page) (page ++ ahead))
            (filter_all (kept page) behind (all_kept-behind after behind page b a))
        ∙ ap (λ t. behind ++ t)
            (filter-append (kept page) page ahead
              ∙ ap (λ t. t ++ filter (kept page) ahead)
                  (filter-cong (kept page) (λ r. not (stale r)) page (kept-page after page a))
              ∙ ap (λ t. filter (λ r. not (stale r)) page ++ t)
                  (filter_all (kept page) ahead (
                    all_kept-ahead (cursor_of id page) (cursor_of id page) ahead page (omega arith)
                      d c)))
