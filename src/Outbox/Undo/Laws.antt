-- ===== src/Outbox/Undo/Laws.antt =====
-- What Undo and ReclaimOrphaned leave in the table.
use beautiful_aerc.Prelude.{
  Bool-cases, ltb, inl, inr, arith, ℕ, List, [], ◌∷◌, Bool, true, false, not, ◌&&◌, ◌||◌, ◌≡◌, refl,
  ◌==◌, nat_eq, filter, All, arith, sym, ◌∙◌, ltb→lt, map, ◌≤◌, ◌<◌,
}
use beautiful_aerc.Outbox.Row.{
  Row, queued, is_queued, annihilable, annihilate, requeue_dispatching, affected, delete_where,
}
use beautiful_aerc.Outbox.Undo.{annihilate_all}

-- The id is one of those asked for.
abbrev pub asked : List ℕ → ℕ → Bool
asked [] id = false
asked (i ∷ is) id = id == i || asked is id

both_stay : (a b c : Bool) → (not (a && c) && not (b && c)) ≡ not ((a || b) && c)
both_stay true b true = refl
both_stay true b false = ground arith
both_stay false b c = refl

module _ {B : Type 0} where
  abbrev pub stays : List ℕ → Row B → Bool
  stays ids r = not (asked ids r.id && is_queued r.state)

  filter-filter :
      (p q : Row B → Bool) (rs : List (Row B))
      → filter p (filter q rs) ≡ filter (λ r. q r && p r) rs
  filter-filter p q [] = refl
  filter-filter p q (r ∷ rs) = ground (arith, filter-filter p q rs)

  filter_congr :
      (p q : Row B → Bool) (rs : List (Row B))
      → ((r : Row B) → p r ≡ q r)
      → filter p rs ≡ filter q rs
  filter_congr p q [] h = refl
  filter_congr p q (r ∷ rs) h = ground (arith, h r, filter_congr p q rs h)

  filter_all : (rs : List (Row B)) → filter (λ _. true) rs ≡ rs
  filter_all [] = refl
  filter_all (r ∷ rs) = rw (filter_all rs)

  -- Undo deletes the queued intents among those asked for, and no other row of the table: what a
  -- dispatcher has claimed stays as it is.
  pub annihilate_all-rows :
      (ids : List ℕ) (rs : List (Row B)) → (annihilate_all ids rs).1 ≡ filter (stays ids) rs
  unfolding annihilate_all annihilate
  annihilate_all-rows [] rs = sym (filter_all rs)
  annihilate_all-rows (id ∷ ids) rs =
      annihilate_all-rows ids (delete_where (annihilable id) rs)
      ∙ filter-filter (stays ids) (λ r. not (annihilable id r)) rs
      ∙ filter_congr _ _ rs (λ r. both_stay (r.id == id) (asked ids r.id) (is_queued r.state))

  affected-delete_where :
      (p q : Row B → Bool) (rs : List (Row B)) → affected p (delete_where q rs) ≤ affected p rs
  affected-delete_where p q [] = omega arith
  affected-delete_where p q (r ∷ rs) = ground (arith, affected-delete_where p q rs)

  caught_weaken :
      (q : Row B → Bool) (rs : List (Row B)) (ids : List ℕ)
      → All (λ i. 0 < affected (annihilable i) (delete_where q rs)) ids
      → All (λ i. 0 < affected (annihilable i) rs) ids
  caught_weaken q rs [] h = tt
  caught_weaken q rs (i ∷ is) h =
      (omega (arith, h.0, affected-delete_where (annihilable i) q rs), caught_weaken q rs is h.1)

  -- Undo reports an id only where a queued row of the table had it.
  pub annihilate_all-caught :
      (ids : List ℕ) (rs : List (Row B))
      → All (λ i. 0 < affected (annihilable i) rs) (annihilate_all ids rs).0
  unfolding annihilate_all annihilate
  annihilate_all-caught [] rs = tt
  annihilate_all-caught (id ∷ ids) rs =
      let later =
        caught_weaken (annihilable id) rs (annihilate_all ids (delete_where (annihilable id) rs)).0
          (annihilate_all-caught ids (delete_where (annihilable id) rs)) in
      elim (Bool-cases (ltb 0 (affected (annihilable id) rs))) [
        | inl hit ↦ rw hit (ltb→lt _ _ hit, later)
        | inr miss ↦ rw miss later
      ]

  -- ReclaimOrphaned returns every row to the queue, changing nothing else of any row, and a second
  -- sweep finds nothing.
  pub requeue_dispatching_lem :
      (rs : List (Row B))
      → ((requeue_dispatching rs).1
          ≡ map {A = Row B} {B = Row B} (λ r. record r { state = queued }) rs)
        × ((requeue_dispatching (requeue_dispatching rs).1).0 ≡ 0)
  unfolding requeue_dispatching
  requeue_dispatching_lem [] = (refl, refl)
  requeue_dispatching_lem (r ∷ rs) =
      let ih = requeue_dispatching_lem rs in (ground (arith, ih.0), ground (arith, ih.1))
