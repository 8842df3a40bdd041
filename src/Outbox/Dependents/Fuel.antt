-- ===== src/Outbox/Dependents/Fuel.antt =====
-- The rounds of `resolve_dependent_refs`, the loop of resolveDependentRefs in internal/outbox/dispatch.go.
use beautiful_aerc.Prelude.Listed.{listed}
use beautiful_aerc.Prelude.{
  ℕ, zero, suc, ◌+◌, String, List, [], ◌∷◌, map, ◌≡◌, refl, ap, ◌∙◌, sym, subst, ◌≤◌, ◌<◌, Result,
  ok, err, and_then-eq-ok, Exec, continue, pure, ◌>>=◌, true, false, ltb, ◌==◌, nat_eq,
  if◌then◌else◌, length, filter, take, arith, Bool-cases, inl, inr,
}
use beautiful_aerc.Uerr.{Err}
use beautiful_aerc.Store.{Store, apply_interactive}
use beautiful_aerc.Store.Transactions.{Transacted, committed, rolled_back, transacted}
use beautiful_aerc.Outbox.Payload.{Json}
use beautiful_aerc.Outbox.Row.{Row, Db, select_page, update_payload}
use beautiful_aerc.Outbox.Dependents.{
  dependent_ref_page, patch_rows, last_id, patch_page, resolve_loop, resolve_dependent_refs,
}
use beautiful_aerc.Outbox.World.Rows.{patch_page-keeps}

module _ {B : Type 0} where
  -- how many rows are past an id
  abbrev past : ℕ → List (Row B) → ℕ
  past k rows = length (filter (λ r. ltb k r.id) rows)

  past-update_payload :
      (k id : ℕ) (b : B) (rows : List (Row B)) → past k (update_payload id b rows) ≡ past k rows
  unfolding update_payload
  past-update_payload k id b [] = refl
  past-update_payload k id b (r ∷ rs) = ground (arith, past-update_payload k id b rs)

  past_mono : (j k : ℕ) (rows : List (Row B)) → j ≤ k → past k rows ≤ past j rows
  past_mono j k [] h = omega arith
  past_mono j k (r ∷ rs) h = ground (arith, past_mono j k rs h)

  abbrev ids_past : ℕ → List (Row B) → List ℕ
  ids_past j rows = map (λ r. r.id) (filter (λ r. ltb j r.id) rows)

  after_listed : (j k : ℕ) (rows : List (Row B)) → listed k (ids_past j rows) ≡ true → j < k
  after_listed j k [] h = ground arith
  after_listed j k (r ∷ rs) h = elim (Bool-cases (ltb j r.id)) [
    | inr before ↦ after_listed j k rs (rw before at h)
    | inl after ↦ elim (Bool-cases (r.id == k)) [
      | inl here ↦ ground arith
      | inr there ↦ after_listed j k rs (ground (arith, rw after at h))
    ]
  ]

  past_less :
      (j k : ℕ) (rows : List (Row B))
      → listed k (ids_past j rows) ≡ true
      → past k rows < past j rows
  past_less j k [] h = ground arith
  past_less j k (r ∷ rs) h =
      let above = after_listed j k (r ∷ rs) h in
      elim (Bool-cases (ltb j r.id)) [
        | inr before ↦ ground (arith, above, past_less j k rs (rw before at h))
        | inl after ↦ elim (Bool-cases (r.id == k)) [
          | inl here ↦ ground (arith, past_mono j k rs (ground arith))
          | inr there ↦ ground (arith, past_less j k rs (ground (arith, rw after at h)))
        ]
      ]

  module _ (json : Json B) where
    last-listed :
        (a n : ℕ) (r : Row B) (rs : List (Row B))
        → listed (last_id json a (take (suc n) (r ∷ rs))) (map (λ r. r.id) (r ∷ rs)) ≡ true
    last-listed a zero r rs = ground arith
    last-listed a (suc n) r [] = ground arith
    last-listed a (suc n) r (q ∷ qs) = ground (arith, last-listed r.id n q qs)

    page_past :
        (a : ℕ) (found rows : List (Row B))
        → filter (λ r. ltb a r.id) rows ≡ found
        → (length (take dependent_ref_page found) == 0) ≡ false
        → past (last_id json a (take dependent_ref_page found)) rows < past a rows
    page_past a [] rows e h = ground arith
    page_past a (r ∷ rs) rows e h = past_less a _ rows (rw e (last-listed a 99 r rs))

    module _ (account_id create_id : ℕ) (new_id : String) where
      abbrev loop : ℕ → ℕ → Exec (Store (Db B)) Err (Unit {0})
      loop fuel after = resolve_loop json fuel account_id create_id new_id after

      abbrev rest_of : ℕ → ℕ × ℕ → Exec (Store (Db B)) Err (Unit {0})
      rest_of fuel seen = let rest = loop fuel seen.0 in if seen.1 == 0 then pure tt else rest

      -- a page that examined a row leaves fewer rows past its last
      page-past :
          (after : ℕ) (seen : ℕ × ℕ) (db db' : Db B)
          → patch_page json account_id create_id new_id after db ≡ ok (seen, db')
          → (seen.1 == 0) ≡ false
          → past seen.0 db'.rows < past after db.rows
      unfolding patch_page select_page
      page-past after seen db db' h some_seen =
          let page = take dependent_ref_page (filter (λ (r : Row B). ltb after r.id) db.rows) in
          let (rows, e, h') =
            and_then-eq-ok (patch_rows json account_id create_id new_id page db.rows) _ h in
          let last : seen.0 ≡ last_id json after page = ground (arith, h') in
          let size : seen.1 ≡ length page = ground (arith, h') in
          let kept =
            patch_page-keeps (λ rows. past seen.0 rows ≡ past seen.0 db.rows)
              (λ id b rows same. past-update_payload seen.0 id b rows ∙ same) json account_id
              create_id new_id after seen db db' h refl in
          let less = page_past after _ db.rows refl (rw size at some_seen) in
          omega (arith, kept, rw (sym last) at less)

      same_round :
          (f g after : ℕ) (s : Store (Db B)) (r : Result Err (ℕ × ℕ)) (t : Store (Db B))
          → Transacted (patch_page json account_id create_id new_id after) s r t
          → ((a : ℕ) → past a t.db.rows < past after s.db.rows → loop f a t ≡ loop g a t)
          → continue r (rest_of f) t ≡ continue r (rest_of g) t
      same_round f g after s (err e) t h later = refl
      same_round f g after s (ok seen) t (rolled_back e q same v) later = ground arith
      same_round f g after s (ok seen) t (committed seen' db ran q same v) later =
          elim (Bool-cases (seen.1 == 0)) [
            | inl none_seen ↦ rw none_seen refl
            | inr some_seen ↦
                let own : seen' ≡ seen = cc in
                let less =
                  page-past after seen s.db db (ran ∙ ap (λ x. ok (x, db)) own) some_seen in
                rw some_seen (
                  later seen.0 (
                    subst (λ (d : Db B). past seen.0 d.rows < past after s.db.rows) (sym same)
                      less))
          ]

      same_loops :
          (f g after : ℕ) (s : Store (Db B))
          → past after s.db.rows < f
          → past after s.db.rows < g
          → loop f after s ≡ loop g after s
      unfolding resolve_loop ◌>>=◌
      same_loops zero g after s p q = absurd (omega (arith, p))
      same_loops (suc f) zero after s p q = absurd (omega (arith, q))
      same_loops (suc f) (suc g) after s p q =
          let (r, t) = apply_interactive (patch_page json account_id create_id new_id after) s in
          same_round f g after s r t
            (transacted (patch_page json account_id create_id new_id after) s)
            (λ a less. same_loops f g a t (omega (arith, p, less)) (omega (arith, q, less)))

      past-le-length : (k : ℕ) (rows : List (Row B)) → past k rows ≤ length rows
      past-le-length k [] = omega arith
      past-le-length k (r ∷ rs) = ground (arith, past-le-length k rs)

      -- The pages of resolveDependentRefs come to an end: a loop that is given more rounds than the
      -- table has rows does what `resolve_dependent_refs` does, whatever fails.
      pub resolve_dependent_refs-eq-resolve_loop :
          (fuel : ℕ) (s : Store (Db B))
          → length s.db.rows < fuel
          → resolve_dependent_refs json account_id create_id new_id s
            ≡ resolve_loop json fuel account_id create_id new_id 0 s
      unfolding resolve_dependent_refs
      resolve_dependent_refs-eq-resolve_loop fuel s h =
          let fewer = past-le-length 0 s.db.rows in
          same_loops (length s.db.rows + 1) fuel 0 s (omega (arith, fewer))
            (omega (arith, fewer, h))
