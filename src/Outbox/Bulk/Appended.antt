-- ===== src/Outbox/Bulk/Appended.antt =====
-- Rows that were inserted after the rest of the table: what Undo does to them.
use mathlib.Core.List.{append-nil, append_assoc}
use beautiful_aerc.Prelude.{
  ℕ, max, List, [], ◌∷◌, ◌++◌, map, ◌≡◌, refl, ◌≤◌, ◌<◌, arith, Bool, true, not, ltb, nat_eq,
  filter,
}
use beautiful_aerc.Prelude.Listed.{listed, listed-middle}
use beautiful_aerc.Outbox.Row.{
  Row, is_queued, max_id, annihilable, annihilate, affected, delete_where,
}
use beautiful_aerc.Outbox.Undo.{annihilate_all}
use beautiful_aerc.Outbox.Enqueue.{escaped_ids}

module _ {B : Type 0} where
  abbrev pub row_ids : List (Row B) → List ℕ
  row_ids = map (λ r. r.id)

  -- queued rows whose ids grow from above a bound
  abbrev pub Appended : ℕ → List (Row B) → Type 0
  Appended m [] = Unit {0}
  Appended m (r ∷ rs) = (m < r.id) × (is_queued r.state ≡ true) × Appended r.id rs

  pub max_id-append : (rs ss : List (Row B)) → max_id (rs ++ ss) ≡ max (max_id rs) (max_id ss)
  max_id-append [] ss = omega arith
  max_id-append (r ∷ rs) ss = ground (arith, max_id-append rs ss)

  pub Appended-append :
      (m : ℕ) (new : List (Row B)) (r : Row B)
      → Appended m new
      → m < r.id
      → max_id new < r.id
      → is_queued r.state ≡ true
      → Appended m (new ++ r ∷ [])
  Appended-append m [] r a above over q = (above, q, tt)
  Appended-append m (n ∷ ns) r a above over q =
      (a.0, a.1, Appended-append n.id ns r a.2 (ground arith) (ground arith) q)

  untouched_above :
      (id m : ℕ) (new : List (Row B))
      → id ≤ m
      → Appended m new
      → delete_where (annihilable id) new ≡ new
  untouched_above id m [] h a = refl
  untouched_above id m (n ∷ ns) h a =
      ground (arith, untouched_above id n.id ns (omega (arith, h, a.0)) a.2)

  untouched_below :
      (id : ℕ) (rows : List (Row B)) → max_id rows < id → delete_where (annihilable id) rows ≡ rows
  untouched_below id [] h = refl
  untouched_below id (r ∷ rs) h = ground (arith, untouched_below id rs (ground arith))

  delete_where-append :
      (p : Row B → Bool) (rs ss : List (Row B))
      → delete_where p (rs ++ ss) ≡ delete_where p rs ++ delete_where p ss
  delete_where-append p [] ss = refl
  delete_where-append p (r ∷ rs) ss = ground (arith, delete_where-append p rs ss)

  hit :
      (p : Row B → Bool) (rs : List (Row B)) (r : Row B) (ss : List (Row B))
      → p r ≡ true
      → ltb 0 (affected p (rs ++ r ∷ ss)) ≡ true
  hit p [] r ss h = ground arith
  hit p (x ∷ rs) r ss h = ground (arith, hit p rs r ss h)

  pub annihilate_all-Appended :
      (rows new : List (Row B)) (m : ℕ)
      → max_id rows ≤ m
      → Appended m new
      → annihilate_all (row_ids new) (rows ++ new) ≡ (row_ids new, rows)
  unfolding annihilate_all annihilate
  annihilate_all-Appended rows [] m h a = rw append-nil refl
  annihilate_all-Appended rows (n ∷ ns) m h a =
      let own : annihilable n.id n ≡ true = ground (arith, a.1) in
      let gone : delete_where (annihilable n.id) (n ∷ ns) ≡ ns =
        ground (arith, untouched_above n.id n.id ns (omega arith) a.2) in
      let del : delete_where (annihilable n.id) (rows ++ n ∷ ns) ≡ rows ++ ns =
        rw (delete_where-append, untouched_below n.id rows (omega (arith, h, a.0)), gone) refl in
      let ih = annihilate_all-Appended rows ns n.id (omega (arith, h, a.0)) a.2 in
      rw (hit (annihilable n.id) rows n ns own, del, ih) refl

escaped_of_caught : (pre xs : List ℕ) → filter (λ id. not (listed id (pre ++ xs))) xs ≡ []
escaped_of_caught pre [] = refl
escaped_of_caught pre (x ∷ xs) =
    let ih = escaped_of_caught (pre ++ x ∷ []) xs in
    ground (arith, listed-middle x pre xs, rw append_assoc at ih)

pub escaped_ids_self : (xs : List ℕ) → escaped_ids xs xs ≡ []
unfolding escaped_ids
escaped_ids_self xs = escaped_of_caught [] xs
