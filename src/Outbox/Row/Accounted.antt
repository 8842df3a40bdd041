-- ===== src/Outbox/Row/Accounted.antt =====
-- The rows that are dispatching, and which ids answer for them.
use beautiful_aerc.Prelude.{
  ℕ, String, List, [], ◌∷◌, ◌++◌, Bool, true, false, ◌≡◌, ◌⊎◌, inl, inr, nat_eq, All, arith,
  Bool-cases,
}
use beautiful_aerc.Prelude.Listed.{listed, listed-append}
use beautiful_aerc.Outbox.Row.{
  Row, is_queued, delete_where, update_payload, claim_row, delete_row, revert_row, requeue_row,
  recover_row,
}

module _ {B : Type 0} where
  -- every row that is dispatching has its id on the list
  abbrev pub Accounted : List ℕ → List (Row B) → Type 0
  Accounted ids = All (λ r. (is_queued r.state ≡ true) ⊎ (listed r.id ids ≡ true))

  abbrev pub AllQueued : List (Row B) → Type 0
  AllQueued = All (λ r. is_queued r.state ≡ true)

  All-delete_where :
      (P Q : Row B → Type 0) (p : Row B → Bool) (rows : List (Row B))
      → ((r : Row B) → P r → p r ≡ false → Q r)
      → All P rows
      → All Q (delete_where p rows)
  All-delete_where P Q p [] h a = tt
  All-delete_where P Q p (r ∷ rs) h a = elim (Bool-cases (p r)) [
    | inl gone ↦ rw gone (All-delete_where P Q p rs h a.1)
    | inr kept ↦ rw kept (h r a.0 kept, All-delete_where P Q p rs h a.1)
  ]

  abbrev Answered : List ℕ → Row B → Type 0
  Answered ids r = (is_queued r.state ≡ true) ⊎ (listed r.id ids ≡ true)

  pub Accounted-update_payload :
      (ids : List ℕ) (id : ℕ) (b : B) (rows : List (Row B))
      → Accounted ids rows
      → Accounted ids (update_payload id b rows)
  unfolding update_payload
  Accounted-update_payload ids id b [] h = tt
  Accounted-update_payload ids id b (r ∷ rs) h =
      (ground arith, Accounted-update_payload ids id b rs h.1)

  pub Accounted-claim_row :
      (ids : List ℕ) (id : ℕ) (rows : List (Row B))
      → Accounted ids rows
      → Accounted (ids ++ id ∷ []) (claim_row id rows)
  unfolding claim_row
  Accounted-claim_row ids id [] h = tt
  Accounted-claim_row ids id (r ∷ rs) h =
      (ground (arith, listed-append r.id ids (id ∷ [])), Accounted-claim_row ids id rs h.1)

  -- Each of the four writes that end an intent's turn settles the rows of its id.
  module _ (id : ℕ) (ids : List ℕ) where
    pub Accounted-delete_row :
        (rows : List (Row B)) → Accounted (id ∷ ids) rows → Accounted ids (delete_row id rows)
    unfolding delete_row
    Accounted-delete_row rows =
        All-delete_where (Answered (id ∷ ids)) (Answered ids) _ rows (λ r h k. ground arith)

    pub Accounted-revert_row :
        (rows : List (Row B)) → Accounted (id ∷ ids) rows → Accounted ids (revert_row id rows)
    unfolding revert_row
    Accounted-revert_row [] h = tt
    Accounted-revert_row (r ∷ rs) h = (ground arith, Accounted-revert_row rs h.1)

    pub Accounted-requeue_row :
        (at : ℕ) (class detail : String) (rows : List (Row B))
        → Accounted (id ∷ ids) rows
        → Accounted ids (requeue_row id at class detail rows)
    unfolding requeue_row
    Accounted-requeue_row at class detail [] h = tt
    Accounted-requeue_row at class detail (r ∷ rs) h =
        (ground arith, Accounted-requeue_row at class detail rs h.1)

    pub Accounted-recover_row :
        (at : ℕ) (class : String) (rows : List (Row B))
        → Accounted (id ∷ ids) rows
        → Accounted ids (recover_row id at class rows)
    unfolding recover_row
    Accounted-recover_row at class [] h = tt
    Accounted-recover_row at class (r ∷ rs) h =
        (ground arith, Accounted-recover_row at class rs h.1)

  pub Accounted-nil : (rows : List (Row B)) → Accounted [] rows → AllQueued rows
  Accounted-nil [] h = tt
  Accounted-nil (r ∷ rs) h = (ground (arith, h.0), Accounted-nil rs h.1)

  pub AllQueued-Accounted :
      (ids : List ℕ) (rows : List (Row B)) → AllQueued rows → Accounted ids rows
  AllQueued-Accounted ids [] h = tt
  AllQueued-Accounted ids (r ∷ rs) h = (inl h.0, AllQueued-Accounted ids rs h.1)

  -- a list that has more ids accounts for no less
  pub Accounted-weaken :
      (ids js : List ℕ) (rows : List (Row B))
      → ((i : ℕ) → listed i ids ≡ true → listed i js ≡ true)
      → Accounted ids rows
      → Accounted js rows
  Accounted-weaken ids js [] h a = tt
  Accounted-weaken ids js (r ∷ rs) h a =
      (elim a.0 [ inl q ↦ inl q | inr l ↦ inr (h r.id l) ], Accounted-weaken ids js rs h a.1)
