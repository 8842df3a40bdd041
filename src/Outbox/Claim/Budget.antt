-- ===== src/Outbox/Claim/Budget.antt =====
-- What one claim transaction takes from the queue, and the bounds that it keeps.
use mathlib.Core.Bool.{false≢true}
use beautiful_aerc.Prelude.{
  ℕ, suc, ◌+◌, ◌≤◌, List, [], ◌∷◌, ◌≡◌, refl, ap, ◌⊎◌, inl, inr, ok, Bool, true, false, map, length,
  take, filter, length-take-le, length-map, take-take, length-take-le_length, take-eq-nil, ◌∙◌, ◌<◌,
  arith,
}
use beautiful_aerc.Outbox.Payload.{Json}
use beautiful_aerc.Outbox.Row.{Row, Db, select_eligible, is_eligible}
use beautiful_aerc.Outbox.Claim.{
  Claimed, claim_message_budget, claim_row_budget, claim_cost, claim_rows, claim,
}
use beautiful_aerc.Outbox.Claim.Steps.{full, taken, round, claimed_db}

module _ {B : Type 0} (json : Json B) where
  -- the message budget that the claimed rows cost
  abbrev pub cost_of : List (Claimed B) → ℕ
  cost_of [] = 0
  cost_of (c ∷ cs) = claim_cost json c.row + cost_of cs

  abbrev pub rows_of : List (Claimed B) → List (Row B)
  rows_of = map (λ c. c.row)

  nothing-claim_rows :
      (spent : ℕ) (started : Bool) (db db' : Db B) (cs : List (Claimed B))
      → claim_rows json [] spent started db ≡ ok (cs, db')
      → cs ≡ []
  unfolding claim_rows
  nothing-claim_rows spent started db db' cs h = ground arith

  cost_started :
      (rs : List (Row B)) (spent : ℕ) (db db' : Db B) (cs : List (Claimed B))
      → spent ≤ claim_message_budget
      → claim_rows json rs spent true db ≡ ok (cs, db')
      → spent + cost_of cs ≤ claim_message_budget
  cost_started [] spent db db' cs fits h =
      rw (nothing-claim_rows spent true db db' cs h) (omega arith)
  cost_started (r ∷ rs) spent db db' cs fits h = elim (round json r rs spent true db cs db' h) [
    | full s over empty same ↦ rw empty (omega arith)
    | taken c rest row within looped e ↦
        rw (e, row)
          (omega (
            arith,
            cost_started rs (spent + claim_cost json r) (claimed_db json r db) db' rest
                (within refl) looped,
          ))
  ]

  another_fits :
      (rs : List (Row B)) (spent : ℕ) (db db' : Db B) (c : Claimed B) (cs : List (Claimed B))
      → claim_rows json rs spent true db ≡ ok (c ∷ cs, db')
      → spent ≤ claim_message_budget
  another_fits [] spent db db' c cs h = cc (nothing-claim_rows spent true db db' (c ∷ cs) h)
  another_fits (r ∷ rs) spent db db' c cs h = elim (round json r rs spent true db (c ∷ cs) db' h) [
    | full s over empty same ↦ cc empty
    | taken c' rest row within looped e ↦ omega (arith, within refl)
  ]

  -- a loop that has claimed nothing yet takes its first row at any cost
  first_or_fits :
      (rs : List (Row B)) (db db' : Db B) (cs : List (Claimed B))
      → claim_rows json rs 0 false db ≡ ok (cs, db')
      → (cost_of cs ≤ claim_message_budget) ⊎ (length cs ≡ 1)
  first_or_fits [] db db' cs h = inl (rw (nothing-claim_rows 0 false db db' cs h) (omega arith))
  first_or_fits (r ∷ rs) db db' cs h = elim (round json r rs 0 false db cs db' h) [
    | full s over empty same ↦ absurd (false≢true s)
    | taken c [] row within looped e ↦ inr (rw e refl)
    | taken c (c' ∷ rest) row within looped e ↦
        let cost = 0 + claim_cost json r in
        let fits = another_fits rs cost (claimed_db json r db) db' c' rest looped in
        inl (
          rw (e, row)
            (omega
              (arith, cost_started rs cost (claimed_db json r db) db' (c' ∷ rest) fits looped)))
  ]

  prefix :
      (rs : List (Row B)) (spent : ℕ) (started : Bool) (db db' : Db B) (cs : List (Claimed B))
      → claim_rows json rs spent started db ≡ ok (cs, db')
      → (k : ℕ) × (rows_of cs ≡ take k rs)
  prefix [] spent started db db' cs h = (0, rw (nothing-claim_rows spent started db db' cs h))
  prefix (r ∷ rs) spent started db db' cs h = elim (round json r rs spent started db cs db' h) [
    | full s over empty same ↦ (0, rw empty)
    | taken c rest row within looped e ↦
        let (k, ih) =
          prefix rs (spent + claim_cost json r) true (claimed_db json r db) db' rest looped in
        (suc k, rw (e, row, ih))
  ]

  progress :
      (rs : List (Row B)) (db db' : Db B) (cs : List (Claimed B))
      → claim_rows json rs 0 false db ≡ ok (cs, db')
      → (rs ≡ []) ⊎ (0 < length cs)
  progress [] db db' cs h = inl refl
  progress (r ∷ rs) db db' cs h = elim (round json r rs 0 false db cs db' h) [
    | full s over empty same ↦ absurd (false≢true s)
    | taken c rest row within looped e ↦ inr (rw e (omega arith))
  ]

  some_taken :
      (eligible rows : List (Row B)) (n : ℕ) (cs : List (Claimed B))
      → take (suc n) eligible ≡ rows
      → (rows ≡ []) ⊎ (0 < length cs)
      → (eligible ≡ []) ⊎ (0 < length cs)
  some_taken eligible rows n cs e (inl h) = inl (take-eq-nil n eligible (e ∙ h))
  some_taken eligible rows n cs e (inr h) = inr h

  -- A claim takes the oldest eligible intents, a prefix of them in id order, at most
  -- `claim_row_budget`; it stays in the message budget unless it takes a single intent; and it
  -- takes at least one where one is eligible.
  pub claim_bounds :
      (account_id now : ℕ) (db db' : Db B) (cs : List (Claimed B))
      → claim json account_id now db ≡ ok (cs, db')
      → ((k : ℕ) × (rows_of cs ≡ take k (filter (is_eligible account_id now) db.rows)))
        × (length cs ≤ claim_row_budget)
        × ((cost_of cs ≤ claim_message_budget) ⊎ (length cs ≡ 1))
        × ((filter (is_eligible account_id now) db.rows ≡ []) ⊎ (0 < length cs))
  unfolding claim select_eligible
  claim_bounds account_id now db db' cs h =
      let eligible = filter (is_eligible account_id now) db.rows in
      let (k, e) = prefix (take claim_row_budget eligible) 0 false db db' cs h in
      let (k', e') = take-take k claim_row_budget eligible in
      let same_length = ap length e in
      (
        (k', e ∙ e'),
        omega (
          arith,
          same_length,
          length-map (λ (c : Claimed B). c.row) cs,
          length-take-le_length k (take claim_row_budget eligible),
          length-take-le claim_row_budget eligible,
        ),
        first_or_fits (take claim_row_budget eligible) db db' cs h,
        some_taken eligible _ 99 cs refl (progress (take claim_row_budget eligible) db db' cs h),
      )
