-- ===== src/Outbox/Claim/Accounted.antt =====
-- The rows that `claim` of internal/outbox/dispatch.go leaves dispatching.
use mathlib.Core.List.{append-nil, append_assoc}
use beautiful_aerc.Prelude.{ℕ, ◌+◌, List, [], ◌∷◌, ◌++◌, map, ◌≡◌, ok, Bool, true, false, arith}
use beautiful_aerc.Outbox.Payload.{Json}
use beautiful_aerc.Outbox.Row.{Row, Db, select_eligible}
use beautiful_aerc.Outbox.Row.Accounted.{
  Accounted, AllQueued, Accounted-claim_row, AllQueued-Accounted,
}
use beautiful_aerc.Outbox.Claim.{Claimed, claim_rows, claim, claim_cost, claim_row_budget}
use beautiful_aerc.Outbox.Claim.Steps.{full, taken, round, claimed_db}

module _ {B : Type 0} where
  abbrev pub claimed_ids : List (Claimed B) → List ℕ
  claimed_ids = map (λ c. c.id)

  module _ (json : Json B) where
    claim_rows-nil :
        (spent : ℕ) (started : Bool) (db db' : Db B) (cs : List (Claimed B))
        → claim_rows json [] spent started db ≡ ok (cs, db')
        → (cs ≡ []) × (db' ≡ db)
    unfolding claim_rows
    claim_rows-nil spent started db db' cs h = (ground arith, ground arith)

    Accounted-claim_rows :
        (ids : List ℕ) (rs : List (Row B)) (spent : ℕ) (started : Bool) (db db' : Db B)
        (cs : List (Claimed B))
        → claim_rows json rs spent started db ≡ ok (cs, db')
        → Accounted ids db.rows
        → Accounted (ids ++ claimed_ids cs) db'.rows
    Accounted-claim_rows ids [] spent started db db' cs h a =
        let (none_taken, same) = claim_rows-nil spent started db db' cs h in
        rw (none_taken, same, append-nil) a
    Accounted-claim_rows ids (r ∷ rs) spent started db db' cs h a =
        elim (round json r rs spent started db cs db' h) [
          | full s over empty same ↦ rw (empty, same, append-nil) a
          | taken c rest row within looped e ↦
              let marked = Accounted-claim_row ids r.id db.rows a in
              let ih =
                Accounted-claim_rows (ids ++ r.id ∷ []) rs (spent + claim_cost json r) true
                  (claimed_db json r db) db' rest looped marked in
              rw (e, row) (rw append_assoc at ih)
        ]

    -- From a queue in which nothing is dispatching, a claim leaves dispatching only the intents
    -- that it returns.
    pub claim-Accounted :
        (account_id now : ℕ) (db db' : Db B) (cs : List (Claimed B))
        → claim json account_id now db ≡ ok (cs, db')
        → AllQueued db.rows
        → Accounted (claimed_ids cs) db'.rows
    unfolding claim
    claim-Accounted account_id now db db' cs h q =
        Accounted-claim_rows [] (select_eligible account_id now claim_row_budget db.rows) 0 false db
          db' cs h (AllQueued-Accounted [] db.rows q)
