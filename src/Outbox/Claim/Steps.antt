-- ===== src/Outbox/Claim/Steps.antt =====
-- The loop of `claim`, one round at a time.
use beautiful_aerc.Prelude.{
  ℕ, ◌+◌, ◌<◌, ◌≤◌, List, [], ◌∷◌, ◌≡◌, inl, inr, ok, and_then-eq-ok, Bool, true, ◌&&◌, ltb,
  Bool-cases, arith,
}
use beautiful_aerc.Outbox.Payload.{
  create_mailbox, rename_mailbox, delete_mailbox, move_messages, unknown, Json, Kind,
}
use beautiful_aerc.Outbox.Row.{Row, Db, claim_row}
use beautiful_aerc.Outbox.Claim.{
  Claimed, claim_message_budget, fresh, resolve_parent, resolve_mailbox, resolve_move, claim_cost,
  resolve_by, resolve_claim, claim_rows,
}

module _ {B : Type 0} where
  row-resolve_parent : (db : Db B) (c : Claimed B) (p : _) → (resolve_parent db c p).row ≡ c.row
  unfolding resolve_parent
  row-resolve_parent db c p = ground arith

  row-resolve_mailbox : (db : Db B) (c : Claimed B) (m : ℕ) → (resolve_mailbox db c m).row ≡ c.row
  unfolding resolve_mailbox
  row-resolve_mailbox db c m = ground arith

  row-resolve_move : (db : Db B) (c : Claimed B) (p : _) → (resolve_move db c p).row ≡ c.row
  unfolding resolve_move
  row-resolve_move db c p = ground arith

  module _ (json : Json B) where
    abbrev pub claimed_db : Row B → Db B → Db B
    claimed_db r db = record db { rows = claim_row r.id db.rows }

    row-resolve_by :
        (k : Kind) (db : Db B) (r : Row B) {c : Claimed B}
        → resolve_by json k db r ≡ ok c
        → c.row ≡ r
    unfolding resolve_by
    row-resolve_by create_mailbox db r h =
        let (p, _, e) = and_then-eq-ok (json.unmarshal_create r.payload) _ h in
        ground (arith, row-resolve_parent db (fresh r) p)
    row-resolve_by rename_mailbox db r h =
        let (p, _, e) = and_then-eq-ok (json.unmarshal_rename r.payload) _ h in
        ground (arith, row-resolve_mailbox db (fresh r) p.mailbox_id)
    row-resolve_by delete_mailbox db r h =
        let (p, _, e) = and_then-eq-ok (json.unmarshal_delete r.payload) _ h in
        ground (arith, row-resolve_mailbox db (fresh r) p.mailbox_id)
    row-resolve_by move_messages db r h =
        let (p, _, e) = and_then-eq-ok (json.unmarshal_move r.payload) _ h in
        ground (arith, row-resolve_move db (fresh r) p)
    row-resolve_by (unknown k) db r h = ground arith

    pub row-resolve_claim :
        (db : Db B) (r : Row B) {c : Claimed B} → resolve_claim json db r ≡ ok c → c.row ≡ r
    unfolding resolve_claim
    row-resolve_claim db r h = row-resolve_by r.kind db r h

    -- One round either ends the loop at the budget or claims the row and goes on.
    pub data Round (r : Row B) (rs : List (Row B)) (spent : ℕ) (started : Bool) (db : Db B)
        (cs : List (Claimed B)) (db' : Db B) : Type 0 where
      full :
          started ≡ true
          → claim_message_budget < spent + claim_cost json r
          → cs ≡ []
          → db' ≡ db
          → Round r rs spent started db cs db'
      taken :
          (c : Claimed B) (rest : List (Claimed B))
          → c.row ≡ r
          → (started ≡ true → spent + claim_cost json r ≤ claim_message_budget)
          → claim_rows json rs (spent + claim_cost json r) true (claimed_db r db) ≡ ok (rest, db')
          → cs ≡ c ∷ rest
          → Round r rs spent started db cs db'

    pub round :
        (r : Row B) (rs : List (Row B)) (spent : ℕ) (started : Bool) (db : Db B)
        (cs : List (Claimed B)) (db' : Db B)
        → claim_rows json (r ∷ rs) spent started db ≡ ok (cs, db')
        → Round r rs spent started db cs db'
    unfolding claim_rows
    round r rs spent started db cs db' h =
        elim (Bool-cases (started && ltb claim_message_budget (spent + claim_cost json r))) [
          | inl t ↦
              let h' = rw t at h in full (ground arith) (ground arith) (ground arith) (ground arith)
          | inr f ↦
              let h' = rw f at h in
              let (c, resolved, h1) =
                and_then-eq-ok (resolve_claim json (claimed_db r db) r) _ h' in
              let (rest, looped, e) =
                and_then-eq-ok
                  (claim_rows json rs (spent + claim_cost json r) true (claimed_db r db)) _ h1 in
              taken c rest.0 (row-resolve_claim (claimed_db r db) r resolved) (λ s. ground arith)
                (ground arith) (ground arith)
        ]
