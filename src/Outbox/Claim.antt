-- ===== src/Outbox/Claim.antt =====
-- internal/outbox/dispatch.go: what one pass claims, and what it resolves from the store.
pub mod Steps
pub mod Accounted
pub mod Budget
use beautiful_aerc.Prelude.{
  assign, ℕ, ◌+◌, String, List, [], ◌∷◌, Map, Result, ok, err, and_then, Bool, true, false, not,
  ◌&&◌, ltb, ◌==◌, nat_eq, string_eq, if◌then◌else◌, length,
}
use beautiful_aerc.Uerr.{Class, not_found, Err}
use beautiful_aerc.Store.{Tx}
use beautiful_aerc.Outbox.Payload.{
  Kind, create_mailbox, rename_mailbox, delete_mailbox, move_messages, unknown, Json,
  CreateMailboxPayload, MoveMessagesPayload,
}
use beautiful_aerc.Outbox.Row.{Row, Db, select_eligible, claim_row}

pub record Claimed (B : Type 0) : Type 0 where
  pub row : Row B
  pub open row use *
  pub message_server_ids : Map ℕ String
  pub dest_server_id : String
  pub mailbox_server_id : String
  pub parent_server_id : String
  pub pre_failed : Bool
  pub class : Class
  pub detail : String

abbrev pub claim_message_budget : ℕ
claim_message_budget = 750

abbrev pub claim_row_budget : ℕ
claim_row_budget = 100

-- the loop over the messages: what it resolved, and whether it came to the end
unfoldable pub resolve_messages : (ℕ → String) → List ℕ → Map ℕ String → Map ℕ String × Bool
resolve_messages find [] found = (found, true)
resolve_messages find (m ∷ ms) found =
    let rest = resolve_messages find ms (assign m (find m) found) in
    if find m == "" then (found, false) else rest

module _ {B : Type 0} where
  -- `claimed{row: r}`; the class of one that has not failed is not read
  unfoldable pub fresh : Row B → Claimed B
  fresh r = record {
    row = r;
    message_server_ids = [];
    dest_server_id = "";
    mailbox_server_id = "";
    parent_server_id = "";
    pre_failed = false;
    class = Class.auth;
    detail = "";
  }

  -- notFound
  unfoldable pub pre_fail : Claimed B → String → Claimed B
  pre_fail c detail = record c { pre_failed = true; class = not_found; detail = detail }

  unfoldable pub resolve_parent : Db B → Claimed B → CreateMailboxPayload → Claimed B
  unfolding pre_fail
  resolve_parent db c p =
      let server_id = db.mailbox_server_id p.parent_mailbox_id in
      if not (p.parent_server_id == "")
      then record c { parent_server_id = p.parent_server_id }
      else if p.parent_mailbox_id == 0
      then c
      else if server_id == ""
      then pre_fail c "parent mailbox not found"
      else record c { parent_server_id = server_id }

  unfoldable pub resolve_mailbox : Db B → Claimed B → ℕ → Claimed B
  unfolding pre_fail
  resolve_mailbox db c mailbox_id =
      let server_id = db.mailbox_server_id mailbox_id in
      if server_id == ""
      then pre_fail c "mailbox not found"
      else record c { mailbox_server_id = server_id }

  unfoldable pub resolve_dest : Db B → Claimed B → MoveMessagesPayload → Claimed B
  unfolding pre_fail
  resolve_dest db c p =
      let server_id = db.mailbox_server_id p.dest_mailbox_id in
      if not (p.dest_server_id == "")
      then record c { dest_server_id = p.dest_server_id }
      else if p.dest_mailbox_id == 0
      then c
      else if server_id == ""
      then pre_fail c "destination mailbox not found"
      else record c { dest_server_id = server_id }

  unfoldable pub resolve_move : Db B → Claimed B → MoveMessagesPayload → Claimed B
  unfolding resolve_messages resolve_dest pre_fail
  resolve_move db c p =
      let (found, all) = resolve_messages db.message_server_id p.message_ids [] in
      let c' : Claimed B = record c { message_server_ids = found } in
      if all then resolve_dest db c' p else pre_fail c' "message not found"

  module _ (json : Json B) where
    claim_cost_by : Kind → Row B → ℕ
    claim_cost_by move_messages r = elim (json.unmarshal_move r.payload) [
      | err _ ↦ 1
      | ok p ↦ length p.message_ids
    ]
    claim_cost_by _ r = 1

    unfoldable pub claim_cost : Row B → ℕ
    unfolding claim_cost_by
    claim_cost r = claim_cost_by r.kind r

    resolve_by : Kind → Db B → Row B → Result Err (Claimed B)
    unfolding fresh resolve_parent resolve_mailbox resolve_move
    resolve_by create_mailbox db r =
        and_then (json.unmarshal_create r.payload) (λ p. ok (resolve_parent db (fresh r) p))
    resolve_by rename_mailbox db r =
        and_then (json.unmarshal_rename r.payload)
          (λ p. ok (resolve_mailbox db (fresh r) p.mailbox_id))
    resolve_by delete_mailbox db r =
        and_then (json.unmarshal_delete r.payload)
          (λ p. ok (resolve_mailbox db (fresh r) p.mailbox_id))
    resolve_by move_messages db r =
        and_then (json.unmarshal_move r.payload) (λ p. ok (resolve_move db (fresh r) p))
    resolve_by (unknown _) db r = ok (fresh r)

    unfoldable pub resolve_claim : Db B → Row B → Result Err (Claimed B)
    unfolding resolve_by
    resolve_claim db r = resolve_by r.kind db r

    -- the loop of `claim`; `started` is `len(out) > 0`
    unfoldable pub claim_rows : List (Row B) → ℕ → Bool → Tx (Db B) (List (Claimed B))
    claim_rows [] spent started db = ok ([], db)
    claim_rows (r ∷ rs) spent started db =
        let cost = claim_cost r in
        let db' : Db B = record db { rows = claim_row r.id db.rows } in
        let next : Result Err (List (Claimed B) × Db B) =
          and_then (resolve_claim db' r)
            λ c. and_then (claim_rows rs (spent + cost) true db') λ rest. ok (c ∷ rest.0, rest.1) in
        if started && ltb claim_message_budget (spent + cost) then ok ([], db) else next

    unfoldable pub claim : ℕ → ℕ → Tx (Db B) (List (Claimed B))
    unfolding claim_rows
    claim account_id now db =
        claim_rows (select_eligible account_id now claim_row_budget db.rows) 0 false db
