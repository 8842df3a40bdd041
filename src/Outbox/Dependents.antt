-- ===== src/Outbox/Dependents.antt =====
-- internal/outbox/dispatch.go: resolveDependentRefs, which writes a new mailbox's server id into
-- the payload of every intent that named its create.
pub mod Fuel
use beautiful_aerc.Prelude.{
  ℕ, zero, suc, ◌+◌, String, List, [], ◌∷◌, Option, none, some, Result, ok, and_then, Exec, pure,
  ◌>>=◌, not, ◌||◌, ◌==◌, nat_eq, if◌then◌else◌, length,
}
use beautiful_aerc.Uerr.{Err}
use beautiful_aerc.Store.{Store, Tx, apply_interactive}
use beautiful_aerc.Outbox.Payload.{
  Kind, create_mailbox, move_messages, Json, CreateMailboxPayload, MoveMessagesPayload,
}
use beautiful_aerc.Outbox.Row.{Row, Db, select_page, update_payload}

abbrev pub dependent_ref_page : ℕ
dependent_ref_page = 100

module _ {B : Type 0} (json : Json B) where
  rewrite_dest : ℕ → String → MoveMessagesPayload → Result Err (Option B)
  rewrite_dest create_id server_id p =
      if p.dest_ref == create_id
      then and_then (json.marshal_move (record p { dest_ref = 0; dest_server_id = server_id }))
          (λ b. ok (some b))
      else ok none

  rewrite_parent : ℕ → String → CreateMailboxPayload → Result Err (Option B)
  rewrite_parent create_id server_id p =
      if p.parent_ref == create_id
      then and_then
          (json.marshal_create (record p { parent_ref = 0; parent_server_id = server_id }))
          (λ b. ok (some b))
      else ok none

  rewrite_by : Kind → B → ℕ → String → Result Err (Option B)
  unfolding rewrite_dest rewrite_parent
  rewrite_by move_messages b create_id server_id =
      and_then (json.unmarshal_move b) (rewrite_dest create_id server_id)
  rewrite_by create_mailbox b create_id server_id =
      and_then (json.unmarshal_create b) (rewrite_parent create_id server_id)
  rewrite_by _ b create_id server_id = ok none

  unfoldable pub rewrite_ref : Row B → ℕ → String → Result Err (Option B)
  unfolding rewrite_by
  rewrite_ref r create_id server_id = rewrite_by r.kind r.payload create_id server_id

  -- one row of a page: its rewrite, if it has one, is written to the table
  unfoldable pub patch_row : ℕ → ℕ → String → Row B → List (Row B) → Result Err (List (Row B))
  patch_row account_id create_id new_id r rows =
      let patched : Result Err (List (Row B)) =
        and_then (rewrite_ref r create_id new_id)
          λ o. ok (elim o [ none ↦ rows | some b ↦ update_payload r.id b rows ]) in
      if not (r.account_id == account_id) || r.id == create_id then ok rows else patched

  unfoldable pub patch_rows :
      ℕ → ℕ → String → List (Row B) → List (Row B) → Result Err (List (Row B))
  patch_rows account_id create_id new_id [] rows = ok rows
  patch_rows account_id create_id new_id (r ∷ rs) rows =
      and_then (patch_row account_id create_id new_id r rows)
        (patch_rows account_id create_id new_id rs)

  abbrev pub last_id : ℕ → List (Row B) → ℕ
  last_id after [] = after
  last_id after (r ∷ rs) = last_id r.id rs

  -- the transaction of one page: the last id it saw, and how many rows it examined
  unfoldable pub patch_page : ℕ → ℕ → String → ℕ → Tx (Db B) (ℕ × ℕ)
  patch_page account_id create_id new_id after db =
      let page = select_page after dependent_ref_page db.rows in
      and_then (patch_rows account_id create_id new_id page db.rows)
        λ rows. ok ((last_id after page, length page), record db { rows = rows })

  -- the loop, a page a round; `resolve_dependent_refs` gives it a round for each row, and one
  unfoldable pub resolve_loop : ℕ → ℕ → ℕ → String → ℕ → Exec (Store (Db B)) Err (Unit {0})
  resolve_loop zero account_id create_id new_id after = pure tt
  resolve_loop (suc fuel) account_id create_id new_id after = do
    seen ← apply_interactive (patch_page account_id create_id new_id after)
    let rest = resolve_loop fuel account_id create_id new_id seen.0
    if seen.1 == 0 then pure tt else rest

  unfoldable pub resolve_dependent_refs : ℕ → ℕ → String → Exec (Store (Db B)) Err (Unit {0})
  unfolding resolve_loop
  resolve_dependent_refs account_id create_id new_id s =
      resolve_loop (length s.db.rows + 1) account_id create_id new_id 0 s
