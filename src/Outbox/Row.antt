-- ===== src/Outbox/Row.antt =====
-- internal/outbox/store.go and resolve.go: the rows of the outbox table and the statements over
-- them. The table is the list of its rows in id order; a time is in nanoseconds since the epoch.
pub mod Accounted
use beautiful_aerc.Prelude.{
  ℕ, ◌+◌, ◌/◌, max, String, List, [], ◌∷◌, ◌++◌, Bool, true, false, not, ◌&&◌, leb, ltb, ◌==◌,
  nat_eq, if◌then◌else◌, filter, take, length,
}
use beautiful_aerc.Outbox.Payload.{Kind, second}

pub data State : Type 0 where
  queued dispatching : State

abbrev pub is_queued : State → Bool
is_queued queued = true
is_queued dispatching = false

-- A NULL `undo_group` or `failure_class` reads as the empty text.
pub record Row (B : Type 0) : Type 0 where
  pub id : ℕ
  pub account_id : ℕ
  pub kind : Kind
  pub payload : B
  pub state : State
  pub undo_group : String
  pub chunk_seq : ℕ
  pub attempt_count : ℕ
  pub next_attempt_at : ℕ
  pub failure_class : String
  pub failure_detail : String
  pub created_at : ℕ

-- The outbox table, and what the outbox reads of the other tables: `server_id` of a mailbox and
-- of a message, empty where the row is missing or the column NULL (scanServerID), and the first
-- mailbox of a message, 0 where it has none (currentMailboxID).
pub record Db (B : Type 0) : Type 0 where
  pub rows : List (Row B)
  pub mailbox_server_id : ℕ → String
  pub message_server_id : ℕ → String
  pub current_mailbox_id : ℕ → ℕ

-- `Time.Unix()`
abbrev pub unix : ℕ → ℕ
unix t = t / second

module _ {B : Type 0} where
  -- UPDATE … WHERE
  abbrev pub update_where : (Row B → Bool) → (Row B → Row B) → List (Row B) → List (Row B)
  update_where p f [] = []
  update_where p f (r ∷ rs) = (if p r then f r else r) ∷ update_where p f rs

  -- DELETE … WHERE
  abbrev pub delete_where : (Row B → Bool) → List (Row B) → List (Row B)
  delete_where p = filter (λ r. not (p r))

  abbrev pub has_id : ℕ → Row B → Bool
  has_id id r = r.id == id

  -- the rowid of an INSERT: one more than the largest
  abbrev pub max_id : List (Row B) → ℕ
  max_id [] = 0
  max_id (r ∷ rs) = max r.id (max_id rs)

  -- insertRow
  unfoldable pub insert_row : ℕ → Kind → B → String → ℕ → ℕ → ℕ → List (Row B) → ℕ × List (Row B)
  insert_row account_id kind payload undo_group chunk_seq next_attempt_at created_at rs =
      let id = max_id rs + 1 in
      (
        id,
        rs
            ++ record {
              id = id;
              account_id = account_id;
              kind = kind;
              payload = payload;
              state = queued;
              undo_group = undo_group;
              chunk_seq = chunk_seq;
              attempt_count = 0;
              next_attempt_at = unix next_attempt_at;
              failure_class = "";
              failure_detail = "";
              created_at = unix created_at;
            }
              ∷ [],
      )

  -- the WHERE clause of selectEligible and of `queryOutboxEligible`
  unfoldable pub is_eligible : ℕ → ℕ → Row B → Bool
  is_eligible account_id now r =
      r.account_id == account_id && is_queued r.state && leb r.next_attempt_at (unix now)

  unfoldable pub select_eligible : ℕ → ℕ → ℕ → List (Row B) → List (Row B)
  select_eligible account_id now limit rs = take limit (filter (is_eligible account_id now) rs)

  unfoldable pub select_page : ℕ → ℕ → List (Row B) → List (Row B)
  select_page after limit rs = take limit (filter (λ r. ltb after r.id) rs)

  unfoldable pub claim_row : ℕ → List (Row B) → List (Row B)
  claim_row id =
      update_where (λ r. has_id id r && is_queued r.state) (λ r. record r { state = dispatching })

  unfoldable pub delete_row : ℕ → List (Row B) → List (Row B)
  delete_row id = delete_where (has_id id)

  unfoldable pub revert_row : ℕ → List (Row B) → List (Row B)
  revert_row id = update_where (has_id id) (λ r. record r { state = queued })

  -- RowsAffected of an UPDATE or DELETE
  abbrev pub affected : (Row B → Bool) → List (Row B) → ℕ
  affected p rs = length (filter p rs)

  abbrev pub is_dispatching : Row B → Bool
  is_dispatching r = not (is_queued r.state)

  unfoldable pub requeue_dispatching : List (Row B) → ℕ × List (Row B)
  requeue_dispatching rs = (
    affected is_dispatching rs,
    update_where is_dispatching (λ r. record r { state = queued }) rs,
  )

  unfoldable pub requeue_row : ℕ → ℕ → String → String → List (Row B) → List (Row B)
  requeue_row id next_attempt_at class detail = update_where (has_id id) λ r. record r {
    state = queued;
    attempt_count = r.attempt_count + 1;
    next_attempt_at = unix next_attempt_at;
    failure_class = class;
    failure_detail = detail;
  }

  unfoldable pub recover_row : ℕ → ℕ → String → List (Row B) → List (Row B)
  recover_row id next_attempt_at class = update_where (has_id id) λ r. record r {
    state = queued;
    attempt_count = r.attempt_count + 1;
    next_attempt_at = unix next_attempt_at;
    failure_class = class;
  }

  unfoldable pub update_payload : ℕ → B → List (Row B) → List (Row B)
  update_payload id payload = update_where (has_id id) (λ r. record r { payload = payload })

  abbrev pub annihilable : ℕ → Row B → Bool
  annihilable id r = has_id id r && is_queued r.state

  unfoldable pub annihilate : ℕ → List (Row B) → Bool × List (Row B)
  annihilate id rs = (ltb 0 (affected (annihilable id) rs), delete_where (annihilable id) rs)
