-- ===== src/Outbox/Payload.antt =====
-- internal/outbox/outbox.go: the kinds of intent and their payloads, and encoding/json as the code
-- uses it. An int64 key is a number and 0 names no row; a map is an association list.
use beautiful_aerc.Prelude.{ℕ, ◌*◌, String, List, Result}
use beautiful_aerc.Uerr.{Err}

-- `Kind` is a string: `unknown` is one that this build does not name.
pub data Kind : Type 0 where
  create_mailbox rename_mailbox delete_mailbox move_messages : Kind
  unknown : String → Kind

abbrev pub second : ℕ
second = 1000000000

abbrev pub undo_window : ℕ
undo_window = 10 * second

pub record CreateMailboxPayload : Type 0 where
  pub name : String
  pub parent_mailbox_id : ℕ
  pub parent_ref : ℕ
  pub parent_server_id : String
  pub resolved_server_id : String

pub record RenameMailboxPayload : Type 0 where
  pub mailbox_id : ℕ
  pub name : String

pub record DeleteMailboxPayload : Type 0 where
  pub mailbox_id : ℕ

pub record MoveMessagesPayload : Type 0 where
  pub message_ids : List ℕ
  pub dest_mailbox_id : ℕ
  pub dest_ref : ℕ
  pub dest_server_id : String
  pub prior_mailbox_ids : List (ℕ × ℕ)

-- json.Marshal and json.Unmarshal at the four payload types; `B` is the type of the bytes.
pub record Json (B : Type 0) : Type 0 where
  pub marshal_create : CreateMailboxPayload → Result Err B
  pub marshal_rename : RenameMailboxPayload → Result Err B
  pub marshal_delete : DeleteMailboxPayload → Result Err B
  pub marshal_move : MoveMessagesPayload → Result Err B
  pub unmarshal_create : B → Result Err CreateMailboxPayload
  pub unmarshal_rename : B → Result Err RenameMailboxPayload
  pub unmarshal_delete : B → Result Err DeleteMailboxPayload
  pub unmarshal_move : B → Result Err MoveMessagesPayload
