-- ===== src/Backend.antt =====
-- internal/backend/backend.go: the part of the `Mail` interface that the outbox calls. A backend is
-- any value of `Mail`, over whatever state `S` its server keeps.
use beautiful_aerc.Prelude.{ℕ, String, List, Map, Result}
use beautiful_aerc.Uerr.{Err}

pub data MutationOp : Type 0 where
  create update destroy : MutationOp

pub data ObjectKind : Type 0 where
  message mailbox event contact : ObjectKind

-- `message_patch ids` is a MessagePatch that sets no flag and clears none.
pub data MutationFields : Type 0 where
  no_fields : MutationFields
  mailbox_create : String → String → MutationFields
  message_patch : List String → MutationFields

pub record Mutation : Type 0 where
  pub op : MutationOp
  pub kind : ObjectKind
  pub id : String
  pub creation_id : String
  pub fields : MutationFields

pub record BatchResult : Type 0 where
  pub created : Map String String
  pub failed : Map String Err

pub record Mail (S : Type 0) : Type 0 where
  pub max_objects_in_set : ℕ
  pub create_mailbox : String → String → S → Result Err String × S
  pub rename_mailbox : String → String → S → Result Err (Unit {0}) × S
  pub delete_mailbox : String → S → Result Err (Unit {0}) × S
  pub find_mailboxes : String → String → S → Result Err (List String) × S
  pub apply_batch : List Mutation → S → Result Err BatchResult × S
