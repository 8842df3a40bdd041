-- ===== src/Outbox/Outcome.antt =====
-- internal/outbox/dispatch.go: what the dispatch of one intent came to.
use beautiful_aerc.Prelude.{String, List, ◌∷◌, Option, none, map, if◌then◌else◌}
use beautiful_aerc.Uerr.{Class, Err, ambiguous_mailbox, is}
use beautiful_aerc.Outbox.Payload.{MoveMessagesPayload}
use beautiful_aerc.Outbox.Failure.{is_retriable, classify_failure}
use beautiful_aerc.Outbox.Claim.{Claimed}

pub data Disposition : Type 0 where
  delivered retry terminal : Disposition

pub record Outcome (B : Type 0) : Type 0 where
  pub c : Claimed B
  pub move : Option MoveMessagesPayload
  pub disposition : Disposition
  pub class : Class
  pub detail : String

module _ {B : Type 0} where
  -- `outcome{c: c, move: move}`: the class is not read
  abbrev pub done : Claimed B → Option MoveMessagesPayload → Outcome B
  done c move = record {
    c = c;
    move = move;
    disposition = delivered;
    class = Class.auth;
    detail = "";
  }

  unfoldable pub terminal_outcome : Claimed B → Class → String → Outcome B
  terminal_outcome c class detail = record {
    c = c;
    move = none;
    disposition = terminal;
    class = class;
    detail = detail;
  }

  unfoldable pub failed_outcome : Claimed B → Class → String → Outcome B
  unfolding terminal_outcome is_retriable
  failed_outcome c class detail =
      if is_retriable class
      then record { c = c; move = none; disposition = retry; class = class; detail = detail }
      else terminal_outcome c class detail

  -- `failedOutcome` of `classifyFailure(err)`
  abbrev pub failed_by : Claimed B → Err → Outcome B
  failed_by c e = let (class, detail) = classify_failure e in failed_outcome c class detail

  unfoldable pub adoption_failure : Claimed B → Err → Outcome B
  adoption_failure c e =
      let (class, detail) = classify_failure e in
      if is ambiguous_mailbox e
      then terminal_outcome c class detail
      else failed_outcome c class detail

  unfoldable pub fail_batch : Claimed B → List (Claimed B) → Class → String → List (Outcome B)
  fail_batch create moves class detail =
      failed_outcome create class detail ∷ map (λ mv. failed_outcome mv class detail) moves

  abbrev pub fail_batch_by : Claimed B → List (Claimed B) → Err → List (Outcome B)
  fail_batch_by create moves e =
      let (class, detail) = classify_failure e in fail_batch create moves class detail

  unfoldable pub fail_batch_adoption : Claimed B → List (Claimed B) → Err → List (Outcome B)
  unfolding fail_batch
  fail_batch_adoption create moves e =
      let outcomes = fail_batch_by create moves e in
      if is ambiguous_mailbox e
      then map {A = Outcome B} (λ o. record o { disposition = terminal }) outcomes
      else outcomes
