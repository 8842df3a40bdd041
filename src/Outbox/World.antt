-- ===== src/Outbox/World.antt =====
-- internal/outbox/dispatch.go: the dispatcher, and what its calls change: the store, the server
-- behind the backend, and the pass's record of the creates that it has resolved.
pub mod Rows
use beautiful_aerc.Prelude.{ℕ, String, Map, assign, nat_eq, Exec, modify, Result}
use beautiful_aerc.Uerr.{Err}
use beautiful_aerc.Store.{Store, Tx, apply_interactive}
use beautiful_aerc.Backend.{Mail}
use beautiful_aerc.Outbox.Payload.{Json}
use beautiful_aerc.Outbox.Row.{Db}

-- `reads` and `writer` are the world's store; encoding/json and the quoting of `%q` come with
-- the dispatcher.
pub record Dispatcher (B S : Type 0) : Type 0 where
  pub account_id : ℕ
  pub mail : Mail S
  pub json : Json B
  pub quote : String → String

pub record World (B S : Type 0) : Type 0 where
  pub store : Store (Db B)
  pub remote : S
  pub resolved : Map ℕ String

module _ {B S : Type 0} where
  -- a call of the backend
  abbrev pub call : {A : Type 0} → (S → Result Err A × S) → Exec (World B S) Err A
  call f w = let (r, s') = f w.remote in (r, record w { remote = s' })

  -- a call that only the store sees
  abbrev pub on_store :
      {A : Type 0} → (Store (Db B) → Result Err A × Store (Db B)) → Exec (World B S) Err A
  on_store f w = let (r, s') = f w.store in (r, record w { store = s' })

  unfoldable pub transact : {A : Type 0} → Tx (Db B) A → Exec (World B S) Err A
  transact fn = on_store (apply_interactive fn)

  -- `resolvedCreates[id] = serverID`
  unfoldable pub note_resolved : {E : Type 0} → ℕ → String → Exec (World B S) E (Unit {0})
  unfolding modify
  note_resolved id server_id = modify λ w. record w { resolved = assign id server_id w.resolved }
