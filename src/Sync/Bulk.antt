-- ===== src/Sync/Bulk.antt =====
-- internal/sync/bulk.go: how a page's writes reach the bulk lane. Between two transactions of a
-- worker nothing else writes to the tables.
pub mod Chunked
pub mod Sequenced
pub mod Kept
use beautiful_aerc.Prelude.{
  ℕ, zero, suc, String, List, [], ◌∷◌, length, take, drop, Bool, true, Result, ok, err, Exec,
  and_then, ◌>>◌, Eq, ◌==◌, nat_eq, ◌≡◌, refl, ◌↔◌, ◌&&◌, arith, Map, string_eq,
}
use beautiful_aerc.Prelude.{pure, ◌>>=◌}
use beautiful_aerc.Uerr.{Err}
use beautiful_aerc.Store.{Store, Tx, apply}
use beautiful_aerc.Store.Mail.{MailDb}
use beautiful_aerc.Sync.Echo.{Tracker}

-- the key of a row of sync_state: account_id, object_kind, collection_id
abbrev pub StateKey : Type 0
StateKey = ℕ × String × String

abbrev pub same_state_key : StateKey → StateKey → Bool
same_state_key (a, k, c) (a', k', c') = (a == a') && (k == k') && (c == c')

pub same_state_key_iff : (p q : StateKey) → (same_state_key p q ≡ true) ↔ (p ≡ q)
same_state_key_iff (a, k, c) (a', k', c') =
    ground (arith, string_eq.same_iff k k', string_eq.same_iff c c')

instance abbrev pub state_key_eq : Eq StateKey
state_key_eq = record { same = same_state_key; same_iff = same_state_key_iff }

pub record Watermark : Type 0 where
  pub server_state_token : String
  pub local_rev : ℕ

-- the tables that a worker writes
pub record SyncDb : Type 0 where
  pub mail : MailDb
  pub states : Map StateKey Watermark

-- One look of the loop at RecentInteractiveActivity: none; some, and then the timer or the context.
pub data Look : Type 0 where
  idle active : Look
  cancelled : Err → Look

pub record World : Type 0 where
  pub store : Store SyncDb
  pub echo : Tracker
  pub looks : List Look

-- How a cycle ends early: with an error, or not yet, where the server has still to answer.
pub data Halt : Type 0 where
  failed : Err → Halt
  waiting : Halt

abbrev pub Cycle : Type 0 → Type 0
Cycle = Exec World Halt

abbrev pub halt : {A : Type 0} → Result Err A → Result Halt A
halt (ok a) = ok a
halt (err e) = err (failed e)

-- the loop of runBulkChunks; where nothing more is looked at, the lane is idle
unfoldable pub quiet : List Look → Result Err Unit × List Look
quiet [] = (ok tt, [])
quiet (idle ∷ ls) = (ok tt, ls)
quiet (active ∷ ls) = quiet ls
quiet (cancelled e ∷ ls) = (err e, ls)

unfoldable pub await_quiet : Cycle Unit
unfolding quiet
await_quiet w = let (r, ls) = quiet w.looks in (halt r, record w { looks = ls })

module _ {A : Type 0} where
  -- a transaction on the bulk lane
  unfoldable pub apply_bulk : Tx SyncDb A → Cycle A
  unfolding apply
  apply_bulk fn w = let (r, s) = apply fn w.store in (halt r, record w { store = s })

  unfoldable pub run_bulk_chunks : Tx SyncDb A → Cycle A
  unfolding ◌>>=◌ await_quiet apply_bulk
  run_bulk_chunks fn = do await_quiet; apply_bulk fn

abbrev pub bulk_chunk : ℕ
bulk_chunk = 50

-- slices.Chunk of the standard library, by its documentation
abbrev chunks_by {ℓ} : {T : Type ℓ} → ℕ → ℕ → List T → List (List T)
chunks_by zero n xs = []
chunks_by (suc fuel) n [] = []
chunks_by (suc fuel) n (x ∷ xs) = take n (x ∷ xs) ∷ chunks_by fuel n (drop n (x ∷ xs))

abbrev pub chunks {ℓ} : {T : Type ℓ} → ℕ → List T → List (List T)
chunks n xs = chunks_by (length xs) n xs

module _ {T : Type 0} (fn : T → MailDb → Result Err MailDb) where
  -- the loop of one transaction
  abbrev pub each : List T → MailDb → Result Err MailDb
  each [] db = ok db
  each (x ∷ xs) db = and_then (fn x db) (each xs)

  abbrev pub each_tx : List T → Tx SyncDb Unit
  each_tx xs s = and_then (each xs s.mail) λ m. ok (tt, record s { mail = m })

  -- the loop of applyChunked over the chunks
  abbrev pub run_chunks : List (List T) → Cycle Unit
  run_chunks [] = pure tt
  run_chunks (c ∷ cs) = do run_bulk_chunks (each_tx c); run_chunks cs

  unfoldable pub apply_chunked : List T → Cycle Unit
  unfolding ◌>>=◌ run_bulk_chunks
  apply_chunked items = run_chunks (chunks bulk_chunk items)
