-- ===== src/Sync/Bulk/Kept.antt =====
-- What the transactions of internal/sync/bulk.go keep of the tables.
use beautiful_aerc.Prelude.{List, [], ◌∷◌, Result, ok, and_then-eq-ok, ◌≡◌, subst, sym}
use beautiful_aerc.Prelude.Keeps.{Keeps}
use beautiful_aerc.Uerr.{Err}
use beautiful_aerc.Store.{Tx}
use beautiful_aerc.Store.Mail.{MailDb}
use beautiful_aerc.Sync.Bulk.{SyncDb, Cycle, each, apply_bulk, run_bulk_chunks, apply_chunked}
use beautiful_aerc.Sync.Bulk.Chunked.{
  landed, stopped, applied_bulk, bulk, whole, short, chunked_lem,
}

module _ (J : SyncDb → Type 0) where
  -- the writes of one item
  abbrev pub Keeping : {T : Type 0} → (T → MailDb → Result Err MailDb) → Type 0
  Keeping fn =
      (x : _) (s : SyncDb) (m : MailDb) → fn x s.mail ≡ ok m → J s → J (record s { mail = m })

  abbrev pub Kept : {A : Type 0} → Cycle A → Type 0
  Kept m = Keeps (λ w. J w.store.db) m

  pub run_bulk_chunks-keeps :
      {A : Type 0} (fn : Tx SyncDb A)
      → ((a : A) (s t : SyncDb) → fn s ≡ ok (a, t) → J s → J t)
      → Kept (run_bulk_chunks fn)
  run_bulk_chunks-keeps fn h = record {
    at = λ w j. elim (bulk fn w) [
      | landed a db f e p ↦ subst J (sym p) (h a w.store.db db f j)
      | stopped x e p ↦ subst J (sym p) j
    ];
  }

  pub apply_bulk-keeps :
      {A : Type 0} (fn : Tx SyncDb A)
      → ((a : A) (s t : SyncDb) → fn s ≡ ok (a, t) → J s → J t)
      → Kept (apply_bulk fn)
  unfolding apply_bulk
  apply_bulk-keeps fn h = record {
    at = λ w j. elim (applied_bulk fn (ok tt) w) [
      | landed a db f e p ↦ subst J (sym p) (h a w.store.db db f j)
      | stopped x e p ↦ subst J (sym p) j
    ];
  }

  module _ {T : Type 0} (fn : T → MailDb → Result Err MailDb) (h : Keeping fn) where
    pub each-keeps :
        (xs : List T) (s : SyncDb) (m : MailDb)
        → each fn xs s.mail ≡ ok m
        → J s
        → J (record s { mail = m })
    each-keeps [] s m e j = let q : s.mail ≡ m = cc in subst (λ z. J (record s { mail = z })) q j
    each-keeps (x ∷ xs) s m e j =
        let (d, f, g) = and_then-eq-ok (fn x s.mail) (each fn xs) e in
        each-keeps xs (record s { mail = d }) m g (h x s d f j)

    pub apply_chunked-keeps : (items : List T) → Kept (apply_chunked fn items)
    apply_chunked-keeps items = record {
      at = λ w j. elim (chunked_lem fn items w) [
        | whole m f e p ↦ subst J (sym p) (each-keeps items w.store.db m f j)
        | short done rest m x q f e p ↦ subst J (sym p) (each-keeps done w.store.db m f j)
      ];
    }
