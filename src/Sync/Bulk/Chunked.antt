-- ===== src/Sync/Bulk/Chunked.antt =====
-- The ends of runBulkChunks and applyChunked of internal/sync/bulk.go.
use mathlib.Core.List.{append_assoc}
use beautiful_aerc.Prelude.{
  ℕ, zero, suc, ◌≤◌, List, [], ◌∷◌, ◌++◌, length, take, drop, Result, ok, err, and_then,
  and_then-eq-ok, continue, pure, ◌>>=◌, ◌≡◌, refl, sym, ap, subst, ◌∙◌, arith, All, length-take-le,
}
use beautiful_aerc.Prelude.Keeps.{Keeps, Keeps-bind, Keeps-pure}
use beautiful_aerc.Uerr.{Err}
use beautiful_aerc.Store.{Store, Tx}
use beautiful_aerc.Store.Mail.{MailDb}
use beautiful_aerc.Store.Transactions.{Transacted, committed, rolled_back, applied}
use beautiful_aerc.Sync.Bulk.{
  World, SyncDb, Halt, failed, halt, quiet, await_quiet, apply_bulk, run_bulk_chunks, chunks,
  chunks_by, bulk_chunk, each, each_tx, run_chunks, apply_chunked,
}
use beautiful_aerc.Sync.Echo.{Tracker}

abbrev pub flat {ℓ} : {T : Type ℓ} → List (List T) → List T
flat [] = []
flat (c ∷ cs) = c ++ flat cs

module _ {ℓ} {T : Type ℓ} where
  take-drop : (n : ℕ) (xs : List T) → take n xs ++ drop n xs ≡ xs
  take-drop zero xs = refl
  take-drop (suc n) [] = refl
  take-drop (suc n) (x ∷ xs) = ap (λ t. x ∷ t) (take-drop n xs)

  length-drop : (n : ℕ) (xs : List T) → length (drop n xs) ≤ length xs
  length-drop zero xs = omega arith
  length-drop (suc n) [] = omega arith
  length-drop (suc n) (x ∷ xs) = omega (arith, length-drop n xs)

  flat-chunks_by :
      (fuel n : ℕ) (xs : List T) → length xs ≤ fuel → flat (chunks_by fuel (suc n) xs) ≡ xs
  flat-chunks_by zero n [] h = refl
  flat-chunks_by zero n (x ∷ xs) h = ground arith
  flat-chunks_by (suc fuel) n [] h = refl
  flat-chunks_by (suc fuel) n (x ∷ xs) h =
      ap (λ t. x ∷ (take n xs ++ t))
        (flat-chunks_by fuel n (drop n xs) (omega (arith, h, length-drop n xs)))
      ∙ ap (λ t. x ∷ t) (take-drop n xs)

  chunks_by-le : (fuel n : ℕ) (xs : List T) → All (λ c. length c ≤ n) (chunks_by fuel n xs)
  chunks_by-le zero n xs = tt
  chunks_by-le (suc fuel) n [] = tt
  chunks_by-le (suc fuel) n (x ∷ xs) =
      (length-take-le n (x ∷ xs), chunks_by-le fuel n (drop n (x ∷ xs)))

  -- The chunks of a list are the list cut up: they hold its items in their order, at most `n` each.
  pub chunks_lem :
      (n : ℕ) (xs : List T)
      → (flat (chunks (suc n) xs) ≡ xs) × All (λ c. length c ≤ suc n) (chunks (suc n) xs)
  chunks_lem n xs =
      (flat-chunks_by (length xs) n xs (omega arith), chunks_by-le (length xs) (suc n) xs)

-- how a transaction of the bulk lane ends
pub data Bulk {A : Type 0} (fn : Tx SyncDb A) (s : SyncDb) (r : Result Halt A) (t : SyncDb)
    : Type 0 where
  landed : (a : A) (db : SyncDb) → fn s ≡ ok (a, db) → r ≡ ok a → t ≡ db → Bulk fn s r t
  stopped : (e : Err) → r ≡ err (failed e) → t ≡ s → Bulk fn s r t

module _ {A : Type 0} (fn : Tx SyncDb A) where
  of_transaction :
      (s t : Store SyncDb) (r : Result Err A) → Transacted fn s r t → Bulk fn s.db (halt r) t.db
  of_transaction s t r (committed a db f e p v) = landed a db f (ap (λ r. halt r) e) p
  of_transaction s t r (rolled_back e q p v) = stopped e (ap (λ r. halt r) q) p

  pub applied_bulk :
      (q : Result Err Unit) (w : World)
      → Bulk fn w.store.db
          (continue (halt q) (λ _. apply_bulk fn) w).0
          (continue (halt q) (λ _. apply_bulk fn) w).1.store.db
  unfolding apply_bulk
  applied_bulk (ok _) w = of_transaction w.store _ _ (applied fn w.store)
  applied_bulk (err e) w = stopped e refl refl

  pub bulk :
      (w : World) → Bulk fn w.store.db (run_bulk_chunks fn w).0 (run_bulk_chunks fn w).1.store.db
  unfolding run_bulk_chunks ◌>>=◌ await_quiet
  bulk w = applied_bulk (quiet w.looks).0 (record w { looks = (quiet w.looks).1 })

  applied_echo :
      (q : Result Err Unit) (w : World) → (continue (halt q) (λ _. apply_bulk fn) w).1.echo ≡ w.echo
  unfolding apply_bulk
  applied_echo (ok _) w = refl
  applied_echo (err e) w = refl

  -- no transaction forgets what a dispatch noted
  pub bulk-echo : (e : Tracker) → Keeps (λ w. w.echo ≡ e) (run_bulk_chunks fn)
  unfolding run_bulk_chunks ◌>>=◌ await_quiet
  bulk-echo e = record {
    at = λ w h. applied_echo (quiet w.looks).0 (record w { looks = (quiet w.looks).1 }) ∙ h;
  }

module _ {T : Type 0} (fn : T → MailDb → Result Err MailDb) where
  pub each-append :
      (xs ys : List T) (db m : MailDb) → each fn xs db ≡ ok m → each fn (xs ++ ys) db ≡ each fn ys m
  each-append [] ys db m h = ap (λ r. and_then r (each fn ys)) h
  each-append (x ∷ xs) ys db m h =
      let (d, e, f) = and_then-eq-ok (fn x db) (each fn xs) h in rw e (each-append xs ys d m f)

  -- the items that reached the store, all of them or those before the chunk that failed
  pub data Chunked (items : List T) (s : SyncDb) (r : Result Halt Unit) (t : SyncDb) : Type 0 where
    whole :
        (m : MailDb)
        → each fn items s.mail ≡ ok m
        → r ≡ ok tt
        → t ≡ record s { mail = m }
        → Chunked items s r t
    short :
        (done rest : List T) (m : MailDb) (e : Err)
        → items ≡ done ++ rest
        → each fn done s.mail ≡ ok m
        → r ≡ err (failed e)
        → t ≡ record s { mail = m }
        → Chunked items s r t

  pub after_items :
      (xs ys : List T) (s t : SyncDb) (m : MailDb) {r : Result Halt Unit}
      → each fn xs s.mail ≡ ok m
      → Chunked ys (record s { mail = m }) r t
      → Chunked (xs ++ ys) s r t
  after_items xs ys s t m h (whole m' f e p) = whole m' (each-append xs ys s.mail m h ∙ f) e p
  after_items xs ys s t m h (short done rest m' x q f e p) =
      short (xs ++ done) rest m' x (ap (λ z. xs ++ z) q ∙ sym (append_assoc xs done rest))
        (each-append xs done s.mail m h ∙ f) e p

  each_tx-eq-ok :
      (c : List T) (s t : SyncDb) (a : Unit)
      → each_tx fn c s ≡ ok (a, t)
      → (m : MailDb) × (each fn c s.mail ≡ ok m) × (t ≡ record s { mail = m })
  each_tx-eq-ok c s t a h =
      let (m, e, f) = and_then-eq-ok (each fn c s.mail) (λ m. ok (tt, record s { mail = m })) h in
      (m, e, cc)

  chunked :
      (cs : List (List T)) (w : World)
      → Chunked (flat cs) w.store.db (run_chunks fn cs w).0 (run_chunks fn cs w).1.store.db
  unfolding ◌>>=◌ pure
  chunked [] w = whole w.store.db.mail refl refl refl
  chunked (c ∷ cs) w = elim (bulk (each_tx fn c) w) [
    | landed a db f e p ↦
        let (m, g, q) = each_tx-eq-ok c w.store.db db a f in
        let v = (run_bulk_chunks (each_tx fn c) w).1 in
        rw e (
          after_items c (flat cs) w.store.db (run_chunks fn cs v).1.store.db m g (
            subst (λ z. Chunked (flat cs) z (run_chunks fn cs v).0 (run_chunks fn cs v).1.store.db)
              (p ∙ q) (chunked cs v)))
    | stopped x e p ↦ rw e (short [] (flat (c ∷ cs)) w.store.db.mail x refl refl refl p)
  ]

  pub chunked_lem :
      (items : List T) (w : World)
      → Chunked items w.store.db (apply_chunked fn items w).0 (apply_chunked fn items w).1.store.db
  unfolding apply_chunked
  chunked_lem items w =
      subst
        (λ z.
          Chunked z w.store.db (apply_chunked fn items w).0 (apply_chunked fn items w).1.store.db)
        (chunks_lem 49 items).0 (chunked (chunks bulk_chunk items) w)

  chunked_echo : (e : Tracker) (cs : List (List T)) → Keeps (λ w. w.echo ≡ e) (run_chunks fn cs)
  chunked_echo e [] = Keeps-pure tt
  chunked_echo e (c ∷ cs) =
      Keeps-bind (run_bulk_chunks (each_tx fn c)) (λ _. run_chunks fn cs)
        (bulk-echo (each_tx fn c) e) (λ _. chunked_echo e cs)

  pub apply_chunked-echo :
      (e : Tracker) (items : List T) → Keeps (λ w. w.echo ≡ e) (apply_chunked fn items)
  unfolding apply_chunked
  apply_chunked-echo e items = chunked_echo e (chunks bulk_chunk items)
