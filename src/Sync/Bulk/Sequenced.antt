-- ===== src/Sync/Bulk/Sequenced.antt =====
-- Several calls of applyChunked of internal/sync/bulk.go one after the other, as applyChangeSet of
-- apply.go makes them.
use mathlib.Core.List.{append_assoc}
use beautiful_aerc.Prelude.{
  List, [], ◌∷◌, ◌++◌, map, Result, ok, err, and_then, ◌>>=◌, ◌≡◌, refl, sym, ap, subst, ◌∙◌,
}
use beautiful_aerc.Uerr.{Err}
use beautiful_aerc.Store.Mail.{MailDb}
use beautiful_aerc.Sync.Bulk.{World, SyncDb, Halt, Cycle, each}
use beautiful_aerc.Sync.Bulk.Chunked.{Chunked, whole, short, after_items}

map-append {ℓ} :
    {A B : Type ℓ} (f : A → B) (xs ys : List A) → map f (xs ++ ys) ≡ map f xs ++ map f ys
map-append f [] ys = refl
map-append f (x ∷ xs) ys = ap (λ t. f x ∷ t) (map-append f xs ys)

and_then_ext {ℓ} :
    {E A B : Type ℓ} (r : Result E A) (f g : A → Result E B)
    → ((a : A) → f a ≡ g a)
    → and_then r f ≡ and_then r g
and_then_ext (ok a) f g h = h a
and_then_ext (err e) f g h = refl

module _ {T C : Type 0} (fn : T → MailDb → Result Err MailDb) (gn : C → MailDb → Result Err MailDb)
    (f : T → C) (same : (x : T) (db : MailDb) → fn x db ≡ gn (f x) db) where
  each-map : (xs : List T) (db : MailDb) → each fn xs db ≡ each gn (map f xs) db
  each-map [] db = refl
  each-map (x ∷ xs) db =
      rw (same x db)
        (and_then_ext (gn (f x) db) (each fn xs) (each gn (map f xs)) (λ m. each-map xs m))

  -- the same writes, told as items of another type
  pub Chunked-map :
      (items : List T) (s t : SyncDb) (r : Result Halt Unit)
      → Chunked fn items s r t
      → Chunked gn (map f items) s r t
  Chunked-map items s t r (whole m g e p) = whole m (sym (each-map items s.mail) ∙ g) e p
  Chunked-map items s t r (short done rest m x q g e p) =
      short (map f done) (map f rest) m x (ap (map f) q ∙ map-append f done rest)
        (sym (each-map done s.mail) ∙ g) e p

module _ {T : Type 0} (fn : T → MailDb → Result Err MailDb) where
  pub Chunked-then :
      (xs ys : List T) (m k : Cycle Unit) (w : World)
      → Chunked fn xs w.store.db (m w).0 (m w).1.store.db
      → ((v : World) → Chunked fn ys v.store.db (k v).0 (k v).1.store.db)
      → Chunked fn (xs ++ ys) w.store.db ((m >>= λ _. k) w).0 ((m >>= λ _. k) w).1.store.db
  unfolding ◌>>=◌
  Chunked-then xs ys m k w (whole d g e p) h =
      let v = (m w).1 in
      rw e (
        after_items fn xs ys w.store.db (k v).1.store.db d g
          (subst (λ z. Chunked fn ys z (k v).0 (k v).1.store.db) p (h v)))
  Chunked-then xs ys m k w (short done rest d x q g e p) h =
      rw e (short done (rest ++ ys) d x (ap (λ z. z ++ ys) q ∙ append_assoc done rest ys) g refl p)
