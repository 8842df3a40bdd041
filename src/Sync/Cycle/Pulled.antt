-- ===== src/Sync/Cycle/Pulled.antt =====
-- The pages of the baseline that fullResync of internal/sync/resync.go pulls.
use Prim.Native.Char.{Char}
use mathlib.Core.List.{append_assoc, append-nil}
use beautiful_aerc.Prelude.{
  ℕ, String, List, [], ◌∷◌, ◌++◌, map, Bool, true, false, Result, ok, err, Result-cases, nat_eq,
  if◌then◌else◌, pure, stop, ◌>>=◌, ◌≡◌, refl, subst, sym, ap, ◌∙◌, inl, inr, string_eq,
}
use beautiful_aerc.Uerr.{Err}
use beautiful_aerc.Backend.{ObjectKind}
use beautiful_aerc.Store.Mail.{MailDb}
use beautiful_aerc.Sync.Records.{Record}
use beautiful_aerc.Sync.Bulk.{SyncDb, state_key_eq, World, Halt, failed, waiting, each}
use beautiful_aerc.Sync.Bulk.Chunked.{whole, short, chunked_lem, each-append}
use beautiful_aerc.Sync.Cycle.{ChangeSet, Answer, upsert, pull, check_state_advanced}

-- what the server lists from an empty token on: the records, and the token at their end
abbrev pub baseline : List Answer → List Record
baseline [] = []
baseline (err e ∷ as') = []
baseline (ok cs ∷ as') = cs.created ++ (if cs.has_more then baseline as' else [])

abbrev pub last_token : List Answer → String → String
last_token [] token = token
last_token (err e ∷ as') token = token
last_token (ok cs ∷ as') token = if cs.has_more then last_token as' cs.new_token else cs.new_token

abbrev pub record_ids : List Record → List String
record_ids recs = map (λ rec. rec.id) recs

map-append : (xs ys : List Record) → record_ids (xs ++ ys) ≡ record_ids xs ++ record_ids ys
map-append [] ys = refl
map-append (x ∷ xs) ys = ap (λ t. x.id ∷ t) (map-append xs ys)

module _ (normal : String → List Char) (account : ℕ) (kind : ObjectKind) where
  abbrev up : Record → MailDb → Result Err MailDb
  up = upsert normal account kind

  pub data Pulled (as' : List Answer) (keep : List String) (token : String) (s : SyncDb)
      (r : Result Halt (List String × String)) (t : SyncDb) : Type 0 where
    pulled :
        (m : MailDb)
        → each up (baseline as') s.mail ≡ ok m
        → r ≡ ok (keep ++ record_ids (baseline as'), last_token as' token)
        → t ≡ record s { mail = m }
        → Pulled as' keep token s r t
    halted :
        (done rest : List Record) (m : MailDb) (h : Halt)
        → baseline as' ≡ done ++ rest
        → each up done s.mail ≡ ok m
        → r ≡ err h
        → t ≡ record s { mail = m }
        → Pulled as' keep token s r t

  further :
      (cs : ChangeSet) (as' : List Answer) (keep : List String) (token : String) (s t : SyncDb)
      (m : MailDb) (r : Result Halt (List String × String))
      → cs.has_more ≡ true
      → each up cs.created s.mail ≡ ok m
      → Pulled as' (keep ++ record_ids cs.created) cs.new_token (record s { mail = m }) r t
      → Pulled (ok cs ∷ as') keep token s r t
  further cs as' keep token s t m r b f (pulled m' g e p) =
      pulled m' (rw b (each-append up cs.created (baseline as') s.mail m f ∙ g))
        (rw b (
          e
          ∙ ap (λ z. ok (z, last_token as' cs.new_token))
              (append_assoc keep (record_ids cs.created) (record_ids (baseline as'))
                ∙ ap (λ z. keep ++ z) (sym (map-append cs.created (baseline as'))))))
        p
  further cs as' keep token s t m r b f (halted done rest m' h q g e p) =
      halted (cs.created ++ done) rest m' h
        (rw b (ap (λ z. cs.created ++ z) q ∙ sym (append_assoc cs.created done rest)))
        (each-append up cs.created done s.mail m f ∙ g) e p

  onward :
      (cs : ChangeSet) (as' : List Answer) (keep : List String) (token : String) (w v : World)
      (m : MailDb) (b : Bool)
      → cs.has_more ≡ b
      → each up cs.created w.store.db.mail ≡ ok m
      → v.store.db ≡ record (w.store.db) { mail = m }
      → (let keep' = keep ++ record_ids cs.created in
          (u : World)
          → Pulled as' keep' cs.new_token u.store.db
              (pull normal account kind as' keep' cs.new_token u).0
              (pull normal account kind as' keep' cs.new_token u).1.store.db)
      → (let keep' = keep ++ record_ids cs.created in
          let rest =
            if b
            then pull normal account kind as' keep' cs.new_token
            else pure (keep', cs.new_token) in
          Pulled (ok cs ∷ as') keep token w.store.db (rest v).0 (rest v).1.store.db)
  unfolding pure
  onward cs as' keep token w v m true b f p h = further cs as' keep token w.store.db _ m _ b f (
      subst
        (λ z.
          Pulled as' (keep ++ record_ids cs.created) cs.new_token z
            (pull normal account kind as' (keep ++ record_ids cs.created) cs.new_token v).0
            (pull normal account kind as' (keep ++ record_ids cs.created) cs.new_token
              v).1.store.db)
        p (h v))
  onward cs as' keep token w v m false b f p h =
      pulled m (rw (b, append-nil cs.created) f) (rw (b, append-nil cs.created) refl) p

  pub pull_lem :
      (answers : List Answer) (keep : List String) (token : String) (w : World)
      → Pulled answers keep token w.store.db
          (pull normal account kind answers keep token w).0
          (pull normal account kind answers keep token w).1.store.db
  unfolding pull ◌>>=◌ stop
  pull_lem [] keep token w = halted [] [] w.store.db.mail waiting refl refl refl refl
  pull_lem (err e ∷ as') keep token w = halted [] [] w.store.db.mail (failed e) refl refl refl refl
  pull_lem (ok cs ∷ as') keep token w = elim (Result-cases (check_state_advanced kind token cs)) [
    | inl (_, x) ↦
        rw (pull, x)
          (elim (chunked_lem up cs.created w) [
            | whole m f e p ↦ rw e (
                onward cs as' keep token w _ m cs.has_more refl f p
                  (λ u. pull_lem as' (keep ++ record_ids cs.created) cs.new_token u))
            | short done rest m y q f e p ↦ rw e (
                halted done (rest ++ (if cs.has_more then baseline as' else [])) m (failed y)
                  (ap (λ z. z ++ (if cs.has_more then baseline as' else [])) q
                    ∙ append_assoc done rest _)
                  f refl p)
          ])
    | inr (y, x) ↦ rw (pull, x) (halted [] _ w.store.db.mail (failed y) refl refl refl refl)
  ]
