-- ===== src/Sync/Cycle/Progress.antt =====
-- SyncKind of internal/sync/sync.go as a sequence of pages, each of them whole before its watermark.
use Prim.Native.Char.{Char}
use mathlib.Core.List.{append-nil}
use beautiful_aerc.Prelude.{
  ℕ, suc, String, List, [], ◌∷◌, ◌++◌, Bool, true, false, Result, ok, err, Result-cases, ◌==◌,
  nat_eq, if◌then◌else◌, pure, stop, ◌>>=◌, ◌≡◌, refl, subst, sym, ap, ◌∙◌, assign, arith,
  Bool-cases, ◌⊎◌, inl, inr, string_eq,
}
use beautiful_aerc.Uerr.{Err, is, state_reset}
use beautiful_aerc.Backend.{ObjectKind}
use beautiful_aerc.Store.Mail.{MailDb}
use beautiful_aerc.Sync.Echo.{Tracker, consume}
use beautiful_aerc.Sync.Bulk.{
  SyncDb, state_key_eq, World, Watermark, Halt, failed, waiting, Cycle, run_bulk_chunks, each,
}
use beautiful_aerc.Sync.Bulk.Chunked.{landed, stopped, bulk, whole, short, bulk-echo}
use beautiful_aerc.Sync.Cycle.{
  ChangeSet, Answer, state_key, save_watermark, save, check_state_advanced, consume_echo,
  apply_change_set, sync_pages,
}
use beautiful_aerc.Sync.Cycle.Steps.{
  Change, change, changes, apply_change_set_lem, apply_change_set-echo,
}
use beautiful_aerc.Sync.Cycle.Rebuilt.{Rebuilt, full_resync_lem}

module _ (normal : String → List Char) (account : ℕ) (kind : ObjectKind) where
  abbrev pub next_watermark : Watermark → ChangeSet → Watermark
  next_watermark wm cs = record { server_state_token = cs.new_token; local_rev = suc wm.local_rev }

  -- the changes of a page that this client did not itself make
  abbrev pub own : Tracker → ChangeSet → Change → MailDb → Result Err MailDb
  own e cs = change normal account kind (consume kind cs.new_token e).0

  abbrev pub consumed : Tracker → ChangeSet → Tracker
  consumed e cs = (consume kind cs.new_token e).1

  -- the page and its watermark, both in the store
  abbrev pub Landed : Watermark → Tracker → ChangeSet → SyncDb → SyncDb → Type 0
  Landed wm e cs s t =
      (each (own e cs) (changes cs) s.mail ≡ ok t.mail)
      × (t.states ≡ assign (state_key account kind) (next_watermark wm cs) s.states)

  -- from a watermark and what was noted, over the server's answers: the result, and the tables before
  -- and after
  pub data Progress
      : Watermark → Tracker → List Answer → Result Halt Unit → SyncDb → SyncDb → Type 0 where
    awaits : {wm : Watermark} {e : Tracker} {s : SyncDb} → Progress wm e [] (err waiting) s s
    refused :
        {wm : Watermark} {e : Tracker} {x : Err} {as' : List Answer} {s : SyncDb}
        → is state_reset x ≡ false
        → Progress wm e (err x ∷ as') (err (failed x)) s s
    reset :
        {wm : Watermark} {e : Tracker} {x : Err} {as' : List Answer} {r : Result Halt Unit}
        {s t : SyncDb}
        → is state_reset x ≡ true
        → Rebuilt normal account kind as' s r t
        → Progress wm e (err x ∷ as') r s t
    stuck :
        {wm : Watermark} {e : Tracker} {x : Err} {cs : ChangeSet} {as' : List Answer} {s : SyncDb}
        → cs.has_more ≡ true
        → cs.new_token ≡ wm.server_state_token
        → check_state_advanced kind wm.server_state_token cs ≡ err x
        → Progress wm e (ok cs ∷ as') (err (failed x)) s s
    cut :
        {wm : Watermark} {e : Tracker} {x : Err} {cs : ChangeSet} {as' : List Answer}
        {r : Result Halt Unit} {s t : SyncDb} (done rest : List Change)
        → changes cs ≡ done ++ rest
        → each (own e cs) done s.mail ≡ ok t.mail
        → t.states ≡ s.states
        → r ≡ err (failed x)
        → Progress wm e (ok cs ∷ as') r s t
    last :
        {wm : Watermark} {e : Tracker} {cs : ChangeSet} {as' : List Answer} {r : Result Halt Unit}
        {s t : SyncDb}
        → cs.has_more ≡ false
        → Landed wm e cs s t
        → r ≡ ok tt
        → Progress wm e (ok cs ∷ as') r s t
    more :
        {wm : Watermark} {e : Tracker} {cs : ChangeSet} {as' : List Answer} {r : Result Halt Unit}
        {s t u : SyncDb}
        → cs.has_more ≡ true
        → (cs.new_token == wm.server_state_token) ≡ false
        → Landed wm e cs s t
        → Progress (next_watermark wm cs) (consumed e cs) as' r t u
        → Progress wm e (ok cs ∷ as') r s u

  checked :
      (token : String) (cs : ChangeSet) (u : Unit)
      → check_state_advanced kind token cs ≡ ok u
      → (cs.has_more ≡ false) ⊎ ((cs.new_token == token) ≡ false)
  unfolding check_state_advanced
  checked token cs u h = ground (arith, h)

  unmoved :
      (token : String) (cs : ChangeSet) (x : Err)
      → check_state_advanced kind token cs ≡ err x
      → (cs.has_more ≡ true) × (cs.new_token ≡ token)
  unfolding check_state_advanced
  unmoved token cs x h = ground (arith, h, string_eq.same_iff cs.new_token token)

  module _ (wm : Watermark) (e : Tracker) (cs : ChangeSet) (as' : List Answer) (k : Cycle Unit)
      (moved : (cs.has_more ≡ false) ⊎ ((cs.new_token == wm.server_state_token) ≡ false))
      (goes_on : (u : World)
        → u.echo ≡ consumed e cs
        → Progress
            (next_watermark wm cs)
            (consumed e cs)
            as'
            (k u).0
            u.store.db
            (k u).1.store.db) where
    abbrev tail : Cycle Unit
    tail = if cs.has_more then k else pure tt

    on_to_at :
        (b : Bool) (s : SyncDb) (u : World)
        → cs.has_more ≡ b
        → u.echo ≡ consumed e cs
        → Landed wm e cs s u.store.db
        → (let m : Cycle Unit = if b then k else pure tt in
            Progress wm e (ok cs ∷ as') (m u).0 s (m u).1.store.db)
    unfolding pure
    on_to_at true s u mores q l = more mores (ground (arith, mores)) l (goes_on u q)
    on_to_at false s u ends q l = last ends l refl

    on_to :
        (s : SyncDb) (u : World)
        → u.echo ≡ consumed e cs
        → Landed wm e cs s u.store.db
        → Progress wm e (ok cs ∷ as') (tail u).0 s (tail u).1.store.db
    on_to s u q l = on_to_at cs.has_more s u refl q l

    saved :
        (s : SyncDb) (v : World)
        → v.echo ≡ consumed e cs
        → each (own e cs) (changes cs) s.mail ≡ ok v.store.db.mail
        → v.store.db.states ≡ s.states
        → (let m = save normal account kind (next_watermark wm cs) >>= λ _. tail in
            Progress wm e (ok cs ∷ as') (m v).0 s (m v).1.store.db)
    unfolding ◌>>=◌ save save_watermark
    saved s v q f g =
        let tx = save_watermark account kind (next_watermark wm cs) in
        elim (bulk tx v) [
          | landed a db h x p ↦
              let done : (v.store.db.mail ≡ db.mail)
                  × (assign (state_key account kind) (next_watermark wm cs) v.store.db.states
                      ≡ db.states) =
                (cc, cc) in
              rw x (
                on_to s (run_bulk_chunks tx v).1 ((bulk-echo tx (consumed e cs)).at v q) (
                  f ∙ ap (λ z. ok z) (done.0 ∙ sym (ap (λ z. z.mail) p)),
                  ap (λ z. z.states) p
                      ∙ sym done.1
                      ∙ ap (λ z. assign (state_key account kind) (next_watermark wm cs) z) g,
                ))
          | stopped y x p ↦ rw x (
              cut (changes cs) [] (sym (append-nil (changes cs)))
                (f ∙ ap (λ z. ok z) (sym (ap (λ z. z.mail) p))) (ap (λ z. z.states) p ∙ g) refl)
        ]

    paged :
        (v : World)
        → v.echo ≡ consumed e cs
        → (let m = apply_change_set normal account kind cs (consume kind cs.new_token e).0 >>= λ _.
              save normal account kind (next_watermark wm cs) >>= λ _. tail in
            Progress wm e (ok cs ∷ as') (m v).0 v.store.db (m v).1.store.db)
    unfolding ◌>>=◌
    paged v q =
        let skip = (consume kind cs.new_token e).0 in
        let after = (apply_change_set normal account kind cs skip v).1 in
        elim (apply_change_set_lem normal account kind skip cs v) [
          | whole m f x p ↦ rw x (
              saved v.store.db after
                ((apply_change_set-echo normal account kind skip (consumed e cs) cs).at v q)
                (f ∙ ap (λ z. ok z) (sym (ap (λ z. z.mail) p))) (ap (λ z. z.states) p))
          | short done rest m y c f x p ↦ rw x (
              cut done rest c (f ∙ ap (λ z. ok z) (sym (ap (λ z. z.mail) p))) (ap (λ z. z.states) p)
                refl)
        ]

  pub sync_pages_lem :
      (as' : List Answer) (wm : Watermark) (w : World)
      → Progress wm w.echo as'
          (sync_pages normal account kind as' wm w).0
          w.store.db
          (sync_pages normal account kind as' wm w).1.store.db
  unfolding sync_pages stop ◌>>=◌ consume_echo
  sync_pages_lem [] wm w = awaits
  sync_pages_lem (err x ∷ as') wm w = elim (Bool-cases (is state_reset x)) [
    | inl yes' ↦ rw (sync_pages, yes') (reset yes' (full_resync_lem normal account kind as' w))
    | inr no' ↦ rw (sync_pages, no') (refused no')
  ]
  sync_pages_lem (ok cs ∷ as') wm w =
      elim (Result-cases (check_state_advanced kind wm.server_state_token cs)) [
        | inl (u, h) ↦
            rw (sync_pages, h)
              (paged wm w.echo cs as' (sync_pages normal account kind as' (next_watermark wm cs))
                (checked wm.server_state_token cs u h)
                (λ v q.
                  subst
                    (λ z.
                      Progress (next_watermark wm cs) z as'
                        (sync_pages normal account kind as' (next_watermark wm cs) v).0 v.store.db
                        (sync_pages normal account kind as' (next_watermark wm cs) v).1.store.db)
                    q (sync_pages_lem as' (next_watermark wm cs) v))
                (record w { echo = consumed w.echo cs }) refl)
        | inr (x, h) ↦
            rw (sync_pages, h)
              (let (mores, same) = unmoved wm.server_state_token cs x h in stuck mores same h)
      ]
