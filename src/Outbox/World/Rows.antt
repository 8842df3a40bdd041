-- ===== src/Outbox/World/Rows.antt =====
-- What the dispatch functions of internal/outbox/dispatch.go do to the outbox table: the rules for a predicate
-- `J` of the table, given what a new payload keeps of it.
use beautiful_aerc.Prelude.{
  ℕ, zero, suc, ◌+◌, String, List, [], ◌∷◌, Option, none, some, ◌≡◌, Result, ok, and_then-eq-ok,
  Exec, not, ◌==◌, nat_eq, string_eq, ◌||◌, Bool-cases, inl, inr, arith, length, subst,
}
use beautiful_aerc.Prelude.Keeps.{Keeps, Keeps-modify, Keeps-pure, Keeps-if, Keeps-bind}
use beautiful_aerc.Uerr.{Err}
use beautiful_aerc.Store.{Store}
use beautiful_aerc.Store.Transactions.{apply_interactive-keeps}
use beautiful_aerc.Outbox.Payload.{Json}
use beautiful_aerc.Outbox.Row.{Row, Db, update_payload, select_page}
use beautiful_aerc.Outbox.Dependents.{
  rewrite_ref, patch_row, patch_rows, patch_page, resolve_loop, resolve_dependent_refs,
  dependent_ref_page,
}
use beautiful_aerc.Outbox.World.{World, call, on_store, note_resolved}

module _ {B : Type 0} (J : List (Row B) → Type 0)
    (patch : (id : ℕ) (b : B) (rows : List (Row B)) → J rows → J (update_payload id b rows)) where
  module _ (json : Json B) (account_id create_id : ℕ) (new_id : String) where
    patched :
        (r : Row B) (o : Option B) (rows : List (Row B))
        → J rows
        → J (elim o [ none ↦ rows | some b ↦ update_payload r.id b rows ])
    patched r none rows j = j
    patched r (some b) rows j = patch r.id b rows j

    patch_row-keeps :
        (r : Row B) (rows rows' : List (Row B))
        → patch_row json account_id create_id new_id r rows ≡ ok rows'
        → J rows
        → J rows'
    unfolding patch_row
    patch_row-keeps r rows rows' h j =
        elim (Bool-cases (not (r.account_id == account_id) || r.id == create_id)) [
          | inl other ↦ let e = rw other at h in subst J (ground arith) j
          | inr own ↦
              let (o, _, e) =
                and_then-eq-ok (rewrite_ref json r create_id new_id) _ (rw own at h) in
              subst J (ground arith) (patched r o rows j)
        ]

    patch_rows-keeps :
        (page rows rows' : List (Row B))
        → patch_rows json account_id create_id new_id page rows ≡ ok rows'
        → J rows
        → J rows'
    unfolding patch_rows
    patch_rows-keeps [] rows rows' h j = subst J (ground arith) j
    patch_rows-keeps (r ∷ rs) rows rows' h j =
        let (mid, first, rest) =
          and_then-eq-ok (patch_row json account_id create_id new_id r rows) _ h in
        patch_rows-keeps rs mid rows' rest (patch_row-keeps r rows mid first j)

    abbrev KeepsStore : {E A : Type 0} → Exec (Store (Db B)) E A → Type 0
    KeepsStore = Keeps (λ s. J s.db.rows)

    pub patch_page-keeps :
        (after : ℕ) (a : ℕ × ℕ) (db db' : Db B)
        → patch_page json account_id create_id new_id after db ≡ ok (a, db')
        → J db.rows
        → J db'.rows
    unfolding patch_page
    patch_page-keeps after a db db' h j =
        let page = select_page after dependent_ref_page db.rows in
        let (rows, e, h') =
          and_then-eq-ok (patch_rows json account_id create_id new_id page db.rows) _ h in
        subst J (ground arith) (patch_rows-keeps page db.rows rows e j)

    resolve_loop-Keeps :
        (fuel after : ℕ) → KeepsStore (resolve_loop json fuel account_id create_id new_id after)
    unfolding resolve_loop
    resolve_loop-Keeps zero after = Keeps-pure tt
    resolve_loop-Keeps (suc fuel) after =
        Keeps-bind _ _
          (record {
            at = λ s.
                apply_interactive-keeps (λ db. J db.rows)
                  (patch_page json account_id create_id new_id after) s
                  (λ a db. patch_page-keeps after a s.db db);
          })
          λ seen. Keeps-if (seen.1 == 0) _ _ (Keeps-pure tt) (resolve_loop-Keeps fuel seen.0)

    pub resolve_dependent_refs-Keeps :
        KeepsStore (resolve_dependent_refs json account_id create_id new_id)
    unfolding resolve_dependent_refs
    resolve_dependent_refs-Keeps = record {
      at = λ s. (resolve_loop-Keeps (length s.db.rows + 1) 0).at s;
    }

  module _ {S : Type 0} where
    abbrev pub KeepsRows : {E A : Type 0} → Exec (World B S) E A → Type 0
    KeepsRows = Keeps (λ w. J w.store.db.rows)

    pub call-Keeps : {A : Type 0} (f : S → Result Err A × S) → KeepsRows (call f)
    call-Keeps f = record { at = λ w j. j }

    pub on_store-Keeps :
        {A : Type 0} (f : Store (Db B) → Result Err A × Store (Db B))
        → Keeps (λ s. J s.db.rows) f
        → KeepsRows (on_store f)
    on_store-Keeps f h = record { at = λ w. h.at w.store }

    pub note_resolved-Keeps :
        {E : Type 0} (id : ℕ) (server_id : String) → KeepsRows {E = E} (note_resolved id server_id)
    unfolding note_resolved
    note_resolved-Keeps id server_id = Keeps-modify _ (λ w j. j)
