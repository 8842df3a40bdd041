-- ===== src/Store/Mail/Mailbox/Written.antt =====
-- The loop of resolveAccountMailboxRoles of internal/store/mailbox_write.go that writes the roles.
use beautiful_aerc.Prelude.{
  ℕ, List, [], ◌∷◌, Option, none, some, Bool, true, false, not, ◌&&◌, ◌||◌, ◌≡◌, refl, ap, sym, ◌∙◌,
  arith, ◌==◌, ==→≡, nat_eq, Map, lookup, All, map_where, if◌then◌else◌, Bool-cases, inl, inr,
}
use beautiful_aerc.Prelude.Rows.{has_id}
use beautiful_aerc.Store.Mail.{MailboxRow, MailboxRole}
use beautiful_aerc.Store.Mail.Role.{Candidate, same_role}
use beautiful_aerc.Store.Mail.Mailbox.{write_roles}

same_role-≡ : (o p : Option MailboxRole) → same_role o p ≡ true → o ≡ p
same_role-≡ none none h = refl
same_role-≡ none (some r) h = ground arith
same_role-≡ (some r) none h = ground arith
same_role-≡ (some r) (some s) h = ground arith

pub map_where-ext :
    (p q : MailboxRow → Bool) (f g : MailboxRow → MailboxRow) (rows : List MailboxRow)
    → All (λ b. (if p b then f b else b) ≡ (if q b then g b else b)) rows
    → map_where p f rows ≡ map_where q g rows
map_where-ext p q f g [] h = refl
map_where-ext p q f g (b ∷ rows) h = rw (h.0, map_where-ext p q f g rows h.1)

map_where-map_where :
    (p q r : MailboxRow → Bool) (f g k : MailboxRow → MailboxRow) (rows : List MailboxRow)
    → ((b : MailboxRow)
        → (if p (if q b then g b else b)
            then f (if q b then g b else b)
            else (if q b then g b else b))
          ≡ (if r b then k b else b))
    → map_where p f (map_where q g rows) ≡ map_where r k rows
map_where-map_where p q r f g k [] h = refl
map_where-map_where p q r f g k (b ∷ rows) h = rw (h b, map_where-map_where p q r f g k rows h)

map_where_none :
    (p : MailboxRow → Bool) (f : MailboxRow → MailboxRow) (rows : List MailboxRow)
    → ((b : MailboxRow) → p b ≡ false)
    → map_where p f rows ≡ rows
map_where_none p f [] h = refl
map_where_none p f (b ∷ rows) h = rw (h b, map_where_none p f rows h)

abbrev pub set_role : Map ℕ MailboxRole → MailboxRow → MailboxRow
set_role resolved b = record b { role = lookup b.id resolved }

written_if :
    (b : MailboxRow) (o : Option MailboxRole)
    → (if not (same_role b.role o) then (record b { role = o }) else b) ≡ record b { role = o }
written_if b o = elim (Bool-cases (same_role b.role o)) [
  | inl same ↦ rw same (ap (λ r. record b { role = r }) (same_role-≡ b.role o same))
  | inr other ↦ rw other
]

write_one :
    (resolved : Map ℕ MailboxRole) (i : ℕ) (cs : List Candidate) (b : MailboxRow)
    → let o = lookup i resolved in
      let b' = if (b.id == i) && not (same_role b.role o) then (record b { role = o }) else b in
      (if has_id (λ c. c.id) b'.id cs then set_role resolved b' else b')
      ≡ (if (i == b.id) || has_id (λ c. c.id) b.id cs then set_role resolved b else b)
write_one resolved i cs b =
    let o = lookup i resolved in
    let then_rest : MailboxRow → MailboxRow =
      λ c. if has_id (λ d. d.id) c.id cs then set_role resolved c else c in
    elim (Bool-cases (b.id == i)) [
      | inl hit ↦
          let flipped : (i == b.id) ≡ true = ground arith in
          let first : (if (b.id == i) && not (same_role b.role o)
                then (record b { role = o })
                else b)
              ≡ set_role resolved b =
            rw hit (
              written_if b o
              ∙ ap (λ j. record b { role = lookup j resolved }) (sym (==→≡ b.id i hit))) in
          ap then_rest first ∙ both (has_id (λ d. d.id) b.id cs) (set_role resolved b) ∙ rw flipped
      | inr miss ↦ let flipped : (i == b.id) ≡ false = ground arith in rw (miss, flipped)
    ]
  where
    both : (h : Bool) (r : MailboxRow) → (if h then r else r) ≡ r
    both true r = refl
    both false r = refl

pub write_roles_lem :
    (resolved : Map ℕ MailboxRole) (cs : List Candidate) (rows : List MailboxRow)
    → write_roles resolved cs rows
      ≡ map_where (λ b. has_id (λ c. c.id) b.id cs) (set_role resolved) rows
write_roles_lem resolved [] rows =
    sym (map_where_none (λ b. false) (set_role resolved) rows (λ b. refl))
write_roles_lem resolved (c ∷ cs) rows =
    let role = lookup c.id resolved in
    write_roles_lem resolved cs (
      map_where (λ b. (b.id == c.id) && not (same_role b.role role)) (λ b. record b { role = role })
        rows)
    ∙ map_where-map_where (λ b. has_id (λ d. d.id) b.id cs)
        (λ b. (b.id == c.id) && not (same_role b.role role)) (λ b. has_id (λ d. d.id) b.id (c ∷ cs))
        (set_role resolved) (λ b. record b { role = role }) (set_role resolved) rows
        (λ b. write_one resolved c.id cs b)
