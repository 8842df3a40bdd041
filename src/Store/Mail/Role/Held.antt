-- ===== src/Store/Mail/Role/Held.antt =====
-- resolveMailboxRoles of internal/store/mailbox_role.go, against who may hold a role.
use Prim.Native.Char.{Char}
use beautiful_aerc.Prelude.{
  String, List, [], ◌∷◌, Option, none, some, true, false, not, ◌&&◌, ◌||◌, ◌≡◌, refl, ap, sym, ◌∙◌,
  arith, ◌==◌, ==→≡, ==-refl, nat_eq, lookup, lookup_or, filter, All, any, if◌then◌else◌,
  Bool-cases, inl, inr,
}
use beautiful_aerc.Prelude.Rows.{
  All-imp, All-both, All-filter, All-filter-true, any-filter, Distinct, has_id,
}
use beautiful_aerc.Store.Mail.{MailboxRole, role_archive}
use beautiful_aerc.Store.Mail.Role.{
  Candidate, claim_eq, role_index, group_by_role, resolve_mailbox_roles, before,
}
use beautiful_aerc.Store.Mail.Role.Groups.{
  Claim, claims_by, role_of, claims, lookup_or-group_by_role, UniqueKeys-group_by_role, entries,
}
use beautiful_aerc.Store.Mail.Role.Contest.{
  wins, resolve_groups-wins, wins-any, any-wins, Alone, In, wins-least, wins-claims,
}

members : (cs : List Candidate) → Distinct (λ c. c.id) cs → All (λ c. All (Alone c) cs × In c cs) cs
members [] d = tt
members (c ∷ cs) d = (
  (
    (
      λ h. refl,
      All-imp (λ e. (e.id == c.id) ≡ false) (Alone c) cs (λ e apart h. ground arith)
          (unlike_head cs d.0),
    ),
    λ p h. ground arith,
  ),
  All-both (λ e. All (Alone e) cs × In e cs) (λ e. (e.id == c.id) ≡ false)
      (λ e. All (Alone e) (c ∷ cs) × In e (c ∷ cs)) cs
      (λ e h apart. ((λ same. ground arith, h.0), λ p q. ground (arith, h.1 p q))) (members cs d.1)
      (unlike_head cs d.0),
)
  where
    unlike_head :
        (es : List Candidate)
        → has_id (λ e. e.id) c.id es ≡ false
        → All (λ e. (e.id == c.id) ≡ false) es
    unlike_head [] h = tt
    unlike_head (e ∷ es) h = (ground arith, unlike_head es (ground arith))

module _ (normal : String → List Char) where
  -- the role that a candidate claims, unless another claimant of its account is before it
  abbrev pub held_by : Option MailboxRole → Candidate → List Candidate → Option MailboxRole
  held_by none c cs = none
  held_by (some r) c cs =
      if any (λ d. claims normal (c.account_id, r) d && before d c) cs then none else some r

  abbrev pub held : Candidate → List Candidate → Option MailboxRole
  held c cs = held_by (role_of normal c) c cs

  module _ (c : Candidate) (cs : List Candidate) (alone : All (Alone c) cs) (here : In c cs) where
    -- each group is of those who claim its key
    groups : All (λ e. e.1 ≡ filter (claims normal e.0) cs) (group_by_role normal cs [])
    groups =
        let gs = group_by_role normal cs [] in
        All-imp (λ e. lookup_or [] e.0 gs ≡ e.1) (λ e. e.1 ≡ filter (claims normal e.0) cs) gs
          (λ e found. sym found ∙ lookup_or-group_by_role normal e.0 cs [])
          (entries gs (UniqueKeys-group_by_role normal cs [] tt))

    -- it wins only a group that it is in
    claimed :
        (e : Claim × List Candidate)
        → e.1 ≡ filter (claims normal e.0) cs
        → wins c.id e.1 ≡ true
        → claims normal e.0 c ≡ true
    claimed e same w =
        wins-claims c (claims normal e.0) (filter (claims normal e.0) cs)
          (All-filter-true (Alone c) (claims normal e.0) cs alone) (ap (wins c.id) (sym same) ∙ w)

    wins-own :
        (key : Claim)
        → claims normal key c ≡ true
        → wins c.id (filter (claims normal key) cs)
          ≡ not (any (λ d. claims normal key d && before d c) cs)
    wins-own key mine =
        wins-least c (filter (claims normal key) cs)
          (All-filter (Alone c) (claims normal key) cs alone)
          (λ p h.
            any-filter p (claims normal key) cs
            ∙ here (λ d. claims normal key d && p d) (ground arith))
        ∙ ap not (any-filter (λ d. before d c) (claims normal key) cs)

    key_of :
        (r : MailboxRole)
        → role_of normal c ≡ some r
        → (g : Claim × List Candidate) → g.1 ≡ filter (claims normal g.0) cs
        → wins c.id g.1 ≡ true
        → (c.account_id, r) ≡ g.0
    key_of r e g same won =
        ==→≡ (c.account_id, r) g.0 (sym (ap (λ o. claims_by o c g.0) e) ∙ claimed g same won)

    lookup-resolve_mailbox_roles :
        (o : Option MailboxRole)
        → role_of normal c ≡ o
        → lookup c.id (resolve_mailbox_roles normal cs) ≡ held_by o c cs
    unfolding resolve_mailbox_roles
    lookup-resolve_mailbox_roles none e =
        let gs = group_by_role normal cs [] in
        let lost : All (λ g. wins c.id g.1 ≡ false) gs =
          All-imp (λ g. g.1 ≡ filter (claims normal g.0) cs) (λ g. wins c.id g.1 ≡ false) gs
            (λ g same. elim (Bool-cases (wins c.id g.1)) [
              | inl won ↦
                  let no = ap (λ o. claims_by o c g.0) e in ground (arith, claimed g same won)
              | inr lost ↦ lost
            ])
            groups in
        rw (
          resolve_groups-wins c.id role_archive gs [] (
              All-imp (λ g. wins c.id g.1 ≡ false)
                (λ g. (not (wins c.id g.1) || (role_index g.0.1 == role_index role_archive)) ≡ true)
                gs (λ g h. rw h) lost),
          any-wins c.id [] gs refl (
              All-imp (λ g. wins c.id g.1 ≡ false) (λ g. wins c.id g.1 ≡ true → g.1 ≡ []) gs
                (λ g h won. ground arith) lost),
        )
    lookup-resolve_mailbox_roles (some r) e =
        let gs = group_by_role normal cs [] in
        let key : Claim = (c.account_id, r) in
        let mine : claims normal key c ≡ true = ap (λ o. claims_by o c key) e ∙ ==-refl key in
        let of_key = key_of r e in
        let keyed = resolve_groups-wins c.id r gs [] (
          All-imp (λ g. g.1 ≡ filter (claims normal g.0) cs)
            (λ g. (not (wins c.id g.1) || (role_index g.0.1 == role_index r)) ≡ true) gs
            (λ g same. elim (Bool-cases (wins c.id g.1)) [
              | inl won ↦ rw (won, ← of_key g same won) (==-refl (role_index r))
              | inr lost ↦ rw lost
            ])
            groups) in
        let only = any-wins c.id (filter (claims normal key) cs) gs in
        let own = wins-own key mine in
        let found = wins-any c.id key gs in
        elim (Bool-cases (any (λ d. claims normal key d && before d c) cs)) [
          | inl rival ↦ rw (
            keyed,
            rival,
            only (rw (own, rival)) (
                All-imp (λ g. g.1 ≡ filter (claims normal g.0) cs)
                  (λ g. wins c.id g.1 ≡ true → g.1 ≡ filter (claims normal key) cs) gs
                  (λ g same won.
                    same ∙ ap (λ k. filter (claims normal k) cs) (sym (of_key g same won)))
                  groups),
          )
          | inr first ↦
              rw (keyed, first, found (rw (lookup_or-group_by_role normal key cs [], own, first)))
        ]

  -- Where no two candidates have one id, each is given the role that it claims exactly where no other
  -- claimant of the role in its account is before it, and no role else.
  pub resolve_mailbox_roles-held :
      (cs : List Candidate)
      → Distinct (λ c. c.id) cs
      → All (λ c. lookup c.id (resolve_mailbox_roles normal cs) ≡ held c cs) cs
  resolve_mailbox_roles-held cs d =
      All-imp (λ c. All (Alone c) cs × In c cs)
        (λ c. lookup c.id (resolve_mailbox_roles normal cs) ≡ held c cs) cs
        (λ c h. lookup-resolve_mailbox_roles c cs h.0 h.1 (role_of normal c) refl) (members cs d)
