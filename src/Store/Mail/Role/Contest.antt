-- ===== src/Store/Mail/Role/Contest.antt =====
-- The contests of resolveMailboxRoles in internal/store/mailbox_role.go: who wins a group.
use beautiful_aerc.Prelude.{
  ℕ, List, [], ◌∷◌, some, Bool, true, false, not, ◌||◌, ◌≡◌, refl, ap, subst, sym, ◌∙◌, arith, ◌==◌,
  ==→≡, nat_eq, Map, lookup, lookup_or, assign, All, any, if◌then◌else◌, Bool-cases, inl, inr,
}
use beautiful_aerc.Prelude.MapLaws.{lookup-assign}
use beautiful_aerc.Prelude.Rows.{All-imp}
use beautiful_aerc.Store.Mail.{MailboxRole}
use beautiful_aerc.Store.Mail.Role.{
  Candidate, RoleGroups, claim_eq, role_index, resolve_groups, before, min_of,
}
use beautiful_aerc.Store.Mail.Role.Winner.{min_of-All, min_of-least, before-same}
use beautiful_aerc.Store.Mail.Role.Groups.{Claim, lookup_or-cons}

-- the winner of a group has this id
abbrev pub wins : ℕ → List Candidate → Bool
wins i [] = false
wins i (c ∷ cs) = (min_of c cs).id == i

-- what an id is given, where the groups that it wins have one role
pub resolve_groups-wins :
    (i : ℕ) (r : MailboxRole) (gs : RoleGroups) (resolved : Map ℕ MailboxRole)
    → All (λ e. (not (wins i e.1) || (role_index e.0.1 == role_index r)) ≡ true) gs
    → lookup i (resolve_groups gs resolved)
      ≡ (if any (λ e. wins i e.1) gs then some r else lookup i resolved)
unfolding resolve_groups
resolve_groups-wins i r [] resolved h = refl
resolve_groups-wins i r ((key, []) ∷ gs) resolved h = resolve_groups-wins i r gs resolved h.1
resolve_groups-wins i r ((key, c ∷ cs) ∷ gs) resolved h =
    rw
      (
        resolve_groups-wins i r gs (assign (min_of c cs).id key.1 resolved) h.1,
        lookup-assign (min_of c cs).id i key.1 resolved,
      )
      (ground (arith, h.0))

-- a group that its key finds
pub wins-any :
    (i : ℕ) (key : Claim) (gs : RoleGroups)
    → wins i (lookup_or [] key gs) ≡ true
    → any (λ e. wins i e.1) gs ≡ true
wins-any i key [] h = h
wins-any i key ((j, g) ∷ gs) h =
    let found : wins i (if j == key then g else lookup_or [] key gs) ≡ true =
      ap (wins i) (sym (lookup_or-cons j key g gs)) ∙ h in
    ground (arith, found, wins-any i key gs)

-- and of groups that are that one where the id wins them
pub any-wins :
    (i : ℕ) (g : List Candidate) (gs : RoleGroups)
    → wins i g ≡ false
    → All (λ e. wins i e.1 ≡ true → e.1 ≡ g) gs
    → any (λ e. wins i e.1) gs ≡ false
any-wins i g [] n h = refl
any-wins i g ((j, g') ∷ gs) n h = elim (Bool-cases (wins i g')) [
  | inl won ↦ let lost : wins i g' ≡ false = ap (wins i) (h.0 won) ∙ n in ground arith
  | inr lost ↦ rw lost (any-wins i g gs n h.1)
]

any-none :
    (p : Candidate → Bool) (ds : List Candidate) → All (λ d. p d ≡ false) ds → any p ds ≡ false
any-none p [] h = refl
any-none p (d ∷ ds) h = ground (arith, any-none p ds h.1)

any-own : (p : Candidate → Bool) (ds : List Candidate) → All (λ d. p d ≡ true → any p ds ≡ true) ds
any-own p [] = tt
any-own p (d ∷ ds) = (
  λ h. ground arith,
  All-imp (λ e. p e ≡ true → any p ds ≡ true) (λ e. p e ≡ true → any p (d ∷ ds) ≡ true) ds
      (λ e f h. ground (arith, f h)) (any-own p ds),
)

-- a candidate of a list, the only one of its id
module _ (c : Candidate) where
  abbrev pub Alone : Candidate → Type 0
  Alone d = d.id ≡ c.id → d ≡ c

  abbrev pub In : List Candidate → Type 0
  In ds = (p : Candidate → Bool) → p c ≡ true → any p ds ≡ true

  -- it wins where nobody is before it
  pub wins-least :
      (g : List Candidate) → All Alone g → In g → wins c.id g ≡ not (any (λ d. before d c) g)
  wins-least [] alone here = ground (arith, here (λ d. true) refl)
  wins-least (d ∷ ds) alone here =
      let m = min_of d ds in
      let least = min_of-least d ds in
      elim (Bool-cases (m.id == c.id)) [
        | inl won ↦
            let same : m ≡ c = min_of-All Alone d ds alone.0 alone.1 (==→≡ m.id c.id won) in
            rw (
              won,
              any-none (λ e. before e c) (d ∷ ds)
                  (subst (λ w. All (λ e. before e w ≡ false) (d ∷ ds)) same least),
            )
        | inr lost ↦
            let first : before c m ≡ false = elim (Bool-cases (before c m)) [
              | inl sooner ↦
                  ground (
                    arith,
                    here (λ e. before e m) sooner,
                    any-none (λ e. before e m) (d ∷ ds) least,
                  )
              | inr later ↦ later
            ] in
            let rival : before m c ≡ true = elim (Bool-cases (before m c)) [
              | inl sooner ↦ sooner
              | inr later ↦ ground (arith, before-same m c later first, lost)
            ] in
            let among = any-own (λ e. before e c) (d ∷ ds) in
            rw (
              lost,
              min_of-All (λ e. before e c ≡ true → any (λ u. before u c) (d ∷ ds) ≡ true) d ds
                  among.0 among.1 rival,
            )
      ]

  pub wins-claims :
      (q : Candidate → Bool) (g : List Candidate)
      → All (λ d. Alone d × (q d ≡ true)) g
      → wins c.id g ≡ true
      → q c ≡ true
  wins-claims q [] h w = ground arith
  wins-claims q (d ∷ ds) h w =
      let (alone, claimed) = min_of-All (λ e. Alone e × (q e ≡ true)) d ds h.0 h.1 in
      subst (λ e. q e ≡ true) (alone (==→≡ (min_of d ds).id c.id w)) claimed
