-- ===== src/Store/Mail/Role/Groups.antt =====
-- The groups of resolveMailboxRoles in internal/store/mailbox_role.go: one for each account and role.
use Prim.Native.Char.{Char}
use mathlib.Core.List.{append_assoc, append-nil}
use beautiful_aerc.Prelude.{
  ℕ, String, List, [], ◌∷◌, ◌++◌, Option, none, some, Bool, true, false, ◌≡◌, refl, ap, subst, sym,
  ◌∙◌, arith, ◌==◌, ==→≡, ==-refl, nat_eq, lookup, lookup_or, assign, filter, All, if◌then◌else◌,
  Bool-cases, inl, inr,
}
use beautiful_aerc.Prelude.MapLaws.{lookup-assign, lookup_or-assign}
use beautiful_aerc.Prelude.Rows.{All-both}
use beautiful_aerc.Store.Mail.{MailboxRole}
use beautiful_aerc.Store.Mail.Role.{
  Candidate, RoleGroups, claim_eq, add_to, group_by_role, classify_mailbox_role,
}

abbrev pub Claim : Type 0
Claim = ℕ × MailboxRole

-- a claimant by the role that it is given
abbrev pub claims_by : Option MailboxRole → Candidate → Claim → Bool
claims_by none c key = false
claims_by (some r) c key = (c.account_id, r) == key

lookup_or-add_to :
    (o : Option MailboxRole) (c : Candidate) (key : Claim) (m : RoleGroups)
    → lookup_or [] key (add_to o c m)
      ≡ lookup_or [] key m ++ (if claims_by o c key then c ∷ [] else [])
lookup_or-add_to none c key m = sym (append-nil (lookup_or [] key m))
lookup_or-add_to (some r) c key m =
    let k : Claim = (c.account_id, r) in
    lookup_or-assign [] k key (lookup_or [] k m ++ c ∷ []) m ∙ elim (Bool-cases (k == key)) [
      | inl same ↦ rw same (ap (λ j. lookup_or [] j m ++ c ∷ []) (==→≡ k key same))
      | inr other ↦ rw other (sym (append-nil (lookup_or [] key m)))
    ]

module _ (normal : String → List Char) where
  abbrev pub role_of : Candidate → Option MailboxRole
  role_of c = classify_mailbox_role normal c.server_role c.name

  abbrev pub claims : Claim → Candidate → Bool
  claims key c = claims_by (role_of c) c key

  pub lookup_or-group_by_role :
      (key : Claim) (cs : List Candidate) (m : RoleGroups)
      → lookup_or [] key (group_by_role normal cs m) ≡ lookup_or [] key m ++ filter (claims key) cs
  unfolding group_by_role
  lookup_or-group_by_role key [] m = sym (append-nil (lookup_or [] key m))
  lookup_or-group_by_role key (c ∷ cs) m =
      let before = lookup_or [] key m in
      let own : List Candidate = if claims key c then c ∷ [] else [] in
      let joined : own ++ filter (claims key) cs ≡ filter (claims key) (c ∷ cs) =
        elim (Bool-cases (claims key c)) [ inl mine ↦ rw mine | inr other ↦ rw other ] in
      lookup_or-group_by_role key cs (add_to (role_of c) c m)
      ∙ ap (λ t. t ++ filter (claims key) cs) (lookup_or-add_to (role_of c) c key m)
      ∙ append_assoc before own (filter (claims key) cs)
      ∙ ap (λ t. before ++ t) joined

-- each key has one entry
abbrev pub UniqueKeys : RoleGroups → Type 0
UniqueKeys [] = Unit
UniqueKeys ((key, g) ∷ m) = (lookup key m ≡ none) × UniqueKeys m

UniqueKeys-assign :
    (key : Claim) (g : List Candidate) (m : RoleGroups) → UniqueKeys m → UniqueKeys (assign key g m)
UniqueKeys-assign key g [] u = (refl, tt)
UniqueKeys-assign key g ((j, h) ∷ m) u = elim (Bool-cases (j == key)) [
  | inl same ↦ rw same (subst (λ k. lookup k m ≡ none) (==→≡ j key same) u.0, u.1)
  | inr other ↦
      let apart : (key == j) ≡ false = ground (arith, ==→≡ key j, ==-refl key) in
      rw other (rw (lookup-assign key j g m, apart) u.0, UniqueKeys-assign key g m u.1)
]

UniqueKeys-add_to :
    (o : Option MailboxRole) (c : Candidate) (m : RoleGroups)
    → UniqueKeys m
    → UniqueKeys (add_to o c m)
UniqueKeys-add_to none c m u = u
UniqueKeys-add_to (some r) c m u =
    UniqueKeys-assign (c.account_id, r) (lookup_or [] (c.account_id, r) m ++ c ∷ []) m u

pub UniqueKeys-group_by_role :
    (normal : String → List Char) (cs : List Candidate) (m : RoleGroups)
    → UniqueKeys m
    → UniqueKeys (group_by_role normal cs m)
unfolding group_by_role
UniqueKeys-group_by_role normal [] m u = u
UniqueKeys-group_by_role normal (c ∷ cs) m u =
    UniqueKeys-group_by_role normal cs (add_to (role_of normal c) c m)
      (UniqueKeys-add_to (role_of normal c) c m u)

pub lookup_or-cons :
    (key k : Claim) (g : List Candidate) (m : RoleGroups)
    → lookup_or [] k ((key, g) ∷ m) ≡ (if key == k then g else lookup_or [] k m)
lookup_or-cons key k g m =
    elim (key == k)
      as (λ b.
        (elim (if b then some g else lookup k m) [ none ↦ [] | some v ↦ v ])
        ≡ (if b then g else lookup_or [] k m)) [ true ↦ refl | false ↦ refl ]

-- an entry is what its key finds
pub entries : (m : RoleGroups) → UniqueKeys m → All (λ e. lookup_or [] e.0 m ≡ e.1) m
entries [] u = tt
entries ((key, g) ∷ m) u = (
  rw (lookup_or-cons key key g m, ==-refl key),
  All-both (λ e. lookup_or [] e.0 m ≡ e.1) (λ e. (key == e.0) ≡ false)
      (λ e. lookup_or [] e.0 ((key, g) ∷ m) ≡ e.1) m
      (λ e found apart. rw (lookup_or-cons key e.0 g m, apart) found) (entries m u.1)
      (apart_from m u.0),
)
  where
    apart_from : (n : RoleGroups) → lookup key n ≡ none → All (λ e. (key == e.0) ≡ false) n
    apart_from [] h = tt
    apart_from ((j, g') ∷ n) h = elim (Bool-cases (j == key)) [
      | inl same ↦ ground arith
      | inr other ↦ (ground (arith, ==→≡ key j, ==-refl key), apart_from n (rw other at h))
    ]
