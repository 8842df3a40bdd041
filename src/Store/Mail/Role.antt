-- ===== src/Store/Mail/Role.antt =====
-- internal/store/mailbox_role.go: the role of a mailbox, and the contest for a role. What lowers a
-- name and trims it, `strings.ToLower` after `strings.TrimSpace`, is a parameter, which gives the runes.
pub mod Fold
pub mod Winner
pub mod Groups
pub mod Contest
pub mod Held
use Prim.Native.Char.{Char, code}
use text.Mathlib.TextBridge.{of_list}
use beautiful_aerc.Prelude.{
  ℕ, String, List, [], ◌∷◌, ◌++◌, Option, none, some, Bool, true, false, ◌&&◌, ◌||◌, ◌≡◌, refl, ◌↔◌,
  arith, ◌==◌, nat_eq, string_eq, Eq, Map, lookup, lookup_or, assign, ltb, if◌then◌else◌,
}
use beautiful_aerc.Store.Mail.{
  MailboxRole, role_archive, role_drafts, role_sent, role_junk, role_trash, role_scheduled,
}

abbrev pub role_index : MailboxRole → ℕ
role_index role_archive = 0
role_index role_drafts = 1
role_index role_sent = 2
role_index role_junk = 3
role_index role_trash = 4
role_index role_scheduled = 5

abbrev pub same_role : Option MailboxRole → Option MailboxRole → Bool
same_role none none = true
same_role (some r) (some s) = role_index r == role_index s
same_role _ _ = false

abbrev pub role_by_name : Map String MailboxRole
role_by_name =
    ("archive", role_archive)
    ∷ ("archives", role_archive)
    ∷ ("all mail", role_archive)
    ∷ ("[gmail]/all mail", role_archive)
    ∷ ("archiv", role_archive)
    ∷ ("drafts", role_drafts)
    ∷ ("draft", role_drafts)
    ∷ ("[gmail]/drafts", role_drafts)
    ∷ ("brouillons", role_drafts)
    ∷ ("borradores", role_drafts)
    ∷ ("entwurfe", role_drafts)
    ∷ ("entwuerfe", role_drafts)
    ∷ ("sent", role_sent)
    ∷ ("sent items", role_sent)
    ∷ ("sent messages", role_sent)
    ∷ ("[gmail]/sent mail", role_sent)
    ∷ ("gesendet", role_sent)
    ∷ ("enviados", role_sent)
    ∷ ("envoyes", role_sent)
    ∷ ("junk", role_junk)
    ∷ ("junk e-mail", role_junk)
    ∷ ("spam", role_junk)
    ∷ ("[gmail]/spam", role_junk)
    ∷ ("posta indesiderata", role_junk)
    ∷ ("correo no deseado", role_junk)
    ∷ ("trash", role_trash)
    ∷ ("deleted items", role_trash)
    ∷ ("deleted messages", role_trash)
    ∷ ("bin", role_trash)
    ∷ ("[gmail]/trash", role_trash)
    ∷ ("papierkorb", role_trash)
    ∷ ("corbeille", role_trash)
    ∷ ("papelera", role_trash)
    ∷ ("cestino", role_trash)
    ∷ ("elements supprimes", role_trash)
    ∷ ("geloschte elemente", role_trash)
    ∷ ("geloeschte elemente", role_trash)
    ∷ ("scheduled", role_scheduled)
    ∷ ("scheduled sends", role_scheduled)
    ∷ ("send later", role_scheduled)
    ∷ []

abbrev pub server_role_to_mailbox_role : Map String MailboxRole
server_role_to_mailbox_role =
    ("archive", role_archive)
    ∷ ("all", role_archive)
    ∷ ("drafts", role_drafts)
    ∷ ("sent", role_sent)
    ∷ ("junk", role_junk)
    ∷ ("trash", role_trash)
    ∷ ("scheduled", role_scheduled)
    ∷ []

abbrev pub diacritic_fold : Map ℕ (List Char)
diacritic_fold =
    (0xe0, "a" ∷ [])
    ∷ (0xe1, "a" ∷ [])
    ∷ (0xe2, "a" ∷ [])
    ∷ (0xe3, "a" ∷ [])
    ∷ (0xe4, "a" ∷ [])
    ∷ (0xe5, "a" ∷ [])
    ∷ (0xe7, "c" ∷ [])
    ∷ (0xe8, "e" ∷ [])
    ∷ (0xe9, "e" ∷ [])
    ∷ (0xea, "e" ∷ [])
    ∷ (0xeb, "e" ∷ [])
    ∷ (0xec, "i" ∷ [])
    ∷ (0xed, "i" ∷ [])
    ∷ (0xee, "i" ∷ [])
    ∷ (0xef, "i" ∷ [])
    ∷ (0xf1, "n" ∷ [])
    ∷ (0xf2, "o" ∷ [])
    ∷ (0xf3, "o" ∷ [])
    ∷ (0xf4, "o" ∷ [])
    ∷ (0xf5, "o" ∷ [])
    ∷ (0xf6, "o" ∷ [])
    ∷ (0xf8, "o" ∷ [])
    ∷ (0xf9, "u" ∷ [])
    ∷ (0xfa, "u" ∷ [])
    ∷ (0xfb, "u" ∷ [])
    ∷ (0xfc, "u" ∷ [])
    ∷ (0xfd, "y" ∷ [])
    ∷ (0xff, "y" ∷ [])
    ∷ (0xdf, "s" ∷ "s" ∷ [])
    ∷ []

-- what is written for a rune
abbrev pub written : Char → Option (List Char) → List Char
written c none = c ∷ []
written c (some s) = s

abbrev pub fold_rune : Char → List Char
fold_rune c = written c (lookup (code c) diacritic_fold)

unfoldable pub fold_runes : List Char → List Char
fold_runes [] = []
fold_runes (c ∷ cs) = fold_rune c ++ fold_runes cs

-- a text is read rune by rune
unfoldable pub fold_diacritics : List Char → String
unfolding fold_runes
fold_diacritics rs = of_list (fold_runes rs)

pub record Candidate : Type 0 where
  pub id : ℕ
  pub account_id : ℕ
  pub server_role : String
  pub name : String

-- `accountRole`
abbrev pub same_claim : ℕ × MailboxRole → ℕ × MailboxRole → Bool
same_claim (a, r) (b, s) = (a == b) && (role_index r == role_index s)

pub same_claim_iff : (p q : ℕ × MailboxRole) → (same_claim p q ≡ true) ↔ (p ≡ q)
same_claim_iff (a, r) (b, s) = ground arith

instance abbrev pub claim_eq : Eq (ℕ × MailboxRole)
claim_eq = record { same = same_claim; same_iff = same_claim_iff }

abbrev pub bool_rank : Bool → ℕ
bool_rank true = 0
bool_rank false = 1

abbrev pub declared : Candidate → Bool
declared c = if c.server_role == "" then false else true

-- the comparison is below 0
abbrev pub before : Candidate → Candidate → Bool
before a b =
    ltb (bool_rank (declared a)) (bool_rank (declared b))
    || ((bool_rank (declared a) == bool_rank (declared b)) && ltb a.id b.id)

-- `slices.MinFunc`, of a first member and the rest
abbrev pub min_of : Candidate → List Candidate → Candidate
min_of c [] = c
min_of c (d ∷ ds) = min_of (if before d c then d else c) ds

abbrev pub RoleGroups : Type 0
RoleGroups = Map (ℕ × MailboxRole) (List Candidate)

-- the loop over the groups, none of which is empty
unfoldable pub resolve_groups : RoleGroups → Map ℕ MailboxRole → Map ℕ MailboxRole
resolve_groups [] resolved = resolved
resolve_groups ((key, []) ∷ gs) resolved = resolve_groups gs resolved
resolve_groups ((key, c ∷ cs) ∷ gs) resolved =
    resolve_groups gs (assign (min_of c cs).id key.1 resolved)

-- into the group of its account and role
abbrev pub add_to : Option MailboxRole → Candidate → RoleGroups → RoleGroups
add_to none c groups = groups
add_to (some r) c groups =
    assign (c.account_id, r) (lookup_or [] (c.account_id, r) groups ++ c ∷ []) groups

module _ (normal : String → List Char) where
  unfoldable pub classify_mailbox_role : String → String → Option MailboxRole
  unfolding fold_diacritics
  classify_mailbox_role server_role name =
      let by_name = lookup (fold_diacritics (normal name)) role_by_name in
      if server_role == "" then by_name else lookup server_role server_role_to_mailbox_role

  abbrev pub add_claim : Candidate → RoleGroups → RoleGroups
  add_claim c groups = add_to (classify_mailbox_role c.server_role c.name) c groups

  unfoldable pub group_by_role : List Candidate → RoleGroups → RoleGroups
  group_by_role [] groups = groups
  group_by_role (c ∷ cs) groups = group_by_role cs (add_claim c groups)

  unfoldable pub resolve_mailbox_roles : List Candidate → Map ℕ MailboxRole
  unfolding group_by_role resolve_groups
  resolve_mailbox_roles cs = resolve_groups (group_by_role cs []) []
