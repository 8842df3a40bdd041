-- ===== src/Sync/Kinds.antt =====
-- internal/sync/sync.go and push.go: the names of the kinds, and the order in which they sync.
pub mod Order
use beautiful_aerc.Prelude.{
  ℕ, Eq, ◌==◌, nat_eq, ◌≡◌, refl, ◌↔◌, arith, String, List, [], ◌∷◌, ◌++◌, Bool, true, false, not,
  filter,
}
use beautiful_aerc.Backend.{ObjectKind, message, mailbox, event, contact}

-- kindName
unfoldable pub kind_name : ObjectKind → String
kind_name message = "message"
kind_name mailbox = "mailbox"
kind_name event = "event"
kind_name contact = "contact"

abbrev pub is_mailbox : ObjectKind → Bool
is_mailbox mailbox = true
is_mailbox _ = false

-- orderKindsForSync, its two loops
unfoldable pub order_kinds_for_sync : List ObjectKind → List ObjectKind
order_kinds_for_sync kinds = filter is_mailbox kinds ++ filter (λ k. not (is_mailbox k)) kinds

-- `==` of two kinds
abbrev pub kind_index : ObjectKind → ℕ
kind_index message = 0
kind_index mailbox = 1
kind_index event = 2
kind_index contact = 3

abbrev pub same_kind : ObjectKind → ObjectKind → Bool
same_kind a b = kind_index a == kind_index b

pub same_kind_iff : (a b : ObjectKind) → (same_kind a b ≡ true) ↔ (a ≡ b)
same_kind_iff a b = ground arith

instance abbrev pub kind_eq : Eq ObjectKind
kind_eq = record { same = same_kind; same_iff = same_kind_iff }
