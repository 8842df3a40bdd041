-- ===== src/Sync/Kinds/Order.antt =====
-- The order that orderKindsForSync of internal/sync/push.go gives.
use mathlib.Core.List.{Perm, perm_middle}
use mathlib.Core.List.Perm
use beautiful_aerc.Prelude.{
  List, [], ◌∷◌, ◌++◌, Bool, true, false, not, filter, ◌≡◌, All, Bool-cases, inl, inr, ◌⊎◌,
}
use beautiful_aerc.Backend.{ObjectKind}
use beautiful_aerc.Sync.Kinds.{is_mailbox, order_kinds_for_sync}

-- no mailbox after another kind
abbrev pub MailboxFirst : List ObjectKind → Type 0
MailboxFirst [] = Unit {0}
MailboxFirst (k ∷ ks) =
    ((is_mailbox k ≡ true) ⊎ All (λ j. is_mailbox j ≡ false) ks) × MailboxFirst ks

parted-perm :
    (p : ObjectKind → Bool) (ks : List ObjectKind)
    → Perm (filter p ks ++ filter (λ k. not (p k)) ks) ks
parted-perm p [] = Perm.refl []
parted-perm p (k ∷ ks) = elim (Bool-cases (p k)) [
  | inl yes' ↦ rw yes' (Perm.cons k (parted-perm p ks))
  | inr no' ↦ rw no' (
      Perm.trans (perm_middle (filter p ks) (filter (λ k. not (p k)) ks))
        (Perm.cons k (parted-perm p ks)))
]

others :
    (ks : List ObjectKind) → All (λ j. is_mailbox j ≡ false) (filter (λ k. not (is_mailbox k)) ks)
others [] = tt
others (k ∷ ks) = elim (Bool-cases (is_mailbox k)) [
  | inl m ↦ rw m (others ks)
  | inr o ↦ rw o (o, others ks)
]

others-MailboxFirst : (ks : List ObjectKind) → All (λ j. is_mailbox j ≡ false) ks → MailboxFirst ks
others-MailboxFirst [] h = tt
others-MailboxFirst (k ∷ ks) h = (inr h.1, others-MailboxFirst ks h.1)

parted-MailboxFirst :
    (ks rest : List ObjectKind)
    → All (λ j. is_mailbox j ≡ false) rest
    → MailboxFirst (filter is_mailbox ks ++ rest)
parted-MailboxFirst [] rest h = others-MailboxFirst rest h
parted-MailboxFirst (k ∷ ks) rest h = elim (Bool-cases (is_mailbox k)) [
  | inl m ↦ rw m (inl m, parted-MailboxFirst ks rest h)
  | inr o ↦ rw o (parted-MailboxFirst ks rest h)
]

-- The kinds sync in an order that has each of them as often as it was asked for, and no mailbox
-- kind after another kind.
pub order_kinds_for_sync-perm :
    (ks : List ObjectKind)
    → Perm (order_kinds_for_sync ks) ks × MailboxFirst (order_kinds_for_sync ks)
unfolding order_kinds_for_sync
order_kinds_for_sync-perm ks = (parted-perm is_mailbox ks, parted-MailboxFirst ks _ (others ks))
