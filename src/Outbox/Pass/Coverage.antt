-- ===== src/Outbox/Pass/Coverage.antt =====
-- The write that a pass of internal/outbox/dispatch.go owes each claimed intent.
use mathlib.Core.List.{append-nil, append_assoc}
use beautiful_aerc.Prelude.Listed.{listed, listed-append, listed-middle}
use beautiful_aerc.Prelude.{
  ℕ, List, [], ◌∷◌, ◌++◌, map, Map, lookup_or, ◌≡◌, refl, sym, ap, ◌∙◌, ◌⊎◌, inl, inr, Bool, true,
  false, ◌||◌, nat_eq, All, arith,
}
use beautiful_aerc.Outbox.Payload.{
  create_mailbox, rename_mailbox, delete_mailbox, move_messages, unknown, Kind,
}
use beautiful_aerc.Outbox.Claim.{Claimed}
use beautiful_aerc.Outbox.Outcome.{Outcome, delivered, terminal_outcome}
use beautiful_aerc.Outbox.World.{Dispatcher, World}
use beautiful_aerc.Outbox.Create.Subject.{
  About, failed_outcome-About, dispatch_create_mailbox-About, dispatch_rename_mailbox-About,
  dispatch_delete_mailbox-About,
}
use beautiful_aerc.Outbox.Move.Subject.{dispatch_move_messages-About}
use beautiful_aerc.Outbox.Batch.Subject.{subjects, dispatch_batch-Whole}
use beautiful_aerc.Outbox.Pass.{
  FinalizeAction, delete, revert, Pass, has_action, plain_action, action_of, report, record_outcome,
  record_outcomes, dispatch_by, dispatch_one, switch, dispatched, turn_by, outcomes, turn, turns,
}

abbrev pub action_ids : List FinalizeAction → List ℕ
action_ids = map (λ a. a.id)

pub action_ids-append :
    (as' bs : List FinalizeAction) → action_ids (as' ++ bs) ≡ action_ids as' ++ action_ids bs
action_ids-append [] bs = refl
action_ids-append (a ∷ as') bs = ap (λ t. a.id ∷ t) (action_ids-append as' bs)

has_action-append :
    (i : ℕ) (as' bs : List FinalizeAction)
    → has_action i (as' ++ bs) ≡ (has_action i as' || has_action i bs)
has_action-append i [] bs = refl
has_action-append i (a ∷ as') bs = ground (arith, has_action-append i as' bs)

module _ {B : Type 0} where
  -- the ids of the intents that outcomes are about
  abbrev pub outcome_ids : List (Outcome B) → List ℕ
  outcome_ids os = map (λ c. c.id) (subjects os)

  -- the action that an outcome adds
  abbrev pub owed : Outcome B → FinalizeAction
  owed o = elim o.disposition [ delivered ↦ plain_action o.c.id delete | _ ↦ action_of o ]

  id-owed : (o : Outcome B) → (owed o).id ≡ o.c.id
  unfolding action_of
  id-owed o = ground arith

module _ {B S : Type 0} where
  pub actions-record_outcome :
      (o : Outcome B) (p : Pass) (w : World B S)
      → (record_outcome o (p, w)).0.actions ≡ p.actions ++ owed o ∷ []
  unfolding record_outcome report
  actions-record_outcome o p w = ground arith

  -- every outcome adds one action, for its own intent
  pub ids-record_outcomes :
      (os : List (Outcome B)) (s : Pass × World B S)
      → action_ids (record_outcomes os s).0.actions ≡ action_ids s.0.actions ++ outcome_ids os
  unfolding record_outcomes
  ids-record_outcomes [] s = sym (append-nil _)
  ids-record_outcomes (o ∷ os) s = rw (
    ids-record_outcomes os (record_outcome o s),
    actions-record_outcome o s.0 s.1,
    action_ids-append s.0.actions (owed o ∷ []),
    id-owed o,
    append_assoc,
  )

pub has_action-eq-listed :
    (i : ℕ) (as' : List FinalizeAction) → has_action i as' ≡ listed i (action_ids as')
has_action-eq-listed i [] = refl
has_action-eq-listed i (a ∷ as') = ground (arith, has_action-eq-listed i as')

module _ {B S : Type 0} (d : Dispatcher B S) where
  dispatch_by-About : (k : Kind) (c : Claimed B) (w : World B S) → About c (dispatch_by d k c w).0
  unfolding dispatch_by terminal_outcome
  dispatch_by-About create_mailbox c w = dispatch_create_mailbox-About d c w
  dispatch_by-About rename_mailbox c w = dispatch_rename_mailbox-About d c w
  dispatch_by-About delete_mailbox c w = dispatch_delete_mailbox-About d c w
  dispatch_by-About move_messages c w = dispatch_move_messages-About d c w
  dispatch_by-About (unknown k) c w = refl

  pub dispatch_one-About : (c : Claimed B) (w : World B S) → About c (dispatch_one d c w).0
  unfolding dispatch_one
  dispatch_one-About c w = dispatch_by-About c.kind c w

  module _ (groups : Map ℕ (List (Claimed B))) where
    abbrev pub companions : Claimed B → List (Claimed B)
    companions c = lookup_or [] c.id groups

    -- A turn's outcomes: the intent alone, or with all the moves of its batch.
    abbrev pub TurnOf : Claimed B → List (Outcome B) → Type 0
    TurnOf c os = (subjects os ≡ c ∷ []) ⊎ (subjects os ≡ c ∷ companions c)

    subjects-switch :
        (pre : Bool) (moves : List (Claimed B)) (c : Claimed B) (w : World B S)
        → (subjects (switch d pre moves c w).0 ≡ c ∷ [])
          ⊎ (subjects (switch d pre moves c w).0 ≡ c ∷ moves)
    unfolding switch
    subjects-switch true moves c w = inl (ap (λ t. t ∷ []) (failed_outcome-About c _ _))
    subjects-switch false [] c w = inl (ap (λ t. t ∷ []) (dispatch_one-About c w))
    subjects-switch false (mv ∷ mvs) c w = inr (dispatch_batch-Whole d c (mv ∷ mvs) w)

    pub subjects-outcomes : (c : Claimed B) (w : World B S) → TurnOf c (outcomes d groups c w).0
    unfolding outcomes
    subjects-outcomes c w = subjects-switch c.pre_failed (companions c) c w

    -- What a turn adds to the pass's actions.
    abbrev Added : Claimed B → List ℕ → Type 0
    Added c new = (new ≡ []) ⊎ ((new ≡ c.id ∷ []) ⊎ (new ≡ c.id ∷ map (λ mv. mv.id) (companions c)))

    ids_of_turn : (c : Claimed B) (os : List (Outcome B)) → TurnOf c os → Added c (outcome_ids os)
    ids_of_turn c os (inl e) = inr (inl (rw e))
    ids_of_turn c os (inr e) = inr (inr (rw e))

    listed_of_turn :
        (c : Claimed B) (os : List (Outcome B)) (js : List ℕ)
        → TurnOf c os
        → listed c.id (js ++ outcome_ids os) ≡ true
    listed_of_turn c os js (inl e) = rw e (listed-middle c.id js [])
    listed_of_turn c os js (inr e) = rw e (listed-middle c.id js (map (λ mv. mv.id) (companions c)))

    abbrev ids : Pass × World B S → List ℕ
    ids s = action_ids s.0.actions

    -- the turn leaves its intent with an action, and adds at most those of its batch
    TurnAdds : Claimed B → Pass × World B S → Pass × World B S → Type 0
    TurnAdds c s t =
        (new : List ℕ) × (ids t ≡ ids s ++ new) × Added c new × (listed c.id (ids t) ≡ true)

    adds-turn_by :
        (done stopped : Bool) (c : Claimed B) (s : Pass × World B S)
        → has_action c.id s.0.actions ≡ done
        → TurnAdds c s (turn_by d done stopped groups c s)
    unfolding turn_by dispatched TurnAdds
    adds-turn_by true stopped c s h =
        ([], sym (append-nil _), inl refl, sym (has_action-eq-listed c.id s.0.actions) ∙ h)
    adds-turn_by false true c s h = (
      c.id ∷ [],
      action_ids-append s.0.actions (plain_action c.id revert ∷ []),
      inr (inl refl),
      rw (action_ids-append s.0.actions (plain_action c.id revert ∷ []))
          (listed-middle c.id (ids s) []),
    )
    adds-turn_by false false c s h =
        let (os, w') = outcomes d groups c s.1 in
        let about = subjects-outcomes c s.1 in
        let e = ids-record_outcomes os (s.0, w') in
        (outcome_ids os, e, ids_of_turn c os about, rw e (listed_of_turn c os (ids s) about))

    adds-turn : (c : Claimed B) (s : Pass × World B S) → TurnAdds c s (turn d groups c s)
    unfolding turn
    adds-turn c s = adds-turn_by (has_action c.id s.0.actions) s.0.stopped c s refl

    -- what a pass has listed stays listed
    listed-turn :
        (i : ℕ) (c : Claimed B) (s : Pass × World B S)
        → listed i (ids s) ≡ true
        → listed i (ids (turn d groups c s)) ≡ true
    unfolding TurnAdds
    listed-turn i c s h =
        let (new, e, _, _) = adds-turn c s in rw (e, listed-append i (ids s) new, h)

    listed-turns :
        (i : ℕ) (cs : List (Claimed B)) (s : Pass × World B S)
        → listed i (ids s) ≡ true
        → listed i (ids (turns d groups cs s)) ≡ true
    unfolding turns
    listed-turns i [] s h = h
    listed-turns i (c ∷ cs) s h = listed-turns i cs (turn d groups c s) (listed-turn i c s h)

    -- After the turns of a pass every claimed intent has an action: to delete it, to requeue it, or
    -- to revert it.
    pub turns-cover :
        (cs : List (Claimed B)) (s : Pass × World B S)
        → All (λ c. has_action c.id (turns d groups cs s).0.actions ≡ true) cs
    unfolding turns TurnAdds
    turns-cover [] s = tt
    turns-cover (c ∷ cs) s = (
      has_action-eq-listed c.id (turns d groups (c ∷ cs) s).0.actions
          ∙ listed-turns c.id cs (turn d groups c s) (adds-turn c s).3,
      turns-cover cs (turn d groups c s),
    )
