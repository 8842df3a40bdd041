-- ===== src/Outbox/Finalize/Once.antt =====
-- What DispatchOnce of internal/outbox/dispatch.go leaves dispatching.
use beautiful_aerc.Prelude.{
  ℕ, List, [], ◌∷◌, ◌≡◌, sym, subst, inl, inr, Result, ok, err, pure, continue, ◌>>=◌, Bool, true,
  false, nat_eq, All, arith, if◌then◌else◌,
}
use beautiful_aerc.Prelude.Listed.{listed}
use beautiful_aerc.Uerr.{Err}
use beautiful_aerc.Store.{Store}
use beautiful_aerc.Store.Transactions.{Transacted, committed, rolled_back, transacted, query-keeps}
use beautiful_aerc.Outbox.Row.{Db}
use beautiful_aerc.Outbox.Row.Accounted.{
  Accounted, AllQueued, Accounted-nil, Accounted-weaken, Accounted-update_payload,
}
use beautiful_aerc.Outbox.Claim.{Claimed, claim}
use beautiful_aerc.Outbox.Claim.Accounted.{claimed_ids, claim-Accounted}
use beautiful_aerc.Outbox.World.{Dispatcher, World, transact}
use beautiful_aerc.Outbox.Pass.{FinalizeAction, Pass, has_action, turns}
use beautiful_aerc.Outbox.Pass.Coverage.{action_ids, has_action-eq-listed, turns-cover}
use beautiful_aerc.Outbox.Pass.Rows.{turns-keeps}
use beautiful_aerc.Outbox.Finalize.{
  DispatchResult, no_result, finalize, has_eligible_intents, start_pass, run_pass, end_pass,
  finish_pass, claim_and_finish, dispatch_once,
}
use beautiful_aerc.Outbox.Finalize.Released.{Released, finalize-Released}

ok-injective : {E A : Type 0} {a a' : A} → ◌≡◌ {A = Result E A} (ok a) (ok a') → a ≡ a'
ok-injective h = cc

module _ {B : Type 0} where
  Released-continue :
      {S A C : Type 0} (r : Result Err A) (c : C) (w : World B S)
      → Released r w.store.db.rows
      → Released (continue r (λ _. pure c) w).0 (continue r (λ _. pure c) w).1.store.db.rows
  unfolding pure
  Released-continue (ok a) c w (inl q) = inl q
  Released-continue (ok a) c w (inr (e, e', h)) = ground arith
  Released-continue (err e1) c w (inl q) = inl q
  Released-continue (err e1) c w (inr (e, e', h)) = inr (e, e', cc)

  module _ {S : Type 0} (d : Dispatcher B S) where
    abbrev KeepsReleased : (World B S → Result Err DispatchResult × World B S) → World B S → Type 0
    KeepsReleased m w = Released (m w).0 (m w).1.store.db.rows

    end_pass-Released :
        (now : ℕ) (p : Pass) (w : World B S)
        → Accounted (action_ids p.actions) w.store.db.rows
        → KeepsReleased (end_pass d now p) w
    unfolding end_pass ◌>>=◌
    end_pass-Released now p w h =
        let (r, s') = finalize p.actions now w.store in
        Released-continue r _ (record w { store = s' }) (finalize-Released p.actions now w.store h)

    listed_of_cover :
        (cs : List (Claimed B)) (as' : List FinalizeAction) (i : ℕ)
        → All (λ c. has_action c.id as' ≡ true) cs
        → listed i (claimed_ids cs) ≡ true
        → listed i (action_ids as') ≡ true
    listed_of_cover [] as' i a h = ground arith
    listed_of_cover (c ∷ cs) as' i a h =
        ground (arith, listed_of_cover cs as' i a.1, a.0, has_action-eq-listed i as')

    -- After a pass its actions answer for whatever is still dispatching.
    pass_Accounted :
        (groups : _) (cs : List (Claimed B)) (s : Pass × World B S)
        → Accounted (claimed_ids cs) s.1.store.db.rows
        → Accounted
            (action_ids (turns d groups cs s).0.actions)
            (turns d groups cs s).1.store.db.rows
    pass_Accounted groups cs s h =
        let as' = (turns d groups cs s).0.actions in
        Accounted-weaken (claimed_ids cs) (action_ids as') _
          (λ i. listed_of_cover cs as' i (turns-cover d groups cs s))
          (turns-keeps (Accounted (claimed_ids cs)) (Accounted-update_payload (claimed_ids cs)) d
            groups cs s h)

    finish_pass-Released :
        (now : ℕ) (cs : List (Claimed B)) (w : World B S)
        → Accounted (claimed_ids cs) w.store.db.rows
        → KeepsReleased (finish_pass d now cs) w
    unfolding finish_pass run_pass ◌>>=◌
    finish_pass-Released now [] w h = inl (Accounted-nil _ h)
    finish_pass-Released now (c ∷ cs) w h =
        let (p, w') = run_pass d (c ∷ cs) w in
        end_pass-Released now p w'
          (pass_Accounted _ (c ∷ cs) (start_pass d, record w { resolved = [] }) h)

    claim_step :
        (now : ℕ) (w : World B S) (r : Result Err (List (Claimed B))) (t : Store (Db B))
        → Transacted (claim d.json d.account_id now) w.store r t
        → AllQueued w.store.db.rows
        → KeepsReleased (λ w. continue r (finish_pass d now) (record w { store = t })) w
    claim_step now w (ok cs) t (committed a db ran q same v) h =
        finish_pass-Released now cs (record w { store = t })
          (subst (λ a. Accounted (claimed_ids a) t.db.rows) (ok-injective (sym q))
            (subst (λ db. Accounted (claimed_ids a) db.rows) (sym same)
              (claim-Accounted d.json d.account_id now w.store.db db a ran h)))
    claim_step now w (ok cs) t (rolled_back e q same v) h = ground arith
    claim_step now w (err e) t (committed a db ran q same v) h = ground arith
    claim_step now w (err e) t (rolled_back e' q same v) h =
        inl (subst (λ db. AllQueued db.rows) (sym same) h)

    claim_and_finish-Released :
        (now : ℕ) (w : World B S)
        → AllQueued w.store.db.rows
        → KeepsReleased (claim_and_finish d now) w
    unfolding claim_and_finish ◌>>=◌ transact
    claim_and_finish-Released now w h =
        claim_step now w _ _ (transacted (claim d.json d.account_id now) w.store) h

    eligible_step :
        (now : ℕ) (w : World B S) (r : Result Err Bool)
        → AllQueued w.store.db.rows
        → KeepsReleased (continue r (λ b. if b then claim_and_finish d now else pure no_result)) w
    unfolding ◌>>=◌
    eligible_step now w (ok true) h = claim_and_finish-Released now w h
    eligible_step now w (ok false) h = inl h
    eligible_step now w (err e) h = inl h

    -- A pass over a table in which no intent is dispatching leaves none dispatching, whatever the
    -- server answers and whatever access to the store fails, except where it returns the joined errors
    -- of a failed finalize transaction and of its failed recovery.
    pub dispatch_once-Released :
        (now : ℕ) (w : World B S)
        → AllQueued w.store.db.rows
        → Released (dispatch_once d now w).0 (dispatch_once d now w).1.store.db.rows
    unfolding dispatch_once ◌>>=◌ has_eligible_intents
    dispatch_once-Released now w h =
        let (r, s') = has_eligible_intents d.account_id now w.store in
        eligible_step now (record w { store = s' }) r
          (subst (λ db. AllQueued db.rows) (sym (query-keeps "store.read" _ w.store)) h)
