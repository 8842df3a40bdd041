-- ===== src/Sync/Push/Streaks.antt =====
-- The streams of internal/sync/push.go that stop before they prove the connection.
use beautiful_aerc.Prelude.{
  ℕ, zero, suc, ◌+◌, Bool, true, false, ◌||◌, leb, ◌≡◌, refl, arith, ◌∙◌, sym, subst, ◌⊎◌, not,
  ◌&&◌, ◌==◌, nat_eq,
}
use beautiful_aerc.Sync.Push.{PushState, stopped, stopped_by, enter, fail, surfaceable, proved}
use beautiful_aerc.Uerr.{is}

-- `n` stops with no proof between them
abbrev pub stops : ℕ → PushState → PushState
stops zero s = s
stops (suc n) s = stops n (stopped s).0

-- one stop that no proof went before
Step : PushState → PushState → Type 0
Step s t =
    (t.just_proved ≡ s.just_proved)
    × (t.attempt ≡ s.attempt + 1)
    × (t.failing ≡ (s.failing || leb 2 (s.unproved + 1)))
    × ((leb 2 (s.unproved + 1) ≡ true) ⊎ (t.unproved ≡ s.unproved + 1))

stopped_by-Step : (s : PushState) → Step s (stopped_by false s).0
unfolding stopped_by fail enter surfaceable is Step
stopped_by-Step s = ground arith

stopped-Step : (s : PushState) → s.just_proved ≡ false → Step s (stopped s).0
unfolding stopped
stopped-Step s h = subst (λ b. Step s (stopped_by b s).0) (sym h) (stopped_by-Step s)

joined_tests :
    (n u u' : ℕ) (a b : Bool)
    → b ≡ (a || leb 2 (u + 1))
    → (leb 2 (u + 1) ≡ true) ⊎ (u' ≡ u + 1)
    → (b || (not (n == 0) && leb 2 (u' + n))) ≡ (a || (not (suc n == 0) && leb 2 (u + suc n)))
joined_tests n u u' a b h k = ground arith

-- In a run of stops with no proof of the connection between them, each adds one to the attempt that
-- the backoff grows by, and the push transport counts as failing once the stops that proved nothing,
-- those before the run included, are two, or where it counted as failing before.
pub stops_lem :
    (n : ℕ) (s : PushState)
    → s.just_proved ≡ false
    → ((stops n s).attempt ≡ s.attempt + n)
      × ((stops n s).failing ≡ (s.failing || (not (n == 0) && leb 2 (s.unproved + n))))
unfolding Step
stops_lem zero s h = (omega arith, ground arith)
stops_lem (suc n) s h =
    let (jp, at, f, u) = stopped-Step s h in
    let ih = stops_lem n (stopped s).0 (jp ∙ h) in
    (
      omega (arith, ih.0, at),
      ih.1 ∙ joined_tests n s.unproved (stopped s).0.unproved s.failing (stopped s).0.failing f u,
    )

-- The stop of a stream that did prove the connection adds nothing to the streak.
pub stopped-proved :
    (s : PushState) → (stopped (proved s)).0 ≡ record (proved s) { just_proved = false }
unfolding stopped stopped_by proved
stopped-proved s = refl
