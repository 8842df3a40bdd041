-- ===== src/Store/Lanes/Turns.antt =====
-- The turn of a waiting interactive job in the loop of `run` of internal/store/writer.go.
use beautiful_aerc.Prelude.{
  ℕ, ◌+◌, ◌≤◌, List, [], ◌∷◌, ◌++◌, Bool, true, false, not, ◌&&◌, ◌≡◌, refl, sym, ap, ◌∙◌, arith,
  ◌⊎◌, inl, inr,
}
use beautiful_aerc.Store.Lanes.{
  interactive, bulk, Point, checking, choosing, checkpointing, stopped, running, Writer, Act,
  gives_up, finds_none, takes, starts_checkpoint, ends, returns, Step, submitted, gave_up, fired,
  closed, checked, fell_through, chose, chose_checkpoint, chose_stop, ended, ended_checkpoint, Run,
  here, more,
}

-- an interactive job waits
abbrev pub some_wait : List ℕ → Bool
some_wait [] = false
some_wait (j ∷ js) = true

abbrev pub waits : Writer → Bool
waits w = some_wait w.interactive_lane

-- an interactive job is taken or its caller gives up, or the goroutine returns
abbrev pub settles : Act → Bool
settles (takes interactive j now) = true
settles (gives_up interactive j) = true
settles returns = true
settles _ = false

abbrev pub none_settles : List Act → Bool
none_settles [] = true
none_settles (a ∷ as') = not (settles a) && none_settles as'

-- the bulk jobs and checkpoints that are started
abbrev pub background : Act → ℕ
background (takes bulk j now) = 1
background starts_checkpoint = 1
background _ = 0

-- the acts of the goroutine
abbrev pub own : Act → ℕ
own finds_none = 1
own (takes l j now) = 1
own starts_checkpoint = 1
own ends = 1
own returns = 1
own _ = 0

abbrev pub total : (Act → ℕ) → List Act → ℕ
total f [] = 0
total f (a ∷ as') = f a + total f as'

-- what can still come before the waiting job
abbrev room : Point → ℕ
room choosing = 1
room _ = 0

abbrev own_room : Point → ℕ
own_room choosing = 2
own_room checkpointing = 1
own_room (running l j) = 1
own_room _ = 0

some_wait-append : (js : List ℕ) (j : ℕ) → some_wait (js ++ j ∷ []) ≡ true
some_wait-append [] j = refl
some_wait-append (i ∷ is) j = refl

abbrev Closer : Writer → Act → Writer → Type 0
Closer u a v =
    (waits v ≡ true)
    × (background a + room v.at ≤ room u.at)
    × (own a + own_room v.at ≤ own_room u.at)

closer :
    (u : Writer) (a : Act) (v : Writer)
    → Step u a v
    → waits u ≡ true
    → settles a ≡ false
    → Closer u a v
closer u a v (submitted interactive j) w s =
    (some_wait-append u.interactive_lane j, omega arith, omega arith)
closer u a v (submitted bulk j) w s = (w, omega arith, omega arith)
closer u a v (gave_up interactive j before after e) w s = cc
closer u a v (gave_up bulk j before after e) w s = (w, omega arith, omega arith)
closer u a v fired w s = (w, omega arith, omega arith)
closer u a v closed w s = (w, omega arith, omega arith)
closer u a v (checked j now before after p e) w s = cc
closer u a v (fell_through p e) w s = let no' : false ≡ true = ap some_wait (sym e) ∙ w in cc
closer u a v (chose interactive j now before after p e) w s = cc
closer u a v (chose bulk j now before after p e) w s = rw p (w, omega arith, omega arith)
closer u a v (chose_checkpoint p e) w s = rw p (w, omega arith, omega arith)
closer u a v (chose_stop p e) w s = cc
closer u a v (ended l j p) w s = rw p (w, omega arith, omega arith)
closer u a v (ended_checkpoint p) w s = rw p (w, omega arith, omega arith)

closer_run :
    (u v : Writer) (as' : List Act)
    → Run u as' v
    → waits u ≡ true
    → none_settles as' ≡ true
    → (waits v ≡ true)
      × (total background as' + room v.at ≤ room u.at)
      × (total own as' + own_room v.at ≤ own_room u.at)
closer_run u v [] here w s = (w, omega arith, omega arith)
closer_run u v (a ∷ as') (more {v = m} step run) w s =
    let (w', r, o) = closer u a m step w (ground (arith, s)) in
    let (w'', r', o') = closer_run m v as' run w' (ground (arith, s)) in
    (w'', omega (arith, r, r'), omega (arith, o, o'))

-- the goroutine has a step, where a job waits and it has not returned
abbrev pub Moves : Writer → Type 0
Moves v = (a : Act) × (v' : Writer) × Step v a v' × (own a ≡ 1)

Moves-waits :
    (v : Writer) (js : List ℕ) (p : Point)
    → v.interactive_lane ≡ js
    → v.at ≡ p
    → waits v ≡ true
    → (p ≡ stopped) ⊎ Moves v
Moves-waits v [] p e q w = let no' : false ≡ true = ap some_wait (sym e) ∙ w in cc
Moves-waits v (j ∷ js) checking e q w = inr (_, _, checked j 0 [] js q e, refl)
Moves-waits v (j ∷ js) choosing e q w = inr (_, _, chose interactive j 0 [] js q e, refl)
Moves-waits v (j ∷ js) checkpointing e q w = inr (_, _, ended_checkpoint q, refl)
Moves-waits v (j ∷ js) stopped e q w = inl refl
Moves-waits v (j ∷ js) (running l i) e q w = inr (_, _, ended l i q, refl)

room-le : (p : Point) → (room p ≤ 1) × (own_room p ≤ 2)
room-le checking = (omega arith, omega arith)
room-le choosing = (omega arith, omega arith)
room-le checkpointing = (omega arith, omega arith)
room-le stopped = (omega arith, omega arith)
room-le (running l j) = (omega arith, omega arith)

-- From any point of the loop, as long as an interactive job waits and no interactive job is taken,
-- none gives up and the goroutine does not return: at most one bulk job or idle checkpoint is
-- started, the goroutine makes at most two moves, the lane stays occupied, and unless the goroutine
-- has returned before it has a further move. A job that waits is therefore passed by one bulk job or
-- checkpoint at most, whatever the selects choose and however many bulk jobs are queued.
pub interactive_turn :
    (u v : Writer) (as' : List Act)
    → Run u as' v
    → waits u ≡ true
    → none_settles as' ≡ true
    → (total background as' ≤ 1)
      × (total own as' ≤ 2)
      × (waits v ≡ true)
      × ((v.at ≡ stopped) ⊎ Moves v)
interactive_turn u v as' run w s =
    let (w', r, o) = closer_run u v as' run w s in
    let (r', o') = room-le u.at in
    (
      omega (arith, r, r'),
      omega (arith, o, o'),
      w',
      Moves-waits v v.interactive_lane v.at refl refl w',
    )
