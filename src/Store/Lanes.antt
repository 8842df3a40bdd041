-- ===== src/Store/Lanes.antt =====
-- internal/store/writer.go: the goroutine of the Writer, its two lanes and its idle timer, as steps of
-- the goroutine and of those that call it. A lane holds the calls of `enqueue` that wait to be
-- admitted. Which ready case of a `select` is taken is left open, as is which call a lane gives first.
pub mod Turns
use beautiful_aerc.Prelude.{
  ℕ, suc, ◌-◌, List, [], ◌∷◌, ◌++◌, Bool, true, false, not, ◌&&◌, ltb, ◌≡◌, ◌==◌, nat_eq,
}

pub data Lane : Type 0 where
  interactive bulk : Lane

-- where the loop of `run` stands: before the first select, before the second, at a job, at the idle
-- checkpoint, or returned
pub data Point : Type 0 where
  checking choosing checkpointing stopped : Point
  running : Lane → ℕ → Point

pub record Writer : Type 0 where
  pub interactive_lane : List ℕ
  pub bulk_lane : List ℕ
  pub at : Point
  pub idle_fired : Bool
  pub stop_closed : Bool
  pub last_interactive : ℕ

-- What the callers do: a call of `enqueue`, one that gives up on the lane because its context is done
-- or the writer closed, the timer, Close. What the goroutine does: it finds no interactive job, takes
-- a job at a time, starts the checkpoint, ends what it ran, returns.
pub data Act : Type 0 where
  submits gives_up : Lane → ℕ → Act
  timer_fires closes : Act
  finds_none : Act
  takes : Lane → ℕ → ℕ → Act
  starts_checkpoint ends returns : Act

abbrev pub waiting : Lane → Writer → List ℕ
waiting interactive w = w.interactive_lane
waiting bulk w = w.bulk_lane

abbrev pub with_waiting : Lane → List ℕ → Writer → Writer
with_waiting interactive js w = record w { interactive_lane = js }
with_waiting bulk js w = record w { bulk_lane = js }

-- runInteractive and runBulk, up to the job itself: the timer is reset after either
abbrev pub at_job : Lane → ℕ → ℕ → Writer → Writer
at_job interactive j now w = record w { at = running interactive j; last_interactive = now }
at_job bulk j now w = record w { at = running bulk j }

pub data Step (w : Writer) : Act → Writer → Type 0 where
  submitted : (l : Lane) (j : ℕ) → Step w (submits l j) (with_waiting l (waiting l w ++ j ∷ []) w)
  gave_up :
      (l : Lane) (j : ℕ) (before after : List ℕ)
      → waiting l w ≡ before ++ j ∷ after
      → Step w (gives_up l j) (with_waiting l (before ++ after) w)
  fired : Step w timer_fires (record w { idle_fired = true })
  closed : Step w closes (record w { stop_closed = true })
  -- the non-blocking select
  checked :
      (j now : ℕ) (before after : List ℕ)
      → w.at ≡ checking
      → w.interactive_lane ≡ before ++ j ∷ after
      → Step w
          (takes interactive j now)
          (at_job interactive j now (with_waiting interactive (before ++ after) w))
  fell_through :
      w.at ≡ checking → w.interactive_lane ≡ [] → Step w finds_none (record w { at = choosing })
  -- the blocking select
  chose :
      (l : Lane) (j now : ℕ) (before after : List ℕ)
      → w.at ≡ choosing
      → waiting l w ≡ before ++ j ∷ after
      → Step w (takes l j now) (at_job l j now (with_waiting l (before ++ after) w))
  chose_checkpoint :
      w.at ≡ choosing
      → w.idle_fired ≡ true
      → Step w starts_checkpoint (record w { at = checkpointing; idle_fired = false })
  chose_stop : w.at ≡ choosing → w.stop_closed ≡ true → Step w returns (record w { at = stopped })
  -- the end of the loop's body: resetTimer drains the timer's channel, Reset does not
  ended :
      (l : Lane) (j : ℕ)
      → w.at ≡ running l j
      → Step w ends (record w { at = checking; idle_fired = false })
  ended_checkpoint : w.at ≡ checkpointing → Step w ends (record w { at = checking })

pub data Run : Writer → List Act → Writer → Type 0 where
  here : {w : Writer} → Run w [] w
  more : {u v w : Writer} {a : Act} {as' : List Act} → Step u a v → Run v as' w → Run u (a ∷ as') w

-- RecentInteractiveActivity; 0 is the value before any interactive job
unfoldable pub recent_interactive_activity : ℕ → ℕ → Writer → Bool
recent_interactive_activity quiet now w =
    not (w.last_interactive == 0) && ltb (now - w.last_interactive) quiet
