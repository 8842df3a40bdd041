-- ===== src/Sync/Backoff/Sleep.antt =====
-- internal/sync/push.go: sleepBackoff, which polls while it waits.
use beautiful_aerc.Prelude.{ℕ, zero, suc, List, [], ◌∷◌, Bool, true, false, not, Option, none, some}

-- what its `select` takes
pub data Wake : Type 0 where
  elapsed poll_tick done : Wake

-- The loop: whether it waited to the end, `none` while it still waits, and how often it polled.
unfoldable pub sleep_loop : List Wake → Option Bool × ℕ
sleep_loop [] = (none, 0)
sleep_loop (elapsed ∷ ws) = (some true, 0)
sleep_loop (poll_tick ∷ ws) = let (r, n) = sleep_loop ws in (r, suc n)
sleep_loop (done ∷ ws) = (some false, 0)

-- sleepBackoff for a delay: `is_done` is `ctx.Err() != nil` where there is nothing to wait for
unfoldable pub sleep_backoff : ℕ → Bool → List Wake → Option Bool × ℕ
unfolding sleep_loop
sleep_backoff zero is_done ws = (some (not is_done), 0)
sleep_backoff (suc d) is_done ws = sleep_loop ws
