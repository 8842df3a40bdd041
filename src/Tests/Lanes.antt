-- ===== src/Tests/Lanes.antt =====
-- The writer's two lanes at concrete steps: a bulk job that is chosen just before an interactive job
-- arrives, and the turn that the interactive job then has.
use beautiful_aerc.Prelude.{◌≤◌, List, [], ◌∷◌, false, true, ◌≡◌, refl, ◌⊎◌}
use beautiful_aerc.Store.Lanes.{
  bulk, checking, choosing, stopped, Writer, Act, takes, ends, chose, ended, Run, here, more,
}
use beautiful_aerc.Store.Lanes.Turns.{total, background, own, waits, Moves, interactive_turn}

abbrev fresh : Writer
fresh = record {
  interactive_lane = [];
  bulk_lane = [];
  at = checking;
  idle_fired = false;
  stop_closed = false;
  last_interactive = 0;
}

abbrev before : Writer
before = record fresh { interactive_lane = 5 ∷ []; bulk_lane = 8 ∷ []; at = choosing }

abbrev after : Writer
after = record fresh { interactive_lane = 5 ∷ [] }

abbrev overtaken : List Act
overtaken = takes bulk 8 30 ∷ ends ∷ []

abbrev overtaken_run : Run before overtaken after
overtaken_run = more (chose bulk 8 30 [] [] refl refl) (more (ended bulk 8 refl) here)

interactive_turn_example :
    (total background overtaken ≤ 1)
    × (total own overtaken ≤ 2)
    × (waits after ≡ true)
    × ((after.at ≡ stopped) ⊎ Moves after)
interactive_turn_example = interactive_turn before after overtaken overtaken_run refl refl
