-- ===== src/Sync/Push/Views.antt =====
-- The failures that pushState of internal/sync/push.go reports, against the class that it shows.
use beautiful_aerc.Prelude.{List, [], ◌∷◌, map, ◌≡◌, Option, none, some, if◌then◌else◌, nat_eq}
use beautiful_aerc.Uerr.{Class, Err, LogLine, same_class}
use beautiful_aerc.Sync.Push.{PushState, fail, stopped, proved}

-- the class under which the transport is shown as failing
abbrev pub view : PushState → Option Class
view s = if s.failing then some s.class else none

-- what changing the view from one to the other reports
abbrev pub newly : Option Class → Option Class → List Class
newly old none = []
newly none (some c) = c ∷ []
newly (some b) (some c) = if same_class c b then [] else c ∷ []

abbrev pub classes : List LogLine → List Class
classes = map (λ l. l.class)

-- what happens to the transport
pub data PushStep : Type 0 where
  failed_to_listen : Err → PushStep
  stream_stopped stream_proved : PushStep

abbrev pub push_step : PushStep → PushState → PushState × List LogLine
push_step (failed_to_listen e) s = fail e s
push_step stream_stopped s = stopped s
push_step stream_proved s = (proved s, [])

Reports : PushState → PushState × List LogLine → Type 0
Reports s (t, lines) = classes lines ≡ newly (view s) (view t)
