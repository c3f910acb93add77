-- ===== src/Window/Startup.antt =====
-- What a window shows at its start: `StartupPresentation` of
-- crates/mr-crabs-app/src/model/window.rs. Times are milliseconds.
use mr_crabs.Common.{ℕ, ◌-◌, ◌≡◌, Bool, false, if◌then◌else◌, ltb, leb, List, [], ◌∷◌}

abbrev pub molt_duration_ms : ℕ
molt_duration_ms = 900

pub data StartupAnimation : Type 0 where
  none fetch molt : StartupAnimation

pub data StartupPresentation : Type 0 where
  none fetch_retained fetch_dismissed molt_waiting molt_dismissed molt_complete :
      StartupPresentation
  molt_active : ℕ → StartupPresentation

unfoldable pub from_config : StartupAnimation → ℕ → StartupPresentation
from_config none now = none
from_config fetch now = fetch_retained
from_config molt now = molt_active now

unfoldable pub start_molt : StartupPresentation → ℕ → StartupPresentation
start_molt molt_waiting now = molt_active now
start_molt s now = s

unfoldable pub dismiss_on_enter : StartupPresentation → StartupPresentation
dismiss_on_enter fetch_retained = fetch_dismissed
dismiss_on_enter (molt_active _) = molt_dismissed
dismiss_on_enter s = s

unfoldable pub molt_needs_frames : StartupPresentation → ℕ → Bool
molt_needs_frames (molt_active started) now = ltb (now - started) molt_duration_ms
molt_needs_frames _ now = false

unfoldable pub tick_molt : StartupPresentation → ℕ → StartupPresentation
tick_molt (molt_active started) now =
    if leb molt_duration_ms (now - started) then molt_complete else molt_active started
tick_molt s now = s

pub data Event : Type 0 where
  content : ℕ → Event
  enter : Event
  tick : ℕ → Event

abbrev react : StartupPresentation → Event → StartupPresentation
react s (content now) = start_molt s now
react s enter = dismiss_on_enter s
react s (tick now) = tick_molt s now

abbrev pub run : StartupPresentation → List Event → StartupPresentation
run s [] = s
run s (e ∷ es) = run (react s e) es

-- The animation runs since `now`, or has ended or never runs.
abbrev Since : ℕ → StartupPresentation → Type 0
Since now (molt_active started) = started ≡ now
Since now molt_waiting = ⊥
Since now _ = Unit
