-- ===== src/Window/Tests.antt =====
-- Runs of a window, and the theorems about it at concrete windows. A session is 1 while it runs.
use mr_crabs.Common.{
  ℕ, ◌≡◌, ◌≢◌, ◌⊎◌, refl, true, false, none, some, [], ◌∷◌, lookup, contains, keys,
}
use mr_crabs.Common.Int.{ℤ}
use mr_crabs.Split.Axis.{GridSize}
use mr_crabs.Split.Tests.Milli.{milli, milli-IsIeee}
use mr_crabs.Split.Focus.{next_in}
use mr_crabs.Split.Tree.{holds}
use mr_crabs.Tab
use mr_crabs.Tab.{TabModel, PaneModel, close_all}
use mr_crabs.Tab.Invariant.{new-IsValid}
use mr_crabs.Window.{
  WindowModel, last_tab_closed, closed, new, add_tab, cycle_tab, close_tab, focus_pane,
}
use mr_crabs.Window.Invariant.{IsValid}
use mr_crabs.Window.Reach.{Step, Reach, IsStart, Reach-start-IsValid}
use mr_crabs.Window.Startup.{
  StartupAnimation, Event, from_config, molt_needs_frames, run, dismiss_on_enter, tick_molt,
}
use mr_crabs.Window.Tabs.{IsRemoved, close_tab-Closes}

abbrev running : ℕ → PaneModel ℕ
running id = record { id = id; title = "shell"; focus_sequence = 0; session = 1 }

abbrev tab : ℕ → ℕ → TabModel ℤ ℕ
tab id pane = Tab.new id (running pane)

abbrev one : WindowModel ℤ ℕ GridSize
one = new 1 7 (running 1)

-- The tabs 7, 9 and 8, the last one active.
abbrev three : WindowModel ℤ ℕ GridSize
three = add_tab (add_tab one (tab 9 2)) (tab 8 3)

abbrev stop : ℕ → ℕ
stop _ = 0

three_runs :
    (keys three.tabs ≡ 7 ∷ 8 ∷ 9 ∷ [])
    × (three.tab_order ≡ 7 ∷ 9 ∷ 8 ∷ [])
    × (three.active_tab ≡ some 8)
unfolding new add_tab Tab.new
three_runs = (refl, refl, refl)

turn_runs : (cycle_tab three true).1 ≡ some 7
unfolding new add_tab Tab.new cycle_tab next_in
turn_runs = refl

focus_runs : (focus_pane three 2).0.active_tab ≡ some 9
unfolding new add_tab Tab.new focus_pane holds
focus_runs = refl

-- The outcome of closing a tab that is not there is that of the last tab.
absent_runs : close_tab stop three 5 ≡ (three, last_tab_closed, none)
unfolding new add_tab Tab.new close_tab
absent_runs = refl

close_runs :
    ((close_tab stop three 8).1 ≡ closed 8)
    × ((close_tab stop three 8).2 ≡ some (close_all stop (tab 8 3)))
    × ((close_tab stop three 8).0.active_tab ≡ some 9)
unfolding new add_tab Tab.new close_tab
close_runs = (refl, refl, refl)

fresh9 : contains (keys one.tabs) (tab 9 2).id ≡ false
unfolding new Tab.new
fresh9 = refl

fresh8 : contains (keys (add_tab one (tab 9 2)).tabs) (tab 8 3).id ≡ false
unfolding new add_tab Tab.new
fresh8 = refl

abbrev measure : GridSize → GridSize
measure g = g

abbrev last : ℕ → GridSize
last _ = record { cols = 80; rows = 24 }

three-Reach : Reach milli stop measure last one three
three-Reach =
    Reach.next (Reach.next Reach.here (Step.adds (tab 9 2) fresh9 (new-IsValid 9 (running 2))))
      (Step.adds (tab 8 3) fresh8 (new-IsValid 8 (running 3)))

one-IsStart : IsStart milli stop measure last one
one-IsStart = IsStart.made 1 7 (running 1)

three-IsValid : IsValid three
three-IsValid = Reach-start-IsValid milli milli-IsIeee stop measure last one-IsStart three-Reach

Reach-start-IsValid_example : IsValid (close_tab stop three 8).0
Reach-start-IsValid_example =
    Reach-start-IsValid milli milli-IsIeee stop measure last one-IsStart
      (Reach.next three-Reach (Step.closes 8))

close_tab-Closes_example :
    ((contains (keys three.tabs) 8 ≡ false)
      × (close_tab stop three 8 ≡ (three, last_tab_closed, none)))
    ⊎ ((t : TabModel ℤ ℕ) × (w' : WindowModel ℤ ℕ GridSize) × (lookup 8 three.tabs ≡ some t)
        × (((close_tab stop three 8 ≡ (w', last_tab_closed, some (close_all stop t)))
              × ((b : ℕ) → b ≢ 8 → contains (keys three.tabs) b ≡ false)
              × (w'.tabs ≡ [])
              × (w'.tab_order ≡ [])
              × (w'.active_tab ≡ none))
            ⊎ ((close_tab stop three 8 ≡ (w', closed 8, some (close_all stop t)))
                × IsRemoved three 8 w')))
close_tab-Closes_example = close_tab-Closes stop three 8 three-IsValid

molt_runs :
    (molt_needs_frames (run (from_config StartupAnimation.molt 100) (Event.tick 999 ∷ [])) 999
      ≡ true)
    × (molt_needs_frames (run (from_config StartupAnimation.molt 100) (Event.enter ∷ [])) 999
        ≡ false)
unfolding molt_needs_frames from_config tick_molt dismiss_on_enter
molt_runs = (refl, refl)
