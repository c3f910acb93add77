-- ===== src/Tab/Tests.antt =====
-- Runs of a tab, and the theorems about it at concrete tabs. A session is 1 while it runs, and 0.
use mr_crabs.Common.{ℕ, ◌≡◌, refl, true, contains, some, [], ◌∷◌}
use mr_crabs.Common.Int.{ℤ, pos}
use mr_crabs.Split.Axis.{SplitAxis}
use mr_crabs.Split.Tree.{panes, split_pane}
use mr_crabs.Split.Tests.Milli.{milli, milli-IsIeee}
use mr_crabs.Tab.{TabModel, PaneModel, new, insert_split_pane, close_pane, cycle_pane}
use mr_crabs.Tab.Invariant.{IsValid, new-IsValid}
use mr_crabs.Tab.Insert.{Inserts, insert_split_pane-Inserts}
use mr_crabs.Tab.Close.{Closes, close_pane-Closes}
use mr_crabs.Tab.Reach.{Step, Reach, Reach-new-IsValid}

abbrev running : ℕ → PaneModel ℕ
running id = record { id = id; title = "shell"; focus_sequence = 0; session = 1 }

abbrev single : TabModel ℤ ℕ
single = new 7 (running 1)

abbrev double : TabModel ℤ ℕ
double = (insert_split_pane (pos 500) single SplitAxis.horizontal (running 2)).0

double_panes : panes double.tree ≡ 1 ∷ 2 ∷ []
unfolding new insert_split_pane split_pane panes
double_panes = refl

insert_split_pane-Inserts_example :
    Inserts single
      (running 2)
      double
      (insert_split_pane (pos 500) single SplitAxis.horizontal (running 2)).1
insert_split_pane-Inserts_example =
    insert_split_pane-Inserts (pos 500) single SplitAxis.horizontal (running 2)
      (new-IsValid 7 (running 1))

abbrev stop : ℕ → ℕ
stop _ = 0

double-Reach : Reach milli stop single double
double-Reach = Reach.next Reach.here (Step.inserts SplitAxis.horizontal (running 2))

close_pane-Closes_example : Closes stop double 2 (close_pane stop double 2)
close_pane-Closes_example =
    close_pane-Closes stop double 2
      (Reach-new-IsValid milli milli-IsIeee stop 7 (running 1) double-Reach).0

Reach-new-IsValid_example :
    IsValid (cycle_pane double true).0
    × ((p : ℕ) × ((cycle_pane double true).0.focused_pane ≡ some p)
        × (contains (panes (cycle_pane double true).0.tree) p ≡ true))
Reach-new-IsValid_example =
    Reach-new-IsValid milli milli-IsIeee stop 7 (running 1)
      (Reach.next double-Reach (Step.cycles true))
