-- ===== src/History/Viewport/Scrolling.antt =====
-- What scrolling promises: crates/mr-crabs-history/src/viewport.rs.
use mr_crabs.Common.{
  ℕ, ◌+◌, ◌≤◌, ◌<◌, ◌≡◌, refl, ap, ◌∙◌, ◌⊎◌, inl, inr, Bool, true, false, none, some, List, [], ◌∷◌,
  arith, Bool-cases,
}
use mr_crabs.History.Viewport.{
  Viewport, usize_max, new, offset, sync_screen, clamp, scroll_up, scroll_down, note_history_growth,
  to_top, reset, top_line, absolute_line,
}

-- The viewports, each with the number of history lines, that the operations reach from the start.
-- `note_history_growth` gets the number before; after any other change of the number, `clamp` or
-- `sync_screen` follows.
pub data Reach : Viewport → ℕ → Type 0 where
  reach_new : Reach new 0
  reach_up : (v : Viewport) (h n : ℕ) → Reach v h → Reach (scroll_up v n h) h
  reach_down : (v : Viewport) (h n : ℕ) → Reach v h → Reach (scroll_down v n) h
  reach_top : (v : Viewport) (h : ℕ) → Reach v h → Reach (to_top v h) h
  reach_reset : (v : Viewport) (h : ℕ) → Reach v h → Reach (reset v) h
  reach_growth : (v : Viewport) (h g : ℕ) → h ≤ g → Reach v h → Reach (note_history_growth v h g) g
  reach_clamp : (v : Viewport) (h g : ℕ) → Reach v h → Reach (clamp v g) g
  reach_sync : (v : Viewport) (a : Bool) (h g : ℕ) → Reach v h → Reach (sync_screen v a g) g

Reach-within : (v : Viewport) (h : ℕ) → Reach v h → v.primary_offset ≤ h
unfolding scroll_up scroll_down to_top reset note_history_growth clamp sync_screen
Reach-within v h reach_new = omega arith
Reach-within v h (reach_up w k n r) = ground (arith, Reach-within w k r)
Reach-within v h (reach_down w k n r) = ground (arith, Reach-within w k r)
Reach-within v h (reach_top w k r) = ground (arith, Reach-within w k r)
Reach-within v h (reach_reset w k r) = ground (arith, Reach-within w k r)
Reach-within v h (reach_growth w k g le r) = ground (arith, Reach-within w k r)
Reach-within v h (reach_clamp w k g r) = omega arith
Reach-within v h (reach_sync w a k g r) = omega arith

-- A viewport that the operations reach never scrolls past the history, and each of its rows shows the
-- line that lies that many rows below the top line, within the history and the visible rows. Rows
-- from the height on show nothing.
pub Reach-absolute_line :
    (v : Viewport) (h row rows : ℕ)
    → Reach v h
    → h + rows ≤ usize_max
    → (v.primary_offset ≤ h)
      × (top_line v h + offset v ≡ h)
      × (((row < rows)
            × (absolute_line v row h rows ≡ some (top_line v h + row))
            × (top_line v h + row < h + rows))
          ⊎ ((rows ≤ row) × (absolute_line v row h rows ≡ none)))
unfolding absolute_line top_line offset
Reach-absolute_line v h row rows r fits = elim (Bool-cases v.alternate_screen) [
  | inl a ↦ ground (arith, a, Reach-within v h r, fits)
  | inr p ↦ ground (arith, p, Reach-within v h r, fits)
]

-- When the history grows, a viewport that is scrolled back on the primary screen keeps its top line,
-- and one at the bottom stays at the bottom.
pub note_history_growth-top_line :
    (v : Viewport) (h g : ℕ)
    → v.primary_offset ≤ h
    → h ≤ g
    → g ≤ usize_max
    → v.alternate_screen ≡ false
    → ((v.primary_offset ≡ 0) × (top_line (note_history_growth v h g) g ≡ g))
      ⊎ ((0 < v.primary_offset) × (top_line (note_history_growth v h g) g ≡ top_line v h))
unfolding note_history_growth top_line offset
note_history_growth-top_line v h g within grows fits primary =
    ground (arith, primary, within, grows, fits)

pub data Command : Type 0 where
  up down : ℕ → Command
  top bottom : Command

-- Scrolling with a history of `h` lines.
abbrev pub scroll : ℕ → List Command → Viewport → Viewport
scroll h [] v = v
scroll h (up n ∷ cs) v = scroll h cs (scroll_up v n h)
scroll h (down n ∷ cs) v = scroll h cs (scroll_down v n)
scroll h (top ∷ cs) v = scroll h cs (to_top v h)
scroll h (bottom ∷ cs) v = scroll h cs (reset v)

scroll-alternate :
    (h : ℕ) (cs : List Command) (v : Viewport) → v.alternate_screen ≡ true → scroll h cs v ≡ v
unfolding scroll_up scroll_down to_top reset
scroll-alternate h [] v a = refl
scroll-alternate h (up n ∷ cs) v a =
    ap (scroll h cs) (ground (arith, a)) ∙ scroll-alternate h cs v a
scroll-alternate h (down n ∷ cs) v a =
    ap (scroll h cs) (ground (arith, a)) ∙ scroll-alternate h cs v a
scroll-alternate h (top ∷ cs) v a = ap (scroll h cs) (ground (arith, a)) ∙ scroll-alternate h cs v a
scroll-alternate h (bottom ∷ cs) v a =
    ap (scroll h cs) (ground (arith, a)) ∙ scroll-alternate h cs v a

-- The alternate screen shows no history, whatever is scrolled there; back on the primary screen the
-- offset is that of before.
pub sync_screen-scroll :
    (v : Viewport) (h : ℕ) (cs : List Command)
    → v.primary_offset ≤ h
    → let a = scroll h cs (sync_screen v true h) in
      (offset a ≡ 0) × (top_line a h ≡ h) × (offset (sync_screen a false h) ≡ v.primary_offset)
unfolding sync_screen offset top_line
sync_screen-scroll v h cs within =
    rw (scroll-alternate h cs (sync_screen v true h) refl)
      (refl, omega arith, omega (arith, within))
