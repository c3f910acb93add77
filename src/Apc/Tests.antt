-- ===== src/Apc/Tests.antt =====
-- Runs of the handler of commands, and the theorems about it at concrete commands.
use mr_crabs.Common.{ℕ, ◌≡◌, refl, ◌≤◌, true, none, some, List, [], ◌∷◌, ◌>>=◌}
use mr_crabs.Apc.{
  Handler, Command, inactive, identify, kitty, new, start, enter, feed, feed_slice, query,
  parse_glyph_request, end_command, kitty_limit,
}
use mr_crabs.Apc.Slice.{feed_all, feed_slice-feed_all}
use mr_crabs.Apc.Bounds.{
  reach_here, reach_start, reach_feed_slice, kept, limit_at, SameLimits, Reach_bounds,
}

-- "Gi=1;A"
abbrev pub picture : List ℕ
picture = b'G' ∷ b'i' ∷ b'=' ∷ b'1' ∷ b';' ∷ b'A' ∷ []

feed_slice-runs :
    feed_slice (start new) picture
    ≡ some (enter new (kitty (b'i' ∷ b'=' ∷ b'1' ∷ b';' ∷ b'A' ∷ []) (kitty_limit new)))
unfolding feed_slice start new feed
feed_slice-runs = refl

-- "25a1;q;cp=41"
glyph_runs :
    (feed_slice
        (start new)
        (b'2' ∷ b'5' ∷ b'a' ∷ b'1' ∷ b';' ∷ b'q' ∷ b';' ∷ b'c' ∷ b'p' ∷ b'=' ∷ b'4' ∷ b'1' ∷ [])
      >>= end_command)
    ≡ some (
      new,
      some (
          Command.glyph
            (record { action = query; pairs = ((b'c' ∷ b'p' ∷ []), (b'4' ∷ b'1' ∷ [])) ∷ [] })),
    )
unfolding feed_slice start new feed end_command parse_glyph_request
glyph_runs = refl

small : Handler
small = record new { kitty_max_bytes = some 3; unknown_max_bytes = 2 }

-- A command above its limit is dropped, and one of an unknown protocol cut.
limit_runs : (feed_slice (start small) picture >>= end_command) ≡ some (small, none)
unfolding feed_slice start new feed end_command small
limit_runs = refl

unknown_runs :
    (feed_slice (start small) (b'x' ∷ b'y' ∷ b'z' ∷ []) >>= end_command)
    ≡ some (small, some (Command.unknown (b'x' ∷ b'y' ∷ []) true))
unfolding feed_slice start new feed end_command small
unknown_runs = refl

feed_slice-feed_all_example :
    feed_slice (enter new (identify [])) picture ≡ feed_all (enter new (identify [])) picture
feed_slice-feed_all_example = feed_slice-feed_all (identify []) new picture

new-inactive : new.state ≡ inactive
unfolding new
new-inactive = refl

abbrev holding : Handler
holding = enter new (kitty (b'i' ∷ b'=' ∷ b'1' ∷ b';' ∷ b'A' ∷ []) (kitty_limit new))

Reach_bounds_example : (kept holding.state ≤ limit_at new holding.state) × SameLimits holding new
Reach_bounds_example =
    Reach_bounds new new-inactive holding
      (reach_feed_slice (start new) holding picture feed_slice-runs (reach_start new reach_here))
