-- ===== src/Feed/Tests.antt =====
-- Runs of the feeder with an engine that records its calls, and the theorems about it at concrete
-- chunks.
use mr_crabs.Common.{ℕ, ◌≡◌, ◌≤◌, refl, arith, true, false, List, [], ◌∷◌, ◌++◌}
use mr_crabs.Apc.{Command, new, enter, inactive, kitty_limit, feed, start, end_command}
use mr_crabs.Apc.Scanner.{scan}
use mr_crabs.Feed.Tap.{new_tap, tap_next}
use mr_crabs.Feed.{Engine, FeedParts, Outcome, done, failed, panicked, feed_chunk_scanned}
use mr_crabs.Feed.Safety.{IsReady, IsSafe, feed_chunk_scanned-IsSafe}
use mr_crabs.Feed.Delivery.{outside, opening, closing, written, drawn, feed_chunk_scanned-kitty}

data Call : Type 0 where
  output : List ℕ → Call
  image : List ℕ → Call
  command : Command → Call

-- All the calls succeed.
abbrev recorder : Engine (List Call)
recorder = record {
  feed_terminal_output = λ c bytes. (c ++ (output bytes ∷ []), true);
  ingest_osc1337 = λ c bytes. (c ++ (image bytes ∷ []), true);
  ingest_apc = λ c x. (c ++ (command x ∷ []), true);
}

-- The output fails.
abbrev broken : Engine (List Call)
broken = record recorder { feed_terminal_output = λ c bytes. (c, false) }

abbrev fresh : FeedParts (List Call)
fresh = outside recorder [] new new_tap

-- "hi", then the OSC 1337 string "x" between its opening and BEL.
osc_runs :
    feed_chunk_scanned recorder fresh
      (b'h' ∷ b'i' ∷ 0x1b ∷ b']' ∷ b'1' ∷ b'3' ∷ b'3' ∷ b'7' ∷ b';' ∷ b'x' ∷ 0x07 ∷ b'!' ∷ [])
    ≡ done (record fresh {
      core =
          output (b'h' ∷ b'i' ∷ 0x1b ∷ b']' ∷ b'1' ∷ b'3' ∷ b'3' ∷ b'7' ∷ b';' ∷ b'x' ∷ 0x07 ∷ [])
          ∷ image (b'x' ∷ [])
          ∷ output (b'!' ∷ [])
          ∷ [];
      osc_tap = record new_tap { prefix = b'1' ∷ b'3' ∷ b'3' ∷ b'7' ∷ b';' ∷ [] };
    })
unfolding feed_chunk_scanned new_tap tap_next scan
osc_runs = refl

-- An output that fails where a command starts leaves the scanner within the command and the handler
-- inactive; the next byte then panics.
abbrev after_failure :
    Outcome (List Call) (FeedParts (List Call)) → Outcome (List Call) (FeedParts (List Call))
after_failure (failed p) = feed_chunk_scanned recorder p (b'G' ∷ [])
after_failure o = o

failure_runs : after_failure (feed_chunk_scanned broken fresh (0x1b ∷ b'_' ∷ [])) ≡ panicked
unfolding feed_chunk_scanned new_tap new tap_next scan feed
failure_runs = refl

-- A command that the byte CAN aborts is still executed.
aborted_runs :
    feed_chunk_scanned recorder fresh (0x1b ∷ b'_' ∷ b'G' ∷ b'x' ∷ 0x18 ∷ [])
    ≡ done (record fresh {
      core =
          output (0x1b ∷ b'_' ∷ [])
          ∷ output (b'G' ∷ b'x' ∷ 0x18 ∷ [])
          ∷ command (Command.kitty (b'x' ∷ []))
          ∷ [];
    })
unfolding feed_chunk_scanned new_tap new tap_next scan feed start end_command
aborted_runs = refl

feed_chunk_scanned-IsSafe_example :
    IsSafe IsReady (feed_chunk_scanned recorder fresh (0x9f ∷ b'G' ∷ b'x' ∷ 0x9c ∷ []))
feed_chunk_scanned-IsSafe_example =
    feed_chunk_scanned-IsSafe recorder fresh (0x9f ∷ b'G' ∷ b'x' ∷ 0x9c ∷ []) refl

kitty_limit-new : 1 ≤ kitty_limit new
unfolding new
kitty_limit-new = omega arith

feed_chunk_scanned-kitty_example :
    feed_chunk_scanned recorder fresh (opening recorder ++ b'G' ∷ (b'x' ∷ []) ++ closing recorder)
    ≡ done (
        outside recorder
          (drawn recorder
            (written recorder
              (written recorder [] (opening recorder))
              (b'G' ∷ b'x' ∷ closing recorder))
            (b'x' ∷ []))
          (enter new inactive)
          new_tap)
feed_chunk_scanned-kitty_example =
    feed_chunk_scanned-kitty recorder [] new new_tap (b'x' ∷ []) (λ c bytes. refl) (λ c bytes. refl)
      (refl, tt) kitty_limit-new
