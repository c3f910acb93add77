-- ===== src/Feed.antt =====
-- Feeding a chunk of terminal output: `feed_chunk_scanned` of crates/mr-crabs-app/src/model/pane.rs.
-- `C` is what the feeder changes besides the scanners: the engine, the graphics and the responses.
pub mod Tap
pub mod Safety
pub mod Delivery
pub mod Tests
use mr_crabs.Common.{ℕ, Bool, true, false, Option, none, some, List, [], ◌∷◌, ◌++◌, if◌then◌else◌}
use mr_crabs.Apc.{Handler, Command, start, feed, end_command}
use mr_crabs.Apc.Scanner.{ScannerState, ScanStep, ground, scan, started, ended, aborted, payload}
use mr_crabs.Feed.Tap.{Osc1337Tap, TapOut, completed, tap_next, new_tap}

-- The calls of the feeder. The flag tells that there was no error.
pub record Engine (C : Type 0) : Type 0 where
  pub feed_terminal_output : C → List ℕ → C × Bool
  pub ingest_osc1337 : C → List ℕ → C × Bool
  pub ingest_apc : C → Command → C × Bool

pub record FeedParts (C : Type 0) : Type 0 where
  pub core : C
  pub apc_scanner : ScannerState
  pub apc_handler : Handler
  pub osc_tap : Osc1337Tap

-- `failed` is the return of a `TerminalError`, with what it leaves behind.
pub data Outcome (C A : Type 0) : Type 0 where
  done : A → Outcome C A
  failed : FeedParts C → Outcome C A
  panicked : Outcome C A

infixl 5 ◌>>=◌
abbrev pub ◌>>=◌ : {C A B : Type 0} → Outcome C A → (A → Outcome C B) → Outcome C B
done a >>= f = f a
failed p >>= f = failed p
panicked >>= f = panicked

-- The parts with the stream that is not flushed yet.
abbrev pub Feeding : Type 0 → Type 0
Feeding C = FeedParts C × List ℕ

module _ {C : Type 0} where
  -- The result of a call on the core, with the stream as given.
  abbrev pub called : FeedParts C → List ℕ → C × Bool → Outcome C (Feeding C)
  called p stream (c, true) = done (record p { core = c }, stream)
  called p stream (c, false) = failed (record p { core = c })

module _ {C : Type 0} (engine : Engine C) where
  abbrev pub flush_stream : Feeding C → Outcome C (Feeding C)
  flush_stream (p, []) = done (p, [])
  flush_stream (p, b ∷ bs) = called p [] (engine.feed_terminal_output p.core (b ∷ bs))

  abbrev pub tapped : TapOut → Feeding C → Outcome C (Feeding C)
  tapped (completed value) x =
      flush_stream x >>= λ (p, stream). called p stream (engine.ingest_osc1337 p.core value)
  tapped _ x = done x

  abbrev pub tap_byte : ℕ → Feeding C → Outcome C (Feeding C)
  tap_byte byte (p, stream) =
      let (tap, out) = tap_next p.osc_tap byte in tapped out (record p { osc_tap = tap }, stream)

  abbrev pub ingest :
      FeedParts C → List ℕ → Option (Handler × Option Command) → Outcome C (Feeding C)
  ingest p stream none = panicked
  ingest p stream (some (h, none)) = done (record p { apc_handler = h }, stream)
  ingest p stream (some (h, some command)) =
      called (record p { apc_handler = h }) stream (engine.ingest_apc p.core command)

  abbrev pub fed : FeedParts C → List ℕ → Option Handler → Outcome C (Feeding C)
  fed p stream none = panicked
  fed p stream (some h) = done (record p { apc_handler = h }, stream)

  abbrev pub scanned : ScanStep → ℕ → Feeding C → Outcome C (Feeding C)
  scanned started byte x = flush_stream x >>= λ (p, stream).
      done (record p { apc_handler = start p.apc_handler }, stream)
  scanned payload byte (p, stream) = fed p stream (feed p.apc_handler byte)
  scanned ended byte x =
      flush_stream x >>= λ (p, stream). ingest p stream (end_command p.apc_handler)
  scanned aborted byte x =
      flush_stream x >>= λ (p, stream). ingest p stream (end_command p.apc_handler)
  scanned _ byte x = done x

  abbrev pub scan_byte : ℕ → Feeding C → Outcome C (Feeding C)
  scan_byte byte (p, stream) =
      let (state, step) = scan p.apc_scanner byte in
      scanned step byte (record p { apc_scanner = state }, stream)

  abbrev pub feed_byte : ℕ → Feeding C → Outcome C (Feeding C)
  feed_byte byte (p, stream) = tap_byte byte (p, stream ++ (byte ∷ [])) >>= scan_byte byte

  unfoldable pub feed_bytes : List ℕ → Feeding C → Outcome C (Feeding C)
  feed_bytes [] x = done x
  feed_bytes (byte ∷ bytes) x = feed_byte byte x >>= feed_bytes bytes

  unfoldable pub feed_chunk_scanned : FeedParts C → List ℕ → Outcome C (FeedParts C)
  unfolding feed_bytes
  feed_chunk_scanned p chunk = feed_bytes chunk (p, []) >>= λ x. flush_stream x >>= λ (q, _). done q
