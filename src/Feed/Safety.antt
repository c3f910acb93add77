-- ===== src/Feed/Safety.antt =====
-- Feeding does not panic: `feed_chunk_scanned` of crates/mr-crabs-app/src/model/pane.rs with the
-- handler of crates/mr-crabs-protocols/src/apc.rs.
use mr_crabs.Common.{
  ℕ, ◌≡◌, refl, ◌≢◌, sym, subst, Bool, true, false, ◌&&◌, Option, none, some, List, [], ◌∷◌, ◌++◌,
  arith,
}
use mr_crabs.Apc.{
  State, Handler, Command, inactive, ignore, identify, kitty, glyph, unknown, enter, is_inactive,
  start, feed, feed_identify, begin_unknown, end_command,
}
use mr_crabs.Apc.Scanner.{
  ScannerState, ScanStep, escape, apc, apc_escape, scan, started, ended, aborted, pending, payload,
  stream, stream_pair,
}
use mr_crabs.Feed.Tap.{TapOut, completed, nothing, tap_next}
use mr_crabs.Feed.{
  Engine, FeedParts, Outcome, done, failed, panicked, ◌>>=◌, Feeding, called, flush_stream, tapped,
  tap_byte, ingest, fed, scanned, scan_byte, feed_byte, feed_bytes, feed_chunk_scanned,
}

-- Within a string of the scanner, the handler has been started.
abbrev pub in_string : ScannerState → Bool
in_string ScannerState.ground = false
in_string escape = false
in_string apc = true
in_string apc_escape = true

abbrev pub IsReady : {C : Type 0} → FeedParts C → Type 0
IsReady p = (in_string p.apc_scanner && is_inactive p.apc_handler.state) ≡ false

-- No panic, and the parts are ready again unless there was an error.
abbrev pub IsSafe : {C A : Type 0} → (A → Type 0) → Outcome C A → Type 0
IsSafe P (done a) = P a
IsSafe P (failed p) = Unit
IsSafe P panicked = ⊥

begin_unknown-active :
    (h : Handler) (prefix suffix : List ℕ)
    → is_inactive (begin_unknown h prefix suffix).state ≡ false
unfolding begin_unknown
begin_unknown-active h prefix suffix = ground arith

feed_identify-active :
    (h : Handler) (buf : List ℕ) (b : ℕ) → is_inactive (feed_identify h buf b).state ≡ false
unfolding feed_identify
feed_identify-active h buf b =
    ground (arith, begin_unknown-active h buf (b ∷ []), begin_unknown-active h (buf ++ (b ∷ [])) [])

feed-active :
    (s : State) (h : Handler) (b : ℕ)
    → is_inactive s ≡ false
    → (k : Handler) × (feed (enter h s) b ≡ some k) × (is_inactive k.state ≡ false)
unfolding feed
feed-active inactive h b a = cc
feed-active ignore h b a = (_, refl, refl)
feed-active (identify buf) h b a = (_, refl, feed_identify-active (enter h (identify buf)) buf b)
feed-active (kitty d m) h b a = (_, refl, ground arith)
feed-active (glyph d m) h b a = (_, refl, ground arith)
feed-active (unknown d m cut) h b a = (_, refl, ground arith)

-- What a step of the scanner from `s` to `s'` means for being within a string.
abbrev Moves : ScannerState → ScannerState → ScanStep → Type 0
Moves s s' started = Unit
Moves s s' payload = (in_string s ≡ true) × (in_string s' ≡ true)
Moves s s' ended = (in_string s ≡ true) × (in_string s' ≡ false)
Moves s s' aborted = (in_string s ≡ true) × (in_string s' ≡ false)
Moves s s' pending = in_string s' ≡ in_string s
Moves s s' (stream _) = in_string s' ≡ in_string s
Moves s s' (stream_pair _ _) = in_string s' ≡ in_string s

scan-Moves : (s : ScannerState) (b : ℕ) → Moves s (scan s b).0 (scan s b).1
unfolding scan
scan-Moves ScannerState.ground b = ground arith
scan-Moves escape b = ground arith
scan-Moves apc b = ground arith
scan-Moves apc_escape b = ground arith

module _ {C : Type 0} (engine : Engine C) where
  -- A property of the scanner and the handler is that of the parts with any core.
  module _ (Q : ScannerState → Handler → Type 0) where
    abbrev Holds : Feeding C → Type 0
    Holds (p, _) = Q p.apc_scanner p.apc_handler

    called-IsSafe :
        (p : FeedParts C) (rest : List ℕ) (r : C × Bool)
        → Q p.apc_scanner p.apc_handler
        → IsSafe Holds (called p rest r)
    called-IsSafe p rest (c, true) q = q
    called-IsSafe p rest (c, false) q = tt

    flush_stream-IsSafe :
        (p : FeedParts C) (rest : List ℕ)
        → Q p.apc_scanner p.apc_handler
        → IsSafe Holds (flush_stream engine (p, rest))
    flush_stream-IsSafe p [] q = q
    flush_stream-IsSafe p (b ∷ bs) q =
        called-IsSafe p [] (engine.feed_terminal_output p.core (b ∷ bs)) q

  bind-IsSafe :
      {A B : Type 0} (P : A → Type 0) (R : B → Type 0) (o : Outcome C A) (f : A → Outcome C B)
      → IsSafe P o
      → ((a : A) → P a → IsSafe R (f a))
      → IsSafe R (o >>= f)
  bind-IsSafe P R (done a) f safe next = next a safe
  bind-IsSafe P R (failed p) f safe next = tt
  bind-IsSafe P R panicked f safe next = safe

  abbrev Ready : Feeding C → Type 0
  Ready (p, _) = IsReady p

  abbrev AreReady : ScannerState → Handler → Type 0
  AreReady s h = (in_string s && is_inactive h.state) ≡ false

  tapped-IsSafe : (out : TapOut) (x : Feeding C) → Ready x → IsSafe Ready (tapped engine out x)
  tapped-IsSafe (completed v) (p, rest) r =
      bind-IsSafe Ready Ready (flush_stream engine (p, rest)) _
        (flush_stream-IsSafe AreReady p rest r)
        (λ (q, rest'). called-IsSafe AreReady q rest' (engine.ingest_osc1337 q.core v))
  tapped-IsSafe TapOut.stream x r = r
  tapped-IsSafe nothing x r = r

  ended-IsSafe :
      (p : FeedParts C) (rest : List ℕ) (o : Option (Handler × Option Command))
      → in_string p.apc_scanner ≡ false
      → o ≢ none
      → IsSafe Ready (ingest engine p rest o)
  ended-IsSafe p rest none g some_command = some_command refl
  ended-IsSafe p rest (some (h, none)) g some_command = ground (arith, g)
  ended-IsSafe p rest (some (h, some command)) g some_command =
      called-IsSafe AreReady (record p { apc_handler = h }) rest (engine.ingest_apc p.core command)
        (ground (arith, g))

  fed-IsSafe :
      (p : FeedParts C) (rest : List ℕ) (o : Option Handler) (k : Handler)
      → o ≡ some k
      → is_inactive k.state ≡ false
      → IsSafe Ready (fed engine p rest o)
  fed-IsSafe p rest o k e a =
      subst (λ r. IsSafe Ready (fed engine p rest r)) (sym e) (ground (arith, a))

  end_command-some : (h : Handler) → is_inactive h.state ≡ false → end_command h ≢ none
  unfolding end_command
  end_command-some h a = ground (arith, a)

  -- The end of a string: the stream is flushed, and the handler, which was started, gives its command.
  closed-IsSafe :
      (p : FeedParts C) (rest : List ℕ)
      → in_string p.apc_scanner ≡ false
      → is_inactive p.apc_handler.state ≡ false
      → IsSafe Ready (
          flush_stream engine (p, rest) >>= λ (q, rest').
          ingest engine q rest' (end_command q.apc_handler))
  closed-IsSafe p rest out a =
      bind-IsSafe (Holds Q) Ready (flush_stream engine (p, rest)) _
        (flush_stream-IsSafe Q p rest (out, a))
        (λ (q, rest') (o, b).
          ended-IsSafe q rest' (end_command q.apc_handler) o (end_command-some q.apc_handler b))
    where
      Q : ScannerState → Handler → Type 0
      Q s h = (in_string s ≡ false) × (is_inactive h.state ≡ false)

  started-AreReady : (s : ScannerState) (h : Handler) → AreReady s (start h)
  unfolding start
  started-AreReady s h = ground arith

  scanned-IsSafe :
      (step : ScanStep) (b : ℕ) (s : ScannerState) (p : FeedParts C) (rest : List ℕ)
      → AreReady s p.apc_handler
      → Moves s p.apc_scanner step
      → IsSafe Ready (scanned engine step b (p, rest))
  scanned-IsSafe started b s p rest r m =
      bind-IsSafe (λ _. Unit) Ready (flush_stream engine (p, rest)) _
        (flush_stream-IsSafe (λ _ _. Unit) p rest tt)
        (λ (q, rest') _. started-AreReady q.apc_scanner q.apc_handler)
  scanned-IsSafe payload b s p rest r (i, o) =
      let (k, e, a) = feed-active p.apc_handler.state p.apc_handler b (ground (arith, r, i)) in
      fed-IsSafe p rest (feed p.apc_handler b) k e a
  scanned-IsSafe ended b s p rest r (i, o) = closed-IsSafe p rest o (ground (arith, r, i))
  scanned-IsSafe aborted b s p rest r (i, o) = closed-IsSafe p rest o (ground (arith, r, i))
  scanned-IsSafe pending b s p rest r m = ground (arith, r, m)
  scanned-IsSafe (stream c) b s p rest r m = ground (arith, r, m)
  scanned-IsSafe (stream_pair c d) b s p rest r m = ground (arith, r, m)

  feed_byte-IsSafe : (b : ℕ) (x : Feeding C) → Ready x → IsSafe Ready (feed_byte engine b x)
  feed_byte-IsSafe b (p, rest) r =
      bind-IsSafe Ready Ready (tap_byte engine b (p, rest ++ (b ∷ []))) (scan_byte engine b)
        (tapped-IsSafe (tap_next p.osc_tap b).1
          (record p { osc_tap = (tap_next p.osc_tap b).0 }, rest ++ (b ∷ [])) r)
        (λ (q, rest') r'.
          scanned-IsSafe (scan q.apc_scanner b).1 b q.apc_scanner
            (record q { apc_scanner = (scan q.apc_scanner b).0 }) rest' r'
            (scan-Moves q.apc_scanner b))

  feed_bytes-IsSafe :
      (bs : List ℕ) (x : Feeding C) → Ready x → IsSafe Ready (feed_bytes engine bs x)
  unfolding feed_bytes
  feed_bytes-IsSafe [] x r = r
  feed_bytes-IsSafe (b ∷ bs) x r =
      bind-IsSafe Ready Ready (feed_byte engine b x) (feed_bytes engine bs) (feed_byte-IsSafe b x r)
        (feed_bytes-IsSafe bs)

  -- Parts that are ready, with the handler started wherever the scanner is within a string, take any
  -- chunk without a panic: `feed` and `end` of the handler never meet a handler that is not started.
  -- If no call of the engine fails, the parts are ready for the next chunk.
  pub feed_chunk_scanned-IsSafe :
      (p : FeedParts C) (chunk : List ℕ)
      → IsReady p
      → IsSafe IsReady (feed_chunk_scanned engine p chunk)
  unfolding feed_chunk_scanned
  feed_chunk_scanned-IsSafe p chunk r =
      bind-IsSafe Ready IsReady (feed_bytes engine chunk (p, [])) _
        (feed_bytes-IsSafe chunk (p, []) r)
        (λ (q, rest) r'.
          bind-IsSafe Ready IsReady (flush_stream engine (q, rest)) _
            (flush_stream-IsSafe AreReady q rest r') (λ _ r''. r''))
