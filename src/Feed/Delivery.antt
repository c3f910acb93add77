-- ===== src/Feed/Delivery.antt =====
-- A graphics command in the output reaches the graphics: `feed_chunk_scanned` of
-- crates/mr-crabs-app/src/model/pane.rs.
use mr_crabs.Common.{
  ℕ, suc, ◌+◌, ◌≤◌, ◌≡◌, refl, Bool, true, not, ◌&&◌, some, List, [], ◌∷◌, ◌++◌, ◌==◌, length,
  length-append, append_assoc, append-nil, arith,
}
use mr_crabs.Apc.{Handler, Command, inactive, kitty, enter, start, feed, end_command, kitty_limit}
use mr_crabs.Apc.Scanner.{ScannerState, apc, is_control, scan, payload}
use mr_crabs.Feed.Tap.{Osc1337Tap, OscTapState, TapOut, tap_next}
use mr_crabs.Feed.{
  Engine, FeedParts, Outcome, done, ◌>>=◌, Feeding, feed_byte, feed_bytes, feed_chunk_scanned,
}

-- Bytes that neither end nor abort a string.
abbrev pub is_plain : ℕ → Bool
is_plain b = not (b == 0x1b) && not (is_control b)

abbrev pub ArePlain : List ℕ → Type 0
ArePlain [] = Unit
ArePlain (b ∷ bs) = (is_plain b ≡ true) × ArePlain bs

-- The tap between strings.
abbrev pub resting : Osc1337Tap → Osc1337Tap
resting t = record t { state = OscTapState.ground }

module _ {C : Type 0} (engine : Engine C) where
  feed_bytes-append :
      (xs ys : List ℕ) (x : Feeding C)
      → feed_bytes engine (xs ++ ys) x ≡ (feed_bytes engine xs x >>= feed_bytes engine ys)
  unfolding feed_bytes
  feed_bytes-append [] ys x = refl
  feed_bytes-append (b ∷ xs) ys x = after (feed_byte engine b x) (feed_bytes-append xs ys)
    where
      after :
          (o : Outcome C (Feeding C))
          → ((y : Feeding C)
              → feed_bytes engine (xs ++ ys) y ≡ (feed_bytes engine xs y >>= feed_bytes engine ys))
          → (o >>= feed_bytes engine (xs ++ ys))
            ≡ (o >>= feed_bytes engine xs >>= feed_bytes engine ys)
      after (done y) ih = ih y
      after (Outcome.failed q) ih = refl
      after Outcome.panicked ih = refl

  -- The parts within a graphics command.
  abbrev within : C → Handler → Osc1337Tap → List ℕ → ℕ → FeedParts C
  within c h t d m = record {
    core = c;
    apc_scanner = apc;
    apc_handler = enter h (kitty d m);
    osc_tap = resting t;
  }

  tap_next-plain :
      (t : Osc1337Tap) (b : ℕ)
      → is_plain b ≡ true
      → tap_next (resting t) b ≡ (resting t, TapOut.stream)
  unfolding tap_next
  tap_next-plain t b h = ground (arith, h)

  scan-plain : (b : ℕ) → is_plain b ≡ true → scan apc b ≡ (apc, payload)
  unfolding scan
  scan-plain b h = ground (arith, h)

  feed-room :
      (h : Handler) (d : List ℕ) (m b : ℕ)
      → suc (length d) ≤ m
      → feed (enter h (kitty d m)) b ≡ some (enter h (kitty (d ++ (b ∷ [])) m))
  unfolding feed
  feed-room h d m b r = ground (arith, r)

  feed_byte-plain :
      (c : C) (h : Handler) (t : Osc1337Tap) (d : List ℕ) (m b : ℕ) (s : List ℕ)
      → is_plain b ≡ true
      → suc (length d) ≤ m
      → feed_byte engine b (within c h t d m, s)
        ≡ done (within c h t (d ++ (b ∷ [])) m, s ++ (b ∷ []))
  feed_byte-plain c h t d m b s plain room =
      rw (tap_next-plain t b plain, scan-plain b plain, feed-room h d m b room) refl

  feed_bytes-plain :
      (bs : List ℕ) (c : C) (h : Handler) (t : Osc1337Tap) (d : List ℕ) (m : ℕ) (s : List ℕ)
      → ArePlain bs
      → length d + length bs ≤ m
      → feed_bytes engine bs (within c h t d m, s) ≡ done (within c h t (d ++ bs) m, s ++ bs)
  unfolding feed_bytes
  feed_bytes-plain [] c h t d m s plain room = rw (append-nil d, append-nil s) refl
  feed_bytes-plain (b ∷ bs) c h t d m s (p, plain) room =
      rw
        (
          feed_byte-plain c h t d m b s p (omega (arith, room)),
          feed_bytes-plain bs c h t (d ++ (b ∷ [])) m (s ++ (b ∷ [])) plain
              (omega (arith, length-append d (b ∷ []), room)),
          append_assoc d (b ∷ []) bs,
          append_assoc s (b ∷ []) bs,
        )
        refl

  -- The parts between strings.
  abbrev pub outside : C → Handler → Osc1337Tap → FeedParts C
  outside c h t = record {
    core = c;
    apc_scanner = ScannerState.ground;
    apc_handler = h;
    osc_tap = resting t;
  }

  abbrev pub opening : List ℕ
  opening = 0x1b ∷ b'_' ∷ []

  abbrev pub closing : List ℕ
  closing = 0x1b ∷ 0x5c ∷ []

  -- The core after a graphics command.
  abbrev pub drawn : C → List ℕ → C
  drawn c bytes = (engine.ingest_apc c (Command.kitty bytes)).0

  abbrev pub DrawingSucceeds : Type 0
  DrawingSucceeds =
      (c : C) (bytes : List ℕ) → engine.ingest_apc c (Command.kitty bytes) ≡ (drawn c bytes, true)

  -- The core after output that is not empty.
  abbrev pub written : C → List ℕ → C
  written c bytes = (engine.feed_terminal_output c bytes).0

  abbrev pub OutputSucceeds : Type 0
  OutputSucceeds =
      (c : C) (bytes : List ℕ) → engine.feed_terminal_output c bytes ≡ (written c bytes, true)

  feed_bytes-opening :
      (c : C) (h : Handler) (t : Osc1337Tap)
      → OutputSucceeds
      → feed_bytes engine (0x1b ∷ b'_' ∷ b'G' ∷ []) (outside c h t, [])
        ≡ done (within (written c opening) h t [] (kitty_limit h), b'G' ∷ [])
  unfolding feed_bytes tap_next scan start feed
  feed_bytes-opening c h t out = rw (out c opening) refl

  feed_bytes-closing :
      (c : C) (h : Handler) (t : Osc1337Tap) (d : List ℕ) (m : ℕ) (s : List ℕ)
      → OutputSucceeds
      → DrawingSucceeds
      → feed_bytes engine closing (within c h t d m, b'G' ∷ s)
        ≡ done (outside (drawn (written c (b'G' ∷ s ++ closing)) d) (enter h inactive) t, [])
  unfolding feed_bytes tap_next scan end_command
  feed_bytes-closing c h t d m s out draw =
      rw
        (
          append_assoc s (0x1b ∷ []) (0x5c ∷ []),
          out c (b'G' ∷ s ++ closing),
          draw (written c (b'G' ∷ s ++ closing)) d,
        )
        refl

  -- Between strings, a graphics command in one chunk, with a payload of plain bytes that fits the
  -- limit, reaches the engine as its payload, after all the bytes of the chunk have been output in
  -- order: the opening first and the rest at the closing. The scanners are between strings again and
  -- the handler is inactive. The output and the drawing are taken to succeed.
  pub feed_chunk_scanned-kitty :
      (c : C) (h : Handler) (t : Osc1337Tap) (bytes : List ℕ)
      → OutputSucceeds
      → DrawingSucceeds
      → ArePlain bytes
      → length bytes ≤ kitty_limit h
      → feed_chunk_scanned engine (outside c h t) (opening ++ b'G' ∷ bytes ++ closing)
        ≡ done (
            outside
              (drawn (written (written c opening) (b'G' ∷ bytes ++ closing)) bytes)
              (enter h inactive)
              t)
  unfolding feed_chunk_scanned
  feed_chunk_scanned-kitty c h t bytes out draw plain room =
      rw
        (
          feed_bytes-append (opening ++ b'G' ∷ []) (bytes ++ closing) (outside c h t, []),
          feed_bytes-opening c h t out,
          feed_bytes-append bytes closing
              (within (written c opening) h t [] (kitty_limit h), b'G' ∷ []),
          feed_bytes-plain bytes (written c opening) h t [] (kitty_limit h) (b'G' ∷ []) plain
              (omega (arith, room)),
          feed_bytes-closing (written c opening) h t bytes (kitty_limit h) bytes out draw,
        )
        refl
