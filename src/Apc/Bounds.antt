-- ===== src/Apc/Bounds.antt =====
-- The handler keeps no more bytes than its limits allow: crates/mr-crabs-protocols/src/apc.rs.
use mr_crabs.Common.{
  ℕ, zero, suc, ◌-◌, ◌≤◌, ◌≡◌, refl, sym, subst, ◌∙◌, Bool, true, false, Option, none, some, List,
  [], ◌∷◌, ◌++◌, ◌>>=◌, if◌then◌else◌, ◌==◌, length, length-append, take, min, arith,
}
use mr_crabs.Apc.{
  State, Handler, Command, inactive, ignore, identify, kitty, glyph, unknown, enter, start, deinit,
  feed, feed_identify, begin_unknown, feed_slice, end_command, kitty_limit, glyph_limit,
}
use mr_crabs.Apc.Slice.{feed_all, feed_slice-feed_all}

-- The number of bytes that a state keeps.
abbrev pub kept : State → ℕ
kept inactive = 0
kept ignore = 0
kept (identify d) = length d
kept (kitty d m) = length d
kept (glyph d m) = length d
kept (unknown d m cut) = length d

-- The limit of the handler for what a state keeps.
abbrev pub limit_at : Handler → State → ℕ
limit_at h inactive = 0
limit_at h ignore = 0
limit_at h (identify d) = 4
limit_at h (kitty d m) = kitty_limit h
limit_at h (glyph d m) = glyph_limit h
limit_at h (unknown d m cut) = h.unknown_max_bytes

-- The limit that a state carries is that of the handler.
abbrev Carries : Handler → State → Type 0
Carries h inactive = Unit
Carries h ignore = Unit
Carries h (identify d) = Unit
Carries h (kitty d m) = m ≡ kitty_limit h
Carries h (glyph d m) = m ≡ glyph_limit h
Carries h (unknown d m cut) = m ≡ h.unknown_max_bytes

abbrev Within : Handler → State → Type 0
Within h s = Carries h s × (kept s ≤ limit_at h s)

abbrev pub SameLimits : Handler → Handler → Type 0
SameLimits h k =
    (h.unknown_max_bytes ≡ k.unknown_max_bytes)
    × (h.kitty_max_bytes ≡ k.kitty_max_bytes)
    × (h.glyph_max_bytes ≡ k.glyph_max_bytes)

length-take-le : (n : ℕ) (xs : List ℕ) → length (take n xs) ≤ n
length-take-le zero xs = omega arith
length-take-le (suc n) [] = omega arith
length-take-le (suc n) (x ∷ xs) = omega (arith, length-take-le n xs)

-- The state keeps what the limits allow, and the limits are those of `h`.
abbrev IsKept : Handler → Handler → Type 0
IsKept h k = Within h k.state × SameLimits k h

abbrev Keeps : Handler → Option Handler → Type 0
Keeps h none = Unit
Keeps h (some k) = IsKept h k

module _ (h : Handler) where
  if-IsKept :
      (test : Bool) (s t : State)
      → (test ≡ true → Within h s)
      → (test ≡ false → Within h t)
      → IsKept h (if test then enter h s else enter h t)
  if-IsKept true s t yes_case no_case = (yes_case refl, (refl, refl, refl))
  if-IsKept false s t yes_case no_case = (no_case refl, (refl, refl, refl))

  begin_unknown-IsKept :
      (s : State) (prefix suffix : List ℕ) → IsKept h (begin_unknown (enter h s) prefix suffix)
  unfolding begin_unknown
  begin_unknown-IsKept s prefix suffix =
      if-IsKept (h.unknown_max_bytes == 0) ignore _ (λ _. (tt, omega arith)) (λ _. (refl, fits))
    where
      first : List ℕ
      first = take (min (h.unknown_max_bytes - 0) (length prefix)) prefix

      fits :
          length (first ++ take (min (h.unknown_max_bytes - length first) (length suffix)) suffix)
          ≤ h.unknown_max_bytes
      fits = omega (
        arith,
        length-append first
            (take (min (h.unknown_max_bytes - length first) (length suffix)) suffix),
        length-take-le (min (h.unknown_max_bytes - 0) (length prefix)) prefix,
        length-take-le (min (h.unknown_max_bytes - length first) (length suffix)) suffix,
      )

  feed_identify-IsKept :
      (buf : List ℕ) (b : ℕ) → IsKept h (feed_identify (enter h (identify buf)) buf b)
  unfolding feed_identify
  feed_identify-IsKept buf b = ground (
    arith,
    length-append buf (b ∷ []),
    begin_unknown-IsKept (identify buf) buf (b ∷ []),
    begin_unknown-IsKept (identify buf) (buf ++ (b ∷ [])) [],
  )

  feed-Keeps : (s : State) (b : ℕ) → Within h s → Keeps h (feed (enter h s) b)
  unfolding feed
  feed-Keeps inactive b w = tt
  feed-Keeps ignore b w = (w, (refl, refl, refl))
  feed-Keeps (identify buf) b w = feed_identify-IsKept buf b
  feed-Keeps (kitty d m) b w = ground (arith, length-append d (b ∷ []))
  feed-Keeps (glyph d m) b w = ground (arith, length-append d (b ∷ []))
  feed-Keeps (unknown d m cut) b w = ground (arith, length-append d (b ∷ []))

Within-SameLimits : (h k : Handler) (s : State) → SameLimits k h → Within k s → Within h s
Within-SameLimits h k inactive e w = w
Within-SameLimits h k ignore e w = w
Within-SameLimits h k (identify d) e w = w
Within-SameLimits h k (kitty d m) e w = ground arith
Within-SameLimits h k (glyph d m) e w = ground arith
Within-SameLimits h k (unknown d m cut) e w = ground arith

IsKept-trans : (h k l : Handler) → IsKept h k → IsKept k l → IsKept h l
IsKept-trans h k l (w, e) (w', e') =
    (Within-SameLimits h k l.state e w', (e'.0 ∙ e.0, e'.1 ∙ e.1, e'.2 ∙ e.2))

Keeps-trans : (h k : Handler) (o : Option Handler) → IsKept h k → Keeps k o → Keeps h o
Keeps-trans h k none kept_k keeps = tt
Keeps-trans h k (some l) kept_k keeps = IsKept-trans h k l kept_k keeps

module _ (h : Handler) where
  own : (k : Handler) → IsKept h k → Within k k.state
  own k (w, e) = Within-SameLimits k h k.state (sym e.0, sym e.1, sym e.2) w

  feed_one-Keeps : (k : Handler) (b : ℕ) → IsKept h k → Keeps h (feed k b)
  feed_one-Keeps k b w = Keeps-trans h k (feed k b) w (feed-Keeps k k.state b (own k w))

  bind-Keeps :
      (o : Option Handler) (f : Handler → Option Handler)
      → Keeps h o
      → ((k : Handler) → IsKept h k → Keeps h (f k))
      → Keeps h (o >>= f)
  bind-Keeps none f w next = tt
  bind-Keeps (some k) f w next = next k w

  feed_all-Keeps : (bs : List ℕ) (k : Handler) → IsKept h k → Keeps h (feed_all k bs)
  feed_all-Keeps [] k w = w
  feed_all-Keeps (b ∷ bs) k w =
      bind-Keeps (feed k b) (λ l. feed_all l bs) (feed_one-Keeps k b w) (λ l. feed_all-Keeps bs l)

  -- The handlers that the methods reach from `h`.
  pub data Reach : Handler → Type 0 where
    reach_here : Reach h
    reach_deinit : (k : Handler) → Reach k → Reach (deinit k)
    reach_start : (k : Handler) → Reach k → Reach (start k)
    reach_feed : (k l : Handler) (b : ℕ) → feed k b ≡ some l → Reach k → Reach l
    reach_feed_slice : (k l : Handler) (bs : List ℕ) → feed_slice k bs ≡ some l → Reach k → Reach l
    reach_end :
        (k l : Handler) (c : Option Command) → end_command k ≡ some (l, c) → Reach k → Reach l

  Reach-IsKept : h.state ≡ inactive → (k : Handler) → Reach k → IsKept h k
  unfolding start deinit end_command
  Reach-IsKept off k reach_here = (subst (Within h) (sym off) (tt, omega arith), (refl, refl, refl))
  Reach-IsKept off k (reach_deinit l r) = ((tt, omega arith), (Reach-IsKept off l r).1)
  Reach-IsKept off k (reach_start l r) = ((tt, omega arith), (Reach-IsKept off l r).1)
  Reach-IsKept off k (reach_feed l _ b e r) =
      subst (Keeps h) e (feed_one-Keeps l b (Reach-IsKept off l r))
  Reach-IsKept off k (reach_feed_slice l _ bs e r) =
      subst (Keeps h) (sym (feed_slice-feed_all l.state l bs) ∙ e)
        (feed_all-Keeps bs l (Reach-IsKept off l r))
  Reach-IsKept off k (reach_end l _ c e r) = let w = Reach-IsKept off l r in ground (arith, e, w)

  -- Whatever an inactive handler is given by `start`, `feed`, `feed_slice`, `end` and `deinit`, its
  -- limits stay, and no state keeps more bytes than its limit: four while the protocol is not known,
  -- and then the limit of the protocol.
  pub Reach_bounds :
      h.state ≡ inactive
      → (k : Handler) → Reach k
      → (kept k.state ≤ limit_at h k.state) × SameLimits k h
  Reach_bounds off k r = let (w, e) = Reach-IsKept off k r in (w.1, e)
