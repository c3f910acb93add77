-- ===== src/Frame/Pool.antt =====
-- The pool of frames for reuse: crates/mr-crabs-terminal/src/frame_pool.rs. What a `Vec` has
-- allocated is no part of its value.
use mr_crabs.Common.{
  ℕ, Bool, Option, none, some, List, [], ◌∷◌, ◌++◌, if◌then◌else◌, ◌==◌, ltb, length,
}
use mr_crabs.Grid.{GridSize, clean}
use mr_crabs.Frame.{
  FrameDelta, default_cursor, default_selection, default_viewport, empty, clear_for_reuse,
  take_last,
}

-- The released frames, the most recent one last.
pub record FramePool (Style : Type 0) : Type 0 where
  pub pool : List (FrameDelta Style)
  pub bound : ℕ

module _ {Style : Type 0} where
  unfoldable pub new : ℕ → FramePool Style
  new cap = record { pool = []; bound = cap }

  abbrev pub frame_pool_default : FramePool Style
  unfolding new
  frame_pool_default = new 4

  -- The fields that every frame gets anew; `rows`, `styles` and the spare rows stay.
  abbrev pub restamp : ℕ → GridSize → FrameDelta Style → FrameDelta Style
  restamp sequence size f = record f {
    sequence = sequence;
    style_epoch = 0;
    size = size;
    damage = clean;
    cursor = default_cursor;
    selection = default_selection;
    viewport = default_viewport;
    search_matches = [];
    hyperlinks = [];
    animation_region = none;
  }

  -- `acquire` with the result of `pop`.
  abbrev pub hand_out :
      FramePool Style
      → ℕ
      → GridSize
      → Option (FrameDelta Style × List (FrameDelta Style))
      → FramePool Style × FrameDelta Style
  hand_out p sequence size none =
      (p, restamp sequence size (record (empty size) { sequence = sequence }))
  hand_out p sequence size (some (f, rest)) = (record p { pool = rest }, restamp sequence size f)

  unfoldable pub acquire : FramePool Style → ℕ → GridSize → FramePool Style × FrameDelta Style
  acquire p sequence size = hand_out p sequence size (take_last p.pool)

  unfoldable pub release : FramePool Style → FrameDelta Style → FramePool Style
  unfolding clear_for_reuse
  release p f =
      if ltb (length p.pool) p.bound
      then record p { pool = p.pool ++ (clear_for_reuse f ∷ []) }
      else p

  unfoldable pub capacity : FramePool Style → ℕ
  capacity p = p.bound

  unfoldable pub len : FramePool Style → ℕ
  len p = length p.pool

  unfoldable pub is_empty : FramePool Style → Bool
  is_empty p = length p.pool == 0
