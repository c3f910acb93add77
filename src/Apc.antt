-- ===== src/Apc.antt =====
-- Application program commands: the handler of crates/mr-crabs-protocols/src/apc.rs. A byte is a
-- number. `none` is a panic of `unreachable!`.
pub mod Scanner
pub mod Slice
pub mod Bounds
pub mod Tests
use mr_crabs.Common.{
  ℕ, suc, ◌+◌, ◌-◌, Bool, true, false, not, ◌&&◌, ◌||◌, Option, none, some, List, [], ◌∷◌, ◌++◌,
  ◌>>=◌, if◌then◌else◌, ltb, leb, ◌==◌, length, take, min,
}

-- `limits` of crates/mr-crabs-protocols/src/lib.rs.
abbrev pub apc_kitty_max_bytes : ℕ
apc_kitty_max_bytes = 68157440

abbrev pub apc_glyph_max_bytes : ℕ
apc_glyph_max_bytes = 1048576

abbrev pub apc_unknown_max_bytes : ℕ
apc_unknown_max_bytes = 0

abbrev pub glyph_identifier : List ℕ
glyph_identifier = b'2' ∷ b'5' ∷ b'a' ∷ b'1' ∷ []

pub data GlyphAction : Type 0 where
  query set delete : GlyphAction

-- `String::from_utf8_lossy` makes the text of the keys and values, which stay bytes here.
pub record GlyphRequest : Type 0 where
  pub action : GlyphAction
  pub pairs : List (List ℕ × List ℕ)

pub data Command : Type 0 where
  kitty : List ℕ → Command
  glyph : GlyphRequest → Command
  unknown : List ℕ → Bool → Command

-- In `identify` the list is the first `len` bytes of the buffer.
pub data State : Type 0 where
  inactive ignore : State
  identify : List ℕ → State
  kitty glyph : List ℕ → ℕ → State
  unknown : List ℕ → ℕ → Bool → State

-- The map of the limits, by its two keys.
pub record Handler : Type 0 where
  pub state : State
  pub unknown_max_bytes : ℕ
  pub kitty_max_bytes : Option ℕ
  pub glyph_max_bytes : Option ℕ

unfoldable pub new : Handler
new = record {
  state = inactive;
  unknown_max_bytes = apc_unknown_max_bytes;
  kitty_max_bytes = some apc_kitty_max_bytes;
  glyph_max_bytes = some apc_glyph_max_bytes;
}

abbrev pub enter : Handler → State → Handler
enter h s = record h { state = s }

unfoldable pub deinit : Handler → Handler
deinit h = enter h inactive

unfoldable pub start : Handler → Handler
start h = enter h (identify [])

abbrev pub limit_or : Option ℕ → ℕ → ℕ
limit_or (some n) d = n
limit_or none d = d

abbrev pub kitty_limit : Handler → ℕ
kitty_limit h = limit_or h.kitty_max_bytes apc_kitty_max_bytes

abbrev pub glyph_limit : Handler → ℕ
glyph_limit h = limit_or h.glyph_max_bytes apc_glyph_max_bytes

abbrev pub same_bytes : List ℕ → List ℕ → Bool
same_bytes [] [] = true
same_bytes (x ∷ xs) (y ∷ ys) = (x == y) && same_bytes xs ys
same_bytes _ _ = false

abbrev pub append_bounded : List ℕ → ℕ → ℕ → Bool → State
append_bounded data_bytes byte max_bytes truncated =
    if leb max_bytes (length data_bytes)
    then unknown data_bytes max_bytes true
    else unknown (data_bytes ++ (byte ∷ [])) max_bytes truncated

abbrev pub append_bounded_slice : List ℕ → List ℕ → ℕ → Bool → List ℕ × Bool
append_bounded_slice data_bytes bytes max_bytes truncated =
    let room = max_bytes - length data_bytes in
    (data_bytes ++ take (min room (length bytes)) bytes, truncated || ltb room (length bytes))

unfoldable pub begin_unknown : Handler → List ℕ → List ℕ → Handler
begin_unknown h prefix suffix =
    let (first, cut) = append_bounded_slice [] prefix h.unknown_max_bytes false in
    let (both, cut') = append_bounded_slice first suffix h.unknown_max_bytes cut in
    if h.unknown_max_bytes == 0
    then enter h ignore
    else enter h (unknown both h.unknown_max_bytes cut')

-- The byte of the glyph identifier at a place.
abbrev pub glyph_byte : ℕ → ℕ
glyph_byte n = if n == 0 then b'2' else if n == 1 then b'5' else if n == 2 then b'a' else b'1'

-- A byte while the protocol is not known yet; the buffer has four places.
unfoldable pub feed_identify : Handler → List ℕ → ℕ → Handler
unfolding begin_unknown
feed_identify h buf byte =
    let buf' = buf ++ (byte ∷ []) in
    if (length buf == 0) && (byte == b'G')
    then enter h (kitty [] (kitty_limit h))
    else if byte == b';'
    then (if same_bytes buf glyph_identifier
        then enter h (glyph [] (glyph_limit h))
        else begin_unknown h buf (byte ∷ []))
    else if leb 4 (length buf)
    then begin_unknown h buf (byte ∷ [])
    else if ltb 0 h.unknown_max_bytes && not (byte == glyph_byte (length buf))
    then begin_unknown h buf' []
    else enter h (identify buf')

unfoldable pub feed_at : State → Handler → ℕ → Option Handler
unfolding feed_identify
feed_at inactive h byte = none
feed_at ignore h byte = some h
feed_at (unknown d m cut) h byte = some (enter h (append_bounded d byte m cut))
feed_at (identify buf) h byte = some (feed_identify h buf byte)
feed_at (kitty d m) h byte =
    some (if leb m (length d) then enter h ignore else enter h (kitty (d ++ (byte ∷ [])) m))
feed_at (glyph d m) h byte =
    some (if leb m (length d) then enter h ignore else enter h (glyph (d ++ (byte ∷ [])) m))

unfoldable pub feed : Handler → ℕ → Option Handler
unfolding feed_at
feed h byte = feed_at h.state h byte

-- A slice in a state that takes it at once; `rest` is the loop after its first byte.
abbrev pub feed_bulk : State → Handler → List ℕ → Option Handler → Option Handler
feed_bulk inactive h rem rest = none
feed_bulk ignore h rem rest = some h
feed_bulk (unknown d m cut) h rem rest =
    let (d', cut') = append_bounded_slice d rem m cut in some (enter h (unknown d' m cut'))
feed_bulk (identify buf) h rem rest = rest
feed_bulk (kitty d m) h rem rest =
    let room = m - length d in
    let n = min room (length rem) in
    some (
      if (room == 0) || ltb n (length rem)
      then enter h ignore
      else enter h (kitty (d ++ take n rem) m))
feed_bulk (glyph d m) h rem rest =
    let room = m - length d in
    let n = min room (length rem) in
    some (
      if (room == 0) || ltb n (length rem)
      then enter h ignore
      else enter h (glyph (d ++ take n rem) m))

unfoldable pub feed_slice : Handler → List ℕ → Option Handler
feed_slice h [] = some h
feed_slice h (b ∷ bs) = feed_bulk h.state h (b ∷ bs) (feed h b >>= λ h'. feed_slice h' bs)

-- The text up to a byte, and the text behind it if the byte is there.
abbrev pub split_once : ℕ → List ℕ → List ℕ × Option (List ℕ)
split_once sep [] = ([], none)
split_once sep (b ∷ bs) =
    let (before, after) = split_once sep bs in
    if b == sep then ([], some bs) else (b ∷ before, after)

-- The parts of the text between the separators, there being one more than separators.
abbrev pub split_on : ℕ → List ℕ → List (List ℕ)
split_on sep [] = [] ∷ []
split_on sep (b ∷ bs) = put (split_on sep bs)
  where
    put : List (List ℕ) → List (List ℕ)
    put [] = (b ∷ []) ∷ []
    put (part ∷ parts) = if b == sep then [] ∷ part ∷ parts else (b ∷ part) ∷ parts

abbrev pub first_is : ℕ → List ℕ → Bool
first_is byte [] = false
first_is byte (b ∷ _) = b == byte

abbrev pub drop_first : List ℕ → List ℕ
drop_first [] = []
drop_first (_ ∷ bs) = bs

abbrev pub action_of : List ℕ → Option GlyphAction
action_of [] = none
action_of (b ∷ _) =
    if b == b'q'
    then some query
    else if b == b's'
    then some set
    else if b == b'd'
    then some delete
    else none

abbrev pub key_values : List (List ℕ) → List (List ℕ × List ℕ)
key_values [] = []
key_values (item ∷ items) =
    let (key, value) = split_once b'=' item in
    elim value [ none ↦ key_values items | some v ↦ (key, v) ∷ key_values items ]

unfoldable pub parse_glyph_request : List ℕ → Option GlyphRequest
parse_glyph_request bytes = do
  action ← action_of bytes
  let rest = if first_is b';' bytes then drop_first bytes else bytes
  some (record { action = action; pairs = key_values (split_on b';' rest) })

unfoldable pub command_of : State → Option Command
unfolding parse_glyph_request
command_of inactive = none
command_of ignore = none
command_of (identify _) = none
command_of (unknown d _ cut) = some (Command.unknown d cut)
command_of (kitty d _) = some (Command.kitty d)
command_of (glyph d _) = do r ← parse_glyph_request d; some (Command.glyph r)

abbrev pub is_inactive : State → Bool
is_inactive inactive = true
is_inactive _ = false

unfoldable pub end_command : Handler → Option (Handler × Option Command)
unfolding command_of
end_command h = if is_inactive h.state then none else some (enter h inactive, command_of h.state)
