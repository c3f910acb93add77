-- ===== src/Feed/Tap.antt =====
-- The tap for OSC 1337 strings: `Osc1337Tap` of crates/mr-crabs-app/src/model/pane.rs.
use mr_crabs.Common.{
  ℕ, ◌+◌, Bool, true, false, ◌&&◌, ◌||◌, List, [], ◌∷◌, ◌++◌, if◌then◌else◌, ltb, leb, ◌==◌, length,
  take, drop,
}
use mr_crabs.Apc.{same_bytes}

-- `OSC_MAX_ALLOCATING_BUF`
abbrev pub osc1337_max_bytes : ℕ
osc1337_max_bytes = 8388608

pub data OscTapState : Type 0 where
  ground escape osc osc_escape : OscTapState

pub data TapOut : Type 0 where
  stream nothing : TapOut
  completed : List ℕ → TapOut

-- `prefix` is the first `prefix_len` bytes of the array of five.
pub record Osc1337Tap : Type 0 where
  pub state : OscTapState
  pub buf : List ℕ
  pub len : ℕ
  pub candidate : Bool
  pub prefix : List ℕ

unfoldable pub new_tap : Osc1337Tap
new_tap = record { state = ground; buf = []; len = 0; candidate = false; prefix = [] }

-- "1337;"
abbrev pub marker : List ℕ
marker = b'1' ∷ b'3' ∷ b'3' ∷ b'7' ∷ b';' ∷ []

unfoldable pub start_string : Osc1337Tap → Osc1337Tap
start_string t = record { state = osc; buf = []; len = 0; candidate = false; prefix = [] }

unfoldable pub take_payload : Osc1337Tap → ℕ → Osc1337Tap
take_payload t byte =
    let prefix' = t.prefix ++ (byte ∷ []) in
    if ltb (length t.prefix) 5
    then (if length prefix' == 5
        then (if same_bytes prefix' marker
            then record t { prefix = prefix'; candidate = true; buf = t.buf ++ prefix'; len = 5 }
            else record t { prefix = prefix'; candidate = false })
        else record t { prefix = prefix' })
    else if t.candidate
    then (if leb osc1337_max_bytes t.len
        then record t { candidate = false; buf = [] }
        else record t { buf = t.buf ++ (byte ∷ []); len = t.len + 1 })
    else t

unfoldable pub end_string : Osc1337Tap → Osc1337Tap × TapOut
end_string t =
    let done = record t { state = ground; buf = []; len = 0 } in
    if t.candidate && (length t.prefix == 5)
    then (
      record done { candidate = false },
      if ltb 5 (length t.buf) && same_bytes (take 5 t.buf) marker
          then completed (drop 5 t.buf)
          else nothing,
    )
    else (done, nothing)

unfoldable pub abort_string : Osc1337Tap → Osc1337Tap × TapOut
abort_string t =
    (record { state = ground; buf = []; len = 0; candidate = false; prefix = [] }, nothing)

unfoldable pub tap_ground : Osc1337Tap → ℕ → Osc1337Tap × TapOut
unfolding start_string
tap_ground t byte =
    if byte == 0x1b
    then (record t { state = escape }, stream)
    else if byte == 0x9d
    then (start_string t, stream)
    else (record t { state = ground }, stream)

-- The bytes that abort a string.
abbrev pub aborts : ℕ → Bool
aborts byte =
    (byte == 0x18)
    || (byte == 0x1a)
    || (leb 0x80 byte && leb byte 0x9b)
    || (leb 0x9d byte && leb byte 0x9f)

unfoldable pub tap_at : OscTapState → Osc1337Tap → ℕ → Osc1337Tap × TapOut
unfolding tap_ground take_payload end_string abort_string
tap_at ground t byte = tap_ground t byte
tap_at escape t byte =
    if byte == b']'
    then (start_string t, stream)
    else if byte == 0x1b
    then (record t { state = escape }, stream)
    else (record t { state = ground }, stream)
tap_at osc t byte =
    if (byte == 0x07) || (byte == 0x9c)
    then end_string t
    else if byte == 0x1b
    then (record t { state = osc_escape }, stream)
    else if aborts byte
    then abort_string t
    else (take_payload t byte, stream)
tap_at osc_escape t byte = if byte == 0x5c then end_string t else tap_ground (abort_string t).0 byte

unfoldable pub tap_next : Osc1337Tap → ℕ → Osc1337Tap × TapOut
unfolding tap_at
tap_next t byte = tap_at t.state t byte
