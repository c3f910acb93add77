-- ===== src/Apc/Scanner.antt =====
-- The scanner that finds the commands in a stream: crates/mr-crabs-protocols/src/apc.rs.
use mr_crabs.Common.{ℕ, Bool, ◌&&◌, ◌||◌, if◌then◌else◌, leb, ◌==◌}

pub data ScannerState : Type 0 where
  ground escape apc apc_escape : ScannerState

pub data ScanStep : Type 0 where
  stream : ℕ → ScanStep
  started ended aborted pending payload : ScanStep
  stream_pair : ℕ → ℕ → ScanStep

abbrev pub is_control : ℕ → Bool
is_control byte = (byte == 0x18) || (byte == 0x1a) || (leb 0x80 byte && leb byte 0x9f)

-- A byte in each state; 0x9c, which ends a string, is tested before the other control bytes.
unfoldable pub scan : ScannerState → ℕ → ScannerState × ScanStep
scan ground byte =
    if byte == 0x1b
    then (escape, pending)
    else if byte == 0x9f
    then (apc, started)
    else (ground, stream byte)
scan escape byte =
    if byte == b'_'
    then (apc, started)
    else if byte == 0x1b
    then (escape, stream 0x1b)
    else (ground, stream_pair 0x1b byte)
scan apc byte =
    if byte == 0x1b
    then (apc_escape, pending)
    else if byte == 0x9c
    then (ground, ended)
    else if is_control byte
    then (ground, aborted)
    else (apc, payload)
scan apc_escape byte = if byte == 0x5c then (ground, ended) else (ground, aborted)
