-- ===== src/Queue.antt =====
-- The bounded queues of a PTY session: crates/mr-crabs-pty/src/queue.rs. A `sync_channel` of the
-- standard library is the record `Channel`: what it holds, what was taken out of it, and whether
-- the receiver is still there. What happens outside while a sender waits is a list of rounds. Times
-- are nanoseconds.
mod Delivery
mod Ending
mod Tests
use mr_crabs.Common.{
  ℕ, ◌+◌, Bool, true, false, Option, some, none, List, [], ◌∷◌, ◌++◌, length, take, drop, ltb, leb,
  if◌then◌else◌,
}

abbrev pub writer_queue_capacity : ℕ
writer_queue_capacity = 64

abbrev pub reader_queue_capacity : ℕ
reader_queue_capacity = 32

-- One millisecond.
abbrev pub send_timeout_poll : ℕ
send_timeout_poll = 1000000

pub data QueueError : Type 0 where
  full closed timeout : QueueError

-- The errors of the session that a queue gives; the session's own are the I/O failures.
pub data WriteError : Type 0 where
  full closed timeout : WriteError
  io : ℕ → WriteError

pub data TrySendError : Type 0 where
  full : List ℕ → TrySendError
  disconnected : List ℕ → TrySendError

pub data Sending (E : Type 0) : Type 0 where
  sent : Sending E
  failed : E → Sending E

pub record Channel : Type 0 where
  pub capacity : ℕ
  -- The chunks that wait, the oldest first.
  pub items : List (List ℕ)
  -- The chunks that the receiver has taken, the oldest first.
  pub received : List (List ℕ)
  pub connected : Bool

pub sync_channel : ℕ → Channel
sync_channel n = record { capacity = n; items = []; received = []; connected = true }

unfoldable pub writer_channel : Channel
unfolding sync_channel
writer_channel = sync_channel writer_queue_capacity

unfoldable pub reader_channel : Channel
unfolding sync_channel
reader_channel = sync_channel reader_queue_capacity

-- `SyncSender::try_send`: it never waits, and gives the chunk back when it fails.
pub offer : Channel → List ℕ → Channel × Sending TrySendError
offer c chunk =
    if c.connected
    then if ltb (length c.items) c.capacity
      then (record c { items = c.items ++ (chunk ∷ []) }, sent)
      else (c, failed (TrySendError.full chunk))
    else (c, failed (disconnected chunk))

-- The receiver takes up to `n` chunks.
pub receive : ℕ → Channel → Channel
receive n c =
    if c.connected
    then record c { items = drop n c.items; received = c.received ++ take n c.items }
    else c

-- The receiver is dropped, and with it what waits.
pub hang_up : Channel → Channel
hang_up c = record c { items = []; connected = false }

pub map_try_send_error : TrySendError → QueueError
map_try_send_error (TrySendError.full chunk) = QueueError.full
map_try_send_error (disconnected chunk) = QueueError.closed

unfoldable pub map_write_error : TrySendError → WriteError
map_write_error (TrySendError.full chunk) = WriteError.full
map_write_error (disconnected chunk) = WriteError.closed

-- A blocking send fails only when the receiver is gone; the chunk comes back.
unfoldable pub map_send_error : List ℕ → WriteError
map_send_error chunk = WriteError.closed

unfoldable pub from_queue_error : QueueError → WriteError
from_queue_error QueueError.full = WriteError.full
from_queue_error QueueError.closed = WriteError.closed
from_queue_error QueueError.timeout = WriteError.timeout

map_err : Sending TrySendError → Sending QueueError
map_err sent = sent
map_err (failed e) = failed (map_try_send_error e)

pub try_send : Channel → List ℕ → Channel × Sending QueueError
unfolding offer map_err map_try_send_error
try_send c chunk = ((offer c chunk).0, map_err (offer c chunk).1)

-- One wait of a sender: the time that passes before the clock is read, the time slept, and what the
-- receiver does meanwhile.
pub record Round : Type 0 where
  pub delay : ℕ
  pub slept : ℕ
  pub takes : ℕ
  pub hangs_up : Bool

pub meanwhile : Round → Channel → Channel
unfolding receive hang_up
meanwhile r c = if r.hangs_up then hang_up (receive r.takes c) else receive r.takes c

abbrev pub SendOutcome : Type 0
SendOutcome = Channel × Sending QueueError

-- What follows an attempt: `past` tells whether the deadline has passed.
pub after_attempt :
    Bool → (List ℕ → Option SendOutcome) → Channel × Sending TrySendError → Option SendOutcome
after_attempt past again (c, sent) = some (c, sent)
after_attempt past again (c, failed (TrySendError.full back)) =
    if past then some (c, failed QueueError.timeout) else again back
after_attempt past again (c, failed (disconnected back)) = some (c, failed QueueError.closed)

-- The loop of `send_timeout`; `none` means that the rounds given have run out.
pub send_loop : List Round → ℕ → ℕ → Channel → List ℕ → Option SendOutcome
unfolding after_attempt
send_loop [] now deadline c chunk = none
send_loop (r ∷ rs) now deadline c chunk =
    after_attempt (leb deadline (now + r.delay))
      (λ back. send_loop rs (now + r.delay + r.slept) deadline (meanwhile r c) back) (offer c chunk)

-- `latest` is the last time that an `Instant` holds. The outer `none` is the panic of
-- `Instant::now() + timeout`, which comes before any attempt.
pub send_timeout : ℕ → List Round → ℕ → Channel → List ℕ → ℕ → Option (Option SendOutcome)
unfolding send_loop
send_timeout latest rounds now c chunk wait =
    if leb (now + wait) latest then some (send_loop rounds now (now + wait) c chunk) else none
