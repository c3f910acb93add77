-- ===== src/Queue/Tests.antt =====
-- Runs of the queues of crates/mr-crabs-pty/src/queue.rs, and the theorems at concrete inputs.
use mr_crabs.Common.{◌+◌, ◌≤◌, ◌<◌, ◌⊎◌, ◌≡◌, refl, true, false, some, none, [], ◌∷◌, arith}
use mr_crabs.Queue.{
  QueueError, Sending, Channel, Round, SendOutcome, writer_channel, reader_channel, try_send, offer,
  meanwhile, send_timeout, map_write_error, map_send_error, from_queue_error, TrySendError,
}
use mr_crabs.Queue.Delivery.{IsBounded, Ends, delivered, send_timeout-Ends}
use mr_crabs.Queue.Ending.{send_timeout_total}

-- A queue for two chunks that holds two.
abbrev two_waiting : Channel
two_waiting = record {
  capacity = 2;
  items = (1 ∷ []) ∷ (2 ∷ []) ∷ [];
  received = [];
  connected = true;
}

abbrev idle_round : Round
idle_round = record { delay = 10; slept = 1000000; takes = 0; hangs_up = false }

abbrev busy_round : Round
busy_round = record idle_round { takes = 1 }

abbrev last_round : Round
last_round = record idle_round { hangs_up = true }

writer_queue_is_bounded : writer_channel.capacity ≡ 64
unfolding writer_channel
writer_queue_is_bounded = refl

reader_queue_is_bounded : reader_channel.capacity ≡ 32
unfolding reader_channel
reader_queue_is_bounded = refl

try_send_full : (try_send two_waiting (3 ∷ [])).1 ≡ Sending.failed QueueError.full
unfolding try_send
try_send_full = refl

-- A timeout of zero makes one attempt.
send_timeout_zero :
    send_timeout 9000000 (idle_round ∷ []) 5 two_waiting (3 ∷ []) 0
    ≡ some (some (two_waiting, Sending.failed QueueError.timeout))
unfolding send_timeout offer
send_timeout_zero = refl

send_timeout_waits :
    send_timeout 9000000 (busy_round ∷ idle_round ∷ []) 5 two_waiting (3 ∷ []) 1000000
    ≡ some (
        some (
          record two_waiting { items = (2 ∷ []) ∷ (3 ∷ []) ∷ []; received = (1 ∷ []) ∷ [] },
          Sending.sent,
        ))
unfolding send_timeout offer meanwhile
send_timeout_waits = refl

send_timeout_closed :
    send_timeout 9000000 (last_round ∷ idle_round ∷ []) 5 two_waiting (3 ∷ []) 1000000
    ≡ some (
        some
          (record two_waiting { items = []; connected = false }, Sending.failed QueueError.closed))
unfolding send_timeout offer meanwhile
send_timeout_closed = refl

errors_of_a_full_queue :
    from_queue_error QueueError.full ≡ map_write_error (TrySendError.full (1 ∷ []))
unfolding from_queue_error map_write_error
errors_of_a_full_queue = refl

errors_of_a_closed_queue : from_queue_error QueueError.closed ≡ map_send_error (1 ∷ [])
unfolding from_queue_error map_send_error
errors_of_a_closed_queue = refl

send_timeout-Ends_example :
    IsBounded (record two_waiting { items = (2 ∷ []) ∷ (3 ∷ []) ∷ []; received = (1 ∷ []) ∷ [] })
    × Ends
        (delivered two_waiting)
        (3 ∷ [])
        (record two_waiting { items = (2 ∷ []) ∷ (3 ∷ []) ∷ []; received = (1 ∷ []) ∷ [] })
        Sending.sent
send_timeout-Ends_example =
    send_timeout-Ends 9000000 (busy_round ∷ idle_round ∷ []) 5 two_waiting (3 ∷ []) 1000000
      (omega arith) send_timeout_waits

-- A deadline beyond the clock.
send_timeout_panics : send_timeout 9000000 (idle_round ∷ []) 5 two_waiting (3 ∷ []) 9000000 ≡ none
unfolding send_timeout
send_timeout_panics = refl

send_timeout_total_example :
    ((5 + 1000000 ≤ 9000000)
      × ((out : SendOutcome) × (send_timeout 9000000
              (idle_round ∷ idle_round ∷ [])
              5
              two_waiting
              (3 ∷ [])
              1000000
            ≡ some (some out))))
    ⊎ ((9000000 < 5 + 1000000)
        × (send_timeout 9000000 (idle_round ∷ idle_round ∷ []) 5 two_waiting (3 ∷ []) 1000000
            ≡ none))
send_timeout_total_example =
    send_timeout_total 9000000 idle_round (idle_round ∷ []) 5 two_waiting (3 ∷ []) 1000000
      (omega arith, (omega arith, tt)) (omega arith)
