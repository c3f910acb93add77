-- ===== src/Queue/Delivery.antt =====
-- What the sends of crates/mr-crabs-pty/src/queue.rs do to the chunks on their way: an endless queue
-- in order, of which the channel is a bounded part.
use mr_crabs.Common.{
  ℕ, none, zero, suc, ◌+◌, subst, ◌≤◌, ◌<◌, ◌≡◌, refl, ◌∙◌, sym, ap, Bool, true, false, Option,
  some, List, [], ◌∷◌, ◌++◌, length, take, drop, leb, ltb, ltb→lt, Bool-cases, inl, inr, ◌⊎◌,
  if◌then◌else◌, length-append, append_assoc, append-nil, arith,
}
use mr_crabs.Persist.Cutting.{take-drop-append}
use mr_crabs.Queue.{
  QueueError, TrySendError, Sending, Channel, Round, offer, receive, hang_up, meanwhile, try_send,
  after_attempt, SendOutcome, map_err, map_try_send_error, send_loop, send_timeout,
}

-- All that was ever accepted, in order.
abbrev pub delivered : Channel → List (List ℕ)
delivered c = c.received ++ c.items

abbrev pub IsBounded : Channel → Type 0
IsBounded c = length c.items ≤ c.capacity

-- What the end of a send says of the channel.
abbrev pub Ends : List (List ℕ) → List ℕ → Channel → Sending QueueError → Type 0
Ends before chunk c Sending.sent = (delivered c ≡ before ++ (chunk ∷ [])) × (c.connected ≡ true)
Ends before chunk c (Sending.failed QueueError.closed) =
    (c.connected ≡ false) × ((lost : List (List ℕ)) × (before ≡ delivered c ++ lost))
Ends before chunk c (Sending.failed QueueError.full) =
    (delivered c ≡ before) × (c.connected ≡ true) × (c.capacity ≤ length c.items)
Ends before chunk c (Sending.failed QueueError.timeout) =
    (delivered c ≡ before) × (c.connected ≡ true) × (c.capacity ≤ length c.items)

-- The three ends of an offer.
pub data Offered (c : Channel) (chunk : List ℕ) : Channel × Sending TrySendError → Type 0 where
  taken :
      c.connected ≡ true
      → length c.items < c.capacity
      → Offered c chunk (record c { items = c.items ++ (chunk ∷ []) }, Sending.sent)
  refused :
      c.connected ≡ true
      → c.capacity ≤ length c.items
      → Offered c chunk (c, Sending.failed (TrySendError.full chunk))
  gone : c.connected ≡ false → Offered c chunk (c, Sending.failed (TrySendError.disconnected chunk))

leb_of_ltb : (a b : ℕ) → ltb a b ≡ false → b ≤ a
leb_of_ltb a b h = ground arith

pub offer-Offered : (c : Channel) (chunk : List ℕ) → Offered c chunk (offer c chunk)
unfolding offer
offer-Offered c chunk = at c.connected (ltb (length c.items) c.capacity) refl refl
  where
    at :
        (on room : Bool)
        → c.connected ≡ on
        → ltb (length c.items) c.capacity ≡ room
        → Offered c chunk (
            if on
            then if room
              then (record c { items = c.items ++ (chunk ∷ []) }, Sending.sent)
              else (c, Sending.failed (TrySendError.full chunk))
            else (c, Sending.failed (TrySendError.disconnected chunk)))
    at true true on room = taken on (ltb→lt _ _ room)
    at true false on no_room = refused on (leb_of_ltb _ _ no_room)
    at false room off _ = gone off

receive-delivered : (n : ℕ) (c : Channel) → delivered (receive n c) ≡ delivered c
unfolding receive
receive-delivered n c = elim (Bool-cases c.connected) [
  | inl on ↦ rw on (
      append_assoc c.received (take n c.items) (drop n c.items)
      ∙ ap (λ xs. c.received ++ xs) (take-drop-append n c.items))
  | inr off ↦ rw off
]

length-drop_le {ℓ} : {A : Type ℓ} (n : ℕ) (xs : List A) → length (drop n xs) ≤ length xs
length-drop_le zero xs = omega arith
length-drop_le (suc n) [] = omega arith
length-drop_le (suc n) (x ∷ xs) = omega (arith, length-drop_le n xs)

pub receive-IsBounded : (n : ℕ) (c : Channel) → IsBounded c → IsBounded (receive n c)
unfolding receive
receive-IsBounded n c h = ground (arith, length-drop_le n c.items)

pub meanwhile-IsBounded : (r : Round) (c : Channel) → IsBounded c → IsBounded (meanwhile r c)
unfolding meanwhile hang_up
meanwhile-IsBounded r c h = ground (arith, receive-IsBounded r.takes c)

-- What the receiver does in a round only moves chunks on, unless it is dropped.
meanwhile-delivered :
    (r : Round) (c : Channel)
    → (lost : List (List ℕ)) × (delivered c ≡ delivered (meanwhile r c) ++ lost)
      × ((meanwhile r c).connected ≡ true → lost ≡ [])
unfolding meanwhile hang_up
meanwhile-delivered r c = elim (Bool-cases r.hangs_up) [
  | inl up ↦ rw up (
    (receive r.takes c).items,
    sym (receive-delivered r.takes c)
        ∙ ap (λ xs. xs ++ (receive r.takes c).items) (sym (append-nil _)),
    λ h. cc,
  )
  | inr stays ↦ rw stays ([], sym (receive-delivered r.takes c) ∙ sym (append-nil _), λ h. refl)
]

try_taken :
    (c : Channel) (chunk : List ℕ)
    → c.connected ≡ true
    → length c.items < c.capacity
    → IsBounded (record c { items = c.items ++ (chunk ∷ []) })
      × Ends (delivered c) chunk (record c { items = c.items ++ (chunk ∷ []) }) Sending.sent
try_taken c chunk on room = (
  omega (arith, length-append c.items (chunk ∷ []), room),
  (sym (append_assoc c.received c.items (chunk ∷ [])), on),
)

-- One attempt: the chunk is accepted at the end of the queue, or everything stays as it was.
pub try_send-Ends :
    (c : Channel) (chunk : List ℕ)
    → IsBounded c
    → IsBounded (try_send c chunk).0
      × Ends (delivered c) chunk (try_send c chunk).0 (try_send c chunk).1
unfolding try_send map_err map_try_send_error
try_send-Ends c chunk h = at (offer c chunk) (offer-Offered c chunk)
  where
    at :
        (o : Channel × Sending TrySendError)
        → Offered c chunk o
        → IsBounded o.0 × Ends (delivered c) chunk o.0 (map_err o.1)
    at _ (taken on room) = try_taken c chunk on room
    at _ (refused on no_room) = (h, (refl, on, no_room))
    at _ (gone off) = (h, (off, ([], sym (append-nil _))))

-- The rest of the loop, seen from the channel before a round of waiting.
Ends-before :
    (r : Round) (c : Channel) (chunk : List ℕ) (o : SendOutcome)
    → (o.1 ≡ Sending.failed QueueError.closed) ⊎ ((meanwhile r c).connected ≡ true)
    → Ends (delivered (meanwhile r c)) chunk o.0 o.1
    → Ends (delivered c) chunk o.0 o.1
Ends-before r c chunk o (inr on) h =
    let (lost, same, kept) = meanwhile-delivered r c in
    subst (λ before. Ends before chunk o.0 o.1)
      (sym (same ∙ ap (λ xs. delivered (meanwhile r c) ++ xs) (kept on) ∙ append-nil _)) h
Ends-before r c chunk (c', Sending.failed QueueError.closed) (inl _) (off, (taken_off, rest)) =
    let (lost, same, kept) = meanwhile-delivered r c in
    (
      off,
      (
        taken_off ++ lost,
        same ∙ ap (λ xs. xs ++ lost) rest ∙ append_assoc (delivered c') taken_off lost,
      ),
    )
Ends-before r c chunk (c', Sending.sent) (inl e) h = cc
Ends-before r c chunk (c', Sending.failed QueueError.full) (inl e) h = cc
Ends-before r c chunk (c', Sending.failed QueueError.timeout) (inl e) h = cc

-- Without a receiver the loop gives up.
send_loop-gone :
    (rs : List Round) (now deadline : ℕ) (c : Channel) (chunk : List ℕ) {out : SendOutcome}
    → send_loop rs now deadline c chunk ≡ some out
    → (out.1 ≡ Sending.failed QueueError.closed) ⊎ (c.connected ≡ true)
unfolding send_loop after_attempt offer
send_loop-gone [] now deadline c chunk h = cc
send_loop-gone (r ∷ rs) now deadline c chunk h = elim (Bool-cases c.connected) [
  | inl on ↦ inr on
  | inr off ↦ inl (ground (arith, off, h))
]

-- The loop, however the receiver behaves while it waits. What it takes is in `delivered` as before.
pub send_loop-Ends :
    (rs : List Round) (now deadline : ℕ) (c : Channel) (chunk : List ℕ) {out : SendOutcome}
    → IsBounded c
    → send_loop rs now deadline c chunk ≡ some out
    → IsBounded out.0 × Ends (delivered c) chunk out.0 out.1
unfolding send_loop
send_loop-Ends [] now deadline c chunk b h = cc
send_loop-Ends (r ∷ rs) now deadline c chunk {out} b h =
    at (leb deadline (now + r.delay)) (offer c chunk) (offer-Offered c chunk)
      (send_loop-Ends rs _ deadline (meanwhile r c) chunk (meanwhile-IsBounded r c b)) h
  where
    again : List ℕ → Option SendOutcome
    again = send_loop rs (now + r.delay + r.slept) deadline (meanwhile r c)

    done :
        {o : SendOutcome}
        → some o ≡ some out
        → IsBounded o.0 × Ends (delivered c) chunk o.0 o.1
        → IsBounded out.0 × Ends (delivered c) chunk out.0 out.1
    done e = subst (λ (o : SendOutcome). IsBounded o.0 × Ends (delivered c) chunk o.0 o.1) (cc e)

    at :
        (past : Bool) (o : Channel × Sending TrySendError)
        → Offered c chunk o
        → (again chunk ≡ some out
            → IsBounded out.0 × Ends (delivered (meanwhile r c)) chunk out.0 out.1)
        → after_attempt past again o ≡ some out
        → IsBounded out.0 × Ends (delivered c) chunk out.0 out.1
    at past _ (taken on room) ih e = done e (try_taken c chunk on room)
    at true _ (refused on full) ih e = done e (b, (refl, on, full))
    at false _ (refused on full) ih e =
        let (b', h') = ih e in
        (b', Ends-before r c chunk out (send_loop-gone rs _ deadline (meanwhile r c) chunk e) h')
    at past _ (gone off) ih e = done e (b, (off, ([], sym (append-nil _))))

-- On a queue within its capacity, however long the wait: where a call gives an outcome, an accepted
-- chunk is at the end of the queue, a refused one changes nothing but what the receiver did
-- meanwhile, and the queue stays within its capacity.
pub send_timeout-Ends :
    (latest : ℕ) (rounds : List Round) (now : ℕ) (c : Channel) (chunk : List ℕ) (wait : ℕ)
    {out : SendOutcome}
    → IsBounded c
    → send_timeout latest rounds now c chunk wait ≡ some (some out)
    → IsBounded out.0 × Ends (delivered c) chunk out.0 out.1
unfolding send_timeout
send_timeout-Ends latest rounds now c chunk wait {out} b h =
    elim (Bool-cases (leb (now + wait) latest)) [
      | inl fits ↦
          let e : some (send_loop rounds now (now + wait) c chunk) ≡ some (some out) =
            rw fits at h in
          send_loop-Ends rounds now (now + wait) c chunk b (cc e)
      | inr late ↦ let e : none ≡ some (some out) = rw late at h in absurd (cc e)
    ]
