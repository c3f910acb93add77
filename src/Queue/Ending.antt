-- ===== src/Queue/Ending.antt =====
-- `send_timeout` of crates/mr-crabs-pty/src/queue.rs ends.
use mr_crabs.Common.{
  ℕ, ◌+◌, ◌*◌, ◌≤◌, ◌<◌, ◌≡◌, ◌⊎◌, inl, inr, Bool-cases, none, ap, refl, sym, subst, Bool, true,
  false, Option, some, List, [], ◌∷◌, length, leb, arith,
}
use mr_crabs.Queue.{
  TrySendError, Sending, Channel, Round, SendOutcome, offer, meanwhile, after_attempt, send_loop,
  send_timeout, send_timeout_poll,
}
use mr_crabs.Queue.Delivery.{Offered, taken, refused, gone, offer-Offered}

-- `thread::sleep` sleeps at least as long as it is told to.
abbrev pub Sleeps : List Round → Type 0
Sleeps [] = Unit {0}
Sleeps (r ∷ rs) = (send_timeout_poll ≤ r.slept) × Sleeps rs

send_loop-cons :
    (r : Round) (rs : List Round) (now deadline : ℕ) (c : Channel) (chunk : List ℕ)
    → send_loop (r ∷ rs) now deadline c chunk
      ≡ after_attempt
          (leb deadline (now + r.delay))
          (send_loop rs (now + r.delay + r.slept) deadline (meanwhile r c))
          (offer c chunk)
unfolding send_loop
send_loop-cons r rs now deadline c chunk = refl

after_attempt_total :
    {c : Channel} {chunk : List ℕ} (again : List ℕ → Option SendOutcome) (past : Bool)
    (o : Channel × Sending TrySendError)
    → Offered c chunk o
    → (past ≡ false → (out : SendOutcome) × (again chunk ≡ some out))
    → (out : SendOutcome) × (after_attempt past again o ≡ some out)
unfolding after_attempt
after_attempt_total again past _ (taken on room) more = (_, refl)
after_attempt_total again true _ (refused on no_room) more = (_, refl)
after_attempt_total again false _ (refused on no_room) more = more refl
after_attempt_total again past _ (gone off) more = (_, refl)

-- A round is the last one, or the rest of the loop ends.
round_total :
    (r : Round) (rs : List Round) (now deadline : ℕ) (c : Channel) (chunk : List ℕ)
    → (leb deadline (now + r.delay) ≡ false
        → (out : SendOutcome) × (send_loop rs
              (now + r.delay + r.slept)
              deadline
              (meanwhile r c)
              chunk
            ≡ some out))
    → (out : SendOutcome) × (send_loop (r ∷ rs) now deadline c chunk ≡ some out)
round_total r rs now deadline c chunk more =
    subst (λ m. (out : SendOutcome) × (m ≡ some out))
      (sym (send_loop-cons r rs now deadline c chunk))
      (after_attempt_total _ _ (offer c chunk) (offer-Offered c chunk) more)

send_loop_total :
    (r : Round) (rs : List Round) (now deadline : ℕ) (c : Channel) (chunk : List ℕ)
    → Sleeps (r ∷ rs)
    → deadline ≤ now + length rs * send_timeout_poll
    → (out : SendOutcome) × (send_loop (r ∷ rs) now deadline c chunk ≡ some out)
send_loop_total r [] now deadline c chunk s h =
    round_total r [] now deadline c chunk (λ early. absurd (ground (arith, early, h)))
send_loop_total r (q ∷ qs) now deadline c chunk s h =
    round_total r (q ∷ qs) now deadline c chunk λ early.
      send_loop_total q qs (now + r.delay + r.slept) deadline (meanwhile r c) chunk s.1
        (omega (arith, s.0, h))

-- Where the deadline is a time that an `Instant` holds, the wait ends: if each sleep lasts at least as
-- long as it is asked to, a timeout needs at most one more round than it has polls, whatever the
-- receiver does. A later deadline makes the call panic before any attempt.
pub send_timeout_total :
    (latest : ℕ) (r : Round) (rs : List Round) (now : ℕ) (c : Channel) (chunk : List ℕ) (wait : ℕ)
    → Sleeps (r ∷ rs)
    → wait ≤ length rs * send_timeout_poll
    → ((now + wait ≤ latest)
        × ((out : SendOutcome) × (send_timeout latest (r ∷ rs) now c chunk wait ≡ some (some out))))
      ⊎ ((latest < now + wait) × (send_timeout latest (r ∷ rs) now c chunk wait ≡ none))
unfolding send_timeout
send_timeout_total latest r rs now c chunk wait s h = elim (Bool-cases (leb (now + wait) latest)) [
  | inl fits ↦
      let (out, e) = send_loop_total r rs now (now + wait) c chunk s (omega (arith, h)) in
      inl (ground (arith, fits), (out, rw fits (ap some e)))
  | inr late ↦ inr (ground (arith, late), rw late refl)
]
