-- ===== src/Core/Waiters/Polling.antt =====
-- The long poll ends, and with what.
use randevu.Base.{
  ℕ, zero, suc, ◌+◌, ◌-◌, ◌≤◌, ◌<◌, true, false, Option, none, some, leb, ◌≡◌, refl, sym, ap, subst,
  arith, Bool-cases, ◌⊎◌, inl, inr,
}
use randevu.Core.Waiters.{
  Waiters, wait, Poll, Polled, unfinished, rejected, resolved_to, parked, round, poll_loop,
  long_poll,
}

module _ {W R : Type 0} (poll : Poll W R) where
  -- The next read finds messages.
  abbrev pub Hits : W → Type 0
  Hits w = (r : R) × (((poll.read w).0 ≡ some r) × (poll.found r ≡ true))

  -- The clock does not go back, and a waiter that is resolved has waited for a tick, or is woken by what
  -- the next read finds.
  pub record IsTicking : Type 0 where
    pub read : (w : W) → poll.now w ≤ poll.now (poll.read w).1
    pub set_waiters : (ws : Waiters) (w : W) → poll.now (poll.set_waiters ws w) ≡ poll.now w
    pub resume :
        (n ms : ℕ) (w : W)
        → (poll.now w < poll.now (poll.resume n ms w)) ⊎ Hits (poll.resume n ms w)

  -- The states in which the loop reads: the first, and the one after each wait, which is behind a read that
  -- found nothing before the deadline. A waiter is added to those that are parked, with the time that is left
  -- on its timer.
  pub data Reads (deadline : ℕ) (start : W) : W → Type 0 where
    first : Reads deadline start start
    again :
        {v w : W} (r : R)
        → Reads deadline start v
        → poll.read v ≡ (some r, w)
        → poll.found r ≡ false
        → poll.now w < deadline
        → Reads deadline start (
            poll.resume
              (poll.waiters w).started
              (deadline - poll.now w)
              (poll.set_waiters (wait (poll.waiters w)) w))

  -- What the poll gives, by its last read: what that read found, or the timeout's answer where it found
  -- nothing, at the deadline or later; the poll throws as that read does.
  abbrev pub Settled : ℕ → Polled R → Option R × W → Type 0
  Settled deadline unfinished x = ⊥
  Settled deadline rejected x = x.0 ≡ none
  Settled deadline (resolved_to a) x =
      (r : R) × ((x.0 ≡ some r)
        × (((poll.found r ≡ true) × (a ≡ r))
            ⊎ ((poll.found r ≡ false) × ((deadline ≤ poll.now x.1) × (a ≡ poll.on_timeout)))))

  -- The poll has ended, with its last read in a state that the loop reaches.
  pub record IsEnded (deadline : ℕ) (start : W) (end : Polled R × W) : Type 0 where
    pub last : W
    pub reached : Reads deadline start last
    pub left : (poll.read last).1 ≡ end.1
    pub settled : Settled deadline end.0 (poll.read last)

  module _ (ticking : IsTicking) (deadline : ℕ) (start : W) where
    -- Enough fuel for the time that is left, or for a read that finds messages.
    abbrev Enough : ℕ → W → Type 0
    Enough fuel w = (0 < fuel) × ((deadline < poll.now w + fuel) ⊎ Hits w)

    ended :
        (w : W) (p : Polled R) (o : Option R) (w' : W)
        → Reads deadline start w
        → poll.read w ≡ (o, w')
        → Settled deadline p (o, w')
        → IsEnded deadline start (p, w')
    ended w p o w' reached e settled = record {
      last = w;
      reached = reached;
      left = ap (λ (x : Option R × W). x.1) e;
      settled = subst (Settled deadline p) (sym e) settled;
    }

    parked-Enough :
        (fuel : ℕ) (w : W)
        → poll.now w < deadline
        → deadline ≤ poll.now w + fuel
        → Enough fuel (parked poll (deadline - poll.now w) w)
    unfolding parked
    parked-Enough fuel w early h =
        let ws = wait (poll.waiters w) in
        elim (ticking.resume (poll.waiters w).started (deadline - poll.now w)
          (poll.set_waiters ws w)) [
            | inl later ↦ (omega arith, inl (omega (arith, later, ticking.set_waiters ws w)))
            | inr hits ↦ (omega arith, inr hits)
          ]

    missed-Enough :
        (fuel : ℕ) (w w' : W) (r : R)
        → poll.read w ≡ (some r, w')
        → poll.found r ≡ false
        → Enough (suc fuel) w
        → poll.now w' < deadline
        → Enough fuel (parked poll (deadline - poll.now w') w')
    missed-Enough fuel w w' r e missed (_, inl h) early =
        let forward : poll.now w ≤ poll.now w' =
          subst (λ (x : Option R × W). poll.now w ≤ poll.now x.1) e (ticking.read w) in
        parked-Enough fuel w' early (omega arith)
    missed-Enough fuel w w' r e missed (_, inr (r', (g, hit))) early =
        cc (ap (λ (x : Option R × W). x.0) e)

    round-IsEnded :
        (fuel : ℕ) (w : W) (next : W → Polled R × W) (x : Option R × W)
        → Reads deadline start w
        → Enough (suc fuel) w
        → poll.read w ≡ x
        → ((v : W) → Reads deadline start v → Enough fuel v → IsEnded deadline start (next v))
        → IsEnded deadline start (round poll deadline next x)
    unfolding round parked
    round-IsEnded fuel w next (none, w') reached enough e k =
        ended w rejected none w' reached e refl
    round-IsEnded fuel w next (some r, w') reached enough e k = elim (Bool-cases (poll.found r)) [
      | inl hit ↦
          rw hit (ended w (resolved_to r) (some r) w' reached e (r, (refl, inl (hit, refl))))
      | inr missed ↦ elim (Bool-cases (leb deadline (poll.now w'))) [
        | inl late ↦
            rw (missed, late)
              (ended w (resolved_to poll.on_timeout) (some r) w' reached e
                (r, (refl, inr (missed, (ground arith, refl)))))
        | inr time ↦
            let early : poll.now w' < deadline = ground arith in
            rw (missed, time)
              (k (parked poll (deadline - poll.now w') w') (again r reached e missed early)
                (missed-Enough fuel w w' r e missed enough early))
      ]
    ]

    poll_loop-IsEnded :
        (fuel : ℕ) (w : W)
        → Reads deadline start w
        → Enough fuel w
        → IsEnded deadline start (poll_loop poll deadline fuel w)
    unfolding poll_loop
    poll_loop-IsEnded zero w reached enough = absurd (omega (arith, enough.0))
    poll_loop-IsEnded (suc fuel) w reached enough =
        round-IsEnded fuel w (poll_loop poll deadline fuel) (poll.read w) reached enough refl
          (poll_loop-IsEnded fuel)

  -- The poll ends within more rounds than there are milliseconds, where no step turns the clock back and
  -- each wait takes a tick or is followed by a read that finds messages. Its reads are the first one and
  -- one after each wait, which is for the time left to the deadline; it gives what its last read found,
  -- or the timeout's answer where that read found nothing at the deadline or later, or throws as that
  -- read did.
  pub long_poll-IsEnded :
      IsTicking
      → (fuel timeout_ms : ℕ) (w : W) → timeout_ms < fuel
      → IsEnded (poll.now w + timeout_ms) w (long_poll poll fuel timeout_ms w)
  unfolding long_poll
  long_poll-IsEnded ticking fuel timeout_ms w h =
      poll_loop-IsEnded ticking (poll.now w + timeout_ms) w fuel w first
        (omega arith, inl (omega arith))
