-- ===== src/Examples/Polls.antt =====
-- Three waiters, one of which times out, and a poll of a few rounds.
use randevu.Base.{ℕ, ◌+◌, some, ltb, ◌≡◌, refl, arith, inl}
use randevu.Core.Waiters.{
  Waiters, no_waiters, is_set, wait, time_out, Reachable, fresh, after, waits, fires, Poll,
  resolved_to, parked, poll_loop, long_poll,
}
use randevu.Core.Waiters.Reached.{IsExact, Reachable-IsExact}
use randevu.Core.Waiters.Polling.{IsTicking, IsEnded, long_poll-IsEnded}

abbrev three : Waiters
three = wait (wait (wait no_waiters))

abbrev two : Waiters
two = time_out 1 three

reached : Reachable two
unfolding is_set wait
reached = after (after (after (after fresh waits) waits) waits) (fires 1 refl)

Reachable-IsExact_example : IsExact two
Reachable-IsExact_example = Reachable-IsExact reached

-- A host whose state is its clock and its waiters: messages are found once the clock has passed twelve,
-- and each wait takes five ticks.
abbrev lobby : Poll (ℕ × Waiters) ℕ
lobby = record {
  now = λ w. w.0;
  waiters = λ w. w.1;
  set_waiters = λ ws w. (w.0, ws);
  read = λ w. (some w.0, w);
  found = λ r. ltb 12 r;
  on_timeout = 0;
  resume = λ n ms w. (w.0 + 5, w.1);
}

lobby-IsTicking : IsTicking lobby
lobby-IsTicking = record {
  read = λ w. omega arith;
  set_waiters = λ ws w. refl;
  resume = λ n ms w. inl (omega arith);
}

long_poll-IsEnded_example : IsEnded lobby 53 (3, no_waiters) (long_poll lobby 51 50 (3, no_waiters))
long_poll-IsEnded_example =
    long_poll-IsEnded lobby lobby-IsTicking 51 50 (3, no_waiters) (omega arith)

-- It is found in the third round, after two waits.
found_late : (long_poll lobby 51 50 (3, no_waiters)).0 ≡ resolved_to 13
unfolding long_poll poll_loop parked
found_late = refl

-- With less time it is not.
not_found : (long_poll lobby 51 4 (3, no_waiters)).0 ≡ resolved_to 0
unfolding long_poll poll_loop parked
not_found = refl
