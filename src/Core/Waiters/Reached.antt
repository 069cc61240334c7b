-- ===== src/Core/Waiters/Reached.antt =====
-- What holds of the waiters in every history.
use randevu.Base.{
  ℕ, ◌+◌, ◌<◌, true, List, [], ◌∷◌, ◌++◌, if◌then◌else◌, ◌==◌, ◌≡◌, refl, sym, ap, ◌∙◌, arith, ltb,
  subst, append-nil, append_assoc,
}
use randevu.Core.Waiters.{
  Waiters, remove, is_set, wait, resolve_all, wake_all, time_out, Step, waits, wakes, fires,
  Reachable, fresh, after,
}

pub count : ℕ → List ℕ → ℕ
count i [] = 0
count i (j ∷ js) = if j == i then count i js + 1 else count i js

count-remove :
    (i k : ℕ) (xs : List ℕ)
    → is_set i xs ≡ true
    → count k (remove i xs) + (if i == k then 1 else 0) ≡ count k xs
unfolding count remove is_set
count-remove i k [] h = cc
count-remove i k (x ∷ xs) h = ground (arith, count-remove i k xs)

count-append : (i : ℕ) (xs ys : List ℕ) → count i (xs ++ ys) ≡ count i xs + count i ys
unfolding count
count-append i [] ys = omega arith
count-append i (x ∷ xs) ys = ground (arith, count-append i xs ys)

-- Each waiter that was started is parked or resolved, once; and the timers set are the parked ones'.
pub record IsExact (w : Waiters) : Type 0 where
  pub timed : w.timers ≡ w.waiters
  pub once : (i : ℕ) → count i w.waiters + count i w.resolved ≡ (if ltb i w.started then 1 else 0)

wait-IsExact : (w : Waiters) → IsExact w → IsExact (wait w)
unfolding wait count
wait-IsExact w h = record {
  timed = ap (λ t. t ++ w.started ∷ []) h.timed;
  once = λ i. ground (arith, h.once i, count-append i w.waiters (w.started ∷ []));
}

resolve_all-resolved :
    (pending : List ℕ) (w : Waiters) → (resolve_all pending w).resolved ≡ w.resolved ++ pending
unfolding resolve_all
resolve_all-resolved [] w = sym (append-nil _)
resolve_all-resolved (i ∷ pending) w =
    resolve_all-resolved pending _ ∙ append_assoc w.resolved (i ∷ []) pending

resolve_all-waiters : (pending : List ℕ) (w : Waiters) → (resolve_all pending w).waiters ≡ w.waiters
unfolding resolve_all
resolve_all-waiters [] w = refl
resolve_all-waiters (i ∷ pending) w = resolve_all-waiters pending _

resolve_all-started : (pending : List ℕ) (w : Waiters) → (resolve_all pending w).started ≡ w.started
unfolding resolve_all
resolve_all-started [] w = refl
resolve_all-started (i ∷ pending) w = resolve_all-started pending _

resolve_all-timers :
    (pending : List ℕ) (w : Waiters) → w.timers ≡ pending → (resolve_all pending w).timers ≡ []
unfolding resolve_all remove
resolve_all-timers [] w e = e
resolve_all-timers (i ∷ pending) w e = resolve_all-timers pending _ (ap (remove i) e ∙ ground arith)

wake_all-IsExact : (w : Waiters) → IsExact w → IsExact (wake_all w)
unfolding wake_all count
wake_all-IsExact w h =
    let start : Waiters = record w { waiters = [] } in
    record {
      timed =
          resolve_all-timers w.waiters start h.timed ∙ sym (resolve_all-waiters w.waiters start);
      once = λ i.
          rw
            (
              resolve_all-waiters w.waiters start,
              resolve_all-resolved w.waiters start,
              resolve_all-started w.waiters start,
            )
            (omega (arith, h.once i, count-append i w.resolved w.waiters));
    }

time_out-IsExact :
    (i : ℕ) (w : Waiters) → is_set i w.timers ≡ true → IsExact w → IsExact (time_out i w)
unfolding time_out count
time_out-IsExact i w set h = record {
  timed = ap (remove i) h.timed;
  once = λ k. ground (
    arith,
    h.once k,
    count-append k w.resolved (i ∷ []),
    count-remove i k w.waiters (subst (λ t. is_set i t ≡ true) h.timed set),
  );
}

Step-IsExact : {w v : Waiters} → Step w v → IsExact w → IsExact v
Step-IsExact {w} waits h = wait-IsExact w h
Step-IsExact {w} wakes h = wake_all-IsExact w h
Step-IsExact {w} (fires i set) h = time_out-IsExact i w set h

-- However waits, wake-ups and timeouts follow each other, each waiter that was started is either
-- parked or resolved, once and not both, and exactly the parked waiters have a timer set.
pub Reachable-IsExact : {w : Waiters} → Reachable w → IsExact w
unfolding count
Reachable-IsExact fresh = record { timed = refl; once = λ i. ground arith }
Reachable-IsExact (after r s) = Step-IsExact s (Reachable-IsExact r)

-- After `wakeAll` nobody is parked, no timer is left set, and all who were started are resolved.
pub wake_all_lem :
    {w : Waiters}
    → Reachable w
    → ((wake_all w).waiters ≡ [])
      × ((wake_all w).timers ≡ [])
      × ((i : ℕ) → i < w.started → count i (wake_all w).resolved ≡ 1)
unfolding wake_all count
wake_all_lem {w} r =
    let h = Reachable-IsExact r in
    let start : Waiters = record w { waiters = [] } in
    (
      resolve_all-waiters w.waiters start,
      resolve_all-timers w.waiters start h.timed,
      λ i l.
          ap (count i) (resolve_all-resolved w.waiters start)
          ∙ count-append i w.resolved w.waiters
          ∙ ground (arith, h.once i),
    )
