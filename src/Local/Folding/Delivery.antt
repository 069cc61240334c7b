-- ===== src/Local/Folding/Delivery.antt =====
-- What `receive` hands out over several calls.
use randevu.Base.{
  ℕ, ◌≤◌, ◌<◌, max, not, ◌&&◌, List, [], ◌∷◌, ◌++◌, Str, str_eq, ltb, leb, All, Bool-cases, ◌≡◌,
  refl, sym, ap, ◌∙◌, arith, inl, inr, if◌then◌else◌,
}
use randevu.Local.Data.{LogEntry, ReceivedMessage}
use randevu.Local.Folding.{deliver}

-- A logged message as `receive` shows it.
abbrev pub shown : LogEntry → ReceivedMessage
shown e = record {
  seq = e.seq;
  id = e.id;
  sender_id = e.sender_id;
  type = e.type;
  body = e.body;
  ref = e.dto.ref;
  verified = e.verified;
}

-- The messages of the others behind a number.
unfoldable pub others : Str → ℕ → List LogEntry → List ReceivedMessage
others id n [] = []
others id n (e ∷ es) =
    let rest = others id n es in
    if ltb n e.seq && not (str_eq e.sender_id id) then shown e ∷ rest else rest

-- Numbers that go up, from above a bound.
abbrev pub Rising : ℕ → List LogEntry → Type 0
Rising n [] = Unit
Rising n (e ∷ es) = (n < e.seq) × Rising e.seq es

last_of : ℕ → List LogEntry → ℕ
last_of n [] = n
last_of n (e ∷ es) = last_of (max n e.seq) es

others-append :
    (id : Str) (n : ℕ) (a b : List LogEntry) → others id n (a ++ b) ≡ others id n a ++ others id n b
unfolding others
others-append id n [] b = refl
others-append id n (e ∷ a) b = ground (arith, others-append id n a b)

le-last_of : (n : ℕ) (es : List LogEntry) → n ≤ last_of n es
unfolding last_of
le-last_of n [] = omega arith
le-last_of n (e ∷ es) = omega (arith, le-last_of (max n e.seq) es)

others-last_of : (id : Str) (n m : ℕ) (es : List LogEntry) → last_of n es ≤ m → others id m es ≡ []
unfolding others last_of
others-last_of id n m [] h = refl
others-last_of id n m (e ∷ es) h =
    ground (arith, others-last_of id (max n e.seq) m es h, le-last_of (max n e.seq) es)

Rising-above : (n m : ℕ) (es : List LogEntry) → n ≤ m → Rising m es → All (λ e. n < e.seq) es
Rising-above n m [] l h = tt
Rising-above n m (e ∷ es) l h =
    (omega (arith, l, h.0), Rising-above n e.seq es (omega (arith, l, h.0)) h.1)

All-after : (n : ℕ) (a b : List LogEntry) → All (λ e. n < e.seq) (a ++ b) → All (λ e. n < e.seq) b
All-after n [] b h = h
All-after n (e ∷ a) b h = All-after n a b h.1

others-max :
    (id : Str) (n m : ℕ) (es : List LogEntry)
    → All (λ e. m < e.seq) es
    → others id (max n m) es ≡ others id n es
unfolding others
others-max id n m [] h = refl
others-max id n m (e ∷ es) h = ground (arith, others-max id n m es h.1, h.0)

others-later :
    (id : Str) (b n : ℕ) (log more : List LogEntry)
    → Rising b (log ++ more)
    → others id (last_of n log) more ≡ others id n more
unfolding last_of
others-later id b n [] more h = refl
others-later id b n (e ∷ log) more h =
    others-later id e.seq (max n e.seq) log more h.1
    ∙ others-max id n e.seq more
        (All-after e.seq log more (Rising-above e.seq e.seq (log ++ more) (omega arith) h.1))

Rising-prefix : (b : ℕ) (log more : List LogEntry) → Rising b (log ++ more) → Rising b log
Rising-prefix b [] more h = tt
Rising-prefix b (e ∷ log) more h = (h.0, Rising-prefix e.seq log more h.1)

-- The loop gives the messages of the others behind the cursor, and moves the cursor to the end.
deliver-others :
    (id : Str) (b n : ℕ) (log : List LogEntry)
    → Rising b log
    → deliver id n log ≡ (others id n log, last_of n log)
unfolding deliver others last_of
deliver-others id b n [] h = refl
deliver-others id b n (e ∷ es) h = elim (Bool-cases (leb e.seq n)) [
  | inl seen ↦
      let stays : max n e.seq ≡ n = ground (arith, seen) in
      let rest = deliver-others id e.seq n es h.1 in ground (arith, seen, stays, rest)
  | inr fresh ↦
      let moves : max n e.seq ≡ e.seq = ground (arith, fresh) in
      let rest = deliver-others id e.seq e.seq es h.1 in
      let same : others id e.seq es ≡ others id n es =
        sym (ap (λ k. others id k es) moves)
        ∙ others-max id n e.seq es (Rising-above e.seq e.seq es (omega arith) h.1) in
      ground (arith, fresh, moves, rest, same)
]

-- Two calls of `receive`'s loop hand out exactly the messages of the others behind the first cursor, each
-- of them once and in order, whatever was logged in between; the log's numbers go up.
pub deliver-once :
    (id : Str) (b n : ℕ) (log more : List LogEntry)
    → Rising b (log ++ more)
    → (deliver id n log).0 ++ (deliver id (deliver id n log).1 (log ++ more)).0
      ≡ others id n (log ++ more)
deliver-once id b n log more h =
    let first = deliver-others id b n log (Rising-prefix b log more h) in
    let again = deliver-others id b (last_of n log) (log ++ more) h in
    ap (λ r. r.0 ++ (deliver id r.1 (log ++ more)).0) first
    ∙ ap (λ r. others id n log ++ r.0) again
    ∙ ap (λ l. others id n log ++ l)
        (others-append id (last_of n log) log more
          ∙ ap (λ l. l ++ others id (last_of n log) more)
              (others-last_of id n (last_of n log) log (omega arith))
          ∙ others-later id b n log more h)
    ∙ sym (others-append id n log more)
