-- ===== src/Relay/Dispatch/Steps.antt =====
-- What the relay's routing does to the store of a session, against the session's own requests.
use randevu.Base.{
  ℕ, ◌≤◌, ◌<◌, ◌+◌, Bool, true, false, Option, none, some, is_some, List, [], ◌∷◌, length, Str, ◌≡◌,
  refl, sym, ◌∙◌, arith, if◌then◌else◌, ◌⊎◌, inl, inr, subst,
}
use randevu.Noble.{Noble}
use randevu.Relay.Store.{Store}
use randevu.Relay.Keys.Laws.{seq_limit}
use randevu.Relay.Session.{
  Value, Result, ok, err, meta_of, init, get_messages, get_key, status, InitInput,
}
use randevu.Relay.Session.Room.{Room}
use randevu.Relay.Session.Refines.{Refines}
use randevu.Relay.Session.Opening.{first_room, init-Refines}
use randevu.Relay.Session.History.{
  Request, joins, posts, shares, step, room_step, IsSound, step-Refines, room_step-IsSound,
  length-room_step, first_room-IsSound, log-first_room,
}
use randevu.Relay.Dispatch.{
  DispatchCtx, Ambient, Reply, ReplyBody, member_only, authenticate, answer, at, route, after_auth,
  dispatch_session,
}

answer-store {ℓ} :
    {A : Type ℓ} (f : A → ReplyBody) (r : Result A × Store Value) → (answer f r).1 ≡ r.1
answer-store f (ok a, st) = refl
answer-store f (err n code, st) = refl

-- A call leaves the store alone, or does to it what one request of a history does.
Served : Noble → Store Value → Store Value → Type 0
Served noble st st' = (st' ≡ st) ⊎ ((q : Request) × (st' ≡ step noble st q))

init-again :
    (noble : Noble) (st : Store Value) (input : InitInput) (token : Str)
    → is_some (meta_of st) ≡ true
    → (init noble st input token).1 ≡ st
unfolding init
init-again noble st input token h = rw h refl

get_messages-store : (st : Store Value) (n : ℕ) → (get_messages st n).1 ≡ st
unfolding get_messages
get_messages-store st n = ground arith

get_key-store : (st : Store Value) (n : ℕ) (m : Str) → (get_key st n m).1 ≡ st
unfolding get_key
get_key-store st n m = ground arith

status-store : (st : Store Value) → (status st).1 ≡ st
unfolding status
status-store st = ground arith

-- What a call returns and leaves.
IsServed : Noble → Store Value → Reply × Store Value → Type 0
IsServed noble st r = Served noble st r.1

module _ (noble : Noble) (st : Store Value) where
  either :
      (b : Bool) (x y : Reply × Store Value)
      → IsServed noble st x
      → IsServed noble st y
      → IsServed noble st (if b then x else y)
  either true x y p q = p
  either false x y p q = q

  unchanged {ℓ} :
      {A : Type ℓ} (f : A → ReplyBody) (r : Result A × Store Value)
      → r.1 ≡ st
      → IsServed noble st (answer f r)
  unfolding IsServed Served
  unchanged f r e = inl (answer-store f r ∙ e)

  by_request {ℓ} :
      {A : Type ℓ} (f : A → ReplyBody) (r : Result A × Store Value) (q : Request)
      → r.1 ≡ step noble st q
      → IsServed noble st (answer f r)
  unfolding IsServed Served
  by_request f r q e = inr (q, answer-store f r ∙ e)

  kept : (r : Reply) → IsServed noble st (r, st)
  unfolding IsServed Served
  kept r = inl refl

  route-IsServed :
      (amb : Ambient) (ctx : DispatchCtx)
      → is_some (meta_of st) ≡ true
      → IsServed noble st (route noble amb st ctx)
  unfolding route step
  route-IsServed amb ctx h =
      either (at ctx "/init" "POST") _ _ (unchanged _ _ (init-again noble st _ _ h)) (
        either (at ctx "/join" "POST") _ _ (by_request _ _ (joins ctx.body.as_join) refl) (
          either (at ctx "/members" "GET") _ _ (kept _) (
            either (at ctx "/messages" "POST") _ _ (by_request _ _ (posts ctx.body.as_message) refl)
              (either (at ctx "/messages" "GET") _ _
                (unchanged _ _ (get_messages-store st ctx.after))
                (either (at ctx "/keys" "POST") _ _ (by_request _ _ (shares ctx.body.as_keys) refl)
                  (either (at ctx "/keys" "GET") _ _
                    (unchanged _ _ (get_key-store st ctx.epoch ctx.member_param))
                    (either (at ctx "/status" "GET") _ _ (unchanged _ _ (status-store st))
                      (kept _))))))))

  after_auth-IsServed :
      (amb : Ambient) (ctx : DispatchCtx) (o : Option Bool)
      → is_some (meta_of st) ≡ true
      → IsServed noble st (after_auth noble amb st ctx o)
  after_auth-IsServed amb ctx none h = kept _
  after_auth-IsServed amb ctx (some false) h = kept _
  after_auth-IsServed amb ctx (some true) h = route-IsServed amb ctx h

  dispatch-IsServed :
      (amb : Ambient) (ctx : DispatchCtx)
      → is_some (meta_of st) ≡ true
      → IsServed noble st (dispatch_session noble amb st ctx)
  unfolding dispatch_session
  dispatch-IsServed amb ctx h =
      either (member_only ctx.path) _ _
        (after_auth-IsServed amb ctx (authenticate noble amb st ctx) h) (route-IsServed amb ctx h)

-- The store after a row of calls, each with its own clock.
unfoldable pub serve : Noble → Store Value → List (Ambient × DispatchCtx) → Store Value
unfolding dispatch_session
serve noble st [] = st
serve noble st ((amb, ctx) ∷ cs) = serve noble (dispatch_session noble amb st ctx).1 cs

-- A store that holds a sound room with at most so many messages.
abbrev pub HoldsRoom : ℕ → Store Value → Type 0
HoldsRoom n st = (r : Room) × (Refines st r × IsSound r × (length r.log ≤ n))

meta-HoldsRoom : (n : ℕ) (st : Store Value) → HoldsRoom n st → is_some (meta_of st) ≡ true
unfolding meta_of
meta-HoldsRoom n st (r, (h, s, b)) = rw (h.meta_at) refl

HoldsRoom-Served :
    (noble : Noble) (n : ℕ) (st st' : Store Value)
    → n + 1 < seq_limit
    → Served noble st st'
    → HoldsRoom n st
    → HoldsRoom (n + 1) st'
unfolding Served
HoldsRoom-Served noble n st st' l (inl e) (r, (h, s, b)) =
    subst (HoldsRoom (n + 1)) (sym e) (r, (h, s, omega arith))
HoldsRoom-Served noble n st st' l (inr (q, e)) (r, (h, s, b)) = subst (HoldsRoom (n + 1)) (sym e) (
  room_step noble r q,
  (
    step-Refines noble st r q (omega arith) h,
    room_step-IsSound noble r q s,
    omega (arith, length-room_step noble r q),
  ),
)

serve-HoldsRoom :
    (noble : Noble) (calls : List (Ambient × DispatchCtx)) (n : ℕ) (st : Store Value)
    → n + length calls < seq_limit
    → HoldsRoom n st
    → HoldsRoom (n + length calls) (serve noble st calls)
unfolding serve IsServed
serve-HoldsRoom noble [] n st l h = subst (λ k. HoldsRoom k st) (omega arith) h
serve-HoldsRoom noble ((amb, ctx) ∷ calls) n st l h =
    let next = dispatch_session noble amb st ctx in
    let once =
      HoldsRoom-Served noble n st next.1 (omega arith)
        (dispatch-IsServed noble st amb ctx (meta-HoldsRoom n st h)) h in
    subst (λ k. HoldsRoom k (serve noble next.1 calls)) (omega arith)
      (serve-HoldsRoom noble calls (n + 1) next.1 (omega arith) once)

-- However the relay is called after `init` with two places at least, its store holds a sound room: signed or not, on any path,
-- with any clock, for fewer than 10 ^ 12 calls, whose number bounds the messages.
pub serve-holds-room :
    (noble : Noble) (input : InitInput) (join_token : Str) (calls : List (Ambient × DispatchCtx))
    → 2 ≤ input.max_members
    → length calls < seq_limit
    → HoldsRoom (length calls) (serve noble (init noble [] input join_token).1 calls)
serve-holds-room noble input join_token calls h l =
    subst (λ k. HoldsRoom k (serve noble (init noble [] input join_token).1 calls)) (omega arith)
      (serve-HoldsRoom noble calls 0 _ (omega arith) (
        first_room noble input join_token,
        (
          init-Refines noble input join_token h,
          first_room-IsSound noble input join_token h,
          rw (log-first_room noble input join_token) (omega arith),
        ),
      ))
