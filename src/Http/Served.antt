-- ===== src/Http/Served.antt =====
-- A member's request on its way through the relay.
use randevu.Base.{
  ℕ, ◌≤◌, Bool, true, false, ◌&&◌, ◌||◌, Option, none, some, [], ◌∷◌, ◌++◌, append_assoc, Str, text,
  str_eq, starts_with, drop, split_by, split_by-append, split_by-Free, append-nil, Free,
  Free-by_check, ◌≡◌, refl, sym, ap, ◌∙◌, arith, if◌then◌else◌, Bool-cases, inl, inr,
}
use randevu.Noble.{Noble, Bytes}
use randevu.Core.Crypto.{request_canonical, sign_request}
use randevu.Core.GroupKey.Agreement.{SignatureLaws, verify_request-sign_request}
use randevu.Relay.Store.{Store, get}
use randevu.Relay.Store.Laws.{get-put_ne}
use randevu.Relay.Session.Data.{Value}
use randevu.Relay.Session.{member_identity_pub}
use randevu.Relay.Dispatch.{
  DispatchCtx, Ambient, max_skew_ms, distance, given, full_path, fresh, authenticate, member_only,
  error_body, route, dispatch_session,
}
use randevu.Http.Client.{signer_of, Headers, signed_path, first_part, headers_for, session_path}
use randevu.Http.Node.{
  Incoming, Answer, health, join_page, json, Sessions, context, stored_at, cut, sub_path, turn,
  scoped, handle,
}

-- A request that a member's client made for a session, with the query that the client wrote; the path is
-- the one that the URL parses to.
pub record IsSent (noble : Noble) (fp : Str) (sk : Bytes) (timestamp id sub query : Str)
    (req : Incoming) : Type 0 where
  pub path : req.path ≡ signed_path (session_path id (sub ++ query))
  pub headers :
      record { member = req.member; timestamp = req.timestamp; signature = req.signature }
      ≡ headers_for
          (some (signer_of noble fp sk))
          timestamp
          req.method
          (session_path id (sub ++ query))

-- The query is empty or starts with its mark.
abbrev pub IsQuery : Str → Type 0
IsQuery [] = Unit
IsQuery (c ∷ s) = c ≡ 63

-- What is signed of a path is the part before the query.
signed_path-query : (p q : Str) → Free 63 p → IsQuery q → signed_path (p ++ q) ≡ p
unfolding signed_path
signed_path-query p [] free h =
    ap (λ t. first_part (split_by 63 t)) (append-nil p) ∙ ap first_part (split_by-Free 63 p free)
signed_path-query p (c ∷ q) free h =
    ap (λ d. first_part (split_by 63 (p ++ d ∷ q))) h ∙ ap first_part (split_by-append 63 p q free)

cut-Free : (id s : Str) → Free 47 id → cut (id ++ 47 ∷ s) ≡ (id, some (47 ∷ s))
unfolding cut
cut-Free [] s h = refl
cut-Free (c ∷ id) s h = rw (h.0, cut-Free id s h.1) refl

and_false : (b : Bool) → (b && false) ≡ false
and_false true = refl
and_false false = refl

-- A request to a session's path is a turn of that session.
handle-scoped :
    (noble : Noble) (amb : Ambient) (minted : Str) (sessions : Sessions) (req : Incoming)
    (id s : Str)
    → req.path ≡ session_path id (47 ∷ s)
    → Free 47 id
    → handle noble amb minted sessions req
      ≡ turn noble amb sessions req id (47 ∷ s) (get sessions id)
unfolding handle str_eq starts_with
handle-scoped noble amb minted sessions req id s at free =
    rw (at, cut-Free id s free, and_false (str_eq req.method (text "GET"))) refl

Free-append : (c : ℕ) (a b : Str) → Free c a → Free c b → Free c (a ++ b)
Free-append c [] b h k = k
Free-append c (x ∷ a) b h k = (h.0, Free-append c a b h.1 k)

fresh-near :
    (amb : Ambient) (ts : ℕ) → distance amb.now ts ≤ max_skew_ms → fresh amb (some ts) ≡ true
fresh-near amb ts h = ground arith

-- The relay that checks a request as its client signed it, with the key of the client's member, lets it
-- through.
authenticate-sent :
    (noble : Noble) (amb : Ambient) (st : Store Value) (ctx : DispatchCtx) (sk : Bytes)
    (fp timestamp pub_hex : Str) (ts : ℕ)
    → SignatureLaws noble
    → given ctx.member ≡ some fp
    → given ctx.timestamp ≡ some timestamp
    → given ctx.signature
      ≡ some (sign_request noble sk (request_canonical ctx.method (full_path ctx) timestamp))
    → amb.number timestamp ≡ some ts
    → distance amb.now ts ≤ max_skew_ms
    → given (member_identity_pub st fp) ≡ some pub_hex
    → noble.hex_to_bytes pub_hex ≡ some (noble.ed25519_public sk)
    → authenticate noble amb st ctx ≡ some true
unfolding authenticate
authenticate-sent noble amb st ctx sk fp timestamp pub_hex ts laws named stamped signed number near
      stored decoded =
    rw
      (
        named,
        stamped,
        signed,
        number,
        fresh-near amb ts near,
        stored,
        decoded,
        verify_request-sign_request noble sk
            (request_canonical ctx.method (full_path ctx) timestamp) laws,
      )
      refl

-- A text that a header or a store can hold: an empty one counts as none.
abbrev pub IsGiven : Str → Type 0
IsGiven s = given (some s) ≡ some s

-- What the relay needs to serve a member: the session, the member's key in its store, a clock within the
-- skew of the timestamp, and texts that are not empty.
pub record IsKnown (noble : Noble) (amb : Ambient) (sessions : Sessions) (st : Store Value)
    (id fp timestamp signature : Str) (sk : Bytes) : Type 0 where
  pub held : get sessions id ≡ some st
  pub pub_hex : Str
  pub stored : member_identity_pub st fp ≡ some pub_hex
  pub decoded : noble.hex_to_bytes pub_hex ≡ some (noble.ed25519_public sk)
  pub ts : ℕ
  pub number : amb.number timestamp ≡ some ts
  pub near : distance amb.now ts ≤ max_skew_ms
  pub fp_given : IsGiven fp
  pub timestamp_given : IsGiven timestamp
  pub signature_given : IsGiven signature
  pub pub_given : IsGiven pub_hex

dispatch_session-authentic :
    (noble : Noble) (amb : Ambient) (st : Store Value) (ctx : DispatchCtx)
    → authenticate noble amb st ctx ≡ some true
    → dispatch_session noble amb st ctx ≡ route noble amb st ctx
unfolding dispatch_session
dispatch_session-authentic noble amb st ctx h = elim (Bool-cases (member_only ctx.path)) [
  | inl e ↦ rw (e, h) refl
  | inr e ↦ rw e refl
]

module _ (noble : Noble) (fp : Str) (sk : Bytes) (timestamp id s query : Str) (req : Incoming) where
  signed_path-sent :
      Free 63 id
      → Free 63 s
      → IsQuery query
      → signed_path (session_path id ((47 ∷ s) ++ query)) ≡ session_path id (47 ∷ s)
  signed_path-sent free rest q =
      ap signed_path (
        sym (
          append_assoc (text "/sessions/") (id ++ 47 ∷ s) query
          ∙ ap (λ t. text "/sessions/" ++ t) (append_assoc id (47 ∷ s) query)))
      ∙ signed_path-query (session_path id (47 ∷ s)) query
          (Free-append 63 (text "/sessions/") (id ++ 47 ∷ s)
            (Free-by_check 63 (text "/sessions/") refl)
            (Free-append 63 id (47 ∷ s) free (refl, rest)))
          q

  -- A request that a member's client signs is served: the relay runs the route that it asks for on its
  -- session's store and puts the store back. The member is stored with the public key of the client's
  -- private key, the clock is within the skew, and the session's id holds no slash and no question mark.
  pub handle-sent :
      (amb : Ambient) (minted : Str) (sessions : Sessions) (st : Store Value)
      → SignatureLaws noble
      → Free 47 id
      → Free 63 id
      → Free 63 s
      → IsQuery query
      → IsSent noble fp sk timestamp id (47 ∷ s) query req
      → IsKnown noble amb sessions st id fp timestamp
          (sign_request noble sk
            (request_canonical req.method (session_path id (47 ∷ s)) timestamp))
          sk
      → handle noble amb minted sessions req
        ≡ stored_at sessions id (route noble amb st (context req id (47 ∷ s)))
  unfolding context headers_for signer_of full_path
  handle-sent amb minted sessions st laws slash mark rest q sent known =
      let path_is = signed_path-sent mark rest q in
      let headers = sent.headers in
      let signed : req.signature
          ≡ some (
              sign_request noble sk
                (request_canonical req.method (session_path id (47 ∷ s)) timestamp)) =
        ap (λ (h : Headers). h.signature) headers
        ∙ ap (λ p. some (sign_request noble sk (request_canonical req.method p timestamp)))
            path_is in
      let ok =
        authenticate-sent noble amb st (context req id (47 ∷ s)) sk fp timestamp known.pub_hex
          known.ts laws (ap given (ap (λ (h : Headers). h.member) headers) ∙ known.fp_given)
          (ap given (ap (λ (h : Headers). h.timestamp) headers) ∙ known.timestamp_given)
          (ap given signed ∙ known.signature_given) known.number known.near
          (ap given known.stored ∙ known.pub_given) known.decoded in
      handle-scoped noble amb minted sessions req id s (sent.path ∙ path_is) slash
      ∙ ap (turn noble amb sessions req id (47 ∷ s)) known.held
      ∙ ap (stored_at sessions id)
          (dispatch_session-authentic noble amb st (context req id (47 ∷ s)) ok)

turn-isolated :
    (noble : Noble) (amb : Ambient) (sessions : Sessions) (req : Incoming) (id sub other : Str)
    (o : Option (Store Value))
    → str_eq id other ≡ false
    → get (turn noble amb sessions req id sub o).1 other ≡ get sessions other
turn-isolated noble amb sessions req id sub other none apart = refl
turn-isolated noble amb sessions req id sub other (some st) apart =
    get-put_ne sessions id other _ apart

-- The sessions of a relay are apart: a request leaves the store of every other session as it was, the
-- sessions other than the one whose id stands in its path and the one that it may create.
pub handle-isolated :
    (noble : Noble) (amb : Ambient) (minted : Str) (sessions : Sessions) (req : Incoming)
    (other : Str)
    → str_eq minted other ≡ false
    → str_eq (cut (drop 10 req.path)).0 other ≡ false
    → get (handle noble amb minted sessions req).1 other ≡ get sessions other
unfolding handle
handle-isolated noble amb minted sessions req other fresh apart =
    let page =
      str_eq req.method (text "GET")
      && (str_eq req.path (text "/j") || starts_with req.path (text "/j/")) in
    let create = str_eq req.path (text "/sessions") && str_eq req.method (text "POST") in
    let last : Answer × Sessions = (json 404 (error_body "not_found"), sessions) in
    let begun =
      stored_at sessions minted
        (dispatch_session noble amb [] (context req minted (text "/init"))) in
    let rest = scoped noble amb sessions req (cut (drop 10 req.path)) in
    let within = if starts_with req.path (text "/sessions/") then rest else last in
    let made = if create then begun else within in
    either (str_eq req.path (text "/")) (health, sessions)
      (if page then (join_page, sessions) else made) refl
      (either page (join_page, sessions) made refl
        (either create begun within (get-put_ne sessions minted other _ fresh) (
          either (starts_with req.path (text "/sessions/")) rest last
            (turn-isolated noble amb sessions req (cut (drop 10 req.path)).0
              (sub_path (cut (drop 10 req.path)).1) other (get sessions (cut (drop 10 req.path)).0)
              apart)
            refl)))
  where
    either :
        (b : Bool) (x y : Answer × Sessions)
        → get x.1 other ≡ get sessions other
        → get y.1 other ≡ get sessions other
        → get (if b then x else y).1 other ≡ get sessions other
    either true x y h k = h
    either false x y h k = k
