-- ===== src/Relay/Dispatch/Guarded.antt =====
-- What the relay's routing lets through.
use randevu.Base.{
  ℕ, ◌≤◌, Bool, true, false, not, Option, none, some, [], ◌∷◌, Str, ◌≡◌, refl, arith, if◌then◌else◌,
  ◌⊎◌, inl, inr,
}
use randevu.Noble.{Noble, Bytes}
use randevu.Core.Crypto.{request_canonical, verify_request}
use randevu.Relay.Store.{Store}
use randevu.Relay.Session.{Value, member_identity_pub}
use randevu.Relay.Dispatch.{
  DispatchCtx, Ambient, reply, error_body, rethrown, member_only, max_skew_ms, distance, given,
  full_path, fresh, verified, with_key, signed_by, authenticate, after_auth, dispatch_session,
}

-- The request names a stored member, its timestamp is within the skew of the clock, and it is signed
-- with the key that is stored for that member.
pub record IsSigned (noble : Noble) (amb : Ambient) (st : Store Value) (ctx : DispatchCtx)
    : Type 0 where
  pub fp : Str
  pub named : ctx.member ≡ some fp
  pub timestamp : Str
  pub stamped : ctx.timestamp ≡ some timestamp
  pub ts : ℕ
  pub number : amb.number timestamp ≡ some ts
  pub fresh : distance amb.now ts ≤ max_skew_ms
  pub signature : Str
  pub carried : ctx.signature ≡ some signature
  pub pub_hex : Str
  pub stored : member_identity_pub st fp ≡ some pub_hex
  pub identity_pub : Bytes
  pub decoded : noble.hex_to_bytes pub_hex ≡ some identity_pub
  pub verifies :
      verify_request noble identity_pub
        (request_canonical ctx.method (full_path ctx) timestamp)
        signature
      ≡ true

given-some : (o : Option Str) (s : Str) → given o ≡ some s → o ≡ some s
given-some none s h = cc
given-some (some []) s h = cc
given-some (some (c ∷ t)) s h = h

fresh-cases :
    (amb : Ambient) (o : Option ℕ)
    → fresh amb o ≡ true
    → (ts : ℕ) × ((o ≡ some ts) × (distance amb.now ts ≤ max_skew_ms))
fresh-cases amb none h = cc
fresh-cases amb (some ts) h = (ts, (refl, ground arith))

verified-true :
    (noble : Noble) (ctx : DispatchCtx) (timestamp signature : Str) (o : Option Bytes)
    → verified noble ctx timestamp signature o ≡ some true
    → (k : Bytes) × ((o ≡ some k)
        × (verify_request noble k (request_canonical ctx.method (full_path ctx) timestamp) signature
            ≡ true))
verified-true noble ctx timestamp signature none h = cc
verified-true noble ctx timestamp signature (some k) h = (k, (refl, cc h))

with_key-true :
    (noble : Noble) (ctx : DispatchCtx) (timestamp signature : Str) (o : Option Str)
    → with_key noble ctx timestamp signature o ≡ some true
    → (hex : Str) × ((o ≡ some hex)
        × ((k : Bytes) × ((noble.hex_to_bytes hex ≡ some k)
              × (verify_request noble k
                    (request_canonical ctx.method (full_path ctx) timestamp)
                    signature
                  ≡ true))))
with_key-true noble ctx timestamp signature none h = cc
with_key-true noble ctx timestamp signature (some hex) h =
    (hex, (refl, verified-true noble ctx timestamp signature _ h))

guarded :
    (b : Bool) (o : Option Bool)
    → (if not b then some false else o) ≡ some true
    → (b ≡ true) × (o ≡ some true)
guarded true o h = (refl, h)
guarded false o h = cc

signed_by-true :
    (noble : Noble) (amb : Ambient) (st : Store Value) (ctx : DispatchCtx) (m t s : Option Str)
    → ((x : Str) → m ≡ some x → ctx.member ≡ some x)
    → ((x : Str) → t ≡ some x → ctx.timestamp ≡ some x)
    → ((x : Str) → s ≡ some x → ctx.signature ≡ some x)
    → signed_by noble amb st ctx m t s ≡ some true
    → IsSigned noble amb st ctx
signed_by-true noble amb st ctx (some fp) (some t) (some s) u v w h =
    let (f, k) = guarded _ _ h in
    let (ts, (number, near)) = fresh-cases amb _ f in
    let (hex, (stored, (key, (decoded, verifies)))) = with_key-true noble ctx t s _ k in
    record {
      fp = fp;
      named = u fp refl;
      timestamp = t;
      stamped = v t refl;
      ts = ts;
      number = number;
      fresh = near;
      signature = s;
      carried = w s refl;
      pub_hex = hex;
      stored = given-some _ hex stored;
      identity_pub = key;
      decoded = decoded;
      verifies = verifies;
    }
signed_by-true noble amb st ctx none t s u v w h = cc
signed_by-true noble amb st ctx (some m) none s u v w h = cc
signed_by-true noble amb st ctx (some m) (some t) none u v w h = cc

-- On a members' path the relay answers "unauthenticated" or throws, with the store untouched, or
-- else the request is signed by a stored member.
pub dispatch_session-IsSigned :
    (noble : Noble) (amb : Ambient) (st : Store Value) (ctx : DispatchCtx)
    → member_only ctx.path ≡ true
    → (dispatch_session noble amb st ctx ≡ (reply 401 (error_body "unauthenticated"), st))
      ⊎ (dispatch_session noble amb st ctx ≡ (rethrown, st))
      ⊎ IsSigned noble amb st ctx
unfolding dispatch_session authenticate
dispatch_session-IsSigned noble amb st ctx h = rw h (by_answer (authenticate noble amb st ctx) refl)
  where
    by_answer :
        (o : Option Bool)
        → authenticate noble amb st ctx ≡ o
        → (after_auth noble amb st ctx o ≡ (reply 401 (error_body "unauthenticated"), st))
          ⊎ (after_auth noble amb st ctx o ≡ (rethrown, st))
          ⊎ IsSigned noble amb st ctx
    by_answer none e = inr (inl refl)
    by_answer (some false) e = inl refl
    by_answer (some true) e = inr (
        inr (
          signed_by-true noble amb st ctx _ _ _ (λ x. given-some _ x) (λ x. given-some _ x)
            (λ x. given-some _ x) e))
