-- ===== src/Examples/Shells.antt =====
-- A member that waits for messages, and one that posts, at a session's host.
use randevu.Base.{
  inl, arith, ◌+◌, ℕ, ◌≤◌, ◌<◌, true, false, none, some, [], ◌∷◌, ◌++◌, Str, text, str_eq, ◌≡◌,
  refl,
}
use randevu.Noble.{Bytes}
use randevu.Core.Crypto.{
  request_canonical, sign_request, verify_request, sign, verify, request_auth_bytes,
}
use randevu.Core.Waiters.{no_waiters, wait, fresh, after, waits}
use randevu.Core.Waiters.Polling.{IsTicking}
use randevu.Core.Waiters.Reached.{count}
use randevu.Core.Transcript.{bytes_equal}
use randevu.Relay.Store.{Store, get, put}
use randevu.Relay.Keys.{key}
use randevu.Relay.Session.Data.{
  Value, Batch, Result, ok, err, MemberInput, member_value, meta_value,
}
use randevu.Relay.Session.{
  member_identity_pub, member_of, seq_of, meta_of, post_message, get_messages,
}
use randevu.Relay.Dispatch.{
  Ambient, Body, DispatchCtx, reply, posted_body, authenticate, full_path, member_only, route,
  dispatch_session,
}
use randevu.Relay.Shell.{Host, sent, polling, read_result, clamped, fetch}
use randevu.Relay.Shell.Waking.{Waited, fetch-Waited, fetch-wakes}
use randevu.Examples.Toy.{toy}

abbrev bob_key : Bytes
bob_key = 2 ∷ []

abbrev bob : MemberInput
bob = record {
  fingerprint = text "bob";
  identity_pub = toy.bytes_to_hex bob_key;
  kx_pub = text "k";
}

abbrev host : Host
unfolding wait
host = record {
  store =
      (
        text "meta",
        meta_value (record {
          session_id = text "r1";
          max_members = 2;
          locked = false;
          epoch = 1;
          creator_id = text "bob";
        }),
      )
      ∷ (text "member:bob", member_value (record { input = bob; joined_seq = 0 }))
      ∷ [];
  waiters = wait no_waiters;
  clock = 1000;
}

abbrev ambient : Ambient
ambient = record { now = 1000; number = λ s. some 900; join_token = text "t" }

abbrev body : Body
body = record {
  max_members = 2;
  creator = bob;
  as_join = record { join_token = text "t"; member = bob };
  as_message = record {
    epoch = 1;
    sender_id = text "bob";
    ciphertext = [];
    nonce = [];
    signature = [];
    type = text "offer";
    prev_hash = none;
    ref = none;
  };
  as_keys = record {
    sender_id = text "bob";
    epoch = 1;
    key_commitment = [];
    signature = [];
    wraps = [];
  };
}

abbrev request : Str → Str → DispatchCtx
request method path = record {
  session_id = text "r1";
  method = method;
  path = path;
  after = 3;
  epoch = 0;
  member_param = [];
  body = body;
  member = some (text "bob");
  timestamp = some (text "900");
  signature = some (
      sign_request toy bob_key
        (request_canonical method (text "/sessions/r1" ++ path) (text "900")));
}

-- While a waiter is parked nothing else happens here but that its time goes by, and one tick.
abbrev idle : ℕ → ℕ → Host → Host
idle n ms h = record { store = h.store; waiters = h.waiters; clock = h.clock + (ms + 1) }

idle-IsTicking : IsTicking (polling idle 3)
unfolding polling
idle-IsTicking = record {
  read = λ h. kept h (get_messages h.store 3);
  set_waiters = λ ws h. refl;
  resume = λ n ms h. inl (omega arith);
}
  where
    kept : (h : Host) (x : Result Batch × Store Value) → h.clock ≤ (read_result h x).1.clock
    kept h (ok b, st) = omega arith
    kept h (err n code, st) = omega arith

abbrev waits_for : DispatchCtx
waits_for = request (text "GET") (text "/wait")

fetch-Waited_example :
    (1000 ≤ clamped (some 90000))
    × ((clamped (some 90000) ≤ 55000)
        × Waited idle host 3
            (host.clock + clamped (some 90000))
            (authenticate toy ambient host.store (record waits_for { path = text "/wait" }))
            (fetch toy idle 55001 ambient host waits_for (some 90000)))
unfolding str_eq
fetch-Waited_example =
    fetch-Waited toy idle 55001 ambient host waits_for (some 90000) refl refl idle-IsTicking
      (omega arith)

-- The one of the third case: it is authenticated, and waits.
authenticated :
    authenticate toy ambient host.store (record waits_for { path = text "/wait" }) ≡ some true
unfolding authenticate member_identity_pub member_of get key str_eq host full_path verify_request
    sign_request request_auth_bytes sign verify request_canonical bytes_equal
authenticated = refl

abbrev posting : DispatchCtx
posting = request (text "POST") (text "/messages")

posted :
    dispatch_session toy ambient host.store posting
    ≡ (reply 200 (posted_body 1), (dispatch_session toy ambient host.store posting).1)
unfolding dispatch_session member_only route post_message seq_of meta_of authenticate
    member_identity_pub member_of get put key str_eq host full_path verify_request sign_request
    request_auth_bytes sign verify request_canonical bytes_equal
posted = refl

fetch-wakes_example :
    ((fetch toy idle 1 ambient host posting none).0 ≡ sent 200 (posted_body 1))
    × (((fetch toy idle 1 ambient host posting none).1.waiters.waiters ≡ [])
        × ((i : ℕ)
            → i < host.waiters.started
            → count i (fetch toy idle 1 ambient host posting none).1.waiters.resolved ≡ 1))
unfolding str_eq host
fetch-wakes_example =
    fetch-wakes toy idle 1 ambient host posting none (posted_body 1)
      (dispatch_session toy ambient host.store posting).1 refl posted (after fresh waits)
