-- ===== src/Examples/Wires.antt =====
-- A member's request for the messages of its session, at a relay that holds two sessions.
use randevu.Base.{
  none, some, [], ◌∷◌, ◌++◌, Str, text, str_eq, split_by, Free-by_check, ◌≡◌, refl, ap, arith,
}
use randevu.Noble.{Bytes}
use randevu.Core.Crypto.{request_canonical, sign_request}
use randevu.Relay.Store.{Store, get, put}
use randevu.Relay.Store.Laws.{get-put_self}
use randevu.Relay.Keys.{key, member}
use randevu.Relay.Session.Data.{MemberInput, Value, member_value, as_member}
use randevu.Relay.Session.{member_identity_pub, member_of}
use randevu.Relay.Dispatch.{Ambient, Body, route}
use randevu.Http.Client.{headers_for, signer_of, signed_path, session_path}
use randevu.Http.Node.{Incoming, Sessions, context, stored_at, cut, handle}
use randevu.Http.Served.{IsSent, IsKnown, handle-sent, handle-isolated}
use randevu.Examples.Toy.{toy}
use randevu.Examples.Toy.{toy-SignatureLaws}

abbrev bob_key : Bytes
bob_key = 2 ∷ []

abbrev bob : MemberInput
bob = record {
  fingerprint = text "bob";
  identity_pub = toy.bytes_to_hex bob_key;
  kx_pub = text "k";
}

abbrev store : Store Value
unfolding bob
store = put [] (key (member (text "bob"))) (member_value (record { input = bob; joined_seq = 0 }))

abbrev sessions : Sessions
unfolding store
sessions = put ((text "r2", []) ∷ []) (text "r1") store

abbrev ambient : Ambient
ambient = record { now = 1000; number = λ s. some 900; join_token = text "t" }

abbrev body : Body
body = record {
  max_members = 2;
  creator = bob;
  as_join = record { join_token = text "t"; member = bob };
  as_message = record {
    epoch = 1;
    sender_id = text "bob";
    ciphertext = [];
    nonce = [];
    signature = [];
    type = text "offer";
    prev_hash = none;
    ref = none;
  };
  as_keys = record {
    sender_id = text "bob";
    epoch = 1;
    key_commitment = [];
    signature = [];
    wraps = [];
  };
}

abbrev request_path : Str
request_path = session_path (text "r1") (text "/messages" ++ text "?after=0")

abbrev asking : Incoming
unfolding body headers_for signed_path
asking = record {
  method = text "GET";
  path = signed_path request_path;
  after = 0;
  epoch = 0;
  member_param = [];
  body = body;
  member =
      (headers_for (some (signer_of toy (text "bob") bob_key)) (text "900") (text "GET")
        request_path).member;
  timestamp =
      (headers_for (some (signer_of toy (text "bob") bob_key)) (text "900") (text "GET")
        request_path).timestamp;
  signature =
      (headers_for (some (signer_of toy (text "bob") bob_key)) (text "900") (text "GET")
        request_path).signature;
}

sent :
    IsSent toy
      (text "bob")
      bob_key
      (text "900")
      (text "r1")
      (text "/messages")
      (text "?after=0")
      asking
unfolding asking headers_for
sent = record { path = refl; headers = refl }

bob_stored : member_identity_pub store (text "bob") ≡ some (toy.bytes_to_hex bob_key)
unfolding member_identity_pub member_of store
bob_stored =
    ap (λ o. elim (as_member o) [ none ↦ none | some m ↦ some m.identity_pub ])
      (get-put_self [] (key (member (text "bob")))
        (member_value (record { input = bob; joined_seq = 0 })))

known :
    IsKnown toy ambient sessions store
      (text "r1")
      (text "bob")
      (text "900")
      (sign_request toy bob_key
        (request_canonical (text "GET") (session_path (text "r1") (text "/messages")) (text "900")))
      bob_key
unfolding sessions sign_request
known = record {
  held = get-put_self ((text "r2", []) ∷ []) (text "r1") store;
  pub_hex = toy.bytes_to_hex bob_key;
  stored = bob_stored;
  decoded = refl;
  ts = 900;
  number = refl;
  near = omega arith;
  fp_given = refl;
  timestamp_given = refl;
  signature_given = refl;
  pub_given = refl;
}

handle-sent_example :
    handle toy ambient (text "r3") sessions asking
    ≡ stored_at sessions
        (text "r1")
        (route toy ambient store (context asking (text "r1") (text "/messages")))
unfolding asking
handle-sent_example =
    handle-sent toy (text "bob") bob_key (text "900") (text "r1") (text "messages")
      (text "?after=0") asking ambient (text "r3") sessions store toy-SignatureLaws
      (Free-by_check 47 (text "r1") refl) (Free-by_check 63 (text "r1") refl)
      (Free-by_check 63 (text "messages") refl) refl sent known

handle-isolated_example :
    get (handle toy ambient (text "r3") sessions asking).1 (text "r2") ≡ get sessions (text "r2")
unfolding asking str_eq cut signed_path split_by
handle-isolated_example =
    handle-isolated toy ambient (text "r3") sessions asking (text "r2") refl refl
