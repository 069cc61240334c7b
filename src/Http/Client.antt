-- ===== src/Http/Client.antt =====
-- The relay's client: packages/relay-client/src/index.ts. The clock, `fetch`, and what a JSON value reads
-- as under each cast are parameters.
use randevu.Base.{
  ℕ, ◌*◌, Bool, true, false, ◌&&◌, Option, none, some, List, [], ◌∷◌, ◌++◌, Str, text, decimal,
  split_by, ◌==◌, if◌then◌else◌, String,
}
use randevu.Noble.{Noble, Bytes}
use randevu.Core.Crypto.{request_canonical, sign_request}
use randevu.Relay.Session.Data.{
  MemberInput, Member, MessageInput, KeysInput, StoredWrappedKey, Status, InitResult, JoinResult,
  JoinInput, Batch,
}
use randevu.Local.Action.{Attempt, done, fails, relay_error}
use randevu.Local.Api.{RelayApi}

-- (canonical) => { member, signature }
abbrev pub RequestSigner : Type 0
RequestSigner = Str → Str × Str

-- The signer that a member's server gives to its client: its id, and its signature.
unfoldable pub signer_of : Noble → Str → Bytes → RequestSigner
unfolding sign_request
signer_of noble member_id private_key canonical =
    (member_id, sign_request noble private_key canonical)

-- `x-randevu-member`, `x-randevu-timestamp` and `x-randevu-auth`
pub record Headers : Type 0 where
  pub member : Option Str
  pub timestamp : Option Str
  pub signature : Option Str

-- path.split("?")[0]
abbrev pub first_part : List Str → Str
first_part [] = []
first_part (p ∷ ps) = p

unfoldable pub signed_path : Str → Str
unfolding split_by
signed_path path = first_part (split_by 63 path)

abbrev pub of_signed : Str → Str × Str → Headers
of_signed timestamp (member, signature) = record {
  member = some member;
  timestamp = some timestamp;
  signature = some signature;
}

unfoldable pub headers_for : Option RequestSigner → Str → Str → Str → Headers
unfolding signed_path
headers_for none timestamp method path = record {
  member = none;
  timestamp = none;
  signature = none;
}
headers_for (some signer) timestamp method path =
    of_signed timestamp (signer (request_canonical method (signed_path path) timestamp))

-- What is sent as the JSON body.
pub data Payload : Type 0 where
  no_body : Payload
  create_body : ℕ → MemberInput → Payload
  join_body : JoinInput → Payload
  message_body : MessageInput → Payload
  keys_body : KeysInput → Payload

pub record Request : Type 0 where
  pub url : Str
  pub method : Str
  pub headers : Headers
  pub payload : Payload

-- A response; `json` is `none` where `res.json()` rejects.
pub record Response (J : Type 0) : Type 0 where
  pub ok : Bool
  pub status : ℕ
  pub json : Option J

-- `fetch`, `Date.now()`, the value `{}`, the field "error" of a value, and its casts.
pub record Wire (J W : Type 0) : Type 0 where
  pub fetch : Request → W → Attempt (Response J) × W
  pub now : W → ℕ
  pub empty : J
  pub error_field : J → Option Str
  pub as_init : J → InitResult
  pub as_join : J → JoinResult
  pub as_seq : J → ℕ
  pub as_batch : J → Batch
  pub as_key : J → StoredWrappedKey
  pub as_status : J → Status
  pub as_members : J → List Member

-- `this.baseUrl = options.baseUrl.replace(/\/+$/, "")`
abbrev is_nil : Str → Bool
is_nil [] = true
is_nil (c ∷ s) = false

unfoldable pub without_slashes : Str → Str
without_slashes [] = []
without_slashes (c ∷ s) =
    let rest = without_slashes s in if (c == 47) && is_nil rest then [] else c ∷ rest

abbrev pub or_else : Option Str → String → Str
or_else none s = text s
or_else (some t) s = t

abbrev pub or_json : {J : Type 0} → J → Option J → J
or_json j none = j
or_json j (some k) = k

abbrev pub session_path : Str → Str → Str
session_path session_id rest = text "/sessions/" ++ (session_id ++ rest)

module _ {J W : Type 0} (wire : Wire J W) (base_url : Str) (signer : Option RequestSigner) where
  -- A response that is not ok is thrown as a RelayError with its status and its code.
  unfoldable pub checked : {A : Type 0} → (J → A) → Response J → Attempt A
  checked cast res =
      let data' = or_json wire.empty res.json in
      if res.ok
      then done (cast data')
      else fails (relay_error res.status (or_else (wire.error_field data') "relay_error"))

  abbrev pub fetched : {A : Type 0} → (J → A) → Attempt (Response J) × W → Attempt A × W
  unfolding checked
  fetched cast (done res, w) = (checked cast res, w)
  fetched cast (fails e, w) = (fails e, w)

  unfoldable pub request : {A : Type 0} → (J → A) → Str → Str → Payload → W → Attempt A × W
  unfolding fetched headers_for without_slashes
  request cast method path payload w = fetched cast (
      wire.fetch
        (record {
          url = without_slashes base_url ++ path;
          method = method;
          headers = headers_for signer (decimal (wire.now w)) method path;
          payload = payload;
        })
        w)

  unfoldable pub get_members : Str → W → Attempt (List Member) × W
  unfolding request
  get_members session_id =
      request wire.as_members (text "GET") (session_path session_id (text "/members")) no_body

  unfoldable pub wait : Str → ℕ → ℕ → W → Attempt Batch × W
  unfolding request
  wait session_id after_seq timeout_sec =
      request wire.as_batch (text "GET")
        (session_path session_id (
          text "/wait?after="
          ++ (decimal after_seq ++ (text "&timeout=" ++ decimal (timeout_sec * 1000)))))
        no_body

  -- The client as the local server uses it.
  unfoldable pub relay_client : RelayApi W
  unfolding request
  relay_client = record {
    create_session = λ max_members creator.
        request wire.as_init (text "POST") (text "/sessions") (create_body max_members creator);
    join_session = λ session_id input.
        request wire.as_join (text "POST") (session_path session_id (text "/join"))
          (join_body input);
    post_message = λ session_id msg.
        request wire.as_seq (text "POST") (session_path session_id (text "/messages"))
          (message_body msg);
    get_messages = λ session_id after_seq.
        request (λ j. (wire.as_batch j).messages) (text "GET")
          (session_path session_id (text "/messages?after=" ++ decimal after_seq)) no_body;
    post_keys = λ session_id input.
        request (λ j. tt) (text "POST") (session_path session_id (text "/keys")) (keys_body input);
    get_key = λ session_id epoch member.
        request wire.as_key (text "GET")
          (session_path session_id
            (text "/keys?epoch=" ++ (decimal epoch ++ (text "&member=" ++ member))))
          no_body;
    status = λ session_id.
        request wire.as_status (text "GET") (session_path session_id (text "/status")) no_body;
  }
