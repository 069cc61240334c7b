-- ===== src/Relay/Session/Data.antt =====
-- The data of a session: the interfaces of apps/relay/src/session.ts, and the values its store
-- holds. Counters and limits are natural numbers.
use randevu.Base.{ℕ, Bool, false, Option, none, some, List, [], ◌∷◌, Str, String}

pub record MemberInput : Type 0 where
  pub fingerprint : Str
  pub identity_pub : Str
  pub kx_pub : Str

pub record Member : Type 0 where
  pub input : MemberInput
  pub open input use *
  pub joined_seq : ℕ

pub record SessionMeta : Type 0 where
  pub session_id : Str
  pub max_members : ℕ
  pub locked : Bool
  pub epoch : ℕ
  pub creator_id : Str

pub record StoredWrappedKey : Type 0 where
  pub wrapped_key : Str
  pub commitment : Str
  pub signature : Str

-- Omit<StoredMessage, "seq">
pub record MessageInput : Type 0 where
  pub epoch : ℕ
  pub sender_id : Str
  pub ciphertext : Str
  pub nonce : Str
  pub signature : Str
  pub type : Str
  pub prev_hash : Option Str
  pub ref : Option Str

pub record StoredMessage : Type 0 where
  pub input : MessageInput
  pub open input use *
  pub seq : ℕ

-- `SessionError` is `err status code`.
pub data Result {ℓ} (A : Type ℓ) : Type ℓ where
  ok : A → Result A
  err : ℕ → String → Result A

-- What the store holds: the type arguments of `put`.
pub data Value : Type 0 where
  meta_value : SessionMeta → Value
  number_value : ℕ → Value
  member_value : Member → Value
  flag_value : Bool → Value
  message_value : StoredMessage → Value
  wrapped_value : StoredWrappedKey → Value

abbrev pub as_meta : Option Value → Option SessionMeta
as_meta (some (meta_value m)) = some m
as_meta _ = none

abbrev pub as_number : Option Value → Option ℕ
as_number (some (number_value n)) = some n
as_number _ = none

abbrev pub as_member : Option Value → Option Member
as_member (some (member_value m)) = some m
as_member _ = none

abbrev pub as_flag : Option Value → Bool
as_flag (some (flag_value b)) = b
as_flag _ = false

abbrev pub as_wrapped : Option Value → Option StoredWrappedKey
as_wrapped (some (wrapped_value w)) = some w
as_wrapped _ = none

abbrev pub or_zero : Option ℕ → ℕ
or_zero none = 0
or_zero (some n) = n

-- `[...map.values()]` of a listing of members, and of one of messages
abbrev pub member_values : List (Str × Value) → List Member
member_values [] = []
member_values ((k, member_value m) ∷ es) = m ∷ member_values es
member_values ((k, v) ∷ es) = member_values es

abbrev pub message_values : List (Str × Value) → List StoredMessage
message_values [] = []
message_values ((k, message_value m) ∷ es) = m ∷ message_values es
message_values ((k, v) ∷ es) = message_values es

-- Arguments and results of the methods.
pub record InitInput : Type 0 where
  pub session_id : Str
  pub max_members : ℕ
  pub creator : MemberInput

pub record InitResult : Type 0 where
  pub session_id : Str
  pub join_token : Str
  pub member_id : Str

pub record JoinInput : Type 0 where
  pub join_token : Str
  pub member : MemberInput

pub record JoinResult : Type 0 where
  pub members : List Member
  pub epoch : ℕ
  pub locked : Bool

pub record Batch : Type 0 where
  pub messages : List StoredMessage
  pub cursor : ℕ

pub record Wrap : Type 0 where
  pub recipient_id : Str
  pub wrapped_key : Str

pub record KeysInput : Type 0 where
  pub sender_id : Str
  pub epoch : ℕ
  pub key_commitment : Str
  pub signature : Str
  pub wraps : List Wrap

pub record Status : Type 0 where
  pub session_id : Str
  pub creator_id : Str
  pub locked : Bool
  pub epoch : ℕ
  pub members : List Member
  pub last_seq : ℕ
