-- ===== src/Local/Data.antt =====
-- The state of `RandevuLocal`, and the data it hands out.
use randevu.Base.{ℕ, Bool, Option, List, Str}
use randevu.Noble.{Bytes}
use randevu.Core.Crypto.{KeyPair}
use randevu.Relay.Store.{Store}
use randevu.Relay.Session.Data.{MemberInput, StoredMessage}

-- MemberDTO and MessageDTO are the relay's records. The order of joining, which the relay adds to a
-- member, is never read here.
abbrev pub MemberDto : Type 0
MemberDto = MemberInput

abbrev pub MessageDto : Type 0
MessageDto = StoredMessage

pub data Role : Type 0 where
  creator member : Role

pub record LogEntry : Type 0 where
  pub seq : ℕ
  pub sender_id : Str
  pub type : Str
  pub verified : Bool
  pub chain_ok : Bool
  pub body : Str
  pub id : Str
  pub dto : MessageDto

-- The fields of the class, less its client, which is a parameter, and `kind` and `myRole`, which only the
-- room layer uses.
pub record Local : Type 0 where
  pub identity : KeyPair
  pub agreement : KeyPair
  pub member_id : Str
  pub session_id : Option Str
  pub epoch : ℕ
  pub role : Option Role
  pub creator_fingerprint : Str
  pub group_key : Option Bytes
  -- Map<number, Uint8Array>, in the order of insertion
  pub group_keys : List (ℕ × Bytes)
  -- `none` is -1
  pub established_epoch : Option ℕ
  pub head : Option Bytes
  pub fetched_seq : ℕ
  pub inbox_seq : ℕ
  pub log : List LogEntry
  -- Map<string, MemberDTO>, in the order of insertion
  pub members_by_id : Store MemberDto

pub record ReceivedMessage : Type 0 where
  pub seq : ℕ
  pub id : Str
  pub sender_id : Str
  pub type : Str
  pub body : Str
  pub ref : Option Str
  pub verified : Bool

-- What a call draws at random: a group key, an ephemeral key for each seal, and a nonce.
pub record Randoms : Type 0 where
  pub group_key : Bytes
  pub ephemeral : ℕ → Bytes
  pub nonce : Bytes
