-- ===== src/Core/Transcript/Data.antt =====
-- The data of a transcript: the interfaces of packages/core/src/transcript.ts.
use randevu.Base.{ℕ, Bool, Option, List, Str}

pub record TranscriptHead : Type 0 where
  pub last_seq : ℕ
  pub head_hash : Str
  pub signer : Str
  pub signature : Str

pub record TranscriptMember : Type 0 where
  pub fingerprint : Str
  pub did : Str
  pub identity_pub : Str

pub record TranscriptMessageEntry : Type 0 where
  pub seq : ℕ
  pub epoch : ℕ
  pub sender_id : Str
  pub type : Str
  pub nonce : Str
  pub ciphertext : Str
  pub prev_hash : Option Str
  pub ref : Option Str
  pub signature : Str

pub record TranscriptBundle : Type 0 where
  pub session_id : Str
  pub members : List TranscriptMember
  pub group_keys : List (ℕ × Str)
  pub messages : List TranscriptMessageEntry
  pub head : Option TranscriptHead

pub record VerifiedTranscriptMessage : Type 0 where
  pub seq : ℕ
  pub id : Str
  pub sender_id : Str
  pub type : Str
  pub ref : Option Str
  pub body : Option Str
  pub signature_valid : Bool
  pub chain_valid : Bool

pub record Agreement : Type 0 where
  pub accepter : Str
  pub accepts_id : Str
  pub accepted_sender_id : Option Str
  pub accepted_body : Option Str

pub record TranscriptVerification : Type 0 where
  pub valid : Bool
  pub members_valid : Bool
  pub messages : List VerifiedTranscriptMessage
  pub agreements : List Agreement
  pub head_valid : Option Bool
