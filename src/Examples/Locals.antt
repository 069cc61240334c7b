-- ===== src/Examples/Locals.antt =====
-- Two members with the toy functions, and relays that hold what a test puts there.
use randevu.Base.{
  ℕ, true, Option, none, some, List, [], ◌∷◌, ◌++◌, map, Str, text, str_eq, ◌<◌, ◌≡◌, refl, ap,
  subst, arith,
}
use randevu.Noble.{Noble, Bytes}
use randevu.Core.Crypto.{
  sign, verify, did_key_from_ed25519, identity_key_pair_from_private,
  agreement_key_pair_from_private,
}
use randevu.Core.Transcript.{
  bytes_equal, envelope, lookup_id, lookup_epoch, pin, check_members, verify_transcript,
  TranscriptBundle, last_seq_from, TranscriptMember,
}
use randevu.Core.SealedBox.{wrap_group_key, unwrap_group_key}
use randevu.Core.SealedBox.Opening.{unwrap-wrap_group_key}
use randevu.Relay.Store.{get, put}
use randevu.Relay.Store.Laws.{get-put_self}
use randevu.Core.Message.Chain.{head_after}
use randevu.Core.Transcript.Walking.{signings}
use randevu.Relay.Session.Data.{MemberInput, StoredMessage}
use randevu.Local.Action.{done, fails, foreign, same_value}
use randevu.Local.Data.{Local, LogEntry, Randoms}
use randevu.Local.Api.{RelayApi, Party}
use randevu.Local.Keys.{
  sync_group_key, ensure_keys, cache, cache_into, refresh_group_key, fetch_group_key,
  resolve_holder,
}
use randevu.Core.GroupKey.{verify_group_key, sign_group_key}
use randevu.Local.Keys.Converging.{Converged, ensure_keys-Converged}
use randevu.Local.Keys.Holder.{IsTaken, sync_group_key-IsHeld}
use randevu.Local.Keys.Substitution.{rogue, sync_group_key-rogue}
use randevu.Local.Folding.{deliver, entry_of, fold_message, fold_messages, folded, pull}
use randevu.Local.Sending.{outgoing, sealed_envelope}
use randevu.Core.Message.{encrypt_message}
use randevu.Local.Folding.Delivery.{others, deliver-once}
use randevu.Local.Folding.Head.{IsFolded, IsAscending}
use randevu.Local.Folding.Undecodable.{pull-undecoded}
use randevu.Local.Sending.Arrival.{IsHeardBy, posted, fold_message-posted}
use randevu.Local.Export.{bundle_of, listed_members, export_transcript}
use randevu.Local.Export.Signed.{export_transcript-head_valid}
use randevu.Examples.Toy.{toy, toy-SealLaws, toy-TextLaws, toy-SignatureLaws, toy-Digests}

abbrev pub ana_key : Bytes
ana_key = 1 ∷ []

abbrev bob_key : Bytes
bob_key = 2 ∷ []

abbrev shared_key : Bytes
shared_key = 9 ∷ 9 ∷ []

abbrev pub ana_listed : MemberInput
ana_listed = record {
  fingerprint = text "ana";
  identity_pub = toy.bytes_to_hex ana_key;
  kx_pub = [];
}

unfoldable pub newcomer : Str → Bytes → Local
unfolding identity_key_pair_from_private agreement_key_pair_from_private
newcomer id sk = record {
  identity = identity_key_pair_from_private toy sk;
  agreement = agreement_key_pair_from_private toy sk;
  member_id = id;
  session_id = some (text "s");
  epoch = 1;
  role = none;
  creator_fingerprint = text "ana";
  group_key = some shared_key;
  group_keys = (1, shared_key) ∷ [];
  established_epoch = none;
  head = none;
  fetched_seq = 0;
  inbox_seq = 0;
  log = [];
  members_by_id = put [] (text "ana") ana_listed;
}

abbrev ana : Local
unfolding newcomer
ana = newcomer (text "ana") ana_key

unfoldable pub bob : Local
unfolding newcomer
bob = newcomer (text "bob") bob_key

abbrev sealed_key : Bytes
sealed_key = toy.x25519_public (5 ∷ []) ++ shared_key

seals : wrap_group_key toy (5 ∷ []) shared_key (toy.x25519_public bob_key) ≡ some sealed_key
unfolding wrap_group_key
seals = refl

unwrap-wrap_group_key_example :
    unwrap_group_key toy sealed_key (agreement_key_pair_from_private toy bob_key) ≡ some shared_key
unwrap-wrap_group_key_example =
    unwrap-wrap_group_key toy (5 ∷ []) bob_key shared_key sealed_key toy-SealLaws seals

-- A relay with a key pair of its own.
abbrev mallory : RelayApi (Unit {0})
unfolding rogue
mallory = rogue toy (7 ∷ []) shared_key sealed_key (text "ana")

abbrev before : Party (Unit {0})
unfolding bob
before = record { me = bob; world = tt }

sync_group_key-rogue_example :
    ((sync_group_key toy mallory before).0 ≡ done tt)
    × ((sync_group_key toy mallory before).1.me.group_key ≡ some shared_key)
unfolding mallory before bob newcomer
sync_group_key-rogue_example =
    sync_group_key-rogue toy (7 ∷ []) shared_key sealed_key (text "ana") bob 115 [] (5 ∷ []) bob_key
      toy-SignatureLaws toy-SealLaws refl refl refl seals

synced : sync_group_key toy mallory before ≡ (done tt, (sync_group_key toy mallory before).1)
synced = ap (λ a. (a, (sync_group_key toy mallory before).1)) sync_group_key-rogue_example.0

sync_group_key-IsHeld_example : IsTaken toy mallory before (sync_group_key toy mallory before).1
sync_group_key-IsHeld_example =
    sync_group_key-IsHeld toy mallory before (sync_group_key toy mallory before).1 synced

abbrev draws : Randoms
draws = record { group_key = shared_key; ephemeral = λ i. 5 ∷ []; nonce = 7 ∷ [] }

-- One that has the key of an earlier epoch.
abbrev behind : Party (Unit {0})
unfolding bob
behind = record { me = record bob { epoch = 0; group_key = none }; world = tt }

abbrev converged : Party (Unit {0})
unfolding ensure_keys mallory behind
converged = (ensure_keys toy mallory draws behind).1

converges : ensure_keys toy mallory draws behind ≡ (done true, converged)
unfolding ensure_keys converged behind mallory bob newcomer cache cache_into put get
    refresh_group_key fetch_group_key resolve_holder rogue unwrap_group_key verify_group_key
    sign_group_key str_eq verify sign bytes_equal agreement_key_pair_from_private
converges = refl

ensure_keys-Converged_example : Converged toy mallory behind converged
unfolding behind bob newcomer
ensure_keys-Converged_example =
    ensure_keys-Converged toy mallory draws behind converged true refl converges

-- A message of the one to the other.
heard : IsHeardBy toy ana bob ana_key shared_key
unfolding ana bob newcomer str_eq lookup_epoch
heard = record {
  identity = refl;
  head = refl;
  digest = tt;
  sender = ana_listed;
  cached = get-put_self [] (text "ana") ana_listed;
  pub_key = refl;
  other = refl;
  shared = refl;
}

abbrev hello : StoredMessage
unfolding ana
hello = posted toy ana (text "s") shared_key (7 ∷ []) (text "hello") (text "offer") none 1

fold_message-posted_example :
    (b' : Local) × ((fold_message toy (text "s") bob hello ≡ some b')
      × ((e : LogEntry) × ((b'.log ≡ bob.log ++ e ∷ [])
            × ((e.verified ≡ true) × ((e.body ≡ text "hello") × (e.seq ≡ 1))))))
unfolding hello bob
fold_message-posted_example =
    fold_message-posted toy toy-SignatureLaws toy-SealLaws toy-Digests toy-TextLaws ana bob
      (text "s") ana_key shared_key (7 ∷ []) (text "hello") (text "offer") none 1 heard refl

-- A relay that holds a row of messages.
abbrev shelf : List StoredMessage → RelayApi (Unit {0})
shelf ms = record {
  create_session = λ n m w. (fails foreign, w);
  join_session = λ i m w. (fails foreign, w);
  post_message = λ i m w. (fails foreign, w);
  get_messages = λ i n w. (done ms, w);
  post_keys = λ i k w. (fails foreign, w);
  get_key = λ i e m w. (fails foreign, w);
  status = λ i w. (fails foreign, w);
}

-- Hex of an odd length does not decode.
abbrev strict_hex : Str → Option Bytes
strict_hex [] = some []
strict_hex (c ∷ []) = none
strict_hex (c ∷ d ∷ s) = toy.hex_to_bytes (c ∷ d ∷ s)

abbrev strict : Noble
strict = record toy { hex_to_bytes = strict_hex }

abbrev odd : StoredMessage
odd = record {
  input = record {
    epoch = 1;
    sender_id = text "ana";
    ciphertext = text "x";
    nonce = text "y";
    signature = [];
    type = text "offer";
    prev_hash = none;
    ref = none;
  };
  seq = 2;
}

pull-undecoded_example :
    ((pull strict (shelf (hello ∷ odd ∷ [])) before).0 ≡ fails foreign)
    × ((pull strict (shelf (hello ∷ odd ∷ [])) before).1.me.fetched_seq < 2)
unfolding before bob newcomer hello shelf envelope entry_of
pull-undecoded_example =
    pull-undecoded strict (shelf (hello ∷ odd ∷ [])) before tt (hello ∷ []) [] odd 115 [] refl refl
      refl (omega arith, tt) (omega arith)

pub starts : IsFolded toy (text "s") bob
unfolding bob newcomer head_after signings last_seq_from
starts = record { head = refl; ascending = tt; fetched = refl }

abbrev heard_entry : ℕ → LogEntry
unfolding hello
heard_entry n = record {
  seq = n;
  sender_id = text "ana";
  type = text "offer";
  verified = true;
  chain_ok = true;
  body = text "hello";
  id = [];
  dto = hello;
}

deliver-once_example :
    (deliver (text "bob") 0 (heard_entry 1 ∷ [])).0
      ++ (deliver
          (text "bob")
          (deliver (text "bob") 0 (heard_entry 1 ∷ [])).1
          (heard_entry 1 ∷ heard_entry 2 ∷ [])).0
    ≡ others (text "bob") 0 (heard_entry 1 ∷ heard_entry 2 ∷ [])
unfolding heard_entry
deliver-once_example =
    deliver-once (text "bob") 0 0 (heard_entry 1 ∷ []) (heard_entry 2 ∷ [])
      (omega arith, (omega arith, tt))

abbrev author : Party (Unit {0})
unfolding ana
author = record { me = ana; world = tt }

abbrev after : Party (Unit {0})
unfolding author shelf hello pull
after = (pull toy (shelf (hello ∷ [])) author).1

abbrev shown_members : List TranscriptMember
unfolding did_key_from_ed25519
shown_members =
    record {
      fingerprint = text "ana";
      did = did_key_from_ed25519 toy ana_key;
      identity_pub = toy.bytes_to_hex ana_key;
    }
    ∷ []

abbrev exported : TranscriptBundle
unfolding after shown_members bundle_of
exported = bundle_of toy (text "s") after.me shown_members

exports : export_transcript toy (shelf (hello ∷ [])) author ≡ (done exported, after)
unfolding export_transcript exported after author shelf hello ana newcomer pull fold_messages
    fold_message folded envelope entry_of get put str_eq listed_members posted outgoing
    sealed_envelope encrypt_message bundle_of
exports = refl

first_fold : IsFolded toy (text "s") ana
unfolding ana newcomer head_after signings last_seq_from
first_fold = record { head = refl; ascending = tt; fetched = refl }

export_transcript-head_valid_example : (verify_transcript toy exported).head_valid ≡ some true
unfolding author after exported shelf hello ana newcomer pull fold_messages fold_message folded
    envelope entry_of get put str_eq listed_members posted outgoing sealed_envelope encrypt_message
    bundle_of lookup_id pin check_members
export_transcript-head_valid_example =
    export_transcript-head_valid toy (shelf (hello ∷ [])) author after exported 115 [] ana_key
      toy-SignatureLaws refl first_fold
      (λ ms w e. subst (λ xs. IsAscending 0 (map entry_of xs)) (same_value e) (omega arith, tt))
      exports refl refl
