-- ===== src/Mcp/Room/Log.antt =====
-- A hosted room's cells hold its log; sending appends to it.
use mathlib.Core.List.{map-append}
use randevu.Base.{
  ℕ, ◌+◌, ◌<◌, ◌^◌, true, false, Option, none, List, [], ◌∷◌, ◌++◌, map, length, length-append, Str,
  text, decimal, pad_start, pad-decimal, fixed-lt, pad_decimal-injective, starts_with-append,
  str_lt, str_lt-append, str_eq, str_eq_iff, str_eq-append, ◌≡◌, refl, ap, sym, subst, ◌∙◌, arith,
  Bool-cases, inl, inr,
}
use randevu.Base.Numbered.{IsNumbered, IsNumbered-snoc}
use randevu.Relay.Store.Ranged.{Keyed, entry_by, below-IsNumbered}
use randevu.Mcp.Room.{listed, Cells, RoomMessage, or_else, some_text, msg_key, send}
use randevu.Relay.Store.{get, list}
use randevu.Relay.Store.Laws.{get-put_ne}
use randevu.Relay.Store.Listing.{list-put_last, ListedBelow}

-- Keys have nine digits.
abbrev pub room_limit : ℕ
room_limit = 10 ^ 9

abbrev pub msg_prefix : Str
msg_prefix = text "msg:"

pub msg_key-lt : (a b : ℕ) → a < b → b < room_limit → str_lt (msg_key a) (msg_key b) ≡ true
msg_key-lt a b h k =
    rw (str_lt-append (text "msg:") (pad_start 9 (decimal a)) (pad_start 9 (decimal b))) (
      rw (pad-decimal 9 a (omega arith) (omega arith), pad-decimal 9 b k (omega arith))
        (fixed-lt 9 a b h k))

-- The messages under their keys.
abbrev pub keyed : Keyed RoomMessage RoomMessage
keyed = record {
  seq = λ m. m.seq;
  key = msg_key;
  limit = room_limit;
  value = λ m. m;
  values = listed;
  none_valued = refl;
  one_valued = λ k m es. refl;
  ordered = msg_key-lt;
}

pub record HoldsLog (c : Cells) (log : List RoomMessage) : Type 0 where
  pub seq_at : or_else c.seq 0 ≡ length log
  pub listed : list c.messages msg_prefix none ≡ map (entry_by keyed) log
  pub numbered : IsNumbered (λ (m : RoomMessage). m.seq) 0 log
  pub log_end : (n : ℕ) → length log < n → get c.messages (msg_key n) ≡ none

msg_key-ne : (a b : ℕ) → a < b → str_eq (msg_key a) (msg_key b) ≡ false
msg_key-ne a b h = elim (Bool-cases (str_eq (msg_key a) (msg_key b))) [
  | inl same ↦ absurd (apart same)
  | inr other ↦ other
]
  where
    apart : str_eq (msg_key a) (msg_key b) ≡ true → ⊥
    apart same =
        let e : a ≡ b = pad_decimal-injective 9 a b (
          (str_eq_iff (pad_start 9 (decimal a)) (pad_start 9 (decimal b))).0 (
            sym (str_eq-append (text "msg:") (pad_start 9 (decimal a)) (pad_start 9 (decimal b)))
            ∙ same)) in
        omega arith

-- The message that `send` stores, after so many others.
abbrev pub next_message : ℕ → ℕ → Str → Str → Str → Option ℕ → RoomMessage
next_message count now from words type retry_after = record {
  seq = count + 1;
  from = from;
  text = words;
  type = some_text type;
  retry_after = retry_after;
  ts = now;
}

-- `send` gives the next number and appends its message to the log.
pub send-HoldsLog :
    (c : Cells) (log : List RoomMessage) (now : ℕ) (from words type : Str) (retry_after : Option ℕ)
    → HoldsLog c log
    → length log + 1 < room_limit
    → ((send c now from words type retry_after).0 ≡ length log + 1)
      × HoldsLog
          (send c now from words type retry_after).1
          (log ++ next_message (length log) now from words type retry_after ∷ [])
unfolding send
send-HoldsLog c log now from words type retry_after h room =
    let m = next_message (length log) now from words type retry_after in
    let n : ℕ = length log + 1 in
    let grown : length (log ++ m ∷ []) ≡ length log + 1 =
      omega (arith, length-append log (m ∷ [])) in
    rw h.seq_at (
      refl,
      record {
        seq_at = sym grown;
        listed =
            list-put_last c.messages (msg_key n) msg_prefix m
              (starts_with-append (text "msg:") (pad_start 9 (decimal n)))
              (h.log_end n (omega arith))
              (subst (ListedBelow (msg_key n)) (sym h.listed)
                (below-IsNumbered keyed 0 n log h.numbered (omega arith) room))
            ∙ ap (λ t. t ++ (msg_key n, m) ∷ []) h.listed
            ∙ sym (map-append (entry_by keyed) log (m ∷ []));
        numbered = IsNumbered-snoc (λ m. m.seq) 0 log m h.numbered (omega arith);
        log_end = λ k e.
            get-put_ne c.messages (msg_key n) (msg_key k) m
              (msg_key-ne n k (omega (arith, grown, e)))
            ∙ h.log_end k (omega (arith, grown, e));
      },
    )
