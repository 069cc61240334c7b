-- ===== src/Relay/Session/Posting.antt =====
-- `postMessage` and `getMessages` over the store are an append to the room's log and a reading of
-- its tail.
use mathlib.Core.List.{map-append}
use randevu.Base.{
  ℕ, ◌+◌, ◌⊎◌, ◌<◌, Bool, true, false, none, some, [], ◌∷◌, ◌++◌, map, length, drop, ◌≡◌, refl, ap,
  ap₂, sym, ◌∙◌, arith, subst, if◌then◌else◌, ltb, Option-cases, inl, inr, ◌==◌, length-append,
}
use randevu.Relay.Store.{Store, get, put, list}
use randevu.Base.Numbered.{IsNumbered-snoc, tail_lem}
use randevu.Relay.Store.Ranged.{below-IsNumbered, newer_by-list}
use randevu.Relay.Store.Listing.{list-put_last, ListedBelow}
use randevu.Relay.Keys.{seq, msg, key, msg_prefix}
use randevu.Relay.Keys.Laws.{seq_limit, starts_with-msg_prefix}
use randevu.Relay.Session.{post_message, get_messages, newer, sort_messages, last_seq}
use randevu.Relay.Session.Data.{MessageInput, Value, number_value, message_value, ok, Batch}
use randevu.Relay.Session.Room
use randevu.Relay.Session.Room.{Room, find_member}
use randevu.Relay.Session.Refines.{
  Refines, keyed, msg_entry, get-put-key, members-put_other, messages-put_other,
}

-- A room with one message more at the end of its log.
abbrev pub extended : Room → MessageInput → Room
extended r input = record r { log = r.log ++ record { input = input; seq = length r.log + 1 } ∷ [] }

length-extended :
    (r : Room) (input : MessageInput) → length (extended r input).log ≡ length r.log + 1
length-extended r input =
    omega (arith, length-append r.log (record { input = input; seq = length r.log + 1 } ∷ []))

module _ (st : Store Value) (r : Room) (h : Refines st r) (input : MessageInput) where
  new_value : Value
  new_value = message_value (record { input = input; seq = length r.log + 1 })

  -- The two writes of `postMessage`.
  written : Store Value
  unfolding new_value
  written =
      put (put st (key seq) (number_value (length r.log + 1))) (key (msg (length r.log + 1)))
        new_value

  written-listed :
      length r.log + 1 < seq_limit
      → list written msg_prefix none ≡ map msg_entry (extended r input).log
  unfolding written new_value
  written-listed room =
      let st1 = put st (key seq) (number_value (length r.log + 1)) in
      let same_list : list st1 msg_prefix none ≡ map msg_entry r.log =
        messages-put_other st seq (number_value (length r.log + 1)) none refl ∙ h.log_listed in
      list-put_last st1 (key (msg (length r.log + 1))) msg_prefix new_value
        (starts_with-msg_prefix (msg (length r.log + 1)))
        (get-put-key st seq (msg (length r.log + 1)) _ ∙ h.log_end (length r.log + 1) (omega arith))
        (subst (ListedBelow (key (msg (length r.log + 1)))) (sym same_list)
          (below-IsNumbered keyed 0 (length r.log + 1) r.log h.numbered (omega arith) room))
      ∙ ap (λ t. t ++ (key (msg (length r.log + 1)), new_value) ∷ []) same_list
      ∙ sym (map-append msg_entry r.log _)

  written-Refines : length r.log + 1 < seq_limit → Refines written (extended r input)
  unfolding written
  written-Refines room = record {
    meta_at = simp get-put-key h.meta_at;
    seq_at = simp get-put-key (ap (λ n. some (number_value n)) (sym (length-extended r input)));
    member_at = λ fp. simp get-put-key (h.member_at fp);
    member_free = λ fp e. simp get-put-key (h.member_free fp e);
    members_listed = rw members-put_other (rw members-put_other h.members_listed);
    log_listed = written-listed room;
    numbered = IsNumbered-snoc (λ m. m.seq) 0 r.log _ h.numbered (omega arith);
    log_end = λ n e. simp get-put-key (later n (omega (arith, length-extended r input)));
    token_at = λ t. simp get-put-key (h.token_at t);
    wrapped_at = λ e fp. simp get-put-key (h.wrapped_at e fp);
  }
    where
      later :
          (n : ℕ)
          → length r.log + 1 < n
          → (if (length r.log + 1) == n then some new_value else get st (key (msg n))) ≡ none
      later n e = ground (arith, h.log_end n)

  -- On a store that holds a room with a number left below 10 ^ 12, `postMessage` gives the room's next
  -- number and appends to its log; a sender that is no member is refused, and the store
  -- holds the room as it was.
  pub post_message-Refines :
      length r.log + 1 < seq_limit
      → ((post_message st input).0 ≡ (Room.post r input).0)
        × Refines (post_message st input).1 (Room.post r input).1
  unfolding post_message Room.post
  post_message-Refines room = elim (Option-cases (find_member input.sender_id r.members)) [
    | inl e ↦ rw (h.meta_at, h.member_at, e) (refl, h)
    | inr (m, e) ↦
        rw (h.meta_at, h.member_at, e, h.seq_at) (refl, unfold written in written-Refines room)
  ]

-- What `getMessages` answers over a room.
abbrev pub tail_of : Room → ℕ → Batch
tail_of r after = record { messages = drop after r.log; cursor = after + length (drop after r.log) }

start_cases :
    (after : ℕ) (b : Bool)
    → ((if b then some (key (msg (after + 1))) else none) ≡ none)
      ⊎ ((if b then some (key (msg (after + 1))) else none) ≡ some (key (msg (after + 1))))
start_cases after true = inr refl
start_cases after false = inl refl

module _ (st : Store Value) (r : Room) (h : Refines st r) (room : length r.log < seq_limit) where
  -- On a store that holds a room of fewer than 10 ^ 12 messages `getMessages` gives the messages after
  -- the cursor, all of them, in order, and the last one's number as the next cursor.
  pub get_messages-Refines : (after : ℕ) → get_messages st after ≡ (ok (tail_of r after), st)
  unfolding get_messages newer sort_messages last_seq
  get_messages-Refines after =
      let (found, cursor) =
        tail_lem (λ m. m.seq) after r.log _ h.numbered
          (newer_by-list keyed st msg_prefix r.log after _ h.log_listed h.numbered room
            (start_cases after (ltb 0 after))) in
      rw h.meta_at (ap₂ (λ ms n. (ok (record { messages = ms; cursor = n }), st)) found cursor)
