-- ===== src/Local/Folding/Session.antt =====
-- A member that pulls from the relay's own session, as apps/relay/src/session.ts runs it.
use randevu.Base.{
  ℕ, suc, ◌+◌, ◌≤◌, ◌<◌, Option, none, some, List, [], ◌∷◌, map, length, drop, length-drop, Str,
  text, ◌≡◌, refl, sym, ap, ◌∙◌, subst, arith,
}
use randevu.Noble.{Noble}
use randevu.Relay.Store.{Store}
use randevu.Relay.Session.Data.{Value, StoredMessage, Result, ok, err, Batch}
use randevu.Relay.Session.{init, join, post_message, get_messages, post_keys, get_key, status}
use randevu.Relay.Session.Room.{Room}
use randevu.Relay.Session.Refines.{Refines, Numbered}
use randevu.Relay.Keys.Laws.{seq_limit}
use randevu.Base.Numbered.{IsNumbered-drop}
use randevu.Relay.Session.Posting.{get_messages-Refines}
use randevu.Local.Action.{Attempt, done, fails, foreign, relay_error, then, same_value}
use randevu.Local.Data.{Local, MessageDto}
use randevu.Local.Api.{RelayApi, Party}
use randevu.Local.Folding.{entry_of, folded, folding, fold_message, fold_messages, pull}
use randevu.Local.Folding.Undecodable.{fold_message-some, pull-joined}
use randevu.Local.Folding.Head.{IsFolded, IsAscending, pull-IsFolded}

-- A result of the session as the client sees it.
abbrev pub as_attempt : {A B : Type 0} → (A → B) → Result A × Store Value → Attempt B × Store Value
as_attempt f (ok a, st) = (done (f a), st)
as_attempt f (err n code, st) = (fails (relay_error n (text code)), st)

-- The relay that holds one session; its id and the join token are what the session is opened with.
unfoldable pub session_api : Noble → Str → Str → RelayApi (Store Value)
unfolding init join post_message get_messages post_keys get_key status
session_api noble minted token = record {
  create_session = λ n m st.
      as_attempt (λ r. r)
        (init noble st (record { session_id = minted; max_members = n; creator = m }) token);
  join_session = λ id input st. as_attempt (λ r. r) (join noble st input);
  post_message = λ id m st. as_attempt (λ r. r) (post_message st m);
  get_messages = λ id after st. as_attempt (λ (b : Batch). b.messages) (get_messages st after);
  post_keys = λ id k st. as_attempt (λ r. tt) (post_keys st k);
  get_key = λ id e m st. as_attempt (λ r. r) (get_key st e m);
  status = λ id st. as_attempt (λ r. r) (status st);
}

Numbered-IsAscending :
    (n : ℕ) (ms : List StoredMessage) → Numbered n ms → IsAscending n (map entry_of ms)
unfolding entry_of
Numbered-IsAscending n [] h = tt
Numbered-IsAscending n (m ∷ ms) h = (
  omega (arith, h.0),
  subst (λ k. IsAscending k (map entry_of ms)) (sym h.0) (Numbered-IsAscending (n + 1) ms h.1),
)

-- Folding that goes through has counted every message.
fold_messages-length :
    (noble : Noble) (id : Str) (n : ℕ) (ms : List MessageDto) (me : Local)
    → Numbered n ms
    → me.fetched_seq ≡ n
    → (fold_messages noble id me ms).0 ≡ done tt
    → (fold_messages noble id me ms).1.fetched_seq ≡ n + length ms
unfolding fold_messages
fold_messages-length noble id n [] me h e d = omega (arith, e)
fold_messages-length noble id n (m ∷ ms) me h e d =
    by_round (fold_message noble id me m) refl
      (λ me' e'. fold_messages-length noble id (n + 1) ms me' h.1 e') d
  where
    by_round :
        (o : Option Local)
        → fold_message noble id me m ≡ o
        → ((me' : Local)
            → me'.fetched_seq ≡ n + 1
            → (fold_messages noble id me' ms).0 ≡ done tt
            → (fold_messages noble id me' ms).1.fetched_seq ≡ n + 1 + length ms)
        → (elim o as (λ x. Attempt (Unit {0}) × Local) [
          | none ↦ (fails foreign, me)
          | some me' ↦ fold_messages noble id me' ms
        ]).0
          ≡ done tt
        → (elim o as (λ x. Attempt (Unit {0}) × Local) [
          | none ↦ (fails foreign, me)
          | some me' ↦ fold_messages noble id me' ms
        ]).1.fetched_seq
          ≡ n + suc (length ms)
    by_round none f rest d = cc d
    by_round (some me') f rest d =
        let (env, (b, (decoded, round))) = fold_message-some noble id me me' m f in
        let later : me'.fetched_seq ≡ n + 1 =
          sym (ap (λ (x : Local). x.fetched_seq) round) ∙ unfold folded in omega (arith, h.0, e) in
        rest me' later d ∙ omega arith

module _ (noble : Noble) (minted token : Str) (st : Store Value) (r : Room) (c : ℕ) (t : Str) where
  answer-tail :
      (after : ℕ)
      → Refines st r
      → length r.log < seq_limit
      → (session_api noble minted token).get_messages (c ∷ t) after st
        ≡ (done (drop after r.log), st)
  unfolding session_api
  answer-tail after h room =
      ap (as_attempt (λ (b : Batch). b.messages)) (get_messages-Refines st r h room after)

  -- A member that pulls from a session whose store holds a room stays in step with it: its head is the
  -- fold of what it has logged, and if the pull returns, its cursor is the end of the room's log. It was in
  -- step and no further than the log before; the room has fewer than 10 ^ 12 messages.
  pub pull-room :
      (me : Local)
      → Refines st r
      → length r.log < seq_limit
      → me.session_id ≡ some (c ∷ t)
      → me.fetched_seq ≤ length r.log
      → IsFolded noble (c ∷ t) me
      → IsFolded noble
          (c ∷ t)
          (pull noble (session_api noble minted token) (record { me = me; world = st })).1.me
        × ((pull noble (session_api noble minted token) (record { me = me; world = st })).0
              ≡ done tt
            → (pull noble
                (session_api noble minted token)
                (record { me = me; world = st })).1.me.fetched_seq
              ≡ length r.log)
  unfolding folding
  pull-room me h room joined behind f =
      let s : Party (Store Value) = record { me = me; world = st } in
      let api = session_api noble minted token in
      let tail : Numbered me.fetched_seq (drop me.fetched_seq r.log) =
        subst (λ k. Numbered k (drop me.fetched_seq r.log)) (omega arith)
          (IsNumbered-drop (λ (m : StoredMessage). m.seq) 0 me.fetched_seq r.log h.numbered) in
      let answered = answer-tail me.fetched_seq h room in
      let ran : pull noble api s
          ≡ then (folding noble api (c ∷ t)) (done (drop me.fetched_seq r.log), s) =
        pull-joined noble api s c t joined
        ∙ ap
            (λ (a : Attempt (List StoredMessage) × Store Value).
              then (folding noble api (c ∷ t)) (a.0, record { me = me; world = a.1 }))
            answered in
      (
        pull-IsFolded noble api s c t joined f (λ ms w e.
            subst (λ xs. IsAscending me.fetched_seq (map entry_of xs))
              (same_value (sym answered ∙ e))
              (Numbered-IsAscending me.fetched_seq (drop me.fetched_seq r.log) tail)),
        λ ended.
            ap (λ (x : Attempt (Unit {0}) × Party (Store Value)). x.1.me.fetched_seq) ran
            ∙ fold_messages-length noble (c ∷ t) me.fetched_seq (drop me.fetched_seq r.log) me tail
                refl (ap (λ (x : Attempt (Unit {0}) × Party (Store Value)). x.0) (sym ran) ∙ ended)
            ∙ length-drop me.fetched_seq r.log behind,
      )
