-- ===== src/Local/Folding/Head.antt =====
-- The transcript head that a member keeps: it is the fold of the messages that it has logged.
use randevu.Base.{
  ℕ, ◌<◌, max, Option, none, some, List, [], ◌∷◌, ◌++◌, map, Str, Option-cases, ◌≡◌, refl, sym, ap,
  ◌∙◌, subst, arith, inl, inr,
}
use randevu.Noble.{Noble, Bytes}
use randevu.Core.Message.{SignableEnvelope, message_signing_bytes, chain_hash}
use randevu.Core.Message.Chain.{head_after, head_after-snoc}
use randevu.Core.Transcript.{
  Pinned, TranscriptMessageEntry, envelope, last_seq_from, insert_entry, sort_entries,
}
use randevu.Core.Transcript.Walking.{signings}
use randevu.Local.Action.{done, attempt-cases}
use randevu.Local.Data.{Local, LogEntry, MessageDto}
use randevu.Local.Api.{RelayApi, Party}
use randevu.Local.Folding.{entry_of, folded, fold_message, fold_messages, folding, pull}
use randevu.Local.Folding.Undecodable.{fold_message-some, pull-joined}

-- What stands in the log, as a transcript shows it.
abbrev pub logged : List LogEntry → List TranscriptMessageEntry
logged log = map (λ e. entry_of e.dto) log

-- Numbers that go up, from above a bound.
abbrev pub IsAscending : ℕ → List TranscriptMessageEntry → Type 0
IsAscending n [] = Unit
IsAscending n (m ∷ ms) = (n < m.seq) × IsAscending m.seq ms

abbrev session_only : Str → Pinned
session_only id = record { session_id = id; ids = []; keys = [] }

pub record IsFolded (noble : Noble) (id : Str) (me : Local) : Type 0 where
  pub head : me.head ≡ head_after noble none (signings noble (session_only id) (logged me.log))
  pub ascending : IsAscending 0 (logged me.log)
  pub fetched : me.fetched_seq ≡ last_seq_from 0 (logged me.log)

logged-snoc :
    (log : List LogEntry) (e : LogEntry)
    → logged (log ++ e ∷ []) ≡ logged log ++ entry_of e.dto ∷ []
logged-snoc [] e = refl
logged-snoc (x ∷ log) e = ap (λ t. entry_of x.dto ∷ t) (logged-snoc log e)

signings-snoc :
    (noble : Noble) (p : Pinned) (ms : List TranscriptMessageEntry) (m : TranscriptMessageEntry)
    (env : SignableEnvelope)
    → envelope noble p.session_id m ≡ some env
    → signings noble p (ms ++ m ∷ []) ≡ signings noble p ms ++ message_signing_bytes noble env ∷ []
unfolding signings
signings-snoc noble p [] m env h = rw (h, signings) refl
signings-snoc noble p (x ∷ ms) m env h =
    by_envelope (envelope noble p.session_id x) (signings-snoc noble p ms m env h)
  where
    by_envelope :
        (o : Option SignableEnvelope)
        → signings noble p (ms ++ m ∷ [])
          ≡ signings noble p ms ++ message_signing_bytes noble env ∷ []
        → elim o [
          | none ↦ signings noble p (ms ++ m ∷ [])
          | some e ↦ message_signing_bytes noble e ∷ signings noble p (ms ++ m ∷ [])
        ]
          ≡ elim o [
            | none ↦ signings noble p ms
            | some e ↦ message_signing_bytes noble e ∷ signings noble p ms
          ]
            ++ message_signing_bytes noble env ∷ []
    by_envelope none ih = ih
    by_envelope (some e) ih = ap (λ t. message_signing_bytes noble e ∷ t) ih

-- The signing bytes depend on the session, not on the keys that are pinned.
pub signings-session :
    (noble : Noble) (id : Str) (ids : List (Str × Bytes)) (keys : List (ℕ × Bytes))
    (ms : List TranscriptMessageEntry)
    → signings noble (record { session_id = id; ids = ids; keys = keys }) ms
      ≡ signings noble (session_only id) ms
unfolding signings
signings-session noble id ids keys [] = refl
signings-session noble id ids keys (m ∷ ms) =
    by_envelope (envelope noble id m) (signings-session noble id ids keys ms)
  where
    by_envelope :
        {xs ys : List Bytes} (o : Option SignableEnvelope)
        → xs ≡ ys
        → elim o [ none ↦ xs | some e ↦ message_signing_bytes noble e ∷ xs ]
          ≡ elim o [ none ↦ ys | some e ↦ message_signing_bytes noble e ∷ ys ]
    by_envelope none ih = ih
    by_envelope (some e) ih = ap (λ t. message_signing_bytes noble e ∷ t) ih

last_seq_from-snoc :
    (n : ℕ) (ms : List TranscriptMessageEntry) (m : TranscriptMessageEntry)
    → last_seq_from n (ms ++ m ∷ []) ≡ m.seq
unfolding last_seq_from
last_seq_from-snoc n [] m = refl
last_seq_from-snoc n (x ∷ ms) m = last_seq_from-snoc x.seq ms m

IsAscending-snoc :
    (n : ℕ) (ms : List TranscriptMessageEntry) (m : TranscriptMessageEntry)
    → IsAscending n ms
    → last_seq_from n ms < m.seq
    → IsAscending n (ms ++ m ∷ [])
unfolding last_seq_from
IsAscending-snoc n [] m h l = (l, tt)
IsAscending-snoc n (x ∷ ms) m h l = (h.0, IsAscending-snoc x.seq ms m h.1 l)

-- Sorting leaves messages that go up as they are.
pub sort_entries-IsAscending :
    (n : ℕ) (ms : List TranscriptMessageEntry) → IsAscending n ms → sort_entries ms ≡ ms
unfolding sort_entries
sort_entries-IsAscending n [] h = refl
sort_entries-IsAscending n (m ∷ ms) h =
    ap (insert_entry m) (sort_entries-IsAscending m.seq ms h.1) ∙ first ms h.1
  where
    first : (ms : List TranscriptMessageEntry) → IsAscending m.seq ms → insert_entry m ms ≡ m ∷ ms
    first [] h = unfold insert_entry in refl
    first (x ∷ ms) h = unfold insert_entry in ground (arith, h.0)

folded-IsFolded :
    (noble : Noble) (id : Str) (me : Local) (m : MessageDto) (env : SignableEnvelope) (b : _)
    → IsFolded noble id me
    → me.fetched_seq < m.seq
    → envelope noble id (entry_of m) ≡ some env
    → IsFolded noble id (folded noble me m env b)
unfolding folded entry_of
folded-IsFolded noble id me m env b f above decoded =
    let same = logged-snoc me.log _ in
    let later : max me.fetched_seq m.seq ≡ m.seq = omega (arith, above) in
    record {
      head =
          ap (λ h. some (chain_hash noble h (message_signing_bytes noble env))) f.head
          ∙ sym (
              head_after-snoc noble none (signings noble (session_only id) (logged me.log))
                (message_signing_bytes noble env))
          ∙ ap (head_after noble none)
              (sym (signings-snoc noble (session_only id) (logged me.log) (entry_of m) env decoded))
          ∙ ap (λ ms. head_after noble none (signings noble (session_only id) ms)) (sym same);
      ascending = subst (IsAscending 0) (sym same) (
          IsAscending-snoc 0 (logged me.log) (entry_of m) f.ascending
            (subst (λ n. n < m.seq) f.fetched above));
      fetched =
          later
          ∙ sym (last_seq_from-snoc 0 (logged me.log) (entry_of m))
          ∙ ap (last_seq_from 0) (sym same);
    }

pub fold_messages-IsFolded :
    (noble : Noble) (id : Str) (ms : List MessageDto) (me : Local)
    → IsFolded noble id me
    → IsAscending me.fetched_seq (map entry_of ms)
    → IsFolded noble id (fold_messages noble id me ms).1
unfolding fold_messages entry_of
fold_messages-IsFolded noble id [] me f up = f
fold_messages-IsFolded noble id (m ∷ ms) me f up =
    elim (Option-cases (fold_message noble id me m)) [
      | inl e ↦ rw (e, fold_messages) f
      | inr (me', e) ↦
          let (env, (b, (decoded, round))) = fold_message-some noble id me me' m e in
          let later : me'.fetched_seq ≡ m.seq =
            sym (ap (λ (x : Local). x.fetched_seq) round) ∙ unfold folded in omega (arith, up.0) in
          let f' =
            subst (IsFolded noble id) round (folded-IsFolded noble id me m env b f up.0 decoded) in
          rw (e, fold_messages)
            (fold_messages-IsFolded noble id ms me' f'
              (subst (λ n. IsAscending n (map entry_of ms)) (sym later) up.1))
    ]

-- `pull` keeps the member's head, cursor and log in step, also where it throws: the head is the fold of
-- the logged messages' signing bytes, their numbers go up and the last one is the cursor, if the relay's
-- answer has numbers that go up from the cursor.
pub pull-IsFolded :
    {W : Type 0} (noble : Noble) (api : RelayApi W) (s : Party W) (c : ℕ) (t : Str)
    → s.me.session_id ≡ some (c ∷ t)
    → IsFolded noble (c ∷ t) s.me
    → ((ms : List MessageDto) (w : W)
        → api.get_messages (c ∷ t) s.me.fetched_seq s.world ≡ (done ms, w)
        → IsAscending s.me.fetched_seq (map entry_of ms))
    → IsFolded noble (c ∷ t) (pull noble api s).1.me
unfolding folding
pull-IsFolded noble api s c t joined f up =
    subst (λ x. IsFolded noble (c ∷ t) x.1.me) (sym (pull-joined noble api s c t joined))
      (elim (attempt-cases (api.get_messages (c ∷ t) s.me.fetched_seq s.world)) [
        | inl (ms, (w, e)) ↦ rw e (fold_messages-IsFolded noble (c ∷ t) ms s.me f (up ms w e))
        | inr (x, (w, e)) ↦ rw e f
      ])
