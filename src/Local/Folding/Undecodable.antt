-- ===== src/Local/Folding/Undecodable.antt =====
-- A message whose hex does not decode, and what `pull` makes of it.
use randevu.Base.{
  ℕ, ◌<◌, none, some, List, [], ◌∷◌, ◌++◌, Str, All, Option-cases, ◌≡◌, refl, sym, ap, ◌∙◌, subst,
  arith, inl, inr,
}
use randevu.Base.Options.{bind-some}
use randevu.Noble.{Noble}
use randevu.Core.Transcript.{envelope}
use randevu.Relay.Store.{get}
use randevu.Local.Action.{Attempt, done, fails, foreign, then}
use randevu.Local.Data.{Local, MessageDto}
use randevu.Local.Api.{RelayApi, Party, call, require_session-joined}
use randevu.Local.Folding.{
  entry_of, check_sender, folded, fold_message, fold_messages, folding, pull,
}

-- A round that went through decoded the message, and is the round on what was decoded.
pub fold_message-some :
    (noble : Noble) (id : Str) (me me' : Local) (m : MessageDto)
    → fold_message noble id me m ≡ some me'
    → (env : _) × ((b : _) × ((envelope noble id (entry_of m) ≡ some env)
          × (folded noble me m env b ≡ me')))
unfolding fold_message
fold_message-some noble id me me' m h =
    let (env, (decoded, h₁)) = bind-some (envelope noble id (entry_of m)) _ h in
    let (b, (checked, h₂)) =
      bind-some (check_sender noble env m.signature (get me.members_by_id m.sender_id)) _ h₁ in
    (env, (b, (decoded, cc h₂)))

-- `pull` inside a session.
pub pull-joined :
    {W : Type 0} (noble : Noble) (api : RelayApi W) (s : Party W) (c : ℕ) (t : Str)
    → s.me.session_id ≡ some (c ∷ t)
    → pull noble api s
      ≡ then (folding noble api (c ∷ t)) (call (api.get_messages (c ∷ t) s.me.fetched_seq) s)
unfolding pull
pull-joined noble api s c t joined =
    ap
      (then
        (λ id. λ p. then (folding noble api id) (call (api.get_messages id p.me.fetched_seq) p)))
      (require_session-joined s c t joined)

module _ (noble : Noble) (id : Str) (m : MessageDto)
    (undecoded : envelope noble id (entry_of m) ≡ none) where
  fold_message-undecoded : (me : Local) → fold_message noble id me m ≡ none
  unfolding fold_message
  fold_message-undecoded me = rw undecoded refl

  fold_messages-undecoded :
      (pre post : List MessageDto) (me : Local)
      → All (λ p. p.seq < m.seq) pre
      → me.fetched_seq < m.seq
      → ((fold_messages noble id me (pre ++ m ∷ post)).0 ≡ fails foreign)
        × ((fold_messages noble id me (pre ++ m ∷ post)).1.fetched_seq < m.seq)
  unfolding fold_messages folded
  fold_messages-undecoded [] post me before behind =
      rw (fold_message-undecoded me, fold_messages) (refl, behind)
  fold_messages-undecoded (p ∷ pre) post me before behind =
      elim (Option-cases (fold_message noble id me p)) [
        | inl e ↦ rw (e, fold_messages) (refl, behind)
        | inr (me', e) ↦
            let (env, (b, (decoded, round))) = fold_message-some noble id me me' p e in
            let ahead : me'.fetched_seq < m.seq =
              subst (λ (x : Local). x.fetched_seq < m.seq) round
                (omega (arith, before.0, behind)) in
            rw (e, fold_messages) (fold_messages-undecoded pre post me' before.1 ahead)
      ]

  fold-undecoded :
      {W : Type 0} (api : RelayApi W) (s : Party W) (w : W) (pre post : List MessageDto)
      → api.get_messages id s.me.fetched_seq s.world ≡ (done (pre ++ m ∷ post), w)
      → All (λ p. p.seq < m.seq) pre
      → s.me.fetched_seq < m.seq
      → (r : Attempt (Unit {0}) × Party W) × ((then
              (folding noble api id)
              (call (api.get_messages id s.me.fetched_seq) s)
            ≡ r)
          × ((r.0 ≡ fails foreign) × (r.1.me.fetched_seq < m.seq)))
  unfolding folding
  fold-undecoded api s w pre post answered before behind =
      (_, (refl, rw answered (fold_messages-undecoded pre post s.me before behind)))

-- If the relay's answer holds a message whose nonce, ciphertext or previous hash does not decode,
-- behind messages with smaller numbers, then `pull` throws, and what it has counted stays below that
-- message: the next answer after the same cursor holds it again.
pub pull-undecoded :
    {W : Type 0} (noble : Noble) (api : RelayApi W) (s : Party W) (w : W)
    (pre post : List MessageDto) (m : MessageDto) (c : ℕ) (t : Str)
    → envelope noble (c ∷ t) (entry_of m) ≡ none
    → s.me.session_id ≡ some (c ∷ t)
    → api.get_messages (c ∷ t) s.me.fetched_seq s.world ≡ (done (pre ++ m ∷ post), w)
    → All (λ p. p.seq < m.seq) pre
    → s.me.fetched_seq < m.seq
    → ((pull noble api s).0 ≡ fails foreign) × ((pull noble api s).1.me.fetched_seq < m.seq)
pull-undecoded noble api s w pre post m c t undecoded joined answered before behind =
    let (r, (e, ends)) =
      fold-undecoded noble (c ∷ t) m undecoded api s w pre post answered before behind in
    subst (λ x. (x.0 ≡ fails foreign) × (x.1.me.fetched_seq < m.seq))
      (sym (pull-joined noble api s c t joined ∙ e)) ends
