-- ===== src/Relay/Keys.antt =====
-- The keys under which a session keeps its state: `KEY` of apps/relay/src/session.ts.
pub mod Laws
use randevu.Base.{ℕ, List, ◌∷◌, ◌++◌, Str, text, decimal, pad_start}

-- The entries of `KEY`, with their arguments.
pub data Key : Type 0 where
  meta seq : Key
  member : Str → Key
  token : Str → Key
  msg : ℕ → Key
  gkey : ℕ → Str → Key

unfoldable pub key : Key → Str
key meta = text "meta"
key seq = text "seq"
key (member fp) = text "member:" ++ fp
key (token hash) = text "token:" ++ hash
key (msg n) = text "msg:" ++ pad_start 12 (decimal n)
key (gkey epoch fp) = text "gkey:" ++ (decimal epoch ++ (text ":" ++ fp))

abbrev pub member_prefix : Str
member_prefix = text "member:"

abbrev pub msg_prefix : Str
msg_prefix = text "msg:"
