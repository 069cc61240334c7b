-- ===== src/Mcp/Pages.antt =====
-- Pages and e-mails of the hosted server: apps/mcp/src/lib.ts. A template is the row of its pieces.
pub mod Landing
pub mod Email
pub mod Route
pub mod Unmarked
pub mod Stable
pub mod Codes
use randevu.Base.{ℕ, List, [], ◌∷◌, ◌++◌, Str, text, if◌then◌else◌, ◌==◌}

-- s.replace(/c/g, r)
unfoldable pub replace_all : ℕ → Str → Str → Str
replace_all c r [] = []
replace_all c r (x ∷ s) = let rest = replace_all c r s in if x == c then r ++ rest else x ∷ rest

abbrev pub ampersand : ℕ
ampersand = 38

abbrev pub less : ℕ
less = 60

abbrev pub greater : ℕ
greater = 62

abbrev pub quote : ℕ
quote = 34

unfoldable pub escape_html : Str → Str
unfolding replace_all
escape_html s = replace_all quote (text "&quot;") (
    replace_all greater (text "&gt;")
      (replace_all less (text "&lt;") (replace_all ampersand (text "&amp;") s)))

-- What a template writes itself, and a value that it escapes.
pub data Piece : Type 0 where
  markup : Str → Piece
  value : Str → Piece

unfoldable pub render : List Piece → Str
unfolding escape_html
render [] = []
render (markup s ∷ ps) = s ++ render ps
render (value s ∷ ps) = escape_html s ++ render ps
