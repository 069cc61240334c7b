-- ===== src/Mcp/Pages/Unmarked.antt =====
-- What `escapeHtml` writes: one entity for each character, and no markup.
use randevu.Base.{
  ℕ, Bool, ◌||◌, [], ◌∷◌, ◌++◌, Str, text, if◌then◌else◌, ◌==◌, ◌≡◌, refl, ap, ◌∙◌, append_assoc,
  Bool-cases, inl, inr,
}
use randevu.Mcp.Pages.{ampersand, less, greater, quote, replace_all, escape_html}

-- The entity of a character, or the character.
unfoldable pub entity : ℕ → Str
entity c =
    if c == ampersand
    then text "&amp;"
    else if c == less
    then text "&lt;"
    else if c == greater
    then text "&gt;"
    else if c == quote
    then text "&quot;"
    else c ∷ []

unfoldable pub entities : Str → Str
unfolding entity
entities [] = []
entities (c ∷ s) = entity c ++ entities s

replace_all-append :
    (c : ℕ) (r s t : Str) → replace_all c r (s ++ t) ≡ replace_all c r s ++ replace_all c r t
unfolding replace_all
replace_all-append c r [] t = refl
replace_all-append c r (x ∷ s) t = elim (Bool-cases (x == c)) [
  | inl same ↦
      rw (same, replace_all-append c r s t, append_assoc r (replace_all c r s) (replace_all c r t))
        refl
  | inr other ↦ rw (other, replace_all-append c r s t) refl
]

escape_html-append : (s t : Str) → escape_html (s ++ t) ≡ escape_html s ++ escape_html t
unfolding escape_html
escape_html-append s t =
    rw (replace_all-append, replace_all-append, replace_all-append, replace_all-append) refl

escape_html-entity : (c : ℕ) → escape_html (c ∷ []) ≡ entity c
unfolding escape_html entity replace_all
escape_html-entity c = elim (Bool-cases (c == ampersand)) [
  | inl is ↦ rw is refl
  | inr a ↦ elim (Bool-cases (c == less)) [
    | inl is ↦ rw (a, is) refl
    | inr b ↦ elim (Bool-cases (c == greater)) [
      | inl is ↦ rw (a, b, is) refl
      | inr d ↦ elim (Bool-cases (c == quote)) [
        | inl is ↦ rw (a, b, d, is) refl
        | inr e ↦ rw (a, b, d, e) refl
      ]
    ]
  ]
]

-- Four passes over the text write what one pass writes, character by character.
pub escape_html-entities : (s : Str) → escape_html s ≡ entities s
unfolding entities
escape_html-entities [] = unfold escape_html in refl
escape_html-entities (c ∷ s) =
    escape_html-append (c ∷ []) s ∙ rw (escape_html-entity c, escape_html-entities s) refl

-- The characters that make markup: <, > and ".
abbrev pub is_mark : ℕ → Bool
is_mark c = c == less || c == greater || c == quote

unfoldable pub marks : Str → Str
marks [] = []
marks (c ∷ s) = let rest = marks s in if is_mark c then c ∷ rest else rest

pub marks-append : (s t : Str) → marks (s ++ t) ≡ marks s ++ marks t
unfolding marks
marks-append [] t = refl
marks-append (c ∷ s) t = elim (Bool-cases (is_mark c)) [
  | inl mark ↦ rw (mark, marks-append s t) refl
  | inr plain ↦ rw (plain, marks-append s t) refl
]

marks-entity : (c : ℕ) → marks (entity c) ≡ []
unfolding marks entity
marks-entity c = elim (Bool-cases (c == ampersand)) [
  | inl is ↦ rw is refl
  | inr a ↦ elim (Bool-cases (c == less)) [
    | inl is ↦ rw (a, is) refl
    | inr b ↦ elim (Bool-cases (c == greater)) [
      | inl is ↦ rw (a, b, is) refl
      | inr d ↦ elim (Bool-cases (c == quote)) [
        | inl is ↦ rw (a, b, d, is) refl
        | inr e ↦ rw (a, b, d, e) (rw (b, d, e) refl)
      ]
    ]
  ]
]

marks-entities : (s : Str) → marks (entities s) ≡ []
unfolding entities
marks-entities [] = unfold marks in refl
marks-entities (c ∷ s) =
    marks-append (entity c) (entities s) ∙ rw (marks-entity c, marks-entities s) refl

-- Escaped text makes no markup.
pub marks-escape_html : (s : Str) → marks (escape_html s) ≡ []
marks-escape_html s = ap marks (escape_html-entities s) ∙ marks-entities s
