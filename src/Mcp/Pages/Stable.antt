-- ===== src/Mcp/Pages/Stable.antt =====
-- The markup of a page or an e-mail does not depend on the values in it.
use randevu.Base.{List, [], ◌∷◌, ◌++◌, Str, trim, ◌≡◌, refl, ap, sym, ◌∙◌}
use randevu.Core.Invite.{is_empty}
use randevu.Mcp.Pages.Email.{EmailOptions, email_pieces, invitation_email}
use randevu.Mcp.Pages.Landing.{landing_pieces, landing_page}
use randevu.Mcp.Pages.Unmarked.{marks, marks-append, marks-escape_html}
use randevu.Mcp.Pages.{Piece, markup, value, render, escape_html}

-- The template's own text.
unfoldable pub own_text : List Piece → List Str
own_text [] = []
own_text (markup s ∷ ps) = s ∷ own_text ps
own_text (value s ∷ ps) = own_text ps

marks_of : List Str → Str
marks_of [] = []
marks_of (s ∷ ss) = marks s ++ marks_of ss

-- Only what the template writes itself makes markup.
marks-render : (ps : List Piece) → marks (render ps) ≡ marks_of (own_text ps)
unfolding render own_text marks_of
marks-render [] = unfold marks in refl
marks-render (markup s ∷ ps) = marks-append s (render ps) ∙ ap (λ t. marks s ++ t) (marks-render ps)
marks-render (value s ∷ ps) =
    marks-append (escape_html s) (render ps) ∙ rw (marks-escape_html s) (marks-render ps)

own_text-landing_pieces :
    (code origin purpose code' origin' purpose' : Str)
    → is_empty code ≡ is_empty code'
    → is_empty purpose ≡ is_empty purpose'
    → own_text (landing_pieces code origin purpose)
      ≡ own_text (landing_pieces code' origin' purpose')
unfolding own_text landing_pieces
own_text-landing_pieces [] o [] [] o' [] e f = refl
own_text-landing_pieces [] o (p ∷ ps) [] o' (q ∷ qs) e f = refl
own_text-landing_pieces (c ∷ cs) o [] (d ∷ ds) o' [] e f = refl
own_text-landing_pieces (c ∷ cs) o (p ∷ ps) (d ∷ ds) o' (q ∷ qs) e f = refl
own_text-landing_pieces [] o p (d ∷ ds) o' q e f = cc
own_text-landing_pieces (c ∷ cs) o p [] o' q e f = cc
own_text-landing_pieces c o [] d o' (q ∷ qs) e f = cc
own_text-landing_pieces c o (p ∷ ps) d o' [] e f = cc

-- The landing page has the same markup whatever its code, its origin and its purpose, as long as the
-- same ones of code and purpose are empty.
pub marks-landing_page :
    (code origin purpose code' origin' purpose' : Str)
    → is_empty code ≡ is_empty code'
    → is_empty purpose ≡ is_empty purpose'
    → marks (landing_page code origin purpose) ≡ marks (landing_page code' origin' purpose')
unfolding landing_page
marks-landing_page code origin purpose code' origin' purpose' e f =
    marks-render (landing_pieces code origin purpose)
    ∙ ap marks_of (own_text-landing_pieces code origin purpose code' origin' purpose' e f)
    ∙ sym (marks-render (landing_pieces code' origin' purpose'))

own_text-email_pieces :
    (o o' : EmailOptions) (p q : Str)
    → is_empty p ≡ is_empty q
    → own_text (email_pieces o p) ≡ own_text (email_pieces o' q)
unfolding own_text email_pieces
own_text-email_pieces o o' [] [] e = refl
own_text-email_pieces o o' (c ∷ p) (d ∷ q) e = refl
own_text-email_pieces o o' [] (d ∷ q) e = cc
own_text-email_pieces o o' (c ∷ p) [] e = cc

-- Two invitation e-mails have the same markup whatever they say, as long as both have a purpose or
-- neither has one.
pub marks-invitation_email :
    (o o' : EmailOptions)
    → is_empty (trim o.purpose) ≡ is_empty (trim o'.purpose)
    → marks (invitation_email o).html ≡ marks (invitation_email o').html
unfolding invitation_email
marks-invitation_email o o' e =
    marks-render (email_pieces o (trim o.purpose))
    ∙ ap marks_of (own_text-email_pieces o o' (trim o.purpose) (trim o'.purpose) e)
    ∙ sym (marks-render (email_pieces o' (trim o'.purpose)))
