-- ===== src/Examples/Pages.antt =====
-- Pages and e-mails with values that would be markup, and the path of a room code.
use randevu.Base.{ℕ, none, some, List, [], ◌∷◌, ◌++◌, Str, text, trim, is_space, ◌≡◌, refl, arith}
use randevu.Mcp.Pages.Codes.{route_static-new_room_code}
use randevu.Mcp.Pages.Email.{EmailOptions, invitation_email}
use randevu.Mcp.Pages.Landing.{landing_page}
use randevu.Mcp.Pages.Route.{PageUrl, page, not_found, new_room_code, route_static}
use randevu.Mcp.Pages.Stable.{marks-landing_page, marks-invitation_email}
use randevu.Mcp.Pages.Unmarked.{marks}

abbrev hostile : Str
hostile = text "\"><script>"

marks-landing_page_example :
    marks (landing_page (text "rdv-1") (text "https://m.io") hostile)
    ≡ marks (landing_page hostile (text "https://m.io") (text "talk"))
marks-landing_page_example =
    marks-landing_page (text "rdv-1") (text "https://m.io") hostile hostile (text "https://m.io")
      (text "talk") refl refl

abbrev invitation : Str → Str → EmailOptions
invitation who purpose = record {
  from_name = who;
  purpose = purpose;
  invitee_name = text "Bo";
  connector_url = text "https://m.io/mcp";
  room_code = text "rdv-1";
  landing_url = text "https://m.io/j/rdv-1";
}

marks-invitation_email_example :
    marks (invitation_email (invitation hostile (text " talk "))).html
    ≡ marks (invitation_email (invitation (text "Ana") hostile)).html
unfolding trim is_space
marks-invitation_email_example =
    marks-invitation_email (invitation hostile (text " talk ")) (invitation (text "Ana") hostile)
      refl

abbrev bytes : List ℕ
bytes = 0 ∷ 7 ∷ 160 ∷ 255 ∷ 18 ∷ []

room_code : new_room_code bytes ≡ text "rdv-0007a0ff12"
unfolding new_room_code
room_code = refl

abbrev invite_url : PageUrl
unfolding new_room_code
invite_url = record {
  pathname = text "/j/" ++ new_room_code bytes;
  origin = text "https://m.io";
  p = none;
}

route_static-new_room_code_example :
    route_static (λ s. some s) invite_url
    ≡ some (page (landing_page (new_room_code bytes) (text "https://m.io") []))
unfolding invite_url
route_static-new_room_code_example =
    route_static-new_room_code (λ s. some s) bytes invite_url (λ s k. refl)
      (omega arith, (omega arith, (omega arith, (omega arith, (omega arith, tt))))) refl refl

lost_page :
    route_static (λ s. none) (record { pathname = text "/x"; origin = []; p = none })
    ≡ some not_found
unfolding route_static
lost_page = refl
