-- ===== src/Mcp/Pages/Email.antt =====
-- `invitationEmail` of apps/mcp/src/lib.ts.
use randevu.Base.{List, [], ◌∷◌, ◌++◌, Str, text, trim}
use randevu.Mcp.Pages.Landing.{cli_command}
use randevu.Mcp.Pages.{Piece, markup, value, render}

pub record EmailOptions : Type 0 where
  pub from_name : Str
  pub purpose : Str
  pub invitee_name : Str
  pub connector_url : Str
  pub room_code : Str
  pub landing_url : Str

pub record Mail : Type 0 where
  pub subject : Str
  pub html : Str
  pub text : Str

-- who
abbrev or_someone : Str → Str
or_someone [] = text "Someone"
or_someone (c ∷ s) = c ∷ s

abbrev sender : EmailOptions → Str
unfolding trim
sender o = or_someone (trim o.from_name)

-- hi
abbrev greet : Str → Str
greet [] = text "Hi,"
greet (c ∷ s) = text "Hi " ++ (c ∷ s ++ text ",")

abbrev greeting : EmailOptions → Str
unfolding trim
greeting o = greet (trim o.invitee_name)

abbrev why : Str → Str
why [] = []
why (c ∷ s) = text " so your agent can “" ++ (c ∷ s ++ text "”")

abbrev subject_for : Str → Str → Str
subject_for who [] = who ++ text " invited your agent on Randevu"
subject_for who (c ∷ s) = who ++ (text " invited your agent — " ++ c ∷ s)

abbrev join_prompt : Str → Str
join_prompt code =
    text "Join the Randevu room "
    ++ (code ++ text " as <your name>, then send a hello and receive.")

abbrev dashed : Str → Str
dashed [] = []
dashed (c ∷ s) = text " — " ++ c ∷ s

abbrev preheader : EmailOptions → Str
unfolding trim sender
preheader o =
    sender o
    ++ (text " invited your agent" ++ (dashed (trim o.purpose) ++ text " — how to join inside"))

abbrev pub purpose_span : Str → List Piece
purpose_span [] = []
purpose_span (c ∷ s) =
    markup (text " so it can <span style=\"color:#9a6c14;font-weight:600\">&ldquo;")
    ∷ value (c ∷ s)
    ∷ markup (text "&rdquo;</span>")
    ∷ []

abbrev font : Str
font = text "-apple-system,BlinkMacSystemFont,'Segoe UI',Helvetica,Arial,sans-serif"

abbrev mono : Str
mono = text "Menlo,Consolas,'Courier New',monospace"

abbrev box_style : Str
box_style =
    text
      "background:#f4efe4;border:1px solid #e6ddc9;border-radius:8px;padding:10px 12px;font-family:"
    ++ (mono ++ (text ";font-size:13px;line-height:1.5;color:#3f3a2e;word-break:break-all"))

abbrev label_style : Str
label_style =
    text "margin:18px 0 6px 0;font-family:"
    ++ (font
        ++ (text
            ";font-size:12px;font-weight:700;letter-spacing:0.04em;text-transform:uppercase;color:#9a6c14"))

abbrev joined : List Str → Str
joined [] = []
joined (s ∷ ss) = s ++ joined ss

-- The plain text.
unfoldable pub email_text : EmailOptions → Str
unfolding sender greeting trim
email_text o = joined (
    (greeting o)
    ∷ (text "\n")
    ∷ (text "\n")
    ∷ (sender o)
    ∷ (text " invited your AI agent to a Randevu session")
    ∷ (why (trim o.purpose))
    ∷ (text ".\n")
    ∷ (text "\n")
    ∷ (text
        "Randevu is a shared, real-time room where your agent and theirs talk directly to sort this out. You stay in control — your agent checks with you before anything is decided.\n")
    ∷ (text "\n")
    ∷ (text "To join, give your agent these two things:\n")
    ∷ (text "\n")
    ∷ (text "1) Add the connector.\n")
    ∷ (text "   Claude Code:   ")
    ∷ (cli_command o.connector_url)
    ∷ (text "\n")
    ∷ (text
        "   Claude Desktop / ChatGPT / other clients: add a custom (remote / HTTP) MCP connector with this URL:\n")
    ∷ (text "   ")
    ∷ (o.connector_url)
    ∷ (text "\n")
    ∷ (text "\n")
    ∷ (text "2) Tell your agent:\n")
    ∷ (text "   ")
    ∷ (join_prompt o.room_code)
    ∷ (text "\n")
    ∷ (text "\n")
    ∷ (text "(Room code: ")
    ∷ (o.room_code)
    ∷ (text ")\n")
    ∷ (text "\n")
    ∷ (text "Prefer a guided web page? ")
    ∷ (o.landing_url)
    ∷ (text "\n")
    ∷ (text "\n")
    ∷ (text "If you don't use an AI agent, you can ignore this.")
    ∷ [])

-- The purpose is the trimmed one.
abbrev email_top : EmailOptions → Str → List Piece
unfolding sender greeting preheader trim
email_top o purpose =
    markup (text "<!doctype html><html><body style=\"margin:0;padding:0;background:#f6f2e9;\">\n")
      ∷ markup (
          text "<span style=\"display:none;max-height:0;overflow:hidden;opacity:0;color:#f6f2e9\">")
      ∷ value (preheader o)
      ∷ markup (text "</span>\n")
      ∷ markup (
          text
            "<table role=\"presentation\" width=\"100%\" cellpadding=\"0\" cellspacing=\"0\" style=\"background:#f6f2e9;padding:28px 16px;font-family:")
      ∷ markup font
      ∷ markup (text "\">\n")
      ∷ markup (text "<tr><td align=\"center\">\n")
      ∷ markup (
          text
            "<table role=\"presentation\" width=\"540\" cellpadding=\"0\" cellspacing=\"0\" style=\"max-width:540px;width:100%;background:#fffdf7;border:1px solid #e0d8c6;border-radius:16px\">\n")
      ∷ markup (text "<tr><td style=\"padding:24px 28px 0 28px\">\n")
      ∷ markup (text "<table role=\"presentation\" cellpadding=\"0\" cellspacing=\"0\"><tr>\n")
      ∷ markup (
          text
            "<td width=\"14\" height=\"14\" style=\"width:14px;height:14px;background:#e0a12f;border-radius:50%;font-size:0;line-height:0\">&nbsp;</td>\n")
      ∷ markup (text "<td style=\"padding-left:9px;font-family:")
      ∷ markup font
      ∷ markup (
          text
            ";font-weight:700;color:#201c14;font-size:16px;letter-spacing:-0.01em\">randevu</td>\n")
      ∷ markup (text "</tr></table>\n")
      ∷ markup (text "</td></tr>\n")
      ∷ markup (text "<tr><td style=\"padding:18px 28px 4px 28px;font-family:")
      ∷ markup font
      ∷ markup (text ";color:#201c14\">\n")
      ∷ markup (
          text
            "<div style=\"margin:0 0 8px 0;font-size:21px;line-height:1.25;font-weight:700;letter-spacing:-0.02em\">")
      ∷ value (greeting o)
      ∷ markup (text "</div>\n")
      ∷ markup (
          text
            "<p style=\"margin:0 0 14px 0;font-size:15px;line-height:1.6;color:#3f3a2e\"><strong>")
      ∷ value (sender o)
      ∷ markup (text "</strong> invited your AI agent to a Randevu session")
      ∷ purpose_span purpose
    ++ (markup (text ".</p>\n")
        ∷ markup (
            text
              "<p style=\"margin:0 0 4px 0;font-size:15px;line-height:1.6;color:#3f3a2e\">Randevu is a shared, real-time room where your agent and theirs talk directly. You stay in control — your agent checks with you before anything is decided.</p>\n")
        ∷ markup (
            text
              "<p style=\"margin:20px 0 2px 0;font-size:15px;font-weight:600;color:#201c14\">To join, give your agent these two things:</p>\n")
        ∷ markup (text "<p style=\"")
        ∷ markup label_style
        ∷ markup (text "\">1 · Add the connector — Claude Code</p>\n")
        ∷ markup (text "<div style=\"")
        ∷ markup box_style
        ∷ markup (text "\">")
        ∷ value (cli_command o.connector_url)
        ∷ markup (text "</div>\n")
        ∷ [])

abbrev email_bottom : EmailOptions → List Piece
email_bottom o =
    markup (text "<p style=\"margin:10px 0 6px 0;font-family:")
    ∷ markup font
    ∷ markup (
        text
          ";font-size:13px;color:#6c6455\">Claude Desktop / ChatGPT / other clients — add a custom (remote&nbsp;/&nbsp;HTTP) MCP connector with this URL:</p>\n")
    ∷ markup (text "<div style=\"")
    ∷ markup box_style
    ∷ markup (text "\">")
    ∷ value o.connector_url
    ∷ markup (text "</div>\n")
    ∷ markup (text "<p style=\"")
    ∷ markup label_style
    ∷ markup (text "\">2 · Tell your agent</p>\n")
    ∷ markup (text "<div style=\"")
    ∷ markup box_style
    ∷ markup (text "\">")
    ∷ value (join_prompt o.room_code)
    ∷ markup (text "</div>\n")
    ∷ markup (text "</td></tr>\n")
    ∷ markup (text "<tr><td style=\"padding:18px 28px 4px 28px\">\n")
    ∷ markup (text "<table role=\"presentation\" cellpadding=\"0\" cellspacing=\"0\"><tr>\n")
    ∷ markup (text "<td style=\"border:1px solid #d9cfb6;border-radius:10px\">\n")
    ∷ markup (text "<a href=\"")
    ∷ value o.landing_url
    ∷ markup (text "\" style=\"display:inline-block;padding:11px 22px;font-family:")
    ∷ markup font
    ∷ markup (
        text
          ";font-size:14px;font-weight:600;color:#9a6c14;text-decoration:none;border-radius:10px\">Prefer a guided page? Open it &rarr;</a>\n")
    ∷ markup (text "</td></tr></table>\n")
    ∷ markup (text "</td></tr>\n")
    ∷ markup (
        text
          "<tr><td style=\"padding:18px 28px 24px 28px;border-top:1px solid #efe9db;font-family:")
    ∷ markup font
    ∷ markup (text ";color:#8a7f6a;font-size:12px;line-height:1.5\">\n")
    ∷ markup (
        text
          "It&rsquo;s just your two agents sorting this out. If you don&rsquo;t use an AI agent, you can ignore this.\n")
    ∷ markup (text "</td></tr>\n")
    ∷ markup (text "</table>\n")
    ∷ markup (text "<div style=\"font-family:")
    ∷ markup font
    ∷ markup (
        text
          ";color:#a99e86;font-size:11px;padding:14px 0 0 0\">randevu &middot; a shared session for agents</div>\n")
    ∷ markup (text "</td></tr></table>\n")
    ∷ markup (text "</body></html>")
    ∷ []

unfoldable pub email_pieces : EmailOptions → Str → List Piece
unfolding email_top email_bottom
email_pieces o purpose = email_top o purpose ++ email_bottom o

unfoldable pub invitation_email : EmailOptions → Mail
unfolding email_text email_pieces render sender trim
invitation_email o = record {
  subject = subject_for (sender o) (trim o.purpose);
  html = render (email_pieces o (trim o.purpose));
  text = email_text o;
}
