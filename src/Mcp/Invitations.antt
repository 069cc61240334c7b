-- ===== src/Mcp/Invitations.antt =====
-- What open_room of apps/mcp/src/index.ts makes of its invitees: the link, the e-mails and the text.
use randevu.Base.{
  Bool, Option, none, some, List, [], ◌∷◌, ◌++◌, map, Str, text, join_by, if◌then◌else◌,
}
use randevu.Core.Kinds.{comma_separated, or_no_text}
use randevu.Mcp.Pages.Email.{Mail, invitation_email}
use randevu.Mcp.Room.{JoinResult}
use randevu.Mcp.Texts.{context_text}

pub record Invitee : Type 0 where
  pub name : Option Str
  pub email : Option Str

-- PUBLIC_URL, whether a key and an address to send from are set, the sending of an e-mail, which fails
-- with a message, and encodeURIComponent, which may throw.
pub record Env : Type 0 where
  pub public_url : Option Str
  pub sends_mail : Bool
  pub deliver : Str → Mail → Option Str
  pub encode : Str → Option Str

pub record OpenInput : Type 0 where
  pub name : Str
  pub kind : Option Str
  pub role : Option Str
  pub brief : Option Str
  pub roles : Option (List (Str × Str))
  pub from_name : Option Str
  pub purpose : Option Str
  pub invites : Option (List Invitee)

-- purpose ? `?p=${encodeURIComponent(purpose)}` : ""
abbrev pub query_for : Env → Option Str → Option Str
query_for env (some (c ∷ purpose)) = elim (env.encode (c ∷ purpose)) [
  | none ↦ none
  | some e ↦ some (text "?p=" ++ e)
]
query_for env _ = some []

-- base ? `${base}/j/${code}…` : ""; the purpose is encoded only where there is a base
unfoldable pub invite_link : Env → Str → Option Str → Option Str
invite_link env code purpose = elim (or_no_text env.public_url) [
  | [] ↦ some []
  | c ∷ base ↦ elim (query_for env purpose) [
    | none ↦ none
    | some query ↦ some (c ∷ base ++ (text "/j/" ++ (code ++ query)))
  ]
]

abbrev pub connector_url : Str → Str
connector_url [] = []
connector_url (c ∷ base) = c ∷ base ++ text "/mcp"

abbrev pub mail_for : Env → OpenInput → Str → Str → Invitee → Mail
unfolding invitation_email
mail_for env input code link invitee = invitation_email (record {
  from_name = or_no_text input.from_name;
  purpose = or_no_text input.purpose;
  invitee_name = or_no_text invitee.name;
  connector_url = connector_url (or_no_text env.public_url);
  room_code = code;
  landing_url = link;
})

abbrev pub delivery_note : Str → Option Str → Str
delivery_note email none = text "emailed the invite to " ++ email
delivery_note email (some message) =
    text "couldn't email "
    ++ (email ++ (text " (" ++ (message ++ text ") — send them the link yourself")))

-- The note on one invitee; one without an address has none.
unfoldable pub note_on : Env → OpenInput → Str → Str → Invitee → List Str
unfolding mail_for
note_on env input code link invitee = elim (or_no_text invitee.email) [
  | [] ↦ []
  | c ∷ email ↦
      (if env.sends_mail
        then delivery_note (c ∷ email)
            (env.deliver (c ∷ email) (mail_for env input code link invitee))
        else text "email not configured — send " ++ (c ∷ email ++ text " the link above yourself"))
      ∷ []
]

unfoldable pub notes_on : Env → OpenInput → Str → Str → List Invitee → List Str
unfolding note_on
notes_on env input code link [] = []
notes_on env input code link (i ∷ is) =
    note_on env input code link i ++ notes_on env input code link is

abbrev pub invite_line : Str → Str → Str
invite_line code [] =
    text "Give the room code \""
    ++ (code ++ (text "\" to the other agent so they can join_room(\"" ++ (code ++ text "\").\n")))
invite_line code (c ∷ link) =
    text "Send this link to the other person — it explains how to join:\n"
    ++ (c ∷ link ++ text "\n")

abbrev pub notes_line : List Str → Str
notes_line [] = []
notes_line (n ∷ ns) =
    text "\ninvitations:\n" ++ (join_by 10 (map (λ x. text " - " ++ x) (n ∷ ns)) ++ text "\n")

unfoldable pub opened_text : Str → Str → Str → List Str → JoinResult → Str
unfolding context_text join_by
opened_text code name link notes r =
    text "Room "
    ++ (code
        ++ (text " is open (kind: "
            ++ (r.kind
                ++ (text ") — you joined as \""
                    ++ (name
                        ++ (text "\", role: "
                            ++ (r.role
                                ++ (text ". Members: "
                                    ++ (comma_separated r.members
                                        ++ (text ".\n"
                                            ++ (invite_line code link
                                                ++ (notes_line notes
                                                    ++ (text "\n"
                                                        ++ (context_text r
                                                            ++ text
                                                            "\n\nThen send() and receive() to talk."))))))))))))))
