-- ===== src/Examples/Joins.antt =====
-- Join links with a percent coding that takes only the characters it keeps.
use randevu.Base.{
  none, some, [], Str, text, if◌then◌else◌, ◌≡◌, refl, arith, str_eq, split_by, is_space, trim,
}
use randevu.Base.Outcome.{returns, throws}
use randevu.Core.Invite.Link.{Uri, encode_join_link, parse_join_link, kind_part}
use randevu.Core.Invite.Links.{Undoes, linked, parse_join_link-encode_join_link}
use randevu.Core.Invite.Whole.{IsWhole, parse_join_link-IsWhole}
use randevu.Core.Invite.Pattern.{is_stop, has, origin, origin_match, segment, eat, scheme}
use randevu.Core.Invite.{Invite}

abbrev pub toy_uri : Uri
toy_uri = record { encode = λ k. if has is_stop k then none else some k; decode = λ e. some e }

toy-Undoes : Undoes toy_uri
toy-Undoes k e h = ground (arith, h)

abbrev invite : Invite
invite = record { session_id = text "s1"; fingerprint = text "f"; join_token = text "t" }

abbrev address : Str
address = text " HTTPS://r.io:8/x?y"

abbrev link : Str
link = text "HTTPS://r.io:8/j/s1#f.t.a.b"

link_origin : origin address ≡ some (text "HTTPS://r.io:8")
unfolding origin origin_match scheme eat segment trim is_space
link_origin = refl

encoded_link : encode_join_link toy_uri address invite (text "a.b") ≡ returns link
unfolding encode_join_link origin_match scheme eat segment trim is_space kind_part
encoded_link = refl

parse_join_link-encode_join_link_example :
    parse_join_link toy_uri link ≡ returns (linked (text "HTTPS://r.io:8") invite (text "a.b"))
unfolding trim is_space has
parse_join_link-encode_join_link_example =
    parse_join_link-encode_join_link toy_uri address (text "HTTPS://r.io:8") invite (text "a.b")
      link encoded_link link_origin toy-Undoes refl refl refl

parse_join_link-IsWhole_example : IsWhole (parse_join_link toy_uri link)
parse_join_link-IsWhole_example = parse_join_link-IsWhole toy_uri link

-- A decoder knows %41 as A: a session called %41 is encoded, and another one is read.
abbrev decoding : Uri
decoding = record {
  encode = λ k. some k;
  decode = λ e. some (if str_eq e (text "%41") then text "A" else e);
}

abbrev escaped : Invite
escaped = record { session_id = text "%41"; fingerprint = text "f"; join_token = text "t" }

other_session_link :
    encode_join_link decoding (text "http://r") escaped [] ≡ returns (text "http://r/j/%41#f.t")
unfolding encode_join_link origin_match scheme eat segment trim is_space kind_part
other_session_link = refl

other_session :
    parse_join_link decoding (text "http://r/j/%41#f.t")
    ≡ returns (record {
      relay_url = text "http://r";
      invite = record { session_id = text "A"; fingerprint = text "f"; join_token = text "t" };
      kind = none;
    })
unfolding parse_join_link trim split_by str_eq
other_session = refl

no_token : parse_join_link toy_uri (text "http://r/j/s#f") ≡ throws (text "malformed join link")
unfolding parse_join_link trim split_by
no_token = refl
