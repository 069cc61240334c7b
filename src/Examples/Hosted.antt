-- ===== src/Examples/Hosted.antt =====
-- A hosted negotiation that its seller joins twice.
use randevu.Base.{some, [], ◌∷◌, text, true}
use randevu.Mcp.Room.{Cells}

abbrev opened : Cells
opened = record {
  is_open = some true;
  seq = some 0;
  members = some (text "ana" ∷ []);
  roles = some ((text "ana", text "buyer") ∷ []);
  kind = some (text "negotiation");
  brief = some [];
  custom_roles = some [];
  messages = [];
}
