-- ===== src/Core/Credential/Values.antt =====
-- JSON values, and `jcs` of packages/core/src/credential.ts.
use randevu.Base.{
  Bool, true, false, Option, none, some, List, [], ◌∷◌, ◌++◌, map, Str, text, str_eq, str_lt,
  join_by, if◌then◌else◌,
}
use randevu.Noble.{Bytes}

mutual
  pub data Json (N : Type 0) : Type 0 where
    null : Json N
    boolean : Bool → Json N
    number : N → Json N
    string : Str → Json N
    array : Items N → Json N
    object : Fields N → Json N

  pub data Items (N : Type 0) : Type 0 where
    no_items : Items N
    item : Json N → Items N → Items N

  -- The own properties, in their order; an object has each name once.
  pub data Fields (N : Type 0) : Type 0 where
    no_fields : Fields N
    field : Str → Json N → Fields N → Fields N

-- JSON.stringify of a string and of a number, whether a number is falsy, and base64urlnopad.
pub record Texts (N : Type 0) : Type 0 where
  pub quote : Str → Str
  pub of_number : N → Str
  pub is_falsy : N → Bool
  pub base64_encode : Bytes → Str
  pub base64_decode : Str → Option Bytes

-- Object.keys(obj).sort(), with what is written for each
unfoldable pub insert_key : Str × Str → List (Str × Str) → List (Str × Str)
insert_key f [] = f ∷ []
insert_key f (g ∷ gs) = if str_lt g.0 f.0 then g ∷ insert_key f gs else f ∷ g ∷ gs

unfoldable pub sort_keys : List (Str × Str) → List (Str × Str)
unfolding insert_key
sort_keys [] = []
sort_keys (f ∷ fs) = insert_key f (sort_keys fs)

module _ {N : Type 0} (texts : Texts N) where
  -- `${JSON.stringify(k)}:${jcs(obj[k])}`
  abbrev pub pair_text : Str × Str → Str
  pair_text f = texts.quote f.0 ++ 58 ∷ f.1

  unfoldable mutual
    unfolding sort_keys join_by

    pub jcs : Json N → Str
    jcs null = text "null"
    jcs (boolean true) = text "true"
    jcs (boolean false) = text "false"
    jcs (number n) = texts.of_number n
    jcs (string s) = texts.quote s
    jcs (array is) = 91 ∷ (join_by 44 (jcs_items is) ++ text "]")
    jcs (object fs) = 123 ∷ (join_by 44 (map pair_text (sort_keys (jcs_fields fs))) ++ text "}")

    pub jcs_items : Items N → List Str
    jcs_items no_items = []
    jcs_items (item j is) = jcs j ∷ jcs_items is

    pub jcs_fields : Fields N → List (Str × Str)
    jcs_fields no_fields = []
    jcs_fields (field k j fs) = (k, jcs j) ∷ jcs_fields fs

module _ {N : Type 0} where
  unfoldable pub get_field : Str → Fields N → Option (Json N)
  get_field k no_fields = none
  get_field k (field i j fs) = if str_eq i k then some j else get_field k fs

  -- { ...obj, [k]: j }
  unfoldable pub set_field : Str → Json N → Fields N → Fields N
  set_field k j no_fields = field k j no_fields
  set_field k j (field i l fs) = if str_eq i k then field i j fs else field i l (set_field k j fs)

  -- delete obj[k]
  unfoldable pub delete_field : Str → Fields N → Fields N
  delete_field k no_fields = no_fields
  delete_field k (field i j fs) = if str_eq i k then fs else field i j (delete_field k fs)
