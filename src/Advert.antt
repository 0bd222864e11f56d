-- ===== src/Advert.antt =====
-- `src/support/meshcore_advert_data.{h,c}`: the application data of an advert. The coordinates are the
-- bit patterns of the `int32_t`, which `memcpy` moves in little-endian order; their conversion from
-- degrees is on floats and left out.
pub mod Fits
pub mod Name
pub mod RoundTrip
use meshcore.Prelude.{
  bytes16, word16, bytes32, word32, ℕ, ◌+◌, ◌-◌, ◌*◌, ◌/◌, ◌%◌, Bool, true, false, ◌&&◌, not,
  Option, none, some, List, [], ◌∷◌, ◌++◌, length, take, drop, get_or, set, overwrite, replicate,
  bit_and, bit_or, u8, ltb, leb, ◌==◌, if◌then◌else◌,
}
use meshcore.Hex.{c_string}

abbrev pub latlon_mask : ℕ
latlon_mask = 0x10

abbrev pub feat1_mask : ℕ
feat1_mask = 0x20

abbrev pub feat2_mask : ℕ
feat2_mask = 0x40

abbrev pub name_mask : ℕ
name_mask = 0x80

abbrev pub max_advert_data_len : ℕ
max_advert_data_len = 32

-- `name` is the array that the pointer leads to, with its terminator.
pub record Builder : Type 0 where
  pub adv_type : ℕ
  pub has_loc : Bool
  pub name : Option (List ℕ)
  pub lat : ℕ
  pub lon : ℕ
  pub feat1 : ℕ
  pub feat2 : ℕ

pub record Parser : Type 0 where
  pub flags : ℕ
  pub valid : Bool
  pub name : List ℕ
  pub lat : ℕ
  pub lon : ℕ
  pub feat1 : ℕ
  pub feat2 : ℕ

unfoldable pub builder_init : ℕ → Builder
builder_init adv_type = record {
  adv_type = adv_type;
  has_loc = false;
  name = none;
  lat = 0;
  lon = 0;
  feat1 = 0;
  feat2 = 0;
}

unfoldable pub builder_init_with_name : ℕ → Option (List ℕ) → Builder
builder_init_with_name adv_type name = record (builder_init adv_type) { name = name }

unfoldable pub set_feat1 : Builder → ℕ → Builder
set_feat1 b feat1 = record b { feat1 = feat1 }

unfoldable pub set_feat2 : Builder → ℕ → Builder
set_feat2 b feat2 = record b { feat2 = feat2 }

-- The name that is not empty.
unfoldable pub name_text : Option (List ℕ) → List ℕ
name_text none = []
name_text (some name) = c_string name

-- The bytes at `app_data[1..i)` before the name.
unfoldable pub loc_bytes : Builder → List ℕ
loc_bytes b = if b.has_loc then bytes32 b.lat ++ bytes32 b.lon else []

unfoldable pub feat_bytes : ℕ → List ℕ
feat_bytes feat = if feat == 0 then [] else bytes16 feat

abbrev pub fixed_bytes : Builder → List ℕ
fixed_bytes b = loc_bytes b ++ (feat_bytes b.feat1 ++ feat_bytes b.feat2)

unfoldable pub flag_byte : Builder → ℕ
flag_byte b =
    let f0 = b.adv_type in
    let f1 = if b.has_loc then bit_or f0 latlon_mask else f0 in
    let f2 = if b.feat1 == 0 then f1 else bit_or f1 feat1_mask in
    let f3 = if b.feat2 == 0 then f2 else bit_or f2 feat2_mask in
    if length (name_text b.name) == 0 then f3 else bit_or f3 name_mask

-- `meshcore_advert_data_builder_encode_to`: the bytes that it stores, whose number it returns. The
-- loop over the name stops at its end or at the 32nd byte.
unfoldable pub encode_to : Builder → List ℕ
encode_to b =
    flag_byte b ∷ fixed_bytes b
    ++ take (max_advert_data_len - (1 + length (fixed_bytes b))) (name_text b.name)

-- The stages of `meshcore_advert_data_parser_init`. Each has stored what the code has stored so far,
-- also where it returns early.
unfoldable pub parse_name : Parser → List ℕ → ℕ → ℕ → Parser
parse_name p src len i =
    let nlen = len - i in
    let named = record p {
      name = set (overwrite p.name (take nlen (drop i src))) nlen 0;
      valid = true;
    } in
    if ltb len i
    then p
    else if bit_and p.flags name_mask == 0
    then record p { valid = true }
    else if leb max_advert_data_len nlen
    then p
    else named

unfoldable pub parse_feat2 : Parser → List ℕ → ℕ → ℕ → Parser
parse_feat2 p src len i =
    if bit_and p.flags feat2_mask == 0
    then parse_name p src len i
    else if ltb len (i + 2)
    then p
    else parse_name (record p { feat2 = word16 src i }) src len (i + 2)

unfoldable pub parse_feat1 : Parser → List ℕ → ℕ → ℕ → Parser
parse_feat1 p src len i =
    if bit_and p.flags feat1_mask == 0
    then parse_feat2 p src len i
    else if ltb len (i + 2)
    then p
    else parse_feat2 (record p { feat1 = word16 src i }) src len (i + 2)

unfoldable pub parse_loc : Parser → List ℕ → ℕ → Parser
parse_loc p src len =
    if bit_and p.flags latlon_mask == 0
    then parse_feat1 p src len 1
    else if ltb len 9
    then p
    else parse_feat1 (record p { lat = word32 src 1; lon = word32 src 5 }) src len 9

unfoldable pub parser_init : Parser → Option (List ℕ) → ℕ → Parser
parser_init p app_data len =
    let p0 = record p {
      name = set p.name 0 0;
      lat = 0;
      lon = 0;
      flags = 0;
      valid = false;
      feat1 = 0;
      feat2 = 0;
    } in
    elim app_data [
      | none ↦ p0
      | some src ↦ if len == 0 then p0 else parse_loc (record p0 { flags = get_or src 0 0 }) src len
    ]

unfoldable pub get_type : Parser → ℕ
get_type p = bit_and p.flags 0x0F

unfoldable pub has_name : Parser → Bool
has_name p = not (get_or p.name 0 0 == 0)

unfoldable pub get_name : Parser → List ℕ
get_name p = c_string p.name

unfoldable pub has_lat_lon : Parser → Bool
has_lat_lon p = not (bit_and p.flags latlon_mask == 0)
