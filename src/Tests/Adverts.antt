-- ===== src/Tests/Adverts.antt =====
-- Advert data.
use meshcore.Prelude.{
  ◌+◌, ◌-◌, ◌^◌, ◌≤◌, ◌≡◌, refl, true, false, some, [], ◌∷◌, length, arith, replicate, min,
}
use meshcore.Hex.{c_string}
use meshcore.Advert.{
  Builder, Parser, max_advert_data_len, flag_byte, fixed_bytes, loc_bytes, feat_bytes, name_text,
  encode_to, parser_init,
}
use meshcore.Advert.Fits.{length-encode_to}
use meshcore.Advert.Name.{IsBuilder}
use meshcore.Advert.RoundTrip.{IsRead, parser_init-encode_to}

-- A repeater with a location, one feature and the name "AB".
abbrev repeater : Builder
repeater = record {
  adv_type = 2;
  has_loc = true;
  name = some (65 ∷ 66 ∷ 0 ∷ []);
  lat = 47000000;
  lon = 2 ^ 32 - 8000000;
  feat1 = 0;
  feat2 = 0x0102;
}

abbrev fresh_parser : Parser
fresh_parser = record {
  flags = 0;
  valid = false;
  name = replicate 32 0;
  lat = 0;
  lon = 0;
  feat1 = 0;
  feat2 = 0;
}

repeater_bytes :
    encode_to repeater ≡ 0xD2 ∷ 192 ∷ 41 ∷ 205 ∷ 2 ∷ 0 ∷ 238 ∷ 133 ∷ 255 ∷ 2 ∷ 1 ∷ 65 ∷ 66 ∷ []
unfolding encode_to flag_byte loc_bytes feat_bytes name_text c_string
repeater_bytes = refl

repeater-IsBuilder : IsBuilder repeater
repeater-IsBuilder = omega arith

parser_init-encode_to_example :
    IsRead repeater
      (parser_init fresh_parser (some (encode_to repeater)) (length (encode_to repeater)))
parser_init-encode_to_example = parser_init-encode_to repeater fresh_parser repeater-IsBuilder refl

length-encode_to_example :
    (length (encode_to repeater)
      ≡ min max_advert_data_len
          (1 + length (fixed_bytes repeater) + length (name_text repeater.name)))
    × (length (encode_to repeater) ≤ max_advert_data_len)
length-encode_to_example = length-encode_to repeater
