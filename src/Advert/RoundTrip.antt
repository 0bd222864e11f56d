-- ===== src/Advert/RoundTrip.antt =====
-- `meshcore_advert_data_parser_init` after `meshcore_advert_data_builder_encode_to`.
use meshcore.Prelude.{
  bytes16, word16, bytes32, word32-bytes32, ℕ, ◌+◌, ◌-◌, ◌≤◌, ◌≡◌, refl, ap, ap₂, sym, ◌∙◌, Bool,
  true, false, not, some, List, [], ◌∷◌, ◌++◌, length, length-append, take, drop, set, arith,
  bit_and, ◌==◌, if◌then◌else◌, Bool-cases, inl, inr, get_or-drop, drop-drop, drop-append, le→ltb,
  ne→==, ==→eq, append_assoc, length-set,
}
use mathlib.Core.Path.{subst}
use meshcore.Advert.{
  Builder, Parser, max_advert_data_len, loc_bytes, feat_bytes, fixed_bytes, name_text, flag_byte,
  encode_to, latlon_mask, feat1_mask, feat2_mask, parse_name, parse_feat2, parse_feat1, parse_loc,
  parser_init, get_type, has_lat_lon, get_name,
}
use meshcore.Advert.Fits.{length-fixed_bytes, flags_lem}
use meshcore.Advert.Name.{IsBuilder, Names, c_string-empty, parse_name_lem}

word16_at :
    (src : List ℕ) (i w : ℕ) (rest : List ℕ) → drop i src ≡ bytes16 w ++ rest → word16 src i ≡ w
word16_at src i w rest e =
    rw (get_or-drop i src 0, get_or-drop (i + 1) src 0, drop-drop i 1 src, e) (omega arith)

module _ (b : Builder) (v : IsBuilder b) where
  parse_feat2_lem :
      (p : Parser) (src : List ℕ) (len i : ℕ) (rest : List ℕ)
      → p.flags ≡ flag_byte b
      → p.feat2 ≡ 0
      → drop i src ≡ feat_bytes b.feat2 ++ rest
      → i + length (feat_bytes b.feat2) ≤ len
      → parse_feat2 p src len i
        ≡ parse_name (record p { feat2 = b.feat2 }) src len (i + length (feat_bytes b.feat2))
  unfolding parse_feat2 feat_bytes
  parse_feat2_lem p src len i rest f z e h =
      let (loc, one, two, named, ty) = flags_lem b v.type_bits in
      let flag = ap (λ x. bit_and x feat2_mask == 0) f ∙ two in
      elim (Bool-cases (b.feat2 == 0)) [
        | inl off ↦
            let same : b.feat2 ≡ p.feat2 = omega (arith, ==→eq b.feat2 0 off, z) in
            let stay : i + 0 ≡ i = omega arith in
            rw (flag, off, stay)
              (ap (λ x. parse_name (record p { feat2 = x }) src len i) (sym same))
        | inr on ↦
            let at : word16 src i ≡ b.feat2 =
              word16_at src i b.feat2 rest
                (subst (λ c. drop i src ≡ (if c then [] else bytes16 b.feat2) ++ rest) on e) in
            let room : i + 2 ≤ len =
              subst (λ c. i + length (if c then [] else bytes16 b.feat2) ≤ len) on h in
            rw (flag, on, le→ltb len (i + 2) room, at) refl
      ]

  parse_feat1_lem :
      (p : Parser) (src : List ℕ) (len i : ℕ) (rest : List ℕ)
      → p.flags ≡ flag_byte b
      → p.feat1 ≡ 0
      → drop i src ≡ feat_bytes b.feat1 ++ rest
      → i + length (feat_bytes b.feat1) ≤ len
      → parse_feat1 p src len i
        ≡ parse_feat2 (record p { feat1 = b.feat1 }) src len (i + length (feat_bytes b.feat1))
  unfolding parse_feat1 feat_bytes
  parse_feat1_lem p src len i rest f z e h =
      let (loc, one, two, named, ty) = flags_lem b v.type_bits in
      let flag = ap (λ x. bit_and x feat1_mask == 0) f ∙ one in
      elim (Bool-cases (b.feat1 == 0)) [
        | inl off ↦
            let same : b.feat1 ≡ p.feat1 = omega (arith, ==→eq b.feat1 0 off, z) in
            let stay : i + 0 ≡ i = omega arith in
            rw (flag, off, stay)
              (ap (λ x. parse_feat2 (record p { feat1 = x }) src len i) (sym same))
        | inr on ↦
            let at : word16 src i ≡ b.feat1 =
              word16_at src i b.feat1 rest
                (subst (λ c. drop i src ≡ (if c then [] else bytes16 b.feat1) ++ rest) on e) in
            let room : i + 2 ≤ len =
              subst (λ c. i + length (if c then [] else bytes16 b.feat1) ≤ len) on h in
            rw (flag, on, le→ltb len (i + 2) room, at) refl
      ]

-- What the parser holds after it has read the data of builder `b`: the type, the coordinates if the
-- builder has a location, the features, and the name as far as it fits.
pub record IsRead (b : Builder) (r : Parser) : Type 0 where
  pub accepted : r.valid ≡ true
  pub type_read : get_type r ≡ b.adv_type
  pub loc_read : has_lat_lon r ≡ b.has_loc
  pub lat_read : r.lat ≡ (if b.has_loc then b.lat else 0)
  pub lon_read : r.lon ≡ (if b.has_loc then b.lon else 0)
  pub feat1_read : r.feat1 ≡ b.feat1
  pub feat2_read : r.feat2 ≡ b.feat2
  pub name_read :
      get_name r ≡ take (max_advert_data_len - (1 + length (fixed_bytes b))) (name_text b.name)

not-not : (c : Bool) → not (not c) ≡ c
not-not true = refl
not-not false = refl

no_coords : (p : Parser) → p.lat ≡ 0 → p.lon ≡ 0 → record p { lat = 0; lon = 0 } ≡ p
no_coords p z z' = ap₂ (λ x y. record p { lat = x; lon = y }) (sym z) (sym z')

module _ (b : Builder) (v : IsBuilder b) where
  parse_loc_lem :
      (p : Parser) (len : ℕ) (rest : List ℕ)
      → p.flags ≡ flag_byte b
      → p.lat ≡ 0
      → p.lon ≡ 0
      → 1 + length (loc_bytes b) ≤ len
      → parse_loc p (flag_byte b ∷ loc_bytes b ++ rest) len
        ≡ parse_feat1
            (record p {
              lat = if b.has_loc then b.lat else 0;
              lon = if b.has_loc then b.lon else 0;
            })
            (flag_byte b ∷ loc_bytes b ++ rest)
            len
            (1 + length (loc_bytes b))
  unfolding parse_loc loc_bytes
  parse_loc_lem p len rest f z z' h =
      let (loc, one, two, named, ty) = flags_lem b v.type_bits in
      let flag = ap (λ x. bit_and x latlon_mask == 0) f ∙ loc in
      elim (Bool-cases b.has_loc) [
        | inl on ↦
            let room : 9 ≤ len =
              subst (λ c. 1 + length (if c then bytes32 b.lat ++ bytes32 b.lon else []) ≤ len) on
                h in
            rw (parse_loc, flag, on, le→ltb len 9 room, word32-bytes32 b.lat, word32-bytes32 b.lon)
              refl
        | inr off ↦ rw (parse_loc, flag, off, no_coords p z z') refl
      ]

-- The parser's state before its last stage.
abbrev with_fields : Builder → Parser → Parser
with_fields b p = record p {
  lat = if b.has_loc then b.lat else 0;
  lon = if b.has_loc then b.lon else 0;
  feat1 = b.feat1;
  feat2 = b.feat2;
}

Names-IsRead :
    (b : Builder) (v : IsBuilder b) (p r : Parser)
    → p.flags ≡ flag_byte b
    → Names
        (with_fields b p)
        r
        (take (max_advert_data_len - (1 + length (fixed_bytes b))) (name_text b.name))
    → IsRead b r
unfolding get_type has_lat_lon get_name
Names-IsRead b v p r f n =
    let (loc, one, two, named, ty) = flags_lem b v.type_bits in
    let fl = n.flags_kept ∙ f in
    record {
      accepted = n.accepted;
      type_read = ap (λ x. bit_and x 0x0F) fl ∙ ty;
      loc_read = ap (λ x. not (bit_and x latlon_mask == 0)) fl ∙ ap not loc ∙ not-not b.has_loc;
      lat_read = n.lat_kept;
      lon_read = n.lon_kept;
      feat1_read = n.feat1_kept;
      feat2_read = n.feat2_kept;
      name_read = n.text_read;
    }

-- All stages, on the data as the concatenation of its fields.
module _ (b : Builder) (v : IsBuilder b) (p : Parser) (text : List ℕ) where
  stages_lem :
      (src : List ℕ) (len : ℕ)
      → src ≡ flag_byte b ∷ loc_bytes b ++ (feat_bytes b.feat1 ++ (feat_bytes b.feat2 ++ text))
      → len ≡ 1 + length (fixed_bytes b) + length text
      → p.flags ≡ flag_byte b
      → p.lat ≡ 0
      → p.lon ≡ 0
      → p.feat1 ≡ 0
      → p.feat2 ≡ 0
      → let i =
          1 + length (loc_bytes b) + length (feat_bytes b.feat1) + length (feat_bytes b.feat2) in
        (parse_loc p src len ≡ parse_name (with_fields b p) src len i)
        × (drop i src ≡ text)
        × (i ≡ 1 + length (fixed_bytes b))
  stages_lem src len e size f z z' z1 z2 =
      let tail2 = feat_bytes b.feat2 ++ text in
      let tail1 = feat_bytes b.feat1 ++ tail2 in
      let i1 = 1 + length (loc_bytes b) in
      let i2 = i1 + length (feat_bytes b.feat1) in
      let i3 = i2 + length (feat_bytes b.feat2) in
      let whole : i3 ≡ 1 + length (fixed_bytes b) = omega (
        arith,
        length-append (loc_bytes b) (feat_bytes b.feat1 ++ feat_bytes b.feat2),
        length-append (feat_bytes b.feat1) (feat_bytes b.feat2),
      ) in
      let d1 : drop i1 src ≡ tail1 =
        drop-drop 1 (length (loc_bytes b)) src
        ∙ ap (λ xs. drop (length (loc_bytes b)) (drop 1 xs)) e
        ∙ drop-append (length (loc_bytes b)) (loc_bytes b) tail1 refl in
      let d2 : drop i2 src ≡ tail2 =
        drop-drop i1 (length (feat_bytes b.feat1)) src
        ∙ ap (drop (length (feat_bytes b.feat1))) d1
        ∙ drop-append (length (feat_bytes b.feat1)) (feat_bytes b.feat1) tail2 refl in
      let d3 : drop i3 src ≡ text =
        drop-drop i2 (length (feat_bytes b.feat2)) src
        ∙ ap (drop (length (feat_bytes b.feat2))) d2
        ∙ drop-append (length (feat_bytes b.feat2)) (feat_bytes b.feat2) text refl in
      let p1 : Parser = record p {
        lat = if b.has_loc then b.lat else 0;
        lon = if b.has_loc then b.lon else 0;
      } in
      let p2 : Parser = record p1 { feat1 = b.feat1 } in
      let s1 : parse_loc p src len ≡ parse_feat1 p1 src len i1 =
        subst (λ xs. parse_loc p xs len ≡ parse_feat1 p1 xs len i1) (sym e)
          (parse_loc_lem b v p len tail1 f z z' (omega arith)) in
      (
        s1
            ∙ parse_feat1_lem b v p1 src len i1 tail2 f z1 d1 (omega arith)
            ∙ parse_feat2_lem b v p2 src len i2 text f z2 d2 (omega arith),
        d3,
        whole,
      )

-- The data that a builder encodes is read back, into any parser: the type, the coordinates if there
-- are any, the features, and the name as far as it fits the 32 bytes.
pub parser_init-encode_to :
    (b : Builder) (q : Parser)
    → IsBuilder b
    → length q.name ≡ max_advert_data_len
    → IsRead b (parser_init q (some (encode_to b)) (length (encode_to b)))
unfolding parser_init encode_to
parser_init-encode_to b q v room =
    let n = max_advert_data_len - (1 + length (fixed_bytes b)) in
    let text = take n (name_text b.name) in
    let p0 : Parser = record q {
      name = set q.name 0 0;
      lat = 0;
      lon = 0;
      flags = flag_byte b;
      valid = false;
      feat1 = 0;
      feat2 = 0;
    } in
    let all : fixed_bytes b ++ text
        ≡ loc_bytes b ++ (feat_bytes b.feat1 ++ (feat_bytes b.feat2 ++ text)) =
      append_assoc (loc_bytes b) (feat_bytes b.feat1 ++ feat_bytes b.feat2) text
      ∙ ap (λ xs. loc_bytes b ++ xs)
          (append_assoc (feat_bytes b.feat1) (feat_bytes b.feat2) text) in
    let src = flag_byte b ∷ fixed_bytes b ++ text in
    let (run, at, i) =
      stages_lem b v p0 text src (length src) (ap (λ xs. flag_byte b ∷ xs) all)
        (omega (arith, length-append (fixed_bytes b) text)) refl refl refl refl refl in
    let names =
      parse_name_lem b v (with_fields b p0) src (length src) _ n refl at
        (omega (arith, length-append (fixed_bytes b) text, i)) (omega (arith, length-fixed_bytes b))
        (omega arith) (length-set q.name 0 0 ∙ room) (c_string-empty q.name) in
    rw (ne→== (length src) 0 (omega arith))
      (subst (IsRead b) (sym run) (Names-IsRead b v p0 _ refl names))
