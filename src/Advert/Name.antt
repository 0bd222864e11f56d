-- ===== src/Advert/Name.antt =====
-- The last stage of `meshcore_advert_data_parser_init`: the name.
use meshcore.Prelude.{
  ℕ, zero, suc, ◌+◌, ◌-◌, ◌^◌, ◌<◌, ◌≡◌, ◌≢◌, refl, ap, sym, ◌∙◌, true, false, Option, none, some,
  List, [], ◌∷◌, length, length-take, take, drop, set, overwrite, arith, bit_and, ltb, ◌==◌,
  Bool-cases, inl, inr, take_all, le→ltb, lt→leb, ne→==, eq→==, ==→eq,
}
use meshcore.Hex.{c_string}
use meshcore.Advert.{
  Builder, Parser, max_advert_data_len, name_text, flag_byte, name_mask, parse_name,
}
use meshcore.Advert.Fits.{has_text_lem, flags_lem}

-- The ranges of the C types; the type is one of the low four bits.
pub record IsBuilder (b : Builder) : Type 0 where
  pub type_bits : b.adv_type < 16
  pub lat_word : b.lat < 2 ^ 32
  pub lon_word : b.lon < 2 ^ 32
  pub feat1_word : b.feat1 < 2 ^ 16
  pub feat2_word : b.feat2 < 2 ^ 16

-- No character of the text is the terminator.
data NoZero : List ℕ → Type 0 where
  no_text : NoZero []
  more_text : {c : ℕ} {cs : List ℕ} → c ≢ 0 → NoZero cs → NoZero (c ∷ cs)

c_string-NoZero : (cs : List ℕ) → NoZero (c_string cs)
unfolding c_string
c_string-NoZero [] = no_text
c_string-NoZero (c ∷ cs) = elim (Bool-cases (c == 0)) [
  | inl e ↦ rw e no_text
  | inr e ↦ rw e (more_text (λ z. absurd (ground (arith, eq→== c 0 z, e))) (c_string-NoZero cs))
]

take-NoZero : (n : ℕ) (cs : List ℕ) → NoZero cs → NoZero (take n cs)
take-NoZero zero cs v = no_text
take-NoZero (suc n) [] v = no_text
take-NoZero (suc n) (c ∷ cs) (more_text h v) = more_text h (take-NoZero n cs v)

-- A text that was copied with its terminator is the string that the array holds.
c_string-overwrite :
    (name cs : List ℕ)
    → NoZero cs
    → length cs < length name
    → c_string (set (overwrite name cs) (length cs) 0) ≡ cs
unfolding c_string
c_string-overwrite [] cs v h = absurd (omega arith)
c_string-overwrite (x ∷ name) [] v h = refl
c_string-overwrite (x ∷ name) (c ∷ cs) (more_text nz v) h =
    rw (ne→== c 0 nz, c_string-overwrite name cs v (omega arith)) refl

pub c_string-empty : (name : List ℕ) → c_string (set name 0 0) ≡ []
unfolding c_string
c_string-empty [] = refl
c_string-empty (x ∷ name) = refl

name_text-NoZero : (name : Option (List ℕ)) → NoZero (name_text name)
unfolding name_text
name_text-NoZero none = no_text
name_text-NoZero (some name) = c_string-NoZero name

empty_lem : (cs : List ℕ) → length cs ≡ 0 → cs ≡ []
empty_lem [] h = refl
empty_lem (c ∷ cs) h = absurd (omega arith)

-- What the parser holds of the fixed fields and of the name.
pub record Names (p r : Parser) (text : List ℕ) : Type 0 where
  pub accepted : r.valid ≡ true
  pub flags_kept : r.flags ≡ p.flags
  pub lat_kept : r.lat ≡ p.lat
  pub lon_kept : r.lon ≡ p.lon
  pub feat1_kept : r.feat1 ≡ p.feat1
  pub feat2_kept : r.feat2 ≡ p.feat2
  pub text_read : c_string r.name ≡ text

-- The last stage reads the text that the builder wrote; `n` bounds it.
pub parse_name_lem :
    (b : Builder) (v : IsBuilder b) (p : Parser) (src : List ℕ) (len i n : ℕ)
    → p.flags ≡ flag_byte b
    → drop i src ≡ take n (name_text b.name)
    → len ≡ i + length (take n (name_text b.name))
    → 0 < n
    → n < max_advert_data_len
    → length p.name ≡ max_advert_data_len
    → c_string p.name ≡ []
    → Names p (parse_name p src len i) (take n (name_text b.name))
unfolding parse_name
parse_name_lem b v p src len i n f e size lo hi room blank =
    let (loc, one, two, named, ty) = flags_lem b v.type_bits in
    let flag = ap (λ x. bit_and x name_mask == 0) f ∙ named in
    let text = take n (name_text b.name) in
    let ok : ltb len i ≡ false = le→ltb len i (omega arith) in
    let nlen : len - i ≡ length text = omega arith in
    let short : length text < max_advert_data_len =
      omega (arith, length-take n (name_text b.name)) in
    elim (Bool-cases (length (name_text b.name) == 0)) [
      | inl off ↦
          let none_there : text ≡ [] = empty_lem text (
            omega
              (arith, length-take n (name_text b.name), ==→eq (length (name_text b.name)) 0 off)) in
          rw (ok, flag, has_text_lem b, off)
            (record {
              accepted = refl;
              flags_kept = refl;
              lat_kept = refl;
              lon_kept = refl;
              feat1_kept = refl;
              feat2_kept = refl;
              text_read = blank ∙ sym none_there;
            })
      | inr on ↦
          rw (ok, flag, has_text_lem b, on, nlen, lt→leb max_advert_data_len (length text) short)
            (record {
              accepted = refl;
              flags_kept = refl;
              lat_kept = refl;
              lon_kept = refl;
              feat1_kept = refl;
              feat2_kept = refl;
              text_read =
                  rw (e, take_all (length text) text (omega arith))
                    (c_string-overwrite p.name text
                      (take-NoZero n (name_text b.name) (name_text-NoZero b.name)) (omega arith));
            })
    ]
