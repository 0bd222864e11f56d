-- ===== src/Advert/Fits.antt =====
-- The length of encoded advert data, and its flags.
use meshcore.Prelude.{
  ℕ, ◌+◌, ◌-◌, ◌*◌, ◌/◌, ◌%◌, ◌^◌, ◌≤◌, ◌<◌, ◌≡◌, Bool, true, false, not, ◌++◌, length,
  length-append, length-take, take, arith, bit_and, bit_or, ◌==◌, if◌then◌else◌, bit_and_fields,
  bit_or_fields, bit_and_mask, bit_and-zero, bit_or-zero, zero-bit_or, min,
}
use meshcore.Advert.{
  Builder, max_advert_data_len, loc_bytes, feat_bytes, fixed_bytes, name_text, flag_byte, encode_to,
  latlon_mask, feat1_mask, feat2_mask, name_mask,
}

pub length-loc_bytes : (b : Builder) → length (loc_bytes b) ≡ (if b.has_loc then 8 else 0)
unfolding loc_bytes
length-loc_bytes b = ground arith

pub length-feat_bytes : (f : ℕ) → length (feat_bytes f) ≡ (if f == 0 then 0 else 2)
unfolding feat_bytes
length-feat_bytes f = ground arith

pub length-fixed_bytes : (b : Builder) → length (fixed_bytes b) ≤ 12
length-fixed_bytes b = ground (
  arith,
  length-append (loc_bytes b) (feat_bytes b.feat1 ++ feat_bytes b.feat2),
  length-append (feat_bytes b.feat1) (feat_bytes b.feat2),
  length-loc_bytes b,
  length-feat_bytes b.feat1,
  length-feat_bytes b.feat2,
)

-- Encoded advert data fits its 32 bytes whatever the builder holds: it is as long as the fixed fields
-- and the name ask for, cut at 32.
pub length-encode_to :
    (b : Builder)
    → (length (encode_to b)
        ≡ min max_advert_data_len (1 + length (fixed_bytes b) + length (name_text b.name)))
      × (length (encode_to b) ≤ max_advert_data_len)
unfolding encode_to
length-encode_to b =
    let n = max_advert_data_len - (1 + length (fixed_bytes b)) in
    let e : length (encode_to b)
        ≡ 1 + (length (fixed_bytes b) + min n (length (name_text b.name))) =
      omega (
        arith,
        length-append (fixed_bytes b) (take n (name_text b.name)),
        length-take n (name_text b.name),
      ) in
    (omega (arith, e, length-fixed_bytes b), omega (arith, e, length-fixed_bytes b))

-- A bit above the others is set by adding it.
bit_or_bit : (k n : ℕ) → n < 2 ^ k → bit_or n (2 ^ k) ≡ n + 2 ^ k
bit_or_bit k n h = ground (arith, bit_or_fields k 0 n 1 0, zero-bit_or 1, bit_or-zero n)

pub bit_and_bit : (k n : ℕ) → bit_and n (2 ^ k) ≡ n / 2 ^ k % 2 * 2 ^ k
bit_and_bit k n = ground (
  arith,
  bit_and_fields k (n / 2 ^ k) (n % 2 ^ k) 1 0,
  bit_and_mask 1 (n / 2 ^ k),
  bit_and-zero (n % 2 ^ k),
)

pub has_text : Builder → Bool
has_text b = if length (name_text b.name) == 0 then false else true

pub has_text_lem : (b : Builder) → has_text b ≡ not (length (name_text b.name) == 0)
unfolding has_text
has_text_lem b = ground arith

pub flag_byte_lem :
    (b : Builder)
    → b.adv_type < 16
    → flag_byte b
      ≡ b.adv_type
        + (if b.has_loc then 16 else 0)
        + (if b.feat1 == 0 then 0 else 32)
        + (if b.feat2 == 0 then 0 else 64)
        + (if has_text b then 128 else 0)
unfolding flag_byte has_text
flag_byte_lem b h =
    let f0 = b.adv_type in
    let f1 = if b.has_loc then bit_or f0 latlon_mask else f0 in
    let f2 = if b.feat1 == 0 then f1 else bit_or f1 feat1_mask in
    let f3 = if b.feat2 == 0 then f2 else bit_or f2 feat2_mask in
    let e1 : f1 ≡ f0 + (if b.has_loc then 16 else 0) = ground (arith, bit_or_bit 4 f0 h) in
    let h1 : f1 < 2 ^ 5 = ground (arith, e1) in
    let e2 : f2 ≡ f1 + (if b.feat1 == 0 then 0 else 32) = ground (arith, bit_or_bit 5 f1 h1) in
    let h2 : f2 < 2 ^ 6 = ground (arith, e2) in
    let e3 : f3 ≡ f2 + (if b.feat2 == 0 then 0 else 64) = ground (arith, bit_or_bit 6 f2 h2) in
    let h3 : f3 < 2 ^ 7 = ground (arith, e3) in ground (arith, bit_or_bit 7 f3 h3, e1, e2, e3)

-- Each flag can be read back.
pub flags_lem :
    (b : Builder)
    → b.adv_type < 16
    → ((bit_and (flag_byte b) latlon_mask == 0) ≡ not b.has_loc)
      × ((bit_and (flag_byte b) feat1_mask == 0) ≡ (b.feat1 == 0))
      × ((bit_and (flag_byte b) feat2_mask == 0) ≡ (b.feat2 == 0))
      × ((bit_and (flag_byte b) name_mask == 0) ≡ not (has_text b))
      × (bit_and (flag_byte b) 0x0F ≡ b.adv_type)
flags_lem b h =
    let f = flag_byte_lem b h in
    (
      ground (arith, f, bit_and_bit 4 (flag_byte b)),
      ground (arith, f, bit_and_bit 5 (flag_byte b)),
      ground (arith, f, bit_and_bit 6 (flag_byte b)),
      ground (arith, f, bit_and_bit 7 (flag_byte b)),
      ground (arith, f, bit_and_mask 4 (flag_byte b)),
    )
