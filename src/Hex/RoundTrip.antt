-- ===== src/Hex/RoundTrip.antt =====
-- `meshcore_utils_from_hex` after `meshcore_utils_to_hex`, and the texts that it takes.
use meshcore.Prelude.{
  ℕ, zero, suc, ◌+◌, ◌*◌, ◌/◌, ◌%◌, ◌<◌, ◌^◌, ◌≡◌, refl, true, false, some, List, [], ◌∷◌, length,
  get_or, bit_and, u8, arith, ◌==◌, bit_and_mask, bit_or_low, pos,
}
use meshcore.Hex.{hex_chars, c_string, to_hex, hex_val, is_hex_char, from_hex_loop, from_hex}

-- Every element is a byte.
pub data IsBytes : List ℕ → Type 0 where
  none_left : IsBytes []
  one_more : {b : ℕ} {bs : List ℕ} → b < 256 → IsBytes bs → IsBytes (b ∷ bs)

hex_val-digit :
    (n : ℕ)
    → n < 16
    → (hex_val (get_or hex_chars n 0) ≡ n)
      × (is_hex_char (get_or hex_chars n 0) ≡ true)
      × ((get_or hex_chars n 0 == 0) ≡ false)
unfolding hex_val is_hex_char
hex_val-digit zero h = (refl, refl, refl)
hex_val-digit (suc zero) h = (refl, refl, refl)
hex_val-digit (suc (suc zero)) h = (refl, refl, refl)
hex_val-digit (suc (suc (suc zero))) h = (refl, refl, refl)
hex_val-digit (suc (suc (suc (suc zero)))) h = (refl, refl, refl)
hex_val-digit (suc (suc (suc (suc (suc zero))))) h = (refl, refl, refl)
hex_val-digit (suc (suc (suc (suc (suc (suc zero)))))) h = (refl, refl, refl)
hex_val-digit (suc (suc (suc (suc (suc (suc (suc zero))))))) h = (refl, refl, refl)
hex_val-digit (suc (suc (suc (suc (suc (suc (suc (suc zero)))))))) h = (refl, refl, refl)
hex_val-digit (suc (suc (suc (suc (suc (suc (suc (suc (suc zero))))))))) h = (refl, refl, refl)
hex_val-digit (suc (suc (suc (suc (suc (suc (suc (suc (suc (suc zero)))))))))) h =
    (refl, refl, refl)
hex_val-digit (suc (suc (suc (suc (suc (suc (suc (suc (suc (suc (suc zero))))))))))) h =
    (refl, refl, refl)
hex_val-digit (suc (suc (suc (suc (suc (suc (suc (suc (suc (suc (suc (suc zero)))))))))))) h =
    (refl, refl, refl)
hex_val-digit (suc (suc (suc (suc (suc (suc (suc (suc (suc (suc (suc (suc (suc zero))))))))))))) h =
    (refl, refl, refl)
hex_val-digit
      (suc (suc (suc (suc (suc (suc (suc (suc (suc (suc (suc (suc (suc (suc zero)))))))))))))) h =
    (refl, refl, refl)
hex_val-digit
      (suc (suc (suc (suc (suc (suc (suc (suc (suc (suc (suc (suc (suc (suc (suc zero)))))))))))))))
      h =
    (refl, refl, refl)
hex_val-digit
      (suc
        (suc (suc (suc (suc (suc (suc (suc (suc (suc (suc (suc (suc (suc (suc (suc n))))))))))))))))
      h =
    absurd (omega arith)

low_half : (b : ℕ) → bit_and b 0x0F ≡ b % 16
low_half b = bit_and_mask 4 b

-- The text before the terminator.
digits_of : List ℕ → List ℕ
digits_of [] = []
digits_of (b ∷ src) = get_or hex_chars (b / 16) 0 ∷ get_or hex_chars (b % 16) 0 ∷ digits_of src

c_string-to_hex : (bs : List ℕ) → IsBytes bs → c_string (to_hex bs) ≡ digits_of bs
unfolding c_string to_hex digits_of
c_string-to_hex [] v = refl
c_string-to_hex (b ∷ bs) (one_more h v) =
    rw
      (
        low_half b,
        (hex_val-digit (b / 16) (omega arith)).2,
        (hex_val-digit (b % 16) (omega arith)).2,
        c_string-to_hex bs v,
      )
      refl

length-digits_of : (bs : List ℕ) → length (digits_of bs) ≡ length bs * 2
unfolding digits_of
length-digits_of [] = refl
length-digits_of (b ∷ bs) = omega (arith, length-digits_of bs)

from_hex_loop-digits_of :
    (bs : List ℕ) → IsBytes bs → from_hex_loop (length bs) (digits_of bs) ≡ (true, bs)
unfolding from_hex_loop digits_of
from_hex_loop-digits_of [] v = refl
from_hex_loop-digits_of (b ∷ bs) (one_more h v) =
    let (vh, okh, zh) = hex_val-digit (b / 16) (omega arith) in
    let (vl, okl, zl) = hex_val-digit (b % 16) (omega arith) in
    let e : u8 (b / 16 * 2 ^ 4 + b % 16) ≡ b = omega arith in
    rw
      (
        okh,
        okl,
        vh,
        vl,
        bit_or_low 4 (b / 16) (b % 16) (omega arith),
        e,
        from_hex_loop-digits_of bs v,
      )
      refl

-- The bytes come back from their hexadecimal text.
pub from_hex-to_hex :
    (bs : List ℕ) → IsBytes bs → from_hex (pos (length bs)) (some (to_hex bs)) ≡ (true, bs)
unfolding from_hex
from_hex-to_hex bs v =
    rw (c_string-to_hex bs v, length-digits_of bs) (ground (arith, from_hex_loop-digits_of bs v))
