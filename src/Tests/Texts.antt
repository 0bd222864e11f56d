-- ===== src/Tests/Texts.antt =====
-- Hexadecimal texts and encryption.
use meshcore.Text.{
  txt_from_hex, txt_from_hex_loop, digit, is_blank, strncpy, copied, strzcpy, filled_up,
}
use meshcore.Prelude.{
  ◌+◌, ◌≡◌, ◌↔◌, refl, true, false, some, [], ◌∷◌, length, arith, pos, replicate,
}
use meshcore.Hex.{c_string, to_hex, hex_val, is_hex_char, from_hex_loop, from_hex}
use meshcore.Hex.RoundTrip.{IsBytes, from_hex-to_hex}
use meshcore.Hex.Accepts.{IsHexText, from_hex_iff}
use meshcore.Cipher.{Host, mac_size}
use meshcore.Cipher.Blocks.{padded}
use meshcore.Cipher.Loops.{Works}
use meshcore.Cipher.RoundTrip.{there_and_back, mac_then_decrypt-encrypt_then_mac}

-- "0aF9" and a text with a character that is none of the sixteen.
hex_runs :
    (from_hex (pos 2) (some (48 ∷ 97 ∷ 70 ∷ 57 ∷ 0 ∷ [])) ≡ (true, 10 ∷ 249 ∷ []))
    × (from_hex (pos 1) (some (48 ∷ 103 ∷ 0 ∷ [])) ≡ (false, []))
    × (to_hex (10 ∷ 249 ∷ []) ≡ 48 ∷ 65 ∷ 70 ∷ 57 ∷ 0 ∷ [])
unfolding from_hex c_string from_hex_loop is_hex_char hex_val to_hex
hex_runs = (refl, refl, refl)

two-IsBytes : IsBytes (10 ∷ 249 ∷ [])
two-IsBytes = IsBytes.one_more (omega arith) (IsBytes.one_more (omega arith) IsBytes.none_left)

from_hex-to_hex_example : from_hex (pos 2) (some (to_hex (10 ∷ 249 ∷ []))) ≡ (true, 10 ∷ 249 ∷ [])
from_hex-to_hex_example = from_hex-to_hex (10 ∷ 249 ∷ []) two-IsBytes

from_hex_iff_example :
    ((from_hex (pos 1) (some (48 ∷ 103 ∷ 0 ∷ []))).0 ≡ true)
    ↔ ((length (c_string (48 ∷ 103 ∷ 0 ∷ [])) ≡ 2) × IsHexText (c_string (48 ∷ 103 ∷ 0 ∷ [])))
from_hex_iff_example = from_hex_iff 1 (48 ∷ 103 ∷ 0 ∷ [])

-- A host whose cipher is the identity; the tag depends on the lengths.
abbrev pub plain_host : Host
plain_host = record {
  encrypt_block = λ key block. some block;
  decrypt_block = λ key block. some block;
  hmac = λ key text. some (length text ∷ length key ∷ []);
}

pub plain_host-Works : Works plain_host
plain_host-Works = record {
  enc = λ key block. block;
  tag = λ key text. length text ∷ length key ∷ [];
  encrypts = λ key block h. refl;
  decrypts = λ key block h. refl;
  fills = λ key block h. h;
  tags = λ key text. refl;
  tag_fills = λ key text. refl;
}

mac_then_decrypt-encrypt_then_mac_example :
    ((there_and_back plain_host (1 ∷ []) (replicate 20 7)).0.0
      ≡ pos (mac_size + length (padded (replicate 20 7))))
    × ((there_and_back plain_host (1 ∷ []) (replicate 20 7)).1
        ≡ (pos (length (padded (replicate 20 7))), padded (replicate 20 7)))
mac_then_decrypt-encrypt_then_mac_example =
    mac_then_decrypt-encrypt_then_mac plain_host plain_host-Works (1 ∷ []) (replicate 20 7)
      (omega arith)

-- "1aFx", and texts of spaces.
helper_runs :
    (txt_from_hex (some (49 ∷ 97 ∷ 70 ∷ 120 ∷ 49 ∷ [])) ≡ 0x1AF)
    × (is_blank (some (32 ∷ 32 ∷ 0 ∷ 65 ∷ [])) ≡ true)
    × (is_blank (some (32 ∷ 65 ∷ 0 ∷ [])) ≡ false)
    × (strncpy (9 ∷ 9 ∷ 9 ∷ 9 ∷ []) (some (65 ∷ 0 ∷ [])) 3 ≡ 65 ∷ 0 ∷ 9 ∷ 9 ∷ [])
    × (strzcpy (9 ∷ 9 ∷ 9 ∷ 9 ∷ []) (some (65 ∷ 0 ∷ [])) 3 ≡ 65 ∷ 0 ∷ 0 ∷ 9 ∷ [])
unfolding txt_from_hex txt_from_hex_loop digit is_blank strncpy copied strzcpy filled_up
helper_runs = (refl, refl, refl, refl, refl)
