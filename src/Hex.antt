-- ===== src/Hex.antt =====
-- The hexadecimal text of `src/core/meshcore_utils.c`. A `char` is its code, a C string is the
-- array that holds it, with its terminator.
pub mod RoundTrip
pub mod Accepts
use meshcore.Prelude.{
  ℕ, zero, suc, ◌+◌, ◌-◌, ◌*◌, Bool, true, false, ◌&&◌, ◌||◌, not, List, [], ◌∷◌, length, get_or,
  bit_and, bit_or, u8, ◌<<<◌, ◌>>>◌, ltb, leb, ◌==◌, if◌then◌else◌, ℤ, pos, negsuc, Option, none,
  some,
}

-- "0123456789ABCDEF".
abbrev pub hex_chars : List ℕ
hex_chars = 48 ∷ 49 ∷ 50 ∷ 51 ∷ 52 ∷ 53 ∷ 54 ∷ 55 ∷ 56 ∷ 57 ∷ 65 ∷ 66 ∷ 67 ∷ 68 ∷ 69 ∷ 70 ∷ []

-- `strlen`: what stands before the first zero.
unfoldable pub c_string : List ℕ → List ℕ
c_string [] = []
c_string (c ∷ cs) = let rest = c_string cs in if c == 0 then [] else c ∷ rest

-- `meshcore_utils_to_hex`: what it stores at `dest`.
unfoldable pub to_hex : List ℕ → List ℕ
to_hex [] = 0 ∷ []
to_hex (b ∷ src) = get_or hex_chars (b >>> 4) 0 ∷ get_or hex_chars (bit_and b 0x0F) 0 ∷ to_hex src

unfoldable pub hex_val : ℕ → ℕ
hex_val c =
    if leb 65 c && leb c 70
    then u8 (c - 65 + 10)
    else if leb 97 c && leb c 102
    then u8 (c - 97 + 10)
    else if leb 48 c && leb c 57
    then u8 (c - 48)
    else 0

unfoldable pub is_hex_char : ℕ → Bool
is_hex_char c = c == 48 || ltb 0 (hex_val c)

-- The loop of `meshcore_utils_from_hex`: the result, and what it has stored at `dest`.
unfoldable pub from_hex_loop : ℕ → List ℕ → Bool × List ℕ
from_hex_loop zero src = (true, [])
from_hex_loop (suc rounds) [] = (false, [])
from_hex_loop (suc rounds) (ch ∷ []) = (false, [])
from_hex_loop (suc rounds) (ch ∷ cl ∷ src) =
    let (ok, rest) = from_hex_loop rounds src in
    if not (is_hex_char ch) || not (is_hex_char cl)
    then (false, [])
    else (ok, u8 (bit_or (hex_val ch <<< 4) (hex_val cl)) ∷ rest)

unfoldable pub from_hex : ℤ → Option (List ℕ) → Bool × List ℕ
from_hex dest_size none = (false, [])
from_hex (negsuc n) (some src_hex) = (false, [])
from_hex (pos dest_size) (some src_hex) =
    if not (length (c_string src_hex) == dest_size * 2)
    then (false, [])
    else from_hex_loop dest_size (c_string src_hex)
