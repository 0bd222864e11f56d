-- ===== src/Text.antt =====
-- `src/support/meshcore_txt_data.c`: copies of texts into arrays, and hexadecimal numbers.
use meshcore.Prelude.{
  ℕ, zero, suc, ◌+◌, ◌-◌, Bool, true, false, ◌&&◌, not, Option, none, some, List, [], ◌∷◌,
  replicate, overwrite, ◌<<<◌, u32, leb, ◌==◌, bit_or, if◌then◌else◌,
}
pub mod Copies

-- The bytes that the loop of `meshcore_txt_strncpy` stores, and the terminator. A text that ends
-- without one is read as if one followed.
unfoldable pub copied : ℕ → List ℕ → List ℕ
copied zero src = []
copied (suc zero) src = 0 ∷ []
copied (suc (suc buf_sz)) [] = 0 ∷ []
copied (suc (suc buf_sz)) (c ∷ src) =
    let rest = copied (suc buf_sz) src in if c == 0 then 0 ∷ [] else c ∷ rest

unfoldable pub strncpy : List ℕ → Option (List ℕ) → ℕ → List ℕ
strncpy dest none buf_sz = dest
strncpy dest (some src) buf_sz = overwrite dest (copied buf_sz src)

-- The bytes of the two loops of `meshcore_txt_strzcpy`.
unfoldable pub filled_up : ℕ → List ℕ → List ℕ
filled_up zero src = []
filled_up (suc zero) src = 0 ∷ []
filled_up (suc (suc buf_sz)) [] = replicate (suc (suc buf_sz)) 0
filled_up (suc (suc buf_sz)) (c ∷ src) =
    let rest = filled_up (suc buf_sz) src in
    if c == 0 then replicate (suc (suc buf_sz)) 0 else c ∷ rest

unfoldable pub strzcpy : List ℕ → Option (List ℕ) → ℕ → List ℕ
strzcpy dest none buf_sz = dest
strzcpy dest (some src) buf_sz = overwrite dest (filled_up buf_sz src)

abbrev blank_loop : List ℕ → Bool
blank_loop [] = true
blank_loop (c ∷ str) =
    let rest = blank_loop str in if c == 0 then true else if not (c == 32) then false else rest

unfoldable pub is_blank : Option (List ℕ) → Bool
is_blank none = true
is_blank (some str) = blank_loop str

-- The value of a digit, where the loop of `meshcore_txt_from_hex` does not break.
unfoldable pub digit : ℕ → Option ℕ
digit c =
    if leb 48 c && leb c 57
    then some (c - 48)
    else if leb 65 c && leb c 70
    then some (c - 65 + 10)
    else if leb 97 c && leb c 102
    then some (c - 97 + 10)
    else none

abbrev pub with_digit : ℕ → Option ℕ → (ℕ → ℕ) → ℕ
with_digit n none rest = n
with_digit n (some v) rest = rest (bit_or (u32 (n <<< 4)) v)

-- The loop over a text: each digit moves the 32 bits of the number by four.
unfoldable pub txt_from_hex_loop : List ℕ → ℕ → ℕ
txt_from_hex_loop [] n = n
txt_from_hex_loop (c ∷ src) n =
    let rest = txt_from_hex_loop src in if c == 0 then n else with_digit n (digit c) rest

unfoldable pub txt_from_hex : Option (List ℕ) → ℕ
txt_from_hex none = 0
txt_from_hex (some src) = txt_from_hex_loop src 0
