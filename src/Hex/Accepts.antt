-- ===== src/Hex/Accepts.antt =====
-- The texts that `meshcore_utils_from_hex` takes.
use meshcore.Prelude.{
  ℕ, zero, suc, ◌*◌, ◌≤◌, ◌≡◌, refl, true, some, List, [], ◌∷◌, length, arith, Bool-cases, inl, inr,
  ◌==◌, ◌↔◌, ◌⊎◌, pos, ==→eq,
}
use meshcore.Hex.{c_string, hex_val, is_hex_char, from_hex_loop, from_hex}

-- '0'..'9', 'A'..'F' and 'a'..'f'.
pub IsHexChar : ℕ → Type 0
IsHexChar c = ((48 ≤ c) × (c ≤ 57)) ⊎ (((65 ≤ c) × (c ≤ 70)) ⊎ ((97 ≤ c) × (c ≤ 102)))

pub data IsHexText : List ℕ → Type 0 where
  empty : IsHexText []
  digit : {c : ℕ} {cs : List ℕ} → IsHexChar c → IsHexText cs → IsHexText (c ∷ cs)

is_hex_char-true : (c : ℕ) → is_hex_char c ≡ true → IsHexChar c
unfolding is_hex_char hex_val IsHexChar
is_hex_char-true c h = ground arith

IsHexChar-is_hex_char : (c : ℕ) → IsHexChar c → is_hex_char c ≡ true
unfolding is_hex_char hex_val IsHexChar
IsHexChar-is_hex_char c h = ground arith

loop_true : (n : ℕ) (cs : List ℕ) → length cs ≡ n * 2 → (from_hex_loop n cs).0 ≡ true → IsHexText cs
unfolding from_hex_loop
loop_true zero [] e h = empty
loop_true zero (c ∷ cs) e h = absurd (omega arith)
loop_true (suc n) [] e h = absurd (omega arith)
loop_true (suc n) (ch ∷ []) e h = absurd (omega arith)
loop_true (suc n) (ch ∷ cl ∷ cs) e h = elim (Bool-cases (is_hex_char ch)) [
  | inl a ↦ elim (Bool-cases (is_hex_char cl)) [
    | inl b ↦
        digit (is_hex_char-true ch a)
          (digit (is_hex_char-true cl b) (loop_true n cs (omega arith) (ground (arith, a, b, h))))
    | inr b ↦ absurd (ground (arith, a, b, h))
  ]
  | inr a ↦ absurd (ground (arith, a, h))
]

loop_text : (n : ℕ) (cs : List ℕ) → length cs ≡ n * 2 → IsHexText cs → (from_hex_loop n cs).0 ≡ true
unfolding from_hex_loop
loop_text zero cs e v = refl
loop_text (suc n) [] e v = absurd (omega arith)
loop_text (suc n) (ch ∷ []) e v = absurd (omega arith)
loop_text (suc n) (ch ∷ cl ∷ cs) e (digit a (digit b v)) =
    rw (IsHexChar-is_hex_char ch a, IsHexChar-is_hex_char cl b) (loop_text n cs (omega arith) v)

-- A text is taken just when it has two characters for each byte asked for, each a hexadecimal
-- digit of either case.
pub from_hex_iff :
    (n : ℕ) (src_hex : List ℕ)
    → ((from_hex (pos n) (some src_hex)).0 ≡ true)
      ↔ ((length (c_string src_hex) ≡ n * 2) × IsHexText (c_string src_hex))
unfolding from_hex
from_hex_iff n src_hex = elim (Bool-cases (length (c_string src_hex) == n * 2)) [
  | inl e ↦
      let size = ==→eq (length (c_string src_hex)) (n * 2) e in
      rw e (
        λ h. (size, loop_true n (c_string src_hex) size h),
        λ h. loop_text n (c_string src_hex) size h.1,
      )
  | inr e ↦ rw e (λ h. absurd (ground arith), λ h. absurd (ground (arith, h.0, e)))
]
