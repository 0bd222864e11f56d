-- ===== src/Prelude/Word.antt =====
-- Machine words: values below 2 ^ w, with each wrap written as a remainder.
use Prim.Native.Nat.{ℕ, ◌+◌, ◌-◌, ◌*◌, ◌/◌, ◌%◌, ◌^◌}
use mathlib.Core.Bool.{Bool, ◌&&◌, not}
use meshcore.Prelude.Tests.{ltb, ◌==◌}

abbrev pub u8 : ℕ → ℕ
u8 n = n % 2 ^ 8

abbrev pub u16 : ℕ → ℕ
u16 n = n % 2 ^ 16

abbrev pub u32 : ℕ → ℕ
u32 n = n % 2 ^ 32

-- `a - b` on `uint32_t`.
abbrev pub sub32 : ℕ → ℕ → ℕ
sub32 a b = (a + 2 ^ 32 - b) % 2 ^ 32

infixl 75 ◌<<<◌ ◌>>>◌
abbrev pub ◌<<<◌ : ℕ → ℕ → ℕ
x <<< k = x * 2 ^ k

abbrev pub ◌>>>◌ : ℕ → ℕ → ℕ
x >>> k = x / 2 ^ k

-- `(int32_t)w < 0` and `(int32_t)w > 0`, of the bit pattern `w`.
abbrev pub is_neg32 : ℕ → Bool
is_neg32 w = not (ltb w (2 ^ 31))

abbrev pub is_pos32 : ℕ → Bool
is_pos32 w = ltb w (2 ^ 31) && not (w == 0)

-- An `int` argument, where the code tests its sign: `negsuc n` is -(n + 1).
pub data ℤ : Type 0 where
  pos : ℕ → ℤ
  negsuc : ℕ → ℤ
