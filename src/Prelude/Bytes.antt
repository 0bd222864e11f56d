-- ===== src/Prelude/Bytes.antt =====
-- Arrays of bytes: comparing them, and the words that they hold.
use Prim.Native.Nat.{ℕ, ◌+◌, ◌*◌, ◌/◌, ◌%◌}
use mathlib.Core.Path.{◌≡◌, refl}
use mathlib.Core.Bool.{Bool, true, false, ◌&&◌}
use mathlib.Core.List.{List, [], ◌∷◌}
use native.Mathlib.Omega.{arith}
use meshcore.Prelude.Tests.{◌==◌}
use meshcore.Prelude.Lists.{get_or}

-- `memcmp` of two arrays of one length is 0.
abbrev pub same_bytes : List ℕ → List ℕ → Bool
same_bytes [] [] = true
same_bytes [] (y ∷ ys) = false
same_bytes (x ∷ xs) [] = false
same_bytes (x ∷ xs) (y ∷ ys) = x == y && same_bytes xs ys

pub same_bytes_self : (xs : List ℕ) → same_bytes xs xs ≡ true
same_bytes_self [] = refl
same_bytes_self (x ∷ xs) = ground (arith, same_bytes_self xs)

pub same_bytes→eq : (xs ys : List ℕ) → same_bytes xs ys ≡ true → xs ≡ ys
same_bytes→eq [] [] h = refl
same_bytes→eq [] (y ∷ ys) h = cc
same_bytes→eq (x ∷ xs) [] h = cc
same_bytes→eq (x ∷ xs) (y ∷ ys) h = ground (arith, same_bytes→eq xs ys)

-- The two bytes of a `uint16_t` and the four of a `uint32_t`, in little-endian order.
abbrev pub bytes16 : ℕ → List ℕ
bytes16 w = w % 256 ∷ w / 256 ∷ []

abbrev pub word16 : List ℕ → ℕ → ℕ
word16 src i = get_or src i 0 + 256 * get_or src (i + 1) 0

abbrev pub bytes32 : ℕ → List ℕ
bytes32 w = w % 256 ∷ w / 256 % 256 ∷ w / 65536 % 256 ∷ w / 16777216 ∷ []

abbrev pub word32 : List ℕ → ℕ → ℕ
word32 src i =
    get_or src i 0
    + 256 * get_or src (i + 1) 0
    + 65536 * get_or src (i + 2) 0
    + 16777216 * get_or src (i + 3) 0

pub word32-bytes32 :
    (w : ℕ)
    → w % 256 + 256 * (w / 256 % 256) + 65536 * (w / 65536 % 256) + 16777216 * (w / 16777216) ≡ w
word32-bytes32 w = omega arith
