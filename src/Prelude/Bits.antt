-- ===== src/Prelude/Bits.antt =====
-- `&` and `|` on bit fields as arithmetic.
use Prim.Native.Nat.{
  ℕ, zero, suc, ◌+◌, ◌-◌, ◌*◌, ◌/◌, ◌%◌, ◌^◌, ◌≤◌, ◌<◌, min, max, bit_and, bit_or, digits, bitwise,
  bit_and-bitwise, bit_or-bitwise,
}
use mathlib.Core.Path.{◌≡◌, refl, ap, ◌∙◌}
use native.Mathlib.Nat.{pow-suc, one-le-pow}
use native.Mathlib.Omega.{arith}

-- `bitwise` is a recursion on binary digits that is given its first operand as fuel.
module _ (rest : ℕ → ℕ) (digit : ℕ → ℕ → ℕ) where
  abbrev from_fuel : ℕ → ℕ → ℕ → ℕ
  from_fuel = digits rest digit

  -- Fuel above the operand is not used.
  one_more : (fuel a b : ℕ) → a ≤ fuel → from_fuel (suc fuel) a b ≡ from_fuel fuel a b
  one_more zero zero b h = refl
  one_more (suc fuel) zero b h = refl
  one_more zero (suc a) b h = absurd (omega arith)
  one_more (suc fuel) (suc a) b h = rw (one_more fuel (suc a / 2) (b / 2) (omega arith))

  many_more :
      (extra fuel all a b : ℕ)
      → fuel + extra ≡ all
      → a ≤ fuel
      → from_fuel all a b ≡ from_fuel fuel a b
  many_more zero fuel all a b e h = ap (λ (n : ℕ). from_fuel n a b) (omega arith)
  many_more (suc extra) fuel all a b e h =
      many_more extra (suc fuel) all a b (omega arith) (omega arith) ∙ one_more fuel a b h

  lowest :
      (a b : ℕ)
      → bitwise rest digit (suc a) b
        ≡ bitwise rest digit (suc a / 2) (b / 2) * 2 + digit (suc a % 2) (b % 2)
  lowest a b =
      let half = suc a / 2 in
      omega (arith, many_more (a - half) half a half (b / 2) (omega arith) (omega arith))

-- The lowest digit of `&` and of `|`.
bit_and-low : (a b : ℕ) → bit_and a b ≡ bit_and (a / 2) (b / 2) * 2 + min (a % 2) (b % 2)
bit_and-low (suc a) b = simp bit_and-bitwise (lowest (λ b'. 0) min a b)
bit_and-low zero b = simp bit_and-bitwise (omega arith)

pub bit_or-low : (a b : ℕ) → bit_or a b ≡ bit_or (a / 2) (b / 2) * 2 + max (a % 2) (b % 2)
bit_or-low (suc a) b = simp bit_or-bitwise (lowest (λ b'. b') max a b)
bit_or-low zero b = simp bit_or-bitwise (omega arith)

double_pow : (q k : ℕ) → q * 2 ^ suc k ≡ 2 * (q * 2 ^ k)
double_pow q k = omega (arith, ap (λ (t : ℕ). q * t) (pow-suc 2 k))

-- A field of `k` low bits and what stands above it are operated on apart.
pub bit_and_fields :
    (k a b c d : ℕ)
    → b < 2 ^ k
    → d < 2 ^ k
    → bit_and (a * 2 ^ k + b) (c * 2 ^ k + d) ≡ bit_and a c * 2 ^ k + bit_and b d
bit_and_fields zero a b c d p q =
    let e : b ≡ 0 = omega arith in let e' : d ≡ 0 = omega arith in rw (e, e') (ground arith)
bit_and_fields (suc k) a b c d p q = ground (
  arith,
  bit_and-low (a * 2 ^ suc k + b) (c * 2 ^ suc k + d),
  bit_and-low b d,
  double_pow a k,
  double_pow c k,
  double_pow (bit_and a c) k,
  pow-suc 2 k,
  bit_and_fields k a (b / 2) c (d / 2) (omega (arith, pow-suc 2 k)) (omega (arith, pow-suc 2 k)),
)

pub bit_or_fields :
    (k a b c d : ℕ)
    → b < 2 ^ k
    → d < 2 ^ k
    → bit_or (a * 2 ^ k + b) (c * 2 ^ k + d) ≡ bit_or a c * 2 ^ k + bit_or b d
bit_or_fields zero a b c d p q =
    let e : b ≡ 0 = omega arith in let e' : d ≡ 0 = omega arith in rw (e, e') (ground arith)
bit_or_fields (suc k) a b c d p q = ground (
  arith,
  bit_or-low (a * 2 ^ suc k + b) (c * 2 ^ suc k + d),
  bit_or-low b d,
  double_pow a k,
  double_pow c k,
  double_pow (bit_or a c) k,
  pow-suc 2 k,
  bit_or_fields k a (b / 2) c (d / 2) (omega (arith, pow-suc 2 k)) (omega (arith, pow-suc 2 k)),
)

pub zero-bit_and : (b : ℕ) → bit_and 0 b ≡ 0
zero-bit_and b = simp bit_and-bitwise refl

pub zero-bit_or : (b : ℕ) → bit_or 0 b ≡ b
zero-bit_or b = simp bit_or-bitwise refl

-- By halving, with a bound on the number.
zero_right : (bound a : ℕ) → a ≤ bound → (bit_and a 0 ≡ 0) × (bit_or a 0 ≡ a)
zero_right bound zero h = (zero-bit_and 0, zero-bit_or 0)
zero_right zero (suc a) h = absurd (omega arith)
zero_right (suc bound) (suc a) h =
    let (both, either) = zero_right bound (suc a / 2) (omega arith) in
    (omega (arith, bit_and-low (suc a) 0), omega (arith, bit_or-low (suc a) 0))

pub bit_and-zero : (a : ℕ) → bit_and a 0 ≡ 0
bit_and-zero a = (zero_right a a (omega arith)).0

pub bit_or-zero : (a : ℕ) → bit_or a 0 ≡ a
bit_or-zero a = (zero_right a a (omega arith)).1

bit_and_low_ones : (k r : ℕ) → r < 2 ^ k → bit_and r (2 ^ k - 1) ≡ r
bit_and_low_ones zero r h = let e : r ≡ 0 = omega arith in rw e (zero-bit_and (2 ^ 0 - 1))
bit_and_low_ones (suc k) r h = ground (
  arith,
  bit_and-low r (2 ^ suc k - 1),
  pow-suc 2 k,
  one-le-pow k 2,
  bit_and_low_ones k (r / 2) (omega (arith, pow-suc 2 k)),
)

-- A mask of `k` low bits is the remainder by `2 ^ k`.
pub bit_and_mask : (k a : ℕ) → bit_and a (2 ^ k - 1) ≡ a % 2 ^ k
bit_and_mask k a = ground (
  arith,
  one-le-pow k 2,
  bit_and_fields k (a / 2 ^ k) (a % 2 ^ k) 0 (2 ^ k - 1),
  bit_and-zero (a / 2 ^ k),
  bit_and_low_ones k (a % 2 ^ k),
)

-- A mask of `w` bits above the low `k` clears the low `k`.
pub bit_and_high :
    (k w a : ℕ) → a < 2 ^ w * 2 ^ k → bit_and a ((2 ^ w - 1) * 2 ^ k) ≡ a / 2 ^ k * 2 ^ k
bit_and_high k w a h = ground (
  arith,
  one-le-pow k 2,
  bit_and_fields k (a / 2 ^ k) (a % 2 ^ k) (2 ^ w - 1) 0,
  bit_and-zero (a % 2 ^ k),
  bit_and_low_ones w (a / 2 ^ k) (grind arith),
)

-- `(q << k) | r` is a sum when `r` fits `k` bits.
pub bit_or_low : (k q r : ℕ) → r < 2 ^ k → bit_or (q * 2 ^ k) r ≡ q * 2 ^ k + r
bit_or_low k q r h =
    ground (arith, one-le-pow k 2, bit_or_fields k q 0 0 r, bit_or-zero q, zero-bit_or r)
