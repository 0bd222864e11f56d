-- ===== src/Packet/Fields.antt =====
-- The accessors of `src/core/meshcore_packet.c` as arithmetic on the header and the path length.
use meshcore.Prelude.{
  ℕ, ◌+◌, ◌-◌, ◌*◌, ◌/◌, ◌%◌, ◌^◌, ◌≤◌, ◌<◌, ◌≡◌, ◌↔◌, ◌⊎◌, true, false, some, arith, bit_and_mask,
  bit_and_high, bit_or_low, u16,
}
use meshcore.Packet.{
  Packet, max_path_len, path_len_field, get_route_type, get_payload_type, get_payload_ver,
  get_path_hash_size, get_path_hash_count, is_route_flood, is_route_direct, set_path_hash_count,
  set_path_hash_size_and_count, is_valid_path_len,
}

pub get_route_type_lem : (p : Packet) → get_route_type (some p) ≡ p.header % 4
unfolding get_route_type
get_route_type_lem p = bit_and_mask 2 p.header

pub get_payload_type_lem : (p : Packet) → get_payload_type (some p) ≡ p.header / 4 % 16
unfolding get_payload_type
get_payload_type_lem p = bit_and_mask 4 (p.header / 4)

pub get_payload_ver_lem : (p : Packet) → get_payload_ver (some p) ≡ p.header / 64 % 4
unfolding get_payload_ver
get_payload_ver_lem p = bit_and_mask 2 (p.header / 64)

pub get_path_hash_count_lem : (p : Packet) → get_path_hash_count (some p) ≡ p.path_len % 64
unfolding get_path_hash_count path_len_field
get_path_hash_count_lem p = omega (arith, bit_and_mask 6 (p.path_len % 256))

pub get_path_hash_size_lem : (p : Packet) → get_path_hash_size (some p) ≡ p.path_len % 256 / 64 + 1
unfolding get_path_hash_size path_len_field
get_path_hash_size_lem p = omega arith

pub get_path_hash_size-le : (p : Packet) → get_path_hash_size (some p) ≤ 4
get_path_hash_size-le p = omega (arith, get_path_hash_size_lem p)

-- Every packet is routed by flood or directly, never both.
pub route_is_flood_or_direct :
    (p : Packet)
    → (is_route_flood (some p) ≡ true) × (is_route_direct (some p) ≡ false)
      ⊎ (is_route_flood (some p) ≡ false) × (is_route_direct (some p) ≡ true)
unfolding is_route_flood is_route_direct
route_is_flood_or_direct p = ground (arith, get_route_type_lem p)

-- A path length byte is valid just when it names hashes of one to three bytes that fit the array.
pub is_valid_path_len_iff :
    (n : ℕ)
    → n < 256
    → (is_valid_path_len n ≡ true) ↔ ((n / 64 < 3) × (n % 64 * (n / 64 + 1) ≤ max_path_len))
unfolding is_valid_path_len
is_valid_path_len_iff n h = ground (arith, bit_and_mask 6 n)

-- Setting the hash count keeps the hash size and every higher bit.
pub path_len-set_path_hash_count :
    (p : Packet) (c : ℕ)
    → p.path_len < 2 ^ 16
    → (set_path_hash_count p c).path_len ≡ p.path_len / 64 * 64 + c % 64
unfolding set_path_hash_count
path_len-set_path_hash_count p c h =
    rw (bit_and_high 6 10 p.path_len h, bit_and_mask 6 c)
      (bit_or_low 6 (p.path_len / 64) (c % 64) (omega arith))

u16_pred : (n : ℕ) → 0 < n → n ≤ 4 → u16 (n + 2 ^ 16 - 1) ≡ n - 1
u16_pred n h k = omega arith

pub path_len-set_path_hash_size_and_count :
    (p : Packet) (size c : ℕ)
    → 0 < size
    → size ≤ 4
    → (set_path_hash_size_and_count p size c).path_len ≡ (size - 1) * 64 + c % 64
unfolding set_path_hash_size_and_count
path_len-set_path_hash_size_and_count p size c h k =
    rw (u16_pred size h k, bit_and_mask 6 c, bit_or_low 6 (size - 1) (c % 64) (omega arith))
      (omega arith)
