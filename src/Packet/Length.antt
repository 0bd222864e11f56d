-- ===== src/Packet/Length.antt =====
-- The packets that the encoder takes, and the length of what it writes.
use meshcore.Prelude.{
  ℕ, ◌+◌, ◌*◌, ◌/◌, ◌%◌, ◌^◌, ◌≤◌, ◌<◌, ◌≡◌, refl, true, false, some, List, [], ◌∷◌, ◌++◌, take,
  length, length-take, length-append, arith, bit_and_mask, ltb, if◌then◌else◌, u8, ◌⊎◌, le→ltb,
}
use meshcore.Packet.{
  Packet, max_path_len, payload_max_len, path_len_field, get_path_byte_len, has_transport_codes,
  is_valid_path_len, write_path, get_raw_length,
}
use meshcore.Packet.Fields.{is_valid_path_len_iff, get_path_hash_count_lem, get_path_hash_size_lem}
use meshcore.Packet.Codec.{write_to, frame, code_bytes}

-- The ranges of the C types, and the sizes of the two arrays.
pub record IsPacket (p : Packet) : Type 0 where
  pub header_byte : p.header < 256
  pub payload_word : p.payload_len < 2 ^ 16
  pub path_word : p.path_len < 2 ^ 16
  pub code0_word : p.transport_code0 < 2 ^ 16
  pub code1_word : p.transport_code1 < 2 ^ 16
  pub path_array : length p.path ≡ max_path_len
  pub payload_array : length p.payload ≡ payload_max_len

-- What `meshcore_packet_write_to` accepts.
pub record IsSendable (p : Packet) : Type 0 where
  pub packet : IsPacket p
  pub path_fits : is_valid_path_len (path_len_field (some p)) ≡ true
  pub payload_fits : p.payload_len ≤ payload_max_len

-- The number of bytes that the path takes on air.
pub path_bytes : Packet → ℕ
path_bytes p = p.path_len % 64 * (p.path_len % 256 / 64 + 1)

path_bytes_lem : (p : Packet) → p.path_len % 64 * (p.path_len % 256 / 64 + 1) ≡ path_bytes p
unfolding path_bytes
path_bytes_lem p = refl

field_bytes : (p : Packet) → p.path_len % 256 % 64 * (p.path_len % 256 / 64 + 1) ≡ path_bytes p
unfolding path_bytes
field_bytes p = let e : p.path_len % 256 % 64 ≡ p.path_len % 64 = omega arith in rw e refl

pub path_bytes-le :
    (p : Packet) → is_valid_path_len (path_len_field (some p)) ≡ true → path_bytes p ≤ max_path_len
unfolding path_len_field path_bytes
path_bytes-le p h =
    let e : p.path_len % 256 % 64 ≡ p.path_len % 64 = omega arith in
    rw (← e) ((is_valid_path_len_iff (p.path_len % 256) (omega arith)).0 h).1

pub get_path_byte_len_lem :
    (p : Packet)
    → is_valid_path_len (path_len_field (some p)) ≡ true
    → get_path_byte_len (some p) ≡ path_bytes p
unfolding get_path_byte_len
get_path_byte_len_lem p h = ground (
  arith,
  get_path_hash_count_lem p,
  get_path_hash_size_lem p,
  path_bytes-le p h,
  path_bytes_lem p,
)

size_of_field : (b : ℕ) → b < 256 → u8 (b / 64 + 1) ≡ b / 64 + 1
size_of_field b h = omega arith

write_path_of_field :
    (src : List ℕ) (b : ℕ)
    → b < 256
    → write_path (some src) b
      ≡ (if ltb max_path_len (b % 64 * (b / 64 + 1)) then [] else take (b % 64 * (b / 64 + 1)) src)
unfolding write_path
write_path_of_field src b h = rw (bit_and_mask 6 b, size_of_field b h) refl

pub write_path_lem :
    (p : Packet)
    → is_valid_path_len (path_len_field (some p)) ≡ true
    → write_path (some p.path) (path_len_field (some p)) ≡ take (path_bytes p) p.path
unfolding path_len_field
write_path_lem p h =
    rw (write_path_of_field p.path (p.path_len % 256) (omega arith), field_bytes p)
      (rw (le→ltb max_path_len (path_bytes p) (unfold path_len_field in path_bytes-le p h)) refl)

pub length-write_path :
    (p : Packet)
    → IsPacket p
    → is_valid_path_len (path_len_field (some p)) ≡ true
    → length (write_path (some p.path) (path_len_field (some p))) ≡ path_bytes p
length-write_path p v h =
    rw (write_path_lem p h, length-take (path_bytes p) p.path)
      (omega (arith, path_bytes-le p h, v.path_array))

length-code_bytes :
    (p : Packet) → length (code_bytes p) ≡ (if has_transport_codes (some p) then 4 else 0)
unfolding code_bytes
length-code_bytes p = ground arith

pub get_raw_length_lem :
    (p : Packet)
    → IsSendable p
    → get_raw_length (some p)
      ≡ 2 + path_bytes p + p.payload_len + (if has_transport_codes (some p) then 4 else 0)
unfolding get_raw_length
get_raw_length_lem p v = rw (get_path_byte_len_lem p v.path_fits) refl

-- An encoded packet is as long as `meshcore_packet_get_raw_length` says, at most 254 bytes, so the
-- `uint8_t` count does not wrap.
pub length-frame :
    (p : Packet)
    → IsSendable p
    → (length (frame p) ≡ get_raw_length (some p)) × (length (frame p) ≤ 254)
unfolding frame get_raw_length
length-frame p v = ground (
  arith,
  length-append (code_bytes p) (
      path_len_field (some p) ∷ write_path (some p.path) (path_len_field (some p))
      ++ take p.payload_len p.payload),
  length-append (write_path (some p.path) (path_len_field (some p))) (take p.payload_len p.payload),
  length-take p.payload_len p.payload,
  length-write_path p v.packet v.path_fits,
  length-code_bytes p,
  get_path_byte_len_lem p v.path_fits,
  path_bytes-le p v.path_fits,
  v.packet.payload_array,
  v.payload_fits,
)

-- The encoder takes every sendable packet, and returns the whole frame and its length.
pub write_to_sendable :
    (p : Packet)
    → IsSendable p
    → write_to (some p) true ≡ record { count = get_raw_length (some p); bytes = frame p }
unfolding write_to
write_to_sendable p v = ground (arith, v.path_fits, v.payload_fits, length-frame p v)

-- Every other packet is refused: nothing is written, and the count is 0.
write_to_refused :
    (p : Packet)
    → (is_valid_path_len (path_len_field (some p)) ≡ false) ⊎ (payload_max_len < p.payload_len)
    → write_to (some p) true ≡ record { count = 0; bytes = [] }
unfolding write_to
write_to_refused p h = ground arith
