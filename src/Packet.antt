-- ===== src/Packet.antt =====
-- `src/core/meshcore_packet.{h,c}`: the packet and its accessors.
-- A pointer that a reading function tests against NULL is an `Option`. A function that changes
-- `*packet` returns the new packet; its NULL guard has no counterpart, since there is a packet.
pub mod Codec
pub mod Fields
pub mod Length
pub mod RoundTrip
pub mod Digest
use meshcore.Prelude.{
  ℕ, ◌+◌, ◌-◌, ◌*◌, ◌^◌, bit_and, bit_or, Bool, true, false, ◌&&◌, ◌||◌, not, Option, none, some,
  List, [], replicate, take, overwrite, u8, u16, ◌<<<◌, ◌>>>◌, ltb, leb, ◌==◌, if◌then◌else◌,
}

abbrev pub max_path_len : ℕ
max_path_len = 64

abbrev pub payload_max_len : ℕ
payload_max_len = 184

abbrev pub route_mask : ℕ
route_mask = 0x03

abbrev pub type_mask : ℕ
type_mask = 0x0F

abbrev pub route_type_transport_flood : ℕ
route_type_transport_flood = 0

abbrev pub route_type_flood : ℕ
route_type_flood = 1

abbrev pub route_type_direct : ℕ
route_type_direct = 2

abbrev pub route_type_transport_direct : ℕ
route_type_transport_direct = 3

abbrev pub payload_type_req : ℕ
payload_type_req = 0x00

abbrev pub payload_type_response : ℕ
payload_type_response = 0x01

abbrev pub payload_type_txt_msg : ℕ
payload_type_txt_msg = 0x02

abbrev pub payload_type_ack : ℕ
payload_type_ack = 0x03

abbrev pub payload_type_advert : ℕ
payload_type_advert = 0x04

abbrev pub payload_type_grp_txt : ℕ
payload_type_grp_txt = 0x05

abbrev pub payload_type_grp_data : ℕ
payload_type_grp_data = 0x06

abbrev pub payload_type_anon_req : ℕ
payload_type_anon_req = 0x07

abbrev pub payload_type_path : ℕ
payload_type_path = 0x08

abbrev pub payload_type_trace : ℕ
payload_type_trace = 0x09

abbrev pub payload_type_multipart : ℕ
payload_type_multipart = 0x0A

abbrev pub payload_type_control : ℕ
payload_type_control = 0x0B

abbrev pub payload_type_raw_custom : ℕ
payload_type_raw_custom = 0x0F

-- `struct meshcore_packet`. `path` and `payload` are the whole arrays; `snr_q4` is the bit pattern
-- of the `int8_t`.
pub record Packet : Type 0 where
  pub header : ℕ
  pub payload_len : ℕ
  pub path_len : ℕ
  pub transport_code0 : ℕ
  pub transport_code1 : ℕ
  pub path : List ℕ
  pub payload : List ℕ
  pub snr_q4 : ℕ

-- `meshcore_packet_init`.
unfoldable pub packet_init : Packet
packet_init = record {
  header = 0;
  payload_len = 0;
  path_len = 0;
  transport_code0 = 0;
  transport_code1 = 0;
  path = replicate max_path_len 0;
  payload = replicate payload_max_len 0;
  snr_q4 = 0;
}

unfoldable pub path_len_field : Option Packet → ℕ
path_len_field none = 0
path_len_field (some p) = u8 p.path_len

unfoldable pub get_route_type : Option Packet → ℕ
get_route_type none = 0
get_route_type (some p) = bit_and p.header route_mask

unfoldable pub is_route_flood : Option Packet → Bool
is_route_flood p =
    let route_type = get_route_type p in
    route_type == route_type_flood || route_type == route_type_transport_flood

unfoldable pub is_route_direct : Option Packet → Bool
is_route_direct p =
    let route_type = get_route_type p in
    route_type == route_type_direct || route_type == route_type_transport_direct

unfoldable pub has_transport_codes : Option Packet → Bool
has_transport_codes p =
    let route_type = get_route_type p in
    route_type == route_type_transport_flood || route_type == route_type_transport_direct

unfoldable pub has_snr_flag : Option Packet → Bool
has_snr_flag none = false
has_snr_flag (some p) =
    if not (has_transport_codes (some p))
    then false
    else p.transport_code0 == 0x534E && p.transport_code1 == 0x0001

unfoldable pub get_payload_type : Option Packet → ℕ
get_payload_type none = 0
get_payload_type (some p) = bit_and (p.header >>> 2) type_mask

unfoldable pub get_payload_ver : Option Packet → ℕ
get_payload_ver none = 0
get_payload_ver (some p) = bit_and (p.header >>> 6) 0x03

unfoldable pub get_path_hash_size : Option Packet → ℕ
get_path_hash_size p = u8 ((path_len_field p >>> 6) + 1)

unfoldable pub get_path_hash_count : Option Packet → ℕ
get_path_hash_count p = bit_and (path_len_field p) 63

unfoldable pub get_path_byte_len : Option Packet → ℕ
get_path_byte_len p = u8 (get_path_hash_count p * get_path_hash_size p)

-- `(uint16_t)~63U` is 0xFFC0.
unfoldable pub set_path_hash_count : Packet → ℕ → Packet
set_path_hash_count p hash_count = record p {
  path_len = bit_or (bit_and p.path_len 0xFFC0) (bit_and hash_count 63);
}

-- `hash_size - 1U` is a 32-bit subtraction, cut to 16 bits before the shift.
unfoldable pub set_path_hash_size_and_count : Packet → ℕ → ℕ → Packet
set_path_hash_size_and_count p hash_size hash_count = record p {
  path_len = u16 (bit_or (u16 (hash_size + 2 ^ 16 - 1) <<< 6) (bit_and hash_count 63));
}

unfoldable pub is_valid_path_len : ℕ → Bool
is_valid_path_len path_len =
    let hash_count = bit_and path_len 63 in
    let hash_size = u8 ((path_len >>> 6) + 1) in
    if hash_size == 4 then false else leb (hash_count * hash_size) max_path_len

-- `meshcore_packet_write_path`: the bytes stored at `dest`; their number is what the function
-- returns.
unfoldable pub write_path : Option (List ℕ) → ℕ → List ℕ
write_path none path_len = []
write_path (some src) path_len =
    let hash_count = bit_and path_len 63 in
    let hash_size = u8 ((path_len >>> 6) + 1) in
    let len = hash_count * hash_size in if ltb max_path_len len then [] else take len src

-- `meshcore_packet_copy_path`: the array `dest` afterwards, and what is returned, also where nothing
-- was written.
unfoldable pub copy_path : List ℕ → Option (List ℕ) → ℕ → List ℕ × ℕ
copy_path dest src path_len = (overwrite dest (write_path src path_len), path_len)

unfoldable pub mark_do_not_retransmit : Packet → Packet
mark_do_not_retransmit p = record p { header = 0xFF }

unfoldable pub is_marked_do_not_retransmit : Option Packet → Bool
is_marked_do_not_retransmit none = false
is_marked_do_not_retransmit (some p) = p.header == 0xFF

unfoldable pub get_raw_length : Option Packet → ℕ
get_raw_length none = 0
get_raw_length (some p) =
    2 + get_path_byte_len (some p) + p.payload_len + (if has_transport_codes (some p) then 4 else 0)
