-- ===== src/Runtime/Validate.antt =====
-- What `src/runtime/meshcore_runtime_request.c` asks of the arguments of a request: the functions
-- `meshcore_runtime_request_validate_*`, true where they return 0. A pointer is `none` where it is
-- NULL; the array behind it has the length that is passed with it, or more.
use meshcore.Prelude.{
  ℕ, ◌+◌, ◌-◌, ◌/◌, ◌%◌, Bool, true, false, ◌&&◌, ◌||◌, not, Option, none, some, List, get_or,
  bit_and, u8, ltb, leb, ◌==◌, if◌then◌else◌,
}
use meshcore.Packet.{
  packet_init, max_path_len, payload_max_len, payload_type_advert, get_payload_type,
}
use meshcore.Packet.Codec.{read_from}
use meshcore.Mesh.Create.{datagram_plaintext_fits, path_return_extra_fits}
use meshcore.Runtime.{path_len_decode}
use meshcore.Runtime.Publish.{max_message_len, max_channel_data_len, max_service_request_len}

-- `meshcore_common_binary_request_event_t`, as far as a response reads it.
pub record BinaryRequest : Type 0 where
  pub route : ℕ
  pub public_key : List ℕ
  pub tag : ℕ
  pub path_len : ℕ
  pub path : List ℕ
  pub payload_len : ℕ

abbrev pub out_path_unknown : ℕ
out_path_unknown = 0xFF

abbrev pub max_service_response_len : ℕ
max_service_response_len = 163

abbrev pub max_anon_data_len : ℕ
max_anon_data_len = 136

abbrev pub is_null : Option (List ℕ) → Bool
is_null none = true
is_null (some bytes) = false

abbrev pub is_sized : ℕ → ℕ → Bool
is_sized len max = not (len == 0) && leb len max

unfoldable pub permission_mask_valid : ℕ → Bool
permission_mask_valid permission_mask = bit_and permission_mask 0xF8 == 0

unfoldable pub validate_node_peer_advert : Option (List ℕ) → ℕ → Bool
validate_node_peer_advert raw_advert len =
    let (ok, packet) = read_from packet_init raw_advert (u8 len) in
    if is_null raw_advert || not (is_sized len 255)
    then false
    else ok && get_payload_type (some packet) == payload_type_advert

unfoldable pub validate_message_send_to_node : Option (List ℕ) → ℕ → Option (List ℕ) → ℕ → Bool
validate_message_send_to_node public_key attempt payload len =
    if is_null public_key || (is_null payload || not (is_sized len max_message_len))
    then false
    else not (ltb 3 attempt && ltb (max_message_len - 2) len)

abbrev pub is_secret : Option (List ℕ) → ℕ → Bool
is_secret secret len = not (is_null secret) && (len == 16 || len == 32)

unfoldable pub validate_message_send_to_channel : Option (List ℕ) → ℕ → Option (List ℕ) → ℕ → Bool
validate_message_send_to_channel secret secret_len payload len =
    not (is_null secret)
    && (not (is_null payload) && (is_secret secret secret_len && is_sized len max_message_len))

abbrev pub has_bytes : Option (List ℕ) → Option (ℕ × ℕ) → Bool
has_bytes path none = false
has_bytes path (some (path_bytes, path_hash_size)) = not (ltb 0 path_bytes && is_null path)

unfoldable pub validate_path : Option (List ℕ) → ℕ → Bool → Bool
validate_path path path_len allow_unknown =
    if path_len == out_path_unknown
    then allow_unknown
    else has_bytes path (path_len_decode path_len)

unfoldable pub validate_channel_data :
    Option (List ℕ) → ℕ → Option (List ℕ) → ℕ → Option (List ℕ) → ℕ → Bool
validate_channel_data secret secret_len path path_len payload len =
    if not (is_secret secret secret_len)
      || ((is_null payload && ltb 0 len) || ltb max_channel_data_len len)
    then false
    else validate_path path path_len true

unfoldable pub validate_public_key : Option (List ℕ) → Bool
validate_public_key public_key = not (is_null public_key)

unfoldable pub validate_node_telemetry : Option (List ℕ) → ℕ → Bool
validate_node_telemetry public_key permission_mask =
    not (is_null public_key) && permission_mask_valid permission_mask

unfoldable pub validate_node_trace : Option (List ℕ) → ℕ → ℕ → Bool
validate_node_trace path path_len path_hash_size =
    if is_null path || (path_len == 0 || (ltb max_path_len path_len || path_hash_size == 0))
    then false
    else if ltb 3 path_hash_size || not (path_len % path_hash_size == 0)
    then false
    else not (u8 (path_len / path_hash_size) % 2 == 0)

unfoldable pub validate_raw_data : Option (List ℕ) → ℕ → Option (List ℕ) → ℕ → Bool
validate_raw_data path path_len payload len =
    if is_null payload || not (is_sized len payload_max_len)
    then false
    else validate_path path path_len false && not (path_len == out_path_unknown)

abbrev pub first_of : Option (List ℕ) → ℕ
first_of none = 0
first_of (some bytes) = get_or bytes 0 0

unfoldable pub validate_control_data : Option (List ℕ) → ℕ → Bool
validate_control_data payload len =
    not (is_null payload)
    && (is_sized len payload_max_len && not (bit_and (first_of payload) 0x80 == 0))

unfoldable pub validate_node_binary : Option (List ℕ) → Option (List ℕ) → ℕ → Bool
validate_node_binary public_key payload len =
    not (is_null public_key)
    && (not (is_null payload)
        && (is_sized len max_service_request_len && datagram_plaintext_fits (4 + len)))

unfoldable pub validate_node_anon_data : Option (List ℕ) → Option (List ℕ) → ℕ → Bool
validate_node_anon_data public_key payload len =
    not (is_null public_key) && (not (is_null payload) && is_sized len max_anon_data_len)

abbrev pub fits_path : ℕ → Option (ℕ × ℕ) → ℕ → Bool
fits_path path_len none len = false
fits_path path_len (some (path_bytes, path_hash_size)) len =
    leb path_bytes max_path_len && path_return_extra_fits path_len (4 + len)

unfoldable pub validate_node_binary_response : Option BinaryRequest → Option (List ℕ) → ℕ → Bool
validate_node_binary_response none payload len = false
validate_node_binary_response (some request) payload len =
    if (is_null payload && ltb 0 len)
      || (ltb max_service_response_len len || not (datagram_plaintext_fits (4 + len)))
    then false
    else if request.tag == 0 || ltb max_service_request_len request.payload_len
    then false
    else if request.route == 1
    then fits_path request.path_len (path_len_decode request.path_len) len
    else true

unfoldable pub validate_node_discover : ℕ → Bool
validate_node_discover filter = not (filter == 0)
