-- ===== src/Mesh/Create.antt =====
-- The operations of `src/core/meshcore_mesh.c` that make a packet. A pointer argument that may be
-- NULL is an `Option`; the array behind it has the length that is passed with it, or more.
use meshcore.Prelude.{
  bytes32, ℕ, ◌+◌, ◌-◌, ◌*◌, Bool, false, ◌||◌, not, Option, none, some, List, [], ◌∷◌, ◌++◌, take,
  length, overwrite, bit_and, bit_or, u8, u16, ◌<<<◌, ◌>>>◌, ltb, leb, ◌==◌, if◌then◌else◌, pos,
  negsuc,
}
use meshcore.Packet.{
  Packet, payload_max_len, payload_type_req, payload_type_response, payload_type_txt_msg,
  payload_type_ack, payload_type_advert, payload_type_grp_txt, payload_type_grp_data,
  payload_type_anon_req, payload_type_path, payload_type_trace, payload_type_multipart,
  payload_type_control, payload_type_raw_custom,
}
use meshcore.Cipher.{Output, encrypt_then_mac, mac_size, block_size}
use meshcore.Identity.{
  Identity, LocalIdentity, public_key_size, channel_hash_bytes, copy_hash_to, sign,
}
use meshcore.Dispatcher.{Dispatcher, packet_at, obtain_new_packet, release_packet}
use meshcore.Mesh.{MeshHost, Channel, write_packet, own_identity}

abbrev pub max_advert_data_size : ℕ
max_advert_data_size = 32

abbrev pub max_combined_path : ℕ
max_combined_path = payload_max_len - mac_size - block_size

-- A NULL pointer with a length.
abbrev pub is_missing : Option (List ℕ) → ℕ → Bool
is_missing none len = ltb 0 len
is_missing (some bytes) len = false

abbrev pub bytes_of : Option (List ℕ) → ℕ → List ℕ
bytes_of none len = []
bytes_of (some bytes) len = take len bytes

-- A packet of a type, with its payload stored from the start of the array.
unfoldable pub with_payload : ℕ → List ℕ → ℕ → Packet → Packet
with_payload type bytes len p = record p {
  header = u8 (type <<< 2);
  payload = overwrite p.payload bytes;
  payload_len = u16 len;
}

-- The packet that was allocated is written.
unfoldable pub stored : Option ℕ × Dispatcher → (Packet → Packet) → Option ℕ × Dispatcher
stored (none, d) f = (none, d)
stored (some p, d) f = (some p, write_packet d p (f (packet_at d p)))

-- The encrypted text goes behind `front`; where the encryption failed, the packet is given back.
unfoldable pub sealed : Option ℕ × Dispatcher → ℕ → List ℕ → Output → Option ℕ × Dispatcher
sealed (none, d) type front output = (none, d)
sealed (some p, d) type front (negsuc n, text) =
    let packet = packet_at d p in
    let p1 = record packet { header = u8 (type <<< 2); payload = overwrite packet.payload front } in
    (none, release_packet (write_packet d p p1) (some p))
sealed (some p, d) type front (pos enc_len, text) = (
  some p,
  write_packet d p (with_payload type (front ++ text) (length front + enc_len) (packet_at d p)),
)

unfoldable pub create_advert :
    MeshHost → Dispatcher → LocalIdentity → Option (List ℕ) → ℕ → Option ℕ × Dispatcher
create_advert h d identity app_data app_data_len =
    let obtained = obtain_new_packet d in
    let app = bytes_of app_data app_data_len in
    let key = identity.identity.pub_key in
    let emitted_timestamp = bytes32 (h.rtc_time obtained.1) in
    let message = key ++ (emitted_timestamp ++ app) in
    let signature = sign h.curve identity message (pos (length message)) in
    let payload_len = public_key_size + 4 + 64 + app_data_len in
    if ltb max_advert_data_size app_data_len || is_missing app_data app_data_len
    then (none, d)
    else stored obtained (
        with_payload payload_type_advert (key ++ (emitted_timestamp ++ (signature ++ app)))
          payload_len)

unfoldable pub datagram_plaintext_fits : ℕ → Bool
datagram_plaintext_fits len = leb len (payload_max_len - mac_size - block_size + 1)

unfoldable pub create_datagram :
    MeshHost → Dispatcher → ℕ → Identity → List ℕ → Option (List ℕ) → ℕ → Option ℕ × Dispatcher
create_datagram h d type dest secret bytes len =
    let front = (copy_hash_to dest).1 ++ (copy_hash_to (own_identity d)).1 in
    let output = encrypt_then_mac h.cipher secret (bytes_of bytes len) (pos len) in
    if is_missing bytes len
    then (none, d)
    else if not
        (type == payload_type_txt_msg || type == payload_type_req || type == payload_type_response)
    then (none, d)
    else if not (datagram_plaintext_fits len)
    then (none, d)
    else sealed (obtain_new_packet d) type front output

unfoldable pub create_anon_datagram :
    MeshHost
    → Dispatcher
    → ℕ
    → LocalIdentity
    → Identity
    → List ℕ
    → Option (List ℕ)
    → ℕ
    → Option ℕ × Dispatcher
create_anon_datagram h d type sender dest secret bytes data_len =
    let front = (copy_hash_to dest).1 ++ take public_key_size sender.identity.pub_key in
    let output = encrypt_then_mac h.cipher secret (bytes_of bytes data_len) (pos data_len) in
    if is_missing bytes data_len
    then (none, d)
    else if not (type == payload_type_anon_req)
    then (none, d)
    else if ltb (payload_max_len - 1 - public_key_size - block_size + 1) data_len
    then (none, d)
    else sealed (obtain_new_packet d) type front output

unfoldable pub create_group_datagram :
    MeshHost → Dispatcher → ℕ → Channel → Option (List ℕ) → ℕ → Option ℕ × Dispatcher
create_group_datagram h d type channel bytes data_len =
    let output =
      encrypt_then_mac h.cipher channel.secret (bytes_of bytes data_len) (pos data_len) in
    if is_missing bytes data_len
    then (none, d)
    else if not (type == payload_type_grp_txt || type == payload_type_grp_data)
    then (none, d)
    else if ltb (payload_max_len - 1 - block_size + 1) data_len
    then (none, d)
    else sealed (obtain_new_packet d) type (take channel_hash_bytes channel.hash) output

unfoldable pub path_return_extra_fits : ℕ → ℕ → Bool
path_return_extra_fits path_len extra_len =
    let path_bytes = u8 ((path_len >>> 6) + 1) * bit_and path_len 63 in
    if ltb (max_combined_path - 5) path_bytes
    then false
    else leb extra_len (max_combined_path - 5 - path_bytes)

unfoldable pub ack_filled : Option ℕ × Dispatcher → Option (List ℕ) → ℕ → Option ℕ × Dispatcher
ack_filled (none, d) ack ack_len = (none, d)
ack_filled (some p, d) ack ack_len =
    if is_missing ack ack_len || ltb payload_max_len ack_len
    then (none, release_packet d (some p))
    else stored (some p, d) (with_payload payload_type_ack (bytes_of ack ack_len) ack_len)

unfoldable pub create_ack_data : Dispatcher → Option (List ℕ) → ℕ → Option ℕ × Dispatcher
create_ack_data d ack ack_len = ack_filled (obtain_new_packet d) ack ack_len

unfoldable pub create_ack : Dispatcher → ℕ → Option ℕ × Dispatcher
create_ack d ack_crc = create_ack_data d (some (bytes32 ack_crc)) 4

unfoldable pub multi_ack_filled :
    Option ℕ × Dispatcher → Option (List ℕ) → ℕ → ℕ → Option ℕ × Dispatcher
multi_ack_filled (none, d) ack ack_len remaining = (none, d)
multi_ack_filled (some p, d) ack ack_len remaining =
    let first = u8 (bit_or (remaining <<< 4) payload_type_ack) in
    if is_missing ack ack_len || ltb (payload_max_len - 1) ack_len
    then (none, release_packet d (some p))
    else stored (some p, d)
        (with_payload payload_type_multipart (first ∷ bytes_of ack ack_len) (1 + ack_len))

unfoldable pub create_multi_ack_data : Dispatcher → Option (List ℕ) → ℕ → ℕ → Option ℕ × Dispatcher
create_multi_ack_data d ack ack_len remaining =
    multi_ack_filled (obtain_new_packet d) ack ack_len remaining

unfoldable pub create_multi_ack : Dispatcher → ℕ → ℕ → Option ℕ × Dispatcher
create_multi_ack d ack_crc remaining = create_multi_ack_data d (some (bytes32 ack_crc)) 4 remaining

-- What is encrypted: the path, then the extra data, or four random bytes that make the packet's
-- hash unique.
unfoldable pub path_return_text : MeshHost → Dispatcher → ℕ → List ℕ → ℕ → List ℕ → ℕ → List ℕ
path_return_text h d path_len path_bytes extra_type extra extra_len =
    path_len
    ∷ (path_bytes ++ (if ltb 0 extra_len then extra_type ∷ extra else 0xFF ∷ take 4 (h.random d 4)))

unfoldable pub create_path_return_by_dest_hash :
    MeshHost
    → Dispatcher
    → List ℕ
    → List ℕ
    → Option (List ℕ)
    → ℕ
    → ℕ
    → Option (List ℕ)
    → ℕ
    → Option ℕ × Dispatcher
create_path_return_by_dest_hash h d dest_hash secret path path_len extra_type extra extra_len =
    let obtained = obtain_new_packet d in
    let path_bytes = u8 ((path_len >>> 6) + 1) * bit_and path_len 63 in
    let front = take channel_hash_bytes dest_hash ++ (copy_hash_to (own_identity d)).1 in
    let bytes =
      path_return_text h obtained.1 path_len (bytes_of path path_bytes) extra_type
        (bytes_of extra extra_len) extra_len in
    let data_len = 1 + path_bytes + (if ltb 0 extra_len then 1 + extra_len else 5) in
    if is_missing path path_bytes || is_missing extra extra_len
    then (none, d)
    else if not (path_return_extra_fits path_len extra_len)
    then (none, d)
    else sealed obtained payload_type_path front
        (encrypt_then_mac h.cipher secret bytes (pos data_len))

unfoldable pub create_path_return_by_identity :
    MeshHost
    → Dispatcher
    → Identity
    → List ℕ
    → Option (List ℕ)
    → ℕ
    → ℕ
    → Option (List ℕ)
    → ℕ
    → Option ℕ × Dispatcher
create_path_return_by_identity h d dest secret path path_len extra_type extra extra_len =
    create_path_return_by_dest_hash h d (copy_hash_to dest).1 secret path path_len extra_type extra
      extra_len

unfoldable pub create_raw_data : Dispatcher → Option (List ℕ) → ℕ → Option ℕ × Dispatcher
create_raw_data d bytes len =
    if is_missing bytes len || ltb payload_max_len len
    then (none, d)
    else stored (obtain_new_packet d)
        (with_payload payload_type_raw_custom (bytes_of bytes len) len)

unfoldable pub create_trace : Dispatcher → ℕ → ℕ → ℕ → Option ℕ × Dispatcher
create_trace d tag auth_code flags =
    stored (obtain_new_packet d)
      (with_payload payload_type_trace (bytes32 tag ++ (bytes32 auth_code ++ (flags ∷ []))) 9)

unfoldable pub create_control_data : Dispatcher → Option (List ℕ) → ℕ → Option ℕ × Dispatcher
create_control_data d bytes len =
    if is_missing bytes len || ltb payload_max_len len
    then (none, d)
    else stored (obtain_new_packet d) (with_payload payload_type_control (bytes_of bytes len) len)
