-- ===== src/Runtime/Publish.antt =====
-- `src/runtime/meshcore_runtime_event_publish.c`: what the host is told of a packet. No pointer is
-- NULL, since the handlers of `src/runtime/meshcore_runtime_receive.c` test theirs; a text is the bytes
-- before its length. The ratio that the code divides by 4 is left in quarters.
use meshcore.Prelude.{
  word16, word32, ℕ, ◌-◌, min, Bool, true, ◌&&◌, ◌||◌, not, Option, none, some, List, [], ◌∷◌,
  length, take, drop, get_or, bit_and, bit_or, u8, ltb, leb, ◌==◌, if◌then◌else◌,
}
use meshcore.Context.{
  Role, no_role, chat, repeater, room, sensor, Told, text_message, channel_message, channel_bytes,
  control_bytes, raw_bytes, node_discovered, binary_request, peer_path_seen, advert,
}
use meshcore.Hex.{c_string}
use meshcore.Packet.{
  Packet, max_path_len, get_path_byte_len, is_route_flood, is_route_direct, payload_max_len,
}
use meshcore.Packet.Codec.{write_to}
use meshcore.Advert.{Parser, get_type, has_name, get_name, has_lat_lon}
use meshcore.Identity.{Identity, public_key_size}
use meshcore.Dispatcher.{Dispatcher}
use meshcore.Mesh.{Channel, Peer}
use meshcore.Runtime.{path_len_decode, extract_return_path_snrs}
use meshcore.Runtime.Pending.{append_snr_with_trunc, key_prefix_bytes}
use meshcore.Runtime.Local.{RuntimeHost, local_role_is, now_seconds, same_role}

abbrev pub max_message_len : ℕ
max_message_len = 160

abbrev pub max_channel_data_len : ℕ
max_channel_data_len = 165

abbrev pub max_service_request_len : ℕ
max_service_request_len = 163

abbrev pub target_prefix_bytes : ℕ
target_prefix_bytes = 4

abbrev pub name_max_len : ℕ
name_max_len = 32

abbrev pub path_extra_type_snr : ℕ
path_extra_type_snr = 0x0E

-- 0 is unspecified, 1 flood, 2 direct.
unfoldable pub message_route : Packet → ℕ
message_route packet =
    if is_route_flood (some packet) then 1 else if is_route_direct (some packet) then 2 else 0

unfoldable pub text_message_publish : Peer → Packet → ℕ → List ℕ → List Told
text_message_publish peer packet sender_timestamp text =
    let told =
      text_message (message_route packet) (take target_prefix_bytes peer.public_key)
        (take (name_max_len - 1) (c_string peer.name)) (take max_message_len text) sender_timestamp
        packet.snr_q4 in
    if length text == 0 then [] else told ∷ []

unfoldable pub packet_path_copy : Packet → List ℕ
packet_path_copy packet = take (min (get_path_byte_len (some packet)) max_path_len) packet.path

-- `memchr`: the bytes before the first `c` and, where there is one, those behind it.
unfoldable pub split_at_byte : ℕ → List ℕ → List ℕ × Option (List ℕ)
split_at_byte c [] = ([], none)
split_at_byte c (b ∷ bs) =
    let (before, behind) = split_at_byte c bs in
    if b == c then ([], some bs) else (b ∷ before, behind)

-- "unknown".
abbrev pub unknown_name : List ℕ
unknown_name = 117 ∷ 110 ∷ 107 ∷ 110 ∷ 111 ∷ 119 ∷ 110 ∷ []

abbrev pub without_space : List ℕ → List ℕ
without_space [] = []
without_space (b ∷ bs) = if b == 32 then bs else b ∷ bs

-- The name of the sender, as a text, and the payload behind the colon.
unfoldable pub name_and_payload : List ℕ → List ℕ × Option (List ℕ) → List ℕ × List ℕ
name_and_payload text (name, none) = (unknown_name, text)
name_and_payload text (name, some behind) = (
  if length name == 0 then unknown_name else c_string (take (name_max_len - 1) name),
  without_space behind,
)

unfoldable pub channel_text_publish : Channel → Packet → ℕ → List ℕ → List Told
channel_text_publish channel packet sender_timestamp text =
    let (name, payload) = name_and_payload text (split_at_byte 58 text) in
    let told =
      channel_message (message_route packet) (take target_prefix_bytes channel.secret) name
        (take max_message_len payload) sender_timestamp packet.snr_q4 in
    if length text == 0 then [] else if length payload == 0 then [] else told ∷ []

-- `bytes` are the `len` bytes at `data`.
unfoldable pub channel_data_publish : Channel → Packet → List ℕ → List Told
channel_data_publish channel packet bytes =
    let len = length bytes in
    let data_len = get_or bytes 2 0 in
    let told =
      channel_bytes channel.hash (packet_path_copy packet) (word16 bytes 0)
        (take data_len (drop 3 bytes)) packet.snr_q4 in
    if ltb len 3
    then []
    else if ltb (len - 3) data_len || ltb max_channel_data_len data_len
    then []
    else told ∷ []

abbrev pub holds_payload : Packet → Bool
holds_payload packet = not (packet.payload_len == 0 || ltb payload_max_len packet.payload_len)

unfoldable pub control_data_publish : Packet → List Told
control_data_publish packet =
    let told =
      control_bytes (packet_path_copy packet) (take packet.payload_len packet.payload)
        packet.snr_q4 in
    if holds_payload packet then told ∷ [] else []

unfoldable pub raw_data_publish : Packet → List Told
raw_data_publish packet =
    let told =
      raw_bytes (packet_path_copy packet) (take packet.payload_len packet.payload) packet.snr_q4 in
    if holds_payload packet then told ∷ [] else []

unfoldable pub role_from_advert_type : ℕ → Role
role_from_advert_type type =
    let t = bit_and type 0x0F in
    if t == 1
    then chat
    else if t == 2
    then repeater
    else if t == 3
    then room
    else if t == 4
    then sensor
    else no_role

unfoldable pub node_discover_publish : Packet → List Told
node_discover_publish packet =
    let role = role_from_advert_type (bit_and (get_or packet.payload 0 0) 0x0F) in
    let key_len = packet.payload_len - 6 in
    let told =
      node_discovered role (packet_path_copy packet)
        (take (min key_len public_key_size) (drop 6 packet.payload)) (get_or packet.payload 1 0)
        (word32 packet.payload 2) packet.snr_q4 in
    if ltb packet.payload_len 6 || not (bit_and (get_or packet.payload 0 0) 0xF0 == 0x90)
    then []
    else if same_role role no_role
    then []
    else if ltb key_len 8
    then []
    else told ∷ []

unfoldable pub binary_request_publish : Peer → Packet → ℕ → List ℕ → List Told
binary_request_publish peer packet tag payload =
    let told =
      binary_request (message_route packet) peer.public_key tag (u8 packet.path_len)
        (packet_path_copy packet) payload packet.snr_q4 in
    if length payload == 0 || (ltb max_service_request_len (length payload) || tag == 0)
    then []
    else told ∷ []

-- The ratios on the way back, with the one of the packet itself.
abbrev pub with_last : Option (List ℕ) → ℕ → List ℕ
with_last none snr_q4 = []
with_last (some snrs) snr_q4 = append_snr_with_trunc snrs snr_q4

abbrev pub path_told : Option (ℕ × ℕ) → Peer → Packet → ℕ → List ℕ → List ℕ → List ℕ → List Told
path_told none peer packet now path out back = []
path_told (some (path_byte_len, path_hash_size)) peer packet now path out back =
    peer_path_seen (take key_prefix_bytes peer.public_key) now packet.snr_q4
      (take path_byte_len path) path_hash_size out back
    ∷ []

unfoldable pub peer_path_publish :
    RuntimeHost → Dispatcher → Packet → Peer → List ℕ → ℕ → ℕ → List ℕ → List Told
peer_path_publish rh d packet peer path path_len extra_type extra =
    let extra_len = length extra in
    let out_count = min (min (get_or extra 0 0) (extra_len - 1)) max_path_len in
    let has_snrs =
      local_role_is rh d chat && (extra_type == path_extra_type_snr && leb 1 extra_len) in
    let out = take out_count (drop 1 extra) in
    let back = with_last (extract_return_path_snrs (some packet)) packet.snr_q4 in
    path_told (path_len_decode path_len) peer packet (now_seconds rh d) path
      (if has_snrs then out else []) (if has_snrs then back else [])

-- A packet that cannot be encoded, or not in 255 bytes, has no bytes.
unfoldable pub raw_advert_copy : Packet → List ℕ
raw_advert_copy packet =
    let normalized = record packet { header = bit_or (bit_and packet.header 0xFC) 1 } in
    let written = write_to (some normalized) true in
    if written.count == 0 || ltb 255 written.count then [] else take written.count written.bytes

abbrev pub out_path_of : Packet → Option (ℕ × ℕ) → Option (List ℕ × ℕ)
out_path_of packet none = none
out_path_of packet (some (path_byte_len, path_hash_size)) =
    some (take (min path_byte_len max_path_len) packet.path, path_hash_size)

unfoldable pub advert_publish : Packet → Identity → ℕ → Parser → List Told
advert_publish packet identity timestamp parser =
    let role = role_from_advert_type (get_type parser) in
    let told =
      advert role identity.pub_key timestamp
        (if has_name parser then take (name_max_len - 1) (c_string (get_name parser)) else [])
        (if has_lat_lon parser then some (parser.lat, parser.lon) else none)
        (out_path_of packet (path_len_decode (u8 packet.path_len))) (raw_advert_copy packet) in
    if not parser.valid then [] else if same_role role no_role then [] else told ∷ []
