-- ===== src/Runtime/Replies.antt =====
-- The answers that `src/runtime/meshcore_runtime_receive.c` and
-- `src/runtime/meshcore_runtime_control.c` send. No pointer is NULL.
use meshcore.Prelude.{
  bytes32, word32, ℕ, zero, suc, ◌+◌, ◌-◌, ◌*◌, ◌||◌, not, Option, none, some, List, [], ◌∷◌, ◌++◌,
  length, take, drop, get_or, bit_and, bit_or, u8, u32, ◌<<<◌, ltb, leb, ◌==◌, if◌then◌else◌,
}
use meshcore.Crypto.{sha256_two_fragments}
use meshcore.Packet.{
  Packet, max_path_len, payload_type_ack, payload_type_response, get_path_hash_size,
  get_path_hash_count, has_snr_flag, is_route_flood,
}
use meshcore.Identity.{Identity, public_key_size, init_from_pub_key}
use meshcore.Dispatcher.{Dispatcher, packet_at}
use meshcore.Mesh.{MeshHost, Peer, snr_transport_code0, snr_transport_code1, own_identity}
use meshcore.Mesh.Create.{
  create_ack_data, create_multi_ack_data, create_path_return_by_identity, create_datagram,
  create_control_data,
}
use meshcore.Mesh.Send.{send_flood_by_transport_codes, send_zero_hop, send_direct}
use meshcore.Runtime.{path_len_encode, last_bytes}
use meshcore.Runtime.Pending.{append_snr_with_trunc, key_prefix_bytes}
use meshcore.Runtime.Publish.{path_extra_type_snr}
use meshcore.Runtime.Local.{
  RuntimeHost, NodeIdentity, role_to_advert_type, local_path_hash_size_get, peer_path_get,
  flood_made, direct_made, send_to_peer,
}

abbrev pub txt_ack_delay_ms : ℕ
txt_ack_delay_ms = 200

abbrev pub server_response_delay_ms : ℕ
server_response_delay_ms = 300

abbrev pub max_telemetry_len : ℕ
max_telemetry_len = 163

abbrev pub type_plain : ℕ
type_plain = 0

abbrev pub type_signed_plain : ℕ
type_signed_plain = 2

-- The loop over the hops of a forward path: all but the last byte of each.
unfoldable pub hashes_of : ℕ → ℕ → List ℕ → List ℕ
hashes_of zero tuple_size path = []
hashes_of (suc hops) tuple_size path =
    take (tuple_size - 1) path ++ hashes_of hops tuple_size (drop tuple_size path)

-- The hashes and the ratios, for arrays of 64.
unfoldable pub build_forward_path_snrs : Packet → Option (List ℕ × List ℕ)
build_forward_path_snrs packet =
    let tuple_size = get_path_hash_size (some packet) in
    let hops = get_path_hash_count (some packet) in
    if not (has_snr_flag (some packet))
    then none
    else if ltb tuple_size 2 || tuple_size == 4
    then none
    else if ltb max_path_len (hops * tuple_size) || ltb max_path_len (hops * (tuple_size - 1))
    then none
    else some (hashes_of hops tuple_size packet.path, last_bytes hops 0 tuple_size packet.path)

-- One acknowledgement in advance, and the delay of the next.
unfoldable pub sent_before : MeshHost → Option ℕ × Dispatcher → List ℕ → ℕ → ℕ → Dispatcher × ℕ
sent_before h (none, d) path path_len delay_ms = (d, delay_ms)
sent_before h (some p, d) path path_len delay_ms =
    (send_direct h d (some p) (some path) path_len delay_ms, delay_ms + 300)

abbrev pub extra_ack : MeshHost → Dispatcher → List ℕ → List ℕ → ℕ → Dispatcher × ℕ
extra_ack h d ack path path_len =
    if ltb 0 (h.extra_ack_transmit_count d)
    then sent_before h (create_multi_ack_data d (some ack) (length ack) 1) path path_len
        txt_ack_delay_ms
    else (d, txt_ack_delay_ms)

unfoldable pub ack_by_path :
    MeshHost → RuntimeHost → Dispatcher → List ℕ → Option (List ℕ × ℕ) → Dispatcher
ack_by_path h rh d ack none =
    flood_made h rh (create_ack_data d (some ack) (length ack)) txt_ack_delay_ms
ack_by_path h rh d ack (some (path, path_len)) =
    let (d1, delay_ms) = extra_ack h d ack path path_len in
    direct_made h (create_ack_data d1 (some ack) (length ack)) path path_len delay_ms

unfoldable pub send_ack_direct : MeshHost → RuntimeHost → Dispatcher → Peer → List ℕ → Dispatcher
send_ack_direct h rh d peer ack = ack_by_path h rh d ack (peer_path_get rh d peer.public_key)

abbrev pub identity_of : Peer → Identity
identity_of peer = init_from_pub_key peer.public_key

unfoldable pub send_ack_or_path_return :
    MeshHost → RuntimeHost → Dispatcher → Peer → Packet → List ℕ → Dispatcher
send_ack_or_path_return h rh d peer packet ack =
    if is_route_flood (some packet)
    then flood_made h rh
        (create_path_return_by_identity h d (identity_of peer) peer.secret (some packet.path)
          (u8 packet.path_len) payload_type_ack (some ack) (length ack))
        txt_ack_delay_ms
    else send_ack_direct h rh d peer ack

-- The first four bytes of the acknowledgement of a text that ends at `text_end`.
unfoldable pub ack_hash : RuntimeHost → ℕ → List ℕ → List ℕ → List ℕ
ack_hash rh text_end bytes public_key =
    sha256_two_fragments rh.fragments 4 (take text_end bytes) (take public_key_size public_key)

-- `none` is a text that is not acknowledged.
unfoldable pub ack_of :
    MeshHost → RuntimeHost → Dispatcher → Peer → ℕ → List ℕ → ℕ → Option (List ℕ)
ack_of h rh d peer flags bytes text_end =
    let attempt : ℕ =
      if ltb (text_end + 1) (length bytes) then get_or bytes (text_end + 1) 0 else 0 in
    if leb text_end 4
    then none
    else if flags == type_plain
    then some (ack_hash rh text_end bytes peer.public_key ++ (attempt ∷ take 1 (h.random d 1)))
    else if flags == type_signed_plain
    then some (ack_hash rh text_end bytes (own_identity d).pub_key)
    else none

abbrev pub ack_sent :
    MeshHost → RuntimeHost → Dispatcher → Peer → Packet → Option (List ℕ) → Dispatcher
ack_sent h rh d peer packet none = d
ack_sent h rh d peer packet (some ack) = send_ack_or_path_return h rh d peer packet ack

unfoldable pub handle_text_follow_up :
    MeshHost → RuntimeHost → Dispatcher → Peer → Packet → ℕ → List ℕ → ℕ → Dispatcher
handle_text_follow_up h rh d peer packet flags bytes text_end =
    ack_sent h rh d peer packet (ack_of h rh d peer flags bytes text_end)

-- The answer to a request for a path: with the ratios of the way here where the packet collected
-- them.
unfoldable pub plain_path_return : MeshHost → RuntimeHost → Dispatcher → Peer → Packet → Dispatcher
plain_path_return h rh d peer packet =
    flood_made h rh
      (create_path_return_by_identity h d (identity_of peer) peer.secret (some packet.path)
        (u8 packet.path_len) 0 none 0)
      server_response_delay_ms

abbrev pub coded_made : MeshHost → RuntimeHost → Option ℕ × Dispatcher → Dispatcher
coded_made h rh (none, d) = d
coded_made h rh (some p, d) =
    send_flood_by_transport_codes h d (some p) (some (snr_transport_code0, snr_transport_code1))
      server_response_delay_ms (local_path_hash_size_get rh d)

unfoldable pub snr_path_return :
    MeshHost → RuntimeHost → Dispatcher → Peer → Packet → List ℕ → List ℕ → Option ℕ → Dispatcher
snr_path_return h rh d peer packet hashes snrs none = plain_path_return h rh d peer packet
snr_path_return h rh d peer packet hashes snrs (some path_len) =
    let all_snrs = append_snr_with_trunc snrs packet.snr_q4 in
    let extra = length all_snrs ∷ all_snrs in
    coded_made h rh (
      create_path_return_by_identity h d (identity_of peer) peer.secret (some hashes) path_len
        path_extra_type_snr (some extra) (length extra))

abbrev pub path_return_by :
    MeshHost → RuntimeHost → Dispatcher → Peer → Packet → Option (List ℕ × List ℕ) → Dispatcher
path_return_by h rh d peer packet none = plain_path_return h rh d peer packet
path_return_by h rh d peer packet (some (hashes, snrs)) =
    snr_path_return h rh d peer packet hashes snrs
      (path_len_encode (u8 (get_path_hash_size (some packet) - 1)) (length hashes))

unfoldable pub handle_discover_path_request :
    MeshHost → RuntimeHost → Dispatcher → Peer → Packet → Dispatcher
handle_discover_path_request h rh d peer packet =
    if is_route_flood (some packet)
    then path_return_by h rh d peer packet (build_forward_path_snrs packet)
    else d

unfoldable pub telemetry_sent :
    MeshHost → RuntimeHost → Dispatcher → Peer → Packet → ℕ → Option (List ℕ) → Dispatcher
telemetry_sent h rh d peer packet tag none = d
telemetry_sent h rh d peer packet tag (some payload) =
    let response = bytes32 tag ++ payload in
    let returned =
      create_path_return_by_identity h d (identity_of peer) peer.secret (some packet.path)
        (u8 packet.path_len) payload_type_response (some response) (length response) in
    let made =
      create_datagram h d payload_type_response (identity_of peer) peer.secret (some response)
        (length response) in
    if ltb max_telemetry_len (length payload)
    then d
    else if is_route_flood (some packet)
    then flood_made h rh returned server_response_delay_ms
    else send_to_peer h rh made peer.public_key server_response_delay_ms

unfoldable pub handle_telemetry_request :
    MeshHost → RuntimeHost → Dispatcher → Peer → Packet → ℕ → ℕ → Dispatcher
handle_telemetry_request h rh d peer packet tag permission_mask =
    telemetry_sent h rh d peer packet tag
      (rh.telemetry d (take key_prefix_bytes peer.public_key) permission_mask)

-- The reply to a request for nodes, sent after four times the delay of a packet that is sent on.
abbrev pub reply_sent : MeshHost → Option ℕ × Dispatcher → Dispatcher
reply_sent h (none, d) = d
reply_sent h (some p, d) =
    send_zero_hop h d (some p) (u32 (h.retransmit_delay d (packet_at d p) * 4))

unfoldable pub discover_reply :
    MeshHost → Dispatcher → Packet → Option ℕ → Option NodeIdentity → Dispatcher
discover_reply h d packet none identity = d
discover_reply h d packet (some last_modify) none = d
discover_reply h d packet (some last_modify) (some identity) =
    let advert_type = role_to_advert_type identity.role in
    let first = get_or packet.payload 0 0 in
    let filter = get_or packet.payload 1 0 in
    let since : ℕ = if leb 10 packet.payload_len then word32 packet.payload 6 else 0 in
    let bytes =
      bit_or 0x90 advert_type ∷ packet.snr_q4 ∷ take 4 (drop 2 packet.payload)
      ++ take public_key_size identity.public_key in
    let len : ℕ = if bit_and first 0x01 == 0 then 6 + public_key_size else 6 + 8 in
    if advert_type == 0
    then d
    else if bit_and filter (1 <<< advert_type) == 0 || ltb last_modify since
    then d
    else reply_sent h (create_control_data d (some bytes) len)

unfoldable pub handle_control_discover_request :
    MeshHost → RuntimeHost → Dispatcher → Packet → Dispatcher
handle_control_discover_request h rh d packet =
    if ltb packet.payload_len 6 || not (bit_and (get_or packet.payload 0 0) 0xF0 == 0x80)
    then d
    else discover_reply h d packet (rh.last_modify d) (rh.identity d)
