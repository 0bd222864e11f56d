-- ===== src/Runtime/Receive.antt =====
-- `src/runtime/meshcore_runtime_receive.c`: what the runtime does with what the mesh received. A
-- handler of a runtime that is not initialized asks the host's, which is the `react` of the host.
use meshcore.Prelude.{
  word32, ℕ, ◌+◌, ◌-◌, Bool, true, false, ◌&&◌, ◌||◌, not, some, List, [], ◌∷◌, ◌++◌, length, drop,
  get_or, replicate, bit_and, ◌>>>◌, ltb, leb, ◌==◌, if◌then◌else◌,
}
use meshcore.Context.{Told, Requests, peer_seen, chat, repeater, room, sensor}
use meshcore.Packet.{
  Packet, payload_max_len, payload_type_txt_msg, payload_type_req, payload_type_response,
  payload_type_ack, payload_type_grp_txt, payload_type_grp_data, has_snr_flag, has_transport_codes,
  get_path_hash_count,
}
use meshcore.Advert.{Parser, parser_init, has_name, get_type}
use meshcore.Identity.{Identity}
use meshcore.Dispatcher.{Dispatcher, packet_at}
use meshcore.Mesh.{
  MeshHost, Channel, Peer, Event, trace_recv, control_data_recv, raw_data_recv, ack_recv,
  peer_path_recv, peer_data_recv, anon_data_recv, group_data_recv, advert_recv,
}
use meshcore.Runtime.Pending.{
  expected_ack_handle, pending_discovery_handle, pending_trace_handle, pending_telemetry_handle,
  pending_binary_handle,
}
use meshcore.Runtime.Local.{
  RuntimeHost, local_role_is, notify, requests_of, settle, sync_local_identity, now_seconds,
}
use meshcore.Runtime.Publish.{
  split_at_byte, text_message_publish, channel_text_publish, channel_data_publish,
  control_data_publish, raw_data_publish, node_discover_publish, binary_request_publish,
  peer_path_publish, advert_publish,
}
use meshcore.Runtime.Replies.{
  type_plain, type_signed_plain, handle_text_follow_up, handle_discover_path_request,
  handle_telemetry_request, handle_control_discover_request,
}

abbrev pub req_type_get_telemetry_data : ℕ
req_type_get_telemetry_data = 0x03

abbrev pub req_type_discover_path_snr : ℕ
req_type_discover_path_snr = 0x07

-- The three permissions that there are.
unfoldable pub telemetry_wire_decode : ℕ → ℕ
telemetry_wire_decode wire_mask = bit_and (255 - wire_mask) 0x07

unfoldable pub local_role_answers_telemetry : RuntimeHost → Dispatcher → Bool
local_role_answers_telemetry rh d =
    local_role_is rh d chat
    || (local_role_is rh d repeater || (local_role_is rh d room || local_role_is rh d sensor))

abbrev pub peer_seen_update : Peer → Packet → Dispatcher → Dispatcher
peer_seen_update peer packet d = notify (peer_seen peer.public_key packet.snr_q4 ∷ []) d

-- The text from `text_off` on: up to its terminator, or all there is.
unfoldable pub on_text_at :
    MeshHost → RuntimeHost → Dispatcher → Peer → Packet → ℕ → List ℕ → ℕ → Dispatcher
on_text_at h rh d peer packet flags bytes text_off =
    let text = (split_at_byte 0 (drop text_off bytes)).0 in
    handle_text_follow_up h rh (notify (text_message_publish peer packet (word32 bytes 0) text) d)
      peer packet flags bytes (text_off + length text)

abbrev pub on_signed_text :
    MeshHost → RuntimeHost → Bool × Dispatcher → Peer → Packet → List ℕ → Dispatcher
on_signed_text h rh (false, d) peer packet bytes = d
on_signed_text h rh (true, d) peer packet bytes =
    on_text_at h rh d peer packet type_signed_plain bytes 9

unfoldable pub on_text : MeshHost → RuntimeHost → Dispatcher → Peer → Packet → List ℕ → Dispatcher
on_text h rh d peer packet bytes =
    let flags = get_or bytes 4 0 >>> 2 in
    if flags == type_signed_plain
    then if leb (length bytes) 9
      then d
      else on_signed_text h rh (sync_local_identity rh d) peer packet bytes
    else if flags == type_plain
    then on_text_at h rh d peer packet flags bytes 5
    else d

unfoldable pub on_request :
    MeshHost → RuntimeHost → Dispatcher → Peer → Packet → List ℕ → Dispatcher
on_request h rh d peer packet bytes =
    let timestamp = word32 bytes 0 in
    let req_type = get_or bytes 4 0 in
    let wants_path =
      local_role_is rh d chat
      && (req_type == req_type_discover_path_snr
          || req_type == req_type_get_telemetry_data && has_snr_flag (some packet)) in
    let wants_telemetry =
      req_type == req_type_get_telemetry_data && local_role_answers_telemetry rh d in
    if ltb 5 (length bytes) && wants_path
    then handle_discover_path_request h rh d peer packet
    else if ltb 5 (length bytes) && wants_telemetry
    then handle_telemetry_request h rh d peer packet timestamp
        (telemetry_wire_decode (get_or bytes 5 0))
    else notify (binary_request_publish peer packet timestamp (drop 4 bytes)) d

-- An answer is tried as telemetry first.
unfoldable pub response_settled :
    RuntimeHost → Dispatcher → Peer → List ℕ → Bool × List Told × Requests
response_settled rh d peer bytes =
    let now = now_seconds rh d in
    let as_telemetry =
      pending_telemetry_handle (requests_of d) peer.public_key now bytes (length bytes) in
    if as_telemetry.0
    then as_telemetry
    else pending_binary_handle (requests_of d) peer.public_key now bytes (length bytes)

unfoldable pub on_peer_data_recv :
    MeshHost → RuntimeHost → Dispatcher → Peer → Packet → ℕ → List ℕ → Dispatcher
on_peer_data_recv h rh d peer packet type bytes =
    let len = length bytes in
    peer_seen_update peer packet (
      if local_role_is rh d chat && (type == payload_type_txt_msg && ltb 5 len)
      then on_text h rh d peer packet bytes
      else if type == payload_type_req && ltb 4 len
      then on_request h rh d peer packet bytes
      else if type == payload_type_response && leb 4 len
      then settle (response_settled rh d peer bytes) d
      else d)

-- What a PATH text brings besides the path.
unfoldable pub on_path_extra : RuntimeHost → Dispatcher → Peer → ℕ → List ℕ → Dispatcher
on_path_extra rh d peer extra_type extra =
    if local_role_is rh d chat && (extra_type == payload_type_ack && leb 4 (length extra))
    then settle (expected_ack_handle rh.long_bits (rh.millis d) (requests_of d) (word32 extra 0)) d
    else if local_role_is rh d chat && (extra_type == payload_type_response && leb 4 (length extra))
    then settle (response_settled rh d peer extra) d
    else d

unfoldable pub on_peer_path_recv :
    RuntimeHost → Dispatcher → Peer → Packet → List ℕ → ℕ → ℕ → List ℕ → Bool × Dispatcher
on_peer_path_recv rh d peer packet path path_len extra_type extra =
    let answered =
      pending_discovery_handle (requests_of d) peer.public_key (some packet) path path_len
        extra_type extra (length extra) in
    let d1 = on_path_extra rh d peer extra_type extra in
    if answered.0 then (true, settle answered d) else (
      local_role_is rh d1 chat,
      notify (peer_path_publish rh d1 packet peer path path_len extra_type extra) d1,
    )

unfoldable pub advert_is_share : Packet → Bool
advert_is_share packet =
    has_transport_codes (some packet)
    && (packet.transport_code0 == 0 && packet.transport_code1 == 0)

-- The fields of the parser before it is set up do not matter.
abbrev pub fresh_parser : Parser
fresh_parser = record {
  flags = 0;
  valid = false;
  name = replicate 32 0;
  lat = 0;
  lon = 0;
  feat1 = 0;
  feat2 = 0;
}

unfoldable pub on_advert_recv :
    RuntimeHost → Dispatcher → Packet → Identity → ℕ → List ℕ → Dispatcher
on_advert_recv rh d packet identity timestamp app_data =
    let parser = parser_init fresh_parser (some app_data) (length app_data) in
    let told = notify (advert_publish packet identity timestamp parser) d in
    if length app_data == 0 || ltb 255 (length app_data)
    then d
    else if not parser.valid
    then d
    else if local_role_is rh d chat
    then if has_name parser then told else d
    else if local_role_is rh d repeater
        && (packet.path_len == 0 && (not (advert_is_share packet) && get_type parser == 2))
    then told
    else d

abbrev pub holds_bytes : Packet → Bool
holds_bytes packet = not (packet.payload_len == 0 || ltb payload_max_len packet.payload_len)

-- The packet is told as it was received.
unfoldable pub on_control_data_recv : MeshHost → RuntimeHost → Dispatcher → Packet → Dispatcher
on_control_data_recv h rh d packet =
    if holds_bytes packet
    then notify (node_discover_publish packet ++ control_data_publish packet)
        (handle_control_discover_request h rh d packet)
    else d

unfoldable pub on_raw_data_recv : Dispatcher → Packet → Dispatcher
on_raw_data_recv d packet = if holds_bytes packet then notify (raw_data_publish packet) d else d

unfoldable pub on_group_data_recv :
    RuntimeHost → Dispatcher → Packet → ℕ → Channel → List ℕ → Dispatcher
on_group_data_recv rh d packet type channel bytes =
    let text = (split_at_byte 0 (drop 5 bytes)).0 in
    if not (local_role_is rh d chat)
    then d
    else if type == payload_type_grp_txt && (ltb 5 (length bytes) && get_or bytes 4 0 >>> 2 == 0)
    then if length text == 0
      then d
      else notify (channel_text_publish channel packet (word32 bytes 0) text) d
    else if type == payload_type_grp_data && leb 3 (length bytes)
    then notify (channel_data_publish channel packet bytes) d
    else d

abbrev pub on_trace_recv : Dispatcher → Packet → ℕ → ℕ → List ℕ → ℕ → Dispatcher
on_trace_recv d packet tag flags path_snrs path_len =
    settle
      (pending_trace_handle (requests_of d) tag flags path_snrs (get_path_hash_count (some packet))
        path_len packet.snr_q4)
      d

-- The handlers by the event; no handler of the runtime is set for anonymous requests.
unfoldable pub handled : MeshHost → RuntimeHost → Event → Dispatcher → Bool × Dispatcher
handled h rh (trace_recv p tag auth_code flags path_snrs path_hashes path_len) d =
    (false, on_trace_recv d (packet_at d p) tag flags path_snrs path_len)
handled h rh (control_data_recv p) d = (false, on_control_data_recv h rh d (packet_at d p))
handled h rh (raw_data_recv p) d = (false, on_raw_data_recv d (packet_at d p))
handled h rh (ack_recv packet ack_crc) d =
    (false, settle (expected_ack_handle rh.long_bits (rh.millis d) (requests_of d) ack_crc) d)
handled h rh (peer_path_recv p peer path path_len extra_type extra) d =
    on_peer_path_recv rh d peer (packet_at d p) path path_len extra_type extra
handled h rh (peer_data_recv p type peer bytes) d =
    (false, on_peer_data_recv h rh d peer (packet_at d p) type bytes)
handled h rh (anon_data_recv p secret sender bytes) d =
    h.react (anon_data_recv p secret sender bytes) d
handled h rh (group_data_recv p type channel bytes) d =
    (false, on_group_data_recv rh d (packet_at d p) type channel bytes)
handled h rh (advert_recv p identity timestamp app_data) d =
    (false, on_advert_recv rh d (packet_at d p) identity timestamp app_data)

unfoldable pub on_event : MeshHost → RuntimeHost → Event → Dispatcher → Bool × Dispatcher
on_event h rh e d = if d.owner_mesh.runtime.initialized then handled h rh e d else h.react e d

-- The mesh with the runtime as its handler.
abbrev pub with_runtime : MeshHost → RuntimeHost → MeshHost
with_runtime h rh = record h { react = λ e d. on_event h rh e d }
