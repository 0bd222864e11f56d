-- ===== src/Mesh/Receive.antt =====
-- `meshcore_mesh_on_recv_packet` of `src/core/meshcore_mesh.c`: what is done with a received packet.
-- Its answer is the action that the dispatcher carries out.
use meshcore.Prelude.{
  word32, ℕ, ◌+◌, ◌-◌, ◌^◌, ◌&&◌, ◌||◌, not, some, [], ◌∷◌, ◌++◌, take, drop, get_or, set, bit_and,
  u8, u16, ◌<<<◌, ltb, leb, ◌==◌, if◌then◌else◌,
}
use meshcore.Packet.{
  max_path_len, payload_type_req, payload_type_response, payload_type_txt_msg, payload_type_ack,
  payload_type_advert, payload_type_grp_txt, payload_type_grp_data, payload_type_anon_req,
  payload_type_path, payload_type_trace, payload_type_multipart, payload_type_control,
  payload_type_raw_custom, is_route_flood, is_route_direct, get_payload_type, get_path_hash_count,
  get_path_hash_size,
}
use meshcore.Identity.{is_hash_match_by_len}
use meshcore.Dispatcher.{Dispatcher, packet_at}
use meshcore.Dispatcher.Receive.{action_release}
use meshcore.Mesh.{
  MeshHost, trace_recv, control_data_recv, ack_recv, retransmit_delayed, write_packet, own_identity,
  tell, tables_has_seen, remove_self_from_path,
}
use meshcore.Mesh.Acks.{route_direct_recv_acks, forward_multipart_direct}
use meshcore.Mesh.Peers.{on_addressed}
use meshcore.Mesh.Flood.{on_ack, on_anon, on_group, on_advert, on_raw, on_multipart}

-- A TRACE packet that is for this node: the signal-to-noise ratio of its reception is appended to
-- the path array. The code gets it as `(int8_t)(snr_q4 / 4.0f * 4.0f)`, which is `snr_q4`.
unfoldable pub forward_trace : MeshHost → Dispatcher → ℕ → ℕ × Dispatcher
forward_trace h d p =
    let packet = packet_at d p in
    let (seen, d1) = tables_has_seen h d packet in
    let p1 = record packet {
      path = set packet.path packet.path_len packet.snr_q4;
      path_len = u16 (packet.path_len + 1);
    } in
    let d2 = write_packet d1 p p1 in
    if seen
    then (action_release, d1)
    else (retransmit_delayed 5 (h.direct_retransmit_delay d2 p1), d2)

-- The compared bytes may reach one past the payload, to the field that follows it.
unfoldable pub on_trace : MeshHost → Dispatcher → ℕ → ℕ × Dispatcher
on_trace h d p =
    let packet = packet_at d p in
    let flags = get_or packet.payload 8 0 in
    let path_sz = bit_and flags 0x03 in
    let len = u8 (packet.payload_len - 9) in
    let offset = u16 (packet.path_len <<< path_sz) in
    let hash = drop (9 + offset) (packet.payload ++ (packet.snr_q4 ∷ [])) in
    let event =
      trace_recv p (word32 packet.payload 0) (word32 packet.payload 4) flags packet.path
        (take len (drop 9 packet.payload)) len in
    if not (ltb packet.path_len max_path_len && leb 9 packet.payload_len)
    then (action_release, d)
    else if leb len offset
    then (action_release, tell h event d)
    else if is_hash_match_by_len (own_identity d) hash (u8 (2 ^ path_sz))
        && h.allow_packet_forward d packet
    then forward_trace h d p
    else (action_release, d)

-- This node is the next one of a direct path.
unfoldable pub forward_direct : MeshHost → Dispatcher → ℕ → ℕ → ℕ × Dispatcher
forward_direct h d p type =
    let packet = packet_at d p in
    let (seen, d1) = tables_has_seen h d packet in
    let p1 = remove_self_from_path packet in
    let d2 = write_packet d1 p p1 in
    if type == payload_type_multipart
    then forward_multipart_direct h d p
    else if seen
    then (action_release, d1)
    else if type == payload_type_ack
    then (action_release, route_direct_recv_acks h d2 p1 0)
    else (retransmit_delayed 0 (h.direct_retransmit_delay d2 p1), d2)

unfoldable pub on_direct : MeshHost → Dispatcher → ℕ → ℕ → ℕ × Dispatcher
on_direct h d p type =
    let packet = packet_at d p in
    let d1 =
      if type == payload_type_ack && leb 4 packet.payload_len
      then tell h (ack_recv packet (word32 packet.payload 0)) d
      else d in
    let now = packet_at d1 p in
    if is_hash_match_by_len (own_identity d1) now.path (get_path_hash_size (some now))
      && h.allow_packet_forward d1 now
    then forward_direct h d1 p type
    else (action_release, d1)

-- The `switch` over the payload type.
unfoldable pub on_payload : MeshHost → Dispatcher → ℕ → ℕ → ℕ × Dispatcher
on_payload h d p type =
    if type == payload_type_ack
    then on_ack h d p
    else if type == payload_type_path
        || type == payload_type_req
        || type == payload_type_response
        || type == payload_type_txt_msg
    then on_addressed h d p type
    else if type == payload_type_anon_req
    then on_anon h d p
    else if type == payload_type_grp_data || type == payload_type_grp_txt
    then on_group h d p type
    else if type == payload_type_advert
    then on_advert h d p
    else if type == payload_type_raw_custom
    then on_raw h d p
    else if type == payload_type_multipart
    then on_multipart h d p
    else (action_release, d)

unfoldable pub on_recv_packet : MeshHost → Dispatcher → ℕ → ℕ × Dispatcher
on_recv_packet h d p =
    let packet = packet_at d p in
    let type = get_payload_type (some packet) in
    let direct = is_route_direct (some packet) in
    let hops = get_path_hash_count (some packet) in
    if direct && type == payload_type_trace
    then on_trace h d p
    else if direct
        && (type == payload_type_control
            && (ltb 0 packet.payload_len && not (bit_and (get_or packet.payload 0 0) 0x80 == 0)))
    then (action_release, if hops == 0 then tell h (control_data_recv p) d else d)
    else if direct && ltb 0 hops
    then on_direct h d p type
    else if is_route_flood (some packet) && h.filter_recv_flood d packet
    then (action_release, d)
    else on_payload h d p type
