-- ===== src/Mesh/Acks.antt =====
-- The acknowledgements that `src/core/meshcore_mesh.c` sends on along a direct path.
use meshcore.Prelude.{
  ℕ, zero, suc, ◌+◌, ◌-◌, ◌*◌, Bool, ◌&&◌, Option, none, some, take, drop, get_or, overwrite,
  bit_and, u8, u32, ◌>>>◌, leb, ◌==◌, if◌then◌else◌,
}
use meshcore.Packet.{
  Packet, packet_init, payload_type_ack, route_type_direct, is_marked_do_not_retransmit,
}
use meshcore.Dispatcher.{Dispatcher, packet_at, send_packet}
use meshcore.Dispatcher.Receive.{action_release}
use meshcore.Mesh.{MeshHost, write_packet, tables_has_seen, remove_self_from_path}
use meshcore.Mesh.Create.{create_ack_data, create_multi_ack_data}
use meshcore.Mesh.Send.{with_route, with_path}

-- The packet that was made is sent along the path of `packet`.
unfoldable pub send_along : MeshHost → Packet → ℕ → Option ℕ × Dispatcher → Dispatcher
send_along h packet delay_millis (none, d) = d
send_along h packet delay_millis (some a, d) =
    let p1 = with_path (some packet.path) (u8 packet.path_len) (packet_at d a) in
    send_packet h.platform (write_packet d a (with_route route_type_direct p1)) (some a) 0
      delay_millis

-- The loop over `extra`: the delay it ends with.
unfoldable pub send_extra_acks : ℕ → MeshHost → Dispatcher → Packet → ℕ → ℕ × Dispatcher
send_extra_acks zero h d packet delay_millis = (delay_millis, d)
send_extra_acks (suc extra) h d packet delay_millis =
    let later = u32 (delay_millis + (h.direct_retransmit_delay d packet + 300)) in
    let ack = create_multi_ack_data d (some packet.payload) packet.payload_len (suc extra) in
    send_extra_acks extra h (send_along h packet later ack) packet later

unfoldable pub route_direct_recv_acks : MeshHost → Dispatcher → Packet → ℕ → Dispatcher
route_direct_recv_acks h d packet delay_millis =
    let (later, d1) = send_extra_acks (h.extra_ack_transmit_count d) h d packet delay_millis in
    if is_marked_do_not_retransmit (some packet)
    then d
    else send_along h packet later (create_ack_data d1 (some packet.payload) packet.payload_len)

-- `tmp`: the acknowledgement in a MULTIPART packet, as a packet of its own.
unfoldable pub unwrapped : Packet → Packet
unwrapped packet = record (with_path (some packet.path) (u8 packet.path_len) packet_init) {
  header = packet.header;
  payload_len = packet.payload_len - 1;
  payload = overwrite packet_init.payload (take (packet.payload_len - 1) (drop 1 packet.payload));
}

abbrev pub is_wrapped_ack : Packet → Bool
is_wrapped_ack packet =
    bit_and (get_or packet.payload 0 0) 0x0F == payload_type_ack && leb 5 packet.payload_len

unfoldable pub forward_multipart_direct : MeshHost → Dispatcher → ℕ → ℕ × Dispatcher
forward_multipart_direct h d p =
    let packet = packet_at d p in
    let remaining = get_or packet.payload 0 0 >>> 4 in
    let tmp = unwrapped packet in
    let (seen, d1) = tables_has_seen h d tmp in
    let d2 =
      route_direct_recv_acks h d1 (remove_self_from_path tmp) (u32 ((remaining + 1) * 300)) in
    if packet.payload_len == 0
    then (action_release, d)
    else if is_wrapped_ack packet
    then (action_release, if seen then d1 else d2)
    else (action_release, d)
