-- ===== src/Mesh/Send.antt =====
-- The operations of `src/core/meshcore_mesh.c` that queue a packet for sending. A packet that they
-- refuse is given back.
use meshcore.Prelude.{
  ℕ, ◌+◌, ◌||◌, Option, none, some, List, bit_and, bit_or, u16, ltb, ◌==◌, if◌then◌else◌,
}
use meshcore.Packet.{
  Packet, payload_max_len, payload_type_path, payload_type_advert, payload_type_trace,
  route_type_transport_flood, route_type_flood, route_type_direct, route_type_transport_direct,
  get_payload_type, set_path_hash_size_and_count, copy_path,
}
use meshcore.Dispatcher.{Dispatcher, packet_at, send_packet}
use meshcore.Mesh.{
  MeshHost, write_packet, tables_has_seen, release_consumed_packet, transport_flood_hash_size,
  store_at,
}
use meshcore.Mesh.Create.{is_missing, bytes_of}

-- `header &= (uint8_t)~PH_ROUTE_MASK; header |= route`.
unfoldable pub with_route : ℕ → Packet → Packet
with_route route p = record p { header = bit_or (bit_and p.header 0xFC) route }

-- The packet is written, noted as seen and queued.
unfoldable pub note_and_send : MeshHost → Dispatcher → ℕ → Packet → ℕ → ℕ → Dispatcher
note_and_send h d p packet pri delay_millis =
    send_packet h.platform (tables_has_seen h (write_packet d p packet) packet).1 (some p) pri
      delay_millis

unfoldable pub flood_priority : ℕ → ℕ
flood_priority type =
    if type == payload_type_path then 2 else if type == payload_type_advert then 3 else 1

unfoldable pub send_flood : MeshHost → Dispatcher → Option ℕ → ℕ → ℕ → Dispatcher
send_flood h d none delay_millis path_hash_size = d
send_flood h d (some p) delay_millis path_hash_size =
    let packet = packet_at d p in
    let type = get_payload_type (some packet) in
    let p1 = set_path_hash_size_and_count (with_route route_type_flood packet) path_hash_size 0 in
    if type == payload_type_trace || (path_hash_size == 0 || ltb 3 path_hash_size)
    then release_consumed_packet d (some p)
    else note_and_send h d p p1 (flood_priority type) delay_millis

abbrev pub with_codes : ℕ × ℕ → Packet → Packet
with_codes (code0, code1) p = record p { transport_code0 = code0; transport_code1 = code1 }

unfoldable pub send_flood_coded : MeshHost → Dispatcher → ℕ → ℕ × ℕ → ℕ → ℕ → Dispatcher
send_flood_coded h d p codes delay_millis path_hash_size =
    let packet = packet_at d p in
    let type = get_payload_type (some packet) in
    let p1 = with_codes codes (with_route route_type_transport_flood packet) in
    let p2 =
      set_path_hash_size_and_count p1 (transport_flood_hash_size path_hash_size (some codes)) 0 in
    if type == payload_type_trace || (path_hash_size == 0 || ltb 3 path_hash_size)
    then release_consumed_packet d (some p)
    else note_and_send h d p p2 (flood_priority type) delay_millis

unfoldable pub send_flood_by_transport_codes :
    MeshHost → Dispatcher → Option ℕ → Option (ℕ × ℕ) → ℕ → ℕ → Dispatcher
send_flood_by_transport_codes h d none codes delay_millis path_hash_size =
    release_consumed_packet d none
send_flood_by_transport_codes h d (some p) none delay_millis path_hash_size =
    release_consumed_packet d (some p)
send_flood_by_transport_codes h d (some p) (some codes) delay_millis path_hash_size =
    send_flood_coded h d p codes delay_millis path_hash_size

-- The path of a TRACE packet goes behind its payload.
unfoldable pub with_trace_path : Option (List ℕ) → ℕ → Packet → Packet
with_trace_path path path_len p = record p {
  payload = store_at p.payload p.payload_len (bytes_of path path_len);
  payload_len = u16 (p.payload_len + path_len);
  path_len = 0;
}

unfoldable pub with_path : Option (List ℕ) → ℕ → Packet → Packet
with_path path path_len p =
    let (array, len) = copy_path p.path path path_len in record p { path = array; path_len = len }

unfoldable pub send_direct : MeshHost → Dispatcher → Option ℕ → Option (List ℕ) → ℕ → ℕ → Dispatcher
send_direct h d none path path_len delay_millis = release_consumed_packet d none
send_direct h d (some p) path path_len delay_millis =
    let p1 = with_route route_type_direct (packet_at d p) in
    let type = get_payload_type (some p1) in
    if is_missing path path_len
    then release_consumed_packet d (some p)
    else if type == payload_type_trace
    then if ltb payload_max_len (p1.payload_len + path_len)
      then release_consumed_packet (write_packet d p p1) (some p)
      else note_and_send h d p (with_trace_path path path_len p1) 5 delay_millis
    else note_and_send h d p (with_path path path_len p1)
        (if type == payload_type_path then 1 else 0) delay_millis

unfoldable pub send_zero_hop : MeshHost → Dispatcher → Option ℕ → ℕ → Dispatcher
send_zero_hop h d none delay_millis = d
send_zero_hop h d (some p) delay_millis =
    note_and_send h d p (record (with_route route_type_direct (packet_at d p)) { path_len = 0 }) 0
      delay_millis

unfoldable pub send_zero_hop_by_transport_codes :
    MeshHost → Dispatcher → Option ℕ → Option (ℕ × ℕ) → ℕ → Dispatcher
send_zero_hop_by_transport_codes h d none codes delay_millis = release_consumed_packet d none
send_zero_hop_by_transport_codes h d (some p) none delay_millis = release_consumed_packet d (some p)
send_zero_hop_by_transport_codes h d (some p) (some codes) delay_millis =
    let p1 = with_codes codes (with_route route_type_transport_direct (packet_at d p)) in
    note_and_send h d p (record p1 { path_len = 0 }) 0 delay_millis
