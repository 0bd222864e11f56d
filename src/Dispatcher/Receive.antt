-- ===== src/Dispatcher/Receive.antt =====
-- `meshcore_dispatcher_receive_raw` and `meshcore_dispatcher_process_recv_packet`. The lines that
-- only log are left out.
use meshcore.Prelude.{
  ℕ, ◌+◌, ◌-◌, ◌%◌, ◌^◌, ◌||◌, Option, none, some, List, bit_and, bit_or, u8, u32, ◌>>>◌, ltb, ◌==◌,
  if◌then◌else◌, ℤ, pos, negsuc,
}
use meshcore.Packet.{is_route_flood}
use meshcore.Pool.{Manager, alloc_new, free, queue_outbound, queue_inbound}
use meshcore.Dispatcher.{
  Dispatcher, Host, max_trans_unit_len, err_event_full, put_packet, packet_at, future_millis,
}
use meshcore.Dispatcher.Parse.{try_parse_packet}

-- -EINVAL and -ENOBUFS.
abbrev pub einval : ℤ
einval = negsuc 21

abbrev pub enobufs : ℤ
enobufs = negsuc 104

abbrev pub action_release : ℕ
action_release = 0

abbrev pub action_manual_hold : ℕ
action_manual_hold = 1

-- What is done with the packet for the answer of the mesh.
unfoldable pub act : Host → Dispatcher → ℕ → ℕ → Dispatcher
act h d p action =
    let (at, d1) = future_millis h d (bit_and action 0x00FFFFFF) in
    if action == action_release
    then record d { packet_manager = free d.packet_manager (some p) }
    else if action == action_manual_hold
    then d
    else record d1 {
      packet_manager =
          queue_outbound d1.packet_manager (some p) (u8 ((action >>> 24) + 2 ^ 32 - 1)) (u32 at);
    }

unfoldable pub process_recv_packet : Host → Dispatcher → ℕ → Dispatcher
process_recv_packet h d p = let (action, d1) = h.on_recv d p in act h d1 p action

-- A flooded packet waits for `delay` milliseconds, at most 32000; a short wait is left out.
unfoldable pub delay_flood : Host → Dispatcher → ℕ → ℤ → Dispatcher
delay_flood h d p (negsuc n) = process_recv_packet h d p
delay_flood h d p (pos delay) =
    let (at, d1) = future_millis h d (if ltb 32000 delay then 32000 else delay) in
    let now = process_recv_packet h d p in
    if ltb delay 50
    then now
    else record d1 { packet_manager = queue_inbound d1.packet_manager (some p) (u32 at) }

-- A parsed packet: the counters, then the mesh or the receive queue.
unfoldable pub dispatch : Host → Dispatcher → ℕ → ℕ → ℕ → Dispatcher
dispatch h d p snr_q4 len =
    let m = put_packet d.packet_manager p (record (packet_at d p) { snr_q4 = snr_q4 }) in
    let d1 = record d {
      packet_manager = m;
      rx_air_time = (d.rx_air_time + h.est_airtime len) % 2 ^ h.long_bits;
    } in
    let flooded =
      delay_flood h (record d1 { n_recv_flood = u32 (d1.n_recv_flood + 1) }) p
        (h.rx_delay snr_q4 len) in
    let direct =
      process_recv_packet h (record d1 { n_recv_direct = u32 (d1.n_recv_direct + 1) }) p in
    if is_route_flood (some (packet_at d1 p)) then flooded else direct

-- The packet that was allocated is filled; what cannot be parsed is given back.
unfoldable pub fill_packet : Host → Dispatcher → ℕ → List ℕ → ℕ → ℕ → ℤ × Dispatcher
fill_packet h d p raw len snr_q4 =
    let (ok, packet) = try_parse_packet (packet_at d p) raw len in
    let d1 = record d { packet_manager = put_packet d.packet_manager p packet } in
    let dispatched = dispatch h d1 p snr_q4 len in
    if ok
    then (pos 0, dispatched)
    else (einval, record d1 { packet_manager = free d1.packet_manager (some p) })

unfoldable pub receive_into :
    Host → Dispatcher → List ℕ → ℕ → ℕ → Option ℕ × Manager → ℤ × Dispatcher
receive_into h d raw len snr_q4 (none, m) =
    (enobufs, record d { packet_manager = m; err_flags = bit_or d.err_flags err_event_full })
receive_into h d raw len snr_q4 (some p, m) =
    fill_packet h (record d { packet_manager = m }) p raw len snr_q4

unfoldable pub receive_raw : Host → Dispatcher → Option (List ℕ) → ℕ → ℕ → ℤ × Dispatcher
receive_raw h d none len snr_q4 = (einval, d)
receive_raw h d (some raw) len snr_q4 =
    if len == 0 || ltb max_trans_unit_len len
    then (einval, d)
    else receive_into h d raw len snr_q4 (alloc_new d.packet_manager)
