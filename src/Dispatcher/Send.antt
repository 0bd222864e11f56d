-- ===== src/Dispatcher/Send.antt =====
-- `meshcore_dispatcher_tx_done`, `meshcore_dispatcher_check_send` and `meshcore_dispatcher_loop`. The
-- lines that only log are left out.
use meshcore.Prelude.{
  ℕ, ◌+◌, ◌-◌, ◌*◌, ◌/◌, ◌%◌, ◌^◌, Bool, true, false, ◌&&◌, not, Option, none, some, ◌∷◌, bit_or,
  u32, ltb, ◌==◌, if◌then◌else◌, ℤ, pos, negsuc,
}
use meshcore.Packet.{is_route_flood}
use meshcore.Packet.Codec.{write_to}
use meshcore.Pool.{Manager, free, get_next_outbound, get_next_inbound, get_outbound_count}
use meshcore.Dispatcher.{
  Dispatcher, Host, calibrate, reset_agc, start_send, max_trans_unit_len, packet_at, sub_long,
  millis_get, millis_has_now_passed, future_millis, update_tx_budget, release_packet,
}
use meshcore.Dispatcher.Receive.{process_recv_packet}

abbrev pub min_budget_reserve : ℕ
min_budget_reserve = 100

abbrev pub err_event_cad_timeout : ℕ
err_event_cad_timeout = 2

abbrev pub err_event_startrx_timeout : ℕ
err_event_startrx_timeout = 4

-- The next time to send is put off by what the budget lacks.
unfoldable pub put_off : Host → Dispatcher → ℕ → Dispatcher
put_off h d needed =
    let (at, d1) = future_millis h d (h.unscaled needed) in record d1 { next_tx_time = at }

-- A transmission that succeeded: its time on air is taken from the budget.
unfoldable pub charge : Host → Dispatcher → ℕ → Dispatcher
charge h d p =
    let (now, d1) = millis_get h d in
    let air_time = sub_long h now d.outbound_start in
    let d2 =
      update_tx_budget h
        (record d1 { total_air_time = (d1.total_air_time + air_time) % 2 ^ h.long_bits }) in
    let budget = if ltb d2.tx_budget_ms air_time then 0 else d2.tx_budget_ms - air_time in
    let d3 = record d2 { tx_budget_ms = budget } in
    let (later, d4) = millis_get h d3 in
    let d5 =
      if ltb budget min_budget_reserve
      then put_off h d3 (min_budget_reserve - budget)
      else record d4 { next_tx_time = later } in
    if is_route_flood (some (packet_at d5 p))
    then record d5 { n_sent_flood = u32 (d5.n_sent_flood + 1) }
    else record d5 { n_sent_direct = u32 (d5.n_sent_direct + 1) }

unfoldable pub schedule_agc : Host → Dispatcher → ℤ → Dispatcher
schedule_agc h d (negsuc n) = d
schedule_agc h d (pos interval) =
    let (at, d1) = future_millis h d interval in
    if ltb 0 interval then record d1 { next_agc_reset_time = at } else d

unfoldable pub finish_tx : Host → Dispatcher → Bool → Option ℕ → Bool × Dispatcher
finish_tx h d success none = (false, d)
finish_tx h d success (some p) =
    let d1 = if success then charge h d p else d in
    let d2 = record (release_packet d1 (some p)) { outbound = none } in
    (true, schedule_agc h d2 h.agc_interval)

unfoldable pub tx_done : Host → Dispatcher → Bool → Bool × Dispatcher
tx_done h d success = finish_tx h d success d.outbound

-- The packet taken from the send queue is written and given to the radio.
unfoldable pub transmit : Host → Dispatcher → ℕ → Option ℕ × Manager → Dispatcher
transmit h d now (none, m) = record d { outbound = none; packet_manager = m }
transmit h d now (some p, m) =
    let d1 = record d { outbound = some p; packet_manager = m } in
    let w = write_to (some (packet_at d1 p)) true in
    let max_airtime = u32 (h.est_airtime w.count * 3) / 2 in
    let d2 = record d1 {
      outbound_start = now;
      radio_calls = start_send w.bytes ∷ d1.radio_calls;
    } in
    let (expiry, d3) = future_millis h d2 max_airtime in
    if w.count == 0
    then record d1 { outbound = none; packet_manager = free d1.packet_manager (some p) }
    else if not (h.sends w.bytes d2.clock_reads)
    then record (release_packet d2 (some p)) { outbound = none }
    else record d3 { outbound_expiry = expiry }

-- The air is free, or it has been busy for too long.
unfoldable pub send_next : Host → Dispatcher → ℕ → Dispatcher
send_next h d now =
    let d1 = record d { cad_busy_start = 0 } in
    transmit h d1 now (get_next_outbound d1.packet_manager (u32 now))

unfoldable pub listen_before_send : Host → Dispatcher → ℕ → Dispatcher
listen_before_send h d now =
    let d1 = record d {
      cad_busy_start = if d.cad_busy_start == 0 then now else d.cad_busy_start;
    } in
    let (at, d2) = future_millis h d1 h.cad_retry in
    if not (h.receiving d.clock_reads)
    then send_next h d now
    else if ltb h.cad_max (sub_long h now d1.cad_busy_start)
    then send_next h (record d1 { err_flags = bit_or d1.err_flags err_event_cad_timeout }) now
    else record d2 { next_tx_time = at }

unfoldable pub check_send : Host → Dispatcher → Dispatcher
check_send h d =
    let (now, d1) = millis_get h d in
    let d2 = update_tx_budget h d1 in
    let needed = h.est_airtime max_trans_unit_len / 2 in
    let (passed, d3) = millis_has_now_passed h d2 d2.next_tx_time in
    if get_outbound_count d1.packet_manager (u32 now) == 0
    then d1
    else if ltb d2.tx_budget_ms needed
    then put_off h d2 (needed - d2.tx_budget_ms)
    else if not passed
    then d3
    else listen_before_send h d3 now

unfoldable pub calibrate_floor : Host → Dispatcher → Dispatcher
calibrate_floor h d =
    let (passed, d1) = millis_has_now_passed h d d.next_floor_calib_time in
    let (at, d2) = future_millis h (record d1 { radio_calls = calibrate ∷ d1.radio_calls }) 2000 in
    if passed then record d2 { next_floor_calib_time = at } else d1

abbrev pub same_bool : Bool → Bool → Bool
same_bool true b = b
same_bool false b = not b

unfoldable pub watch_receiver : Host → Dispatcher → Dispatcher
watch_receiver h d =
    let is_recv = h.in_recv_mode d.clock_reads in
    let d1 = record d { prev_isrecv_mode = is_recv } in
    let (start, d2) = millis_get h d1 in
    let d3 =
      if same_bool is_recv d.prev_isrecv_mode
      then d
      else if is_recv
      then d1
      else record d2 { radio_nonrx_start = start } in
    let (now, d4) = millis_get h d3 in
    if not is_recv && ltb 8000 (sub_long h now d4.radio_nonrx_start)
    then record d4 { err_flags = bit_or d4.err_flags err_event_startrx_timeout }
    else d4

unfoldable pub agc : Host → Dispatcher → ℤ → Dispatcher
agc h d (negsuc n) = d
agc h d (pos interval) =
    let (passed, d1) = millis_has_now_passed h d d.next_agc_reset_time in
    let (at, d2) =
      future_millis h (record d1 { radio_calls = reset_agc ∷ d1.radio_calls }) interval in
    if not (ltb 0 interval)
    then d
    else if passed
    then record d2 { next_agc_reset_time = at }
    else d1

unfoldable pub process_next : Host → Dispatcher → Option ℕ × Manager → Dispatcher
process_next h d (none, m) = record d { packet_manager = m }
process_next h d (some p, m) = process_recv_packet h (record d { packet_manager = m }) p

-- The part of the loop that is left out while a transmission is under way.
unfoldable pub serve : Host → Dispatcher → Dispatcher
serve h d =
    let d1 = agc h d h.agc_interval in
    let (now, d2) = millis_get h d1 in
    check_send h (process_next h d2 (get_next_inbound d2.packet_manager (u32 now)))

unfoldable pub watch_outbound : Host → Dispatcher → Option ℕ → Dispatcher
watch_outbound h d none = serve h d
watch_outbound h d (some p) =
    let (passed, d1) = millis_has_now_passed h d d.outbound_expiry in
    let gone = serve h (tx_done h d1 false).1 in if passed then gone else d1

unfoldable pub loop : Host → Dispatcher → Dispatcher
loop h d = let d1 = watch_receiver h (calibrate_floor h d) in watch_outbound h d1 d1.outbound
