-- ===== src/Dispatcher.antt =====
-- `src/core/meshcore_dispatcher.{h,c}`: its state, its clock arithmetic and its small operations.
-- The packet manager is the field `packet_manager`, a packet pointer an index into its buffer.
pub mod Parse
pub mod Receive
pub mod Send
pub mod Deadline
pub mod Agrees
pub mod Soonest
pub mod Holdings
pub mod Loop
use meshcore.Prelude.{
  ℕ, suc, ◌+◌, ◌-◌, ◌%◌, ◌^◌, Bool, true, false, ◌&&◌, ◌||◌, not, Option, none, some, List, [], ◌∷◌,
  get_or, set, bit_or, u8, u32, ltb, leb, ◌==◌, if◌then◌else◌, ℤ, pos, negsuc,
}
use meshcore.Packet.{Packet, packet_init, payload_max_len, path_len_field, is_valid_path_len}
use meshcore.Pool.{Manager, alloc_new, free, queue_outbound}
use meshcore.Node.{Node}

-- The calls of the radio that change it, newest first.
pub data RadioCall : Type 0 where
  begin_radio : RadioCall
  calibrate : RadioCall
  reset_agc : RadioCall
  start_send : List ℕ → RadioCall

-- `struct meshcore_dispatcher`, and two fields that stand for the world: how often the clock was
-- read, and what was asked of the radio.
pub record Dispatcher : Type 0 where
  pub outbound : Option ℕ
  pub outbound_expiry : ℕ
  pub outbound_start : ℕ
  pub total_air_time : ℕ
  pub rx_air_time : ℕ
  pub next_tx_time : ℕ
  pub cad_busy_start : ℕ
  pub radio_nonrx_start : ℕ
  pub next_floor_calib_time : ℕ
  pub next_agc_reset_time : ℕ
  pub prev_isrecv_mode : Bool
  pub n_sent_flood : ℕ
  pub n_sent_direct : ℕ
  pub n_recv_flood : ℕ
  pub n_recv_direct : ℕ
  pub tx_budget_ms : ℕ
  pub last_budget_update : ℕ
  pub duty_cycle_window_ms : ℕ
  pub err_flags : ℕ
  pub packet_manager : Manager
  pub owner_mesh : Node
  pub clock_reads : ℕ
  pub radio_calls : List RadioCall

-- What the dispatcher asks of the platform, the radio and the owner mesh. `clock i` is the `i`th
-- reading of the clock, an `unsigned long` of `long_bits` bits; the radio's answers are given by
-- the number of clock readings before them. `scaled x` and `unscaled x` are the casts of the float
-- products `x * duty_cycle` and `x / duty_cycle`.
pub record Host : Type 0 where
  pub long_bits : ℕ
  pub clock : ℕ → ℕ
  pub duty_window : ℕ
  pub scaled : ℕ → ℕ
  pub unscaled : ℕ → ℕ
  pub est_airtime : ℕ → ℕ
  pub rx_delay : ℕ → ℕ → ℤ
  pub agc_interval : ℤ
  pub cad_max : ℕ
  pub cad_retry : ℕ
  pub receiving : ℕ → Bool
  pub in_recv_mode : ℕ → Bool
  pub sends : List ℕ → ℕ → Bool
  pub on_recv : Dispatcher → ℕ → ℕ × Dispatcher

abbrev pub max_trans_unit_len : ℕ
max_trans_unit_len = 255

abbrev pub err_event_full : ℕ
err_event_full = 1

-- The packet behind a pointer, and writing through one.
abbrev pub packet_at : Dispatcher → ℕ → Packet
packet_at d p = get_or d.packet_manager.packet_buf p packet_init

abbrev pub put_packet : Manager → ℕ → Packet → Manager
put_packet m p packet = record m { packet_buf = set m.packet_buf p packet }

unfoldable pub millis_get : Host → Dispatcher → ℕ × Dispatcher
millis_get h d = (h.clock d.clock_reads, record d { clock_reads = d.clock_reads + 1 })

-- `a - b` on `unsigned long`.
abbrev pub sub_long : Host → ℕ → ℕ → ℕ
sub_long h a b = (a + 2 ^ h.long_bits - b) % 2 ^ h.long_bits

unfoldable pub millis_has_now_passed : Host → Dispatcher → ℕ → Bool × Dispatcher
millis_has_now_passed h d timestamp =
    let (now, d1) = millis_get h d in
    let ahead = sub_long h now timestamp in (ltb 0 ahead && ltb ahead (2 ^ (h.long_bits - 1)), d1)

-- The `int` argument is its bit pattern, extended by its sign.
unfoldable pub future_millis : Host → Dispatcher → ℕ → ℕ × Dispatcher
future_millis h d millis_from_now =
    let (now, d1) = millis_get h d in
    let extended =
      if ltb millis_from_now (2 ^ 31)
      then millis_from_now
      else millis_from_now + (2 ^ h.long_bits - 2 ^ 32) in
    ((now + extended) % 2 ^ h.long_bits, d1)

unfoldable pub update_tx_budget : Host → Dispatcher → Dispatcher
update_tx_budget h d =
    let (now, d1) = millis_get h d in
    let elapsed = sub_long h now d.last_budget_update in
    let max_budget = h.scaled h.duty_window in
    let refill = h.scaled elapsed in
    let budget = (d.tx_budget_ms + refill) % 2 ^ h.long_bits in
    if ltb 0 refill
    then record d1 {
      tx_budget_ms = if ltb max_budget budget then max_budget else budget;
      last_budget_update = now;
    }
    else d1

unfoldable pub obtained : Dispatcher → Option ℕ × Manager → Option ℕ × Dispatcher
obtained d (none, m) =
    (none, record d { packet_manager = m; err_flags = bit_or d.err_flags err_event_full })
obtained d (some p, m) = (
  some p,
  record d {
    packet_manager =
        put_packet m p (record (get_or m.packet_buf p packet_init) {
          payload_len = 0;
          path_len = 0;
          snr_q4 = 0;
        });
  },
)

unfoldable pub obtain_new_packet : Dispatcher → Option ℕ × Dispatcher
obtain_new_packet d = obtained d (alloc_new d.packet_manager)

unfoldable pub release_packet : Dispatcher → Option ℕ → Dispatcher
release_packet d packet = record d { packet_manager = free d.packet_manager packet }

unfoldable pub send_packet : Host → Dispatcher → Option ℕ → ℕ → ℕ → Dispatcher
send_packet h d none priority delay_millis = d
send_packet h d (some p) priority delay_millis =
    let packet = packet_at d p in
    let (at, d1) = future_millis h d delay_millis in
    if not (is_valid_path_len (path_len_field (some packet)))
      || ltb payload_max_len packet.payload_len
    then record d { packet_manager = free d.packet_manager (some p) }
    else record d1 { packet_manager = queue_outbound d1.packet_manager (some p) priority (u32 at) }

unfoldable pub init : Host → Manager → Node → Dispatcher → Dispatcher
init h m owner_mesh d =
    let (now, d1) = millis_get h d in
    record {
      outbound = none;
      outbound_expiry = 0;
      outbound_start = 0;
      total_air_time = 0;
      rx_air_time = 0;
      next_tx_time = now;
      cad_busy_start = 0;
      radio_nonrx_start = 0;
      next_floor_calib_time = 0;
      next_agc_reset_time = 0;
      prev_isrecv_mode = true;
      n_sent_flood = 0;
      n_sent_direct = 0;
      n_recv_flood = 0;
      n_recv_direct = 0;
      tx_budget_ms = 0;
      last_budget_update = 0;
      duty_cycle_window_ms = 3600000;
      err_flags = 0;
      packet_manager = m;
      owner_mesh = owner_mesh;
      clock_reads = d1.clock_reads;
      radio_calls = d1.radio_calls;
    }

unfoldable pub begin : Host → Dispatcher → Dispatcher
begin h d =
    let (now, d1) = millis_get h d in
    record d1 {
      n_sent_flood = 0;
      n_sent_direct = 0;
      n_recv_flood = 0;
      n_recv_direct = 0;
      err_flags = 0;
      radio_nonrx_start = now;
      duty_cycle_window_ms = h.duty_window;
      tx_budget_ms = h.scaled h.duty_window;
      last_budget_update = now;
      next_tx_time = now;
      radio_calls = begin_radio ∷ d1.radio_calls;
      prev_isrecv_mode = h.in_recv_mode d1.clock_reads;
    }

unfoldable pub reset_stats : Dispatcher → Dispatcher
reset_stats d = record d {
  n_sent_flood = 0;
  n_sent_direct = 0;
  n_recv_flood = 0;
  n_recv_direct = 0;
  err_flags = 0;
}
