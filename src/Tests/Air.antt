-- ===== src/Tests/Air.antt =====
-- The dispatcher.
use meshcore.Prelude.{
  ℕ, ◌+◌, ◌*◌, ◌≡◌, refl, true, false, some, List, [], ◌∷◌, arith, pos, replicate,
}
use meshcore.Packet.{
  Packet, has_transport_codes, get_route_type, is_valid_path_len, path_len_field, get_path_byte_len,
  get_path_hash_count, get_path_hash_size,
}
use meshcore.Packet.Codec.{read_from, read_codes, read_path_len, read_path_bytes, read_payload}
use meshcore.Identity.{local_init}
use meshcore.Tables.{tables_init}
use meshcore.Dispatcher.{Dispatcher, Host}
use meshcore.Dispatcher.Parse.{try_parse_packet}
use meshcore.Dispatcher.Agrees.{try_parse_packet-read_from}
use meshcore.Dispatcher.Deadline.{candidates, next_deadline_get}
use meshcore.Dispatcher.Soonest.{Soonest, next_deadline_get_lem}
use meshcore.Context.{RuntimeState}
use meshcore.Runtime.Pending.{expected_ack_clear, pending_clear}
use meshcore.Tests.Packets.{blank}
use meshcore.Tests.Pools.{taken, busy, busy-IsSchedule}

-- A runtime that waits for nothing.
abbrev pub idle : RuntimeState
idle = record {
  initialized = true;
  last_now_ms = 0;
  rtc_clock = 0;
  requests = record {
    expected_acks = replicate 8 expected_ack_clear;
    expected_ack_next = 0;
    pending_discovery = pending_clear;
    pending_trace = pending_clear;
    pending_telemetry = pending_clear;
    pending_binary = pending_clear;
  };
  told = [];
}

-- A clock that runs by 3000 ms from one reading to the next, and a mesh that releases every packet.
abbrev pub quiet_host : Host
quiet_host = record {
  long_bits = 32;
  clock = λ i. 1000 + 3000 * i;
  duty_window = 3600000;
  scaled = λ x. x;
  unscaled = λ x. x;
  est_airtime = λ len. 2 * len;
  rx_delay = λ snr_q4 len. pos 100;
  agc_interval = pos 0;
  cad_max = 4000;
  cad_retry = 200;
  receiving = λ i. false;
  in_recv_mode = λ i. true;
  sends = λ bytes i. true;
  on_recv = λ d p. (0, d);
}

-- The first packet of the pool is on air.
abbrev pub on_air : Dispatcher
on_air = record {
  outbound = some 0;
  outbound_expiry = 5000;
  outbound_start = 400;
  total_air_time = 0;
  rx_air_time = 0;
  next_tx_time = 0;
  cad_busy_start = 0;
  radio_nonrx_start = 0;
  next_floor_calib_time = 20000;
  next_agc_reset_time = 0;
  prev_isrecv_mode = true;
  n_sent_flood = 0;
  n_sent_direct = 0;
  n_recv_flood = 0;
  n_recv_direct = 0;
  tx_budget_ms = 3600000;
  last_budget_update = 0;
  duty_cycle_window_ms = 3600000;
  err_flags = 0;
  packet_manager = taken.manager;
  owner_mesh = record { self_id = local_init; tables = some tables_init; runtime = idle };
  clock_reads = 0;
  radio_calls = [];
}

-- The dispatcher with a filled send queue, and the receive queue of the same contents.
abbrev pub loaded : Dispatcher
loaded = record on_air {
  packet_manager = record {
    packet_buf = replicate 10 blank;
    pool_size = 4;
    initialized = true;
    unused = busy;
    send_queue = busy;
    rx_queue = busy;
  };
}

next_deadline_get_lem_example :
    (t : ℕ) × (next_deadline_get quiet_host loaded 50 ≡ some t)
    × Soonest (candidates quiet_host loaded 50) 50 t
next_deadline_get_lem_example =
    next_deadline_get_lem quiet_host loaded 50 busy-IsSchedule busy-IsSchedule (omega arith)

-- A direct packet of one payload byte, as received.
abbrev short : List ℕ
short = 9 ∷ 0 ∷ 5 ∷ []

abbrev short_packet : Packet
short_packet = record blank { header = 9; payload_len = 1; payload = 5 ∷ replicate 183 0 }

short_read : read_from blank (some short) 3 ≡ (true, short_packet)
unfolding read_from read_codes read_path_len read_path_bytes read_payload has_transport_codes
    get_route_type is_valid_path_len path_len_field get_path_byte_len get_path_hash_count
    get_path_hash_size
short_read = refl

try_parse_packet-read_from_example : try_parse_packet blank short 3 ≡ (true, short_packet)
try_parse_packet-read_from_example =
    try_parse_packet-read_from blank short_packet short 3 (omega arith) refl short_read
