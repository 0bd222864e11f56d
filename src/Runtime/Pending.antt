-- ===== src/Runtime/Pending.antt =====
-- `src/runtime/meshcore_runtime_pending.c`: the acknowledgements and the answers that this node waits
-- for. Each function takes the reading of the clock that it makes; what it tells the host is the
-- second part of its result.
use meshcore.Prelude.{
  word32, same_bytes, ℕ, zero, suc, ◌+◌, ◌-◌, ◌/◌, ◌%◌, ◌^◌, Bool, true, false, ◌&&◌, ◌||◌, not,
  Option, none, some, List, [], ◌∷◌, ◌++◌, length, take, drop, get_or, set, replicate, bit_and, u8,
  u32, ltb, leb, ◌==◌, if◌then◌else◌,
}
pub use meshcore.Context.{
  ExpectedAck, PendingAnswer, Requests, Told, message_ack, peer_path, trace_path, telemetry,
  binary_response,
}
use meshcore.Packet.{Packet, max_path_len, payload_type_response}
use meshcore.Dispatcher.Deadline.{accumulate_all, when}
use meshcore.Runtime.{time_reached, path_len_decode}

abbrev pub expected_ack_table_size : ℕ
expected_ack_table_size = 8

abbrev pub request_timeout_ms : ℕ
request_timeout_ms = 10000

abbrev pub key_prefix_bytes : ℕ
key_prefix_bytes = 4

-- `memset` to zero.
unfoldable pub expected_ack_clear : ExpectedAck
expected_ack_clear = record {
  valid = false;
  msg_sent_ms = 0;
  expires_at_ms = 0;
  ack_crc = 0;
  target = replicate key_prefix_bytes 0;
  attempt = 0;
}

unfoldable pub pending_clear : PendingAnswer
pending_clear = record {
  valid = false;
  tag = 0;
  expires_at_ms = 0;
  key_prefix = replicate key_prefix_bytes 0;
  permission_mask = 0;
}

abbrev pub is_expired : ℕ → ℕ → Bool → ℕ → Bool
is_expired long_bits now_ms valid expires_at_ms =
    valid && time_reached long_bits now_ms expires_at_ms

unfoldable pub expected_ack_cleanup : ℕ → ℕ → List ExpectedAck → List ExpectedAck
expected_ack_cleanup long_bits now_ms [] = []
expected_ack_cleanup long_bits now_ms (entry ∷ entries) =
    (if is_expired long_bits now_ms entry.valid entry.expires_at_ms
      then expected_ack_clear
      else entry)
    ∷ expected_ack_cleanup long_bits now_ms entries

unfoldable pub answer_cleanup : ℕ → ℕ → PendingAnswer → PendingAnswer
answer_cleanup long_bits now_ms a =
    if is_expired long_bits now_ms a.valid a.expires_at_ms then pending_clear else a

unfoldable pub correlation_cleanup : ℕ → ℕ → Requests → Requests
correlation_cleanup long_bits now_ms r = record r {
  expected_acks = expected_ack_cleanup long_bits now_ms r.expected_acks;
  pending_discovery = answer_cleanup long_bits now_ms r.pending_discovery;
  pending_trace = answer_cleanup long_bits now_ms r.pending_trace;
  pending_telemetry = answer_cleanup long_bits now_ms r.pending_telemetry;
  pending_binary = answer_cleanup long_bits now_ms r.pending_binary;
}

-- The times that the function looks at, in its order.
unfoldable pub ack_expiries : List ExpectedAck → List ℕ
ack_expiries [] = []
ack_expiries (entry ∷ entries) = when entry.valid (u32 entry.expires_at_ms) ++ ack_expiries entries

abbrev pub answer_expiry : PendingAnswer → List ℕ
answer_expiry a = when a.valid (u32 a.expires_at_ms)

unfoldable pub expiries : Requests → List ℕ
expiries r =
    ack_expiries r.expected_acks
    ++ (answer_expiry r.pending_discovery
        ++ (answer_expiry r.pending_trace
            ++ (answer_expiry r.pending_telemetry ++ answer_expiry r.pending_binary)))

-- The result is `*deadline_ms`, `none` where the function returns false.
unfoldable pub correlation_next_deadline_get : Requests → ℕ → Option ℕ
correlation_next_deadline_get r now_ms = accumulate_all now_ms (expiries r) none

-- The loop that looks for a slot, from `expected_ack_next` on: the first that is free or expired, and
-- `expected_ack_next` where there is none.
unfoldable pub find_slot : ℕ → ℕ → ℕ → ℕ → ℕ → List ExpectedAck → ℕ
find_slot zero i next long_bits now_ms entries = next
find_slot (suc rounds) i next long_bits now_ms entries =
    let idx = (next + i) % expected_ack_table_size in
    let entry = get_or entries idx expected_ack_clear in
    let rest = find_slot rounds (i + 1) next long_bits now_ms entries in
    if not entry.valid || time_reached long_bits now_ms entry.expires_at_ms then idx else rest

unfoldable pub expected_ack_register : ℕ → ℕ → Requests → ℕ → Option (List ℕ) → ℕ → Requests
expected_ack_register long_bits now_ms r ack_crc none attempt = r
expected_ack_register long_bits now_ms r ack_crc (some target) attempt =
    let slot_idx =
      find_slot expected_ack_table_size 0 r.expected_ack_next long_bits now_ms r.expected_acks in
    let entry : ExpectedAck = record {
      valid = true;
      msg_sent_ms = now_ms;
      expires_at_ms = (now_ms + request_timeout_ms) % 2 ^ long_bits;
      ack_crc = ack_crc;
      target = take key_prefix_bytes target;
      attempt = attempt;
    } in
    if ack_crc == 0 then r else record r {
      expected_acks = set r.expected_acks slot_idx entry;
      expected_ack_next = (slot_idx + 1) % expected_ack_table_size;
    }

-- The loop over the entries: expired ones on its way are cleared, and the one that is handled is.
unfoldable pub handle_loop : ℕ → ℕ → ℕ → List ExpectedAck → Option ExpectedAck × List ExpectedAck
handle_loop long_bits now_ms ack_crc [] = (none, [])
handle_loop long_bits now_ms ack_crc (entry ∷ entries) =
    let (found, rest) = handle_loop long_bits now_ms ack_crc entries in
    if not entry.valid
    then (found, entry ∷ rest)
    else if time_reached long_bits now_ms entry.expires_at_ms
    then (found, expected_ack_clear ∷ rest)
    else if not (entry.ack_crc == ack_crc)
    then (found, entry ∷ rest)
    else (some entry, expected_ack_clear ∷ entries)

abbrev pub ack_told : Option ExpectedAck → List Told
ack_told none = []
ack_told (some entry) = message_ack entry.target entry.attempt ∷ []

abbrev pub is_found : Option ExpectedAck → Bool
is_found none = false
is_found (some entry) = true

unfoldable pub expected_ack_handle : ℕ → ℕ → Requests → ℕ → Bool × List Told × Requests
expected_ack_handle long_bits now_ms r ack_crc =
    let (found, entries) = handle_loop long_bits now_ms ack_crc r.expected_acks in
    (is_found found, ack_told found, record r { expected_acks = entries })

-- The answer that is waited for from now on.
abbrev pub awaited : ℕ → ℕ → ℕ → List ℕ → ℕ → PendingAnswer
awaited long_bits now_ms tag key_prefix permission_mask = record {
  valid = true;
  tag = tag;
  expires_at_ms = (now_ms + request_timeout_ms) % 2 ^ long_bits;
  key_prefix = key_prefix;
  permission_mask = permission_mask;
}

unfoldable pub pending_discovery_register : ℕ → ℕ → Requests → ℕ → Option (List ℕ) → Requests
pending_discovery_register long_bits now_ms r tag none = r
pending_discovery_register long_bits now_ms r tag (some key_prefix) = record r {
  pending_discovery = awaited long_bits now_ms tag (take key_prefix_bytes key_prefix) 0;
}

unfoldable pub pending_trace_register : ℕ → ℕ → Requests → ℕ → Requests
pending_trace_register long_bits now_ms r tag = record r {
  pending_trace = awaited long_bits now_ms tag (replicate key_prefix_bytes 0) 0;
}

unfoldable pub pending_telemetry_register : ℕ → ℕ → Requests → ℕ → Option (List ℕ) → ℕ → Requests
pending_telemetry_register long_bits now_ms r tag none permission_mask = r
pending_telemetry_register long_bits now_ms r tag (some key_prefix) permission_mask = record r {
  pending_telemetry =
      awaited long_bits now_ms tag (take key_prefix_bytes key_prefix) permission_mask;
}

unfoldable pub pending_binary_register : ℕ → ℕ → Requests → ℕ → Option (List ℕ) → Requests
pending_binary_register long_bits now_ms r tag none = r
pending_binary_register long_bits now_ms r tag (some key_prefix) = record r {
  pending_binary = awaited long_bits now_ms tag (take key_prefix_bytes key_prefix) 0;
}

-- The answer is waited for, from this sender and with this tag.
abbrev pub is_awaited : PendingAnswer → List ℕ → ℕ → Bool
is_awaited a key_prefix tag =
    a.valid && (a.tag == tag && same_bytes a.key_prefix (take key_prefix_bytes key_prefix))

abbrev pub snr_of : Option Packet → ℕ
snr_of none = 0
snr_of (some packet) = packet.snr_q4

-- No pointer is NULL. An answer that is taken is told to the host and no longer waited for.
unfoldable pub discovery_answered :
    Requests
    → List ℕ
    → Option Packet
    → List ℕ
    → Option (ℕ × ℕ)
    → ℕ
    → List ℕ
    → ℕ
    → Bool × List Told × Requests
discovery_answered r key_prefix packet path none extra_type extra extra_len = (false, [], r)
discovery_answered r key_prefix packet path (some (out_path_len, size)) extra_type extra extra_len =
    let tag = word32 extra 0 in
    let told =
      peer_path tag (take key_prefix_bytes key_prefix) (take out_path_len path) size
        (snr_of packet) in
    if not (extra_type == payload_type_response)
    then (false, [], r)
    else if ltb extra_len 4 || not (is_awaited r.pending_discovery key_prefix tag)
    then (false, [], r)
    else (true, told ∷ [], record r { pending_discovery = pending_clear })

unfoldable pub pending_discovery_handle :
    Requests → List ℕ → Option Packet → List ℕ → ℕ → ℕ → List ℕ → ℕ → Bool × List Told × Requests
pending_discovery_handle r key_prefix packet path path_len_field extra_type extra extra_len =
    discovery_answered r key_prefix packet path (path_len_decode path_len_field) extra_type extra
      extra_len

-- `meshcore_runtime_append_snr_with_trunc` into an array of 64.
unfoldable pub append_snr_with_trunc : List ℕ → ℕ → List ℕ
append_snr_with_trunc snrs snr_q4 =
    if leb max_path_len (length snrs) then snrs else snrs ++ (snr_q4 ∷ [])

unfoldable pub pending_trace_handle :
    Requests → ℕ → ℕ → List ℕ → ℕ → ℕ → ℕ → Bool × List Told × Requests
pending_trace_handle r tag flags path_snrs path_snr_count path_hash_bytes response_snr =
    let hash_size = 2 ^ bit_and flags 0x03 in
    let hash_count = u8 (path_hash_bytes / hash_size) in
    let forward_hops = (hash_count - 1) / 2 in
    let out =
      append_snr_with_trunc (take forward_hops path_snrs) (get_or path_snrs forward_hops 0) in
    let back =
      append_snr_with_trunc (take forward_hops (drop (forward_hops + 1) path_snrs)) response_snr in
    let cleared = record r { pending_trace = pending_clear } in
    if not (r.pending_trace.valid && r.pending_trace.tag == tag)
    then (false, [], r)
    else if hash_size == 4 || path_hash_bytes == 0 || not (path_hash_bytes % hash_size == 0)
    then (false, [], cleared)
    else if not (path_snr_count == hash_count) || hash_count % 2 == 0
    then (false, [], cleared)
    else (true, trace_path tag out back response_snr ∷ [], cleared)

unfoldable pub pending_telemetry_handle :
    Requests → List ℕ → ℕ → List ℕ → ℕ → Bool × List Told × Requests
pending_telemetry_handle r key_prefix timestamp payload payload_len =
    let tag = word32 payload 0 in
    let told = telemetry key_prefix timestamp tag (take (payload_len - 4) (drop 4 payload)) in
    if ltb payload_len 4 || not (is_awaited r.pending_telemetry key_prefix tag)
    then (false, [], r)
    else (true, told ∷ [], record r { pending_telemetry = pending_clear })

unfoldable pub pending_binary_handle :
    Requests → List ℕ → ℕ → List ℕ → ℕ → Bool × List Told × Requests
pending_binary_handle r key_prefix timestamp payload payload_len =
    let tag = word32 payload 0 in
    let told = binary_response key_prefix timestamp tag (take (payload_len - 4) (drop 4 payload)) in
    if ltb payload_len 4 || not (is_awaited r.pending_binary key_prefix tag)
    then (false, [], r)
    else (true, told ∷ [], record r { pending_binary = pending_clear })
