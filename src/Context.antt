-- ===== src/Context.antt =====
-- `struct meshcore_runtime` of `src/runtime/meshcore_runtime_internal.h`, besides the mesh, and what
-- the runtime tells the host.
use meshcore.Prelude.{ℕ, Bool, Option, List}

-- `meshcore_common_node_role_t`.
pub data Role : Type 0 where
  no_role : Role
  chat : Role
  repeater : Role
  room : Role
  sensor : Role

pub record ExpectedAck : Type 0 where
  pub valid : Bool
  pub msg_sent_ms : ℕ
  pub expires_at_ms : ℕ
  pub ack_crc : ℕ
  pub target : List ℕ
  pub attempt : ℕ

-- The structs of the four kinds of answers; a kind that has no prefix or no mask leaves it zero.
pub record PendingAnswer : Type 0 where
  pub valid : Bool
  pub tag : ℕ
  pub expires_at_ms : ℕ
  pub key_prefix : List ℕ
  pub permission_mask : ℕ

-- What the runtime waits for.
pub record Requests : Type 0 where
  pub expected_acks : List ExpectedAck
  pub expected_ack_next : ℕ
  pub pending_discovery : PendingAnswer
  pub pending_trace : PendingAnswer
  pub pending_telemetry : PendingAnswer
  pub pending_binary : PendingAnswer

-- What the host is told, by the call of the platform bridge. A signal-to-noise ratio is given in
-- quarters, as the packet holds it. A route is a number of `meshcore_common_message_route_t`.
pub data Told : Type 0 where
  message_ack : List ℕ → ℕ → Told
  peer_path : ℕ → List ℕ → List ℕ → ℕ → ℕ → Told
  trace_path : ℕ → List ℕ → List ℕ → ℕ → Told
  telemetry : List ℕ → ℕ → ℕ → List ℕ → Told
  binary_response : List ℕ → ℕ → ℕ → List ℕ → Told
  -- route, target, name of the sender, payload, time of the sender, ratio
  text_message : ℕ → List ℕ → List ℕ → List ℕ → ℕ → ℕ → Told
  channel_message : ℕ → List ℕ → List ℕ → List ℕ → ℕ → ℕ → Told
  -- hash of the channel, path, type, payload, ratio
  channel_bytes : List ℕ → List ℕ → ℕ → List ℕ → ℕ → Told
  -- path, payload, ratio
  control_bytes : List ℕ → List ℕ → ℕ → Told
  raw_bytes : List ℕ → List ℕ → ℕ → Told
  -- role, path, key, ratio there, tag, ratio here
  node_discovered : Role → List ℕ → List ℕ → ℕ → ℕ → ℕ → Told
  -- route, key, tag, length byte of the path, path, payload, ratio
  binary_request : ℕ → List ℕ → ℕ → ℕ → List ℕ → List ℕ → ℕ → Told
  -- prefix of the key, time, ratio, path, size of a hash, ratios there, ratios back
  peer_path_seen : List ℕ → ℕ → ℕ → List ℕ → ℕ → List ℕ → List ℕ → Told
  -- role, key, time, name, coordinates, path with the size of a hash, bytes of the packet
  advert : Role → List ℕ → ℕ → List ℕ → Option (ℕ × ℕ) → Option (List ℕ × ℕ) → List ℕ → Told
  peer_seen : List ℕ → ℕ → Told
  -- type of the request, error number
  request_error : ℕ → ℕ → Told
  timer_arm : ℕ → Told
  timer_cancel : Told

-- `rtc_clock` is the `last_unique` of `rtc_clock_state`; `told` is what the host was told so far, the
-- first call first.
pub record RuntimeState : Type 0 where
  pub initialized : Bool
  pub last_now_ms : ℕ
  pub rtc_clock : ℕ
  pub requests : Requests
  pub told : List Told
