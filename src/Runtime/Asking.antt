-- ===== src/Runtime/Asking.antt =====
-- The requests to another node, and the answers to one, of
-- `src/runtime/meshcore_runtime_request.c`.
use meshcore.Prelude.{
  bytes32, ℕ, zero, suc, ◌-◌, ◌/◌, ◌%◌, ◌^◌, ◌||◌, not, Option, some, List, [], ◌∷◌, ◌++◌, length,
  take, drop, u8, ltb, ◌==◌, if◌then◌else◌,
}
use meshcore.Packet.{
  max_path_len, payload_max_len, payload_type_req, payload_type_response, payload_type_anon_req,
}
use meshcore.Identity.{init_from_pub_key}
use meshcore.Dispatcher.{Dispatcher}
use meshcore.Mesh.{MeshHost}
use meshcore.Mesh.Create.{
  create_datagram, create_anon_datagram, create_path_return_by_identity, create_trace,
}
use meshcore.Runtime.Pending.{
  pending_discovery_register, pending_trace_register, pending_telemetry_register,
  pending_binary_register,
}
use meshcore.Runtime.Replies.{server_response_delay_ms}
use meshcore.Runtime.Validate.{BinaryRequest, validate_node_trace}
use meshcore.Runtime.Local.{
  RuntimeHost, sync_local_identity, unique_time, flood_made, direct_made, send_to_peer,
}
use meshcore.Runtime.Outbox.{made_or_logged, synced_or_logged, registered, secret_with}

unfoldable pub telemetry_wire_encode : ℕ → ℕ
telemetry_wire_encode permission_mask = 255 - permission_mask

unfoldable pub req_data : MeshHost → Dispatcher → ℕ → List ℕ
req_data h d permission_mask =
    0x03 ∷ telemetry_wire_encode permission_mask ∷ 0 ∷ 0 ∷ 0 ∷ take 4 (h.random d 4)

-- A tag of 0 is replaced by the time.
abbrev pub tag_or_time : MeshHost → Dispatcher → ℕ → ℕ × Dispatcher
tag_or_time h d tag = if tag == 0 then unique_time h d else (tag, d)

abbrev pub req_made : MeshHost → Dispatcher → List ℕ → List ℕ → Option ℕ × Dispatcher
req_made h d public_key bytes =
    create_datagram h d payload_type_req (init_from_pub_key public_key) (secret_with h d public_key)
      (some bytes) (length bytes)

abbrev pub discover_path_with : MeshHost → RuntimeHost → List ℕ → ℕ × Dispatcher → Dispatcher
discover_path_with h rh public_key (tag, d) =
    made_or_logged 5 (req_made h d public_key (bytes32 tag ++ req_data h d 0x01)) (λ made.
      flood_made h rh
        (registered
          (λ r. pending_discovery_register rh.long_bits (rh.millis made.1) r tag (some public_key))
          made)
        0)

unfoldable pub execute_node_discover_path :
    MeshHost → RuntimeHost → Dispatcher → List ℕ → ℕ → Dispatcher
execute_node_discover_path h rh d public_key tag =
    synced_or_logged 5 (sync_local_identity rh d)
      (λ d1. discover_path_with h rh public_key (tag_or_time h d1 tag))

-- The loop over the hops: the first bytes of each hash.
unfoldable pub shortened : ℕ → ℕ → ℕ → List ℕ → List ℕ
shortened zero trace_hash_size path_hash_size path = []
shortened (suc hops) trace_hash_size path_hash_size path =
    take trace_hash_size path
    ++ shortened hops trace_hash_size path_hash_size (drop path_hash_size path)

abbrev pub trace_with : MeshHost → RuntimeHost → List ℕ → ℕ → ℕ × Dispatcher → Dispatcher
trace_with h rh path flags (tag, d) =
    made_or_logged 6 (create_trace d tag (rh.millis d % 2 ^ 24) flags) (λ made.
      direct_made h
        (registered (λ r. pending_trace_register rh.long_bits (rh.millis made.1) r tag) made) path
        (u8 (length path)) 0)

-- A hash of three bytes is cut to two; the flags are the logarithm of the size.
unfoldable pub trace_path_of : List ℕ → ℕ → List ℕ
trace_path_of path path_hash_size =
    if path_hash_size == 3
    then shortened (length path / path_hash_size) 2 path_hash_size path
    else path

unfoldable pub execute_node_trace_path :
    MeshHost → RuntimeHost → Dispatcher → List ℕ → ℕ → ℕ → Dispatcher
execute_node_trace_path h rh d path path_hash_size tag =
    let trace_path = trace_path_of path path_hash_size in
    let trace_len = length trace_path in
    if not (validate_node_trace (some path) (length path) path_hash_size)
    then d
    else if ltb (payload_max_len - 9) trace_len || ltb max_path_len trace_len
    then d
    else trace_with h rh trace_path (if path_hash_size == 1 then 0 else 1) (tag_or_time h d tag)

abbrev pub telemetry_with : MeshHost → RuntimeHost → List ℕ → ℕ → ℕ × Dispatcher → Dispatcher
telemetry_with h rh public_key permission_mask (tag, d) =
    made_or_logged 7 (req_made h d public_key (bytes32 tag ++ req_data h d permission_mask))
      (λ made.
        send_to_peer h rh
          (registered
            (λ r.
              pending_telemetry_register rh.long_bits (rh.millis made.1) r tag (some public_key)
                permission_mask)
            made)
          public_key 0)

unfoldable pub execute_node_telemetry :
    MeshHost → RuntimeHost → Dispatcher → List ℕ → ℕ → ℕ → Dispatcher
execute_node_telemetry h rh d public_key permission_mask tag =
    synced_or_logged 7 (sync_local_identity rh d)
      (λ d1. telemetry_with h rh public_key permission_mask (tag_or_time h d1 tag))

abbrev pub binary_with : MeshHost → RuntimeHost → List ℕ → List ℕ → ℕ × Dispatcher → Dispatcher
binary_with h rh public_key payload (tag, d) =
    made_or_logged 8 (req_made h d public_key (bytes32 tag ++ payload)) (λ made.
      send_to_peer h rh
        (registered
          (λ r. pending_binary_register rh.long_bits (rh.millis made.1) r tag (some public_key))
          made)
        public_key 0)

-- The unique time is taken also where a tag is given.
unfoldable pub execute_node_binary :
    MeshHost → RuntimeHost → Dispatcher → List ℕ → List ℕ → ℕ → Dispatcher
execute_node_binary h rh d public_key payload tag =
    synced_or_logged 8 (sync_local_identity rh d) (λ d1.
      let (now, d2) = unique_time h d1 in
      binary_with h rh public_key payload (if tag == 0 then now else tag, d2))

unfoldable pub execute_node_anon_data :
    MeshHost → RuntimeHost → Dispatcher → List ℕ → List ℕ → Dispatcher
execute_node_anon_data h rh d public_key payload =
    synced_or_logged 14 (sync_local_identity rh d) (λ d1.
      made_or_logged 14
        (create_anon_datagram h d1 payload_type_anon_req d1.owner_mesh.self_id
          (init_from_pub_key public_key) (secret_with h d1 public_key) (some payload)
          (length payload))
        (λ made. send_to_peer h rh made public_key 0))

unfoldable pub binary_response_from :
    MeshHost → RuntimeHost → BinaryRequest → List ℕ → Dispatcher → Dispatcher
binary_response_from h rh request payload d =
    let bytes = bytes32 request.tag ++ payload in
    let recipient = init_from_pub_key request.public_key in
    let secret = secret_with h d request.public_key in
    if request.route == 1
    then made_or_logged 13
        (create_path_return_by_identity h d recipient secret (some request.path) request.path_len
          payload_type_response (some bytes) (length bytes))
        (λ made. flood_made h rh made server_response_delay_ms)
    else made_or_logged 13
        (create_datagram h d payload_type_response recipient secret (some bytes) (length bytes))
        (λ made. send_to_peer h rh made request.public_key server_response_delay_ms)

unfoldable pub execute_node_binary_response :
    MeshHost → RuntimeHost → Dispatcher → BinaryRequest → List ℕ → Dispatcher
execute_node_binary_response h rh d request payload =
    synced_or_logged 13 (sync_local_identity rh d)
      (λ d1. binary_response_from h rh request payload d1)
