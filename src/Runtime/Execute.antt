-- ===== src/Runtime/Execute.antt =====
-- `meshcore_runtime_request_execute` of `src/runtime/meshcore_runtime_request.c`: what is done for a
-- request that was accepted.
use meshcore.Prelude.{
  bytes16, bytes32, ℕ, Bool, some, List, ◌∷◌, ◌++◌, length, u8, ◌==◌, if◌then◌else◌,
}
use meshcore.Packet.{payload_type_grp_data}
use meshcore.Dispatcher.{Dispatcher}
use meshcore.Mesh.{MeshHost}
use meshcore.Mesh.Create.{create_group_datagram, create_raw_data, create_control_data}
use meshcore.Runtime.Validate.{BinaryRequest, out_path_unknown}
use meshcore.Runtime.Local.{RuntimeHost, flood_made, direct_made}
use meshcore.Runtime.Outbox.{
  made_or_logged, zero_hop_made, execute_node_advert, execute_node_peer_advert,
  execute_message_send_to_node, to_channel, execute_message_send_to_channel,
}
use meshcore.Runtime.Asking.{
  execute_node_discover_path, execute_node_trace_path, execute_node_telemetry, execute_node_binary,
  execute_node_anon_data, execute_node_binary_response,
}

-- A request that was accepted, with the data of its slot. An array has the length of its data.
pub data Request : Type 0 where
  node_advert : Bool → Request
  node_peer_advert : List ℕ → Request
  message_send_to_node : List ℕ → Bool → ℕ → List ℕ → Request
  message_send_to_channel : List ℕ → List ℕ → Request
  node_discover_path : List ℕ → ℕ → Request
  node_trace_path : List ℕ → ℕ → ℕ → Request
  node_telemetry : List ℕ → ℕ → ℕ → Request
  node_binary : List ℕ → List ℕ → ℕ → Request
  node_discover : ℕ → Bool → ℕ → ℕ → Request
  channel_data : List ℕ → List ℕ → ℕ → ℕ → List ℕ → Request
  raw_data : List ℕ → ℕ → List ℕ → Request
  control_data : List ℕ → Request
  node_binary_response : BinaryRequest → List ℕ → Request
  node_anon_data : List ℕ → List ℕ → Request

unfoldable pub execute_node_discover : MeshHost → Dispatcher → ℕ → Bool → ℕ → ℕ → Dispatcher
execute_node_discover h d filter prefix_only since tag =
    let first : ℕ = if prefix_only then 0x81 else 0x80 in
    made_or_logged 9
      (create_control_data d (some (first ∷ filter ∷ bytes32 tag ++ bytes32 since)) 10)
      (λ made. zero_hop_made h made)

unfoldable pub execute_channel_data :
    MeshHost → RuntimeHost → Dispatcher → List ℕ → List ℕ → ℕ → ℕ → List ℕ → Dispatcher
execute_channel_data h rh d secret path path_len data_type payload =
    let bytes = bytes16 data_type ++ (u8 (length payload) ∷ payload) in
    to_channel h rh d secret (rh.channel_hash secret) (λ channel.
      made_or_logged 10
        (create_group_datagram h d payload_type_grp_data channel (some bytes) (length bytes))
        (λ made.
          if path_len == out_path_unknown
          then flood_made h rh made 0
          else direct_made h made path path_len 0))

unfoldable pub execute_raw_data : MeshHost → Dispatcher → List ℕ → ℕ → List ℕ → Dispatcher
execute_raw_data h d path path_len payload =
    made_or_logged 11 (create_raw_data d (some payload) (length payload))
      (λ made. direct_made h made path path_len 0)

unfoldable pub execute_control_data : MeshHost → Dispatcher → List ℕ → Dispatcher
execute_control_data h d payload =
    made_or_logged 12 (create_control_data d (some payload) (length payload))
      (λ made. zero_hop_made h made)

unfoldable pub execute : MeshHost → RuntimeHost → Request → Dispatcher → Dispatcher
execute h rh (node_advert flood) d = execute_node_advert h rh d flood
execute h rh (node_peer_advert raw_advert) d = execute_node_peer_advert h d raw_advert
execute h rh (message_send_to_node public_key flood attempt payload) d =
    execute_message_send_to_node h rh d public_key flood attempt payload
execute h rh (message_send_to_channel secret payload) d =
    execute_message_send_to_channel h rh d secret payload
execute h rh (node_discover_path public_key tag) d =
    execute_node_discover_path h rh d public_key tag
execute h rh (node_trace_path path path_hash_size tag) d =
    execute_node_trace_path h rh d path path_hash_size tag
execute h rh (node_telemetry public_key permission_mask tag) d =
    execute_node_telemetry h rh d public_key permission_mask tag
execute h rh (node_binary public_key payload tag) d =
    execute_node_binary h rh d public_key payload tag
execute h rh (node_discover filter prefix_only since tag) d =
    execute_node_discover h d filter prefix_only since tag
execute h rh (channel_data secret path path_len data_type payload) d =
    execute_channel_data h rh d secret path path_len data_type payload
execute h rh (raw_data path path_len payload) d = execute_raw_data h d path path_len payload
execute h rh (control_data payload) d = execute_control_data h d payload
execute h rh (node_binary_response request payload) d =
    execute_node_binary_response h rh d request payload
execute h rh (node_anon_data public_key payload) d =
    execute_node_anon_data h rh d public_key payload
