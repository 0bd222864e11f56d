-- ===== src/Runtime/Calls.antt =====
-- The functions of `include/meshcore/runtime.h` that ask for something to be sent, in
-- `src/runtime/meshcore_runtime_request.c`.
use meshcore.Prelude.{
  ℤ, pos, negsuc, ℕ, Bool, true, false, not, Option, none, some, List, [], u32, ◌==◌, if◌then◌else◌,
}
use meshcore.Pool.{get_free_count}
use meshcore.Identity.{public_key_size}
use meshcore.Dispatcher.{Dispatcher}
use meshcore.Dispatcher.Receive.{einval, enobufs}
use meshcore.Mesh.{MeshHost}
use meshcore.Mesh.Create.{bytes_of}
use meshcore.Runtime.{path_len_decode}
use meshcore.Runtime.Local.{RuntimeHost}
use meshcore.Runtime.Timer.{timer_sync}
use meshcore.Runtime.Validate.{
  BinaryRequest, out_path_unknown, validate_node_peer_advert, validate_message_send_to_node,
  validate_message_send_to_channel, validate_channel_data, validate_public_key,
  validate_node_telemetry, validate_node_trace, validate_raw_data, validate_control_data,
  validate_node_binary, validate_node_anon_data, validate_node_binary_response,
  validate_node_discover,
}
use meshcore.Runtime.Asking.{tag_or_time}
use meshcore.Runtime.Execute.{
  Request, execute, node_advert, node_peer_advert, message_send_to_node, message_send_to_channel,
  node_discover_path, node_trace_path, node_telemetry, node_binary, node_discover, channel_data,
  raw_data, control_data, node_binary_response, node_anon_data,
}

abbrev pub enodev : ℤ
enodev = negsuc 18

abbrev pub enotsup : ℤ
enotsup = negsuc 94

-- Every request needs a packet.
unfoldable pub execute_now : MeshHost → RuntimeHost → Request → Dispatcher → ℤ × Dispatcher
execute_now h rh request d =
    let d1 = execute h rh request d in
    if not d.owner_mesh.runtime.initialized
    then (enodev, d)
    else if get_free_count d.packet_manager == 0
    then (enobufs, d)
    else (pos 0, timer_sync h d1 (u32 (rh.millis d1)))

-- What all the functions do with arguments that are valid or not.
unfoldable pub requested : MeshHost → RuntimeHost → Dispatcher → Bool → Request → ℤ × Dispatcher
requested h rh d valid request =
    if not d.owner_mesh.runtime.initialized
    then (enodev, d)
    else if not valid
    then (einval, d)
    else execute_now h rh request d

abbrev pub tag_of : Option ℕ → ℕ
tag_of none = 0
tag_of (some tag) = tag

-- `*request_tag` after the call.
abbrev pub tag_stored : ℤ → Option ℕ → ℕ → Option ℕ
tag_stored rc none tag = none
tag_stored (pos n) (some old) tag = if n == 0 then some tag else some old
tag_stored (negsuc n) (some old) tag = some old

abbrev pub sent_with_tag : Option ℕ → ℕ → ℤ × Dispatcher → ℤ × Option ℕ × Dispatcher
sent_with_tag request_tag tag (rc, d) = (rc, tag_stored rc request_tag tag, d)

-- The functions that choose a tag where they are given none, or 0.
unfoldable pub requested_with_tag :
    MeshHost
    → RuntimeHost
    → Dispatcher
    → Bool
    → Option ℕ
    → (ℕ → Request)
    → ℤ × Option ℕ × Dispatcher
requested_with_tag h rh d valid request_tag request =
    let (tag, d1) = tag_or_time h d (tag_of request_tag) in
    if not d.owner_mesh.runtime.initialized
    then (enodev, request_tag, d)
    else if not valid
    then (einval, request_tag, d)
    else sent_with_tag request_tag tag (execute_now h rh (request tag) d1)

abbrev pub key_of : Option (List ℕ) → List ℕ
key_of public_key = bytes_of public_key public_key_size

abbrev pub path_copied : Option (List ℕ) → Option (ℕ × ℕ) → List ℕ
path_copied path none = []
path_copied path (some (path_bytes, path_hash_size)) = bytes_of path path_bytes

abbrev pub response_of : Option BinaryRequest → List ℕ → Request
response_of none payload = node_advert false
response_of (some request) payload = node_binary_response request payload

module _ (h : MeshHost) (rh : RuntimeHost) (d : Dispatcher) where
  unfoldable pub node_advert_request : Bool → ℤ × Dispatcher
  node_advert_request flood = requested h rh d true (node_advert flood)

  unfoldable pub node_peer_advert_request : Option (List ℕ) → ℕ → ℤ × Dispatcher
  node_peer_advert_request raw_advert len =
      requested h rh d (validate_node_peer_advert raw_advert len)
        (node_peer_advert (bytes_of raw_advert len))

  unfoldable pub message_to_node_send :
      Option (List ℕ) → Bool → ℕ → Option (List ℕ) → ℕ → ℤ × Dispatcher
  message_to_node_send public_key flood attempt payload len =
      requested h rh d (validate_message_send_to_node public_key attempt payload len)
        (message_send_to_node (key_of public_key) flood attempt (bytes_of payload len))

  unfoldable pub message_to_channel_send :
      Option (List ℕ) → ℕ → Option (List ℕ) → ℕ → ℤ × Dispatcher
  message_to_channel_send secret secret_len payload len =
      requested h rh d (validate_message_send_to_channel secret secret_len payload len)
        (message_send_to_channel (bytes_of secret secret_len) (bytes_of payload len))

  unfoldable pub channel_data_send :
      Option (List ℕ) → ℕ → Option (List ℕ) → ℕ → ℕ → Option (List ℕ) → ℕ → ℤ × Dispatcher
  channel_data_send secret secret_len path path_len data_type payload len =
      let copied : List ℕ =
        if path_len == out_path_unknown then [] else path_copied path (path_len_decode path_len) in
      requested h rh d (validate_channel_data secret secret_len path path_len payload len)
        (channel_data (bytes_of secret secret_len) copied path_len data_type (bytes_of payload len))

  unfoldable pub node_discover_path_request : Option (List ℕ) → Option ℕ → ℤ × Option ℕ × Dispatcher
  node_discover_path_request public_key request_tag =
      requested_with_tag h rh d (validate_public_key public_key) request_tag
        (λ tag. node_discover_path (key_of public_key) tag)

  unfoldable pub node_trace_request : Option (List ℕ) → ℕ → ℕ → Option ℕ → ℤ × Option ℕ × Dispatcher
  node_trace_request path path_len path_hash_size request_tag =
      requested_with_tag h rh d (validate_node_trace path path_len path_hash_size) request_tag
        (λ tag. node_trace_path (bytes_of path path_len) path_hash_size tag)

  unfoldable pub node_trace_path_request : ℤ
  node_trace_path_request = enotsup

  unfoldable pub node_telemetry_request : Option (List ℕ) → ℕ → Option ℕ → ℤ × Option ℕ × Dispatcher
  node_telemetry_request public_key permission_mask request_tag =
      requested_with_tag h rh d (validate_node_telemetry public_key permission_mask) request_tag
        (λ tag. node_telemetry (key_of public_key) permission_mask tag)

  unfoldable pub node_binary_request_with_tag :
      Option (List ℕ) → Option (List ℕ) → ℕ → ℕ → ℤ × Dispatcher
  node_binary_request_with_tag public_key payload len tag =
      requested h rh d (validate_node_binary public_key payload len)
        (node_binary (key_of public_key) (bytes_of payload len) tag)

  unfoldable pub node_binary_request : Option (List ℕ) → Option (List ℕ) → ℕ → ℤ × Dispatcher
  node_binary_request public_key payload len = node_binary_request_with_tag public_key payload len 0

  unfoldable pub node_anon_data_send : Option (List ℕ) → Option (List ℕ) → ℕ → ℤ × Dispatcher
  node_anon_data_send public_key payload len =
      requested h rh d (validate_node_anon_data public_key payload len)
        (node_anon_data (key_of public_key) (bytes_of payload len))

  -- A response to no request is not valid.
  unfoldable pub node_binary_response_send :
      Option BinaryRequest → Option (List ℕ) → ℕ → ℤ × Dispatcher
  node_binary_response_send request payload len =
      requested h rh d (validate_node_binary_response request payload len)
        (response_of request (bytes_of payload len))

  unfoldable pub node_discover_request : ℕ → Bool → ℕ → Option ℕ → ℤ × Option ℕ × Dispatcher
  node_discover_request filter prefix_only since request_tag =
      requested_with_tag h rh d (validate_node_discover filter) request_tag
        (λ tag. node_discover filter prefix_only since tag)

  unfoldable pub raw_data_send : Option (List ℕ) → ℕ → Option (List ℕ) → ℕ → ℤ × Dispatcher
  raw_data_send path path_len payload len =
      requested h rh d (validate_raw_data path path_len payload len)
        (raw_data (path_copied path (path_len_decode path_len)) path_len (bytes_of payload len))

  unfoldable pub control_data_send : Option (List ℕ) → ℕ → ℤ × Dispatcher
  control_data_send payload len =
      requested h rh d (validate_control_data payload len) (control_data (bytes_of payload len))
