-- ===== src/Runtime/Asked.antt =====
-- Who holds the packets of the requests of `src/runtime/meshcore_runtime_request.c`: none is kept.
use meshcore.Prelude.{ℕ, Bool, true, false, Option, none, some, List, ◌==◌, if◌then◌else◌}
use meshcore.Context.{RuntimeState}
use meshcore.Packet.{Packet}
use meshcore.Dispatcher.{Dispatcher}
use meshcore.Mesh.{MeshHost, Channel}
use meshcore.Mesh.Trade.{
  Keeps, Obtains, Trade, stays, then-Trade, while_held, if-Trade, write_packet-Keeps,
  release_packet-Consumes, obtain_new_packet-Obtains,
}
use meshcore.Mesh.Sent.{
  create_control_data-Obtains, create_raw_data-Obtains, create_trace-Obtains, create_advert-Obtains,
  create_datagram-Obtains, create_anon_datagram-Obtains, create_group_datagram-Obtains,
  create_path_return_by_identity-Obtains, send_zero_hop-Consumes,
}
use meshcore.Runtime.Local.{
  RuntimeHost, NodeIdentity, AdvertProfile, sync_local_identity, unique_time,
}
use meshcore.Runtime.Sent.{
  with_state-Keeps, sync_local_identity-Keeps, flood_made-Keeps, direct_made-Keeps,
  send_to_peer-Keeps,
}
use meshcore.Runtime.Validate.{BinaryRequest}
use meshcore.Runtime.Outbox.{
  made_or_logged, synced_or_logged, zero_hop_made, advert_sent, execute_node_advert,
  advert_repeated, peer_advert_sent, execute_node_peer_advert, message_to_node,
  execute_message_send_to_node, to_channel, message_to_channel, execute_message_send_to_channel,
}
use meshcore.Runtime.Asking.{
  trace_path_of, tag_or_time, discover_path_with, execute_node_discover_path, trace_with,
  execute_node_trace_path, telemetry_with, execute_node_telemetry, binary_with, execute_node_binary,
  execute_node_anon_data, binary_response_from, execute_node_binary_response,
}
use meshcore.Runtime.Execute.{
  Request, execute, node_advert, node_peer_advert, message_send_to_node, message_send_to_channel,
  node_discover_path, node_trace_path, node_telemetry, node_binary, node_discover, channel_data,
  raw_data, control_data, node_binary_response, node_anon_data, execute_node_discover,
  execute_channel_data, execute_raw_data, execute_control_data,
}

-- What is passed on is what was made.
made_or_logged-Keeps :
    {d : Dispatcher} (type : ℕ) (made : Option ℕ × Dispatcher)
    → (send : Option ℕ × Dispatcher → Dispatcher) → Obtains d made
    → ((m : Option ℕ × Dispatcher) → Obtains d m → Keeps d (send m))
    → Keeps d (made_or_logged type made send)
made_or_logged-Keeps type (none, d1) send s k = then-Trade s (with_state-Keeps _ d1)
made_or_logged-Keeps type (some p, d1) send s k = k (some p, d1) s

registered-Obtains :
    {d : Dispatcher} (state : RuntimeState) (m : Option ℕ × Dispatcher)
    → Obtains d m
    → Obtains d (m.0, record m.1 { owner_mesh = record m.1.owner_mesh { runtime = state } })
registered-Obtains state m s = record { owned = λ held o. s.owned held o; outbound = s.outbound }

synced_or_logged-Keeps :
    {d : Dispatcher} (type : ℕ) (s : Bool × Dispatcher) (run : Dispatcher → Dispatcher)
    → Keeps d s.1
    → ((d1 : Dispatcher) → Keeps d1 (run d1))
    → Keeps d (synced_or_logged type s run)
synced_or_logged-Keeps type (false, d1) run s k = then-Trade s (with_state-Keeps _ d1)
synced_or_logged-Keeps type (true, d1) run s k = then-Trade s (k d1)

unique_time-Keeps : (h : MeshHost) (d : Dispatcher) → Keeps d (unique_time h d).1
unfolding unique_time
unique_time-Keeps h d = with_state-Keeps _ d

if-tag :
    {d : Dispatcher} (x y : ℕ × Dispatcher) (c : Bool)
    → Keeps d x.1
    → Keeps d y.1
    → Keeps d (if c then x else y).1
if-tag x y true s t = s
if-tag x y false s t = t

pub tag_or_time-Keeps : (h : MeshHost) (d : Dispatcher) (tag : ℕ) → Keeps d (tag_or_time h d tag).1
tag_or_time-Keeps h d tag =
    if-tag (unique_time h d) (tag, d) (tag == 0) (unique_time-Keeps h d) (stays none d)

module _ (h : MeshHost) (rh : RuntimeHost) where
  zero_hop_made-Keeps :
      {d : Dispatcher} (made : Option ℕ × Dispatcher)
      → Obtains d made
      → Keeps d (zero_hop_made h made)
  zero_hop_made-Keeps (none, d1) s = s
  zero_hop_made-Keeps (some p, d1) s = then-Trade s (send_zero_hop-Consumes h d1 (some p) 0)

  module _ (d : Dispatcher) where
    advert_sent-Keeps :
        (flood : Bool) (identity : Option NodeIdentity) (profile : Option AdvertProfile)
        → Keeps d (advert_sent h rh flood d identity profile)
    advert_sent-Keeps flood none profile = with_state-Keeps _ d
    advert_sent-Keeps flood (some identity) none = with_state-Keeps _ d
    advert_sent-Keeps flood (some identity) (some profile) = if-Trade _ (stays none d) (
        made_or_logged-Keeps 1 _ _ (create_advert-Obtains h d _ _ _)
          (λ m s. if-Trade flood (flood_made-Keeps h rh d m 0 s) (zero_hop_made-Keeps m s)))

    advert_repeated-Trade :
        (p : ℕ) (read : Bool × Packet) → Trade (some p) none d (advert_repeated h d p read)
    unfolding advert_repeated
    advert_repeated-Trade p (ok, packet) =
        let written = while_held p (write_packet-Keeps d p packet) in
        if-Trade _ (then-Trade written (release_packet-Consumes _ p))
          (then-Trade written (send_zero_hop-Consumes h _ (some p) 0))

    message_to_node-Keeps :
        (public_key : List ℕ) (flood : Bool) (attempt : ℕ) (payload : List ℕ)
        → Keeps d (message_to_node h rh public_key flood attempt payload d)
    unfolding message_to_node
    message_to_node-Keeps public_key flood attempt payload =
        made_or_logged-Keeps 3 _ _ (create_datagram-Obtains h d _ _ _ _ _) (λ m s.
          let waiting = registered-Obtains _ m s in
          if-Trade flood (flood_made-Keeps h rh d _ 0 waiting)
            (send_to_peer-Keeps h rh d _ public_key 0 waiting))

    to_channel-Keeps :
        (secret : List ℕ) (hash : Option (List ℕ)) (send : Channel → Dispatcher)
        → ((channel : Channel) → Keeps d (send channel))
        → Keeps d (to_channel h rh d secret hash send)
    to_channel-Keeps secret none send k = stays none d
    to_channel-Keeps secret (some hash) send k = if-Trade _ (k _) (stays none d)

    message_to_channel-Keeps :
        (secret payload : List ℕ) (identity : Option NodeIdentity)
        → Keeps d (message_to_channel h rh d secret payload identity)
    message_to_channel-Keeps secret payload none = with_state-Keeps _ d
    message_to_channel-Keeps secret payload (some identity) =
        to_channel-Keeps secret (rh.channel_hash secret) _ (λ channel. if-Trade _ (stays none d) (
          made_or_logged-Keeps 4 _ _ (create_group_datagram-Obtains h d _ channel _ _)
            (λ m s. flood_made-Keeps h rh d m 0 s)))

    channel_data-Keeps :
        (secret path : List ℕ) (path_len data_type : ℕ) (payload : List ℕ)
        → Keeps d (execute_channel_data h rh d secret path path_len data_type payload)
    unfolding execute_channel_data
    channel_data-Keeps secret path path_len data_type payload =
        to_channel-Keeps secret (rh.channel_hash secret) _ (λ channel.
          made_or_logged-Keeps 10 _ _ (create_group_datagram-Obtains h d _ channel _ _) (λ m s.
            if-Trade _ (flood_made-Keeps h rh d m 0 s)
              (direct_made-Keeps h rh d m path path_len 0 s)))

    trace_with-Keeps :
        (path : List ℕ) (flags tag : ℕ) → Keeps d (trace_with h rh path flags (tag, d))
    trace_with-Keeps path flags tag =
        made_or_logged-Keeps 6 _ _ (create_trace-Obtains d tag _ flags)
          (λ m s. direct_made-Keeps h rh d _ path _ 0 (registered-Obtains _ m s))

    discover_path_with-Keeps :
        (public_key : List ℕ) (tag : ℕ) → Keeps d (discover_path_with h rh public_key (tag, d))
    discover_path_with-Keeps public_key tag =
        made_or_logged-Keeps 5 _ _ (create_datagram-Obtains h d _ _ _ _ _)
          (λ m s. flood_made-Keeps h rh d _ 0 (registered-Obtains _ m s))

    telemetry_with-Keeps :
        (public_key : List ℕ) (mask tag : ℕ)
        → Keeps d (telemetry_with h rh public_key mask (tag, d))
    telemetry_with-Keeps public_key mask tag =
        made_or_logged-Keeps 7 _ _ (create_datagram-Obtains h d _ _ _ _ _)
          (λ m s. send_to_peer-Keeps h rh d _ public_key 0 (registered-Obtains _ m s))

    binary_with-Keeps :
        (public_key payload : List ℕ) (tag : ℕ)
        → Keeps d (binary_with h rh public_key payload (tag, d))
    binary_with-Keeps public_key payload tag =
        made_or_logged-Keeps 8 _ _ (create_datagram-Obtains h d _ _ _ _ _)
          (λ m s. send_to_peer-Keeps h rh d _ public_key 0 (registered-Obtains _ m s))

    response_from-Keeps :
        (request : BinaryRequest) (payload : List ℕ)
        → Keeps d (binary_response_from h rh request payload d)
    unfolding binary_response_from
    response_from-Keeps request payload =
        if-Trade _
          (made_or_logged-Keeps 13 _ _ (create_path_return_by_identity-Obtains h d _ _ _ _ _ _ _)
            (λ m s. flood_made-Keeps h rh d m 300 s))
          (made_or_logged-Keeps 13 _ _ (create_datagram-Obtains h d _ _ _ _ _)
            (λ m s. send_to_peer-Keeps h rh d m request.public_key 300 s))

  peer_advert_sent-Keeps :
      {d : Dispatcher} (raw : List ℕ) (made : Option ℕ × Dispatcher)
      → Obtains d made
      → Keeps d (peer_advert_sent h raw made)
  peer_advert_sent-Keeps raw (none, d1) s = then-Trade s (with_state-Keeps _ d1)
  peer_advert_sent-Keeps raw (some p, d1) s = then-Trade s (advert_repeated-Trade d1 p _)

  synced_first :
      {d : Dispatcher} (type : ℕ) (run : Dispatcher → Dispatcher)
      → ((d1 : Dispatcher) → Keeps d1 (run d1))
      → Keeps d (synced_or_logged type (sync_local_identity rh d) run)
  synced_first {d} type run k =
      synced_or_logged-Keeps type (sync_local_identity rh d) run (sync_local_identity-Keeps rh d) k

  with_tag-Keeps :
      (d : Dispatcher) (tag : ℕ) (run : ℕ × Dispatcher → Dispatcher)
      → ((t : ℕ) (d1 : Dispatcher) → Keeps d1 (run (t, d1)))
      → Keeps d (run (tag_or_time h d tag))
  with_tag-Keeps d tag run k =
      then-Trade (tag_or_time-Keeps h d tag) (k (tag_or_time h d tag).0 (tag_or_time h d tag).1)

  -- A request that is carried out keeps no packet, and leaves the one on air.
  pub execute-Keeps : (request : Request) (d : Dispatcher) → Keeps d (execute h rh request d)
  unfolding execute execute_node_advert execute_node_peer_advert execute_message_send_to_node
      execute_message_send_to_channel execute_node_discover_path execute_node_trace_path
      execute_node_telemetry execute_node_binary execute_node_discover execute_raw_data
      execute_control_data execute_node_binary_response execute_node_anon_data
  execute-Keeps (node_advert flood) d = synced_first 1 _ (λ d1. advert_sent-Keeps d1 flood _ _)
  execute-Keeps (node_peer_advert raw) d =
      peer_advert_sent-Keeps raw _ (obtain_new_packet-Obtains d)
  execute-Keeps (message_send_to_node public_key flood attempt payload) d =
      synced_first 3 _ (λ d1.
        if-Trade _ (stays none d1) (message_to_node-Keeps d1 public_key flood attempt payload))
  execute-Keeps (message_send_to_channel secret payload) d =
      message_to_channel-Keeps d secret payload (rh.identity d)
  execute-Keeps (node_discover_path public_key tag) d = synced_first 5 _ (λ d1.
      with_tag-Keeps d1 tag (λ r. discover_path_with h rh public_key r)
        (λ t d2. discover_path_with-Keeps d2 public_key t))
  execute-Keeps (node_trace_path path path_hash_size tag) d = if-Trade _ (stays none d) (
      if-Trade _ (stays none d) (
        with_tag-Keeps d tag
          (λ r.
            trace_with h rh (trace_path_of path path_hash_size)
              (if path_hash_size == 1 then 0 else 1) r)
          (λ t d1. trace_with-Keeps d1 _ _ t)))
  execute-Keeps (node_telemetry public_key mask tag) d = synced_first 7 _ (λ d1.
      with_tag-Keeps d1 tag (λ r. telemetry_with h rh public_key mask r)
        (λ t d2. telemetry_with-Keeps d2 public_key mask t))
  execute-Keeps (node_binary public_key payload tag) d =
      synced_first 8 _
        (λ d1. then-Trade (unique_time-Keeps h d1) (binary_with-Keeps _ public_key payload _))
  execute-Keeps (node_discover filter prefix_only since tag) d =
      made_or_logged-Keeps 9 _ _ (create_control_data-Obtains d _ _)
        (λ m s. zero_hop_made-Keeps m s)
  execute-Keeps (channel_data secret path path_len data_type payload) d =
      channel_data-Keeps d secret path path_len data_type payload
  execute-Keeps (raw_data path path_len payload) d =
      made_or_logged-Keeps 11 _ _ (create_raw_data-Obtains d _ _)
        (λ m s. direct_made-Keeps h rh d m path path_len 0 s)
  execute-Keeps (control_data payload) d =
      made_or_logged-Keeps 12 _ _ (create_control_data-Obtains d _ _)
        (λ m s. zero_hop_made-Keeps m s)
  execute-Keeps (node_binary_response request payload) d =
      synced_first 13 _ (λ d1. response_from-Keeps d1 request payload)
  execute-Keeps (node_anon_data public_key payload) d = synced_first 14 _ (λ d1.
      made_or_logged-Keeps 14 _ _ (create_anon_datagram-Obtains h d1 _ _ _ _ _ _)
        (λ m s. send_to_peer-Keeps h rh d1 m public_key 0 s))
