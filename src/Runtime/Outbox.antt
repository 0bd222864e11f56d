-- ===== src/Runtime/Outbox.antt =====
-- The adverts and the messages that `src/runtime/meshcore_runtime_request.c` sends. The shared secrets
-- that the code wipes are values here.
use meshcore.Prelude.{
  bytes32, word32, ℕ, ◌+◌, ◌-◌, Bool, true, false, ◌&&◌, ◌||◌, not, Option, none, some, List, [],
  ◌∷◌, ◌++◌, length, take, get_or, overwrite, replicate, bit_and, u8, ltb, leb, ◌==◌, if◌then◌else◌,
}
use meshcore.Context.{Requests, request_error}
use meshcore.Crypto.{sha256_two_fragments}
use meshcore.Hex.{c_string}
use meshcore.Packet.{
  Packet, payload_type_txt_msg, payload_type_advert, payload_type_grp_txt, get_payload_type,
}
use meshcore.Packet.Codec.{read_from}
use meshcore.Advert.{builder_init_with_name, encode_to}
use meshcore.Identity.{public_key_size, init_from_pub_key, calc_shared_secret}
use meshcore.Dispatcher.{Dispatcher, packet_at, obtain_new_packet, release_packet}
use meshcore.Mesh.{MeshHost, Channel, write_packet, own_identity}
use meshcore.Mesh.Create.{create_advert, create_datagram, create_group_datagram}
use meshcore.Mesh.Send.{send_zero_hop}
use meshcore.Runtime.Pending.{expected_ack_register}
use meshcore.Runtime.Publish.{max_message_len}
use meshcore.Runtime.Local.{
  RuntimeHost, NodeIdentity, AdvertProfile, role_to_advert_type, with_state, notify,
  sync_local_identity, flood_made, send_to_peer,
}

abbrev pub eagain : ℕ
eagain = 11

abbrev pub enobufs_number : ℕ
enobufs_number = 105

-- Every failure that is logged is a transient one.
abbrev pub log_failure : ℕ → ℕ → Dispatcher → Dispatcher
log_failure type errno d = notify (request_error type errno ∷ []) d

-- The packet that was made is passed on; where there is none, that is logged.
abbrev pub made_or_logged :
    ℕ → Option ℕ × Dispatcher → (Option ℕ × Dispatcher → Dispatcher) → Dispatcher
made_or_logged type (none, d) send = log_failure type enobufs_number d
made_or_logged type (some p, d) send = send (some p, d)

-- Nothing is done where the local identity cannot be read.
abbrev pub synced_or_logged : ℕ → Bool × Dispatcher → (Dispatcher → Dispatcher) → Dispatcher
synced_or_logged type (false, d) run = log_failure type eagain d
synced_or_logged type (true, d) run = run d

-- What is waited for is noted when the packet is there.
abbrev pub registered : (Requests → Requests) → Option ℕ × Dispatcher → Option ℕ × Dispatcher
registered f (p, d) = (p, with_state (λ s. record s { requests = f s.requests }) d)

abbrev pub secret_with : MeshHost → Dispatcher → List ℕ → List ℕ
secret_with h d public_key = calc_shared_secret h.curve d.owner_mesh.self_id public_key

abbrev pub zero_hop_made : MeshHost → Option ℕ × Dispatcher → Dispatcher
zero_hop_made h (none, d) = d
zero_hop_made h (some p, d) = send_zero_hop h d (some p) 0

unfoldable pub advert_of : NodeIdentity → AdvertProfile → List ℕ
advert_of identity profile =
    let builder = builder_init_with_name (role_to_advert_type identity.role) (some identity.name) in
    encode_to (
      if profile.has_position
      then record builder { has_loc = true; lat = profile.latitude; lon = profile.longitude }
      else builder)

abbrev pub advert_sent :
    MeshHost
    → RuntimeHost
    → Bool
    → Dispatcher
    → Option NodeIdentity
    → Option AdvertProfile
    → Dispatcher
advert_sent h rh flood d none profile = log_failure 1 eagain d
advert_sent h rh flood d (some identity) none = log_failure 1 eagain d
advert_sent h rh flood d (some identity) (some profile) =
    let app_data = advert_of identity profile in
    if role_to_advert_type identity.role == 0
    then d
    else made_or_logged 1 (create_advert h d d.owner_mesh.self_id (some app_data) (length app_data))
        (λ made. if flood then flood_made h rh made 0 else zero_hop_made h made)

unfoldable pub execute_node_advert : MeshHost → RuntimeHost → Dispatcher → Bool → Dispatcher
execute_node_advert h rh d flood =
    synced_or_logged 1 (sync_local_identity rh d)
      (λ d1. advert_sent h rh flood d1 (rh.identity d1) (rh.advert_profile d1))

-- The packet that was read, sent to the neighbours.
unfoldable pub advert_repeated : MeshHost → Dispatcher → ℕ → Bool × Packet → Dispatcher
advert_repeated h d p (ok, packet) =
    if not ok || not (get_payload_type (some packet) == payload_type_advert)
    then release_packet (write_packet d p packet) (some p)
    else send_zero_hop h (write_packet d p packet) (some p) 0

abbrev pub peer_advert_sent : MeshHost → List ℕ → Option ℕ × Dispatcher → Dispatcher
peer_advert_sent h raw_advert (none, d) = log_failure 2 enobufs_number d
peer_advert_sent h raw_advert (some p, d) =
    advert_repeated h d p (read_from (packet_at d p) (some raw_advert) (u8 (length raw_advert)))

unfoldable pub execute_node_peer_advert : MeshHost → Dispatcher → List ℕ → Dispatcher
execute_node_peer_advert h d raw_advert = peer_advert_sent h raw_advert (obtain_new_packet d)

-- The text that is encrypted and acknowledged, without what follows it.
unfoldable pub message_text : ℕ → ℕ → List ℕ → List ℕ
message_text timestamp attempt payload = bytes32 timestamp ++ (bit_and attempt 0x03 ∷ payload)

abbrev pub message_bytes : ℕ → ℕ → List ℕ → List ℕ
message_bytes timestamp attempt payload =
    message_text timestamp attempt payload ++ (if ltb 3 attempt then 0 ∷ attempt ∷ [] else [])

-- The checksum of the acknowledgement that is waited for.
unfoldable pub expected_ack : RuntimeHost → Dispatcher → List ℕ → ℕ
expected_ack rh d text =
    word32
      (sha256_two_fragments rh.fragments 4 text (take public_key_size (own_identity d).pub_key)) 0

unfoldable pub message_to_node :
    MeshHost → RuntimeHost → List ℕ → Bool → ℕ → List ℕ → Dispatcher → Dispatcher
message_to_node h rh public_key flood attempt payload d =
    let timestamp = h.rtc_time d in
    let bytes = message_bytes timestamp attempt payload in
    let crc = expected_ack rh d (message_text timestamp attempt payload) in
    made_or_logged 3
      (create_datagram h d payload_type_txt_msg (init_from_pub_key public_key)
        (secret_with h d public_key) (some bytes) (length bytes))
      (λ made.
        let waiting =
          registered
            (λ r.
              expected_ack_register rh.long_bits (rh.millis made.1) r crc (some public_key) attempt)
            made in
        if flood then flood_made h rh waiting 0 else send_to_peer h rh waiting public_key 0)

unfoldable pub execute_message_send_to_node :
    MeshHost → RuntimeHost → Dispatcher → List ℕ → Bool → ℕ → List ℕ → Dispatcher
execute_message_send_to_node h rh d public_key flood attempt payload =
    synced_or_logged 3 (sync_local_identity rh d) (λ d1.
      if ltb 3 attempt && ltb (max_message_len - 2) (length payload)
      then d1
      else message_to_node h rh public_key flood attempt payload d1)

abbrev pub padded_secret : List ℕ → List ℕ
padded_secret secret = overwrite (replicate 32 0) secret

-- A packet for a channel that the host has.
abbrev pub to_channel :
    MeshHost
    → RuntimeHost
    → Dispatcher
    → List ℕ
    → Option (List ℕ)
    → (Channel → Dispatcher)
    → Dispatcher
to_channel h rh d secret none send = d
to_channel h rh d secret (some hash) send =
    if rh.has_channel d (get_or hash 0 0) secret
    then send (record { hash = hash; secret = padded_secret secret })
    else d

-- "name: ", in an array of 35 bytes.
unfoldable pub name_prefix : List ℕ → List ℕ
name_prefix name = take 34 (c_string name ++ (58 ∷ 32 ∷ []))

abbrev pub channel_text : ℕ → List ℕ → List ℕ → List ℕ
channel_text timestamp name payload = bytes32 timestamp ++ (0 ∷ (name_prefix name ++ payload))

abbrev pub message_to_channel :
    MeshHost → RuntimeHost → Dispatcher → List ℕ → List ℕ → Option NodeIdentity → Dispatcher
message_to_channel h rh d secret payload none = log_failure 4 eagain d
message_to_channel h rh d secret payload (some identity) =
    let prefix = name_prefix identity.name in
    let bytes = channel_text (h.rtc_time d) identity.name payload in
    to_channel h rh d secret (rh.channel_hash secret) (λ channel.
      if leb max_message_len (length prefix) || ltb max_message_len (length payload + length prefix)
      then d
      else made_or_logged 4
          (create_group_datagram h d payload_type_grp_txt channel (some bytes) (length bytes))
          (λ made. flood_made h rh made 0))

unfoldable pub execute_message_send_to_channel :
    MeshHost → RuntimeHost → Dispatcher → List ℕ → List ℕ → Dispatcher
execute_message_send_to_channel h rh d secret payload =
    message_to_channel h rh d secret payload (rh.identity d)
