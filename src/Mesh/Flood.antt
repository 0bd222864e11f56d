-- ===== src/Mesh/Flood.antt =====
-- The packets of `meshcore_mesh_on_recv_packet` in `src/core/meshcore_mesh.c` that are for every node:
-- ACK, ANON_REQ, GRP_DATA, GRP_TXT, ADVERT, RAW_CUSTOM and MULTIPART.
use meshcore.Prelude.{
  word32, ℕ, ◌+◌, ◌-◌, Bool, false, ◌&&◌, ◌||◌, not, some, List, [], ◌∷◌, ◌++◌, take, drop, length,
  get_or, ltb, leb, ◌==◌, if◌then◌else◌, pos, negsuc,
}
use meshcore.Packet.{Packet, mark_do_not_retransmit, is_route_direct}
use meshcore.Cipher.{Output, mac_size, mac_then_decrypt}
use meshcore.Identity.{
  Identity, public_key_size, init_from_pub_key, is_hash_match, matches_by_pub_key, verify,
  calc_shared_secret,
}
use meshcore.Dispatcher.{Dispatcher, packet_at}
use meshcore.Dispatcher.Receive.{action_release}
use meshcore.Mesh.{
  MeshHost, Channel, ack_recv, anon_data_recv, group_data_recv, advert_recv, raw_data_recv,
  write_packet, own_identity, tell, tables_has_seen, route_recv_packet,
}
use meshcore.Mesh.Create.{max_advert_data_size}
use meshcore.Mesh.Acks.{unwrapped, is_wrapped_ack}

unfoldable pub on_ack : MeshHost → Dispatcher → ℕ → ℕ × Dispatcher
on_ack h d p =
    let packet = packet_at d p in
    let (seen, d1) = tables_has_seen h d packet in
    if ltb packet.payload_len 4
    then (action_release, d)
    else if seen
    then (action_release, d1)
    else route_recv_packet h (tell h (ack_recv packet (word32 packet.payload 0)) d1) p

unfoldable pub deliver_anon : MeshHost → Dispatcher → ℕ → List ℕ → Identity → Output → Dispatcher
deliver_anon h d p secret sender (negsuc n, text) = d
deliver_anon h d p secret sender (pos len, text) =
    let d1 = tell h (anon_data_recv p secret sender text) d in
    if len == 0 then d else write_packet d1 p (mark_do_not_retransmit (packet_at d1 p))

unfoldable pub on_anon : MeshHost → Dispatcher → ℕ → ℕ × Dispatcher
on_anon h d p =
    let packet = packet_at d p in
    let i = 1 + public_key_size in
    let len = packet.payload_len - i in
    let mac_and_data = take len (drop i packet.payload) in
    let sender = init_from_pub_key (drop 1 packet.payload) in
    let (seen, d1) = tables_has_seen h d packet in
    let secret = calc_shared_secret h.curve d1.owner_mesh.self_id sender.pub_key in
    let output = mac_then_decrypt h.cipher secret mac_and_data (pos len) in
    let d2 =
      if is_hash_match (own_identity d1) (take 1 packet.payload)
      then deliver_anon h d1 p secret sender output
      else d1 in
    if ltb packet.payload_len i || leb packet.payload_len (i + mac_size)
    then (action_release, d)
    else if seen
    then (action_release, d1)
    else route_recv_packet h d2 p

-- `len > 0`.
abbrev pub is_opened : Output → Bool
is_opened (negsuc n, text) = false
is_opened (pos len, text) = ltb 0 len

-- The loop over the channels of the hash: the first whose key opens the text is told.
unfoldable pub deliver_group :
    List Channel → MeshHost → Dispatcher → ℕ → ℕ → List ℕ → ℕ → Dispatcher
deliver_group [] h d p type mac_and_data len = d
deliver_group (channel ∷ channels) h d p type mac_and_data len =
    let output = mac_then_decrypt h.cipher channel.secret mac_and_data (pos len) in
    let rest = deliver_group channels h d p type mac_and_data len in
    if is_opened output then tell h (group_data_recv p type channel output.1) d else rest

unfoldable pub on_group : MeshHost → Dispatcher → ℕ → ℕ → ℕ × Dispatcher
on_group h d p type =
    let packet = packet_at d p in
    let len = packet.payload_len - 1 in
    let mac_and_data = take len (drop 1 packet.payload) in
    let (seen, d1) = tables_has_seen h d packet in
    let channels = take 4 (h.search_channels d1 (get_or packet.payload 0 0)) in
    if ltb packet.payload_len 1 || leb packet.payload_len (1 + mac_size)
    then (action_release, d)
    else if seen
    then (action_release, d1)
    else route_recv_packet h (deliver_group channels h d1 p type mac_and_data len) p

-- The length of the application data that is read: what is longer is cut.
unfoldable pub advert_data_len : ℕ → ℕ
advert_data_len rest = if ltb max_advert_data_size rest then max_advert_data_size else rest

-- The signed bytes: the key, the time and the application data.
unfoldable pub advert_message : Packet → List ℕ
advert_message packet =
    let i = public_key_size + 4 + 64 in
    (init_from_pub_key packet.payload).pub_key
    ++ (take 4 (drop public_key_size packet.payload)
        ++ take (advert_data_len (packet.payload_len - i)) (drop i packet.payload))

unfoldable pub is_signed : MeshHost → Packet → Bool
is_signed h packet =
    verify h.curve (init_from_pub_key packet.payload)
      (take 64 (drop (public_key_size + 4) packet.payload)) (advert_message packet)
      (pos (length (advert_message packet)))

-- An advert of another node.
unfoldable pub check_advert : MeshHost → Dispatcher → ℕ → ℕ × Dispatcher
check_advert h d p =
    let packet = packet_at d p in
    let i = public_key_size + 4 + 64 in
    let app_data = take (advert_data_len (packet.payload_len - i)) (drop i packet.payload) in
    let event =
      advert_recv p (init_from_pub_key packet.payload) (word32 packet.payload public_key_size)
        app_data in
    let (seen, d1) = tables_has_seen h d packet in
    if seen || not (is_signed h packet)
    then (action_release, d1)
    else route_recv_packet h (tell h event d1) p

unfoldable pub on_advert : MeshHost → Dispatcher → ℕ → ℕ × Dispatcher
on_advert h d p =
    let packet = packet_at d p in
    if ltb packet.payload_len (public_key_size + 4 + 64)
    then (action_release, d)
    else if matches_by_pub_key (own_identity d) (init_from_pub_key packet.payload).pub_key
    then (action_release, d)
    else check_advert h d p

unfoldable pub on_raw : MeshHost → Dispatcher → ℕ → ℕ × Dispatcher
on_raw h d p =
    let packet = packet_at d p in
    let (seen, d1) = tables_has_seen h d packet in
    if not (is_route_direct (some packet))
    then (action_release, d)
    else if seen
    then (action_release, d1)
    else (action_release, tell h (raw_data_recv p) d1)

unfoldable pub on_multipart : MeshHost → Dispatcher → ℕ → ℕ × Dispatcher
on_multipart h d p =
    let packet = packet_at d p in
    let tmp = unwrapped packet in
    let (seen, d1) = tables_has_seen h d tmp in
    if not (ltb 2 packet.payload_len && is_wrapped_ack packet)
    then (action_release, d)
    else if not seen && leb 4 tmp.payload_len
    then (action_release, tell h (ack_recv tmp (word32 tmp.payload 0)) d1)
    else (action_release, d1)
