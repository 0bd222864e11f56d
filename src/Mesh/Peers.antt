-- ===== src/Mesh/Peers.antt =====
-- The packets of `meshcore_mesh_on_recv_packet` in `src/core/meshcore_mesh.c` that are addressed to a
-- node: PATH, REQ, RESPONSE and TXT_MSG.
use meshcore.Prelude.{
  ℕ, zero, suc, ◌+◌, ◌-◌, ◌*◌, Bool, true, false, ◌&&◌, ◌||◌, not, Option, none, some, List, [],
  ◌∷◌, take, drop, get_or, bit_and, u8, ◌>>>◌, ltb, leb, ◌==◌, if◌then◌else◌, pos, negsuc,
}
use meshcore.Packet.{payload_type_path, mark_do_not_retransmit, is_route_flood}
use meshcore.Cipher.{Output, mac_size, mac_then_decrypt}
use meshcore.Identity.{is_hash_match}
use meshcore.Dispatcher.{Dispatcher, packet_at}
use meshcore.Dispatcher.Receive.{action_release}
use meshcore.Mesh.{
  MeshHost, Peer, peer_path_recv, peer_data_recv, write_packet, own_identity, tell, tables_has_seen,
  route_recv_packet,
}
use meshcore.Mesh.Create.{create_path_return_by_dest_hash}
use meshcore.Mesh.Send.{send_direct}

-- The bytes that a path length byte stands for.
abbrev pub bytes_on_path : ℕ → ℕ
bytes_on_path path_len = u8 ((path_len >>> 6) + 1) * bit_and path_len 63

-- A decrypted PATH text holds its path and the byte behind it.
abbrev pub holds_path : ℕ → List ℕ → Bool
holds_path len text = not (ltb len 2) && not (ltb len (1 + bytes_on_path (get_or text 0 0) + 1))

-- The loop goes on to the next peer where this is false.
unfoldable pub is_usable : ℕ → Output → Bool
is_usable type (negsuc n, text) = false
is_usable type (pos len, text) =
    if len == 0 then false else if type == payload_type_path then holds_path len text else true

-- The loop over the peers that the host knows by the source hash. The fuel bounds the rounds.
unfoldable pub find_sender :
    ℕ → MeshHost → Dispatcher → ℕ → ℕ → List ℕ → ℕ → ℕ → Option (Peer × Output)
find_sender zero h d type src_hash mac_and_data len cursor = none
find_sender (suc fuel) h d type src_hash mac_and_data len cursor =
    elim (h.next_peer d src_hash cursor) [
      | none ↦ none
      | some peer ↦
          let output = mac_then_decrypt h.cipher peer.secret mac_and_data (pos len) in
          let rest = find_sender fuel h d type src_hash mac_and_data len (peer.slot + 1) in
          if is_usable type output then some (peer, output) else rest
    ]

unfoldable pub return_path : MeshHost → Option ℕ × Dispatcher → List ℕ → ℕ → Dispatcher
return_path h (none, d) path path_len = d
return_path h (some r, d) path path_len = send_direct h d (some r) (some path) path_len 500

unfoldable pub deliver_path : MeshHost → Dispatcher → ℕ → ℕ → Peer → ℕ → List ℕ → Dispatcher
deliver_path h d p src_hash peer len text =
    let path_len = get_or text 0 0 in
    let k = 1 + bytes_on_path path_len in
    let path = take (bytes_on_path path_len) (drop 1 text) in
    let extra_type = bit_and (get_or text k 0) 0x0F in
    let extra = take (u8 (len - (k + 1))) (drop (k + 1) text) in
    let (wanted, d1) = h.react (peer_path_recv p peer path path_len extra_type extra) d in
    let packet = packet_at d1 p in
    let rpath =
      create_path_return_by_dest_hash h d1 (src_hash ∷ []) peer.secret (some packet.path)
        (u8 packet.path_len) 0 none 0 in
    if wanted && is_route_flood (some packet) then return_path h rpath path path_len else d1

-- What the sender's text is for; the packet is not sent on then.
unfoldable pub deliver : MeshHost → Dispatcher → ℕ → ℕ → ℕ → Option (Peer × Output) → Dispatcher
deliver h d p type src_hash none = d
deliver h d p type src_hash (some (peer, (negsuc n, text))) = d
deliver h d p type src_hash (some (peer, (pos len, text))) =
    let d1 =
      if type == payload_type_path
      then deliver_path h d p src_hash peer len text
      else tell h (peer_data_recv p type peer text) d in
    write_packet d1 p (mark_do_not_retransmit (packet_at d1 p))

unfoldable pub on_addressed : MeshHost → Dispatcher → ℕ → ℕ → ℕ × Dispatcher
on_addressed h d p type =
    let packet = packet_at d p in
    let dest_hash = get_or packet.payload 0 0 in
    let src_hash = get_or packet.payload 1 0 in
    let len = packet.payload_len - 2 in
    let mac_and_data = take len (drop 2 packet.payload) in
    let (seen, d1) = tables_has_seen h d packet in
    let sender = find_sender h.peer_slots h d1 type src_hash mac_and_data len 0 in
    let d2 =
      if is_hash_match (own_identity d1) (dest_hash ∷ [])
      then deliver h d1 p type src_hash sender
      else d1 in
    if ltb packet.payload_len 2 || leb packet.payload_len (2 + mac_size)
    then (action_release, d)
    else if seen
    then (action_release, d1)
    else route_recv_packet h d2 p
