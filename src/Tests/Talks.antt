-- ===== src/Tests/Talks.antt =====
-- The mesh between two nodes.
use meshcore.Prelude.{
  ◌+◌, ◌==◌, false, ◌<◌, ◌≡◌, refl, true, some, [], ◌∷◌, arith, replicate, length, inl, drop,
}
use meshcore.Packet.{
  get_path_hash_count, get_path_hash_size, is_route_flood, get_route_type, get_payload_type,
  payload_type_trace,
}
use meshcore.Packet.Digest.{calculate_hash, message}
use meshcore.Crypto.{sha256, or_zeros}
use meshcore.Queue.{queue_remove_by_idx}
use meshcore.Pool.{alloc_new}
use meshcore.Tables.{tables_init, has_seen, has_seen_hash, is_stored, store, count_dup}
use meshcore.Identity.{Identity, local_init, local_read_from, local_write_to}
use meshcore.Identity.Stored.{local_read_from-local_write_to}
use meshcore.Dispatcher.{Dispatcher, packet_at, obtain_new_packet, obtained}
use meshcore.Mesh.{remove_self_from_path, tables_has_seen, seen_by}
use meshcore.Mesh.Create.{create_datagram, datagram_plaintext_fits}
use meshcore.Mesh.Receive.{on_recv_packet}
use meshcore.Mesh.Route.{hops}
use meshcore.Mesh.Direct.{remove_self_from_path_lem}
use meshcore.Mesh.Echo.{sent, by_flood, small_flood, sent-heard}
use meshcore.Mesh.Duplicates.{Dropped, on_recv_packet-Dropped}
use meshcore.Mesh.Datagram.{Carries, create_datagram-Carries}
use meshcore.Tests.Packets.{text_packet, text_packet-IsPacket, text_packet_path}
use meshcore.Tests.Filter.{tables_init-IsTables}
use meshcore.Tests.Texts.{plain_host-Works}
use meshcore.Tests.Meshes.{lone_host, flat, someone, someone-IsLocal, at_hand, text_fields}

remove_self_from_path_lem_example :
    let q = remove_self_from_path text_packet in
    (get_path_hash_count (some q) + 1 ≡ get_path_hash_count (some text_packet))
    × (get_path_hash_size (some q) ≡ get_path_hash_size (some text_packet))
    × (hops q ≡ drop (get_path_hash_size (some text_packet)) (hops text_packet))
remove_self_from_path_lem_example =
    remove_self_from_path_lem text_packet text_packet-IsPacket text_packet_path
      (omega (arith, text_fields))

no_trace : (get_payload_type (some text_packet) == payload_type_trace) ≡ false
unfolding get_payload_type
no_trace = refl

sent-heard_example :
    (tables_has_seen lone_host
      (sent lone_host (at_hand text_packet) 0 (by_flood 0 1))
      text_packet).0
    ≡ true
sent-heard_example =
    sent-heard lone_host (at_hand text_packet) 0 tables_init refl tables_init-IsTables (omega arith)
      no_trace text_packet refl (by_flood 0 1) (small_flood (omega arith) (omega arith))

-- The node after it heard the text packet.
abbrev heard : Dispatcher
heard = (tables_has_seen lone_host (at_hand text_packet) text_packet).1

heard_it : (tables_has_seen lone_host heard (packet_at heard 0)).0 ≡ true
unfolding tables_has_seen seen_by has_seen has_seen_hash is_stored store count_dup calculate_hash
    message sha256 or_zeros tables_init get_payload_type
heard_it = refl

still_there : packet_at heard 0 ≡ text_packet
unfolding tables_has_seen seen_by
still_there = refl

flooded : is_route_flood (some (packet_at heard 0)) ≡ true
unfolding is_route_flood get_route_type tables_has_seen seen_by
flooded = refl

text_type : get_payload_type (some (packet_at heard 0)) ≡ 2
unfolding get_payload_type tables_has_seen seen_by
text_type = refl

on_recv_packet-Dropped_example : Dropped lone_host heard 0 (on_recv_packet lone_host heard 0)
on_recv_packet-Dropped_example =
    on_recv_packet-Dropped lone_host heard 0 heard_it flooded (λ e. omega (arith, text_type))

abbrev given_out : Dispatcher
given_out = (obtain_new_packet (at_hand text_packet)).1

obtained_four : obtain_new_packet (at_hand text_packet) ≡ (some 4, given_out)
unfolding obtain_new_packet obtained alloc_new queue_remove_by_idx
obtained_four = refl

room_for_four : 4 < length given_out.packet_manager.packet_buf
unfolding obtain_new_packet obtained alloc_new queue_remove_by_idx
room_for_four = omega arith

full_array : length (packet_at given_out 4).payload ≡ 184
unfolding obtain_new_packet obtained alloc_new queue_remove_by_idx
full_array = refl

short_text : datagram_plaintext_fits 20 ≡ true
unfolding datagram_plaintext_fits
short_text = refl

abbrev friend : Identity
friend = record { pub_key = replicate 32 3 }

create_datagram-Carries_example :
    let r =
      create_datagram lone_host
        (at_hand text_packet)
        2
        friend
        (1 ∷ [])
        (some (replicate 20 7))
        20 in
    (r.0 ≡ some 4) × Carries lone_host 2 friend (1 ∷ []) (replicate 20 7) (packet_at r.1 4)
create_datagram-Carries_example =
    create_datagram-Carries lone_host plain_host-Works (at_hand text_packet) given_out 4
      obtained_four room_for_four full_array refl 2 friend refl (1 ∷ []) (replicate 20 7)
      (omega arith) short_text (inl refl)

local_read_from-local_write_to_example :
    local_read_from flat local_init
      (local_write_to someone 100)
      (length (local_write_to someone 100))
    ≡ someone
local_read_from-local_write_to_example =
    local_read_from-local_write_to flat someone someone-IsLocal local_init 100 (omega arith)
