-- ===== src/Tests/Loops.antt =====
-- The loop detection.
use meshcore.Prelude.{◌*◌, ◌<◌, ◌≡◌, refl, true, false, some, ◌∷◌, arith, replicate}
use meshcore.Packet.{
  Packet, get_path_hash_count, get_path_hash_size, has_snr_flag, has_transport_codes,
  is_route_flood, path_len_field, is_valid_path_len, get_route_type, set_path_hash_count,
  is_marked_do_not_retransmit,
}
use meshcore.Packet.Length.{IsPacket}
use meshcore.Identity.{copy_hash_by_len, is_hash_match_by_len}
use meshcore.Dispatcher.{packet_at}
use meshcore.Dispatcher.Receive.{action_release}
use meshcore.Mesh.{MeshHost, own_identity, route_recv_packet}
use meshcore.Mesh.Route.{MayForward}
use meshcore.Runtime.Policy.{
  NodePolicy, PolicyHost, strict, minimal, repeater, allow_packet_forward, compared_size,
  self_count, loop_detect_max, packet_is_looped, allowed_by, repeater_allows,
}
use meshcore.Runtime.Once.{Follows, route_recv_packet_once}
use meshcore.Runtime.Loops.{route_recv_packet_stops}
use meshcore.Tests.Packets.{text_packet, text_packet-IsPacket, text_packet_path}
use meshcore.Tests.Meshes.{lone_host, someone, at_hand, text_fields}

-- The second hash of two bytes is the one of the node.
abbrev looped_packet : Packet
looped_packet = record text_packet { path = 10 ∷ 11 ∷ 9 ∷ 9 ∷ replicate 60 0 }

abbrev careful : NodePolicy
careful = record {
  path_hash_size = 1;
  disable_fwd = false;
  flood_max = 64;
  loop_detect = strict;
  client_repeat = false;
}

abbrev forwarder : PolicyHost
forwarder = record {
  policy = some careful;
  local_role = some repeater;
  synced = true;
  airtime = λ n. n * 10;
  next_int = λ low high. low;
  flood_scaled = λ t. t;
  direct_scaled = λ t. t;
  half = λ t. t;
  fifth = λ t. t;
}

-- A repeater that forwards by that policy.
abbrev policed : MeshHost
policed = record lone_host {
  allow_packet_forward = λ d packet. allow_packet_forward forwarder (own_identity d) packet;
}

-- Minimal detection lets one hash of two bytes pass.
looped_runs :
    (allow_packet_forward forwarder someone.identity text_packet ≡ true)
    × (allow_packet_forward forwarder someone.identity looped_packet ≡ false)
    × (allow_packet_forward
          (record forwarder { policy = some (record careful { loop_detect = minimal }) })
          someone.identity
          looped_packet
        ≡ true)
unfolding allow_packet_forward allowed_by repeater_allows packet_is_looped loop_detect_max
    self_count compared_size is_hash_match_by_len get_path_hash_count get_path_hash_size
    path_len_field has_snr_flag has_transport_codes get_route_type is_route_flood
looped_runs = (refl, refl, refl)

looped_fields :
    (is_valid_path_len (path_len_field (some looped_packet)) ≡ true)
    × (0 < compared_size looped_packet)
    × (1 < get_path_hash_count (some looped_packet))
    × (is_hash_match_by_len someone.identity (9 ∷ 9 ∷ replicate 60 0) (compared_size looped_packet)
        ≡ true)
unfolding is_valid_path_len path_len_field compared_size get_path_hash_count get_path_hash_size
    has_snr_flag has_transport_codes get_route_type is_hash_match_by_len
looped_fields = (refl, omega arith, omega arith, refl)

route_recv_packet_stops_example :
    route_recv_packet policed (at_hand looped_packet) 0 ≡ (action_release, at_hand looped_packet)
unfolding get_path_hash_size path_len_field
route_recv_packet_stops_example =
    route_recv_packet_stops forwarder careful refl refl refl refl policed (at_hand looped_packet) 0
      refl 1 looped_fields.0 looped_fields.1 looped_fields.2 looped_fields.3

-- The text packet, as it comes back after this node and one more have sent it on.
abbrev returned : Packet
returned = record text_packet {
  path_len = 68;
  path = 10 ∷ 11 ∷ 12 ∷ 13 ∷ 9 ∷ 9 ∷ 20 ∷ 21 ∷ replicate 56 0;
}

returned-IsPacket : IsPacket returned
returned-IsPacket = omega arith

returned-Follows :
    Follows (packet_at (route_recv_packet policed (at_hand text_packet) 0).1 0) returned
unfolding route_recv_packet allow_packet_forward allowed_by repeater_allows packet_is_looped
    loop_detect_max self_count compared_size is_hash_match_by_len get_path_hash_count
    get_path_hash_size path_len_field has_snr_flag has_transport_codes get_route_type is_route_flood
    is_valid_path_len set_path_hash_count copy_hash_by_len is_marked_do_not_retransmit
returned-Follows = record { same_size = refl; no_fewer = omega arith; path = refl; valid = refl }

text_passes : MayForward policed (at_hand text_packet) text_packet
unfolding is_route_flood get_route_type is_marked_do_not_retransmit get_path_hash_count
    get_path_hash_size path_len_field
text_passes = record {
  flooded = refl;
  unmarked = refl;
  room = omega arith;
  allowed = looped_runs.0;
}

returned_compared : 0 < compared_size returned
unfolding compared_size get_path_hash_size path_len_field has_snr_flag has_transport_codes
    get_route_type
returned_compared = omega arith

route_recv_packet_once_example :
    route_recv_packet policed (at_hand returned) 0 ≡ (action_release, at_hand returned)
route_recv_packet_once_example =
    route_recv_packet_once forwarder careful refl refl refl refl policed (at_hand text_packet)
      (at_hand returned) 0 0 refl refl refl (omega arith) text_packet-IsPacket returned-IsPacket
      text_passes (omega (arith, text_fields)) text_packet_path returned-Follows returned_compared
