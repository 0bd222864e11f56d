-- ===== src/Tests/Meshes.antt =====
-- The mesh and the identities.
use meshcore.Prelude.{
  ℕ, ◌≡◌, ◌≢◌, refl, true, false, none, some, Option, [], ◌∷◌, arith, replicate, take, zero, suc,
}
use meshcore.Packet.{
  Packet, get_path_hash_count, get_path_hash_size, path_len_field, is_route_flood, get_route_type,
  is_marked_do_not_retransmit,
}
use meshcore.Packet.Length.{IsPacket}
use meshcore.Tables.{tables_init}
use meshcore.Identity.{Curve, LocalIdentity}
use meshcore.Identity.Stored.{IsLocal}
use meshcore.Dispatcher.{Dispatcher, packet_at}
use meshcore.Dispatcher.Receive.{action_release}
use meshcore.Mesh.{MeshHost, Peer, route_recv_packet}
use meshcore.Mesh.Trade.{Reacts, stays}
use meshcore.Mesh.Route.{
  MayForward, Extends, hops, route_recv_packet-Extends, route_recv_packet_wraps,
}
use meshcore.Tests.Packets.{blank, text_packet, text_packet-IsPacket, text_packet_path}
use meshcore.Tests.Filter.{toy}
use meshcore.Tests.Texts.{plain_host}
use meshcore.Tests.Air.{quiet_host, loaded, idle}

-- A curve that computes nothing, and a node with one peer.
abbrev pub flat : Curve
flat = record {
  scalarbase = λ s. take 32 s;
  sha512 = λ m. m;
  reduce = λ m. take 32 m;
  mul_add = λ a b c. take 32 b;
  trim_scalar = λ s. s;
  to_x25519 = λ p. p;
  x25519 = λ s p. take 32 s;
  check = λ sig key m. true;
}

abbrev pub one_peer : Dispatcher → ℕ → ℕ → Option Peer
one_peer d hash zero =
    some (record {
      slot = 0;
      secret = replicate 32 1;
      public_key = replicate 32 3;
      name = 65 ∷ 0 ∷ [];
    })
one_peer d hash (suc cursor) = none

abbrev pub lone_host : MeshHost
lone_host = record {
  platform = quiet_host;
  sha = toy;
  cipher = plain_host;
  curve = flat;
  rtc_time = λ d. 1700000000;
  random = λ d n. replicate n 4;
  filter_recv_flood = λ d p. false;
  allow_packet_forward = λ d p. true;
  retransmit_delay = λ d p. 500;
  direct_retransmit_delay = λ d p. 200;
  extra_ack_transmit_count = λ d. 1;
  next_peer = one_peer;
  peer_slots = 1;
  search_channels = λ d hash. [];
  react = λ e d. (true, d);
}

pub lone_host-Reacts : Reacts lone_host
lone_host-Reacts = record { handler = λ e d. stays none d }

abbrev pub someone : LocalIdentity
someone = record { identity = record { pub_key = replicate 32 9 }; prv_key = replicate 64 5 }

abbrev pub at_hand : Packet → Dispatcher
at_hand packet = record loaded {
  packet_manager = record loaded.packet_manager { packet_buf = packet ∷ replicate 9 blank };
  owner_mesh = record { self_id = someone; tables = some tables_init; runtime = idle };
}

pub someone-IsLocal : IsLocal someone
someone-IsLocal = record { prv_array = refl; pub_array = refl }

-- The text packet has two hashes of two bytes.
pub text_fields :
    (get_path_hash_count (some text_packet) ≡ 2) × (get_path_hash_size (some text_packet) ≡ 2)
unfolding get_path_hash_count get_path_hash_size path_len_field
text_fields = (refl, refl)

text-MayForward : MayForward lone_host (at_hand text_packet) text_packet
unfolding is_route_flood get_route_type is_marked_do_not_retransmit get_path_hash_count
    get_path_hash_size path_len_field
text-MayForward = record { flooded = refl; unmarked = refl; room = omega arith; allowed = refl }

route_recv_packet-Extends_example :
    Extends
      (take (get_path_hash_size (some text_packet)) (replicate 32 9))
      text_packet
      (packet_at (route_recv_packet lone_host (at_hand text_packet) 0).1 0)
route_recv_packet-Extends_example =
    route_recv_packet-Extends lone_host (at_hand text_packet) 0 (omega arith) text_packet-IsPacket
      text-MayForward (omega (arith, text_fields)) text_packet_path refl

-- 63 hashes of one byte.
abbrev full_packet : Packet
full_packet = record text_packet { path_len = 63 }

full-IsPacket : IsPacket full_packet
full-IsPacket = omega arith

full_fields :
    (get_path_hash_count (some full_packet) ≡ 63) × (get_path_hash_size (some full_packet) ≡ 1)
unfolding get_path_hash_count get_path_hash_size path_len_field
full_fields = (refl, refl)

full-MayForward : MayForward lone_host (at_hand full_packet) full_packet
unfolding is_route_flood get_route_type is_marked_do_not_retransmit get_path_hash_count
    get_path_hash_size path_len_field
full-MayForward = record { flooded = refl; unmarked = refl; room = omega arith; allowed = refl }

route_recv_packet_wraps_example :
    let r = route_recv_packet lone_host (at_hand full_packet) 0 in
    (r.0 ≢ action_release)
    × (get_path_hash_count (some (packet_at r.1 0)) ≡ 0)
    × (hops (packet_at r.1 0) ≡ [])
route_recv_packet_wraps_example =
    route_recv_packet_wraps lone_host (at_hand full_packet) 0 (omega arith) full-IsPacket
      full-MayForward full_fields.0
