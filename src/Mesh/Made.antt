-- ===== src/Mesh/Made.antt =====
-- Who holds the packets that `src/core/meshcore_mesh.c` makes, and those that it sends.
use meshcore.Prelude.{ℕ, zero, suc, not, ◌||◌, Option, none, some, List, ltb, ◌==◌}
use meshcore.Packet.{Packet, payload_max_len, payload_type_trace, get_payload_type}
use meshcore.Dispatcher.{Dispatcher, packet_at, obtain_new_packet}
use meshcore.Mesh.{MeshHost, write_packet}
use meshcore.Mesh.Create.{
  ack_filled, create_ack_data, multi_ack_filled, create_multi_ack_data, path_return_extra_fits,
  create_path_return_by_dest_hash, is_missing,
}
use meshcore.Mesh.Send.{note_and_send, send_direct, with_route}
use meshcore.Mesh.Acks.{send_along, send_extra_acks, route_direct_recv_acks}
use meshcore.Mesh.Trade.{
  Keeps, Obtains, Consumes, stays, then-Trade, while_held, if-Trade, if-Obtains, write_packet-Keeps,
  release_packet-Consumes, release_consumed_packet-Consumes, send_packet-Consumes,
  obtain_new_packet-Obtains, tables_has_seen-Keeps, stored-Obtains, sealed-Obtains,
}

ack_filled-Obtains :
    (d : Dispatcher) (r : Option ℕ × Dispatcher) (ack : Option (List ℕ)) (ack_len : ℕ)
    → Obtains d r
    → Obtains d (ack_filled r ack ack_len)
unfolding ack_filled
ack_filled-Obtains d (none, d1) ack ack_len s = s
ack_filled-Obtains d (some p, d1) ack ack_len s =
    if-Obtains (is_missing ack ack_len || ltb payload_max_len ack_len)
      (then-Trade s (release_packet-Consumes d1 p)) (stored-Obtains d (some p, d1) _ s)

pub create_ack_data-Obtains :
    (d : Dispatcher) (ack : Option (List ℕ)) (ack_len : ℕ)
    → Obtains d (create_ack_data d ack ack_len)
unfolding create_ack_data
create_ack_data-Obtains d ack ack_len =
    ack_filled-Obtains d (obtain_new_packet d) ack ack_len (obtain_new_packet-Obtains d)

multi_ack_filled-Obtains :
    (d : Dispatcher) (r : Option ℕ × Dispatcher) (ack : Option (List ℕ)) (ack_len remaining : ℕ)
    → Obtains d r
    → Obtains d (multi_ack_filled r ack ack_len remaining)
unfolding multi_ack_filled
multi_ack_filled-Obtains d (none, d1) ack ack_len remaining s = s
multi_ack_filled-Obtains d (some p, d1) ack ack_len remaining s =
    if-Obtains (is_missing ack ack_len || ltb 183 ack_len)
      (then-Trade s (release_packet-Consumes d1 p)) (stored-Obtains d (some p, d1) _ s)

pub create_multi_ack_data-Obtains :
    (d : Dispatcher) (ack : Option (List ℕ)) (ack_len remaining : ℕ)
    → Obtains d (create_multi_ack_data d ack ack_len remaining)
unfolding create_multi_ack_data
create_multi_ack_data-Obtains d ack ack_len remaining =
    multi_ack_filled-Obtains d (obtain_new_packet d) ack ack_len remaining
      (obtain_new_packet-Obtains d)

module _ (h : MeshHost) where
  pub create_path_return-Obtains :
      (d : Dispatcher) (dest_hash secret : List ℕ) (path : Option (List ℕ)) (path_len type : ℕ)
      → (extra : Option (List ℕ)) (extra_len : ℕ)
      → Obtains d
          (create_path_return_by_dest_hash h d dest_hash secret path path_len type extra extra_len)
  unfolding create_path_return_by_dest_hash
  create_path_return-Obtains d dest_hash secret path path_len type extra extra_len =
      if-Obtains (is_missing path _ || is_missing extra extra_len) (stays none d) (
        if-Obtains (not (path_return_extra_fits path_len extra_len)) (stays none d)
          (sealed-Obtains d (obtain_new_packet d) _ _ _ (obtain_new_packet-Obtains d)))

  pub note_and_send-Consumes :
      (d : Dispatcher) (p : ℕ) (packet : Packet) (pri delay : ℕ)
      → Consumes (some p) d (note_and_send h d p packet pri delay)
  unfolding note_and_send
  note_and_send-Consumes d p packet pri delay =
      then-Trade (while_held p (write_packet-Keeps d p packet)) (
        then-Trade (while_held p (tables_has_seen-Keeps h (write_packet d p packet) packet))
          (send_packet-Consumes h.platform _ (some p) pri delay))

  pub send_direct-Consumes :
      (d : Dispatcher) (p : Option ℕ) (path : Option (List ℕ)) (path_len delay : ℕ)
      → Consumes p d (send_direct h d p path path_len delay)
  unfolding send_direct
  send_direct-Consumes d none path path_len delay = release_consumed_packet-Consumes d none
  send_direct-Consumes d (some p) path path_len delay =
      let p1 = with_route 2 (packet_at d p) in
      if-Trade (is_missing path path_len) (release_consumed_packet-Consumes d (some p)) (
        if-Trade (get_payload_type (some p1) == payload_type_trace)
          (if-Trade _
            (then-Trade (while_held p (write_packet-Keeps d p p1))
              (release_consumed_packet-Consumes _ (some p)))
            (note_and_send-Consumes d p _ 5 delay))
          (note_and_send-Consumes d p _ _ delay))

  send_along-Keeps :
      (d : Dispatcher) (packet : Packet) (delay : ℕ) (r : Option ℕ × Dispatcher)
      → Obtains d r
      → Keeps d (send_along h packet delay r)
  unfolding send_along
  send_along-Keeps d packet delay (none, d1) s = s
  send_along-Keeps d packet delay (some a, d1) s = then-Trade s (
      then-Trade (while_held a (write_packet-Keeps d1 a _))
        (send_packet-Consumes h.platform _ (some a) 0 delay))

  send_extra_acks-Keeps :
      (extra : ℕ) (d : Dispatcher) (packet : Packet) (delay : ℕ)
      → Keeps d (send_extra_acks extra h d packet delay).1
  unfolding send_extra_acks
  send_extra_acks-Keeps zero d packet delay = stays none d
  send_extra_acks-Keeps (suc extra) d packet delay =
      then-Trade (send_along-Keeps d packet _ _ (create_multi_ack_data-Obtains d _ _ _))
        (send_extra_acks-Keeps extra _ packet _)

  pub route_direct_recv_acks-Keeps :
      (d : Dispatcher) (packet : Packet) (delay : ℕ)
      → Keeps d (route_direct_recv_acks h d packet delay)
  unfolding route_direct_recv_acks
  route_direct_recv_acks-Keeps d packet delay = if-Trade _ (stays none d) (
      then-Trade (send_extra_acks-Keeps (h.extra_ack_transmit_count d) d packet delay)
        (send_along-Keeps _ packet _ _ (create_ack_data-Obtains _ _ _)))
