-- ===== src/Mesh/Answers.antt =====
-- The answers of `meshcore_mesh_on_recv_packet` of `src/core/meshcore_mesh.c` to the dispatcher: what
-- becomes of the packets of the pool, and that the mesh never keeps the packet it was given.
use meshcore.Prelude.{
  ℕ, zero, suc, ◌+◌, ◌*◌, ◌^◌, ◌/◌, ◌≤◌, ◌≢◌, Bool, true, false, Option, none, some, List, [], ◌∷◌,
  bit_or, bit_or-low, if◌then◌else◌, arith, u32, pos, negsuc, ◌==◌,
}
use meshcore.Packet.{Packet, get_path_hash_count}
use meshcore.Packet.Fields.{get_path_hash_count_lem}
use meshcore.Cipher.{Output}
use meshcore.Identity.{Identity}
use meshcore.Dispatcher.{Dispatcher, packet_at}
use meshcore.Dispatcher.Receive.{action_release, action_manual_hold}
use meshcore.Mesh.{
  MeshHost, Channel, Peer, Event, tell, tables_has_seen, retransmit_delayed, route_recv_packet,
}
use meshcore.Mesh.Acks.{unwrapped, is_wrapped_ack, forward_multipart_direct}
use meshcore.Mesh.Peers.{return_path, deliver_path, deliver, on_addressed}
use meshcore.Mesh.Flood.{
  on_ack, deliver_anon, on_anon, deliver_group, on_group, check_advert, on_advert, on_raw,
  on_multipart,
}
use meshcore.Mesh.Receive.{
  forward_trace, on_trace, forward_direct, on_direct, on_payload, on_recv_packet,
}
use meshcore.Mesh.Trade.{
  Keeps, Obtains, Reacts, stays, then-Trade, if-Trade, write_packet-Keeps, tables_has_seen-Keeps,
}
use meshcore.Mesh.Made.{
  create_path_return-Obtains, send_direct-Consumes, route_direct_recv_acks-Keeps,
}

-- By halving, with a bound on the number.
bit_or-ge_under : (bound a b : ℕ) → a ≤ bound → a ≤ bit_or a b
bit_or-ge_under bound zero b h = omega arith
bit_or-ge_under zero (suc a) b h = absurd (omega arith)
bit_or-ge_under (suc bound) (suc a) b h =
    omega (arith, bit_or-low (suc a) b, bit_or-ge_under bound (suc a / 2) (b / 2) (omega arith))

bit_or-ge : (a b : ℕ) → a ≤ bit_or a b
bit_or-ge a b = bit_or-ge_under a a b (omega arith)

-- The priority stands above bit 24, so an answer to send is neither to release nor to keep.
pub retransmit_delayed-ge :
    (pri delay : ℕ) → pri ≤ 63 → (1 + pri) * 2 ^ 24 ≤ retransmit_delayed pri delay
unfolding retransmit_delayed
retransmit_delayed-ge pri delay h = omega (arith, bit_or-ge (u32 ((1 + pri) * 2 ^ 24)) (u32 delay))

pub record Answers (d : Dispatcher) (r : ℕ × Dispatcher) : Type 0 where
  pub keeps : Keeps d r.1
  pub no_hold : r.0 ≢ action_manual_hold

releases : {d d1 : Dispatcher} → Keeps d d1 → Answers d (action_release, d1)
releases s = record { keeps = s; no_hold = λ e. omega arith }

sends :
    {d d1 : Dispatcher} (pri delay : ℕ)
    → pri ≤ 63
    → Keeps d d1
    → Answers d (retransmit_delayed pri delay, d1)
sends pri delay h s = record {
  keeps = s;
  no_hold = λ e. omega (arith, retransmit_delayed-ge pri delay h);
}

if-Answers :
    {d : Dispatcher} {x y : ℕ × Dispatcher} (c : Bool)
    → Answers d x
    → Answers d y
    → Answers d (if c then x else y)
if-Answers true s t = s
if-Answers false s t = t

after_all : {d d1 : Dispatcher} {r : ℕ × Dispatcher} → Keeps d d1 → Answers d1 r → Answers d r
after_all s t = record { keeps = then-Trade s t.keeps; no_hold = t.no_hold }

pub get_path_hash_count-le : (p : Packet) → get_path_hash_count (some p) ≤ 63
get_path_hash_count-le p = omega (arith, get_path_hash_count_lem p)

module _ (h : MeshHost) (c : Reacts h) where
  pub route_recv_packet-Answers : (d : Dispatcher) (p : ℕ) → Answers d (route_recv_packet h d p)
  unfolding route_recv_packet
  route_recv_packet-Answers d p =
      if-Answers _ (sends _ _ (get_path_hash_count-le _) (write_packet-Keeps d p _))
        (releases (stays none d))

  seen_first : (d : Dispatcher) (packet : Packet) → Keeps d (tables_has_seen h d packet).1
  seen_first d packet = tables_has_seen-Keeps h d packet

  routed : {d d1 : Dispatcher} (p : ℕ) → Keeps d d1 → Answers d (route_recv_packet h d1 p)
  routed {d} {d1} p s = after_all s (route_recv_packet-Answers d1 p)

  told : {d d1 : Dispatcher} (e : Event) → Keeps d d1 → Keeps d (tell h e d1)
  told {d} {d1} e s = then-Trade s (c.handler e d1)

  return_path-Keeps :
      (d : Dispatcher) (r : Option ℕ × Dispatcher) (path : List ℕ) (path_len : ℕ)
      → Obtains d r
      → Keeps d (return_path h r path path_len)
  unfolding return_path
  return_path-Keeps d (none, d1) path path_len s = s
  return_path-Keeps d (some q, d1) path path_len s =
      then-Trade s (send_direct-Consumes h d1 (some q) (some path) path_len 500)

  deliver_path-Keeps :
      (d : Dispatcher) (p src_hash : ℕ) (peer : Peer) (len : ℕ) (text : List ℕ)
      → Keeps d (deliver_path h d p src_hash peer len text)
  unfolding deliver_path
  deliver_path-Keeps d p src_hash peer len text =
      if-Trade _
        (then-Trade (c.handler _ d)
          (return_path-Keeps _ _ _ _ (create_path_return-Obtains h _ _ _ _ _ _ _ _)))
        (c.handler _ d)

  deliver-Keeps :
      (d : Dispatcher) (p type src_hash : ℕ) (found : Option (Peer × Output))
      → Keeps d (deliver h d p type src_hash found)
  unfolding deliver
  deliver-Keeps d p type src_hash none = stays none d
  deliver-Keeps d p type src_hash (some (peer, (negsuc n, text))) = stays none d
  deliver-Keeps d p type src_hash (some (peer, (pos len, text))) =
      then-Trade (if-Trade _ (deliver_path-Keeps d p src_hash peer len text) (c.handler _ d))
        (write_packet-Keeps _ p _)

  on_addressed-Answers : (d : Dispatcher) (p type : ℕ) → Answers d (on_addressed h d p type)
  unfolding on_addressed
  on_addressed-Answers d p type =
      let s = seen_first d (packet_at d p) in
      if-Answers _ (releases (stays none d)) (
        if-Answers _ (releases s)
          (routed p (then-Trade s (if-Trade _ (deliver-Keeps _ p type _ _) (stays none _)))))

  on_ack-Answers : (d : Dispatcher) (p : ℕ) → Answers d (on_ack h d p)
  unfolding on_ack
  on_ack-Answers d p =
      let s = seen_first d (packet_at d p) in
      if-Answers _ (releases (stays none d)) (if-Answers _ (releases s) (routed p (told _ s)))

  deliver_anon-Keeps :
      (d : Dispatcher) (p : ℕ) (secret : List ℕ) (sender : Identity) (output : Output)
      → Keeps d (deliver_anon h d p secret sender output)
  unfolding deliver_anon
  deliver_anon-Keeps d p secret sender (negsuc n, text) = stays none d
  deliver_anon-Keeps d p secret sender (pos len, text) =
      if-Trade _ (stays none d) (then-Trade (c.handler _ d) (write_packet-Keeps _ p _))

  on_anon-Answers : (d : Dispatcher) (p : ℕ) → Answers d (on_anon h d p)
  unfolding on_anon
  on_anon-Answers d p =
      let s = seen_first d (packet_at d p) in
      if-Answers _ (releases (stays none d)) (
        if-Answers _ (releases s)
          (routed p (then-Trade s (if-Trade _ (deliver_anon-Keeps _ p _ _ _) (stays none _)))))

  deliver_group-Keeps :
      (channels : List Channel) (d : Dispatcher) (p type : ℕ) (text : List ℕ) (len : ℕ)
      → Keeps d (deliver_group channels h d p type text len)
  unfolding deliver_group
  deliver_group-Keeps [] d p type text len = stays none d
  deliver_group-Keeps (channel ∷ channels) d p type text len =
      if-Trade _ (c.handler _ d) (deliver_group-Keeps channels d p type text len)

  on_group-Answers : (d : Dispatcher) (p type : ℕ) → Answers d (on_group h d p type)
  unfolding on_group
  on_group-Answers d p type =
      let s = seen_first d (packet_at d p) in
      if-Answers _ (releases (stays none d))
        (if-Answers _ (releases s) (routed p (then-Trade s (deliver_group-Keeps _ _ p type _ _))))

  check_advert-Answers : (d : Dispatcher) (p : ℕ) → Answers d (check_advert h d p)
  unfolding check_advert
  check_advert-Answers d p =
      let s = seen_first d (packet_at d p) in if-Answers _ (releases s) (routed p (told _ s))

  on_advert-Answers : (d : Dispatcher) (p : ℕ) → Answers d (on_advert h d p)
  unfolding on_advert
  on_advert-Answers d p =
      if-Answers _ (releases (stays none d))
        (if-Answers _ (releases (stays none d)) (check_advert-Answers d p))

  on_raw-Answers : (d : Dispatcher) (p : ℕ) → Answers d (on_raw h d p)
  unfolding on_raw
  on_raw-Answers d p =
      let s = seen_first d (packet_at d p) in
      if-Answers _ (releases (stays none d)) (if-Answers _ (releases s) (releases (told _ s)))

  on_multipart-Answers : (d : Dispatcher) (p : ℕ) → Answers d (on_multipart h d p)
  unfolding on_multipart
  on_multipart-Answers d p =
      let s = seen_first d _ in
      if-Answers _ (releases (stays none d)) (if-Answers _ (releases (told _ s)) (releases s))

  forward_trace-Answers : (d : Dispatcher) (p : ℕ) → Answers d (forward_trace h d p)
  unfolding forward_trace
  forward_trace-Answers d p =
      let s = seen_first d (packet_at d p) in
      if-Answers _ (releases s) (sends 5 _ (omega arith) (then-Trade s (write_packet-Keeps _ p _)))

  on_trace-Answers : (d : Dispatcher) (p : ℕ) → Answers d (on_trace h d p)
  unfolding on_trace
  on_trace-Answers d p = if-Answers _ (releases (stays none d)) (
      if-Answers _ (releases (c.handler _ d))
        (if-Answers _ (forward_trace-Answers d p) (releases (stays none d))))

  forward_multipart-Answers : (d : Dispatcher) (p : ℕ) → Answers d (forward_multipart_direct h d p)
  unfolding forward_multipart_direct
  forward_multipart-Answers d p =
      let packet = packet_at d p in
      let s = seen_first d (unwrapped packet) in
      if-Answers (packet.payload_len == 0) (releases (stays none d)) (
        if-Answers (is_wrapped_ack packet)
          (releases (if-Trade _ s (then-Trade s (route_direct_recv_acks-Keeps h _ _ _))))
          (releases (stays none d)))

  forward_direct-Answers : (d : Dispatcher) (p type : ℕ) → Answers d (forward_direct h d p type)
  unfolding forward_direct
  forward_direct-Answers d p type =
      let s = seen_first d (packet_at d p) in
      let s2 = then-Trade s (write_packet-Keeps _ p _) in
      if-Answers _ (forward_multipart-Answers d p) (
        if-Answers _ (releases s) (
          if-Answers _ (releases (then-Trade s2 (route_direct_recv_acks-Keeps h _ _ 0)))
            (sends 0 _ (omega arith) s2)))

  on_direct-Answers : (d : Dispatcher) (p type : ℕ) → Answers d (on_direct h d p type)
  unfolding on_direct
  on_direct-Answers d p type =
      let s = if-Trade _ (c.handler _ d) (stays none d) in
      if-Answers _ (after_all s (forward_direct-Answers _ p type)) (releases s)

  on_payload-Answers : (d : Dispatcher) (p type : ℕ) → Answers d (on_payload h d p type)
  unfolding on_payload
  on_payload-Answers d p type = if-Answers _ (on_ack-Answers d p) (
      if-Answers _ (on_addressed-Answers d p type) (
        if-Answers _ (on_anon-Answers d p) (
          if-Answers _ (on_group-Answers d p type) (
            if-Answers _ (on_advert-Answers d p) (
              if-Answers _ (on_raw-Answers d p)
                (if-Answers _ (on_multipart-Answers d p) (releases (stays none d))))))))

  -- Whatever packet it is given, the mesh loses no packet of the pool and keeps none: all that it
  -- takes is queued or given back, and the packet itself stays the dispatcher's.
  pub on_recv_packet-Answers : (d : Dispatcher) (p : ℕ) → Answers d (on_recv_packet h d p)
  unfolding on_recv_packet
  on_recv_packet-Answers d p = if-Answers _ (on_trace-Answers d p) (
      if-Answers _ (releases (if-Trade _ (c.handler _ d) (stays none d))) (
        if-Answers _ (on_direct-Answers d p _)
          (if-Answers _ (releases (stays none d)) (on_payload-Answers d p _))))
