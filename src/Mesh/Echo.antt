-- ===== src/Mesh/Echo.antt =====
-- The packets of this node's own that `src/core/meshcore_mesh.c` sends, and the duplicate filter.
use meshcore.Prelude.{
  ℕ, ◌+◌, ◌*◌, ◌/◌, ◌<◌, ◌≤◌, ◌==◌, ne→==, le→ltb, List, ◌≡◌, refl, ◌∙◌, ap, bit_and_high,
  bit_or_low, Bool, true, false, not, ◌||◌, ltb, Option, none, some, [], if◌then◌else◌, Bool-cases,
  inl, inr, arith,
}
use meshcore.Crypto.{Sha256}
use meshcore.Packet.{
  Packet, payload_max_len, get_payload_type, payload_type_trace, set_path_hash_size_and_count,
  path_len_field, is_valid_path_len,
}
use meshcore.Packet.Digest.{calculate_hash, message}
use meshcore.Tables.{Tables, has_seen, has_seen_hash, count_dup, is_stored}
use meshcore.Tables.Window.{IsTables, has_seen_again, run}
use meshcore.Dispatcher.{Dispatcher, Host, packet_at, send_packet, future_millis, millis_get}
use meshcore.Mesh.{MeshHost, transport_flood_hash_size, tables_has_seen, seen_by, write_packet}
use meshcore.Mesh.Send.{
  note_and_send, flood_priority, with_route, with_codes, with_path, send_flood, send_flood_coded,
  send_flood_by_transport_codes, send_direct, send_zero_hop, send_zero_hop_by_transport_codes,
}
use meshcore.Packet.Fields.{get_payload_type_lem}

hashes-count_dup : (t : Tables) (p : Packet) → (count_dup t p).hashes ≡ t.hashes
unfolding count_dup
hashes-count_dup t p = ground arith

-- Asked twice, the filter has seen the packet, whatever it answered first.
pub has_seen_twice :
    (s : Sha256) (t : Tables) (p q : Packet)
    → IsTables t
    → calculate_hash s (some q) ≡ calculate_hash s (some p)
    → (has_seen s (has_seen s t (some p)).1 (some q)).0 ≡ true
unfolding has_seen has_seen_hash run
has_seen_twice s t p q v same =
    let hash = calculate_hash s (some p) in
    elim (Bool-cases (is_stored hash t.hashes)) [
      | inr new ↦ has_seen_again s t p q [] v (rw new refl) (omega arith) same
      | inl known ↦ rw (known, same, hashes-count_dup t p, known) refl
    ]

if-owner :
    (b : Bool) (x y : Dispatcher)
    → x.owner_mesh ≡ y.owner_mesh
    → (if b then x else y).owner_mesh ≡ y.owner_mesh
if-owner true x y e = e
if-owner false x y e = refl

same_owner :
    (h : Host) (d : Dispatcher) (p : Option ℕ) (pri delay : ℕ)
    → (send_packet h d p pri delay).owner_mesh ≡ d.owner_mesh
unfolding send_packet future_millis millis_get
same_owner h d none pri delay = refl
same_owner h d (some p) pri delay =
    let packet = packet_at d p in
    if-owner
      (not (is_valid_path_len (path_len_field (some packet)))
        || ltb payload_max_len packet.payload_len)
      _ _ refl

module _ (h : MeshHost) where
  heard_twice :
      (d : Dispatcher) (packet q : Packet) (t : Tables)
      → d.owner_mesh.tables ≡ some t
      → IsTables t
      → calculate_hash h.sha (some q) ≡ calculate_hash h.sha (some packet)
      → (d1 : Dispatcher) → d1.owner_mesh ≡ (tables_has_seen h d packet).1.owner_mesh
      → (tables_has_seen h d1 q).0 ≡ true
  unfolding tables_has_seen seen_by
  heard_twice d packet q t e v same d1 e1 = rw (e1, e) (has_seen_twice h.sha t packet q v same)

  note_and_send-heard :
      (d : Dispatcher) (p : ℕ) (packet q : Packet) (pri delay : ℕ) (t : Tables)
      → d.owner_mesh.tables ≡ some t
      → IsTables t
      → calculate_hash h.sha (some q) ≡ calculate_hash h.sha (some packet)
      → (tables_has_seen h (note_and_send h d p packet pri delay) q).0 ≡ true
  unfolding note_and_send
  note_and_send-heard d p packet q pri delay t e v same =
      heard_twice (write_packet d p packet) packet q t e v same
        (note_and_send h d p packet pri delay) (same_owner h.platform _ (some p) pri delay)

-- The operations that send a packet of this node's own, with their arguments.
pub data Sending : Type 0 where
  by_flood : (delay_millis path_hash_size : ℕ) → Sending
  by_coded_flood : (codes : ℕ × ℕ) (delay_millis path_hash_size : ℕ) → Sending
  by_path : (path : List ℕ) (path_len delay_millis : ℕ) → Sending
  to_neighbours : (delay_millis : ℕ) → Sending
  to_coded_neighbours : (codes : ℕ × ℕ) (delay_millis : ℕ) → Sending

abbrev pub sent : MeshHost → Dispatcher → ℕ → Sending → Dispatcher
sent h d p (by_flood delay size) = send_flood h d (some p) delay size
sent h d p (by_coded_flood codes delay size) =
    send_flood_by_transport_codes h d (some p) (some codes) delay size
sent h d p (by_path path path_len delay) = send_direct h d (some p) (some path) path_len delay
sent h d p (to_neighbours delay) = send_zero_hop h d (some p) delay
sent h d p (to_coded_neighbours codes delay) =
    send_zero_hop_by_transport_codes h d (some p) (some codes) delay

-- The size of a hash is one that the operation takes, where it takes one.
pub data Allowed : Sending → Type 0 where
  small_flood : {delay size : ℕ} → 0 < size → size ≤ 3 → Allowed (by_flood delay size)
  small_coded_flood :
      {codes : ℕ × ℕ} {delay size : ℕ}
      → 0 < size
      → size ≤ 3
      → Allowed (by_coded_flood codes delay size)
  any_path : {path : List ℕ} {path_len delay : ℕ} → Allowed (by_path path path_len delay)
  any_neighbours : {delay : ℕ} → Allowed (to_neighbours delay)
  any_coded_neighbours : {codes : ℕ × ℕ} {delay : ℕ} → Allowed (to_coded_neighbours codes delay)

header-with_route :
    (p : Packet) (route : ℕ)
    → p.header < 256
    → route < 4
    → (with_route route p).header ≡ p.header / 4 * 4 + route
unfolding with_route
header-with_route p route byte low =
    rw (bit_and_high 2 6 p.header byte) (bit_or_low 2 (p.header / 4) route low)

-- Apart from TRACE packets, the path has no part in the hash.
same_hash :
    (s : Sha256) (p q : Packet)
    → get_payload_type (some q) ≡ get_payload_type (some p)
    → (get_payload_type (some p) == payload_type_trace) ≡ false
    → q.payload_len ≡ p.payload_len
    → q.payload ≡ p.payload
    → calculate_hash s (some p) ≡ calculate_hash s (some q)
unfolding calculate_hash message
same_hash s p q e no_trace len payload = rw (e, no_trace, len, payload) refl

module _ (h : MeshHost) (d : Dispatcher) (p : ℕ) (t : Tables) (kept : d.owner_mesh.tables ≡ some t)
    (v : IsTables t) (byte : (packet_at d p).header < 256)
    (no_trace : (get_payload_type (some (packet_at d p)) == payload_type_trace) ≡ false)
    (q : Packet)
    (same : calculate_hash h.sha (some q) ≡ calculate_hash h.sha (some (packet_at d p))) where
  abbrev given : Packet
  given = packet_at d p

  same_type :
      (r : Packet) (route : ℕ)
      → route < 4
      → r.header ≡ (with_route route given).header
      → get_payload_type (some r) ≡ get_payload_type (some given)
  same_type r route low e = omega (
    arith,
    e,
    get_payload_type_lem r,
    get_payload_type_lem given,
    header-with_route given route byte low,
  )

  -- What is sent differs from what was given in the route, the path and the codes only.
  noted :
      (r : Packet) (route pri delay : ℕ)
      → route < 4
      → r.header ≡ (with_route route given).header
      → r.payload_len ≡ given.payload_len
      → r.payload ≡ given.payload
      → (tables_has_seen h (note_and_send h d p r pri delay) q).0 ≡ true
  noted r route pri delay low e len payload =
      note_and_send-heard h d p r q pri delay t kept v
        (same ∙ same_hash h.sha given r (same_type r route low e) no_trace len payload)

  direct_type : (get_payload_type (some (with_route 2 given)) == payload_type_trace) ≡ false
  direct_type =
      ap (λ type. type == payload_type_trace) (same_type (with_route 2 given) 2 (omega arith) refl)
      ∙ no_trace

  -- A packet of this node's own, but for a TRACE packet, that one of the operations for sending such
  -- packets takes is noted: a packet with the same hash that comes in next is taken for one that
  -- was heard before. The size of a hash is one to three where the operation takes one, the node has
  -- a filter with a table of full size, and the header is a byte.
  pub sent-heard : (s : Sending) → Allowed s → (tables_has_seen h (sent h d p s) q).0 ≡ true
  unfolding send_flood send_flood_by_transport_codes send_flood_coded send_direct send_zero_hop
      send_zero_hop_by_transport_codes with_path set_path_hash_size_and_count with_route
  sent-heard (by_flood delay size) (small_flood lo hi) =
      rw (no_trace, ne→== size 0 (λ e. omega arith), le→ltb 3 size (omega arith))
        (noted (set_path_hash_size_and_count (with_route 1 given) size 0) 1
          (flood_priority (get_payload_type (some given))) delay (omega arith) refl refl refl)
  sent-heard (by_coded_flood codes delay size) (small_coded_flood lo hi) =
      rw (no_trace, ne→== size 0 (λ e. omega arith), le→ltb 3 size (omega arith))
        (noted
          (set_path_hash_size_and_count (with_codes codes (with_route 0 given))
            (transport_flood_hash_size size (some codes)) 0)
          0 (flood_priority (get_payload_type (some given))) delay (omega arith) refl refl refl)
  sent-heard (by_path path path_len delay) any_path = rw direct_type (
      noted (with_path (some path) path_len (with_route 2 given)) 2 _ delay (omega arith) refl refl
        refl)
  sent-heard (to_neighbours delay) any_neighbours =
      noted (record (with_route 2 given) { path_len = 0 }) 2 0 delay (omega arith) refl refl refl
  sent-heard (to_coded_neighbours codes delay) any_coded_neighbours =
      noted (record (with_codes codes (with_route 3 given)) { path_len = 0 }) 3 0 delay
        (omega arith) refl refl refl
