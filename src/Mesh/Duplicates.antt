-- ===== src/Mesh/Duplicates.antt =====
-- What `meshcore_mesh_on_recv_packet` of `src/core/meshcore_mesh.c` does with a packet that was heard
-- before.
use meshcore.Prelude.{ℕ, ◌≡◌, ◌≢◌, Bool, true, false, some, if◌then◌else◌, inl, inr, ne→==}
use meshcore.Packet.{is_route_flood, get_payload_type, payload_type_multipart}
use meshcore.Packet.Fields.{route_is_flood_or_direct}
use meshcore.Dispatcher.{Dispatcher, packet_at}
use meshcore.Dispatcher.Receive.{action_release}
use meshcore.Mesh.{MeshHost, tables_has_seen}
use meshcore.Mesh.Peers.{on_addressed}
use meshcore.Mesh.Flood.{on_ack, on_anon, on_group, check_advert, on_advert, on_raw}
use meshcore.Mesh.Receive.{on_payload, on_recv_packet}

-- The packet is given back, and nothing was done but to count it.
pub data Dropped (h : MeshHost) (d : Dispatcher) (p : ℕ) : ℕ × Dispatcher → Type 0 where
  unread : Dropped h d p (action_release, d)
  counted : Dropped h d p (action_release, (tables_has_seen h d (packet_at d p)).1)

module _ (h : MeshHost) (d : Dispatcher) (p : ℕ) where
  if-Dropped :
      {x y : ℕ × Dispatcher} (b : Bool)
      → Dropped h d p x
      → Dropped h d p y
      → Dropped h d p (if b then x else y)
  if-Dropped true s t = s
  if-Dropped false s t = t

  module _ (heard : (tables_has_seen h d (packet_at d p)).0 ≡ true) where
    on_ack-Dropped : Dropped h d p (on_ack h d p)
    unfolding on_ack
    on_ack-Dropped = rw heard (if-Dropped _ unread counted)

    on_addressed-Dropped : (type : ℕ) → Dropped h d p (on_addressed h d p type)
    unfolding on_addressed
    on_addressed-Dropped type = rw heard (if-Dropped _ unread counted)

    on_anon-Dropped : Dropped h d p (on_anon h d p)
    unfolding on_anon
    on_anon-Dropped = rw heard (if-Dropped _ unread counted)

    on_group-Dropped : (type : ℕ) → Dropped h d p (on_group h d p type)
    unfolding on_group
    on_group-Dropped type = rw heard (if-Dropped _ unread counted)

    check_advert-Dropped : Dropped h d p (check_advert h d p)
    unfolding check_advert
    check_advert-Dropped = rw heard counted

    on_advert-Dropped : Dropped h d p (on_advert h d p)
    unfolding on_advert
    on_advert-Dropped = if-Dropped _ unread (if-Dropped _ unread check_advert-Dropped)

    on_raw-Dropped : Dropped h d p (on_raw h d p)
    unfolding on_raw
    on_raw-Dropped = rw heard (if-Dropped _ unread counted)

    on_payload-Dropped :
        (type : ℕ) → type ≢ payload_type_multipart → Dropped h d p (on_payload h d p type)
    unfolding on_payload
    on_payload-Dropped type other = rw (ne→== type payload_type_multipart other) (
        if-Dropped _ on_ack-Dropped (
          if-Dropped _ (on_addressed-Dropped type) (
            if-Dropped _ on_anon-Dropped (
              if-Dropped _ (on_group-Dropped type)
                (if-Dropped _ on_advert-Dropped (if-Dropped _ on_raw-Dropped unread))))))

    -- A flooded packet that was heard before, other than a MULTIPART packet, is given back: it is
    -- not sent on, no handler is told of it, and nothing changes but the count of duplicates.
    pub on_recv_packet-Dropped :
        is_route_flood (some (packet_at d p)) ≡ true
        → get_payload_type (some (packet_at d p)) ≢ payload_type_multipart
        → Dropped h d p (on_recv_packet h d p)
    unfolding on_recv_packet
    on_recv_packet-Dropped flooded other = elim (route_is_flood_or_direct (packet_at d p)) [
      | inl (f, n) ↦ rw n (if-Dropped _ unread (on_payload-Dropped _ other))
      | inr (f, n) ↦ cc
    ]
