-- ===== src/Dispatcher/Holdings.antt =====
-- The dispatcher as a caller of the packet manager: between its operations it holds the packet on
-- air, and no other.
use meshcore.Prelude.{
  ℕ, ◌≡◌, ◌≢◌, refl, ◌||◌, Option, none, some, List, [], ◌∷◌, ltb, ◌==◌, Bool-cases, inl, inr, ℤ,
  pos, negsuc, ==→eq,
}
use meshcore.Packet.{Packet, is_route_flood}
use meshcore.Pool.{Manager, alloc_new}
use meshcore.Pool.Owned.{IsOwned}
use meshcore.Pool.Steps.{Gives, given, free-IsOwned, queue_outbound-IsOwned, queue_inbound-IsOwned}
use meshcore.Pool.Hands.{alloc_new-Hands}
use meshcore.Pool.Reach.{Hands-Owned}
use meshcore.Dispatcher.{
  Dispatcher, Host, put_packet, packet_at, future_millis, millis_get, max_trans_unit_len,
}
use meshcore.Dispatcher.Parse.{try_parse_packet}
use meshcore.Dispatcher.Receive.{
  act, process_recv_packet, delay_flood, dispatch, fill_packet, receive_into, receive_raw,
  action_manual_hold, action_release,
}

-- The packets that are not in the manager are the one on air and those in `held`.
abbrev pub Holds : Dispatcher → List ℕ → Type 0
Holds d held = IsOwned d.packet_manager (given d.outbound held)

-- The mesh's part: it may use the packet manager, but leaves the packet it was given to the
-- dispatcher, which is not to transmit or to keep another meanwhile.
pub record HandsBack (h : Host) : Type 0 where
  pub keeps :
      (d : Dispatcher) (p : ℕ) (held : List ℕ)
      → IsOwned d.packet_manager (p ∷ held)
      → IsOwned (h.on_recv d p).1.packet_manager (p ∷ held)
  pub same_outbound : (d : Dispatcher) (p : ℕ) → (h.on_recv d p).1.outbound ≡ d.outbound
  pub no_hold : (d : Dispatcher) (p : ℕ) → (h.on_recv d p).0 ≢ action_manual_hold

pub Gives-first : (p : ℕ) (held : List ℕ) → Gives p (p ∷ held) held
Gives-first p held = record { before = []; after = held; all = refl; rest = refl }

-- Writing a packet leaves it where it is.
pub put_packet-IsOwned :
    (m : Manager) (p : ℕ) (packet : Packet) (held : List ℕ)
    → IsOwned m held
    → IsOwned (put_packet m p packet) held
put_packet-IsOwned m p packet held o = record {
  ready = o.ready;
  unused = o.unused;
  send = o.send;
  rx = o.rx;
  once = o.once;
  total = o.total;
}

module _ (h : Host) where
  act-Holds :
      (d : Dispatcher) (p action : ℕ) (held : List ℕ)
      → action ≢ action_manual_hold
      → IsOwned d.packet_manager (p ∷ given d.outbound held)
      → Holds (act h d p action) held
  unfolding act future_millis millis_get
  act-Holds d p action held nh o =
      let g = Gives-first p (given d.outbound held) in
      elim (Bool-cases (action == action_release)) [
        | inl e ↦ rw e (free-IsOwned d.packet_manager p o g)
        | inr e ↦ elim (Bool-cases (action == action_manual_hold)) [
          | inl e' ↦ absurd (nh (==→eq action action_manual_hold e'))
          | inr e' ↦ rw (e, e') (queue_outbound-IsOwned d.packet_manager p o g _ _)
        ]
      ]

  module _ (c : HandsBack h) where
    pub process-Holds :
        (d : Dispatcher) (p : ℕ) (held : List ℕ)
        → IsOwned d.packet_manager (p ∷ given d.outbound held)
        → Holds (process_recv_packet h d p) held
    unfolding process_recv_packet
    process-Holds d p held o =
        let r = h.on_recv d p in
        act-Holds r.1 p r.0 held (c.no_hold d p)
          (rw (c.same_outbound d p) (c.keeps d p (given d.outbound held) o))

    delay_flood-Holds :
        (d : Dispatcher) (p : ℕ) (delay : ℤ) (held : List ℕ)
        → IsOwned d.packet_manager (p ∷ given d.outbound held)
        → Holds (delay_flood h d p delay) held
    unfolding delay_flood future_millis millis_get
    delay_flood-Holds d p (negsuc n) held o = process-Holds d p held o
    delay_flood-Holds d p (pos n) held o = elim (Bool-cases (ltb n 50)) [
      | inl e ↦ rw e (process-Holds d p held o)
      | inr e ↦
          rw e
            (queue_inbound-IsOwned d.packet_manager p o (Gives-first p (given d.outbound held)) _)
    ]

    dispatch-Holds :
        (d : Dispatcher) (p snr_q4 len : ℕ) (held : List ℕ)
        → IsOwned d.packet_manager (p ∷ given d.outbound held)
        → Holds (dispatch h d p snr_q4 len) held
    unfolding dispatch
    dispatch-Holds d p snr_q4 len held o =
        let packet : Packet = record (packet_at d p) { snr_q4 = snr_q4 } in
        let m = put_packet d.packet_manager p packet in
        let o1 = put_packet-IsOwned d.packet_manager p packet (p ∷ given d.outbound held) o in
        elim (Bool-cases (is_route_flood (some (packet_at (record d { packet_manager = m }) p)))) [
          | inl e ↦ rw e (delay_flood-Holds _ p (h.rx_delay snr_q4 len) held o1)
          | inr e ↦ rw e (process-Holds _ p held o1)
        ]

    fill_packet-Holds :
        (d : Dispatcher) (p : ℕ) (raw : List ℕ) (len snr_q4 : ℕ) (held : List ℕ)
        → IsOwned d.packet_manager (p ∷ given d.outbound held)
        → Holds (fill_packet h d p raw len snr_q4).1 held
    unfolding fill_packet
    fill_packet-Holds d p raw len snr_q4 held o =
        let r = try_parse_packet (packet_at d p) raw len in
        let o1 = put_packet-IsOwned d.packet_manager p r.1 (p ∷ given d.outbound held) o in
        elim (Bool-cases r.0) [
          | inl e ↦ rw e (dispatch-Holds _ p snr_q4 len held o1)
          | inr e ↦ rw e (free-IsOwned _ p o1 (Gives-first p (given d.outbound held)))
        ]

    receive_into-Holds :
        (d : Dispatcher) (raw : List ℕ) (len snr_q4 : ℕ) (r : Option ℕ × Manager) (held : List ℕ)
        → IsOwned r.1 (given r.0 (given d.outbound held))
        → Holds (receive_into h d raw len snr_q4 r).1 held
    unfolding receive_into
    receive_into-Holds d raw len snr_q4 (none, m) held o = o
    receive_into-Holds d raw len snr_q4 (some p, m) held o =
        fill_packet-Holds (record d { packet_manager = m }) p raw len snr_q4 held o

    -- Whatever is received, parsed or not, no packet is lost: it is queued or given back, and the
    -- dispatcher holds what it held before.
    pub receive_raw-Holds :
        (d : Dispatcher) (raw : Option (List ℕ)) (len snr_q4 : ℕ) (held : List ℕ)
        → Holds d held
        → Holds (receive_raw h d raw len snr_q4).1 held
    unfolding receive_raw
    receive_raw-Holds d none len snr_q4 held o = o
    receive_raw-Holds d (some raw) len snr_q4 held o =
        let r = alloc_new d.packet_manager in
        let o1 =
          Hands-Owned d.packet_manager (given d.outbound held) r o
            (alloc_new-Hands d.packet_manager (given d.outbound held) o) in
        elim (Bool-cases (len == 0 || ltb max_trans_unit_len len)) [
          | inl e ↦ rw e o
          | inr e ↦ rw e (receive_into-Holds d raw len snr_q4 r held o1)
        ]
