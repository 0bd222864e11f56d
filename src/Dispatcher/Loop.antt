-- ===== src/Dispatcher/Loop.antt =====
-- `meshcore_dispatcher_loop` as a caller of the packet manager.
use meshcore.Prelude.{
  ℕ, ◌+◌, ◌/◌, ◌%◌, ◌^◌, ◌≡◌, refl, ◌∙◌, Bool, true, false, Option, none, some, List, ◌∷◌, arith,
  ltb, ◌==◌, if◌then◌else◌, Bool-cases, inl, inr, ℤ, pos, negsuc, u32, ◌⊎◌, Option-cases,
}
use mathlib.Core.Path.{subst}
use meshcore.Packet.Codec.{write_to}
use meshcore.Pool.{Manager, get_next_outbound, get_next_inbound, get_outbound_count}
use meshcore.Pool.Owned.{IsOwned}
use meshcore.Pool.Steps.{given, free-IsOwned}
use meshcore.Pool.Hands.{get_next_outbound-Hands, get_next_inbound-Hands}
use meshcore.Pool.Reach.{Hands-Owned}
use meshcore.Dispatcher.{
  Dispatcher, Host, packet_at, future_millis, millis_get, millis_has_now_passed, update_tx_budget,
  release_packet, max_trans_unit_len, sub_long,
}
use meshcore.Dispatcher.Receive.{act, process_recv_packet}
use meshcore.Dispatcher.Send.{
  put_off, charge, schedule_agc, finish_tx, tx_done, transmit, send_next, listen_before_send,
  check_send, calibrate_floor, watch_receiver, agc, process_next, serve, watch_outbound, loop,
}
use meshcore.Dispatcher.Holdings.{Holds, HandsBack, Gives-first, process-Holds}

-- The packets stay where they are.
record Same (d d' : Dispatcher) : Type 0 where
  manager : d'.packet_manager ≡ d.packet_manager
  outbound : d'.outbound ≡ d.outbound

Same-Holds : (d d' : Dispatcher) (held : List ℕ) → Same d d' → Holds d held → Holds d' held
Same-Holds d d' held s o = rw (s.manager, s.outbound) o

module _ (h : Host) where
  update_tx_budget-Same : (d : Dispatcher) → Same d (update_tx_budget h d)
  unfolding update_tx_budget millis_get
  update_tx_budget-Same d = record { manager = ground arith; outbound = ground arith }

  charge-Same : (d : Dispatcher) (p : ℕ) → Same d (charge h d p)
  unfolding charge put_off millis_get future_millis
  charge-Same d p =
      let d1 : Dispatcher = record d {
        clock_reads = d.clock_reads + 1;
        total_air_time =
            (d.total_air_time + sub_long h (h.clock d.clock_reads) d.outbound_start)
            % 2 ^ h.long_bits;
      } in
      let s = update_tx_budget-Same d1 in
      record { manager = ground (arith, s.manager); outbound = ground (arith, s.outbound) }

  schedule_agc-Same : (d : Dispatcher) (i : ℤ) → Same d (schedule_agc h d i)
  unfolding schedule_agc millis_get future_millis
  schedule_agc-Same d (negsuc n) = record { manager = refl; outbound = refl }
  schedule_agc-Same d (pos n) = record { manager = ground arith; outbound = ground arith }

  calibrate_floor-Same : (d : Dispatcher) → Same d (calibrate_floor h d)
  unfolding calibrate_floor millis_has_now_passed millis_get future_millis
  calibrate_floor-Same d = record { manager = ground arith; outbound = ground arith }

  watch_receiver-Same : (d : Dispatcher) → Same d (watch_receiver h d)
  unfolding watch_receiver millis_get
  watch_receiver-Same d = record { manager = ground arith; outbound = ground arith }

  agc-Same : (d : Dispatcher) (i : ℤ) → Same d (agc h d i)
  unfolding agc millis_has_now_passed millis_get future_millis
  agc-Same d (negsuc n) = record { manager = refl; outbound = refl }
  agc-Same d (pos n) = record { manager = ground arith; outbound = ground arith }

  transmit-Holds :
      (d : Dispatcher) (now : ℕ) (r : Option ℕ × Manager) (held : List ℕ)
      → IsOwned r.1 (given r.0 held)
      → Holds (transmit h d now r) held
  unfolding transmit release_packet millis_get future_millis
  transmit-Holds d now (none, m) held o = o
  transmit-Holds d now (some p, m) held o =
      let d1 : Dispatcher = record d { outbound = some p; packet_manager = m } in
      let w = write_to (some (packet_at d1 p)) true in
      let back = free-IsOwned m p o (Gives-first p held) in
      elim (Bool-cases (w.count == 0)) [
        | inl e ↦ rw e back
        | inr e ↦ elim (Bool-cases (h.sends w.bytes d.clock_reads)) [
          | inl s ↦ rw (e, s) o
          | inr s ↦ rw (e, s) back
        ]
      ]

  send_next-Holds :
      (d : Dispatcher) (now : ℕ) (held : List ℕ)
      → IsOwned d.packet_manager held
      → Holds (send_next h d now) held
  unfolding send_next
  send_next-Holds d now held o =
      transmit-Holds (record d { cad_busy_start = 0 }) now
        (get_next_outbound d.packet_manager (u32 now)) held
        (Hands-Owned d.packet_manager held _ o
          (get_next_outbound-Hands d.packet_manager held o (u32 now)))

  listen_before_send-Holds :
      (d : Dispatcher) (now : ℕ) (held : List ℕ)
      → d.outbound ≡ none
      → IsOwned d.packet_manager held
      → Holds (listen_before_send h d now) held
  unfolding listen_before_send millis_get future_millis
  listen_before_send-Holds d now held idle o =
      let start = if d.cad_busy_start == 0 then now else d.cad_busy_start in
      elim (Bool-cases (h.receiving d.clock_reads)) [
        | inr e ↦ rw e (send_next-Holds d now held o)
        | inl e ↦ elim (Bool-cases (ltb h.cad_max (sub_long h now start))) [
          | inl e' ↦ rw (e, e') (send_next-Holds _ now held o)
          | inr e' ↦ rw (e, e', idle) o
        ]
      ]

  check_send-Holds :
      (d : Dispatcher) (held : List ℕ)
      → d.outbound ≡ none
      → IsOwned d.packet_manager held
      → Holds (check_send h d) held
  unfolding check_send millis_has_now_passed millis_get put_off future_millis
  check_send-Holds d held idle o =
      let d1 : Dispatcher = record d { clock_reads = d.clock_reads + 1 } in
      let d2 = update_tx_budget h d1 in
      let s = update_tx_budget-Same d1 in
      let idle2 : d2.outbound ≡ none = s.outbound ∙ idle in
      let o2 : IsOwned d2.packet_manager held = rw s.manager o in
      elim (Bool-cases (get_outbound_count d.packet_manager (u32 (h.clock d.clock_reads)) == 0)) [
        | inl e ↦ rw (e, idle) o
        | inr e ↦ elim (Bool-cases (ltb d2.tx_budget_ms (h.est_airtime max_trans_unit_len / 2))) [
          | inl low ↦ rw (e, low, idle2) o2
          | inr high ↦
              let passed = (millis_has_now_passed h d2 d2.next_tx_time).0 in
              elim (Bool-cases passed) [
                | inl p ↦ rw (e, high, p) (listen_before_send-Holds _ _ held idle2 o2)
                | inr p ↦ rw (e, high, p, idle2) o2
              ]
        ]
      ]

  finish_tx-Holds :
      (d : Dispatcher) (success : Bool) (p : ℕ) (held : List ℕ)
      → IsOwned d.packet_manager (p ∷ held)
      → let r = finish_tx h d success (some p) in
        (r.0 ≡ true) × (r.1.outbound ≡ none) × IsOwned r.1.packet_manager held
  unfolding finish_tx release_packet
  finish_tx-Holds d success p held o =
      let d1 = if success then charge h d p else d in
      let same : d1.packet_manager ≡ d.packet_manager = ground (arith, (charge-Same d p).manager) in
      let o1 : IsOwned d1.packet_manager (p ∷ held) = rw same o in
      let d2 : Dispatcher = record (release_packet d1 (some p)) { outbound = none } in
      let s = schedule_agc-Same d2 h.agc_interval in
      (refl, s.outbound, rw s.manager (free-IsOwned d1.packet_manager p o1 (Gives-first p held)))

  -- The end of a transmission, successful or not, frees the packet on air and no other; without one
  -- it is refused.
  pub tx_done-Holds :
      (d : Dispatcher) (success : Bool) (held : List ℕ)
      → Holds d held
      → let r = tx_done h d success in
        ((d.outbound ≡ none) × (r ≡ (false, d)))
        ⊎ ((r.0 ≡ true) × (r.1.outbound ≡ none) × IsOwned r.1.packet_manager held)
  unfolding tx_done finish_tx
  tx_done-Holds d success held o = elim (Option-cases d.outbound) [
    | inl e ↦ rw e (inl (refl, refl))
    | inr (p, e) ↦ rw e (
        inr (
          finish_tx-Holds (record d { outbound = some p }) success p held
            (subst (λ x. IsOwned d.packet_manager (given x held)) e o)))
  ]

  act-outbound : (d : Dispatcher) (p action : ℕ) → (act h d p action).outbound ≡ d.outbound
  unfolding act millis_get future_millis
  act-outbound d p action = ground arith

  module _ (c : HandsBack h) where
    process-outbound : (d : Dispatcher) (p : ℕ) → (process_recv_packet h d p).outbound ≡ d.outbound
    unfolding process_recv_packet
    process-outbound d p = act-outbound (h.on_recv d p).1 p (h.on_recv d p).0 ∙ c.same_outbound d p

    process_next-Holds :
        (d : Dispatcher) (r : Option ℕ × Manager) (held : List ℕ)
        → d.outbound ≡ none
        → IsOwned r.1 (given r.0 held)
        → ((process_next h d r).outbound ≡ none) × IsOwned (process_next h d r).packet_manager held
    unfolding process_next
    process_next-Holds d (none, m) held idle o = (idle, o)
    process_next-Holds d (some p, m) held idle o =
        let d1 : Dispatcher = record d { packet_manager = m } in
        let still : (process_recv_packet h d1 p).outbound ≡ none = process-outbound d1 p ∙ idle in
        (
          still,
          subst (λ x. IsOwned (process_recv_packet h d1 p).packet_manager (given x held)) still
              (process-Holds h c d1 p held (rw idle o)),
        )

    serve-Holds :
        (d : Dispatcher) (held : List ℕ)
        → d.outbound ≡ none
        → IsOwned d.packet_manager held
        → Holds (serve h d) held
    unfolding serve millis_get
    serve-Holds d held idle o =
        let d1 = agc h d h.agc_interval in
        let s = agc-Same d h.agc_interval in
        let d2 : Dispatcher = record d1 { clock_reads = d1.clock_reads + 1 } in
        let o1 : IsOwned d1.packet_manager held = rw s.manager o in
        let now = u32 (h.clock d1.clock_reads) in
        let r = get_next_inbound d1.packet_manager now in
        let (idle2, o2) = process_next-Holds d2 r held (s.outbound ∙ idle) (
          Hands-Owned d1.packet_manager held r o1
            (get_next_inbound-Hands d1.packet_manager held o1 now)) in
        check_send-Holds (process_next h d2 r) held idle2 o2

    watch_outbound-Holds :
        (d : Dispatcher) (held : List ℕ) (packet : Option ℕ)
        → d.outbound ≡ packet
        → Holds d held
        → Holds (watch_outbound h d packet) held
    unfolding watch_outbound millis_has_now_passed millis_get tx_done finish_tx
    watch_outbound-Holds d held none e o =
        serve-Holds d held e (subst (λ x. IsOwned d.packet_manager (given x held)) e o)
    watch_outbound-Holds d held (some p) e o =
        let r = millis_has_now_passed h d d.outbound_expiry in
        let o1 : IsOwned d.packet_manager (p ∷ held) =
          subst (λ x. IsOwned d.packet_manager (given x held)) e o in
        let (done, idle, o2) = finish_tx-Holds r.1 false p held o1 in
        elim (Bool-cases r.0) [
          | inl passed ↦
              rw (passed, e) (serve-Holds (finish_tx h r.1 false (some p)).1 held idle o2)
          | inr waits ↦ rw waits o
        ]

    -- One round of the main loop loses no packet and keeps none: if the packet on air was the only
    -- one the dispatcher held, this is so again afterwards.
    pub loop-Holds : (d : Dispatcher) (held : List ℕ) → Holds d held → Holds (loop h d) held
    unfolding loop
    loop-Holds d held o =
        let d1 = calibrate_floor h d in
        let d2 = watch_receiver h d1 in
        watch_outbound-Holds d2 held d2.outbound refl (
          Same-Holds d1 d2 held (watch_receiver-Same d1)
            (Same-Holds d d1 held (calibrate_floor-Same d) o))
