-- ===== src/Mesh/Flooded.antt =====
-- An acknowledgement that `src/core/meshcore_mesh.c` makes and floods, up to the send queue.
use meshcore.Prelude.{
  ℕ, ◌%◌, ◌≤◌, ◌<◌, ◌≡◌, refl, ap, ◌∙◌, sym, Bool, true, false, not, ◌||◌, Option, some, none, List,
  [], ◌∷◌, ◌++◌, length, arith, ltb, ne→==, le→ltb, u32, get_or, length-set, take, set, take_all,
  take-overwrite, get_or-set_self, if◌then◌else◌,
}
use mathlib.Core.Path.{subst}
use meshcore.Packet.{
  Packet, packet_init, payload_max_len, payload_type_ack, get_payload_type, is_route_flood,
  get_route_type, path_len_field, is_valid_path_len, set_path_hash_size_and_count,
}
use meshcore.Packet.Fields.{path_len-set_path_hash_size_and_count, is_valid_path_len_iff}
use meshcore.Tables.{Tables}
use meshcore.Queue.Items.{Entry, items}
use meshcore.Pool.{Manager}
use meshcore.Pool.Owned.{IsOwned}
use meshcore.Pool.Steps.{queue_outbound_ready, queue_outbound_delivers}
use meshcore.Dispatcher.{
  Dispatcher, Host, put_packet, packet_at, obtain_new_packet, send_packet, future_millis,
  millis_get,
}
use meshcore.Dispatcher.Holdings.{Gives-first, put_packet-IsOwned}
use meshcore.Mesh.{MeshHost, write_packet, seen_by, tables_has_seen}
use meshcore.Mesh.Create.{create_ack_data, ack_filled, stored, with_payload}
use meshcore.Mesh.Send.{note_and_send, send_flood, with_route, flood_priority}

-- An acknowledgement that is flooded, with these bytes.
pub record IsAck (ack : List ℕ) (q : Packet) : Type 0 where
  pub same_type : get_payload_type (some q) ≡ payload_type_ack
  pub by_flood : is_route_flood (some q) ≡ true
  pub size : q.payload_len ≡ length ack
  pub payload : take q.payload_len q.payload ≡ ack

-- From `d` to `d1`, packet `p` came to the end of the send queue, with the contents `q`.
pub record Queued (d : Dispatcher) (p : ℕ) (q : Packet) (d1 : Dispatcher) : Type 0 where
  pub entry : Entry
  pub last : items d1.packet_manager.send_queue ≡ items d.packet_manager.send_queue ++ (entry ∷ [])
  pub queued : entry.packet ≡ some p
  pub contents : packet_at d1 p ≡ q

if_false : (b : Bool) (x y : Dispatcher) → b ≡ false → (if b then x else y) ≡ y
if_false true x y e = cc
if_false false x y e = refl

-- A packet of the caller that may be transmitted is queued.
send_packet-Queued :
    (h : Host) (d : Dispatcher) (p : ℕ) (q : Packet) (held : List ℕ) (pri delay : ℕ)
    → packet_at d p ≡ q
    → is_valid_path_len (path_len_field (some q)) ≡ true
    → q.payload_len ≤ payload_max_len
    → IsOwned d.packet_manager (p ∷ held)
    → Queued d p q (send_packet h d (some p) pri delay)
unfolding send_packet future_millis millis_get
send_packet-Queued h d p q held pri delay same valid fits o =
    let packet = packet_at d p in
    let (at, d1) = future_millis h d delay in
    let bad =
      not (is_valid_path_len (path_len_field (some packet)))
      || ltb payload_max_len packet.payload_len in
    let good : bad ≡ false =
      ap
        (λ (r : Packet).
          not (is_valid_path_len (path_len_field (some r))) || ltb payload_max_len r.payload_len)
        same
      ∙ rw (valid, le→ltb payload_max_len q.payload_len fits) refl in
    let own = Gives-first p held in
    subst (λ x. Queued d p q x) (sym (if_false bad _ _ good))
      (record {
        entry = record { packet = some p; priority = pri; scheduled_for = u32 at };
        last = queue_outbound_delivers d.packet_manager p o own pri (u32 at);
        queued = refl;
        contents =
            ap (λ (m : Manager). get_or m.packet_buf p packet_init)
              (queue_outbound_ready d.packet_manager p o own pri (u32 at))
            ∙ same;
      })

seen-manager :
    (h : MeshHost) (d : Dispatcher) (packet : Packet) (t : Option Tables)
    → (seen_by h d packet t).1.packet_manager ≡ d.packet_manager
unfolding seen_by
seen-manager h d packet none = refl
seen-manager h d packet (some t) = refl

module _ (h : MeshHost) (d d1 : Dispatcher) (p : ℕ) (held : List ℕ)
    (got : obtain_new_packet d ≡ (some p, d1)) (o : IsOwned d1.packet_manager (p ∷ held))
    (inside : p < length d1.packet_manager.packet_buf) where
  note_and_send-Queued :
      (written q : Packet) (pri delay : ℕ)
      → is_valid_path_len (path_len_field (some q)) ≡ true
      → q.payload_len ≤ payload_max_len
      → Queued d1 p q (note_and_send h (write_packet d1 p written) p q pri delay)
  unfolding note_and_send tables_has_seen
  note_and_send-Queued written q pri delay valid fits =
      let d2 = write_packet (write_packet d1 p written) p q in
      let d3 = (seen_by h d2 q d2.owner_mesh.tables).1 in
      let same = seen-manager h d2 q d2.owner_mesh.tables in
      let r =
        send_packet-Queued h.platform d3 p q held pri delay
          (ap (λ (m : Manager). get_or m.packet_buf p packet_init) same
            ∙ get_or-set_self (set d1.packet_manager.packet_buf p written) p q packet_init
                (omega (arith, length-set d1.packet_manager.packet_buf p written)))
          valid fits
          (rw same (
            put_packet-IsOwned (put_packet d1.packet_manager p written) p q (p ∷ held)
              (put_packet-IsOwned d1.packet_manager p written (p ∷ held) o))) in
      record {
        entry = r.entry;
        last = r.last ∙ ap (λ (m : Manager). items m.send_queue ++ (r.entry ∷ [])) same;
        queued = r.queued;
        contents = r.contents;
      }

  module _ (ack : List ℕ) (short : length ack ≤ payload_max_len) where
    abbrev pub filled : Packet
    filled = with_payload payload_type_ack (take (length ack) ack) (length ack) (packet_at d1 p)

    pub made : create_ack_data d (some ack) (length ack) ≡ (some p, write_packet d1 p filled)
    unfolding create_ack_data ack_filled stored
    made =
        ap (λ r. ack_filled r (some ack) (length ack)) got
        ∙ rw (le→ltb payload_max_len (length ack) short) refl

    -- The packet as it is flooded.
    abbrev pub flooded : ℕ → Packet
    flooded size = set_path_hash_size_and_count (with_route 1 filled) size 0

    flooded-valid :
        (size : ℕ)
        → 0 < size
        → size ≤ 3
        → is_valid_path_len (path_len_field (some (flooded size))) ≡ true
    unfolding path_len_field
    flooded-valid size lo hi =
        let e =
          path_len-set_path_hash_size_and_count (with_route 1 filled) size 0 lo (omega arith) in
        let count : (flooded size).path_len % 256 % 64 ≡ 0 = omega (arith, e) in
        (is_valid_path_len_iff ((flooded size).path_len % 256) (omega arith)).1
          (omega (arith, e), rw count (omega arith))

    length_lem : (size : ℕ) → (flooded size).payload_len ≡ length ack
    unfolding set_path_hash_size_and_count with_route with_payload
    length_lem size = omega (arith, short)

    type_lem : get_payload_type (some filled) ≡ payload_type_ack
    unfolding get_payload_type with_payload
    type_lem = refl

    pub flooded-IsAck :
        (size : ℕ) → length ack ≤ length (packet_at d1 p).payload → IsAck ack (flooded size)
    unfolding set_path_hash_size_and_count with_route with_payload get_payload_type is_route_flood
        get_route_type
    flooded-IsAck size room = record {
      same_type = refl;
      by_flood = refl;
      size = length_lem size;
      payload =
          rw (length_lem size, take_all (length ack) ack (omega arith))
            (take-overwrite (length ack) (packet_at d1 p).payload ack refl room);
    }

    pub flooded-Queued :
        (size delay : ℕ)
        → 0 < size
        → size ≤ 3
        → Queued d1 p (flooded size) (send_flood h (write_packet d1 p filled) (some p) delay size)
    unfolding send_flood
    flooded-Queued size delay lo hi =
        rw
          (
            get_or-set_self d1.packet_manager.packet_buf p filled packet_init inside,
            type_lem,
            ne→== size 0 (λ e. omega arith),
            le→ltb 3 size hi,
          )
          (note_and_send-Queued filled (flooded size) (flood_priority payload_type_ack) delay
            (flooded-valid size lo hi) (omega (arith, short, length_lem size)))
