-- ===== src/Mesh/Route.antt =====
-- `meshcore_mesh_route_recv_packet` of `src/core/meshcore_mesh.c`: how a flooded packet collects the
-- hashes of the nodes that send it on.
use meshcore.Prelude.{
  ℕ, ◌+◌, ◌*◌, ◌/◌, ◌%◌, ◌≤◌, ◌<◌, ◌≡◌, ◌≢◌, refl, ap, ◌∙◌, true, false, some, List, [], ◌++◌, take,
  drop, overwrite, length, arith, u8, length-take, length-drop, take-append, drop-append,
  take-append-take, take-overwrite, get_or-set_self, le→leb,
}
use meshcore.Packet.{
  Packet, packet_init, max_path_len, path_len_field, get_path_hash_count, get_path_hash_size,
  set_path_hash_count, is_route_flood, is_marked_do_not_retransmit, is_valid_path_len,
}
use meshcore.Packet.Fields.{
  get_path_hash_count_lem, get_path_hash_size_lem, get_path_hash_size-le,
  path_len-set_path_hash_count, is_valid_path_len_iff,
}
use meshcore.Packet.Length.{IsPacket}
use meshcore.Identity.{copy_hash_by_len, public_key_size}
use meshcore.Identity.Hash.{copy_hash_by_len_lem}
use meshcore.Dispatcher.{Dispatcher, packet_at}
use meshcore.Dispatcher.Receive.{action_release}
use meshcore.Mesh.Answers.{retransmit_delayed-ge, get_path_hash_count-le}
use meshcore.Mesh.{MeshHost, route_recv_packet, write_packet, own_identity, store_at}

-- Bytes stored at the end of a prefix follow it.
take-store_at :
    (m n : ℕ) (xs ys : List ℕ)
    → length ys ≡ n
    → m + n ≤ length xs
    → take (m + n) (store_at xs m ys) ≡ take m xs ++ ys
take-store_at m n xs ys e h =
    let front : length (take m xs) ≡ m = omega (arith, length-take m xs) in
    rw
      (
        take-append-take m n (store_at xs m ys),
        take-append m (take m xs) (overwrite (drop m xs) ys) front,
        drop-append m (take m xs) (overwrite (drop m xs) ys) front,
      )
      (ap (λ zs. take m xs ++ zs)
        (take-overwrite n (drop m xs) ys e (omega (arith, length-drop m xs))))

-- The hashes on the path of a packet, as the array holds them.
abbrev pub hops : Packet → List ℕ
hops p = take (get_path_hash_count (some p) * get_path_hash_size (some p)) p.path

-- `q` is `p` with one more hash on its path.
pub record Extends (hash : List ℕ) (p q : Packet) : Type 0 where
  pub one_more : get_path_hash_count (some q) ≡ get_path_hash_count (some p) + 1
  pub same_size : get_path_hash_size (some q) ≡ get_path_hash_size (some p)
  pub path : hops q ≡ hops p ++ hash
  pub same_header : q.header ≡ p.header
  pub same_payload : (q.payload_len ≡ p.payload_len) × (q.payload ≡ p.payload)
  pub fits : is_valid_path_len (path_len_field (some q)) ≡ true

pub one_more_block : (n s : ℕ) → (n + 1) * s ≡ n * s + s
one_more_block n s = omega arith

-- The packet that `route_recv_packet` writes.
abbrev extended : Dispatcher → Packet → Packet
extended d packet =
    let n = get_path_hash_count (some packet) in
    let s = get_path_hash_size (some packet) in
    set_path_hash_count
      (record packet {
        path = store_at packet.path (n * s) (copy_hash_by_len (own_identity d) s).1;
      })
      (u8 (n + 1))

module _ (d : Dispatcher) (packet : Packet) (v : IsPacket packet) where
  path_len-extended :
      (extended d packet).path_len ≡ packet.path_len / 64 * 64 + (packet.path_len % 64 + 1) % 64
  unfolding set_path_hash_count
  path_len-extended =
      path_len-set_path_hash_count (record packet { path = (extended d packet).path })
        (u8 (get_path_hash_count (some packet) + 1)) v.path_word
      ∙ omega (arith, get_path_hash_count_lem packet)

  count-extended :
      get_path_hash_count (some (extended d packet)) ≡ (get_path_hash_count (some packet) + 1) % 64
  count-extended = omega (
    arith,
    get_path_hash_count_lem packet,
    get_path_hash_count_lem (extended d packet),
    path_len-extended,
  )

  size-extended : get_path_hash_size (some (extended d packet)) ≡ get_path_hash_size (some packet)
  size-extended = omega (
    arith,
    get_path_hash_size_lem packet,
    get_path_hash_size_lem (extended d packet),
    path_len-extended,
  )

  module _ (few : get_path_hash_count (some packet) < 63)
      (known : is_valid_path_len (path_len_field (some packet)) ≡ true)
      (room : (get_path_hash_count (some packet) + 1) * get_path_hash_size (some packet) ≤ 64)
      (key : length (own_identity d).pub_key ≡ public_key_size) where
    total :
        get_path_hash_count (some (extended d packet))
          * get_path_hash_size (some (extended d packet))
        ≡ get_path_hash_count (some packet) * get_path_hash_size (some packet)
          + get_path_hash_size (some packet)
    total =
        let n = get_path_hash_count (some packet) in
        let s = get_path_hash_size (some packet) in
        let e : (n + 1) % 64 ≡ n + 1 = omega arith in
        rw (count-extended, size-extended, e) (one_more_block n s)

    path-extended :
        (extended d packet).path
        ≡ store_at packet.path
            (get_path_hash_count (some packet) * get_path_hash_size (some packet))
            (take (get_path_hash_size (some packet)) (own_identity d).pub_key)
    unfolding set_path_hash_count
    path-extended =
        rw
          (copy_hash_by_len_lem (own_identity d) (get_path_hash_size (some packet))
            (omega (arith, get_path_hash_size-le packet)))
          refl

    hops-extended :
        hops (extended d packet)
        ≡ hops packet ++ take (get_path_hash_size (some packet)) (own_identity d).pub_key
    hops-extended =
        let n = get_path_hash_count (some packet) in
        let s = get_path_hash_size (some packet) in
        rw (total, path-extended)
          (take-store_at (n * s) s packet.path (take s (own_identity d).pub_key)
            (omega
              (arith, length-take s (own_identity d).pub_key, get_path_hash_size-le packet, key))
            (omega (arith, one_more_block n s, v.path_array)))

    fits-extended : is_valid_path_len (path_len_field (some (extended d packet))) ≡ true
    unfolding path_len_field
    fits-extended =
        let q = extended d packet in
        let n = get_path_hash_count (some packet) in
        let s = get_path_hash_size (some packet) in
        let count : q.path_len % 256 % 64 ≡ n + 1 =
          omega (arith, path_len-extended, get_path_hash_count_lem packet) in
        let size : q.path_len % 256 / 64 + 1 ≡ s =
          omega (arith, path_len-extended, get_path_hash_size_lem packet) in
        let (small, fit) = (is_valid_path_len_iff (packet.path_len % 256) (omega arith)).0 known in
        (is_valid_path_len_iff (q.path_len % 256) (omega arith)).1
          (omega (arith, get_path_hash_size_lem packet), rw (count, size) room)

    -- The packet as it is sent on.
    extended-Extends :
        Extends
          (take (get_path_hash_size (some packet)) (own_identity d).pub_key)
          packet
          (extended d packet)
    extended-Extends = record {
      one_more = omega (arith, count-extended);
      same_size = size-extended;
      path = hops-extended;
      same_header = unfold set_path_hash_count in refl;
      same_payload = unfold set_path_hash_count in (refl, refl);
      fits = fits-extended;
    }

-- The packet is flooded, is not marked, has room for one more hash, and the runtime lets it pass.
pub record MayForward (h : MeshHost) (d : Dispatcher) (packet : Packet) : Type 0 where
  pub flooded : is_route_flood (some packet) ≡ true
  pub unmarked : is_marked_do_not_retransmit (some packet) ≡ false
  pub room :
      (get_path_hash_count (some packet) + 1) * get_path_hash_size (some packet) ≤ max_path_len
  pub allowed : h.allow_packet_forward d packet ≡ true

module _ (h : MeshHost) (d : Dispatcher) (p : ℕ) where
  forwarded :
      MayForward h d (packet_at d p)
      → p < length d.packet_manager.packet_buf
      → ((route_recv_packet h d p).0 ≢ action_release)
        × (packet_at (route_recv_packet h d p).1 p ≡ extended d (packet_at d p))
  unfolding route_recv_packet
  forwarded m inside =
      let packet = packet_at d p in
      let q = extended d packet in
      rw (m.flooded, m.unmarked, le→leb _ _ m.room, m.allowed)
        (
          λ e. omega (
            arith,
            retransmit_delayed-ge (get_path_hash_count (some q))
                (h.retransmit_delay (write_packet d p q) q) (get_path_hash_count-le q),
          ),
          get_or-set_self d.packet_manager.packet_buf p q packet_init inside,
        )

  module _ (inside : p < length d.packet_manager.packet_buf) where
    module _ (v : IsPacket (packet_at d p)) (m : MayForward h d (packet_at d p)) where
      -- A flooded packet of less than 63 hashes, whose path length is a valid one, that
      -- `route_recv_packet` sends on, since it is not marked, has room for one more hash and the
      -- runtime lets it pass, has the hashes that it had, then the one of this node, of the same
      -- size; its path length is still valid, and its header and payload are the same. The own key
      -- is of full size.
      pub route_recv_packet-Extends :
          get_path_hash_count (some (packet_at d p)) < 63
          → is_valid_path_len (path_len_field (some (packet_at d p))) ≡ true
          → length (own_identity d).pub_key ≡ public_key_size
          → Extends
              (take (get_path_hash_size (some (packet_at d p))) (own_identity d).pub_key)
              (packet_at d p)
              (packet_at (route_recv_packet h d p).1 p)
      route_recv_packet-Extends few known key =
          rw (forwarded m inside).1 (extended-Extends d (packet_at d p) v few known m.room key)

      -- At 63 hashes the count does not hold one more: the packet is still sent on, with no hash.
      pub route_recv_packet_wraps :
          get_path_hash_count (some (packet_at d p)) ≡ 63
          → ((route_recv_packet h d p).0 ≢ action_release)
            × (get_path_hash_count (some (packet_at (route_recv_packet h d p).1 p)) ≡ 0)
            × (hops (packet_at (route_recv_packet h d p).1 p) ≡ [])
      route_recv_packet_wraps full =
          let packet = packet_at d p in
          let none_left : get_path_hash_count (some (extended d packet)) ≡ 0 =
            omega (arith, count-extended d packet v) in
          let nothing : 0 * get_path_hash_size (some (extended d packet)) ≡ 0 = omega arith in
          rw (forwarded m inside).1
            ((forwarded m inside).0, none_left, rw (none_left, nothing) refl)
