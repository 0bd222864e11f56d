-- ===== src/Runtime/Once.antt =====
-- A flooded packet that comes back to a repeater: `meshcore_mesh_route_recv_packet` of
-- `src/core/meshcore_mesh.c` with the loop detection of `src/runtime/meshcore_runtime_policy.c`.
use meshcore.Prelude.{
  ℕ, ◌+◌, ◌*◌, ◌≤◌, ◌<◌, ◌≡◌, sym, ap, ◌∙◌, true, some, List, ◌++◌, take, drop, length, arith,
  drop-take, drop-append, length-take,
}
use meshcore.Packet.{
  Packet, max_path_len, get_path_hash_count, get_path_hash_size, path_len_field, is_valid_path_len,
}
use meshcore.Packet.Fields.{get_path_hash_size-le}
use meshcore.Packet.Length.{IsPacket}
use meshcore.Identity.{public_key_size}
use meshcore.Identity.Hash.{take-take, is_hash_match_by_len_iff}
use meshcore.Dispatcher.{Dispatcher, packet_at}
use meshcore.Dispatcher.Receive.{action_release}
use meshcore.Mesh.{MeshHost, own_identity, route_recv_packet}
use meshcore.Mesh.Route.{MayForward, Extends, hops, one_more_block, route_recv_packet-Extends}
use meshcore.Runtime.Policy.{
  NodePolicy, PolicyHost, strict, repeater, compared_size, allow_packet_forward,
}
use meshcore.Runtime.Loops.{compared_size-le, route_recv_packet_stops}

-- `r` is `q` after other nodes have put their hashes behind those that it had.
pub record Follows (q r : Packet) : Type 0 where
  pub same_size : get_path_hash_size (some r) ≡ get_path_hash_size (some q)
  pub no_fewer : get_path_hash_count (some q) ≤ get_path_hash_count (some r)
  pub path : take (get_path_hash_count (some q) * get_path_hash_size (some q)) r.path ≡ hops q
  pub valid : is_valid_path_len (path_len_field (some r)) ≡ true

-- The first bytes of a key, behind a prefix.
take_behind :
    (m s c : ℕ) (xs front key : List ℕ)
    → length front ≡ m
    → m ≤ length xs
    → c ≤ s
    → take (m + s) xs ≡ front ++ take s key
    → take c (drop m xs) ≡ take c key
take_behind m s c xs front key e h k same =
    let block : take s (drop m xs) ≡ take s key =
      sym (drop-take m s xs h) ∙ (ap (λ ys. drop m ys) same ∙ drop-append m front (take s key) e) in
    sym (take-take c s (drop m xs) k) ∙ (ap (λ ys. take c ys) block ∙ take-take c s key k)

module _ (p q r : Packet) (key : List ℕ) (v : IsPacket p) (w : IsPacket r)
    (extends : Extends (take (get_path_hash_size (some p)) key) p q) (follows : Follows q r)
    (room : (get_path_hash_count (some p) + 1) * get_path_hash_size (some p) ≤ max_path_len) where
  hash_behind :
      take
        (compared_size r)
        (drop (get_path_hash_count (some p) * get_path_hash_size (some r)) r.path)
      ≡ take (compared_size r) key
  hash_behind =
      let n = get_path_hash_count (some p) in
      let s = get_path_hash_size (some p) in
      let size : get_path_hash_size (some r) ≡ s = follows.same_size ∙ extends.same_size in
      let total : get_path_hash_count (some q) * get_path_hash_size (some q) ≡ n * s + s =
        rw (extends.one_more, extends.same_size) (one_more_block n s) in
      let start : take (n * s + s) r.path ≡ hops p ++ take s key =
        ap (λ (k : ℕ). take k r.path) (sym total) ∙ (follows.path ∙ extends.path) in
      rw size (
        take_behind (n * s) s (compared_size r) r.path (hops p) key
          (omega (arith, length-take (n * s) p.path, one_more_block n s, v.path_array))
          (omega (arith, one_more_block n s, w.path_array)) (omega (arith, compared_size-le r))
          start)

module _ (ph : PolicyHost) (policy : NodePolicy) (has_policy : ph.policy ≡ some policy)
    (is_strict : policy.loop_detect ≡ strict) (on_repeater : ph.local_role ≡ some repeater)
    (synced : ph.synced ≡ true) (h : MeshHost) (d d' : Dispatcher) (p p' : ℕ)
    (decides : h.allow_packet_forward d' (packet_at d' p')
      ≡ allow_packet_forward ph (own_identity d') (packet_at d' p'))
    (same_node : own_identity d' ≡ own_identity d)
    (key : length (own_identity d).pub_key ≡ public_key_size)
    (inside : p < length d.packet_manager.packet_buf) (v : IsPacket (packet_at d p))
    (w : IsPacket (packet_at d' p')) where
  -- A repeater with strict loop detection, whose own policy decides, sends a packet on once: when a
  -- packet of less than 63 hashes and of a valid path length that it sent on comes back, with any
  -- hashes of other nodes behind those that it had, it is released, and nothing else changes. The
  -- hashes have a byte to compare.
  pub route_recv_packet_once :
      MayForward h d (packet_at d p)
      → get_path_hash_count (some (packet_at d p)) < 63
      → is_valid_path_len (path_len_field (some (packet_at d p))) ≡ true
      → Follows (packet_at (route_recv_packet h d p).1 p) (packet_at d' p')
      → 0 < compared_size (packet_at d' p')
      → route_recv_packet h d' p' ≡ (action_release, d')
  route_recv_packet_once m few known follows compared =
      let packet = packet_at d p in
      let r = packet_at d' p' in
      let extends = route_recv_packet-Extends h d p inside v m few known key in
      let own =
        hash_behind packet (packet_at (route_recv_packet h d p).1 p) r (own_identity d).pub_key v w
          extends follows m.room in
      route_recv_packet_stops ph policy has_policy is_strict on_repeater synced h d' p' decides
        (get_path_hash_count (some packet)) follows.valid compared
        (omega (arith, extends.one_more, follows.no_fewer))
        ((is_hash_match_by_len_iff (own_identity d') _ (compared_size r)
            (omega (arith, compared_size-le r, get_path_hash_size-le r))).1
          (own ∙ ap (λ i. take (compared_size r) i.pub_key) (sym same_node)))
