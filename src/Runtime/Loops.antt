-- ===== src/Runtime/Loops.antt =====
-- The loop detection of `src/runtime/meshcore_runtime_policy.c` and the routing of
-- `src/core/meshcore_mesh.c` together.
use meshcore.Prelude.{
  ℕ, zero, suc, ◌+◌, ◌*◌, ◌%◌, ◌≤◌, ◌<◌, ◌≡◌, refl, sym, ap, ◌∙◌, Bool, true, false, not, ◌&&◌,
  some, List, drop, drop-drop, get_or, arith, leb, ne→==, le→ltb, le→leb, if◌then◌else◌, Bool-cases,
  inl, inr,
}
use meshcore.Identity.{Identity, is_hash_match_by_len}
use meshcore.Packet.{
  Packet, get_path_hash_count, get_path_hash_size, is_route_flood, path_len_field,
  is_valid_path_len, is_marked_do_not_retransmit, max_path_len,
}
use meshcore.Packet.Fields.{get_path_hash_count_lem, get_path_hash_size_lem, is_valid_path_len_iff}
use meshcore.Dispatcher.{Dispatcher, packet_at}
use meshcore.Dispatcher.Receive.{action_release}
use meshcore.Mesh.{MeshHost, own_identity, route_recv_packet}
use meshcore.Runtime.Policy.{
  NodePolicy, PolicyHost, strict, repeater, self_count, compared_size, packet_is_looped,
  is_repeater, client_repeat_active, loop_detect_max, allow_packet_forward, allowed_by,
  repeater_allows,
}

no_block : (s : ℕ) → 0 ≡ 0 * s
no_block s = omega arith

next_block : (j s : ℕ) → s + j * s ≡ suc j * s
next_block j s = omega arith

module _ (id : Identity) (stride hash_size : ℕ) where
  self_count-le : (n : ℕ) (path : List ℕ) → self_count n id stride hash_size path ≤ n
  unfolding self_count
  self_count-le zero path = omega arith
  self_count-le (suc n) path =
      let rest = self_count-le n (drop stride path) in
      elim (Bool-cases (is_hash_match_by_len id path hash_size)) [
        | inl e ↦ rw e (omega arith)
        | inr e ↦ rw e (omega arith)
      ]

  -- A hash of the node on the path is counted.
  self_count_found :
      (n j : ℕ) (path : List ℕ)
      → n < 256
      → j < n
      → is_hash_match_by_len id (drop (j * stride) path) hash_size ≡ true
      → 0 < self_count n id stride hash_size path
  unfolding self_count
  self_count_found zero j path h b e = absurd (omega arith)
  self_count_found (suc n) zero path h b e =
      let here : is_hash_match_by_len id path hash_size ≡ true =
        ap (λ (k : ℕ). is_hash_match_by_len id (drop k path) hash_size) (no_block stride) ∙ e in
      rw here (omega (arith, self_count-le n (drop stride path)))
  self_count_found (suc n) (suc j) path h b e =
      let rest = drop stride path in
      let later : is_hash_match_by_len id (drop (j * stride) rest) hash_size ≡ true =
        ap (λ xs. is_hash_match_by_len id xs hash_size)
          (sym (drop-drop stride (j * stride) path)
            ∙ ap (λ (k : ℕ). drop k path) (next_block j stride))
        ∙ e in
      let more = self_count_found n j rest (omega arith) (omega arith) later in
      elim (Bool-cases (is_hash_match_by_len id path hash_size)) [
        | inl e' ↦ rw e' (omega (arith, self_count-le n rest, more))
        | inr e' ↦ rw e' more
      ]

pub compared_size-le : (packet : Packet) → compared_size packet ≤ get_path_hash_size (some packet)
unfolding compared_size
compared_size-le packet = ground arith

size-le :
    (packet : Packet)
    → is_valid_path_len (path_len_field (some packet)) ≡ true
    → get_path_hash_size (some packet) ≤ 3
unfolding path_len_field
size-le packet known =
    let (small, fit) = (is_valid_path_len_iff (packet.path_len % 256) (omega arith)).0 known in
    omega (arith, get_path_hash_size_lem packet)

strict_one : (s : ℕ) → 0 < s → s ≤ 3 → get_or (loop_detect_max strict) s 0 ≡ 1
unfolding loop_detect_max
strict_one zero h k = absurd (omega arith)
strict_one (suc zero) h k = refl
strict_one (suc (suc zero)) h k = refl
strict_one (suc (suc (suc zero))) h k = refl
strict_one (suc (suc (suc (suc s)))) h k = absurd (omega arith)

never : (a b : Bool) → (if a then false else if b then false else false) ≡ false
never true b = refl
never false true = refl
never false false = refl

no_pass {ℓ} : {A : Type ℓ} → (a b c : Bool) (x y : A) → (if a && b && c && false then x else y) ≡ y
no_pass false b c x y = refl
no_pass true false c x y = refl
no_pass true true false x y = refl
no_pass true true true x y = refl

not_flooded :
    (h : MeshHost) (d : Dispatcher) (p : ℕ)
    → is_route_flood (some (packet_at d p)) ≡ false
    → route_recv_packet h d p ≡ (action_release, d)
unfolding route_recv_packet
not_flooded h d p e = rw e refl

module _ (ph : PolicyHost) (policy : NodePolicy) (has_policy : ph.policy ≡ some policy)
    (is_strict : policy.loop_detect ≡ strict) (on_repeater : ph.local_role ≡ some repeater)
    (synced : ph.synced ≡ true) where
  module _ (id : Identity) (packet : Packet) (flooded : is_route_flood (some packet) ≡ true)
      (known : is_valid_path_len (path_len_field (some packet)) ≡ true)
      (compared : 0 < compared_size packet) (j : ℕ)
      (on_path : j < get_path_hash_count (some packet))
      (own_hash : is_hash_match_by_len id
          (drop (j * get_path_hash_size (some packet)) packet.path)
          (compared_size packet)
        ≡ true) where
    looped : packet_is_looped ph id packet (loop_detect_max strict) ≡ true
    unfolding packet_is_looped
    looped =
        let stride = get_path_hash_size (some packet) in
        let size = compared_size packet in
        let count = get_path_hash_count (some packet) in
        let narrow : stride ≤ 3 = size-le packet known in
        let small : size ≤ stride = compared_size-le packet in
        let few : count < 256 = omega (arith, get_path_hash_count_lem packet) in
        rw
          (
            synced,
            ne→== size 0 (λ e. omega arith),
            le→ltb 3 size (omega arith),
            ne→== stride 0 (λ e. omega (arith, get_path_hash_size_lem packet)),
            le→ltb 3 stride narrow,
            strict_one size compared (omega arith),
          )
          (le→leb 1 (self_count count id stride size packet.path)
            (self_count_found id stride size count j packet.path few on_path own_hash))

    repeater_refuses : repeater_allows ph policy id packet ≡ false
    unfolding repeater_allows
    repeater_refuses = simp (flooded, is_strict, looped, never policy.disable_fwd)

    refused : allow_packet_forward ph id packet ≡ false
    unfolding allow_packet_forward allowed_by
    refused =
        ap (λ o. allowed_by ph o id packet) has_policy
        ∙ (ap
              (λ (b : Bool).
                if b then repeater_allows ph policy id packet else client_repeat_active ph policy)
              (ap is_repeater on_repeater)
            ∙ repeater_refuses)

  module _ (h : MeshHost) (d : Dispatcher) (p : ℕ)
      (decides : h.allow_packet_forward d (packet_at d p)
        ≡ allow_packet_forward ph (own_identity d) (packet_at d p)) where
    refused-released :
        allow_packet_forward ph (own_identity d) (packet_at d p) ≡ false
        → route_recv_packet h d p ≡ (action_release, d)
    unfolding route_recv_packet
    refused-released e =
        let packet = packet_at d p in
        let room =
          leb ((get_path_hash_count (some packet) + 1) * get_path_hash_size (some packet))
            max_path_len in
        rw (decides ∙ e) (
          no_pass (is_route_flood (some packet)) (not (is_marked_do_not_retransmit (some packet)))
            room _ _)

    -- `route_recv_packet`, the step that sends flooded packets on, does not do so at a repeater with
    -- strict loop detection, whose own policy decides, for a packet that has a hash of the repeater
    -- on its path: the packet is released, and nothing else changes. The length of the path is a
    -- valid one, and there is a byte to compare. Packets that follow a path are sent on elsewhere.
    pub route_recv_packet_stops :
        let packet = packet_at d p in
        (j : ℕ)
        → is_valid_path_len (path_len_field (some packet)) ≡ true
        → 0 < compared_size packet
        → j < get_path_hash_count (some packet)
        → is_hash_match_by_len
            (own_identity d)
            (drop (j * get_path_hash_size (some packet)) packet.path)
            (compared_size packet)
          ≡ true
        → route_recv_packet h d p ≡ (action_release, d)
    route_recv_packet_stops j known compared on_path own_hash =
        let packet = packet_at d p in
        elim (Bool-cases (is_route_flood (some packet))) [
          | inl e ↦
              refused-released (refused (own_identity d) packet e known compared j on_path own_hash)
          | inr e ↦ not_flooded h d p e
        ]
