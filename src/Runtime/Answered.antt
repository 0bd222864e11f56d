-- ===== src/Runtime/Answered.antt =====
-- A text to a chat node that came along a path, and the acknowledgement that
-- `src/runtime/meshcore_runtime_receive.c` floods, as the node that sent the text waits for it.
use meshcore.Prelude.{
  ℕ, ◌+◌, ◌%◌, ◌-◌, ◌≡◌, ◌≢◌, ◌^◌, ◌<◌, ◌≤◌, ap, ◌∙◌, true, false, Option, none, some, List, [],
  ◌∷◌, if◌then◌else◌, length, replicate, arith, ltb, lt→ltb, word32, length-append,
  length-replicate,
}
use mathlib.Core.Path.{subst}
use meshcore.Packet.{Packet, payload_max_len, payload_type_txt_msg, is_route_flood}
use meshcore.Cipher.{block_size}
use meshcore.Cipher.Blocks.{padded}
use meshcore.Context.{Requests, chat}
use meshcore.Pool.Steps.{given}
use meshcore.Pool.Owned.{IsOwned}
use meshcore.Dispatcher.{Dispatcher, packet_at, obtain_new_packet}
use meshcore.Dispatcher.Holdings.{Holds}
use meshcore.Mesh.{MeshHost, Peer, own_identity, write_packet}
use meshcore.Mesh.Trade.{obtain_new_packet-Obtains}
use meshcore.Mesh.Flooded.{Queued, IsAck, filled, flooded, made, flooded-IsAck, flooded-Queued}
use meshcore.Runtime.{time_reached, normalize_path_hash_size}
use meshcore.Runtime.Policy.{NodePolicy}
use meshcore.Runtime.Expected.{IsTable, expected_ack_handle-expected_ack_register}
use meshcore.Runtime.Pending.{expected_ack_register, expected_ack_handle, request_timeout_ms}
use meshcore.Runtime.Local.{
  RuntimeHost, notify, local_role_is, local_path_hash_size_get, path_hash_size_of, peer_path_get,
  flood_made,
}
use meshcore.Runtime.Publish.{text_message_publish}
use meshcore.Runtime.Split.{Without}
use meshcore.Runtime.Replies.{
  send_ack_or_path_return, send_ack_direct, ack_by_path, txt_ack_delay_ms,
}
use meshcore.Runtime.Receive.{on_peer_data_recv}
use meshcore.Runtime.Outbox.{message_text, message_bytes, expected_ack}
use meshcore.Runtime.Acknowledged.{on_text-message_bytes}

path_hash_size_of-bounds :
    (o : Option NodePolicy) → (0 < path_hash_size_of o) × (path_hash_size_of o ≤ 3)
unfolding normalize_path_hash_size
path_hash_size_of-bounds none = (omega arith, omega arith)
path_hash_size_of-bounds (some policy) = (ground arith, ground arith)

-- A text is not too short to be handled.
enough :
    (timestamp attempt : ℕ) (payload : List ℕ)
    → 5 < length (padded (message_bytes timestamp attempt payload))
unfolding message_text
enough timestamp attempt payload =
    let bytes = message_bytes timestamp attempt payload in
    omega (
      arith,
      length-append bytes (replicate ((block_size - length bytes % block_size) % block_size) 0),
      length-replicate {A = ℕ} ((block_size - length bytes % block_size) % block_size) 0,
      length-append (message_text timestamp attempt payload)
          (if ltb 3 attempt then 0 ∷ attempt ∷ [] else []),
    )

module _ (rh : RuntimeHost) (h : MeshHost) (d d1 : Dispatcher) (p : ℕ) (o : Holds d [])
    (got : obtain_new_packet d ≡ (some p, d1)) (inside : p < length d1.packet_manager.packet_buf)
    (array : length (packet_at d1 p).payload ≡ payload_max_len) (peer : Peer) (packet : Packet)
    (by_path : is_route_flood (some packet) ≡ false)
    (no_path : peer_path_get rh d peer.public_key ≡ none) where
  abbrev others : List ℕ
  others = given d.outbound []

  given-IsOwned : IsOwned d1.packet_manager (p ∷ others)
  given-IsOwned =
      subst (λ (x : Option ℕ × Dispatcher). IsOwned x.1.packet_manager (given x.0 others)) got
        ((obtain_new_packet-Obtains d).owned others o)

  -- To a sender of a text that came along a path, and to whom no path is known, the acknowledgement
  -- is flooded.
  send_ack_or_path_return-IsAck :
      (ack : List ℕ)
      → length ack ≤ 6
      → (q : Packet) × Queued d1 p q (send_ack_or_path_return h rh d peer packet ack) × IsAck ack q
  unfolding send_ack_or_path_return send_ack_direct ack_by_path flood_made local_path_hash_size_get
  send_ack_or_path_return-IsAck ack short =
      let fits : length ack ≤ payload_max_len = omega arith in
      let q = filled h d d1 p others got given-IsOwned inside ack fits in
      let size = path_hash_size_of (rh.policy (write_packet d1 p q)) in
      let (lo, hi) = path_hash_size_of-bounds (rh.policy (write_packet d1 p q)) in
      (
        flooded h d d1 p others got given-IsOwned inside ack fits size,
        rw (by_path, no_path, made h d d1 p others got given-IsOwned inside ack fits)
            (flooded-Queued h d d1 p others got given-IsOwned inside ack fits size txt_ack_delay_ms
              lo hi),
        flooded-IsAck h d d1 p others got given-IsOwned inside ack fits size (omega (arith, array)),
      )

module _ (timestamp attempt : ℕ) (payload : List ℕ) where
  abbrev text : List ℕ
  text = message_text timestamp attempt payload

  abbrev received : List ℕ
  received = padded (message_bytes timestamp attempt payload)

  module _ (rh rh' : RuntimeHost) (h : MeshHost) (d d' : Dispatcher) (peer : Peer) (packet : Packet)
      (same : rh'.fragments ≡ rh.fragments)
      (fills : (n : ℕ) (frag1 frag2 out : List ℕ)
        → rh.fragments n frag1 frag2 ≡ some out
        → length out ≡ n)
      (sender : peer.public_key ≡ (own_identity d).pub_key) (no_nul : Without 0 payload)
      (chats : local_role_is rh' d' chat ≡ true)
      (by_path : is_route_flood (some packet) ≡ false) where
    abbrev told : Dispatcher
    told = notify (text_message_publish peer packet timestamp payload) d'

    abbrev after : Dispatcher
    after = on_peer_data_recv h rh' d' peer packet payload_type_txt_msg received

    module _ (no_path : peer_path_get rh' told peer.public_key ≡ none) (o : Holds d' [])
        (d1 : Dispatcher) (p : ℕ) (got : obtain_new_packet told ≡ (some p, d1))
        (inside : p < length d1.packet_manager.packet_buf)
        (array : length (packet_at d1 p).payload ≡ payload_max_len) where
      after-Queued :
          (ack : List ℕ) × (q : Packet) × Queued d1 p q after
          × IsAck ack q
          × (4 ≤ length ack)
          × (word32 ack 0 ≡ expected_ack rh d text)
      unfolding on_peer_data_recv
      after-Queued =
          let (ack, sends, same_crc, long, short) =
            on_text-message_bytes timestamp attempt payload rh rh' h d d' peer packet same fills
              sender no_nul in
          let (q, r, is_ack) =
            send_ack_or_path_return-IsAck rh' h told d1 p o got inside array peer packet by_path
              no_path ack short in
          (
            ack,
            q,
            rw (chats, lt→ltb 5 (length received) (enough timestamp attempt payload), sends)
                (record {
                  entry = r.entry;
                  last = r.last;
                  queued = r.queued;
                  contents = r.contents;
                }),
            is_ack,
            long,
            same_crc,
          )

      -- A chat node that gets a plain text acknowledges it: where the text came along a path, no
      -- path to its sender is known and a packet is free, that packet comes to the end of the send
      -- queue as a flooded ACK packet of at least four bytes, and while the sender waits for that,
      -- the checksum in it is one that the sender takes, whatever else it waits for. The text of the
      -- sender is what its node encrypts, the receiver's what it decrypts: the same, filled up with
      -- zeros. The two hosts compute the same digests of two fragments, of the size that is asked
      -- for, the receiver has the sender's key, no byte of the message is a terminator, and the
      -- checksum is not 0, with which nothing is waited for. Every packet of the receiver's pool is
      -- in one place, and the free one has a slot of the pool's buffer with a payload array of full
      -- size; the sender's table of what it waits for has its eight slots.
      pub on_peer_data_recv-acknowledged :
          (r : Requests)
          → IsTable r
          → expected_ack rh d text ≢ 0
          → (public_key : List ℕ) (long_bits now_ms later_ms : ℕ)
          → time_reached long_bits later_ms ((now_ms + request_timeout_ms) % 2 ^ long_bits) ≡ false
          → let waiting =
              expected_ack_register long_bits now_ms r
                (expected_ack rh d text)
                (some public_key)
                attempt in
            (ack : List ℕ) × (q : Packet) × Queued d1 p q after
            × IsAck ack q
            × (4 ≤ length ack)
            × ((expected_ack_handle long_bits later_ms waiting (word32 ack 0)).0 ≡ true)
      on_peer_data_recv-acknowledged r v some_crc public_key long_bits now_ms later_ms early =
          let waiting =
            expected_ack_register long_bits now_ms r (expected_ack rh d text) (some public_key)
              attempt in
          let (ack, q, queued, is_ack, long, same_crc) = after-Queued in
          (
            ack,
            q,
            queued,
            is_ack,
            long,
            ap (λ crc. (expected_ack_handle long_bits later_ms waiting crc).0) same_crc
                ∙ (expected_ack_handle-expected_ack_register long_bits now_ms r v
                    (expected_ack rh d text) some_crc public_key attempt later_ms early).0,
          )
