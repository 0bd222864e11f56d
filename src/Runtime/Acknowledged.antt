-- ===== src/Runtime/Acknowledged.antt =====
-- The checksum of the acknowledgement of a text, as its sender expects it in
-- `src/runtime/meshcore_runtime_request.c` and as the receiver computes it in
-- `src/runtime/meshcore_runtime_receive.c`.
use meshcore.Prelude.{
  ℕ, ◌+◌, ◌%◌, ◌/◌, ◌-◌, ◌≡◌, ◌≤◌, length-append, length-take, refl, ap, ◌∙◌, false, some, List, [],
  ◌∷◌, ◌++◌, length, take, drop, replicate, get_or, arith, ltb, leb, if◌then◌else◌, word32,
  word32-bytes32, append_assoc, take-append, bit_and, bit_and_mask, Bool-cases, inl, inr,
}
use meshcore.Crypto.{sha256_two_fragments, length-or_zeros}
use meshcore.Packet.{Packet}
use meshcore.Cipher.Blocks.{padded}
use meshcore.Cipher.{block_size}
use meshcore.Identity.{public_key_size}
use meshcore.Dispatcher.{Dispatcher}
use meshcore.Mesh.{MeshHost, Peer, own_identity}
use meshcore.Runtime.Local.{RuntimeHost, notify}
use meshcore.Runtime.Publish.{split_at_byte, text_message_publish}
use meshcore.Runtime.Split.{Without, Ends, at_nul, zeros-Ends, split_at_byte-append}
use meshcore.Runtime.Replies.{
  type_plain, ack_hash, ack_of, ack_sent, handle_text_follow_up, send_ack_or_path_return,
}
use meshcore.Runtime.Receive.{on_text, on_text_at}
use meshcore.Runtime.Outbox.{message_text, message_bytes, expected_ack}

word32-append : (xs ys : List ℕ) → length xs ≡ 4 → word32 (xs ++ ys) 0 ≡ word32 xs 0
word32-append (a ∷ b ∷ c ∷ e ∷ []) ys h = refl
word32-append (a ∷ b ∷ c ∷ e ∷ f ∷ xs) ys h = absurd (omega arith)
word32-append (a ∷ b ∷ c ∷ []) ys h = absurd (omega arith)
word32-append (a ∷ b ∷ []) ys h = absurd (omega arith)
word32-append (a ∷ []) ys h = absurd (omega arith)
word32-append [] ys h = absurd (omega arith)

-- The number of the attempt does not reach the flags of the text.
no_flags : (attempt : ℕ) → bit_and attempt 0x03 / 4 ≡ 0
no_flags attempt = omega (arith, bit_and_mask 2 attempt)

-- The attempt behind the text, where it is sent.
attempt_bytes : ℕ → List ℕ
attempt_bytes attempt = if ltb 3 attempt then 0 ∷ attempt ∷ [] else []

rest-Ends : (attempt n : ℕ) → Ends (attempt_bytes attempt ++ replicate n 0)
unfolding attempt_bytes
rest-Ends attempt n = elim (Bool-cases (ltb 3 attempt)) [
  | inl e ↦ rw e at_nul
  | inr e ↦ rw e (zeros-Ends n)
]

module _ (timestamp attempt : ℕ) (payload : List ℕ) where
  abbrev text : List ℕ
  text = message_text timestamp attempt payload

  abbrev received : List ℕ
  received = padded (message_bytes timestamp attempt payload)

  abbrev filler : List ℕ
  filler =
      let n = length (message_bytes timestamp attempt payload) in
      replicate ((block_size - n % block_size) % block_size) 0

  received_lem : received ≡ text ++ (attempt_bytes attempt ++ filler)
  unfolding attempt_bytes
  received_lem = append_assoc text (attempt_bytes attempt) filler

  timestamp_lem : word32 received 0 ≡ timestamp
  unfolding message_text
  timestamp_lem = word32-bytes32 timestamp

  heard_text : Without 0 payload → (split_at_byte 0 (drop 5 received)).0 ≡ payload
  unfolding message_text
  heard_text no_nul =
      ap (λ xs. (split_at_byte 0 (drop 5 xs)).0) received_lem
      ∙ split_at_byte-append payload (attempt_bytes attempt ++ filler) no_nul (
          rest-Ends attempt (
            (block_size - length (message_bytes timestamp attempt payload) % block_size)
            % block_size))

  module _ (rh rh' : RuntimeHost) (h : MeshHost) (d d' : Dispatcher) (peer : Peer) (packet : Packet)
      (same : rh'.fragments ≡ rh.fragments)
      (fills : (n : ℕ) (frag1 frag2 out : List ℕ)
        → rh.fragments n frag1 frag2 ≡ some out
        → length out ≡ n)
      (sender : peer.public_key ≡ (own_identity d).pub_key) (no_nul : Without 0 payload) where
    digest_lem :
        ack_hash rh' (5 + length payload) received peer.public_key
        ≡ sha256_two_fragments rh.fragments 4 text (take public_key_size (own_identity d).pub_key)
    unfolding ack_hash message_text
    digest_lem =
        rw
          (
            same,
            sender,
            received_lem,
            take-append (5 + length payload) text (attempt_bytes attempt ++ filler) (omega arith),
          )
          refl

    crc_lem :
        (xs : List ℕ)
        → word32 (ack_hash rh' (5 + length payload) received peer.public_key ++ xs) 0
          ≡ expected_ack rh d text
    unfolding expected_ack sha256_two_fragments
    crc_lem xs =
        let key = take public_key_size (own_identity d).pub_key in
        ap (λ digest. word32 (digest ++ xs) 0) digest_lem
        ∙ word32-append (sha256_two_fragments rh.fragments 4 text key) xs
            (length-or_zeros 4 (rh.fragments 4 text key) (fills 4 text key))

    abbrev told : Dispatcher
    told = notify (text_message_publish peer packet timestamp payload) d'

    abbrev plain_ack : List ℕ → ℕ → List ℕ
    plain_ack bytes text_end =
        ack_hash rh' text_end bytes peer.public_key
        ++ ((if ltb (text_end + 1) (length bytes) then get_or bytes (text_end + 1) 0 else 0)
            ∷ take 1 (h.random told 1))

    ack_of_lem :
        ack_of h rh' told peer type_plain received (5 + length payload)
        ≡ some (plain_ack received (5 + length payload))
    unfolding ack_of
    ack_of_lem = let more : leb (5 + length payload) 4 ≡ false = ground arith in rw more refl

    on_text_at_lem :
        on_text_at h rh' d' peer packet type_plain received 5
        ≡ send_ack_or_path_return h rh' told peer packet (plain_ack received (5 + length payload))
    unfolding on_text_at handle_text_follow_up
    on_text_at_lem =
        let follow : ℕ → List ℕ → Dispatcher = λ t txt.
          handle_text_follow_up h rh' (notify (text_message_publish peer packet t txt) d') peer
            packet type_plain received (5 + length txt) in
        ap (λ t. follow t (split_at_byte 0 (drop 5 received)).0) timestamp_lem
        ∙ ap (follow timestamp) (heard_text no_nul)
        ∙ ap (ack_sent h rh' told peer packet) ack_of_lem

    length-ack_hash : length (ack_hash rh' (5 + length payload) received peer.public_key) ≡ 4
    unfolding sha256_two_fragments
    length-ack_hash =
        let key = take public_key_size (own_identity d).pub_key in
        ap length digest_lem ∙ length-or_zeros 4 (rh.fragments 4 text key) (fills 4 text key)

    -- The acknowledgement that is sent for the text has the checksum that the sender expects.
    pub on_text-message_bytes :
        (ack : List ℕ) × (on_text h rh' d' peer packet received
          ≡ send_ack_or_path_return h rh' told peer packet ack)
        × (word32 ack 0 ≡ expected_ack rh d text)
        × (4 ≤ length ack)
        × (length ack ≤ 6)
    unfolding on_text message_text
    on_text-message_bytes =
        let attempt_of = get_or received (5 + length payload + 1) 0 in
        (
          plain_ack received (5 + length payload),
          rw (no_flags attempt) on_text_at_lem,
          crc_lem _,
          omega (
            arith,
            length-ack_hash,
            length-append (ack_hash rh' (5 + length payload) received peer.public_key) (
                (if ltb (5 + length payload + 1) (length received) then attempt_of else 0)
                ∷ take 1 (h.random told 1)),
            length-take 1 (h.random told 1),
          ),
          omega (
            arith,
            length-ack_hash,
            length-append (ack_hash rh' (5 + length payload) received peer.public_key) (
                (if ltb (5 + length payload + 1) (length received) then attempt_of else 0)
                ∷ take 1 (h.random told 1)),
            length-take 1 (h.random told 1),
          ),
        )
