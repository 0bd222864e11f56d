-- ===== src/Runtime/Channels.antt =====
-- A text to a channel, from the sender in `src/runtime/meshcore_runtime_request.c` to what the host of a
-- receiver is told in `src/runtime/meshcore_runtime_receive.c` and
-- `src/runtime/meshcore_runtime_event_publish.c`.
use meshcore.Prelude.{
  ℕ, ◌+◌, ◌%◌, ◌-◌, ◌≤◌, ◌<◌, ◌≡◌, refl, ap, ◌∙◌, true, false, List, [], ◌∷◌, ◌++◌, length, take,
  drop, replicate, arith, ltb, ◌==◌, word32-bytes32, append_assoc, take_all, length-append,
}
use meshcore.Hex.{c_string}
use meshcore.Cipher.Blocks.{padded}
use meshcore.Cipher.{block_size}
use meshcore.Context.{chat, channel_message}
use meshcore.Packet.{Packet, payload_type_grp_txt}
use meshcore.Dispatcher.{Dispatcher}
use meshcore.Mesh.{Channel}
use meshcore.Runtime.Local.{RuntimeHost, notify, local_role_is}
use meshcore.Runtime.Publish.{
  split_at_byte, channel_text_publish, name_and_payload, max_message_len, name_max_len,
  message_route, target_prefix_bytes,
}
use meshcore.Runtime.Split.{
  Without, and_byte, zeros-Ends, split_at_byte-append, split_at_byte-found, append-Without,
  c_string-Without, c_string_self,
}
use meshcore.Runtime.Receive.{on_group_data_recv}
use meshcore.Runtime.Outbox.{name_prefix, channel_text}

module _ (timestamp : ℕ) (name payload : List ℕ) (some_name : 0 < length (c_string name))
    (short_name : length (c_string name) < name_max_len) (no_colon : Without 58 (c_string name))
    (some_payload : 0 < length payload) (no_nul : Without 0 payload)
    (fits : length payload + length (name_prefix name) ≤ max_message_len) where
  abbrev sender : List ℕ
  sender = c_string name

  abbrev text : List ℕ
  text = sender ++ (58 ∷ 32 ∷ payload)

  abbrev received : List ℕ
  received = padded (channel_text timestamp name payload)

  abbrev filler : List ℕ
  filler =
      let n = length (channel_text timestamp name payload) in
      replicate ((block_size - n % block_size) % block_size) 0

  prefix_lem : name_prefix name ≡ sender ++ (58 ∷ 32 ∷ [])
  unfolding name_prefix
  prefix_lem =
      take_all 34 (sender ++ (58 ∷ 32 ∷ [])) (omega (arith, length-append sender (58 ∷ 32 ∷ [])))

  text_lem : name_prefix name ++ payload ≡ text
  text_lem = rw prefix_lem (append_assoc sender (58 ∷ 32 ∷ []) payload)

  text_ends : Without 0 (name_prefix name ++ payload)
  text_ends = rw text_lem (
      append-Without sender (58 ∷ 32 ∷ payload) (c_string-Without name)
        (and_byte refl (and_byte refl no_nul)))

  heard_lem : (split_at_byte 0 (drop 5 received)).0 ≡ text
  heard_lem =
      let n = length (channel_text timestamp name payload) in
      split_at_byte-append (name_prefix name ++ payload) filler text_ends
        (zeros-Ends ((block_size - n % block_size) % block_size))
      ∙ text_lem

  split_lem : name_and_payload text (split_at_byte 58 text) ≡ (sender, payload)
  unfolding name_and_payload
  split_lem =
      let known : (length sender == 0) ≡ false = ground arith in
      rw
        (
          split_at_byte-found 58 sender (32 ∷ payload) no_colon,
          known,
          take_all 31 sender (omega arith),
          c_string_self sender (c_string-Without name),
        )
        refl

  publish_lem :
      (channel : Channel) (packet : Packet)
      → channel_text_publish channel packet timestamp text
        ≡ channel_message
            (message_route packet)
            (take target_prefix_bytes channel.secret)
            sender
            payload
            timestamp
            packet.snr_q4
          ∷ []
  unfolding channel_text_publish
  publish_lem channel packet =
      let more : (length text == 0) ≡ false =
        ground (arith, length-append sender (58 ∷ 32 ∷ payload)) in
      let more' : (length payload == 0) ≡ false = ground arith in
      rw (split_lem, more, more', take_all max_message_len payload (omega arith)) refl

  -- A text to a channel that the sender encrypts and, filled up with zeros, a receiver decrypts, is told
  -- to the receiver's host with the name of the sender and the payload. The name is not empty, has less
  -- than 32 bytes and no colon; the payload is not empty, has no terminator and fits with the name; and
  -- the receiver is a chat node.
  pub on_group_data_recv-channel_text :
      (rh : RuntimeHost) (d : Dispatcher) (packet : Packet) (channel : Channel)
      → local_role_is rh d chat ≡ true
      → on_group_data_recv rh d packet payload_type_grp_txt channel received
        ≡ notify
            (channel_message
                (message_route packet)
                (take target_prefix_bytes channel.secret)
                sender
                payload
                timestamp
                packet.snr_q4
              ∷ [])
            d
  unfolding on_group_data_recv
  on_group_data_recv-channel_text rh d packet channel is_chat =
      let some_text : (length text == 0) ≡ false =
        ground (arith, length-append sender (58 ∷ 32 ∷ payload)) in
      let long_enough : ltb 5 (length received) ≡ true = ground (
        arith,
        length-append (name_prefix name ++ payload) filler,
        length-append (name_prefix name) payload,
      ) in
      rw (is_chat, long_enough, heard_lem, some_text)
        (ap (λ told. notify told d)
          (ap (λ t. channel_text_publish channel packet t text) (word32-bytes32 timestamp)
            ∙ publish_lem channel packet))
