-- ===== src/Mesh/Datagram.antt =====
-- `meshcore_mesh_create_datagram` of `src/core/meshcore_mesh.c`, from the sender's text to what the
-- receiver decrypts.
use meshcore.Prelude.{
  ℕ, ◌+◌, ◌-◌, ◌%◌, ◌≤◌, ◌<◌, ◌≡◌, ◌⊎◌, refl, sym, ap, ◌∙◌, true, Option, some, List, [], ◌∷◌, ◌++◌,
  take, drop, length, overwrite, replicate, arith, pos, length-append, length-take,
  length-overwrite, length-replicate, drop-append, drop-take, take_all, take-overwrite,
  get_or-set_self, append_assoc, leb→le, ℤ, ◌==◌, ◌||◌,
}
use mathlib.Core.Path.{subst}
use meshcore.Packet.{
  Packet, packet_init, payload_max_len, get_payload_type, payload_type_req, payload_type_response,
  payload_type_txt_msg,
}
use meshcore.Packet.Fields.{get_payload_type_lem}
use meshcore.Cipher.{Output, block_size, mac_size, encrypt_then_mac, mac_then_decrypt}
use meshcore.Cipher.Blocks.{padded}
use meshcore.Cipher.Loops.{Works}
use meshcore.Cipher.RoundTrip.{mac_then_decrypt-encrypt_then_mac, length-encrypt_then_mac}
use meshcore.Identity.{Identity, public_key_size, copy_hash_to, is_hash_match}
use meshcore.Identity.Hash.{copy_hash_by_len_lem, is_hash_match_by_len_iff}
use meshcore.Dispatcher.{Dispatcher, packet_at, obtain_new_packet}
use meshcore.Mesh.{MeshHost, own_identity, write_packet}
use meshcore.Mesh.Create.{create_datagram, datagram_plaintext_fits, with_payload, sealed}

-- What stands behind a front part that was stored with it can be read back.
stored_behind :
    (m n : ℕ) (array front rest : List ℕ)
    → length front ≡ m
    → length rest ≡ n
    → m + n ≤ length array
    → take n (drop m (overwrite array (front ++ rest))) ≡ rest
stored_behind m n array front rest e e' h =
    let all : length (front ++ rest) ≡ m + n = omega (arith, length-append front rest) in
    sym (
      drop-take m n (overwrite array (front ++ rest))
        (omega (arith, length-overwrite array (front ++ rest))))
    ∙ ap (drop m) (take-overwrite (m + n) array (front ++ rest) all h)
    ∙ drop-append m front rest e

stored_front :
    (array front rest : List ℕ)
    → length front ≤ length array
    → take (length front) (overwrite array (front ++ rest)) ≡ front
stored_front array [] rest h = refl
stored_front [] (x ∷ front) rest h = absurd (omega arith)
stored_front (a ∷ array) (x ∷ front) rest h =
    ap (λ ys. x ∷ ys) (stored_front array front rest (omega arith))

-- The packet is of the type, is addressed to the receiver, fits the payload array, and a receiver
-- with the secret gets the text back, filled up with zeros to whole blocks.
pub record Carries (h : MeshHost) (type : ℕ) (dest : Identity) (secret text : List ℕ) (q : Packet)
    : Type 0 where
  pub room : q.payload_len ≤ payload_max_len
  pub same_type : get_payload_type (some q) ≡ type
  pub addressed : is_hash_match dest (take 1 q.payload) ≡ true
  pub opens :
      mac_then_decrypt h.cipher secret
        (take (q.payload_len - 2) (drop 2 q.payload))
        (pos (q.payload_len - 2))
      ≡ (pos (length (padded text)), padded text)

module _ (h : MeshHost) (w : Works h.cipher) where
  module _ (d d1 : Dispatcher) (p : ℕ) (got : obtain_new_packet d ≡ (some p, d1))
      (inside : p < length d1.packet_manager.packet_buf)
      (array : length (packet_at d1 p).payload ≡ payload_max_len)
      (own : length (own_identity d).pub_key ≡ public_key_size) (type : ℕ) (dest : Identity)
      (key : length dest.pub_key ≡ public_key_size) (secret text : List ℕ)
      (some_text : 0 < length text) (fits : datagram_plaintext_fits (length text) ≡ true)
      (known : (type ≡ payload_type_txt_msg)
        ⊎ (type ≡ payload_type_req)
        ⊎ (type ≡ payload_type_response)) where
    abbrev made : Option ℕ × Dispatcher
    made = create_datagram h d type dest secret (some text) (length text)

    abbrev front : List ℕ
    front = (copy_hash_to dest).1 ++ (copy_hash_to (own_identity d)).1

    abbrev sent : Output
    sent = encrypt_then_mac h.cipher secret text (pos (length text))

    size : length (padded text) ≤ 176
    unfolding datagram_plaintext_fits
    size = omega (
      arith,
      leb→le (length text) 167 fits,
      length-append text (replicate ((block_size - length text % block_size) % block_size) 0),
      length-replicate {A = ℕ} ((block_size - length text % block_size) % block_size) 0,
    )

    length-front : length front ≡ 2
    unfolding copy_hash_to
    length-front =
        rw
          (
            copy_hash_by_len_lem dest 1 (omega arith),
            copy_hash_by_len_lem (own_identity d) 1 (omega arith),
          )
          (omega (
            arith,
            length-append (take 1 dest.pub_key) (take 1 (own_identity d).pub_key),
            length-take 1 dest.pub_key,
            length-take 1 (own_identity d).pub_key,
          ))

    is_known :
        (type == payload_type_txt_msg || type == payload_type_req || type == payload_type_response)
        ≡ true
    is_known = ground arith

    both :
        mac_then_decrypt h.cipher secret sent.1 sent.0 ≡ (pos (length (padded text)), padded text)
    both = (mac_then_decrypt-encrypt_then_mac h.cipher w secret text some_text).1

    count : sent.0 ≡ pos (mac_size + length (padded text))
    count = (mac_then_decrypt-encrypt_then_mac h.cipher w secret text some_text).0

    abbrev packet : Packet
    packet =
        with_payload type (front ++ sent.1) (length front + (mac_size + length (padded text)))
          (packet_at d1 p)

    made_lem : made ≡ (some p, write_packet d1 p packet)
    unfolding create_datagram sealed
    made_lem =
        let whole : sent ≡ (pos (mac_size + length (padded text)), sent.1) =
          ap (λ (k : ℤ). (k, sent.1)) count in
        rw (is_known, fits, got, take_all (length text) text (omega arith), whole) refl

    opens_again :
        mac_then_decrypt h.cipher secret sent.1 (pos (mac_size + length (padded text)))
        ≡ (pos (length (padded text)), padded text)
    opens_again = ap (mac_then_decrypt h.cipher secret sent.1) (sym count) ∙ both

    hash : (copy_hash_to dest).1 ≡ take 1 dest.pub_key
    unfolding copy_hash_to
    hash = rw (copy_hash_by_len_lem dest 1 (omega arith)) refl

    first : take 1 packet.payload ≡ take 1 dest.pub_key
    unfolding with_payload
    first =
        let rest = (copy_hash_to (own_identity d)).1 ++ sent.1 in
        let one : length (take 1 dest.pub_key) ≡ 1 = omega (arith, length-take 1 dest.pub_key) in
        rw (hash, append_assoc (take 1 dest.pub_key) (copy_hash_to (own_identity d)).1 sent.1)
          (subst
            (λ (k : ℕ).
              take k (overwrite (packet_at d1 p).payload (take 1 dest.pub_key ++ rest))
              ≡ take 1 dest.pub_key)
            one (stored_front (packet_at d1 p).payload (take 1 dest.pub_key) rest (omega arith)))

    behind : take (mac_size + length (padded text)) (drop 2 packet.payload) ≡ sent.1
    unfolding with_payload
    behind =
        stored_behind 2 (mac_size + length (padded text)) (packet_at d1 p).payload front sent.1
          length-front (length-encrypt_then_mac h.cipher w secret text some_text)
          (omega (arith, size))

    carried_len : packet.payload_len ≡ 2 + (mac_size + length (padded text))
    unfolding with_payload
    carried_len = omega (arith, length-front, size)

    type_of : get_payload_type (some packet) ≡ type
    unfolding with_payload
    type_of = ground (arith, get_payload_type_lem packet)

    carried : Carries h type dest secret text packet
    unfolding is_hash_match
    carried = record {
      room = omega (arith, carried_len, size);
      same_type = type_of;
      addressed =
          (is_hash_match_by_len_iff dest (take 1 packet.payload) 1 (omega arith)).1 (
            rw first
              (take_all 1 (take 1 dest.pub_key) (omega (arith, length-take 1 dest.pub_key))));
      opens =
          let rest : 2 + (mac_size + length (padded text)) - 2 ≡ mac_size + length (padded text) =
            omega arith in
          rw (carried_len, rest, behind) opens_again;
    }

    -- A text of a message, a request or a response, of 1 to 167 bytes, for which a packet is left:
    -- with a host whose calls succeed, the packet is made, fits, has the type, is addressed to the
    -- receiver, and gives the receiver the text, filled up with zeros to whole blocks.
    pub create_datagram-Carries :
        (made.0 ≡ some p) × Carries h type dest secret text (packet_at made.1 p)
    create_datagram-Carries =
        let stored : packet_at (write_packet d1 p packet) p ≡ packet =
          get_or-set_self d1.packet_manager.packet_buf p packet packet_init inside in
        rw (made_lem, stored) (refl, carried)
