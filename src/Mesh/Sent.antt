-- ===== src/Mesh/Sent.antt =====
-- Who holds the packets that the runtime has `src/core/meshcore_mesh.c` make and send.
use meshcore.Prelude.{ℕ, ◌+◌, ◌-◌, ◌||◌, not, Option, none, some, List, ltb, ◌==◌}
use meshcore.Packet.{
  payload_max_len, payload_type_txt_msg, payload_type_req, payload_type_response,
  payload_type_anon_req, payload_type_grp_txt, payload_type_grp_data,
}
use meshcore.Cipher.{block_size}
use meshcore.Identity.{public_key_size, Identity, LocalIdentity}
use meshcore.Dispatcher.{Dispatcher, obtain_new_packet}
use meshcore.Mesh.{MeshHost, Channel}
use meshcore.Mesh.Create.{
  is_missing, create_advert, create_datagram, create_anon_datagram, create_group_datagram,
  create_path_return_by_identity, create_raw_data, create_trace, create_control_data,
  datagram_plaintext_fits, max_advert_data_size,
}
use meshcore.Mesh.Send.{send_flood, send_flood_coded, send_flood_by_transport_codes, send_zero_hop}
use meshcore.Mesh.Trade.{
  Obtains, Consumes, stays, if-Trade, if-Obtains, release_consumed_packet-Consumes,
  obtain_new_packet-Obtains, stored-Obtains, sealed-Obtains,
}
use meshcore.Mesh.Made.{create_path_return-Obtains, note_and_send-Consumes}

pub create_control_data-Obtains :
    (d : Dispatcher) (bytes : Option (List ℕ)) (len : ℕ)
    → Obtains d (create_control_data d bytes len)
unfolding create_control_data
create_control_data-Obtains d bytes len =
    if-Obtains (is_missing bytes len || ltb payload_max_len len) (stays none d)
      (stored-Obtains d (obtain_new_packet d) _ (obtain_new_packet-Obtains d))

pub create_raw_data-Obtains :
    (d : Dispatcher) (bytes : Option (List ℕ)) (len : ℕ) → Obtains d (create_raw_data d bytes len)
unfolding create_raw_data
create_raw_data-Obtains d bytes len =
    if-Obtains (is_missing bytes len || ltb payload_max_len len) (stays none d)
      (stored-Obtains d (obtain_new_packet d) _ (obtain_new_packet-Obtains d))

pub create_trace-Obtains :
    (d : Dispatcher) (tag auth_code flags : ℕ) → Obtains d (create_trace d tag auth_code flags)
unfolding create_trace
create_trace-Obtains d tag auth_code flags =
    stored-Obtains d (obtain_new_packet d) _ (obtain_new_packet-Obtains d)

module _ (h : MeshHost) (d : Dispatcher) where
  pub create_advert-Obtains :
      (identity : LocalIdentity) (app_data : Option (List ℕ)) (len : ℕ)
      → Obtains d (create_advert h d identity app_data len)
  unfolding create_advert
  create_advert-Obtains identity app_data len =
      if-Obtains (ltb max_advert_data_size len || is_missing app_data len) (stays none d)
        (stored-Obtains d (obtain_new_packet d) _ (obtain_new_packet-Obtains d))

  pub create_datagram-Obtains :
      (type : ℕ) (dest : Identity) (secret : List ℕ) (bytes : Option (List ℕ)) (len : ℕ)
      → Obtains d (create_datagram h d type dest secret bytes len)
  unfolding create_datagram
  create_datagram-Obtains type dest secret bytes len =
      if-Obtains (is_missing bytes len) (stays none d) (
        if-Obtains
          (not (
            type == payload_type_txt_msg
            || type == payload_type_req
            || type == payload_type_response))
          (stays none d)
          (if-Obtains (not (datagram_plaintext_fits len)) (stays none d)
            (sealed-Obtains d (obtain_new_packet d) _ _ _ (obtain_new_packet-Obtains d))))

  pub create_anon_datagram-Obtains :
      (type : ℕ) (sender : LocalIdentity) (dest : Identity) (secret : List ℕ)
      → (bytes : Option (List ℕ)) (len : ℕ)
      → Obtains d (create_anon_datagram h d type sender dest secret bytes len)
  unfolding create_anon_datagram
  create_anon_datagram-Obtains type sender dest secret bytes len =
      if-Obtains (is_missing bytes len) (stays none d) (
        if-Obtains (not (type == payload_type_anon_req)) (stays none d) (
          if-Obtains (ltb (payload_max_len - 1 - public_key_size - block_size + 1) len)
            (stays none d)
            (sealed-Obtains d (obtain_new_packet d) _ _ _ (obtain_new_packet-Obtains d))))

  pub create_group_datagram-Obtains :
      (type : ℕ) (channel : Channel) (bytes : Option (List ℕ)) (len : ℕ)
      → Obtains d (create_group_datagram h d type channel bytes len)
  unfolding create_group_datagram
  create_group_datagram-Obtains type channel bytes len =
      if-Obtains (is_missing bytes len) (stays none d) (
        if-Obtains (not (type == payload_type_grp_txt || type == payload_type_grp_data))
          (stays none d)
          (if-Obtains (ltb (payload_max_len - 1 - block_size + 1) len) (stays none d)
            (sealed-Obtains d (obtain_new_packet d) _ _ _ (obtain_new_packet-Obtains d))))

  pub create_path_return_by_identity-Obtains :
      (dest : Identity) (secret : List ℕ) (path : Option (List ℕ)) (path_len type : ℕ)
      → (extra : Option (List ℕ)) (extra_len : ℕ)
      → Obtains d
          (create_path_return_by_identity h d dest secret path path_len type extra extra_len)
  unfolding create_path_return_by_identity
  create_path_return_by_identity-Obtains dest secret path path_len type extra extra_len =
      create_path_return-Obtains h d _ secret path path_len type extra extra_len

  pub send_flood-Consumes :
      (p : Option ℕ) (delay path_hash_size : ℕ)
      → Consumes p d (send_flood h d p delay path_hash_size)
  unfolding send_flood
  send_flood-Consumes none delay path_hash_size = stays none d
  send_flood-Consumes (some p) delay path_hash_size =
      if-Trade _ (release_consumed_packet-Consumes d (some p))
        (note_and_send-Consumes h d p _ _ delay)

  send_flood_coded-Consumes :
      (p : ℕ) (codes : ℕ × ℕ) (delay path_hash_size : ℕ)
      → Consumes (some p) d (send_flood_coded h d p codes delay path_hash_size)
  unfolding send_flood_coded
  send_flood_coded-Consumes p codes delay path_hash_size =
      if-Trade _ (release_consumed_packet-Consumes d (some p))
        (note_and_send-Consumes h d p _ _ delay)

  pub send_flood_by_transport_codes-Consumes :
      (p : Option ℕ) (codes : Option (ℕ × ℕ)) (delay path_hash_size : ℕ)
      → Consumes p d (send_flood_by_transport_codes h d p codes delay path_hash_size)
  unfolding send_flood_by_transport_codes
  send_flood_by_transport_codes-Consumes none codes delay path_hash_size =
      release_consumed_packet-Consumes d none
  send_flood_by_transport_codes-Consumes (some p) none delay path_hash_size =
      release_consumed_packet-Consumes d (some p)
  send_flood_by_transport_codes-Consumes (some p) (some codes) delay path_hash_size =
      send_flood_coded-Consumes p codes delay path_hash_size

  pub send_zero_hop-Consumes : (p : Option ℕ) (delay : ℕ) → Consumes p d (send_zero_hop h d p delay)
  unfolding send_zero_hop
  send_zero_hop-Consumes none delay = stays none d
  send_zero_hop-Consumes (some p) delay = note_and_send-Consumes h d p _ 0 delay
