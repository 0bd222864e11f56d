-- ===== src/Runtime/Sent.antt =====
-- Who holds the packets that `src/runtime` makes: the answers of
-- `src/runtime/meshcore_runtime_receive.c` keep none.
use meshcore.Prelude.{
  ℕ, refl, if◌then◌else◌, Bool, true, false, Option, none, some, List, length, ltb,
}
use meshcore.Context.{RuntimeState}
use meshcore.Packet.{Packet, is_route_flood}
use meshcore.Dispatcher.{Dispatcher}
use meshcore.Mesh.{MeshHost, Peer}
use meshcore.Mesh.Create.{create_multi_ack_data}
use meshcore.Mesh.Trade.{Keeps, Obtains, stays, then-Trade, if-Trade}
use meshcore.Mesh.Made.{
  create_ack_data-Obtains, create_multi_ack_data-Obtains, send_direct-Consumes,
}
use meshcore.Mesh.Sent.{
  create_control_data-Obtains, create_datagram-Obtains, create_path_return_by_identity-Obtains,
  send_flood-Consumes, send_flood_by_transport_codes-Consumes, send_zero_hop-Consumes,
}
use meshcore.Runtime.Local.{
  RuntimeHost, NodeIdentity, synced, sync_local_identity, peer_path_get, flood_made, direct_made,
  routed, send_to_peer,
}
use meshcore.Runtime.Replies.{
  sent_before, extra_ack, ack_by_path, send_ack_direct, send_ack_or_path_return, ack_sent, ack_of,
  handle_text_follow_up, plain_path_return, coded_made, snr_path_return, path_return_by,
  build_forward_path_snrs, handle_discover_path_request, telemetry_sent, handle_telemetry_request,
  reply_sent, discover_reply, handle_control_discover_request,
}

pub with_state-Keeps :
    (s : RuntimeState) (d : Dispatcher)
    → Keeps d (record d { owner_mesh = record d.owner_mesh { runtime = s } })
with_state-Keeps s d = record { owned = λ held o. o; outbound = refl }

pub synced-Keeps : (i : Option NodeIdentity) (d : Dispatcher) → Keeps d (synced i d).1
synced-Keeps none d = stays none d
synced-Keeps (some identity) d = record { owned = λ held o. o; outbound = refl }

pub sync_local_identity-Keeps :
    (rh : RuntimeHost) (d : Dispatcher) → Keeps d (sync_local_identity rh d).1
unfolding sync_local_identity
sync_local_identity-Keeps rh d = synced-Keeps (rh.identity d) d

module _ (h : MeshHost) (rh : RuntimeHost) (d : Dispatcher) where
  pub flood_made-Keeps :
      (made : Option ℕ × Dispatcher) (delay_ms : ℕ)
      → Obtains d made
      → Keeps d (flood_made h rh made delay_ms)
  unfolding flood_made
  flood_made-Keeps (none, d1) delay_ms s = s
  flood_made-Keeps (some p, d1) delay_ms s =
      then-Trade s (send_flood-Consumes h d1 (some p) delay_ms _)

  pub direct_made-Keeps :
      (made : Option ℕ × Dispatcher) (path : List ℕ) (path_len delay_ms : ℕ)
      → Obtains d made
      → Keeps d (direct_made h made path path_len delay_ms)
  unfolding direct_made
  direct_made-Keeps (none, d1) path path_len delay_ms s = s
  direct_made-Keeps (some p, d1) path path_len delay_ms s =
      then-Trade s (send_direct-Consumes h d1 (some p) (some path) path_len delay_ms)

  pub routed-Keeps :
      (made : Option ℕ × Dispatcher) (path : Option (List ℕ × ℕ)) (delay_ms : ℕ)
      → Obtains d made
      → Keeps d (routed h rh made path delay_ms)
  routed-Keeps made none delay_ms s = flood_made-Keeps made delay_ms s
  routed-Keeps made (some (path, path_len)) delay_ms s =
      direct_made-Keeps made path path_len delay_ms s

  pub send_to_peer-Keeps :
      (made : Option ℕ × Dispatcher) (public_key : List ℕ) (delay_ms : ℕ)
      → Obtains d made
      → Keeps d (send_to_peer h rh made public_key delay_ms)
  unfolding send_to_peer
  send_to_peer-Keeps made public_key delay_ms s =
      routed-Keeps made (peer_path_get rh made.1 public_key) delay_ms s

  pub zero_hop_made-Keeps :
      (made : Option ℕ × Dispatcher) → Obtains d made → Keeps d (reply_sent h made)
  zero_hop_made-Keeps (none, d1) s = s
  zero_hop_made-Keeps (some p, d1) s = then-Trade s (send_zero_hop-Consumes h d1 (some p) _)

  sent_before-Keeps :
      (made : Option ℕ × Dispatcher) (path : List ℕ) (path_len delay_ms : ℕ)
      → Obtains d made
      → Keeps d (sent_before h made path path_len delay_ms).0
  unfolding sent_before
  sent_before-Keeps (none, d1) path path_len delay_ms s = s
  sent_before-Keeps (some p, d1) path path_len delay_ms s =
      then-Trade s (send_direct-Consumes h d1 (some p) (some path) path_len delay_ms)

  extra_ack-Keeps :
      (ack path : List ℕ) (path_len : ℕ) (b : Bool)
      → Keeps d
          (if b
            then sent_before h (create_multi_ack_data d (some ack) (length ack) 1) path path_len 200
            else (d, 200)).0
  extra_ack-Keeps ack path path_len true =
      sent_before-Keeps _ path path_len 200 (create_multi_ack_data-Obtains d (some ack) _ 1)
  extra_ack-Keeps ack path path_len false = stays none d

module _ (h : MeshHost) (rh : RuntimeHost) (d : Dispatcher) (peer : Peer) (packet : Packet) where
  ack_by_path-Keeps :
      (ack : List ℕ) (path : Option (List ℕ × ℕ)) → Keeps d (ack_by_path h rh d ack path)
  unfolding ack_by_path
  ack_by_path-Keeps ack none = flood_made-Keeps h rh d _ 200 (create_ack_data-Obtains d _ _)
  ack_by_path-Keeps ack (some (path, path_len)) =
      let first = extra_ack-Keeps h rh d ack path path_len (ltb 0 (h.extra_ack_transmit_count d)) in
      let d1 = (extra_ack h d ack path path_len).0 in
      then-Trade first
        (direct_made-Keeps h rh d1 _ path path_len _ (create_ack_data-Obtains d1 (some ack) _))

  ack_sent-Keeps : (ack : Option (List ℕ)) → Keeps d (ack_sent h rh d peer packet ack)
  unfolding send_ack_or_path_return send_ack_direct
  ack_sent-Keeps none = stays none d
  ack_sent-Keeps (some ack) =
      if-Trade (is_route_flood (some packet))
        (flood_made-Keeps h rh d _ 200 (create_path_return_by_identity-Obtains h d _ _ _ _ _ _ _))
        (ack_by_path-Keeps ack (peer_path_get rh d peer.public_key))

  pub handle_text_follow_up-Keeps :
      (flags : ℕ) (bytes : List ℕ) (text_end : ℕ)
      → Keeps d (handle_text_follow_up h rh d peer packet flags bytes text_end)
  unfolding handle_text_follow_up
  handle_text_follow_up-Keeps flags bytes text_end =
      ack_sent-Keeps (ack_of h rh d peer flags bytes text_end)

  plain_path_return-Keeps : Keeps d (plain_path_return h rh d peer packet)
  unfolding plain_path_return
  plain_path_return-Keeps =
      flood_made-Keeps h rh d _ 300 (create_path_return_by_identity-Obtains h d _ _ _ _ _ _ _)

  coded_made-Keeps :
      (made : Option ℕ × Dispatcher) → Obtains d made → Keeps d (coded_made h rh made)
  coded_made-Keeps (none, d1) s = s
  coded_made-Keeps (some p, d1) s =
      then-Trade s (send_flood_by_transport_codes-Consumes h d1 (some p) _ _ _)

  snr_path_return-Keeps :
      (hashes snrs : List ℕ) (path_len : Option ℕ)
      → Keeps d (snr_path_return h rh d peer packet hashes snrs path_len)
  unfolding snr_path_return
  snr_path_return-Keeps hashes snrs none = plain_path_return-Keeps
  snr_path_return-Keeps hashes snrs (some path_len) =
      coded_made-Keeps _ (create_path_return_by_identity-Obtains h d _ _ _ _ _ _ _)

  path_return_by-Keeps :
      (snrs : Option (List ℕ × List ℕ)) → Keeps d (path_return_by h rh d peer packet snrs)
  path_return_by-Keeps none = plain_path_return-Keeps
  path_return_by-Keeps (some (hashes, snrs)) = snr_path_return-Keeps hashes snrs _

  pub handle_discover_path_request-Keeps : Keeps d (handle_discover_path_request h rh d peer packet)
  unfolding handle_discover_path_request
  handle_discover_path_request-Keeps =
      if-Trade _ (path_return_by-Keeps (build_forward_path_snrs packet)) (stays none d)

  telemetry_sent-Keeps :
      (tag : ℕ) (payload : Option (List ℕ))
      → Keeps d (telemetry_sent h rh d peer packet tag payload)
  unfolding telemetry_sent
  telemetry_sent-Keeps tag none = stays none d
  telemetry_sent-Keeps tag (some payload) = if-Trade _ (stays none d) (
      if-Trade (is_route_flood (some packet))
        (flood_made-Keeps h rh d _ 300 (create_path_return_by_identity-Obtains h d _ _ _ _ _ _ _))
        (send_to_peer-Keeps h rh d _ peer.public_key 300 (create_datagram-Obtains h d _ _ _ _ _)))

  pub handle_telemetry_request-Keeps :
      (tag permission_mask : ℕ)
      → Keeps d (handle_telemetry_request h rh d peer packet tag permission_mask)
  unfolding handle_telemetry_request
  handle_telemetry_request-Keeps tag permission_mask = telemetry_sent-Keeps tag _

module _ (h : MeshHost) (rh : RuntimeHost) (d : Dispatcher) (packet : Packet) where
  discover_reply-Keeps :
      (last_modify : Option ℕ) (identity : Option NodeIdentity)
      → Keeps d (discover_reply h d packet last_modify identity)
  unfolding discover_reply
  discover_reply-Keeps none identity = stays none d
  discover_reply-Keeps (some last_modify) none = stays none d
  discover_reply-Keeps (some last_modify) (some identity) =
      if-Trade _ (stays none d) (
        if-Trade _ (stays none d)
          (zero_hop_made-Keeps h rh d _ (create_control_data-Obtains d _ _)))

  pub handle_control_discover_request-Keeps :
      Keeps d (handle_control_discover_request h rh d packet)
  unfolding handle_control_discover_request
  handle_control_discover_request-Keeps =
      if-Trade _ (stays none d) (discover_reply-Keeps (rh.last_modify d) (rh.identity d))
