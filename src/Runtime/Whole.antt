-- ===== src/Runtime/Whole.antt =====
-- The mesh with the handlers of `src/runtime/meshcore_runtime_receive.c`: they keep no packet of the
-- pool, which is what the theorems on the mesh ask of its handlers.
use meshcore.Prelude.{ℕ, Bool, true, false, none, if◌then◌else◌, List}
use meshcore.Packet.{Packet}
use meshcore.Identity.{Identity}
use meshcore.Dispatcher.{Dispatcher, packet_at}
use meshcore.Mesh.{
  MeshHost, Channel, Peer, Event, trace_recv, control_data_recv, raw_data_recv, ack_recv,
  peer_path_recv, peer_data_recv, anon_data_recv, group_data_recv, advert_recv,
}
use meshcore.Mesh.Trade.{Keeps, Reacts, stays, then-Trade, if-Trade}
use meshcore.Runtime.Local.{RuntimeHost, sync_local_identity}
use meshcore.Runtime.Replies.{type_signed_plain}
use meshcore.Runtime.Receive.{
  on_text_at, on_signed_text, on_text, on_request, on_peer_data_recv, on_path_extra,
  on_peer_path_recv, on_advert_recv, on_control_data_recv, on_raw_data_recv, on_group_data_recv,
  handled, on_event, with_runtime,
}
use meshcore.Runtime.Sent.{
  with_state-Keeps, sync_local_identity-Keeps, handle_text_follow_up-Keeps,
  handle_discover_path_request-Keeps, handle_telemetry_request-Keeps,
  handle_control_discover_request-Keeps,
}

module _ (h : MeshHost) (rh : RuntimeHost) (peer : Peer) (packet : Packet) (bytes : List ℕ) where
  on_text_at-Keeps :
      (d : Dispatcher) (flags text_off : ℕ)
      → Keeps d (on_text_at h rh d peer packet flags bytes text_off)
  unfolding on_text_at
  on_text_at-Keeps d flags text_off =
      then-Trade (with_state-Keeps _ d)
        (handle_text_follow_up-Keeps h rh _ peer packet flags bytes _)

  on_signed_text-Keeps :
      (d : Dispatcher) (s : Bool × Dispatcher)
      → Keeps d s.1
      → Keeps d (on_signed_text h rh s peer packet bytes)
  on_signed_text-Keeps d (false, d1) k = k
  on_signed_text-Keeps d (true, d1) k = then-Trade k (on_text_at-Keeps d1 type_signed_plain 9)

  module _ (d : Dispatcher) where
    on_text-Keeps : Keeps d (on_text h rh d peer packet bytes)
    unfolding on_text
    on_text-Keeps =
        if-Trade _
          (if-Trade _ (stays none d)
            (on_signed_text-Keeps d (sync_local_identity rh d) (sync_local_identity-Keeps rh d)))
          (if-Trade _ (on_text_at-Keeps d _ 5) (stays none d))

    on_request-Keeps : Keeps d (on_request h rh d peer packet bytes)
    unfolding on_request
    on_request-Keeps =
        if-Trade _ (handle_discover_path_request-Keeps h rh d peer packet) (
          if-Trade _ (handle_telemetry_request-Keeps h rh d peer packet _ _) (with_state-Keeps _ d))

    on_peer_data_recv-Keeps : (type : ℕ) → Keeps d (on_peer_data_recv h rh d peer packet type bytes)
    unfolding on_peer_data_recv
    on_peer_data_recv-Keeps type =
        then-Trade
          (if-Trade _ on_text-Keeps
            (if-Trade _ on_request-Keeps (if-Trade _ (with_state-Keeps _ d) (stays none d))))
          (with_state-Keeps _ _)

    on_path_extra-Keeps : (type : ℕ) → Keeps d (on_path_extra rh d peer type bytes)
    unfolding on_path_extra
    on_path_extra-Keeps type = search (if-Trade, stays, with_state-Keeps)

if-answer :
    {d : Dispatcher} (x y : Bool × Dispatcher) (c : Bool)
    → Keeps d x.1
    → Keeps d y.1
    → Keeps d (if c then x else y).1
if-answer x y true s t = s
if-answer x y false s t = t

module _ (h : MeshHost) (rh : RuntimeHost) (d : Dispatcher) where
  on_peer_path_recv-Keeps :
      (peer : Peer) (packet : Packet) (path : List ℕ) (path_len type : ℕ) (extra : List ℕ)
      → Keeps d (on_peer_path_recv rh d peer packet path path_len type extra).1
  unfolding on_peer_path_recv
  on_peer_path_recv-Keeps peer packet path path_len type extra =
      if-answer _ _ _ (with_state-Keeps _ d)
        (then-Trade (on_path_extra-Keeps h rh peer packet extra d type) (with_state-Keeps _ _))

  on_advert_recv-Keeps :
      (packet : Packet) (identity : Identity) (timestamp : ℕ) (app_data : List ℕ)
      → Keeps d (on_advert_recv rh d packet identity timestamp app_data)
  unfolding on_advert_recv
  on_advert_recv-Keeps packet identity timestamp app_data =
      search (if-Trade, stays, with_state-Keeps)

  on_control_data_recv-Keeps : (packet : Packet) → Keeps d (on_control_data_recv h rh d packet)
  unfolding on_control_data_recv
  on_control_data_recv-Keeps packet =
      if-Trade _
        (then-Trade (handle_control_discover_request-Keeps h rh d packet) (with_state-Keeps _ _))
        (stays none d)

  on_group_data_recv-Keeps :
      (packet : Packet) (type : ℕ) (channel : Channel) (bytes : List ℕ)
      → Keeps d (on_group_data_recv rh d packet type channel bytes)
  unfolding on_group_data_recv
  on_group_data_recv-Keeps packet type channel bytes = search (if-Trade, stays, with_state-Keeps)

  on_raw_data_recv-Keeps : (packet : Packet) → Keeps d (on_raw_data_recv d packet)
  unfolding on_raw_data_recv
  on_raw_data_recv-Keeps packet = if-Trade _ (with_state-Keeps _ d) (stays none d)

module _ (h : MeshHost) (rh : RuntimeHost) (c : Reacts h) where
  handled-Keeps : (e : Event) (d : Dispatcher) → Keeps d (handled h rh e d).1
  unfolding handled
  handled-Keeps (trace_recv p tag auth_code flags path_snrs path_hashes path_len) d =
      with_state-Keeps _ d
  handled-Keeps (control_data_recv p) d = on_control_data_recv-Keeps h rh d (packet_at d p)
  handled-Keeps (raw_data_recv p) d = on_raw_data_recv-Keeps h rh d (packet_at d p)
  handled-Keeps (ack_recv packet ack_crc) d = with_state-Keeps _ d
  handled-Keeps (peer_path_recv p peer path path_len extra_type extra) d =
      on_peer_path_recv-Keeps h rh d peer (packet_at d p) path path_len extra_type extra
  handled-Keeps (peer_data_recv p type peer bytes) d =
      on_peer_data_recv-Keeps h rh peer (packet_at d p) bytes d type
  handled-Keeps (anon_data_recv p secret sender bytes) d =
      c.handler (anon_data_recv p secret sender bytes) d
  handled-Keeps (group_data_recv p type channel bytes) d =
      on_group_data_recv-Keeps h rh d (packet_at d p) type channel bytes
  handled-Keeps (advert_recv p identity timestamp app_data) d =
      on_advert_recv-Keeps h rh d (packet_at d p) identity timestamp app_data

  -- The handlers of the runtime are such as the mesh asks for, when those of the host are.
  pub with_runtime-Reacts : Reacts (with_runtime h rh)
  unfolding on_event
  with_runtime-Reacts = record {
    handler = λ e d.
        if-answer (handled h rh e d) (h.react e d) d.owner_mesh.runtime.initialized
          (handled-Keeps e d) (c.handler e d);
  }
