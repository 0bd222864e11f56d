-- ===== src/Tests/Runs.antt =====
-- The runtime of a chat node, between two nodes and over calls of the library.
use meshcore.Prelude.{
  ℕ, ◌≤◌, false, ◌+◌, ◌%◌, ◌^◌, ◌≡◌, ◌≢◌, ◌⊎◌, refl, sym, ap, ◌∙◌, true, false, Option, none, some,
  List, [], ◌∷◌, ◌++◌, pos, arith, replicate, length, take, word32, length-replicate,
}
use meshcore.Context.{chat, channel_message, timer_arm}
use meshcore.Crypto.{sha256_two_fragments, or_zeros}
use meshcore.Packet.{
  Packet, packet_init, payload_type_grp_txt, payload_type_txt_msg, is_route_flood, get_route_type,
}
use meshcore.Cipher.Blocks.{padded}
use meshcore.Hex.{c_string}
use meshcore.Dispatcher.{Dispatcher}
use meshcore.Mesh.{Channel, Peer}
use meshcore.Runtime.Local.{
  RuntimeHost, NodeIdentity, role_to_advert_type, peer_path_get, sync_local_identity, local_role_is,
  notify,
}
use meshcore.Runtime.Pending.{expected_ack_register, expected_ack_handle, request_timeout_ms}
use meshcore.Runtime.{time_reached}
use meshcore.Runtime.Publish.{text_message_publish, message_route, target_prefix_bytes}
use meshcore.Runtime.Receive.{on_peer_data_recv, on_group_data_recv}
use meshcore.Runtime.Outbox.{message_text, message_bytes, expected_ack, channel_text, name_prefix}
use meshcore.Runtime.Split.{Without, no_byte, and_byte}
use meshcore.Runtime.Answered.{on_peer_data_recv-acknowledged}
use meshcore.Mesh.Flooded.{Queued, IsAck}
use meshcore.Runtime.Channels.{on_group_data_recv-channel_text}
use meshcore.Runtime.Execute.{Request, control_data, message_send_to_node}
use meshcore.Runtime.Calls.{execute_now, requested}
use meshcore.Runtime.Entry.{
  meshcore_init, meshcore_deinit, begin_with, runtime_end, state_reset, started, already,
  no_identity,
}
use meshcore.Runtime.Refused.{Accepted, requested-Accepted}
use meshcore.Runtime.Lifecycle.{meshcore_init_lem}
use meshcore.Runtime.Conserved.{Calls, no_call, and_call, initialize, ask, calls_conserve}
use meshcore.Runtime.Timer.{timer_sync}
use meshcore.Dispatcher.Holdings.{Holds}
use meshcore.Mesh.Handle.{mesh_init, mesh_begin}
use meshcore.Pool.{prepare, prepare_queues, fill, get_free_count}
use meshcore.Queue.{queue_init, queue_add, queue_count}
use meshcore.Dispatcher.{init, begin, millis_get}
use meshcore.Runtime.Execute.{execute, execute_control_data}
use meshcore.Mesh.Create.{create_control_data, stored, with_payload}
use meshcore.Dispatcher.{
  packet_at, obtain_new_packet, obtained, send_packet, millis_has_now_passed, future_millis,
}
use meshcore.Pool.{alloc_new, deinit, queue_outbound}
use meshcore.Queue.{queue_remove_by_idx}
use meshcore.Mesh.Send.{send_zero_hop, note_and_send, with_route}
use meshcore.Packet.{is_valid_path_len, path_len_field}
use meshcore.Mesh.{tables_has_seen, seen_by}
use meshcore.Runtime.Armed.{timer_sync_lem}
use meshcore.Runtime.Pending.{expiries}
use meshcore.Dispatcher.Deadline.{candidates}
use meshcore.Dispatcher.Soonest.{Soonest}
use meshcore.Tests.Pools.{busy-IsSchedule}
use meshcore.Tests.Air.{quiet_host}
use meshcore.Tests.Packets.{text_packet}
use meshcore.Tests.Meshes.{lone_host, lone_host-Reacts, at_hand}
use meshcore.Tests.Waits.{waiting, waiting-IsTable}

-- A digest of two fragments that counts their bytes.
abbrev count_digest : ℕ → List ℕ → List ℕ → Option (List ℕ)
count_digest n frag1 frag2 = some (replicate n (length frag1 + length frag2))

count_fills :
    (n : ℕ) (frag1 frag2 out : List ℕ) → count_digest n frag1 frag2 ≡ some out → length out ≡ n
count_fills n frag1 frag2 out e =
    let same : replicate n (length frag1 + length frag2) ≡ out = cc in
    ap length (sym same) ∙ length-replicate n (length frag1 + length frag2)

-- "Bo", and a platform of a chat node of this name.
abbrev bo : List ℕ
bo = 66 ∷ 111 ∷ 0 ∷ []

abbrev chat_node : NodeIdentity
chat_node = record {
  name = bo;
  role = chat;
  public_key = replicate 32 9;
  private_key = replicate 64 5;
}

abbrev chat_host : RuntimeHost
chat_host = record {
  long_bits = 32;
  millis = λ d. 5000;
  rtc = λ d. 1700000000;
  identity = λ d. some chat_node;
  policy = λ d. none;
  peer_path = λ d key. none;
  fragments = count_digest;
  telemetry = λ d key mask. none;
  last_modify = λ d. none;
  advert_profile = λ d. none;
  channel_hash = λ secret. some (7 ∷ []);
  has_channel = λ d hash secret. true;
}

abbrev node : Dispatcher
node = at_hand text_packet

-- The peer who sent the text has the key of the node.
abbrev writer : Peer
writer = record { slot = 0; secret = replicate 32 1; public_key = replicate 32 9; name = bo }

-- "Hi".
abbrev hi : List ℕ
hi = 72 ∷ 105 ∷ []

hi-Without : Without 0 hi
hi-Without = and_byte refl (and_byte refl no_byte)

waited_for : expected_ack chat_host node (message_text 1700000000 5 hi) ≢ 0
unfolding expected_ack message_text sha256_two_fragments or_zeros
waited_for = omega arith

still_waits : time_reached 32 9000 ((5000 + request_timeout_ms) % 2 ^ 32) ≡ false
unfolding time_reached
still_waits = refl

chat_here : local_role_is chat_host node chat ≡ true
unfolding local_role_is role_to_advert_type
chat_here = refl

abbrev a_channel : Channel
a_channel = record { hash = 7 ∷ []; secret = replicate 32 6 }

bo_text : (c_string bo ≡ 66 ∷ 111 ∷ []) × (length (name_prefix bo) ≡ 4)
unfolding c_string name_prefix
bo_text = (refl, refl)

bo-Without : Without 58 (c_string bo)
unfolding c_string
bo-Without = and_byte refl (and_byte refl no_byte)

on_group_data_recv-channel_text_example :
    on_group_data_recv chat_host node text_packet payload_type_grp_txt a_channel
      (padded (channel_text 1700000000 bo hi))
    ≡ notify
        (channel_message
            (message_route text_packet)
            (take target_prefix_bytes a_channel.secret)
            (c_string bo)
            hi
            1700000000
            text_packet.snr_q4
          ∷ [])
        node
on_group_data_recv-channel_text_example =
    on_group_data_recv-channel_text 1700000000 bo hi (omega (arith, ap length bo_text.0))
      (omega (arith, ap length bo_text.0)) bo-Without (omega arith) hi-Without
      (omega (arith, bo_text.1)) chat_host node text_packet a_channel chat_here

abbrev a_message : Request
a_message = message_send_to_node (replicate 32 3) true 0 hi

requested-Accepted_example :
    let r = requested lone_host chat_host node true a_message in
    ((r.0 ≢ pos 0) × (r.1 ≡ node)) ⊎ ((r.0 ≡ pos 0) × Accepted node true)
requested-Accepted_example = requested-Accepted lone_host chat_host node true a_message

-- The node before it is initialized.
abbrev asleep : Dispatcher
asleep = record node {
  owner_mesh = record node.owner_mesh {
    runtime = record node.owner_mesh.runtime { initialized = false };
  };
}

meshcore_init_lem_example :
    let r = meshcore_init lone_host chat_host asleep in
    (((r.0 ≡ started) × (meshcore_init lone_host chat_host r.1 ≡ (already, r.1)))
      ⊎ ((r.0 ≡ no_identity) × (r.1.owner_mesh.runtime.initialized ≡ false)))
    × ((meshcore_deinit r.1).owner_mesh.runtime.initialized ≡ false)
meshcore_init_lem_example = meshcore_init_lem lone_host chat_host asleep refl

-- The node is started and asked to send five bytes of control data to its neighbours.
abbrev awake : Dispatcher
awake = (meshcore_init lone_host chat_host asleep).1

abbrev five_bytes : Request
five_bytes = control_data (0x90 ∷ 1 ∷ 2 ∷ 3 ∷ 4 ∷ [])

abbrev asked : Dispatcher
asked = (requested lone_host chat_host awake true five_bytes).1

two-Calls : Calls lone_host chat_host asleep asked
two-Calls = and_call awake asked (and_call asleep awake no_call initialize) (ask true five_bytes)

asked_on : asked.owner_mesh.runtime.initialized ≡ true
unfolding requested execute_now meshcore_init begin_with runtime_end sync_local_identity timer_sync
    state_reset mesh_init mesh_begin prepare prepare_queues fill init begin millis_get queue_init
    queue_add get_free_count queue_count execute execute_control_data create_control_data stored
    obtain_new_packet obtained alloc_new queue_remove_by_idx send_zero_hop note_and_send send_packet
    is_valid_path_len path_len_field tables_has_seen seen_by deinit with_route with_payload
    queue_outbound millis_has_now_passed future_millis
asked_on = refl

calls_conserve_example : Holds asked []
calls_conserve_example =
    calls_conserve lone_host chat_host lone_host-Reacts asleep asked refl two-Calls asked_on

awake_on : awake.owner_mesh.runtime.initialized ≡ true
unfolding meshcore_init begin_with runtime_end sync_local_identity timer_sync state_reset mesh_init
    mesh_begin prepare prepare_queues fill init begin millis_get queue_init queue_add get_free_count
    queue_count
awake_on = refl

awake-Holds : Holds awake []
awake-Holds =
    calls_conserve lone_host chat_host lone_host-Reacts asleep awake refl
      (and_call asleep awake no_call initialize) awake_on

-- The text as it comes along a path, and the node when it told of it.
abbrev routed_packet : Packet
routed_packet = record text_packet { header = 10 }

routed_by_path : is_route_flood (some routed_packet) ≡ false
unfolding is_route_flood get_route_type
routed_by_path = refl

abbrev with_text : Dispatcher
with_text = notify (text_message_publish writer routed_packet 1700000000 hi) awake

abbrev with_packet : Dispatcher
with_packet = (obtain_new_packet with_text).1

one_free :
    (obtain_new_packet with_text ≡ (some 0, with_packet))
    × (length with_packet.packet_manager.packet_buf ≡ 10)
    × (length (packet_at with_packet 0).payload ≡ 184)
unfolding obtain_new_packet obtained alloc_new queue_remove_by_idx meshcore_init begin_with
    runtime_end sync_local_identity timer_sync state_reset mesh_init mesh_begin prepare
    prepare_queues fill init begin millis_get queue_init queue_add get_free_count queue_count deinit
    packet_init
one_free = (refl, refl, refl)

no_path_known : peer_path_get chat_host with_text writer.public_key ≡ none
unfolding peer_path_get
no_path_known = refl

awake_chats : local_role_is chat_host awake chat ≡ true
unfolding local_role_is role_to_advert_type
awake_chats = refl

on_peer_data_recv-acknowledged_example :
    let crc = expected_ack chat_host node (message_text 1700000000 5 hi) in
    let acks = expected_ack_register 32 5000 waiting crc (some (replicate 32 3)) 5 in
    let after =
      on_peer_data_recv lone_host chat_host awake writer routed_packet payload_type_txt_msg
        (padded (message_bytes 1700000000 5 hi)) in
    (ack : List ℕ) × (q : Packet) × Queued with_packet 0 q after
    × IsAck ack q
    × (4 ≤ length ack)
    × ((expected_ack_handle 32 9000 acks (word32 ack 0)).0 ≡ true)
on_peer_data_recv-acknowledged_example =
    on_peer_data_recv-acknowledged 1700000000 5 hi chat_host chat_host lone_host node awake writer
      routed_packet refl count_fills refl hi-Without awake_chats routed_by_path no_path_known
      awake-Holds with_packet 0 one_free.0 (omega (arith, one_free.1)) one_free.2 waiting
      waiting-IsTable waited_for (replicate 32 3) 32 5000 9000 still_waits

-- The node with a filled send queue while it waits for a trace.
abbrev at_work : Dispatcher
at_work = record node {
  owner_mesh = record node.owner_mesh {
    runtime = record node.owner_mesh.runtime { requests = waiting };
  };
}

timer_sync_lem_example :
    (t : ℕ) × (timer_sync lone_host at_work 50 ≡ notify (timer_arm t ∷ []) at_work)
    × Soonest (expiries waiting ++ candidates quiet_host at_work 50) 50 t
timer_sync_lem_example =
    timer_sync_lem lone_host at_work 50 refl busy-IsSchedule busy-IsSchedule (omega arith)
