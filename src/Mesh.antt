-- ===== src/Mesh.antt =====
-- `src/core/meshcore_mesh.{h,c}`: its platform and its small operations. The mesh is a `Dispatcher`
-- whose `owner_mesh` holds the rest of `struct meshcore_mesh`. A packet of the pool is its index, and
-- is read where the operation begins: the packets that the operation takes from the pool later are
-- others. The lines that only log are left out.
pub mod Create
pub mod Send
pub mod Acks
pub mod Receive
pub mod Peers
pub mod Flood
pub mod Trade
pub mod Made
pub mod Sent
pub mod Answers
pub mod Handle
pub mod Duplicates
pub mod Route
pub mod Direct
pub mod Search
pub mod Echo
pub mod Datagram
pub mod Flooded
use meshcore.Prelude.{
  ℕ, zero, suc, ◌+◌, ◌-◌, ◌*◌, ◌≡◌, Bool, true, false, ◌&&◌, ◌||◌, not, Option, none, some, List,
  [], ◌∷◌, ◌++◌, take, drop, overwrite, bit_and, bit_or, u8, u16, u32, ◌<<<◌, ltb, leb, ◌==◌,
  if◌then◌else◌,
}
use meshcore.Crypto.{Sha256}
use meshcore.Packet.{
  Packet, max_path_len, get_path_hash_count, get_path_hash_size, set_path_hash_count,
  is_route_flood, is_marked_do_not_retransmit,
}
use meshcore.Tables.{Tables, has_seen}
use meshcore.Identity.{Identity, LocalIdentity, Curve, copy_hash_by_len}
use meshcore.Node.{Node}
use meshcore.Dispatcher.{Dispatcher, packet_at, put_packet, release_packet}
use meshcore.Dispatcher.Receive.{action_release}
use meshcore.Dispatcher
use meshcore.Cipher

-- `struct meshcore_group_channel`, as far as the mesh reads it, and a peer that the host knows.
pub record Channel : Type 0 where
  pub hash : List ℕ
  pub secret : List ℕ

pub record Peer : Type 0 where
  pub slot : ℕ
  pub secret : List ℕ
  pub public_key : List ℕ
  pub name : List ℕ

-- What the runtime is told of a packet; the first argument is the packet. The packet of an
-- acknowledgement may be a copy that is not in the pool.
pub data Event : Type 0 where
  trace_recv : ℕ → ℕ → ℕ → ℕ → List ℕ → List ℕ → ℕ → Event
  control_data_recv : ℕ → Event
  raw_data_recv : ℕ → Event
  ack_recv : Packet → ℕ → Event
  peer_path_recv : ℕ → Peer → List ℕ → ℕ → ℕ → List ℕ → Event
  peer_data_recv : ℕ → ℕ → Peer → List ℕ → Event
  anon_data_recv : ℕ → List ℕ → Identity → List ℕ → Event
  group_data_recv : ℕ → ℕ → Channel → List ℕ → Event
  advert_recv : ℕ → Identity → ℕ → List ℕ → Event

-- What the mesh asks of the platform and of the runtime. `platform` is the dispatcher's. The answers
-- are given by the state they are asked in. `react` is the runtime's handler of an event: it may
-- change the mesh, and answers whether the path of a peer is to be returned.
pub record MeshHost : Type 0 where
  pub platform : meshcore.Dispatcher.Host
  pub sha : Sha256
  pub cipher : meshcore.Cipher.Host
  pub curve : Curve
  pub rtc_time : Dispatcher → ℕ
  pub random : Dispatcher → ℕ → List ℕ
  pub filter_recv_flood : Dispatcher → Packet → Bool
  pub allow_packet_forward : Dispatcher → Packet → Bool
  pub retransmit_delay : Dispatcher → Packet → ℕ
  pub direct_retransmit_delay : Dispatcher → Packet → ℕ
  pub extra_ack_transmit_count : Dispatcher → ℕ
  pub next_peer : Dispatcher → ℕ → ℕ → Option Peer
  pub peer_slots : ℕ
  pub search_channels : Dispatcher → ℕ → List Channel
  pub react : Event → Dispatcher → Bool × Dispatcher

abbrev pub snr_transport_code0 : ℕ
snr_transport_code0 = 0x534E

abbrev pub snr_transport_code1 : ℕ
snr_transport_code1 = 0x0001

-- `MESHCORE_ACTION_RETRANSMIT_DELAYED`.
unfoldable pub retransmit_delayed : ℕ → ℕ → ℕ
retransmit_delayed pri delay = bit_or (u32 ((1 + pri) <<< 24)) (u32 delay)

-- Writing through the pointer to a packet.
abbrev pub write_packet : Dispatcher → ℕ → Packet → Dispatcher
write_packet d p packet = record d { packet_manager = put_packet d.packet_manager p packet }

abbrev pub own_identity : Dispatcher → Identity
own_identity d = d.owner_mesh.self_id.identity

-- The event is told to the runtime, whose answer is not used.
abbrev pub tell : MeshHost → Event → Dispatcher → Dispatcher
tell h e d = (h.react e d).1

unfoldable pub seen_by : MeshHost → Dispatcher → Packet → Option Tables → Bool × Dispatcher
seen_by h d packet none = (false, d)
seen_by h d packet (some t) =
    let (seen, t1) = has_seen h.sha t (some packet) in
    (seen, record d { owner_mesh = record d.owner_mesh { tables = some t1 } })

unfoldable pub tables_has_seen : MeshHost → Dispatcher → Packet → Bool × Dispatcher
tables_has_seen h d packet = seen_by h d packet d.owner_mesh.tables

unfoldable pub transport_flood_hash_size : ℕ → Option (ℕ × ℕ) → ℕ
transport_flood_hash_size path_hash_size none = path_hash_size
transport_flood_hash_size path_hash_size (some (code0, code1)) =
    if code0 == snr_transport_code0 && code1 == snr_transport_code1 && ltb path_hash_size 3
    then u8 (path_hash_size + 1)
    else path_hash_size

unfoldable pub release_consumed_packet : Dispatcher → Option ℕ → Dispatcher
release_consumed_packet d none = d
release_consumed_packet d (some p) = release_packet d (some p)

-- `memcpy(&dest[i], src, length src)`.
abbrev pub store_at : List ℕ → ℕ → List ℕ → List ℕ
store_at dest i src = take i dest ++ overwrite (drop i dest) src

-- The loop that moves each hash to the place of the one before it, from the array at the hash that
-- is replaced.
unfoldable pub move_hashes : ℕ → ℕ → List ℕ → List ℕ
move_hashes zero sz path = path
move_hashes (suc rounds) sz path = take sz (drop sz path) ++ move_hashes rounds sz (drop sz path)

unfoldable pub remove_self_from_path : Packet → Packet
remove_self_from_path packet =
    let hash_count = get_path_hash_count (some packet) in
    let p1 = set_path_hash_count packet (u8 (hash_count - 1)) in
    let sz = get_path_hash_size (some p1) in
    if hash_count == 0
    then packet
    else record p1 { path = move_hashes (get_path_hash_count (some p1)) sz packet.path }

-- A flooded packet is sent on with this node's hash at the end of its path.
unfoldable pub route_recv_packet : MeshHost → Dispatcher → ℕ → ℕ × Dispatcher
route_recv_packet h d p =
    let packet = packet_at d p in
    let hash_count = get_path_hash_count (some packet) in
    let hash_size = get_path_hash_size (some packet) in
    let own = (copy_hash_by_len (own_identity d) hash_size).1 in
    let p1 = record packet { path = store_at packet.path (hash_count * hash_size) own } in
    let p2 = set_path_hash_count p1 (u8 (hash_count + 1)) in
    let d1 = write_packet d p p2 in
    if is_route_flood (some packet)
      && not (is_marked_do_not_retransmit (some packet))
      && leb ((hash_count + 1) * hash_size) max_path_len
      && h.allow_packet_forward d packet
    then (retransmit_delayed (get_path_hash_count (some p2)) (h.retransmit_delay d1 p2), d1)
    else (action_release, d)
