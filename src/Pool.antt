-- ===== src/Pool.antt =====
-- `struct meshcore_packet_queue_manager` of `src/support/meshcore_packet_manager.{h,c}`: a pool of
-- packets whose pointers move between the free list, the two queues and the callers.
-- A packet pointer is an index into `packet_buf`.
pub mod Count
pub mod Hands
pub mod Owned
pub mod Reach
pub mod Start
pub mod Steps
use meshcore.Prelude.{
  ℕ, zero, suc, ◌+◌, Bool, true, false, ◌&&◌, not, Option, none, some, List, replicate, set, ltb,
  ◌==◌, if◌then◌else◌, ℤ, pos, negsuc,
}
use meshcore.Packet.{Packet, packet_init}
use meshcore.Queue.{
  Queue, max_pool_size, queue_zero, queue_init, queue_get, queue_add, queue_count,
  queue_count_before, queue_next_scheduled_get, queue_item_at, queue_remove_by_idx,
}

pub record Manager : Type 0 where
  pub packet_buf : List Packet
  pub pool_size : ℕ
  pub initialized : Bool
  pub unused : Queue
  pub send_queue : Queue
  pub rx_queue : Queue

-- `meshcore_packet_queue_manager_deinit` leaves zeros.
unfoldable pub deinit : Manager
deinit = record {
  packet_buf = replicate max_pool_size packet_init;
  pool_size = 0;
  initialized = false;
  unused = queue_zero;
  send_queue = queue_zero;
  rx_queue = queue_zero;
}

-- The loop that puts every packet on the free list.
unfoldable pub fill : ℕ → ℕ → Manager → Manager
fill zero i m = record m { initialized = true }
fill (suc rounds) i m =
    let (ok, unused') = queue_add m.unused (some i) 0 0 in
    let rest =
      fill rounds (i + 1)
        (record m { packet_buf = set m.packet_buf i packet_init; unused = unused' }) in
    if ok then rest else deinit

unfoldable pub prepare_queues : ℕ → Manager → Manager
prepare_queues pool_size m =
    let (unused_ok, unused') = queue_init m.unused (pos pool_size) in
    let (send_ok, send') = queue_init m.send_queue (pos pool_size) in
    let (rx_ok, rx') = queue_init m.rx_queue (pos pool_size) in
    if not (unused_ok && (send_ok && rx_ok))
    then deinit
    else fill pool_size 0
        (record m { pool_size = pool_size; unused = unused'; send_queue = send'; rx_queue = rx' })

unfoldable pub prepare : ℤ → Manager
prepare (negsuc n) = deinit
prepare (pos pool_size) =
    if pool_size == 0
    then deinit
    else if ltb max_pool_size pool_size
    then deinit
    else prepare_queues pool_size deinit

unfoldable pub alloc_new : Manager → Option ℕ × Manager
alloc_new m =
    let (packet, unused') = queue_remove_by_idx m.unused (pos 0) in
    if not m.initialized then (none, m) else (packet, record m { unused = unused' })

unfoldable pub free : Manager → Option ℕ → Manager
free m none = m
free m (some packet) =
    let (ok, unused') = queue_add m.unused (some packet) 0 0 in
    if not m.initialized then m else record m { unused = unused' }

unfoldable pub queue_outbound : Manager → Option ℕ → ℕ → ℕ → Manager
queue_outbound m none priority scheduled_for = m
queue_outbound m (some packet) priority scheduled_for =
    let (ok, send') = queue_add m.send_queue (some packet) priority scheduled_for in
    if not m.initialized
    then m
    else if ok
    then record m { send_queue = send' }
    else free m (some packet)

unfoldable pub queue_inbound : Manager → Option ℕ → ℕ → Manager
queue_inbound m none scheduled_for = m
queue_inbound m (some packet) scheduled_for =
    let (ok, rx') = queue_add m.rx_queue (some packet) 0 scheduled_for in
    if not m.initialized
    then m
    else if ok
    then record m { rx_queue = rx' }
    else free m (some packet)

unfoldable pub get_next_outbound : Manager → ℕ → Option ℕ × Manager
get_next_outbound m now =
    let (packet, send') = queue_get m.send_queue now in
    if not m.initialized then (none, m) else (packet, record m { send_queue = send' })

unfoldable pub get_next_inbound : Manager → ℕ → Option ℕ × Manager
get_next_inbound m now =
    let (packet, rx') = queue_get m.rx_queue now in
    if not m.initialized then (none, m) else (packet, record m { rx_queue = rx' })

unfoldable pub remove_outbound_by_idx : Manager → ℤ → Option ℕ × Manager
remove_outbound_by_idx m i =
    let (packet, send') = queue_remove_by_idx m.send_queue i in
    if not m.initialized then (none, m) else (packet, record m { send_queue = send' })

unfoldable pub get_outbound_by_idx : Manager → ℤ → Option ℕ
get_outbound_by_idx m i = if not m.initialized then none else queue_item_at m.send_queue i

unfoldable pub get_outbound_count : Manager → ℕ → ℕ
get_outbound_count m now = if not m.initialized then 0 else queue_count_before m.send_queue now

unfoldable pub get_outbound_total : Manager → ℕ
get_outbound_total m = if not m.initialized then 0 else queue_count m.send_queue

unfoldable pub get_free_count : Manager → ℕ
get_free_count m = if not m.initialized then m.pool_size else queue_count m.unused

unfoldable pub next_outbound_scheduled_get : Manager → ℕ → Option ℕ
next_outbound_scheduled_get m now =
    if not m.initialized then none else queue_next_scheduled_get m.send_queue now

unfoldable pub next_inbound_scheduled_get : Manager → ℕ → Option ℕ
next_inbound_scheduled_get m now =
    if not m.initialized then none else queue_next_scheduled_get m.rx_queue now
