-- ===== src/Runtime/Entry.antt =====
-- The functions of `src/runtime/meshcore.c` by which the platform runs the library. While one of them
-- runs, the clock of milliseconds stands at its argument. The call in which a function finds a runtime
-- that is not initialized does nothing.
use meshcore.Prelude.{
  ℤ, pos, negsuc, ℕ, u32, Bool, true, false, not, Option, none, some, List, replicate, ltb, ◌==◌,
  if◌then◌else◌,
}
use meshcore.Context.{RuntimeState}
use meshcore.Pool.{Manager, prepare, deinit}
use meshcore.Tables.{tables_init}
use meshcore.Dispatcher.{Dispatcher}
use meshcore.Dispatcher.Receive.{receive_raw, einval}
use meshcore.Dispatcher.Send.{tx_done}
use meshcore.Mesh.{MeshHost}
use meshcore.Mesh.Handle.{node_host, mesh_init, mesh_begin, mesh_loop}
use meshcore.Runtime.Pending.{correlation_cleanup, expected_ack_clear, pending_clear}
use meshcore.Runtime.Local.{RuntimeHost, with_state, sync_local_identity}
use meshcore.Runtime.Receive.{with_runtime}
use meshcore.Runtime.Timer.{timer_sync}
use meshcore.Runtime.Calls.{enodev}

-- The hosts while the clock is overridden, and the whole mesh with them.
abbrev pub mesh_at : MeshHost → ℕ → MeshHost
mesh_at h now_ms = record h { platform = record h.platform { clock = λ reads. now_ms } }

abbrev pub runtime_at : RuntimeHost → ℕ → RuntimeHost
runtime_at rh now_ms = record rh { millis = λ d. now_ms }

abbrev pub whole_at : MeshHost → RuntimeHost → ℕ → MeshHost
whole_at h rh now_ms = with_runtime (mesh_at h now_ms) (runtime_at rh now_ms)

-- What ends each of the functions.
abbrev pub finish : MeshHost → ℕ → Dispatcher → Dispatcher
finish h now_ms d = timer_sync h (with_state (λ s. record s { last_now_ms = now_ms }) d) now_ms

unfoldable pub timer_fired : MeshHost → RuntimeHost → Dispatcher → ℕ → ℤ × Dispatcher
timer_fired h rh d now_ms =
    let cleaned =
      with_state (λ s. record s { requests = correlation_cleanup rh.long_bits now_ms s.requests })
        d in
    if not d.owner_mesh.runtime.initialized
    then (enodev, d)
    else (pos 0, finish h now_ms (mesh_loop (whole_at h rh now_ms) cleaned))

-- A packet that was received is handled at once; one that cannot be parsed is not an error here.
abbrev pub after_receive : MeshHost → RuntimeHost → ℕ → ℤ × Dispatcher → ℤ × Dispatcher
after_receive h rh now_ms (pos n, d) =
    if n == 0
    then (pos 0, finish h now_ms (mesh_loop (whole_at h rh now_ms) d))
    else (pos n, finish h now_ms d)
after_receive h rh now_ms (negsuc n, d) = (if n == 21 then pos 0 else negsuc n, finish h now_ms d)

unfoldable pub radio_rx_inject :
    MeshHost → RuntimeHost → Dispatcher → Option (List ℕ) → ℕ → ℕ → ℕ → ℤ × Dispatcher
radio_rx_inject h rh d none len snr_q4 now_ms =
    (if not d.owner_mesh.runtime.initialized then enodev else einval, d)
radio_rx_inject h rh d (some bytes) len snr_q4 now_ms =
    if not d.owner_mesh.runtime.initialized
    then (enodev, d)
    else if len == 0
    then (einval, d)
    else if ltb 255 len
    then (einval, d)
    else after_receive h rh now_ms
        (receive_raw (node_host (whole_at h rh now_ms)) d (some bytes) len snr_q4)

abbrev pub ealready : ℤ
ealready = negsuc 113

unfoldable pub radio_tx_done : MeshHost → RuntimeHost → Dispatcher → ℕ → Bool → ℤ × Dispatcher
radio_tx_done h rh d now_ms success =
    let (handled, d1) = tx_done (node_host (whole_at h rh now_ms)) d success in
    if not d.owner_mesh.runtime.initialized then (enodev, d) else (
      if handled then pos 0 else ealready,
      finish h now_ms (mesh_loop (whole_at h rh now_ms) d1),
    )

-- A context of zeros, and `meshcore_runtime_state_reset`; what the host was told stays told.
unfoldable pub state_reset : RuntimeState → RuntimeState
state_reset s = record s {
  last_now_ms = 0;
  rtc_clock = 0;
  requests = record {
    expected_acks = replicate 8 expected_ack_clear;
    expected_ack_next = 0;
    pending_discovery = pending_clear;
    pending_trace = pending_clear;
    pending_telemetry = pending_clear;
    pending_binary = pending_clear;
  };
}

-- `meshcore_deinit`: the packet manager is emptied and the runtime no longer initialized. The other
-- fields of the context, which the code zeroes, are set up again before they are read.
unfoldable pub runtime_end : Dispatcher → Dispatcher
runtime_end d =
    with_state (λ s. record (state_reset s) { initialized = false })
      (record d { packet_manager = deinit; outbound = none })

unfoldable pub meshcore_deinit : Dispatcher → Dispatcher
meshcore_deinit d = if not d.owner_mesh.runtime.initialized then d else runtime_end d

-- How `meshcore_init` ends: with 0, -EALREADY, -ENOMEM, or the error of the host.
pub data Started : Type 0 where
  started : Started
  already : Started
  no_memory : Started
  no_identity : Started

abbrev pub begun : MeshHost → RuntimeHost → Bool × Dispatcher → Started × Dispatcher
begun h rh (false, d) = (no_identity, runtime_end d)
begun h rh (true, d) =
    let d1 = with_state (λ s. record s { initialized = true }) d in
    (started, timer_sync h d1 (u32 (rh.millis d1)))

abbrev pub runtime_packet_pool_size : ℕ
runtime_packet_pool_size = 10

-- `meshcore_runtime_begin` with a packet manager that was prepared.
unfoldable pub begin_with : MeshHost → RuntimeHost → Dispatcher → Manager → Started × Dispatcher
begin_with h rh d m =
    let whole = with_runtime h rh in
    let d1 = mesh_begin whole (mesh_init whole m (some tables_init) d) in
    if not m.initialized
    then (no_memory, runtime_end d)
    else begun h rh (sync_local_identity rh (with_state state_reset d1))

unfoldable pub meshcore_init : MeshHost → RuntimeHost → Dispatcher → Started × Dispatcher
meshcore_init h rh d =
    if d.owner_mesh.runtime.initialized
    then (already, d)
    else begin_with h rh (runtime_end d) (prepare (pos runtime_packet_pool_size))
