-- ===== src/Runtime/Conserved.antt =====
-- The whole library, from `meshcore_init` on, over any sequence of the calls of
-- `include/meshcore/runtime.h`.
use meshcore.Prelude.{
  ℤ, pos, negsuc, ℕ, ◌≡◌, refl, sym, Bool, true, false, not, ◌⊎◌, arith, Option, none, some, List,
  [], u32, ltb, ◌==◌, if◌then◌else◌, inl, inr,
}
use mathlib.Core.Path.{subst}
use meshcore.Pool.{Manager, prepare, get_free_count}
use meshcore.Pool.Owned.{IsOwned}
use meshcore.Pool.Steps.{given}
use meshcore.Pool.Start.{prepare-IsOwned}
use meshcore.Tables.{tables_init}
use meshcore.Dispatcher.{Dispatcher, init, begin, millis_get}
use meshcore.Dispatcher.Receive.{receive_raw, einval, enobufs}
use meshcore.Dispatcher.Send.{tx_done}
use meshcore.Dispatcher.Holdings.{Holds, receive_raw-Holds}
use meshcore.Dispatcher.Loop.{tx_done-Holds}
use meshcore.Mesh.{MeshHost}
use meshcore.Mesh.Trade.{Keeps, Reacts, stays, then-Trade, if-Trade}
use meshcore.Mesh.Handle.{
  node_host, mesh_init, mesh_begin, mesh_loop, on_recv_packet-HandsBack, mesh_loop-Holds,
}
use meshcore.Runtime.Pending.{correlation_cleanup}
use meshcore.Runtime.Local.{RuntimeHost, with_state, sync_local_identity}
use meshcore.Runtime.Receive.{with_runtime}
use meshcore.Runtime.Sent.{with_state-Keeps, sync_local_identity-Keeps}
use meshcore.Runtime.Whole.{with_runtime-Reacts}
use meshcore.Runtime.Timer.{timer_sync}
use meshcore.Runtime.Asking.{tag_or_time}
use meshcore.Runtime.Execute.{Request, execute}
use meshcore.Runtime.Asked.{execute-Keeps, tag_or_time-Keeps}
use meshcore.Runtime.Calls.{
  execute_now, requested, requested_with_tag, enodev, sent_with_tag, tag_of,
}
use meshcore.Runtime.Entry.{
  mesh_at, runtime_at, whole_at, finish, timer_fired, after_receive, radio_rx_inject, radio_tx_done,
  runtime_end, meshcore_deinit, begun, begin_with, meshcore_init, state_reset, Started, no_memory,
  already,
}

-- Every packet of the pool is in one place, while the runtime is initialized: on the free list, in a
-- queue, or on air.
abbrev Safe : Dispatcher → Type 0
Safe d = d.owner_mesh.runtime.initialized ≡ true → Holds d []

-- A call of the library. All the functions that ask for something to be sent are `requested` or
-- `requested_with_tag`, of some request.
pub data Call (h : MeshHost) (rh : RuntimeHost) (d : Dispatcher) : Dispatcher → Type 0 where
  initialize : Call h rh d (meshcore_init h rh d).1
  deinitialize : Call h rh d (meshcore_deinit d)
  fire : (now_ms : ℕ) → Call h rh d (timer_fired h rh d now_ms).1
  receive :
      (bytes : Option (List ℕ)) (len snr_q4 now_ms : ℕ)
      → Call h rh d (radio_rx_inject h rh d bytes len snr_q4 now_ms).1
  transmitted : (now_ms : ℕ) (success : Bool) → Call h rh d (radio_tx_done h rh d now_ms success).1
  ask : (valid : Bool) (request : Request) → Call h rh d (requested h rh d valid request).1
  ask_with_tag :
      (valid : Bool) (request_tag : Option ℕ) (request : ℕ → Request)
      → Call h rh d (requested_with_tag h rh d valid request_tag request).2

pub data Calls (h : MeshHost) (rh : RuntimeHost) (d : Dispatcher) : Dispatcher → Type 0 where
  no_call : Calls h rh d d
  and_call : (d1 d2 : Dispatcher) → Calls h rh d d1 → Call h rh d1 d2 → Calls h rh d d2

Keeps-Holds : {d d1 : Dispatcher} → Keeps d d1 → Holds d [] → Holds d1 []
Keeps-Holds {d} {d1} s o =
    subst (λ x. IsOwned d1.packet_manager (given x [])) (sym s.outbound)
      (s.owned (given d.outbound []) o)

-- What a call leaves, with the dispatcher among what it returns.
record Sound {R : Type 0} (f : R → Dispatcher) (r : R) : Type 0 where
  holds : Holds (f r) []

record Secure {R : Type 0} (f : R → Dispatcher) (r : R) : Type 0 where
  safe : Safe (f r)

-- A call is refused, or done by an initialized runtime.
if-Secure :
    {R : Type 0} (f : R → Dispatcher) (b : Bool) {x y : R}
    → Safe (f x)
    → (b ≡ true → Sound f y)
    → Secure f (if not b then x else y)
if-Secure f true s k = record { safe = λ e. (k refl).holds }
if-Secure f false s k = record { safe = s }

if-Safe :
    {R : Type 0} (f : R → Dispatcher) (b : Bool) (x y : R)
    → Safe (f x)
    → Safe (f y)
    → Safe (f (if b then x else y))
if-Safe f true x y s t = s
if-Safe f false x y s t = t

if-Sound :
    {R : Type 0} {f : R → Dispatcher} (b : Bool) (x y : R)
    → Sound f x
    → Sound f y
    → Sound f (if b then x else y)
if-Sound true x y s t = s
if-Sound false x y s t = t

result : ℤ × Dispatcher → Dispatcher
result r = r.1

result_with_tag : ℤ × Option ℕ × Dispatcher → Dispatcher
result_with_tag r = r.2

timer_sync-Keeps : (h : MeshHost) (d : Dispatcher) (now_ms : ℕ) → Keeps d (timer_sync h d now_ms)
unfolding timer_sync
timer_sync-Keeps h d now_ms = if-Trade _ (stays none d) (with_state-Keeps _ d)

finish-Keeps : (h : MeshHost) (now_ms : ℕ) (d : Dispatcher) → Keeps d (finish h now_ms d)
finish-Keeps h now_ms d = then-Trade (with_state-Keeps _ d) (timer_sync-Keeps h _ now_ms)

runtime_end-Safe : (d : Dispatcher) → Safe (runtime_end d)
unfolding runtime_end
runtime_end-Safe d e = cc

module _ (h : MeshHost) (rh : RuntimeHost) (c : Reacts h) where
  whole-Reacts : (now_ms : ℕ) → Reacts (whole_at h rh now_ms)
  whole-Reacts now_ms =
      with_runtime-Reacts (mesh_at h now_ms) (runtime_at rh now_ms) (record { handler = c.handler })

  after_loop :
      (now_ms : ℕ) (d : Dispatcher)
      → Holds d []
      → Holds (finish h now_ms (mesh_loop (whole_at h rh now_ms) d)) []
  after_loop now_ms d o =
      Keeps-Holds (finish-Keeps h now_ms (mesh_loop (whole_at h rh now_ms) d))
        (mesh_loop-Holds (whole_at h rh now_ms) (whole-Reacts now_ms) d [] o)

  timer_fired-Secure :
      (d : Dispatcher) (now_ms : ℕ) → Safe d → Secure result (timer_fired h rh d now_ms)
  unfolding timer_fired result
  timer_fired-Secure d now_ms s =
      let cleaned = record d.owner_mesh.runtime {
        requests = correlation_cleanup rh.long_bits now_ms d.owner_mesh.runtime.requests;
      } in
      if-Secure result d.owner_mesh.runtime.initialized s (λ e. record {
        holds = after_loop now_ms _ (Keeps-Holds (with_state-Keeps cleaned d) (s e));
      })

  after_receive-Sound :
      (now_ms : ℕ) (r : ℤ × Dispatcher) → Holds r.1 [] → Sound result (after_receive h rh now_ms r)
  unfolding result
  after_receive-Sound now_ms (pos n, d) o =
      if-Sound (n == 0) (pos 0, finish h now_ms (mesh_loop (whole_at h rh now_ms) d))
        (pos n, finish h now_ms d) (record { holds = after_loop now_ms d o })
        (record { holds = Keeps-Holds (finish-Keeps h now_ms d) o })
  after_receive-Sound now_ms (negsuc n, d) o = record {
    holds = Keeps-Holds (finish-Keeps h now_ms d) o;
  }

  radio_rx_inject-Secure :
      (d : Dispatcher) (bytes : Option (List ℕ)) (len snr_q4 now_ms : ℕ)
      → Safe d
      → Secure result (radio_rx_inject h rh d bytes len snr_q4 now_ms)
  unfolding radio_rx_inject result
  radio_rx_inject-Secure d none len snr_q4 now_ms s = record { safe = s }
  radio_rx_inject-Secure d (some bytes) len snr_q4 now_ms s =
      let w = whole_at h rh now_ms in
      let hands = on_recv_packet-HandsBack w (whole-Reacts now_ms) in
      if-Secure result d.owner_mesh.runtime.initialized s (λ e.
        let received = receive_raw (node_host w) d (some bytes) len snr_q4 in
        let rest = after_receive h rh now_ms received in
        if-Sound (len == 0) (einval, d) (if ltb 255 len then (einval, d) else rest)
          (record { holds = s e })
          (if-Sound (ltb 255 len) (einval, d) rest (record { holds = s e })
            (after_receive-Sound now_ms received
              (receive_raw-Holds (node_host w) hands d (some bytes) len snr_q4 [] (s e)))))

  tx_done-after :
      (d : Dispatcher) (r : Bool × Dispatcher)
      → Holds d []
      → ((d.outbound ≡ none) × (r ≡ (false, d)))
        ⊎ ((r.0 ≡ true) × (r.1.outbound ≡ none) × IsOwned r.1.packet_manager [])
      → Holds r.1 []
  tx_done-after d r o (inl (idle, same)) = rw same o
  tx_done-after d r o (inr (handled, idle, owned)) =
      subst (λ x. IsOwned r.1.packet_manager (given x [])) (sym idle) owned

  radio_tx_done-Secure :
      (d : Dispatcher) (now_ms : ℕ) (success : Bool)
      → Safe d
      → Secure result (radio_tx_done h rh d now_ms success)
  unfolding radio_tx_done result
  radio_tx_done-Secure d now_ms success s =
      let w = node_host (whole_at h rh now_ms) in
      if-Secure result d.owner_mesh.runtime.initialized s (λ e. record {
        holds =
            after_loop now_ms (tx_done w d success).1
              (tx_done-after d (tx_done w d success) (s e) (tx_done-Holds w d success [] (s e)));
      })

  execute_now-Sound :
      (request : Request) (d : Dispatcher) → Holds d [] → Sound result (execute_now h rh request d)
  unfolding execute_now result
  execute_now-Sound request d o =
      let d1 = execute h rh request d in
      let now_ms = u32 (rh.millis d1) in
      let done : ℤ × Dispatcher = (pos 0, timer_sync h d1 now_ms) in
      let full = get_free_count d.packet_manager == 0 in
      if-Sound (not d.owner_mesh.runtime.initialized) (enodev, d)
        (if full then (enobufs, d) else done) (record { holds = o })
        (if-Sound full (enobufs, d) done (record { holds = o })
          (record {
            holds =
                Keeps-Holds
                  (then-Trade (execute-Keeps h rh request d) (timer_sync-Keeps h d1 now_ms)) o;
          }))

  requested-Secure :
      (d : Dispatcher) (valid : Bool) (request : Request)
      → Safe d
      → Secure result (requested h rh d valid request)
  unfolding requested result
  requested-Secure d valid request s = if-Secure result d.owner_mesh.runtime.initialized s (λ e.
      if-Sound (not valid) (einval, d) (execute_now h rh request d) (record { holds = s e })
        (execute_now-Sound request d (s e)))

  sent_with_tag-Sound :
      (request_tag : Option ℕ) (tag : ℕ) (r : ℤ × Dispatcher)
      → Sound result r
      → Sound result_with_tag (sent_with_tag request_tag tag r)
  unfolding result result_with_tag
  sent_with_tag-Sound request_tag tag (rc, d) s = record { holds = s.holds }

  requested_with_tag-Secure :
      (d : Dispatcher) (valid : Bool) (request_tag : Option ℕ) (request : ℕ → Request)
      → Safe d
      → Secure result_with_tag (requested_with_tag h rh d valid request_tag request)
  unfolding requested_with_tag result_with_tag
  requested_with_tag-Secure d valid request_tag request s =
      let (tag, d1) = tag_or_time h d (tag_of request_tag) in
      if-Secure result_with_tag d.owner_mesh.runtime.initialized s (λ e.
        if-Sound (not valid) (einval, request_tag, d)
          (sent_with_tag request_tag tag (execute_now h rh (request tag) d1))
          (record { holds = s e })
          (sent_with_tag-Sound request_tag tag _ (
            execute_now-Sound (request tag) d1
              (Keeps-Holds (tag_or_time-Keeps h d (tag_of request_tag)) (s e)))))

  begun-Safe : (r : Bool × Dispatcher) → Holds r.1 [] → Safe (begun h rh r).1
  begun-Safe (false, d) o = runtime_end-Safe d
  begun-Safe (true, d) o =
      let d1 = with_state (λ s. record s { initialized = true }) d in
      let told = timer_sync-Keeps h d1 (u32 (rh.millis d1)) in
      λ e. Keeps-Holds (then-Trade (with_state-Keeps d1.owner_mesh.runtime d) told) o

  begin_with-Safe : (d : Dispatcher) (m : Manager) → IsOwned m [] → Safe (begin_with h rh d m).1
  unfolding begin_with mesh_init mesh_begin init begin millis_get
  begin_with-Safe d m o =
      let whole = with_runtime h rh in
      let d1 = mesh_begin whole (mesh_init whole m (some tables_init) d) in
      let synced = sync_local_identity rh (with_state state_reset d1) in
      if-Safe (λ (r : Started × Dispatcher). r.1) (not m.initialized) (no_memory, runtime_end d)
        (begun h rh synced) (runtime_end-Safe d)
        (begun-Safe synced
          (Keeps-Holds (sync_local_identity-Keeps rh (with_state state_reset d1)) o))

  meshcore_init-Safe : (d : Dispatcher) → Safe d → Safe (meshcore_init h rh d).1
  unfolding meshcore_init
  meshcore_init-Safe d s =
      let m = prepare (pos 10) in
      if-Safe (λ (r : Started × Dispatcher). r.1) d.owner_mesh.runtime.initialized (already, d)
        (begin_with h rh (runtime_end d) m) s
        (begin_with-Safe (runtime_end d) m (prepare-IsOwned 10 (omega arith) (omega arith)).0)

  meshcore_deinit-Safe : (d : Dispatcher) → Safe d → Safe (meshcore_deinit d)
  unfolding meshcore_deinit
  meshcore_deinit-Safe d s =
      if-Safe (λ (x : Dispatcher). x) (not d.owner_mesh.runtime.initialized) d (runtime_end d) s
        (runtime_end-Safe d)

  Call-Safe : {d d1 : Dispatcher} → Safe d → Call h rh d d1 → Safe d1
  unfolding result result_with_tag
  Call-Safe {d} s initialize = meshcore_init-Safe d s
  Call-Safe {d} s deinitialize = meshcore_deinit-Safe d s
  Call-Safe {d} s (fire now_ms) = (timer_fired-Secure d now_ms s).safe
  Call-Safe {d} s (receive bytes len snr_q4 now_ms) =
      (radio_rx_inject-Secure d bytes len snr_q4 now_ms s).safe
  Call-Safe {d} s (transmitted now_ms success) = (radio_tx_done-Secure d now_ms success s).safe
  Call-Safe {d} s (ask valid request) = (requested-Secure d valid request s).safe
  Call-Safe {d} s (ask_with_tag valid request_tag request) =
      (requested_with_tag-Secure d valid request_tag request s).safe

  Calls-Safe :
      (d d1 : Dispatcher) → d.owner_mesh.runtime.initialized ≡ false → Calls h rh d d1 → Safe d1
  Calls-Safe d d1 off no_call = λ e. cc
  Calls-Safe d d1 off (and_call d2 d3 before call) = Call-Safe (Calls-Safe d d2 off before) call

  -- Whatever calls are made of the library, in any order, from a runtime that is not initialized on:
  -- if it is initialized after them, every packet of the pool is in exactly one place, on the free
  -- list, in a queue or on air, and no caller keeps one; for handlers of the host that keep none.
  pub calls_conserve :
      (d d1 : Dispatcher)
      → d.owner_mesh.runtime.initialized ≡ false
      → Calls h rh d d1
      → d1.owner_mesh.runtime.initialized ≡ true
      → Holds d1 []
  calls_conserve d d1 off calls = Calls-Safe d d1 off calls
