-- ===== src/Runtime/Lifecycle.antt =====
-- `meshcore_init` and `meshcore_deinit` of `src/runtime/meshcore.c`.
use meshcore.Prelude.{
  pos, ℕ, ◌≡◌, ◌⊎◌, refl, ap, Bool, true, false, not, some, arith, if◌then◌else◌, inl, inr,
  Bool-cases,
}
use meshcore.Pool.{Manager, prepare}
use meshcore.Pool.Start.{prepare-IsOwned}
use meshcore.Dispatcher.{Dispatcher}
use meshcore.Mesh.{MeshHost}
use meshcore.Mesh.Handle.{mesh_init, mesh_begin}
use meshcore.Tables.{tables_init}
use meshcore.Runtime.Receive.{with_runtime}
use meshcore.Runtime.Local.{sync_local_identity}
use meshcore.Runtime.Local.{RuntimeHost, with_state}
use meshcore.Runtime.Timer.{timer_sync}
use meshcore.Runtime.Entry.{
  Started, started, already, no_memory, no_identity, begun, begin_with, runtime_end, meshcore_init,
  meshcore_deinit, state_reset,
}

-- How a call of `meshcore_init` ends.
abbrev Ended : Started × Dispatcher → Type 0
Ended r =
    ((r.0 ≡ started) × (r.1.owner_mesh.runtime.initialized ≡ true))
    ⊎ ((r.0 ≡ no_identity) × (r.1.owner_mesh.runtime.initialized ≡ false))

module _ (h : MeshHost) (rh : RuntimeHost) where
  timer_sync-initialized :
      (d : Dispatcher) (now_ms : ℕ)
      → (timer_sync h d now_ms).owner_mesh.runtime.initialized ≡ d.owner_mesh.runtime.initialized
  unfolding timer_sync
  timer_sync-initialized d now_ms = elim (Bool-cases d.owner_mesh.runtime.initialized) [
    | inl e ↦ rw e refl
    | inr e ↦ rw e refl
  ]

  if-Ended :
      (b : Bool) (x y : Started × Dispatcher) → b ≡ false → Ended y → Ended (if b then x else y)
  if-Ended b x y e s = rw e s

  begun-Ended : (r : Bool × Dispatcher) → Ended (begun h rh r)
  unfolding runtime_end
  begun-Ended (false, d) = inr (refl, refl)
  begun-Ended (true, d) = inl (refl, timer_sync-initialized _ _)

  begin_with-Ended :
      (d : Dispatcher) (m : Manager) → m.initialized ≡ true → Ended (begin_with h rh d m)
  unfolding begin_with
  begin_with-Ended d m e =
      let whole = with_runtime h rh in
      let d1 = mesh_begin whole (mesh_init whole m (some tables_init) d) in
      if-Ended (not m.initialized) (no_memory, runtime_end d)
        (begun h rh (sync_local_identity rh (with_state state_reset d1))) (ap not e) (begun-Ended _)

  init-initialized :
      (d : Dispatcher)
      → d.owner_mesh.runtime.initialized ≡ true
      → meshcore_init h rh d ≡ (already, d)
  unfolding meshcore_init
  init-initialized d e = ground arith

  started-again :
      (r : Started × Dispatcher)
      → Ended r
      → ((r.0 ≡ started) × (meshcore_init h rh r.1 ≡ (already, r.1)))
        ⊎ ((r.0 ≡ no_identity) × (r.1.owner_mesh.runtime.initialized ≡ false))
  started-again r (inl (e, on)) = inl (e, init-initialized r.1 on)
  started-again r (inr ends) = inr ends

  meshcore_init-Ended :
      (d : Dispatcher) → d.owner_mesh.runtime.initialized ≡ false → Ended (meshcore_init h rh d)
  unfolding meshcore_init
  meshcore_init-Ended d off =
      let m = prepare (pos 10) in
      if-Ended d.owner_mesh.runtime.initialized (already, d) (begin_with h rh (runtime_end d) m) off
        (begin_with-Ended (runtime_end d) m
          (prepare-IsOwned 10 (omega arith) (omega arith)).0.ready)

  deinit-off : (d : Dispatcher) → (meshcore_deinit d).owner_mesh.runtime.initialized ≡ false
  unfolding meshcore_deinit runtime_end
  deinit-off d = elim (Bool-cases d.owner_mesh.runtime.initialized) [
    | inl e ↦ ground arith
    | inr e ↦ ground arith
  ]

  -- From a runtime that is not initialized, `meshcore_init` never fails for want of memory: it starts,
  -- and then a second call changes nothing and says so, or it finds no identity of the host and
  -- leaves the runtime not initialized; and `meshcore_deinit` ends it.
  pub meshcore_init_lem :
      (d : Dispatcher)
      → d.owner_mesh.runtime.initialized ≡ false
      → let r = meshcore_init h rh d in
        (((r.0 ≡ started) × (meshcore_init h rh r.1 ≡ (already, r.1)))
          ⊎ ((r.0 ≡ no_identity) × (r.1.owner_mesh.runtime.initialized ≡ false)))
        × ((meshcore_deinit r.1).owner_mesh.runtime.initialized ≡ false)
  meshcore_init_lem d off =
      let r = meshcore_init h rh d in (started-again r (meshcore_init-Ended d off), deinit-off r.1)
